-- ===== src/ClientLoop/Lock.antt =====
-- The read lock that SendRoomMSG keeps when the room is missing.
use mathlib.Core.Path.{subst}
use go_api_practice.Prelude.{
  ℕ, ◌+◌, ◌<◌, ◌≤◌, Bool, Option, none, some, List, [], ◌∷◌, ◌≡◌, ◌≢◌, refl, sym, ap, inl, inr,
  if◌then◌else◌, String, string_key, arith, Option-cases, get_elem?,
}
use go_api_practice.Prelude.Assoc.{lookup}
use go_api_practice.Prelude.Members.{contains}
use go_api_practice.Prelude.Mutex.{RwMutex, r_lock, r_unlock, w_lock}
use go_api_practice.Prelude.Run.{Run, done, waits, panics, await, done-injective, >>=-eq-done}
use go_api_practice.ClientLoop.{
  Room, WsServer, BroadcastWorker, ClientMsg, Written, RegisterCmd, register_broadcast_cmd,
  register_room_cmd, unregister_room_cmd, unregister_cmd, register_broadcast, unregister, join_room,
  left_room, leave_room, sent_room_msg, send_room_msg, broadcast_msg, taken_client, accept_client,
  written_broadcast, handle_broadcast, register_cmd, pinged, read_msg, tick, Event, connect,
  registered, read, ticked, client_taken, msg_taken, step, steps, deref,
}
use go_api_practice.ClientLoop.Steps.{After, done-After, silent-After, read_msg-After}

-- With a reader, no handler takes the lock for writing.
w_lock-readers : (mu : RwMutex) → 0 < mu.readers → w_lock mu ≡ none
unfolding w_lock
w_lock-readers mu h = ground arith

-- How the handlers that return leave the lock's readers.
abbrev KeepsReaders : WsServer → WsServer → Type 0
KeepsReaders svr svr' = svr.mu.readers ≤ svr'.mu.readers

left_room-mu :
    (svr svr' : WsServer) (id r : String) (o : Option Room)
    → left_room svr id r o ≡ done svr'
    → svr'.mu ≡ svr.mu
unfolding left_room
left_room-mu svr svr' id r none h = absurd (ground arith)
left_room-mu svr svr' id r (some room) h =
    let (_, _, h₁) = >>=-eq-done (if contains id room.clients then done id else panics) _ h in
    let (_, _, h₂) = >>=-eq-done (deref (lookup id svr.heap)) _ h₁ in
    ap (λ x. x.mu) (sym (done-injective _ _ h₂))

-- A read lock is taken once more, and given back.
r_lock-readers : (m m' : RwMutex) → await (r_lock m) ≡ done m' → m'.readers ≡ m.readers + 1
unfolding r_lock
r_lock-readers m m' h = ground arith

leave_room-readers :
    (svr svr' : WsServer) (id r : String)
    → leave_room svr id r ≡ done svr'
    → svr.mu.readers ≤ svr'.mu.readers
unfolding leave_room r_unlock
leave_room-readers svr svr' id r h =
    let (mu, l, e) = >>=-eq-done (await (r_lock svr.mu)) _ h in
    omega (
      arith,
      r_lock-readers svr.mu mu l,
      ap (λ m. m.readers)
          (left_room-mu (record svr { mu = r_unlock mu }) svr' id r (lookup r svr.rooms) e),
    )

sent_room_msg-readers :
    (svr : WsServer) (mu : RwMutex) (contents id r : String) (o : Option Room)
    → mu.readers ≤ (sent_room_msg svr mu contents id r o).0.mu.readers + 1
unfolding sent_room_msg r_unlock
sent_room_msg-readers svr mu contents id r none = omega arith
sent_room_msg-readers svr mu contents id r (some room) = ground arith

send_room_msg-readers :
    (svr svr' : WsServer) (contents id r : String) (sent : List (String × Written)) (ok : Bool)
    → send_room_msg svr contents id r ≡ done (svr', sent, ok)
    → svr.mu.readers ≤ svr'.mu.readers
unfolding send_room_msg
send_room_msg-readers svr svr' contents id r sent ok h =
    let (mu, l, e) = >>=-eq-done (await (r_lock svr.mu)) _ h in
    let kept = ap (λ x. x.0.mu.readers) (done-injective _ _ e) in
    omega (
      arith,
      r_lock-readers svr.mu mu l,
      kept,
      sent_room_msg-readers svr mu contents id r (lookup r svr.rooms),
    )

never_locked : (mu m : RwMutex) → 0 < mu.readers → await (w_lock mu) ≡ done m → ⊥
never_locked mu m p h = ground (arith, ap await (w_lock-readers mu p))

register_broadcast_waits :
    (svr svr' : WsServer) (id : String) → 0 < svr.mu.readers → register_broadcast svr id ≢ done svr'
unfolding register_broadcast
register_broadcast_waits svr svr' id p h =
    let (m, l, _) = >>=-eq-done (await (w_lock svr.mu)) _ h in never_locked svr.mu m p l

unregister_waits :
    (svr svr' : WsServer) (id : String) → 0 < svr.mu.readers → unregister svr id ≢ done svr'
unfolding unregister
unregister_waits svr svr' id p h =
    let (m, l, _) = >>=-eq-done (await (w_lock svr.mu)) _ h in never_locked svr.mu m p l

join_room_waits :
    (svr svr' : WsServer) (id r : String) → 0 < svr.mu.readers → join_room svr id r ≢ done svr'
unfolding join_room
join_room_waits svr svr' id r p h =
    let (m, l, _) = >>=-eq-done (await (w_lock svr.mu)) _ h in never_locked svr.mu m p l

register_cmd-readers :
    (svr svr' : WsServer) (cmd : RegisterCmd) (id r : String)
    → 0 < svr.mu.readers
    → register_cmd svr cmd id r ≡ done svr'
    → svr.mu.readers ≤ svr'.mu.readers
unfolding register_cmd
register_cmd-readers svr svr' register_broadcast_cmd id r p h =
    absurd (register_broadcast_waits svr svr' id p h)
register_cmd-readers svr svr' register_room_cmd id r p h =
    absurd (join_room_waits svr svr' id r p h)
register_cmd-readers svr svr' unregister_room_cmd id r p h = leave_room-readers svr svr' id r h
register_cmd-readers svr svr' unregister_cmd id r p h = absurd (unregister_waits svr svr' id p h)

-- What a handler that returns leaves: at least as many readers.
abbrev Keeps : WsServer → Run (WsServer × List (String × Written)) → Type 0
Keeps svr x = After (λ svr'. svr.mu.readers ≤ svr'.mu.readers) x

pinged-Keeps : (svr : WsServer) (id : String) → Keeps svr (pinged svr id)
unfolding pinged After
pinged-Keeps svr id svr' sent h =
    let (_, _, e) = >>=-eq-done (deref (lookup id svr.heap)) _ h in
    omega (arith, ap (λ x. x.0.mu.readers) (done-injective _ _ e))

read_msg-Keeps :
    (svr : WsServer) (id : String) (msg : ClientMsg)
    → 0 < svr.mu.readers
    → Keeps svr (read_msg svr id msg)
unfolding broadcast_msg
read_msg-Keeps svr id msg p =
    read_msg-After (λ svr'. svr.mu.readers ≤ svr'.mu.readers) svr id msg (omega arith)
      (λ svr' sent ok h. send_room_msg-readers svr svr' msg.contents id msg.room_id sent ok h)
      (λ svr' h. absurd (join_room_waits svr svr' id msg.room_id p h))
      (λ svr' h. leave_room-readers svr svr' id msg.room_id h) (pinged-Keeps svr id) (omega arith)

tick-mu :
    (svr svr' : WsServer) (id : String) (closed : Bool)
    → tick svr id ≡ done (svr', closed)
    → svr'.mu ≡ svr.mu
unfolding tick
tick-mu svr svr' id closed h =
    let (_, _, e) = >>=-eq-done (deref (lookup id svr.heap)) _ h in
    ap (λ x. x.0.mu) (sym (done-injective _ _ e))

tick-Keeps : (svr : WsServer) (id : String) → Keeps svr (step svr (ticked id))
unfolding step After
tick-Keeps svr id svr' sent h =
    let ((t, closed), l, e) = >>=-eq-done (tick svr id) _ h in
    omega (
      arith,
      ap (λ m. m.readers) (tick-mu svr t id closed l),
      ap (λ x. x.0.mu.readers) (done-injective _ _ e),
    )

accept_client-mu :
    (svr : WsServer) (w : ℕ) (ids : List String) (o : Option BroadcastWorker)
    → (taken_client svr w ids o).mu ≡ svr.mu
unfolding taken_client
accept_client-mu svr w [] o = refl
accept_client-mu svr w (id ∷ ids) none = refl
accept_client-mu svr w (id ∷ ids) (some brw) = refl

written_broadcast-mu :
    (svr : WsServer) (w : ℕ) (brw : BroadcastWorker) (msgs : List String)
    → (written_broadcast svr w brw msgs).0.mu ≡ svr.mu
unfolding written_broadcast
written_broadcast-mu svr w brw [] = refl
written_broadcast-mu svr w brw (msg ∷ msgs) = refl

handle_broadcast-mu : (svr : WsServer) (w : ℕ) → (handle_broadcast svr w).0.mu ≡ svr.mu
unfolding handle_broadcast
handle_broadcast-mu svr w = elim (Option-cases (get_elem? svr.workers w)) [
  | inl e ↦ rw (handle_broadcast, e) refl
  | inr e ↦ rw (handle_broadcast, e.1) (written_broadcast-mu svr w e.0 e.0.msg_ch)
]

step-Keeps : (svr : WsServer) (e : Event) → 0 < svr.mu.readers → Keeps svr (step svr e)
unfolding step accept_client
step-Keeps svr (connect id) p = done-After _ _ [] (omega arith)
step-Keeps svr (registered v) p =
    silent-After _ _ (λ svr' h. register_cmd-readers svr svr' v.cmd v.client v.room_id p h)
step-Keeps svr (read id msg) p = read_msg-Keeps svr id msg p
step-Keeps svr (ticked id) p = tick-Keeps svr id
step-Keeps svr (client_taken w) p = done-After _ _ [] (
    omega
      (arith, ap (λ m. m.readers) (accept_client-mu svr w svr.client_ch (get_elem? svr.workers w))))
step-Keeps svr (msg_taken w) p =
    done-After _ _ _ (omega (arith, ap (λ m. m.readers) (handle_broadcast-mu svr w)))

steps-readers :
    (svr svr' : WsServer) (es : List Event)
    → 0 < svr.mu.readers
    → steps svr es ≡ done svr'
    → 0 < svr'.mu.readers
unfolding steps After
steps-readers svr svr' [] p h = subst (λ x. 0 < x.mu.readers) (done-injective _ _ h) p
steps-readers svr svr' (e ∷ es) p h =
    let ((t, sent), l, k) = >>=-eq-done (step svr e) _ h in
    steps-readers t svr' es (omega (arith, step-Keeps svr e p t sent l)) k

sent_room_msg-missing :
    (svr : WsServer) (mu : RwMutex) (contents id r : String) (o : Option Room)
    → o ≡ none
    → (sent_room_msg svr mu contents id r o).0.mu ≡ mu
unfolding sent_room_msg
sent_room_msg-missing svr mu contents id r none e = refl
sent_room_msg-missing svr mu contents id r (some room) e = absurd (ground arith)

-- Once a message to a room that does not exist was sent, then whatever else happens, RegisterLoop
-- never again registers or unregisters a client, and no client joins a room: each waits for a lock
-- that is never released.
pub missing_room_blocks_registration :
    (svr svr₁ svr₂ : WsServer) (contents id r : String) (sent : List (String × Written)) (ok : Bool)
    (es : List Event)
    → lookup r svr.rooms ≡ none
    → send_room_msg svr contents id r ≡ done (svr₁, sent, ok)
    → steps svr₁ es ≡ done svr₂
    → (c q : String)
    → (register_cmd svr₂ register_broadcast_cmd c q ≡ waits)
      × (register_cmd svr₂ unregister_cmd c q ≡ waits)
      × (join_room svr₂ c q ≡ waits)
unfolding send_room_msg register_cmd register_broadcast unregister join_room
missing_room_blocks_registration svr svr₁ svr₂ contents id r sent ok es none_there h k c q =
    let (mu, l, e) = >>=-eq-done (await (r_lock svr.mu)) _ h in
    let kept = ap (λ x. x.0.mu.readers) (done-injective _ _ e) in
    let held =
      ap (λ m. m.readers)
        (sent_room_msg-missing svr mu contents id r (lookup r svr.rooms) none_there) in
    let p = steps-readers svr₁ svr₂ es (omega (arith, r_lock-readers svr.mu mu l, kept, held)) k in
    let locked = w_lock-readers svr₂.mu p in (rw locked refl, rw locked refl, rw locked refl)
