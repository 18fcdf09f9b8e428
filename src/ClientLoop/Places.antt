-- ===== src/ClientLoop/Places.antt =====
-- The place of a client with a broadcast worker, through every handler.
use mathlib.Core.Option.{some-injective}
use go_api_practice.Prelude.{
  ℕ, Bool, true, false, Option, none, some, List, [], ◌∷◌, ◌≡◌, refl, sym, ap, ◌∙◌, inl, inr,
  if◌then◌else◌, String, string_key, same, arith, Bool-cases, Option-cases, get_elem?,
}
use go_api_practice.Prelude.Assoc.{lookup}
use go_api_practice.Prelude.Members.{contains}
use go_api_practice.Prelude.Mutex.{RwMutex, r_lock, r_unlock, w_lock, w_unlock}
use go_api_practice.Prelude.Run.{done, panics, await, done-injective, >>=-eq-done}
use go_api_practice.ClientLoop.{
  Room, WsServer, BroadcastWorker, Written, RegisterCmd, register_broadcast_cmd, register_room_cmd,
  unregister_room_cmd, unregister_cmd, register_broadcast, unregistered, unregister, join_room,
  left_room, leave_room, sent_room_msg, send_room_msg, broadcast_msg, broadcast_to, taken_client,
  accept_client, written_broadcast, handle_broadcast, register_cmd, pinged, tick, Event, connect,
  registered, read, ticked, client_taken, msg_taken, step, deref,
}
use go_api_practice.Prelude.{◌+◌, ◌++◌, set, zero, suc}
use go_api_practice.ClientLoop.Steps.{After, done-After, silent-After, read_msg-After}

-- How often a client is named.
unfoldable pub count : String → List String → ℕ
count id [] = 0
count id (j ∷ ids) = (if same j id then 1 else 0) + count id ids

unfoldable pub worker_count : String → List BroadcastWorker → ℕ
worker_count id [] = 0
worker_count id (brw ∷ brws) = count id brw.clients + worker_count id brws

-- The places of a client: in the channel to the workers, and with the workers.
abbrev pub places : String → WsServer → ℕ
places id svr = count id svr.client_ch + worker_count id svr.workers

count-append :
    (id j : String) (ids : List String)
    → count id (ids ++ (j ∷ [])) ≡ count id ids + (if same j id then 1 else 0)
unfolding count
count-append id j [] = omega arith
count-append id j (k ∷ ids) = omega (arith, count-append id j ids)

worker_count-set :
    (id : String) (brws : List BroadcastWorker) (w : ℕ) (old new : BroadcastWorker)
    → get_elem? brws w ≡ some old
    → worker_count id (set brws w new) + count id old.clients
      ≡ worker_count id brws + count id new.clients
unfolding worker_count
worker_count-set id [] w old new h = absurd (ground arith)
worker_count-set id (brw ∷ brws) zero old new h =
    omega (arith, ap (λ o. count id o.clients) (some-injective _ _ h))
worker_count-set id (brw ∷ brws) (suc w) old new h =
    omega (arith, worker_count-set id brws w old new h)

worker_count-broadcast_to :
    (id msg : String) (brws : List BroadcastWorker)
    → worker_count id (broadcast_to msg brws) ≡ worker_count id brws
unfolding worker_count broadcast_to
worker_count-broadcast_to id msg [] = refl
worker_count-broadcast_to id msg (brw ∷ brws) = omega (arith, worker_count-broadcast_to id msg brws)

taken_client-places :
    (id : String) (svr : WsServer) (w : ℕ) (ids : List String) (o : Option BroadcastWorker)
    → svr.client_ch ≡ ids
    → get_elem? svr.workers w ≡ o
    → places id (taken_client svr w ids o) ≡ places id svr
unfolding taken_client count
taken_client-places id svr w [] o h e = refl
taken_client-places id svr w (j ∷ ids) none h e = refl
taken_client-places id svr w (j ∷ ids) (some brw) h e = omega (
  arith,
  count-append id j brw.clients,
  worker_count-set id svr.workers w brw (record brw { clients = brw.clients ++ (j ∷ []) }) e,
  ap (count id) h,
)

written_broadcast-places :
    (id : String) (svr : WsServer) (w : ℕ) (brw : BroadcastWorker) (msgs : List String)
    → get_elem? svr.workers w ≡ some brw
    → places id (written_broadcast svr w brw msgs).0 ≡ places id svr
unfolding written_broadcast
written_broadcast-places id svr w brw [] e = refl
written_broadcast-places id svr w brw (msg ∷ msgs) e =
    omega (arith, worker_count-set id svr.workers w brw (record brw { msg_ch = msgs }) e)

handle_broadcast-places :
    (id : String) (svr : WsServer) (w : ℕ) → places id (handle_broadcast svr w).0 ≡ places id svr
unfolding handle_broadcast
handle_broadcast-places id svr w = elim (Option-cases (get_elem? svr.workers w)) [
  | inl e ↦ rw (handle_broadcast, e) refl
  | inr e ↦ rw (handle_broadcast, e.1) (written_broadcast-places id svr w e.0 e.0.msg_ch e.1)
]

left_room-places :
    (id : String) (svr svr' : WsServer) (c r : String) (o : Option Room)
    → left_room svr c r o ≡ done svr'
    → places id svr' ≡ places id svr
unfolding left_room
left_room-places id svr svr' c r none e = absurd (ground arith)
left_room-places id svr svr' c r (some room) e =
    let (_, _, e₁) = >>=-eq-done (if contains c room.clients then done c else panics) _ e in
    let (_, _, e₂) = >>=-eq-done (deref (lookup c svr.heap)) _ e₁ in
    ap (places id) (sym (done-injective _ _ e₂))

leave_room-places :
    (id : String) (svr svr' : WsServer) (c r : String)
    → leave_room svr c r ≡ done svr'
    → places id svr' ≡ places id svr
unfolding leave_room
leave_room-places id svr svr' c r e =
    let (mu, _, e₁) = >>=-eq-done (await (r_lock svr.mu)) _ e in
    left_room-places id (record svr { mu = r_unlock mu }) svr' c r (lookup r svr.rooms) e₁

join_room-places :
    (id : String) (svr svr' : WsServer) (c r : String)
    → join_room svr c r ≡ done svr'
    → places id svr' ≡ places id svr
unfolding join_room
join_room-places id svr svr' c r e =
    let (_, _, e₁) = >>=-eq-done (await (w_lock svr.mu)) _ e in
    let (_, _, e₂) = >>=-eq-done (deref (lookup c svr.heap)) _ e₁ in
    ap (places id) (sym (done-injective _ _ e₂))

unregister-places :
    (id : String) (svr svr' : WsServer) (c : String)
    → unregister svr c ≡ done svr'
    → places id svr' ≡ places id svr
unfolding unregister unregistered
unregister-places id svr svr' c e =
    let (mu, _, e₁) = >>=-eq-done (await (w_lock svr.mu)) _ e in
    by_case mu (contains c svr.clients) e₁
  where
    by_case :
        (mu : RwMutex) (b : Bool)
        → (if b
            then unregistered (record svr { mu = w_unlock mu }) c
            else done (record svr { mu = w_unlock mu }))
          ≡ done svr'
        → places id svr' ≡ places id svr
    by_case mu true k =
        let (_, _, k₁) = >>=-eq-done (deref (lookup c svr.heap)) _ k in
        ap (places id) (sym (done-injective _ _ k₁))
    by_case mu false k = ap (places id) (sym (done-injective _ _ k))

-- The places that an event gives to a client: one for its registration for broadcasts.
abbrev pub registrations : String → RegisterCmd → String → ℕ
registrations id register_broadcast_cmd c = if same c id then 1 else 0
registrations id _ c = 0

abbrev pub event_registrations : String → Event → ℕ
event_registrations id (registered v) = registrations id v.cmd v.client
event_registrations id _ = 0

register_cmd-places :
    (id : String) (svr svr' : WsServer) (cmd : RegisterCmd) (c r : String)
    → register_cmd svr cmd c r ≡ done svr'
    → places id svr' ≡ places id svr + registrations id cmd c
unfolding register_cmd register_broadcast
register_cmd-places id svr svr' register_broadcast_cmd c r e =
    let (_, _, e₁) = >>=-eq-done (await (w_lock svr.mu)) _ e in
    omega (arith, ap (places id) (done-injective _ _ e₁), count-append id c svr.client_ch)
register_cmd-places id svr svr' register_room_cmd c r e =
    omega (arith, join_room-places id svr svr' c r e)
register_cmd-places id svr svr' unregister_room_cmd c r e =
    omega (arith, leave_room-places id svr svr' c r e)
register_cmd-places id svr svr' unregister_cmd c r e =
    omega (arith, unregister-places id svr svr' c e)

sent_room_msg-places :
    (id : String) (svr : WsServer) (mu : RwMutex) (contents c r : String) (o : Option Room)
    → places id (sent_room_msg svr mu contents c r o).0 ≡ places id svr
unfolding sent_room_msg
sent_room_msg-places id svr mu contents c r none = refl
sent_room_msg-places id svr mu contents c r (some room) =
    elim (Bool-cases (contains c room.clients)) [
      | inl t ↦ rw (sent_room_msg, t) refl
      | inr t ↦ rw (sent_room_msg, t) refl
    ]

send_room_msg-places :
    (id : String) (svr svr' : WsServer) (contents c r : String) (sent : List (String × Written))
    (ok : Bool)
    → send_room_msg svr contents c r ≡ done (svr', sent, ok)
    → places id svr' ≡ places id svr
unfolding send_room_msg
send_room_msg-places id svr svr' contents c r sent ok e =
    let (mu, _, e₁) = >>=-eq-done (await (r_lock svr.mu)) _ e in
    ap (λ x. places id x.0) (sym (done-injective _ _ e₁))
    ∙ sent_room_msg-places id svr mu contents c r (lookup r svr.rooms)

-- What a handler leaves that gives no place.
abbrev SamePlaces : String → WsServer → WsServer → Type 0
SamePlaces id svr svr' = places id svr' ≡ places id svr + 0

same_places : {a b : ℕ} → a ≡ b → a ≡ b + 0
same_places h = omega arith

pinged-places :
    (id : String) (svr : WsServer) (c : String) → After (SamePlaces id svr) (pinged svr c)
unfolding pinged After
pinged-places id svr c svr' sent e =
    let (_, _, k) = >>=-eq-done (deref (lookup c svr.heap)) _ e in
    omega (arith, ap (λ x. places id x.0) (done-injective _ _ k))

ticked-places :
    (id : String) (svr : WsServer) (c : String) → After (SamePlaces id svr) (step svr (ticked c))
unfolding step tick After
ticked-places id svr c svr' sent e =
    let ((t, closed), k, e₁) = >>=-eq-done (tick svr c) _ e in
    let (_, _, e₂) = >>=-eq-done (deref (lookup c svr.heap)) _ k in
    omega (
      arith,
      ap (λ x. places id x.0) (done-injective _ _ e₁),
      ap (λ x. places id x.0) (done-injective _ _ e₂),
    )

-- No handler but a registration for broadcasts changes how often a client is with the broadcast
-- workers or on the way to one, and that adds one place to its client: so the end of a connection,
-- which Unregister serves, leaves its client where each later broadcast is written to it.
pub step_keeps_broadcast_places :
    (id : String) (svr svr' : WsServer) (e : Event) (sent : List (String × Written))
    → step svr e ≡ done (svr', sent)
    → places id svr' ≡ places id svr + event_registrations id e
unfolding step After accept_client broadcast_msg
step_keeps_broadcast_places id svr svr' (connect c) sent =
    done-After (SamePlaces id svr) _ [] (omega arith) svr' sent
step_keeps_broadcast_places id svr svr' (registered v) sent =
    silent-After (λ t. places id t ≡ places id svr + registrations id v.cmd v.client) _
      (λ t e. register_cmd-places id svr t v.cmd v.client v.room_id e) svr' sent
step_keeps_broadcast_places id svr svr' (read c msg) sent =
    read_msg-After (SamePlaces id svr) svr c msg
      (omega (arith, worker_count-broadcast_to id msg.contents svr.workers))
      (λ t out ok e.
        same_places (send_room_msg-places id svr t msg.contents c msg.room_id out ok e))
      (λ t e. same_places (join_room-places id svr t c msg.room_id e))
      (λ t e. same_places (leave_room-places id svr t c msg.room_id e)) (pinged-places id svr c)
      (omega arith) svr' sent
step_keeps_broadcast_places id svr svr' (ticked c) sent = ticked-places id svr c svr' sent
step_keeps_broadcast_places id svr svr' (client_taken w) sent =
    done-After (SamePlaces id svr) _ []
      (omega
        (arith, taken_client-places id svr w svr.client_ch (get_elem? svr.workers w) refl refl))
      svr' sent
step_keeps_broadcast_places id svr svr' (msg_taken w) sent =
    done-After (SamePlaces id svr) _ _ (omega (arith, handle_broadcast-places id svr w)) svr' sent
