-- ===== src/ClientLoop/Leave.antt =====
-- The membership of rooms, step by step: JoinRoom, LeaveRoom and Unregister among the handlers.
use mathlib.Core.Path.{subst}
use go_api_practice.Prelude.{
  Bool, true, false, Option, none, some, ◌≡◌, refl, sym, ap, ◌∙◌, ◌&&◌, if◌then◌else◌, String,
  string_key, same, arith,
}
use go_api_practice.Prelude.Assoc.{lookup, insert}
use go_api_practice.Prelude.Members.{contains, remove}
use go_api_practice.Prelude.Mutex.{RwMutex, r_lock, r_unlock, w_lock, w_unlock}
use go_api_practice.Prelude.Run.{done, panics, await, done-injective, >>=-eq-done}
use go_api_practice.ClientLoop.{
  Room, WsServer, Client, RegisterCmd, register_broadcast_cmd, register_room_cmd,
  unregister_room_cmd, unregister_cmd, register_broadcast, unregistered, unregister, join_room,
  left_room, leave_room, register_cmd, deref,
}
use go_api_practice.ClientLoop.Members.{
  names_of, within-remove, has_client, Agree, joined-Agree, left-Agree, left_all-Agree,
}

-- The views of a server agree.
abbrev pub Agrees : WsServer → Type 0
Agrees svr = Agree svr.rooms svr.heap

pub deref-done : {A : Type 0} (o : Option A) (a : A) → deref o ≡ done a → o ≡ some a
deref-done none a h = absurd (ground arith)
deref-done (some b) a h = ap some (done-injective _ _ h)

pub join_room-Agrees :
    (svr svr' : WsServer) (id r : String)
    → Agrees svr
    → join_room svr id r ≡ done svr'
    → Agrees svr'
unfolding join_room
join_room-Agrees svr svr' id r h e =
    let (_, _, e₁) = >>=-eq-done (await (w_lock svr.mu)) _ e in
    let (c, l, e₂) = >>=-eq-done (deref (lookup id svr.heap)) _ e₁ in
    subst Agrees (done-injective _ _ e₂)
      (joined-Agree id r c svr.rooms svr.heap (deref-done _ c l) h)

left_room-Agrees :
    (svr svr' : WsServer) (id r : String) (o : Option Room)
    → lookup r svr.rooms ≡ o
    → Agrees svr
    → left_room svr id r o ≡ done svr'
    → Agrees svr'
unfolding left_room
left_room-Agrees svr svr' id r none m h e = absurd (ground arith)
left_room-Agrees svr svr' id r (some room) m h e =
    let (_, _, e₁) = >>=-eq-done (if contains id room.clients then done id else panics) _ e in
    let (c, l, e₂) = >>=-eq-done (deref (lookup id svr.heap)) _ e₁ in
    subst Agrees (done-injective _ _ e₂)
      (left-Agree id r c room svr.rooms svr.heap (deref-done _ c l) m h)

pub leave_room-Agrees :
    (svr svr' : WsServer) (id r : String)
    → Agrees svr
    → leave_room svr id r ≡ done svr'
    → Agrees svr'
unfolding leave_room
leave_room-Agrees svr svr' id r h e =
    let (mu, _, e₁) = >>=-eq-done (await (r_lock svr.mu)) _ e in
    left_room-Agrees (record svr { mu = r_unlock mu }) svr' id r (lookup r svr.rooms) refl h e₁

unregistered-Agrees :
    (svr svr' : WsServer) (id : String) → Agrees svr → unregistered svr id ≡ done svr' → Agrees svr'
unfolding unregistered
unregistered-Agrees svr svr' id h e =
    let (c, l, e₁) = >>=-eq-done (deref (lookup id svr.heap)) _ e in
    subst Agrees (done-injective _ _ e₁)
      (left_all-Agree id c svr.rooms svr.heap (deref-done _ c l) h)

unregister-Agrees :
    (svr svr' : WsServer) (id : String) → Agrees svr → unregister svr id ≡ done svr' → Agrees svr'
unfolding unregister
unregister-Agrees svr svr' id h e =
    let (mu, _, e₁) = >>=-eq-done (await (w_lock svr.mu)) _ e in
    by_case mu (contains id svr.clients) e₁
  where
    by_case :
        (mu : RwMutex) (b : Bool)
        → (if b
            then unregistered (record svr { mu = w_unlock mu }) id
            else done (record svr { mu = w_unlock mu }))
          ≡ done svr'
        → Agrees svr'
    by_case mu true k = unregistered-Agrees (record svr { mu = w_unlock mu }) svr' id h k
    by_case mu false k = subst Agrees (done-injective _ _ k) h

pub register_cmd-Agrees :
    (svr svr' : WsServer) (cmd : RegisterCmd) (id r : String)
    → Agrees svr
    → register_cmd svr cmd id r ≡ done svr'
    → Agrees svr'
unfolding register_cmd register_broadcast
register_cmd-Agrees svr svr' register_broadcast_cmd id r h e =
    let (_, _, e₁) = >>=-eq-done (await (w_lock svr.mu)) _ e in
    subst Agrees (done-injective _ _ e₁) h
register_cmd-Agrees svr svr' register_room_cmd id r h e = join_room-Agrees svr svr' id r h e
register_cmd-Agrees svr svr' unregister_room_cmd id r h e = leave_room-Agrees svr svr' id r h e
register_cmd-Agrees svr svr' unregister_cmd id r h e = unregister-Agrees svr svr' id h e

left_room-panics :
    (svr : WsServer) (id r : String) (o : Option Room)
    → contains id (names_of (λ x. x.clients) o) ≡ false
    → left_room svr id r o ≡ panics
unfolding left_room
left_room-panics svr id r none h = refl
left_room-panics svr id r (some room) h = rw h refl

left_room-done :
    (svr : WsServer) (id r : String) (c : Client) (o : Option Room)
    → lookup r svr.rooms ≡ o
    → lookup id svr.heap ≡ some c
    → contains id (names_of (λ x. x.clients) o) ≡ true
    → Agrees svr
    → (svr' : WsServer) × (left_room svr id r o ≡ done svr')
      × Agrees svr'
      × ((j q : String)
          → has_client j q svr'.rooms
            ≡ (if same r q && same id j then false else has_client j q svr.rooms))
unfolding left_room contains
left_room-done svr id r c none m l h k = absurd (ground (arith, h))
left_room-done svr id r c (some room) m l h k = (
  record svr {
    rooms = insert r (record room { clients = remove id room.clients }) svr.rooms;
    heap = insert id (record c { rooms = remove r c.rooms }) svr.heap;
  },
  rw (h, l) refl,
  left-Agree id r c room svr.rooms svr.heap l m k,
  λ j q.
      within-remove (λ x. x.clients) j r q id _ svr.rooms
        (ap (λ o. remove id (names_of (λ x. x.clients) o)) (sym m)),
)

-- The object of a client that is in a room.
object_of :
    (id r : String) (o : Option Client)
    → contains r (names_of (λ x. x.rooms) o) ≡ true
    → (c : Client) × (o ≡ some c)
unfolding contains
object_of id r none h = absurd (ground (arith, h))
object_of id r (some c) h = (c, refl)

-- If no handler holds the lock of the server for writing and the rooms agree with the clients on who
-- is where: LeaveRoom panics when its client is not in the room, whether the room exists or not. When
-- it is, LeaveRoom returns, they agree still, and of all memberships just this one is gone.
pub leave_room_panics_unless_member :
    (svr : WsServer) (id r : String)
    → svr.mu.writer ≡ false
    → Agrees svr
    → ((has_client id r svr.rooms ≡ false) → leave_room svr id r ≡ panics)
      × ((has_client id r svr.rooms ≡ true)
          → (svr' : WsServer) × (leave_room svr id r ≡ done svr')
            × Agrees svr'
            × ((j q : String)
                → has_client j q svr'.rooms
                  ≡ (if same r q && same id j then false else has_client j q svr.rooms)))
unfolding leave_room r_lock
leave_room_panics_unless_member svr id r f h = (
  (λ n. rw f (left_room-panics _ id r (lookup r svr.rooms) n)),
  (λ m.
      let (c, l) = object_of id r (lookup id svr.heap) (sym (h id r) ∙ m) in
      rw f (left_room-done _ id r c (lookup r svr.rooms) refl l m h)),
)
