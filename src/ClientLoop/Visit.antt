-- ===== src/ClientLoop/Visit.antt =====
-- What Unregister leaves behind: the room of a client that came by a room's URL.
use go_api_practice.Prelude.{
  true, false, some, List, [], ◌∷◌, ◌≡◌, refl, ap, ◌∙◌, String, string_key, same_iff, arith,
}
use go_api_practice.Prelude.Assoc.{lookup, insert, lookup-insert}
use go_api_practice.Prelude.Members.{contains, add, contains-add}
use go_api_practice.Prelude.Mutex.{RwMutex, w_lock, w_unlock}
use go_api_practice.Prelude.Run.{done}
use go_api_practice.ClientLoop.{
  WsServer, Client, register_room_cmd, unregister_cmd, unregister, join_room, room_or_new, entered,
  register_cmd, new_client, Event, connect, registered, step, steps,
}
use go_api_practice.ClientLoop.Members.{within-insert, has_client}

abbrev pub unlocked : RwMutex
unlocked = record { readers = 0; writer = false }

join_room-enters :
    (svr : WsServer) (id r : String) (c : Client)
    → svr.mu ≡ unlocked
    → lookup id svr.heap ≡ some c
    → (svr' : WsServer) × (join_room svr id r ≡ done svr')
      × (has_client id r svr'.rooms ≡ true)
      × (svr'.clients ≡ svr.clients)
      × (svr'.mu ≡ unlocked)
unfolding join_room entered w_lock w_unlock
join_room-enters svr id r c m l = (
  record svr {
    mu = unlocked;
    rooms = insert r (entered id (room_or_new (lookup r svr.rooms))) svr.rooms;
    heap = insert id (record c { rooms = add r c.rooms }) svr.heap;
  },
  rw (m, l) refl,
  within-insert (λ x. x.clients) id r r (entered id (room_or_new (lookup r svr.rooms))) svr.rooms
      ∙ ground (
        arith,
        same_iff r r,
        same_iff id id,
        contains-add id id (room_or_new (lookup r svr.rooms)).clients,
      ),
  refl,
  refl,
)

unregister-unknown :
    (svr : WsServer) (id : String)
    → svr.mu ≡ unlocked
    → contains id svr.clients ≡ false
    → unregister svr id ≡ done (record svr { mu = unlocked })
unfolding unregister w_lock w_unlock
unregister-unknown svr id m n = rw (m, n) refl

-- The steps of a client whose URL names a room, from the connection to the end of it.
abbrev pub room_visit : String → String → List Event
room_visit id r =
    connect id
    ∷ registered (record { client = id; cmd = register_room_cmd; room_id = r })
    ∷ registered (record { client = id; cmd = unregister_cmd; room_id = "" })
    ∷ []

-- A client that connects with a room's URL and then disconnects is still in the room: no step of the
-- visit fails when the lock is free and the client is not registered for broadcasts.
pub room_visitor_is_never_removed :
    (svr : WsServer) (id r : String)
    → svr.mu ≡ unlocked
    → contains id svr.clients ≡ false
    → (svr' : WsServer) × (steps svr (room_visit id r) ≡ done svr')
      × (has_client id r svr'.rooms ≡ true)
unfolding steps step register_cmd
room_visitor_is_never_removed svr id r m n =
    let new_object : lookup id (insert id new_client svr.heap) ≡ some new_client =
      lookup-insert id id new_client svr.heap ∙ ground (arith, same_iff id id) in
    let (svr', j, h, c, m') =
      join_room-enters (record svr { heap = insert id new_client svr.heap }) id r new_client m
        new_object in
    (
      record svr' { mu = unlocked },
      rw (j, unregister-unknown svr' id m' (ap (contains id) c ∙ n)) refl,
      h,
    )
