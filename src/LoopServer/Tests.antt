-- ===== src/LoopServer/Tests.antt =====
-- Concrete runs of the server with a loop for each client.
use go_api_practice.Prelude.{
  same_iff, Option, none, some, List, [], ◌∷◌, ◌≡◌, refl, String, string_key, arith,
}
use go_api_practice.Prelude.Int.{pos}
use go_api_practice.Prelude.Assoc.{lookup, insert}
use go_api_practice.Ring.{RespMsg, push, new_ring_buffer}
use go_api_practice.LoopServer.{
  MsgType, type_room_join, type_room_msg, type_room_leave, type_broadcast, ReqMsg, Room, Server,
  new_room, new_server, new_resp_msg, join_server, join_found, enter_room, join_room, leave_found,
  leave_room, send_found, send_room_msg, others, send_msg, Event, join, room_join, room_leave,
  broadcast, room_msg, accept, accept_all,
}
use go_api_practice.Ring.Window.{new_ring_buffer-Holds}
use go_api_practice.LoopServer.Log.{Shows, log_of}
use go_api_practice.LoopServer.Rooms.{rooms_are_as_logged}
use go_api_practice.LoopServer.Membership.{Sound}
use go_api_practice.LoopServer.Panics.{
  Delivers, accept_keeps_clients_known, join_room_of_stranger_breaks_broadcast,
}

abbrev request : MsgType → String → String → ReqMsg
request t id text = record {
  msg_type = t;
  client_id = id;
  contents = text;
  room_id = "lobby";
  offset = pos 0;
}

abbrev visit : List Event
visit = join "ann" ∷ join "bob" ∷ room_join (request type_room_join "ann" "") ∷ []

abbrev or_new : Option Server → Server
or_new none = new_server
or_new (some s) = s

abbrev chat : List Event
chat =
    join "ann"
    ∷ room_join (request type_room_join "ann" "")
    ∷ room_msg (request type_room_msg "ann" "hello")
    ∷ room_leave (request type_room_leave "bob" "")
    ∷ []

abbrev lobby : Room
lobby = enter_room (some "ann") "ann" new_room

abbrev two_clients : Server
two_clients = record {
  clients = ("ann", some "ann") ∷ ("bob", some "bob") ∷ [];
  rooms = ("lobby", lobby) ∷ [];
  rooms_count = pos 1;
}

rooms_are_as_logged_example :
    Shows (lookup "lobby" (or_new (accept_all new_server chat)).rooms) (log_of "lobby" chat none)
unfolding accept_all accept join_server join_room join_found enter_room new_room new_server insert
    lookup send_room_msg send_found others send_msg push new_ring_buffer leave_room leave_found
    new_resp_msg
rooms_are_as_logged_example =
    rooms_are_as_logged (or_new (accept_all new_server chat)) chat "lobby" refl

accept_keeps_clients_known_example :
    (s' : Server) × (sent : List (String × RespMsg)) × (accept two_clients
        (broadcast (request type_broadcast "ann" "hello"))
      ≡ some (s', sent))
    × Sound s'
    × Delivers two_clients (broadcast (request type_broadcast "ann" "hello")) sent
unfolding lookup enter_room new_room insert
accept_keeps_clients_known_example =
    accept_keeps_clients_known two_clients (broadcast (request type_broadcast "ann" "hello"))
      (
        ((refl, (refl, tt)), (refl, (refl, tt))),
        ((((refl, tt), (refl, tt)), [], new_ring_buffer-Holds 64 (omega arith)), tt),
      )
      tt

join_room_of_stranger_breaks_broadcast_example :
    accept_all two_clients (
      room_join (request type_room_join "eve" "")
      ∷ broadcast (request type_broadcast "ann" "hello")
      ∷ [])
    ≡ none
unfolding lookup
join_room_of_stranger_breaks_broadcast_example =
    join_room_of_stranger_breaks_broadcast two_clients (request type_room_join "eve" "")
      (request type_broadcast "ann" "hello") refl
      (λ e. ground (arith, e, same_iff {K = String} "eve" "ann"))
