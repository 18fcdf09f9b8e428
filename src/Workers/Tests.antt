-- ===== src/Workers/Tests.antt =====
-- Runs of a server with two clients: chat/with-workers.
use go_api_practice.Prelude.{
  ℕ, true, false, none, some, List, [], ◌∷◌, ◌≡◌, ◌↔◌, refl, arith, bytes_key, string_key,
  get_elem?,
}
use go_api_practice.Prelude.Int.{pos, suc_ℤ, pred_ℤ}
use go_api_practice.Prelude.Assoc.{lookup, insert}
use go_api_practice.Prelude.Members.{contains, add, remove}
use go_api_practice.Workers.{
  ClientId, Worker, WsServer, shard, hash, get_worker, touch, new_ws_server, new_client,
  add_client_to_worker, check_scale_up, check_scale_down, join_server, leave_server, leave_rooms,
  or_nil, join_room, room_clients, send_room_msg, send_room_msg_workers, remove_client_from_worker,
  send_broadcast_msg, worker_send_broadcast_msg,
}
use go_api_practice.Workers.Scaling.{IsBalanced}
use go_api_practice.Workers.Serve.{
  Event, connect, join, enter, serve, serve_all, serving_keeps_balance,
}
use go_api_practice.Workers.Consistency.{rooms_and_clients_agree}
use go_api_practice.Workers.RoomMessages.{worker_room_msg_reaches_all_once}
use go_api_practice.Workers.Membership.{rooms_of}
use go_api_practice.Workers.Panic.{join_room_after_leave_panics}
use go_api_practice.Workers.Broadcast.{worker_broadcast_reaches_all_once}

-- "A" and "B", of which two workers hold one each.
abbrev ann : ClientId
ann = 65 ∷ []

abbrev bob : ClientId
bob = 66 ∷ []

abbrev two_clients : WsServer
two_clients = record {
  clients = ann ∷ bob ∷ [];
  rooms = [];
  workers = record { id = 0; clients = bob ∷ [] } ∷ record { id = 1; clients = ann ∷ [] } ∷ [];
  clients_per_worker = 50;
  active_clients = pos 2;
  heap =
      (ann, record { rooms = some []; worker = some 1 })
      ∷ (bob, record { rooms = some []; worker = some 0 })
      ∷ [];
}

abbrev joining : List Event
joining = connect ann ∷ join ann ∷ connect bob ∷ join bob ∷ []

two_clients-IsBalanced : IsBalanced two_clients
unfolding serve_all serve new_ws_server new_client join_server add_client_to_worker check_scale_up
    get_worker touch shard hash lookup insert contains add suc_ℤ
two_clients-IsBalanced = serving_keeps_balance 2 joining two_clients (omega arith) refl

serving_keeps_balance_example : IsBalanced two_clients
unfolding serve_all serve new_ws_server new_client join_server add_client_to_worker check_scale_up
    get_worker touch shard hash lookup insert contains add suc_ℤ
serving_keeps_balance_example = serving_keeps_balance 2 joining two_clients (omega arith) refl

worker_broadcast_reaches_all_once_example :
    ((contains bob (send_broadcast_msg two_clients ann) ≡ true) ↔ (
      (w : Worker) × (get_worker two_clients bob ≡ some w)
      × (contains bob (worker_send_broadcast_msg w ann) ≡ true)))
    × ((i : ℕ) (w : Worker)
        → get_elem? two_clients.workers i ≡ some w
        → contains bob (worker_send_broadcast_msg w ann) ≡ true
        → i ≡ shard 2 bob)
worker_broadcast_reaches_all_once_example =
    worker_broadcast_reaches_all_once two_clients ann bob two_clients-IsBalanced

-- Ann has joined and entered the lobby, and Bob has joined.
abbrev in_lobby : WsServer
in_lobby = record two_clients {
  rooms = ("lobby", ann ∷ []) ∷ [];
  heap =
      (ann, record { rooms = some ("lobby" ∷ []); worker = some 1 })
      ∷ (bob, record { rooms = some []; worker = some 0 })
      ∷ [];
}

rooms_and_clients_agree_example :
    (contains ann (room_clients "lobby" in_lobby.rooms)
      ≡ contains "lobby" (or_nil (rooms_of ann in_lobby.heap)))
    × (rooms_of ann in_lobby.heap ≡ none
        → contains ann (room_clients "lobby" in_lobby.rooms) ≡ false)
unfolding serve_all serve new_ws_server new_client join_server add_client_to_worker check_scale_up
    get_worker touch shard hash lookup insert contains add suc_ℤ join_room
rooms_and_clients_agree_example =
    rooms_and_clients_agree 2 (connect ann ∷ connect bob ∷ enter ann "lobby" ∷ join bob ∷ [])
      in_lobby refl ann "lobby"

worker_room_msg_reaches_all_once_example :
    (contains ann (send_room_msg in_lobby bob "lobby") ≡ true
      → (got : List ClientId) × (get_elem?
            (send_room_msg_workers in_lobby bob "lobby")
            (shard 2 ann)
          ≡ some got)
        × (contains ann got ≡ true))
    × ((i : ℕ) (got : List ClientId)
        → get_elem? (send_room_msg_workers in_lobby bob "lobby") i ≡ some got
        → contains ann got ≡ true
        → (contains ann (send_room_msg in_lobby bob "lobby") ≡ true) × (i ≡ shard 2 ann))
unfolding serve_all serve new_ws_server new_client join_server add_client_to_worker check_scale_up
    get_worker touch shard hash lookup insert contains add suc_ℤ join_room
worker_room_msg_reaches_all_once_example =
    worker_room_msg_reaches_all_once 2
      (connect ann ∷ connect bob ∷ enter ann "lobby" ∷ join bob ∷ []) in_lobby (omega arith) refl
      bob ann "lobby"

-- Ann has left.
abbrev bob_alone : WsServer
bob_alone = record two_clients {
  clients = bob ∷ [];
  workers = record { id = 0; clients = bob ∷ [] } ∷ record { id = 1; clients = [] } ∷ [];
  active_clients = pos 1;
  heap =
      (ann, record { rooms = none; worker = none })
      ∷ (bob, record { rooms = some []; worker = some 0 })
      ∷ [];
}

join_room_after_leave_panics_example : join_room bob_alone ann "lobby" ≡ none
unfolding leave_server remove_client_from_worker leave_rooms check_scale_down remove get_worker
    touch shard hash lookup insert contains pred_ℤ
join_room_after_leave_panics_example =
    join_room_after_leave_panics two_clients bob_alone ann "lobby" refl
