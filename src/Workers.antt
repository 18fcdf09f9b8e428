-- ===== src/Workers.antt =====
-- The chat server whose clients are shared out to workers: chat/with-workers. The handlers are the
-- ones that the accept loop calls one after the other; `none` is a panic. A map whose values are the
-- objects named by its keys is the list of the names: a client is named by its id, in bytes, a room
-- by its id, and a worker by its id, which is its index. The objects that clients point to are the
-- `heap`; a worker that scaleDown has cut off is no longer reachable, and is not kept. The ids that
-- NewClient draws are taken to be different. An int is a number here: nothing is subtracted that
-- could go below 0, and counts stay far below 2^63.
mod Placement
pub mod Sharding
pub mod Scaling
pub mod Clients
mod Rooms
pub mod Serve
pub mod Broadcast
pub mod Membership
mod RoomClients
pub mod Panic
mod Inside
pub mod RoomMessages
pub mod Consistency
mod Tests
use go_api_practice.Prelude.{
  ℕ, zero, suc, ◌+◌, ◌-◌, ◌*◌, ◌%◌, ◌^◌, Bool, true, false, Option, none, some, List, [], ◌∷◌, ◌++◌,
  map, ◌&&◌, if◌then◌else◌, ltb, leb, ◌==◌, String, string_key, bytes_key, same, length, get_elem?,
  take,
}
use go_api_practice.Prelude.Int.{ℤ, pos, suc_ℤ, pred_ℤ}
use go_api_practice.Prelude.Assoc.{Assoc, lookup, insert}
use go_api_practice.Prelude.Members.{contains, add, remove}
use go_api_practice.Prelude.Blocking.{◌>>=◌}

abbrev pub ClientId : Type 0
ClientId = List ℕ

pub record Worker : Type 0 where
  pub id : ℕ
  pub clients : List ClientId

-- `rooms` is none when the map is nil, `worker` when the pointer is.
pub record Client : Type 0 where
  pub rooms : Option (List String)
  pub worker : Option ℕ

pub record WsServer : Type 0 where
  pub clients : List ClientId
  pub rooms : Assoc String (List ClientId)
  pub workers : List Worker
  pub clients_per_worker : ℕ
  pub active_clients : ℤ
  pub heap : Assoc ClientId Client

abbrev pub new_workers : ℕ → List Worker
new_workers zero = []
new_workers (suc n) = new_workers n ++ (record { id = n; clients = [] } ∷ [])

unfoldable pub new_ws_server : ℕ → WsServer
new_ws_server worker_count = record {
  clients = [];
  rooms = [];
  workers = new_workers worker_count;
  clients_per_worker = 50;
  active_clients = pos 0;
  heap = [];
}

-- The loop of getWorker, on the bytes left, with uint32 arithmetic.
unfoldable pub hash : ℕ → List ℕ → ℕ
hash h [] = h
hash h (b ∷ bs) = hash ((h * 31 + b) % 2 ^ 32) bs

-- The index of a client's worker among `n` workers.
unfoldable pub shard : ℕ → ClientId → ℕ
shard n id = hash 0 id % n

-- With no worker, the index is a division by zero.
unfoldable pub get_worker : WsServer → ClientId → Option Worker
get_worker srv id = get_elem? srv.workers (shard (length srv.workers) id)

-- A write to the map of clients of worker `k`.
unfoldable pub touch : ℕ → (List ClientId → List ClientId) → Worker → Worker
touch k f w = if w.id == k then record w { clients = f w.clients } else w

unfoldable pub new_client : WsServer → ClientId → WsServer
new_client srv id = elim (lookup id srv.heap) [
  | some cl ↦ srv
  | none ↦ record srv { heap = insert id (record { rooms = some []; worker = none }) srv.heap }
]

unfoldable pub add_client_to_worker : WsServer → ClientId → Option WsServer
add_client_to_worker srv id = do
  w ← get_worker srv id
  cl ← lookup id srv.heap
  some (record srv {
    workers = map (touch w.id (add id)) srv.workers;
    heap = insert id (record cl { worker = some w.id }) srv.heap;
  })

unfoldable pub remove_client_from_worker : WsServer → ClientId → Option WsServer
remove_client_from_worker srv id = do
  w ← get_worker srv id
  cl ← lookup id srv.heap
  some (record srv {
    workers = map (touch w.id (remove id)) srv.workers;
    heap = insert id (record cl { worker = none }) srv.heap;
  })

-- A round of the loops of scaleUp and scaleDown. (scaleDown also sets the client's worker to nil
-- before it is set anew.)
unfoldable pub move_client : WsServer → ClientId → Option WsServer
move_client srv id = do
  cl ← lookup id srv.heap
  k ← cl.worker
  w ← get_worker srv id
  if k == w.id
      then some srv
      else add_client_to_worker (record srv { workers = map (touch k (remove id)) srv.workers }) id

unfoldable pub move_clients : List ClientId → WsServer → Option WsServer
move_clients [] srv = some srv
move_clients (id ∷ ids) srv = do srv' ← move_client srv id; move_clients ids srv'

unfoldable pub scale_up : ℕ → WsServer → Option WsServer
scale_up last_idx srv =
    move_clients srv.clients
      (record srv { workers = srv.workers ++ (record { id = last_idx + 1; clients = [] } ∷ []) })

-- `0.5 * float64(workers * perWorker) < float64(total)`, without fractions.
unfoldable pub check_scale_up : WsServer → Option WsServer
check_scale_up srv =
    let total = length srv.clients in
    if ltb srv.clients_per_worker total
      && ltb (length srv.workers * srv.clients_per_worker) (2 * total)
    then scale_up (length srv.workers - 1) srv
    else some srv

unfoldable pub scale_down : ℕ → WsServer → Option WsServer
scale_down last_idx srv =
    move_clients srv.clients (record srv { workers = take last_idx srv.workers })

unfoldable pub check_scale_down : WsServer → Option WsServer
check_scale_down srv =
    let total = length srv.clients in
    if ltb srv.clients_per_worker total
      && leb (2 * total) (length srv.workers * srv.clients_per_worker)
    then scale_down (length srv.workers - 1) srv
    else some srv

unfoldable pub join_server : WsServer → ClientId → Option WsServer
join_server srv id = if contains id srv.clients then some srv else do
  srv' ← add_client_to_worker srv id
  check_scale_up
      (record srv' { clients = add id srv'.clients; active_clients = suc_ℤ srv'.active_clients })

-- A client leaves one room of the server, if there is a room of that name.
abbrev pub leave_named :
    ClientId → String → Assoc String (List ClientId) → Assoc String (List ClientId)
leave_named id room rooms = elim (lookup room rooms) [
  | none ↦ rooms
  | some cls ↦ insert room (remove id cls) rooms
]

-- `for _, r := range client.rooms { delete(r.clients, client.id) }`
unfoldable pub leave_rooms :
    ClientId → List String → Assoc String (List ClientId) → Assoc String (List ClientId)
leave_rooms id [] rooms = rooms
leave_rooms id (r ∷ rs) rooms = leave_rooms id rs (leave_named id r rooms)

abbrev pub or_nil : Option (List String) → List String
or_nil none = []
or_nil (some rs) = rs

-- The part of LeaveServer before the workers: the client is no longer known, and in no room.
abbrev pub departed : WsServer → ClientId → Client → WsServer
departed srv id cl = record srv {
  clients = if contains id srv.clients then remove id srv.clients else srv.clients;
  active_clients =
      if contains id srv.clients then pred_ℤ srv.active_clients else srv.active_clients;
  rooms = leave_rooms id (or_nil cl.rooms) srv.rooms;
  heap = insert id (record cl { rooms = none }) srv.heap;
}

unfoldable pub leave_server : WsServer → ClientId → Option WsServer
leave_server srv id = do
  cl ← lookup id srv.heap
  srv' ← remove_client_from_worker (departed srv id cl) id
  check_scale_down srv'

-- The room's clients, of a room that is made when there is none.
abbrev pub room_clients : String → Assoc String (List ClientId) → List ClientId
room_clients room rooms = elim (lookup room rooms) [ none ↦ [] | some cls ↦ cls ]

-- JoinRoom: the write to the client's own map panics if LeaveServer has set it to nil.
unfoldable pub join_room : WsServer → ClientId → String → Option WsServer
join_room srv id room = do
  srv' ← join_server srv id
  cl ← lookup id srv'.heap
  rs ← cl.rooms
  some (record srv' {
    rooms = insert room (add id (room_clients room srv'.rooms)) srv'.rooms;
    heap = insert id (record cl { rooms = some (add room rs) }) srv'.heap;
  })

leave_found : WsServer → ClientId → String → Option (List ClientId) → Option WsServer
leave_found srv id room none = some srv
leave_found srv id room (some cls) = do
  cl ← lookup id srv.heap
  some (record srv {
    rooms = insert room (remove id cls) srv.rooms;
    heap =
        insert id
          (record cl { rooms = elim cl.rooms [ none ↦ none | some rs ↦ some (remove room rs) ] })
          srv.heap;
  })

-- LeaveRoom: a room that does not exist is only logged.
unfoldable pub leave_room : WsServer → ClientId → String → Option WsServer
unfolding leave_found
leave_room srv id room = leave_found srv id room (lookup room srv.rooms)

-- The clients that get a message of `sender`, of those given.
unfoldable pub others : ClientId → List ClientId → List ClientId
others sender [] = []
others sender (id ∷ ids) =
    let rest = others sender ids in if same id sender then rest else id ∷ rest

-- SendBroadcastMsg, and Worker.SendBroadcastMsg, as the clients that it writes to.
unfoldable pub send_broadcast_msg : WsServer → ClientId → List ClientId
send_broadcast_msg srv sender = others sender srv.clients

unfoldable pub worker_send_broadcast_msg : Worker → ClientId → List ClientId
worker_send_broadcast_msg w sender = others sender w.clients

-- SendRoomMsg, as the clients that it writes to. A room that does not exist is only logged.
unfoldable pub send_room_msg : WsServer → ClientId → String → List ClientId
send_room_msg srv sender room = others sender (room_clients room srv.rooms)

-- Worker.SendRoomMsg, of the clients given.
unfoldable pub worker_send_room_msg : Worker → List ClientId → List ClientId
worker_send_room_msg w [] = []
worker_send_room_msg w (id ∷ ids) =
    let rest = worker_send_room_msg w ids in if contains id w.clients then id ∷ rest else rest

-- SendRoomMsgWorkers, as what each worker writes to.
unfoldable pub send_room_msg_workers : WsServer → ClientId → String → List (List ClientId)
send_room_msg_workers srv sender room =
    map (λ w. worker_send_room_msg w (send_room_msg srv sender room)) srv.workers
