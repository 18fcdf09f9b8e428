-- ===== src/ClientLoop.antt =====
-- The chat server with a client loop: chat/client-loop/chat-client-loop.go. A client is named by its
-- wsID, which stands for the pointer; `heap` holds the clients' objects. A room is never taken out of
-- `Rooms`, so its name stands for its pointer. The lock of the server is modelled; those of rooms and
-- clients are held for one access each. A handler is one step here, as when no other handler runs in
-- between: JoinRoom, LeaveRoom and Unregister release one lock before they take the next, so that in
-- the program another handler can run between their parts, which Parts models. A channel holds what was sent to it and not
-- received; a send that waits for room in it is not told from one that does not. The messages that are
-- written to the connections are the list of the deliveries.
pub mod State
pub mod Url
pub mod Steps
pub mod Lock
pub mod Members
pub mod Leave
pub mod Parts
pub mod Settled
pub mod Interleaved
pub mod Places
pub mod Visit
mod Tests
pub use State.*
use go_api_practice.Prelude.{
  ℕ, ◌+◌, Bool, true, false, Option, none, some, List, [], ◌∷◌, ◌++◌, map, String, string_key, same,
  if◌then◌else◌, get_elem?, set, replicate,
}
use go_api_practice.Prelude.Int.{ℤ, pos, negsuc, suc_ℤ, pred_ℤ, ltb_ℤ}
use go_api_practice.Prelude.Assoc.{Assoc, lookup, insert}
use go_api_practice.Prelude.Members.{contains, add, remove}
use go_api_practice.Prelude.Mutex.{RwMutex, r_lock, r_unlock, w_lock, w_unlock}
use go_api_practice.Prelude.Run.{Run, done, waits, panics, ◌>>=◌, await}

unfoldable pub new_client : Client
new_client = record { rooms = []; ping_count = pos 0 }

new_broadcast_worker : BroadcastWorker
new_broadcast_worker = record { clients = []; msg_ch = [] }

-- NewWSServer and initBroadcastHub, with so many workers.
unfoldable pub new_ws_server : ℕ → WsServer
unfolding new_broadcast_worker
new_ws_server num_workers = record {
  clients = [];
  rooms = [];
  client_ch = [];
  workers = replicate num_workers new_broadcast_worker;
  mu = record { readers = 0; writer = false };
  heap = [];
}

unfoldable pub register_broadcast : WsServer → String → Run WsServer
register_broadcast svr id = do
  mu ← await (w_lock svr.mu)
  done (record svr {
    mu = w_unlock mu;
    clients = add id svr.clients;
    client_ch = svr.client_ch ++ (id ∷ []);
  })

pub leave_found : String → String → Option Room → Assoc String Room → Assoc String Room
leave_found id r none rooms = rooms
leave_found id r (some room) rooms =
    insert r (record room { clients = remove id room.clients }) rooms

-- `for _, r := range roomsToLeave`
unfoldable pub leave_all : String → List String → Assoc String Room → Assoc String Room
unfolding leave_found
leave_all id [] rooms = rooms
leave_all id (r ∷ rs) rooms = leave_all id rs (leave_found id r (lookup r rooms) rooms)

unregistered : WsServer → String → Run WsServer
unregistered svr id = do
  c ← deref (lookup id svr.heap)
  done (record svr {
    clients = remove id svr.clients;
    rooms = leave_all id c.rooms svr.rooms;
    heap = insert id (record c { rooms = [] }) svr.heap;
  })

-- Unregister, as one step like JoinRoom.
unfoldable pub unregister : WsServer → String → Run WsServer
unfolding unregistered
unregister svr id = do
  mu ← await (w_lock svr.mu)
  if contains id svr.clients
      then unregistered (record svr { mu = w_unlock mu }) id
      else done (record svr { mu = w_unlock mu })

-- The room of the map, or a new one.
abbrev pub room_or_new : Option Room → Room
room_or_new none = record { clients = [] }
room_or_new (some room) = room

unfoldable pub entered : String → Room → Room
entered id room = record room { clients = add id room.clients }

-- JoinRoom, with the accesses under the three locks as one step; Parts has them one by one.
unfoldable pub join_room : WsServer → String → String → Run WsServer
unfolding entered
join_room svr id r = do
  mu ← await (w_lock svr.mu)
  c ← deref (lookup id svr.heap)
  done (record svr {
    mu = w_unlock mu;
    rooms = insert r (entered id (room_or_new (lookup r svr.rooms))) svr.rooms;
    heap = insert id (record c { rooms = add r c.rooms }) svr.heap;
  })

-- LeaveRoom after it has read the room. A client that is not a member is read as nil and its wsID is
-- logged; for a missing room the length of the clients of a nil room is logged.
left_room : WsServer → String → String → Option Room → Run WsServer
left_room svr id r none = panics
left_room svr id r (some room) = do
  member ← if contains id room.clients then done id else panics
  c ← deref (lookup id svr.heap)
  done (record svr {
    rooms = insert r (record room { clients = remove id room.clients }) svr.rooms;
    heap = insert id (record c { rooms = remove r c.rooms }) svr.heap;
  })

-- LeaveRoom, as one step like JoinRoom.
unfoldable pub leave_room : WsServer → String → String → Run WsServer
unfolding left_room
leave_room svr id r = do
  mu ← await (r_lock svr.mu)
  left_room (record svr { mu = r_unlock mu }) id r (lookup r svr.rooms)

abbrev pub room_message : String → String → Written
room_message contents r =
    message (record { msg_type = msg_type_room_message; contents = contents; room_id = r })

-- SendRoomMSG after it has read the room: it returns with the lock held if the room is missing. The
-- flag tells whether it returns no error.
sent_room_msg :
    WsServer
    → RwMutex
    → String
    → String
    → String
    → Option Room
    → WsServer × List (String × Written) × Bool
sent_room_msg svr mu contents id r none = (record svr { mu = mu }, [], false)
sent_room_msg svr mu contents id r (some room) =
    let after = record svr { mu = r_unlock mu } in
    if contains id room.clients
    then (after, map (λ c. (c, room_message contents r)) (remove id room.clients), true)
    else (after, [], false)

unfoldable pub send_room_msg :
    WsServer → String → String → String → Run (WsServer × List (String × Written) × Bool)
unfolding sent_room_msg
send_room_msg svr contents id r = do
  mu ← await (r_lock svr.mu)
  done (sent_room_msg svr mu contents id r (lookup r svr.rooms))

-- `worker.msgCh <- msg` for every worker
unfoldable pub broadcast_to : String → List BroadcastWorker → List BroadcastWorker
broadcast_to msg [] = []
broadcast_to msg (brw ∷ brws) =
    record brw { msg_ch = brw.msg_ch ++ (msg ∷ []) } ∷ broadcast_to msg brws

unfoldable pub broadcast_msg : WsServer → String → WsServer
broadcast_msg svr msg = record svr { workers = broadcast_to msg svr.workers }

-- A round of acceptClientLoop: the worker takes the first client that waits.
taken_client : WsServer → ℕ → List String → Option BroadcastWorker → WsServer
taken_client svr w [] brw = svr
taken_client svr w (id ∷ ids) none = svr
taken_client svr w (id ∷ ids) (some brw) = record svr {
  client_ch = ids;
  workers = set svr.workers w (record brw { clients = brw.clients ++ (id ∷ []) });
}

unfoldable pub accept_client : WsServer → ℕ → WsServer
unfolding taken_client
accept_client svr w = taken_client svr w svr.client_ch (get_elem? svr.workers w)

written_broadcast :
    WsServer → ℕ → BroadcastWorker → List String → WsServer × List (String × Written)
written_broadcast svr w brw [] = (svr, [])
written_broadcast svr w brw (msg ∷ msgs) = (
  record svr { workers = set svr.workers w (record brw { msg_ch = msgs }) },
  map (λ c. (c, raw msg)) brw.clients,
)

-- A round of handleBroadcast.
unfoldable pub handle_broadcast : WsServer → ℕ → WsServer × List (String × Written)
unfolding written_broadcast
handle_broadcast svr w = elim (get_elem? svr.workers w) [
  | none ↦ (svr, [])
  | some brw ↦ written_broadcast svr w brw brw.msg_ch
]

-- The switch of RegisterLoop.
unfoldable pub register_cmd : WsServer → RegisterCmd → String → String → Run WsServer
register_cmd svr register_broadcast_cmd id r = register_broadcast svr id
register_cmd svr register_room_cmd id r = join_room svr id r
register_cmd svr unregister_room_cmd id r = leave_room svr id r
register_cmd svr unregister_cmd id r = unregister svr id

abbrev pub register : WsServer → RegisterPayload → Run WsServer
register svr v = register_cmd svr v.cmd v.client v.room_id

unfoldable pub pinged : WsServer → String → Run (WsServer × List (String × Written))
pinged svr id = do
  c ← deref (lookup id svr.heap)
  done (
    record svr { heap = insert id (record c { ping_count = suc_ℤ c.ping_count }) svr.heap },
    (id, message (record { msg_type = msg_type_pong; contents = ""; room_id = "" })) ∷ [],
  )

-- A handler that writes nothing, and one whose error is dropped.
abbrev pub silent : Run WsServer → Run (WsServer × List (String × Written))
silent m = do svr' ← m; done (svr', [])

abbrev pub unreported :
    Run (WsServer × List (String × Written) × Bool) → Run (WsServer × List (String × Written))
unreported m = do (svr', sent, ok) ← m; done (svr', sent)

-- The dispatch of readMsgLoop.
unfoldable pub read_msg : WsServer → String → ClientMsg → Run (WsServer × List (String × Written))
read_msg svr id msg =
    if same msg.msg_type msg_type_broadcast
    then done (broadcast_msg svr msg.contents, [])
    else if same msg.msg_type msg_type_room_message
    then unreported (send_room_msg svr msg.contents id msg.room_id)
    else if same msg.msg_type msg_type_join_room
    then silent (join_room svr id msg.room_id)
    else if same msg.msg_type msg_type_leave_room
    then silent (leave_room svr id msg.room_id)
    else if same msg.msg_type msg_type_ping
    then pinged svr id
    else done (svr, [])

-- A tick of readMsgLoop; the flag tells whether it closes the connection.
unfoldable pub tick : WsServer → String → Run (WsServer × Bool)
tick svr id = do
  c ← deref (lookup id svr.heap)
  done (
    record svr { heap = insert id (record c { ping_count = pred_ℤ c.ping_count }) svr.heap },
    ltb_ℤ (pred_ℤ c.ping_count) (negsuc 1),
  )

-- The steps of the goroutines, one handler each.
pub data Event : Type 0 where
  connect : String → Event
  registered : RegisterPayload → Event
  read : String → ClientMsg → Event
  ticked : String → Event
  client_taken : ℕ → Event
  msg_taken : ℕ → Event

unfoldable pub step : WsServer → Event → Run (WsServer × List (String × Written))
step svr (connect id) = done (record svr { heap = insert id new_client svr.heap }, [])
step svr (registered v) = silent (register svr v)
step svr (read id msg) = read_msg svr id msg
step svr (ticked id) = do (svr', closed) ← tick svr id; done (svr', [])
step svr (client_taken w) = done (accept_client svr w, [])
step svr (msg_taken w) = done (handle_broadcast svr w)

unfoldable pub steps : WsServer → List Event → Run WsServer
steps svr [] = done svr
steps svr (e ∷ es) = do (svr', sent) ← step svr e; steps svr' es
