-- ===== src/LoopServer.antt =====
-- The chat server with a loop for each client: chat/with-loop-per-client/server.go. The handlers are
-- those that AcceptLoop calls; it starts some as goroutines, which are events of their own here. A
-- handler is `none` when it panics. A value of a map of clients is the id of the client pointed to, or
-- none for nil. What a handler writes to the channels of clients is the list of the deliveries.
pub mod Log
pub mod Rooms
pub mod Once
pub mod Membership
pub mod Panics
pub mod Sending
mod Tests
use go_api_practice.Prelude.{
  ℕ, suc, ◌+◌, Bool, true, false, not, Option, none, some, List, [], ◌∷◌, ◌++◌, map, String,
  string_key, same, if◌then◌else◌, ltb, leb, length,
}
use go_api_practice.Prelude.Int.{ℤ, pos, suc_ℤ, pred_ℤ}
use go_api_practice.Prelude.Assoc.{Assoc, is_empty, lookup, insert, delete}
use go_api_practice.Prelude.Blocking.{◌>>=◌}
use go_api_practice.Ring.{RespMsg, RingBuffer, new_ring_buffer, push, get_from_offset}

pub data MsgType : Type 0 where
  type_broadcast type_room_join type_room_leave type_room_msg type_ping type_throttled type_replay :
      MsgType

abbrev pub type_name : MsgType → String
type_name type_broadcast = "broadcast"
type_name type_room_join = "room-join"
type_name type_room_leave = "room-leave"
type_name type_room_msg = "room-message"
type_name type_ping = "ping"
type_name type_throttled = "throttled"
type_name type_replay = "replay"

pub record ReqMsg : Type 0 where
  pub msg_type : MsgType
  pub client_id : String
  pub contents : String
  pub room_id : String
  pub offset : ℤ

abbrev pub Pointers : Type 0
Pointers = Assoc String (Option String)

pub record Room : Type 0 where
  pub clients : Pointers
  pub msg_buffer : RingBuffer
  pub clients_count : ℤ

pub record Server : Type 0 where
  pub clients : Pointers
  pub rooms : Assoc String Room
  pub rooms_count : ℤ

abbrev pub max_msg_stored_per_room : ℕ
max_msg_stored_per_room = 64

unfoldable pub new_room : Room
new_room = record {
  clients = [];
  msg_buffer = new_ring_buffer max_msg_stored_per_room;
  clients_count = pos 0;
}

unfoldable pub new_server : Server
new_server = record { clients = []; rooms = []; rooms_count = pos 0 }

unfoldable pub new_resp_msg : ReqMsg → RespMsg
new_resp_msg msg = record {
  msg_type = type_name msg.msg_type;
  contents = msg.contents;
  sender_id = msg.client_id;
  room_id = msg.room_id;
  err_code = pos 0;
  offset = msg.offset;
}

unfoldable pub join_server : Server → String → Server
join_server s id = record s { clients = insert id (some id) s.clients }

-- `for _, r := range s.rooms`
unfoldable pub leave_rooms : String → Assoc String Room → Assoc String Room
leave_rooms id [] = []
leave_rooms id ((r, room) ∷ rooms) =
    (r, record room { clients = delete id room.clients }) ∷ leave_rooms id rooms

unfoldable pub leave_server : Server → String → Server
leave_server s id = record s { clients = delete id s.clients; rooms = leave_rooms id s.rooms }

-- The pointer that a read of a map gives: nil for a missing key.
abbrev pub pointer : Option (Option String) → Option String
pointer none = none
pointer (some p) = p

enter_room : Option String → String → Room → Room
enter_room c id room = record room {
  clients = insert id c room.clients;
  clients_count = suc_ℤ room.clients_count;
}

join_found : Server → ReqMsg → Option String → Option Room → Server
join_found s msg c none = record s {
  rooms = insert msg.room_id (enter_room c msg.client_id new_room) s.rooms;
  rooms_count = suc_ℤ s.rooms_count;
}
join_found s msg c (some room) = record s {
  rooms = insert msg.room_id (enter_room c msg.client_id room) s.rooms;
}

-- joinRoom: the client that is read is written back, nil or not.
unfoldable pub join_room : Server → ReqMsg → Server
unfolding join_found enter_room
join_room s msg =
    let c = pointer (lookup msg.client_id s.clients) in
    join_found (record s { clients = insert msg.client_id c s.clients }) msg c
      (lookup msg.room_id s.rooms)

leave_found : Server → ReqMsg → Option Room → Server
leave_found s msg none = s
leave_found s msg (some room) = record s {
  rooms =
      insert msg.room_id
        (record room {
          clients = delete msg.client_id room.clients;
          clients_count = pred_ℤ room.clients_count;
        })
        s.rooms;
}

unfoldable pub leave_room : Server → ReqMsg → Server
unfolding leave_found
leave_room s msg = leave_found s msg (lookup msg.room_id s.rooms)

-- `if id != msg.ClientID { cls[id] = c }`
unfoldable pub others : String → Pointers → Pointers
others sender [] = []
others sender ((id, c) ∷ cls) =
    let rest = others sender cls in if same id sender then rest else (id, c) ∷ rest

-- sendMsg: a send to a nil client panics.
unfoldable pub send_msg : Pointers → RespMsg → Option (List (String × RespMsg))
send_msg [] resp = some []
send_msg ((id, c) ∷ cls) resp = do to ← c; rest ← send_msg cls resp; some ((to, resp) ∷ rest)

unfoldable pub send_broadcast_msg : Server → ReqMsg → Option (List (String × RespMsg))
send_broadcast_msg s msg = send_msg (others msg.client_id s.clients) (new_resp_msg msg)

send_found : Server → ReqMsg → Option Room → Option (Server × List (String × RespMsg))
send_found s msg none = some (s, [])
send_found s msg (some room) = do
  buffer ← push room.msg_buffer (new_resp_msg msg)
  sent ← send_msg (others msg.client_id room.clients) (new_resp_msg msg)
  some (record s { rooms = insert msg.room_id (record room { msg_buffer = buffer }) s.rooms }, sent)

unfoldable pub send_room_msg : Server → ReqMsg → Option (Server × List (String × RespMsg))
unfolding send_found
send_room_msg s msg = send_found s msg (lookup msg.room_id s.rooms)

-- `for _, resp := range msgs`
replay_all : Pointers → List (Option RespMsg) → Option (List (String × RespMsg))
replay_all cls [] = some []
replay_all cls (m ∷ ms) = do
  resp ← m
  sent ← send_msg cls resp
  rest ← replay_all cls ms
  some (sent ++ rest)

replay_found : ReqMsg → Option Room → Option (List (String × RespMsg))
unfolding replay_all
replay_found msg none = some []
replay_found msg (some room) = do
  msgs ← get_from_offset room.msg_buffer msg.offset
  if is_empty room.clients then some [] else replay_all room.clients msgs

unfoldable pub send_room_msg_replay : Server → ReqMsg → Option (List (String × RespMsg))
unfolding replay_found
send_room_msg_replay s msg = replay_found msg (lookup msg.room_id s.rooms)

-- AcceptLoop. Two of its cases read roomMsgCH, the second one for a replay, so a message of that
-- channel is an event of either kind; no case reads replayMsgCH.
pub data Event : Type 0 where
  join : String → Event
  leave : String → Event
  room_join : ReqMsg → Event
  room_leave : ReqMsg → Event
  broadcast : ReqMsg → Event
  room_msg : ReqMsg → Event
  room_msg_replay : ReqMsg → Event

unfoldable pub accept : Server → Event → Option (Server × List (String × RespMsg))
accept s (join id) = some (join_server s id, [])
accept s (leave id) = some (leave_server s id, [])
accept s (room_join msg) = some (join_room s msg, [])
accept s (room_leave msg) = some (leave_room s msg, [])
accept s (broadcast msg) = do sent ← send_broadcast_msg s msg; some (s, sent)
accept s (room_msg msg) = send_room_msg s msg
accept s (room_msg_replay msg) = do sent ← send_room_msg_replay s msg; some (s, sent)

unfoldable pub accept_all : Server → List Event → Option Server
accept_all s [] = some s
accept_all s (e ∷ es) = do (s', sent) ← accept s e; accept_all s' es
