-- ===== src/ClientLoop/State.antt =====
-- The types of chat/client-loop/chat-client-loop.go.
use go_api_practice.Prelude.{Option, none, some, List, String, string_key}
use go_api_practice.Prelude.Int.{ℤ}
use go_api_practice.Prelude.Assoc.{Assoc}
use go_api_practice.Prelude.Mutex.{RwMutex}
use go_api_practice.Prelude.Run.{Run, done, panics}

abbrev pub msg_type_join_room : String
msg_type_join_room = "join-room"

abbrev pub msg_type_leave_room : String
msg_type_leave_room = "leave-room"

abbrev pub msg_type_room_message : String
msg_type_room_message = "room-message"

abbrev pub msg_type_broadcast : String
msg_type_broadcast = "broadcast"

abbrev pub msg_type_direct : String
msg_type_direct = "direct"

abbrev pub msg_type_ping : String
msg_type_ping = "ping"

abbrev pub msg_type_pong : String
msg_type_pong = "pong"

pub data RegisterCmd : Type 0 where
  register_broadcast_cmd register_room_cmd unregister_room_cmd unregister_cmd : RegisterCmd

pub record Client : Type 0 where
  pub rooms : List String
  pub ping_count : ℤ

pub record Room : Type 0 where
  pub clients : List String

pub record ClientMsg : Type 0 where
  pub msg_type : String
  pub contents : String
  pub room_id : String

-- What WriteJSON gets: a ClientMSG, or the data of a broadcast.
pub data Written : Type 0 where
  message : ClientMsg → Written
  raw : String → Written

pub record BroadcastWorker : Type 0 where
  pub clients : List String
  pub msg_ch : List String

pub record WsServer : Type 0 where
  pub clients : List String
  pub rooms : Assoc String Room
  pub client_ch : List String
  pub workers : List BroadcastWorker
  pub mu : RwMutex
  pub heap : Assoc String Client

pub record RegisterPayload : Type 0 where
  pub client : String
  pub cmd : RegisterCmd
  pub room_id : String

-- A nil pointer panics.
abbrev pub deref {ℓ} : {A : Type ℓ} → Option A → Run A
deref none = panics
deref (some a) = done a
