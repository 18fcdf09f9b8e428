-- ===== src/LoopServer/Log.antt =====
-- What is promised of a room, as a function of the requests alone.
use go_api_practice.Prelude.{
  ℕ, ◌+◌, Option, none, some, List, [], ◌∷◌, ◌++◌, map, ◌≡◌, if◌then◌else◌, String, string_key,
  same,
}
use go_api_practice.Prelude.Int.{pos_part, neg_part}
use go_api_practice.Ring.{RespMsg, get_all}
use go_api_practice.Ring.Window.{Holds, last_of}
use go_api_practice.LoopServer.{
  Room, new_resp_msg, max_msg_stored_per_room, Event, room_join, room_leave, room_msg,
}

-- The specification of a room: the messages sent to it, and how often it was joined and left, since
-- it exists.
pub record Log : Type 0 where
  pub stored : List RespMsg
  pub joins : ℕ
  pub leaves : ℕ

abbrev pub joined : Option Log → Log
joined none = record { stored = []; joins = 1; leaves = 0 }
joined (some l) = record l { joins = l.joins + 1 }

abbrev pub left : Option Log → Option Log
left none = none
left (some l) = some (record l { leaves = l.leaves + 1 })

abbrev pub said : RespMsg → Option Log → Option Log
said m none = none
said m (some l) = some (record l { stored = l.stored ++ (m ∷ []) })

-- The log of room `r` after an event.
unfoldable pub logged : String → Event → Option Log → Option Log
logged r (room_join msg) l = if same msg.room_id r then some (joined l) else l
logged r (room_leave msg) l = if same msg.room_id r then left l else l
logged r (room_msg msg) l = if same msg.room_id r then said (new_resp_msg msg) l else l
logged r _ l = l

unfoldable pub log_of : String → List Event → Option Log → Option Log
log_of r [] l = l
log_of r (e ∷ es) l = log_of r es (logged r e l)

-- A room of the server and its log: neither exists, or the buffer holds the last messages and the
-- counter is the difference of joins and leaves.
abbrev pub Follows : Option Room → Option Log → Type 0
Follows none none = Unit {0}
Follows none (some l) = ⊥
Follows (some room) none = ⊥
Follows (some room) (some l) =
    Holds (last_of max_msg_stored_per_room l.stored) room.msg_buffer
    × (room.msg_buffer.size ≡ max_msg_stored_per_room)
    × (pos_part room.clients_count + l.leaves ≡ neg_part room.clients_count + l.joins)

-- What a client is promised of a room: its buffer returns the last messages in their order, and the
-- counter is the number of joins less that of leaves.
abbrev pub Shows : Option Room → Option Log → Type 0
Shows none none = Unit {0}
Shows none (some l) = ⊥
Shows (some room) none = ⊥
Shows (some room) (some l) =
    (get_all room.msg_buffer ≡ some (map some (last_of max_msg_stored_per_room l.stored)))
    × (pos_part room.clients_count + l.leaves ≡ neg_part room.clients_count + l.joins)
