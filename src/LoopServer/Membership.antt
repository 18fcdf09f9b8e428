-- ===== src/LoopServer/Membership.antt =====
-- Who is in which map of the server, and who gets what: leaveServer, joinRoom and the sends.
use go_api_practice.Prelude.{
  none, some, List, [], ◌∷◌, map, ◌≡◌, refl, inl, inr, if◌then◌else◌, String, string_key, same,
  Bool-cases,
}
use go_api_practice.Prelude.Assoc.{Assoc, lookup, delete, lookup-delete}
use go_api_practice.Prelude.Values.{All}
use go_api_practice.Ring.{RespMsg}
use go_api_practice.Ring.Window.{Holds}
use go_api_practice.LoopServer.{Pointers, Room, Server, leave_rooms, leave_server, others, send_msg}
use go_api_practice.LoopServer.Once.{Known, KnownOnce, KnownOnce-delete}
use go_api_practice.LoopServer.Rooms.{lookup-leave_rooms}

lookup-leave_rooms_room :
    (id j r : String) (rooms : Assoc String Room) (room : Room)
    → lookup r rooms ≡ some room
    → (room' : Room) × (lookup r (leave_rooms id rooms) ≡ some room')
      × (lookup j room'.clients ≡ (if same id j then none else lookup j room.clients))
lookup-leave_rooms_room id j r rooms room e = (
  record room { clients = delete id room.clients },
  rw (lookup-leave_rooms id r rooms, e) refl,
  lookup-delete id j room.clients,
)

-- After leaveServer a client is neither in the map of the server nor in that of any room, which keep
-- every other client.
pub leave_server_removes_everywhere :
    (s : Server) (id j r : String) (room : Room)
    → lookup r s.rooms ≡ some room
    → (lookup j (leave_server s id).clients ≡ (if same id j then none else lookup j s.clients))
      × (room' : Room) × (lookup r (leave_server s id).rooms ≡ some room')
      × (lookup j room'.clients ≡ (if same id j then none else lookup j room.clients))
unfolding leave_server
leave_server_removes_everywhere s id j r room e =
    let (room', l, c) = lookup-leave_rooms_room id j r s.rooms room e in
    (lookup-delete id j s.clients, room', l, c)

abbrev pub Buffered : String → Room → Type 0
Buffered r room = KnownOnce room.clients × (win : List RespMsg) × Holds win room.msg_buffer

-- Every entry of a map of clients points to the client of its key and stands there once, and every
-- room's buffer is as pushes leave it.
abbrev pub Sound : Server → Type 0
Sound s = KnownOnce s.clients × All Buffered s.rooms

pub send_msg-Known :
    (cls : Pointers) (resp : RespMsg)
    → All Known cls
    → send_msg cls resp ≡ some (map (λ e. (e.0, resp)) cls)
unfolding send_msg
send_msg-Known [] resp h = refl
send_msg-Known ((id, c) ∷ cls) resp h = rw (h.0, send_msg-Known cls resp h.1) refl

pub others-Known :
    (sender : String) (cls : Pointers) → All Known cls → All Known (others sender cls)
unfolding others
others-Known sender [] h = tt
others-Known sender ((id, c) ∷ cls) h = elim (Bool-cases (same id sender)) [
  | inl t ↦ rw t (others-Known sender cls h.1)
  | inr t ↦ rw t (h.0, others-Known sender cls h.1)
]

pub leave_rooms-Buffered :
    (id : String) (rooms : Assoc String Room)
    → All Buffered rooms
    → All Buffered (leave_rooms id rooms)
unfolding leave_rooms
leave_rooms-Buffered id [] h = tt
leave_rooms-Buffered id ((r, room) ∷ rooms) h =
    ((KnownOnce-delete id room.clients h.0.0, h.0.1, h.0.2), leave_rooms-Buffered id rooms h.1)
