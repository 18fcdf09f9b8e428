-- ===== src/LoopServer/Panics.antt =====
-- When the handlers of the server panic: never while the clients of requests are in the map of the
-- server, and on the first send after another client joins a room.
use go_api_practice.Prelude.{
  false, Option, none, some, List, [], ◌∷◌, ◌≡◌, ◌≢◌, refl, ap, ◌∙◌, inl, inr, String, string_key,
  same, same_iff, arith, Bool-cases, Option-cases,
}
use go_api_practice.Prelude.Assoc.{lookup, insert}
use go_api_practice.Prelude.Values.{All, All-insert, All-lookup}
use go_api_practice.Prelude.Blocking.{◌>>=◌}
use go_api_practice.Ring.{RespMsg}
use go_api_practice.Ring.Window.{push-Holds, new_ring_buffer-Holds}
use go_api_practice.LoopServer.{
  Pointers, ReqMsg, Room, Server, new_room, new_resp_msg, leave_server, join_server, join_found,
  enter_room, join_room, leave_found, leave_room, send_found, send_room_msg, send_broadcast_msg,
  others, send_msg, pointer, Event, join, leave, room_join, room_leave, broadcast, room_msg,
  room_msg_replay, accept, accept_all,
}
use go_api_practice.LoopServer.Once.{
  Known, KnownOnce-insert, KnownOnce-delete, ReachesOthersOnce, to_others,
  to_others-ReachesOthersOnce,
}
use go_api_practice.LoopServer.Membership.{
  Buffered, Sound, send_msg-Known, others-Known, leave_rooms-Buffered,
}

join_found-Sound :
    (s : Server) (msg : ReqMsg) (o : Option Room)
    → lookup msg.room_id s.rooms ≡ o
    → Sound s
    → Sound (join_found s msg (some msg.client_id) o)
unfolding join_found enter_room new_room insert lookup
join_found-Sound s msg none e h = (
  h.0,
  All-insert Buffered msg.room_id _ s.rooms
      (((refl, tt), (refl, tt)), [], new_ring_buffer-Holds 64 (omega arith)) h.1,
)
join_found-Sound s msg (some room) e h =
    let (k, win, b) = All-lookup Buffered msg.room_id room s.rooms h.1 e in
    (
      h.0,
      All-insert Buffered msg.room_id _ s.rooms
          (KnownOnce-insert msg.client_id room.clients k, win, b) h.1,
    )

leave_found-Sound :
    (s : Server) (msg : ReqMsg) (o : Option Room)
    → lookup msg.room_id s.rooms ≡ o
    → Sound s
    → Sound (leave_found s msg o)
unfolding leave_found
leave_found-Sound s msg none e h = h
leave_found-Sound s msg (some room) e h =
    let (k, win, b) = All-lookup Buffered msg.room_id room s.rooms h.1 e in
    (
      h.0,
      All-insert Buffered msg.room_id _ s.rooms
          (KnownOnce-delete msg.client_id room.clients k, win, b) h.1,
    )

-- The clients of a room that may be missing.
abbrev pub members : Option Room → Pointers
members none = []
members (some room) = room.clients

-- What a send gives: the server after it, and what was delivered.
abbrev Sends : Option (Server × List (String × RespMsg)) → Pointers → ReqMsg → Type 0
Sends r cls msg =
    (s' : Server) × (sent : List (String × RespMsg)) × (r ≡ some (s', sent))
    × Sound s'
    × ReachesOthersOnce cls msg sent

send_found-Sends :
    (s : Server) (msg : ReqMsg) (o : Option Room)
    → lookup msg.room_id s.rooms ≡ o
    → Sound s
    → Sends (send_found s msg o) (members o) msg
unfolding send_found lookup
send_found-Sends s msg none e h = (s, [], refl, h, λ id. refl)
send_found-Sends s msg (some room) e h =
    let (k, win, w) = All-lookup Buffered msg.room_id room s.rooms h.1 e in
    let (b, p, w', _) = push-Holds win room.msg_buffer (new_resp_msg msg) w in
    let known = others-Known msg.client_id room.clients k.0 in
    (
      record s { rooms = insert msg.room_id (record room { msg_buffer = b }) s.rooms },
      to_others room.clients msg,
      rw (p, send_msg-Known (others msg.client_id room.clients) (new_resp_msg msg) known) refl,
      (
        h.0,
        All-insert Buffered msg.room_id (record room { msg_buffer = b }) s.rooms (k, _, w') h.1,
      ),
      to_others-ReachesOthersOnce room.clients msg k.1,
    )

-- A request that cannot panic: a join of a room is of a client of the server, and no replay.
abbrev pub Allowed : Server → Event → Type 0
Allowed s (room_join msg) = lookup msg.client_id s.clients ≢ none
Allowed s (room_msg_replay msg) = ⊥
Allowed s _ = Unit {0}

-- What a request delivers: a broadcast or a room message once to each client of the map but the sender.
abbrev pub Delivers : Server → Event → List (String × RespMsg) → Type 0
Delivers s (broadcast msg) sent = ReachesOthersOnce s.clients msg sent
Delivers s (room_msg msg) sent = ReachesOthersOnce (members (lookup msg.room_id s.rooms)) msg sent
Delivers s _ sent = sent ≡ []

pointer-Known :
    (id : String) (cls : Pointers)
    → All Known cls
    → lookup id cls ≢ none
    → pointer (lookup id cls) ≡ some id
pointer-Known id cls h n = elim (Option-cases (lookup id cls)) [
  | inl e ↦ absurd (n e)
  | inr e ↦ ap pointer e.1 ∙ All-lookup Known id e.0 cls h e.1
]

join_room-Sound :
    (s : Server) (msg : ReqMsg)
    → lookup msg.client_id s.clients ≢ none
    → Sound s
    → Sound (join_room s msg)
unfolding join_room
join_room-Sound s msg n h =
    let c = pointer-Known msg.client_id s.clients h.0.0 n in
    rw c (
      join_found-Sound (record s { clients = insert msg.client_id (some msg.client_id) s.clients })
        msg (lookup msg.room_id s.rooms) refl (KnownOnce-insert msg.client_id s.clients h.0, h.1))

-- If every map of clients has each key once and points to the clients of its keys, no event but a
-- replay or a join of a room by a client that is not in the map of the server panics: the maps stay so,
-- a broadcast is delivered once to each client of the server but the sender and to nobody else, a room
-- message likewise to the clients of the room, with the contents of the request, and nothing else is
-- delivered.
pub accept_keeps_clients_known :
    (s : Server) (e : Event)
    → Sound s
    → Allowed s e
    → (s' : Server) × (sent : List (String × RespMsg)) × (accept s e ≡ some (s', sent))
      × Sound s'
      × Delivers s e sent
unfolding accept join_server leave_server leave_room send_room_msg send_broadcast_msg
accept_keeps_clients_known s (join id) h a =
    (_, [], refl, (KnownOnce-insert id s.clients h.0, h.1), refl)
accept_keeps_clients_known s (leave id) h a =
    (_, [], refl, (KnownOnce-delete id s.clients h.0, leave_rooms-Buffered id s.rooms h.1), refl)
accept_keeps_clients_known s (room_join msg) h a = (_, [], refl, join_room-Sound s msg a h, refl)
accept_keeps_clients_known s (room_leave msg) h a =
    (_, [], refl, leave_found-Sound s msg (lookup msg.room_id s.rooms) refl h, refl)
accept_keeps_clients_known s (broadcast msg) h a =
    let known = others-Known msg.client_id s.clients h.0.0 in
    (
      s,
      to_others s.clients msg,
      rw (send_msg-Known (others msg.client_id s.clients) (new_resp_msg msg) known) refl,
      h,
      to_others-ReachesOthersOnce s.clients msg h.0.1,
    )
accept_keeps_clients_known s (room_msg msg) h a =
    send_found-Sends s msg (lookup msg.room_id s.rooms) refl h
accept_keeps_clients_known s (room_msg_replay msg) h a = elim a [ ]

send_msg-nil :
    (id sender : String) (cls : Pointers) (resp : RespMsg)
    → same id sender ≡ false
    → send_msg (others sender (insert id none cls)) resp ≡ none
unfolding send_msg others insert
send_msg-nil id sender [] resp n = rw n refl
send_msg-nil id sender ((j, none) ∷ cls) resp n = elim (Bool-cases (same j id)) [
  | inl t ↦ rw (t, n) refl
  | inr t ↦ elim (Bool-cases (same j sender)) [
    | inl u ↦ rw (t, u) (send_msg-nil id sender cls resp n)
    | inr u ↦ rw (t, u) refl
  ]
]
send_msg-nil id sender ((j, some c) ∷ cls) resp n = elim (Bool-cases (same j id)) [
  | inl t ↦ rw (t, n) refl
  | inr t ↦ elim (Bool-cases (same j sender)) [
    | inl u ↦ rw (t, u) (send_msg-nil id sender cls resp n)
    | inr u ↦
        rw (t, u)
          (ap (λ r. r >>= (λ rest. some ((c, resp) ∷ rest))) (send_msg-nil id sender cls resp n))
  ]
]

join_found-clients :
    (s : Server) (msg : ReqMsg) (c : Option String) (o : Option Room)
    → (join_found s msg c o).clients ≡ s.clients
unfolding join_found
join_found-clients s msg c none = refl
join_found-clients s msg c (some room) = refl

-- Once a client that is not in the map of the server has joined a room, whichever it is, the next
-- broadcast of any other client panics.
pub join_room_of_stranger_breaks_broadcast :
    (s : Server) (msg next : ReqMsg)
    → lookup msg.client_id s.clients ≡ none
    → msg.client_id ≢ next.client_id
    → accept_all s (room_join msg ∷ broadcast next ∷ []) ≡ none
unfolding accept_all accept join_room send_broadcast_msg
join_room_of_stranger_breaks_broadcast s msg next e n =
    let clients : (join_room s msg).clients ≡ insert msg.client_id none s.clients =
      join_found-clients _ msg _ _ ∙ ap (λ o. insert msg.client_id (pointer o) s.clients) e in
    let fails : send_broadcast_msg (join_room s msg) next ≡ none =
      ap (λ cls. send_msg (others next.client_id cls) (new_resp_msg next)) clients
      ∙ send_msg-nil msg.client_id next.client_id s.clients (new_resp_msg next)
          (ground (arith, n, same_iff msg.client_id next.client_id)) in
    rw fails refl
