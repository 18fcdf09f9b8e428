-- ===== src/LoopServer/Rooms.antt =====
-- What a room's buffer and its counter hold, as a function of the requests alone.
use mathlib.Core.Path.{subst}
use mathlib.Core.Option.{some-injective}
use go_api_practice.Prelude.{
  true, Option, none, some, List, [], ◌∷◌, ◌++◌, ◌≡◌, refl, sym, ap, ◌∙◌, inl, inr, if◌then◌else◌,
  String, string_key, same, same_iff, arith, Bool-cases,
}
use go_api_practice.Prelude.Int.{suc_ℤ, pred_ℤ, suc_ℤ_parts, pred_ℤ_parts}
use go_api_practice.Prelude.Assoc.{Assoc, lookup, insert, delete, lookup-insert}
use go_api_practice.Prelude.Blocking.{>>=-eq-some}
use go_api_practice.Ring.{RespMsg, RingBuffer, new_ring_buffer, push}
use go_api_practice.Ring.Window.{
  Holds, slide, last_of, push-Holds, slide-last_of, new_ring_buffer-Holds, get_all-Holds,
}
use go_api_practice.LoopServer.Log.{Log, joined, left, said, logged, log_of, Follows, Shows}
use go_api_practice.LoopServer.{
  ReqMsg, Room, Server, new_room, new_server, new_resp_msg, max_msg_stored_per_room, leave_rooms,
  leave_server, join_server, join_found, enter_room, join_room, leave_found, leave_room, send_found,
  send_room_msg, send_broadcast_msg, send_room_msg_replay, others, send_msg, Event, join, leave,
  room_join, room_leave, broadcast, room_msg, room_msg_replay, accept, accept_all,
}

-- A room whose buffer and counter are kept.
abbrev emptied : String → Option Room → Option Room
emptied id none = none
emptied id (some room) = some (record room { clients = delete id room.clients })

pub lookup-leave_rooms :
    (id r : String) (rooms : Assoc String Room)
    → lookup r (leave_rooms id rooms) ≡ emptied id (lookup r rooms)
unfolding leave_rooms lookup
lookup-leave_rooms id r [] = refl
lookup-leave_rooms id r ((q, room) ∷ rooms) = elim (Bool-cases (same q r)) [
  | inl t ↦ rw t refl
  | inr t ↦ rw t (lookup-leave_rooms id r rooms)
]

emptied-Follows :
    (id : String) (o : Option Room) (l : Option Log) → Follows o l → Follows (emptied id o) l
emptied-Follows id none none f = f
emptied-Follows id none (some l) f = f
emptied-Follows id (some room) none f = f
emptied-Follows id (some room) (some l) f = f

-- A write to a room, seen from room `r`.
written-Follows :
    (s : Server) (q r : String) (room : Room) (l l' : Option Log)
    → (same q r ≡ true → Follows (some room) l')
    → Follows (lookup r s.rooms) l
    → Follows (lookup r (insert q room s.rooms)) (if same q r then l' else l)
written-Follows s q r room l l' h f = elim (Bool-cases (same q r)) [
  | inl t ↦ rw (lookup-insert q r room s.rooms, t) (h t)
  | inr t ↦ rw (lookup-insert q r room s.rooms, t) f
]

enter_room-Follows :
    (c : Option String) (id : String) (o : Option Room) (l : Option Log)
    → Follows o l
    → Follows
        (some (enter_room c id (elim o [ none ↦ new_room | some room ↦ room ])))
        (some (joined l))
unfolding enter_room new_room new_ring_buffer suc_ℤ
enter_room-Follows c id none none f = (new_ring_buffer-Holds 64 (omega arith), refl, omega arith)
enter_room-Follows c id (some room) (some l) f =
    (f.0, f.1, omega (arith, f.2, suc_ℤ_parts room.clients_count))
enter_room-Follows c id none (some l) f = elim f [ ]
enter_room-Follows c id (some room) none f = elim f [ ]

-- Of the room that a request names, when it is room `r`.
there :
    (s : Server) (q r : String) (l : Option Log)
    → Follows (lookup r s.rooms) l
    → same q r ≡ true
    → Follows (lookup q s.rooms) l
there s q r l f t = subst (λ x. Follows (lookup x s.rooms) l) (sym ((same_iff q r).0 t)) f

-- The log of a room that does not exist is not written.
no_room :
    (g : Option Log → Option Log) (o p : Option Room) (l : Option Log)
    → g none ≡ none
    → p ≡ none
    → Follows p l
    → Follows o l
    → Follows o (g l)
no_room g o p none z e h f = subst (Follows o) (sym z) f
no_room g o p (some l) z e h f = elim (subst (λ x. Follows x (some l)) e h) [ ]

join_found-Follows :
    (s : Server) (msg : ReqMsg) (c : Option String) (o : Option Room) (r : String) (l : Option Log)
    → lookup msg.room_id s.rooms ≡ o
    → Follows (lookup r s.rooms) l
    → Follows
        (lookup r (join_found s msg c o).rooms)
        (if same msg.room_id r then some (joined l) else l)
unfolding join_found
join_found-Follows s msg c none r l e f =
    written-Follows s msg.room_id r (enter_room c msg.client_id new_room) l (some (joined l))
      (λ t.
        enter_room-Follows c msg.client_id none l
          (subst (λ x. Follows x l) e (there s msg.room_id r l f t)))
      f
join_found-Follows s msg c (some room) r l e f =
    written-Follows s msg.room_id r (enter_room c msg.client_id room) l (some (joined l))
      (λ t.
        enter_room-Follows c msg.client_id (some room) l
          (subst (λ x. Follows x l) e (there s msg.room_id r l f t)))
      f

leave_found-Follows :
    (s : Server) (msg : ReqMsg) (o : Option Room) (r : String) (l : Option Log)
    → lookup msg.room_id s.rooms ≡ o
    → Follows (lookup r s.rooms) l
    → Follows (lookup r (leave_found s msg o).rooms) (if same msg.room_id r then left l else l)
unfolding leave_found
leave_found-Follows s msg none r l e f = elim (Bool-cases (same msg.room_id r)) [
  | inl t ↦ rw t (no_room left _ _ l refl e (there s msg.room_id r l f t) f)
  | inr t ↦ rw t f
]
leave_found-Follows s msg (some room) r l e f =
    written-Follows s msg.room_id r _ l (left l)
      (λ t. left_room l (subst (λ x. Follows x l) e (there s msg.room_id r l f t))) f
  where
    left_room :
        (k : Option Log)
        → Follows (some room) k
        → Follows
            (some (record room {
              clients = delete msg.client_id room.clients;
              clients_count = pred_ℤ room.clients_count;
            }))
            (left k)
    left_room none g = elim g [ ]
    left_room (some k) g = (g.0, g.1, omega (arith, g.2, pred_ℤ_parts room.clients_count))

send_found-Follows :
    (s s' : Server) (msg : ReqMsg) (o : Option Room) (sent : List (String × RespMsg)) (r : String)
    (l : Option Log)
    → lookup msg.room_id s.rooms ≡ o
    → Follows (lookup r s.rooms) l
    → send_found s msg o ≡ some (s', sent)
    → Follows (lookup r s'.rooms) (if same msg.room_id r then said (new_resp_msg msg) l else l)
unfolding send_found
send_found-Follows s s' msg none sent r l e f h =
    subst
      (λ x.
        Follows (lookup r x.0.rooms) (if same msg.room_id r then said (new_resp_msg msg) l else l))
      (some-injective _ _ h)
      (elim (Bool-cases (same msg.room_id r)) [
        | inl t ↦
            rw t (no_room (said (new_resp_msg msg)) _ _ l refl e (there s msg.room_id r l f t) f)
        | inr t ↦ rw t f
      ])
send_found-Follows s s' msg (some room) sent r l e f h =
    let (buffer, p, h₁) = >>=-eq-some (push room.msg_buffer (new_resp_msg msg)) _ h in
    let (_, _, h₂) =
      >>=-eq-some (send_msg (others msg.client_id room.clients) (new_resp_msg msg)) _ h₁ in
    subst
      (λ x.
        Follows (lookup r x.0.rooms) (if same msg.room_id r then said (new_resp_msg msg) l else l))
      (some-injective _ _ h₂)
      (written-Follows s msg.room_id r (record room { msg_buffer = buffer }) l
        (said (new_resp_msg msg) l)
        (λ t. said_room l buffer p (subst (λ x. Follows x l) e (there s msg.room_id r l f t))) f)
  where
    said_room :
        (k : Option Log) (buffer : RingBuffer)
        → push room.msg_buffer (new_resp_msg msg) ≡ some buffer
        → Follows (some room) k
        → Follows (some (record room { msg_buffer = buffer })) (said (new_resp_msg msg) k)
    said_room none buffer p g = elim g [ ]
    said_room (some k) buffer p g =
        let (b, q, w, z) =
          push-Holds (last_of max_msg_stored_per_room k.stored) room.msg_buffer (new_resp_msg msg)
            g.0 in
        let same_b : b ≡ buffer = some-injective _ _ (sym q ∙ p) in
        (
          subst (Holds (last_of max_msg_stored_per_room (k.stored ++ (new_resp_msg msg ∷ []))))
              same_b
              (subst (λ x. Holds x b)
                (ap (λ n. slide n (last_of max_msg_stored_per_room k.stored) (new_resp_msg msg)) g.1
                  ∙ slide-last_of max_msg_stored_per_room k.stored (new_resp_msg msg))
                w),
          sym (ap (λ x. x.size) same_b) ∙ z ∙ g.1,
          g.2,
        )

accept-Follows :
    (s s' : Server) (e : Event) (sent : List (String × RespMsg)) (r : String) (l : Option Log)
    → accept s e ≡ some (s', sent)
    → Follows (lookup r s.rooms) l
    → Follows (lookup r s'.rooms) (logged r e l)
unfolding accept join_server leave_server join_room leave_room send_room_msg logged
accept-Follows s s' (join id) sent r l h f =
    subst (λ x. Follows (lookup r x.0.rooms) l) (some-injective _ _ h) f
accept-Follows s s' (leave id) sent r l h f =
    subst (λ x. Follows (lookup r x.0.rooms) l) (some-injective _ _ h)
      (subst (λ x. Follows x l) (sym (lookup-leave_rooms id r s.rooms))
        (emptied-Follows id (lookup r s.rooms) l f))
accept-Follows s s' (room_join msg) sent r l h f =
    subst (λ x. Follows (lookup r x.0.rooms) (if same msg.room_id r then some (joined l) else l))
      (some-injective _ _ h) (join_found-Follows _ msg _ (lookup msg.room_id s.rooms) r l refl f)
accept-Follows s s' (room_leave msg) sent r l h f =
    subst (λ x. Follows (lookup r x.0.rooms) (if same msg.room_id r then left l else l))
      (some-injective _ _ h) (leave_found-Follows s msg (lookup msg.room_id s.rooms) r l refl f)
accept-Follows s s' (broadcast msg) sent r l h f =
    let (_, _, h₁) = >>=-eq-some (send_broadcast_msg s msg) _ h in
    subst (λ x. Follows (lookup r x.0.rooms) l) (some-injective _ _ h₁) f
accept-Follows s s' (room_msg msg) sent r l h f =
    send_found-Follows s s' msg (lookup msg.room_id s.rooms) sent r l refl f h
accept-Follows s s' (room_msg_replay msg) sent r l h f =
    let (_, _, h₁) = >>=-eq-some (send_room_msg_replay s msg) _ h in
    subst (λ x. Follows (lookup r x.0.rooms) l) (some-injective _ _ h₁) f

accept_all-Follows :
    (s s' : Server) (es : List Event) (r : String) (l : Option Log)
    → accept_all s es ≡ some s'
    → Follows (lookup r s.rooms) l
    → Follows (lookup r s'.rooms) (log_of r es l)
unfolding accept_all log_of
accept_all-Follows s s' [] r l h f =
    subst (λ x. Follows (lookup r x.rooms) l) (some-injective _ _ h) f
accept_all-Follows s s' (e ∷ es) r l h f =
    let ((t, sent), h₁, h₂) = >>=-eq-some (accept s e) _ h in
    accept_all-Follows t s' es r (logged r e l) h₂ (accept-Follows s t e sent r l h₁ f)

Follows-Shows : (o : Option Room) (l : Option Log) → Follows o l → Shows o l
Follows-Shows none none f = f
Follows-Shows none (some l) f = f
Follows-Shows (some room) none f = f
Follows-Shows (some room) (some l) f = (get_all-Holds _ room.msg_buffer f.0, f.2)

-- After any events that the server takes without a panic from its start, a room exists if and only
-- if it was joined, its buffer returns the last 64 messages sent to it since, oldest first, and its
-- counter is the number of its join requests less that of its leave requests since, whoever sent them.
pub rooms_are_as_logged :
    (s : Server) (es : List Event) (r : String)
    → accept_all new_server es ≡ some s
    → Shows (lookup r s.rooms) (log_of r es none)
unfolding lookup new_server
rooms_are_as_logged s es r h =
    Follows-Shows (lookup r s.rooms) (log_of r es none)
      (accept_all-Follows new_server s es r none h tt)
