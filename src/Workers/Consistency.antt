-- ===== src/Workers/Consistency.antt =====
-- A room lists a client exactly if the client lists the room.
use mathlib.Core.Path.{subst}
use mathlib.Core.Option.{some-injective}
use go_api_practice.Prelude.{
  ℕ, true, false, Option, none, some, List, [], ◌∷◌, ◌≡◌, refl, sym, ap, ◌∙◌, inl, inr,
  if◌then◌else◌, bytes_key, string_key, same, same_iff, arith, Bool-cases, Option-cases, String,
}
use go_api_practice.Prelude.Assoc.{Assoc, lookup, insert}
use go_api_practice.Prelude.Members.{contains, add, remove, contains-add, contains-remove}
use go_api_practice.Prelude.Blocking.{>>=-eq-some}
use go_api_practice.Workers.{
  ClientId, Client, WsServer, new_ws_server, new_client, remove_client_from_worker, join_server,
  leave_server, departed, leave_rooms, or_nil, join_room, room_clients, leave_room, leave_found,
}
use go_api_practice.Workers.Serve.{Event, connect, join, leave, enter, exit, serve, serve_all}
use go_api_practice.Workers.Membership.{
  own_rooms, rooms_of, rooms_of-insert, RoomsKept, remove_client-RoomsKept,
  check_scale_down-RoomsKept, join_server-RoomsKept,
}
use go_api_practice.Workers.RoomClients.{found_clients, room_clients-insert, leave_rooms-clients}

-- Of a map of rooms and of the clients.
abbrev pub Agree : Assoc String (List ClientId) → Assoc ClientId Client → Type 0
Agree rooms heap =
    (j : ClientId) (r : String)
    → contains r (or_nil (rooms_of j heap)) ≡ contains j (room_clients r rooms)

-- The heap and the rooms after a client's list of rooms and those rooms are changed alike.
written-Agree :
    (rooms rooms' : Assoc String (List ClientId)) (heap : Assoc ClientId Client) (id : ClientId)
    (cl : Client)
    → Agree rooms heap
    → ((j : ClientId) (r : String)
        → contains j (room_clients r rooms')
          ≡ (if same id j then contains r (or_nil cl.rooms) else contains j (room_clients r rooms)))
    → Agree rooms' (insert id cl heap)
written-Agree rooms rooms' heap id cl a h j r =
    ap (λ x. contains r (or_nil x)) (rooms_of-insert id j cl heap)
    ∙ elim (Bool-cases (same id j)) [ inl t ↦ rw (h j r, t) refl | inr t ↦ rw (h j r, t) (a j r) ]

kept-Agree :
    (srv srv' : WsServer)
    → RoomsKept srv srv'
    → Agree srv.rooms srv.heap
    → Agree srv'.rooms srv'.heap
kept-Agree srv srv' k a j r =
    ap (λ x. contains r (or_nil x)) (k.1 j)
    ∙ a j r
    ∙ ap (λ x. contains j (room_clients r x)) (sym k.0)

-- Of a client that exists.
own-Agree :
    (srv : WsServer) (id j : ClientId) (cl : Client)
    → Agree srv.rooms srv.heap
    → lookup id srv.heap ≡ some cl
    → same id j ≡ true
    → (r : String) → contains j (room_clients r srv.rooms) ≡ contains r (or_nil cl.rooms)
own-Agree srv id j cl a l t r =
    sym (a j r)
    ∙ ap (λ x. contains r (or_nil (rooms_of x srv.heap))) (sym ((same_iff id j).0 t))
    ∙ ap (λ x. contains r (or_nil (own_rooms x))) l

leave-Agree :
    (srv srv' : WsServer) (id : ClientId)
    → Agree srv.rooms srv.heap
    → leave_server srv id ≡ some srv'
    → Agree srv'.rooms srv'.heap
unfolding leave_server contains
leave-Agree srv srv' id a h =
    let (cl, l, e) = >>=-eq-some (lookup id srv.heap) _ h in
    let (s, f, k) = >>=-eq-some (remove_client_from_worker (departed srv id cl) id) _ e in
    kept-Agree s srv' (check_scale_down-RoomsKept s srv' k) (
      kept-Agree (departed srv id cl) s (remove_client-RoomsKept (departed srv id cl) s id f) (
        written-Agree srv.rooms (leave_rooms id (or_nil cl.rooms) srv.rooms) srv.heap id
          (record cl { rooms = none }) a
          (λ j r. ground (
            arith,
            leave_rooms-clients id j (or_nil cl.rooms) r srv.rooms,
            own-Agree srv id j cl a l _ r,
          ))))

-- Room `q` is entered, or left, on both sides.
module _ (cls cls' : List ClientId) (rs : List String) (q r : String) (id j : ClientId)
    (e : same q r ≡ true → cls ≡ cls')
    (h : same id j ≡ true → contains j cls' ≡ contains r rs) where
  entered :
      contains j (if same q r then add id cls else cls')
      ≡ (if same id j then contains r (add q rs) else contains j cls')
  entered = elim (Bool-cases (same q r)) [
    | inl t ↦ rw (t, e t) (ground (arith, contains-add id j cls', contains-add q r rs, h))
    | inr t ↦ rw t (ground (arith, contains-add q r rs, h))
  ]

  exited :
      contains j (if same q r then remove id cls else cls')
      ≡ (if same id j then contains r (remove q rs) else contains j cls')
  exited = elim (Bool-cases (same q r)) [
    | inl t ↦ rw (t, e t) (ground (arith, contains-remove id j cls', contains-remove q r rs, h))
    | inr t ↦ rw t (ground (arith, contains-remove q r rs, h))
  ]

pub or_nil-remove :
    (q : String) (o : Option (List String))
    → or_nil (elim o [ none ↦ none | some rs ↦ some (remove q rs) ]) ≡ remove q (or_nil o)
unfolding remove
or_nil-remove q none = refl
or_nil-remove q (some rs) = refl

same_room :
    (q r : String) (rooms : Assoc String (List ClientId))
    → same q r ≡ true
    → room_clients q rooms ≡ room_clients r rooms
same_room q r rooms t = ap (λ x. room_clients x rooms) ((same_iff q r).0 t)

enter-Agree :
    (srv srv' : WsServer) (id : ClientId) (room : String)
    → Agree srv.rooms srv.heap
    → join_room srv id room ≡ some srv'
    → Agree srv'.rooms srv'.heap
unfolding join_room contains
enter-Agree srv srv' id room a h =
    let (s, f, e) = >>=-eq-some (join_server srv id) _ h in
    let (cl, l, e₁) = >>=-eq-some (lookup id s.heap) _ e in
    let (rs, q, e₂) = >>=-eq-some cl.rooms _ e₁ in
    let b = kept-Agree srv s (join_server-RoomsKept srv s id f) a in
    subst (λ x. Agree x.rooms x.heap) (some-injective _ _ e₂)
      (written-Agree s.rooms (insert room (add id (room_clients room s.rooms)) s.rooms) s.heap id
        (record cl { rooms = some (add room rs) }) b
        (λ j r.
          ap (contains j) (room_clients-insert room r (add id (room_clients room s.rooms)) s.rooms)
          ∙ entered (room_clients room s.rooms) (room_clients r s.rooms) rs room r id j
              (same_room room r s.rooms)
              (λ t. own-Agree s id j cl b l t r ∙ ap (λ x. contains r (or_nil x)) q)))

exit-Agree :
    (srv srv' : WsServer) (id : ClientId) (room : String)
    → Agree srv.rooms srv.heap
    → leave_room srv id room ≡ some srv'
    → Agree srv'.rooms srv'.heap
unfolding leave_room leave_found contains
exit-Agree srv srv' id room a h = by_case (lookup room srv.rooms) refl h
  where
    by_case :
        (o : Option (List ClientId))
        → lookup room srv.rooms ≡ o
        → leave_found srv id room o ≡ some srv'
        → Agree srv'.rooms srv'.heap
    by_case none l e = subst (λ x. Agree x.rooms x.heap) (some-injective _ _ e) a
    by_case (some cls) l e =
        let (cl, m, k) = >>=-eq-some (lookup id srv.heap) _ e in
        subst (λ x. Agree x.rooms x.heap) (some-injective _ _ k)
          (written-Agree srv.rooms (insert room (remove id cls) srv.rooms) srv.heap id
            (record cl { rooms = elim cl.rooms [ none ↦ none | some rs ↦ some (remove room rs) ] })
            a
            (λ j r.
              ap (contains j) (room_clients-insert room r (remove id cls) srv.rooms)
              ∙ exited cls (room_clients r srv.rooms) (or_nil cl.rooms) room r id j
                  (λ t. sym (ap found_clients l) ∙ same_room room r srv.rooms t)
                  (λ t. own-Agree srv id j cl a m t r)
              ∙ ap (λ x. if same id j then contains r x else contains j (room_clients r srv.rooms))
                  (sym (or_nil-remove room cl.rooms))))

connect-Agree :
    (srv : WsServer) (id : ClientId)
    → Agree srv.rooms srv.heap
    → Agree (new_client srv id).rooms (new_client srv id).heap
unfolding new_client contains
connect-Agree srv id a = elim (Option-cases (lookup id srv.heap)) [
  | inl t ↦
      rw (new_client, t)
        (written-Agree srv.rooms srv.rooms srv.heap id (record { rooms = some []; worker = none }) a
          (λ j r. nobody j r t))
  | inr t ↦ rw (new_client, t.1) a
]
  where
    nobody :
        (j : ClientId) (r : String)
        → lookup id srv.heap ≡ none
        → contains j (room_clients r srv.rooms)
          ≡ (if same id j then false else contains j (room_clients r srv.rooms))
    nobody j r l = elim (Bool-cases (same id j)) [
      | inl t ↦ rw t (
          sym (a j r)
          ∙ ap (λ x. contains r (or_nil (rooms_of x srv.heap))) (sym ((same_iff id j).0 t))
          ∙ ap (λ x. contains r (or_nil (own_rooms x))) l)
      | inr t ↦ rw t refl
    ]

serve-Agree :
    (srv srv' : WsServer) (e : Event)
    → Agree srv.rooms srv.heap
    → serve srv e ≡ some srv'
    → Agree srv'.rooms srv'.heap
unfolding serve
serve-Agree srv srv' (connect id) a h =
    subst (λ x. Agree x.rooms x.heap) (some-injective _ _ h) (connect-Agree srv id a)
serve-Agree srv srv' (join id) a h = kept-Agree srv srv' (join_server-RoomsKept srv srv' id h) a
serve-Agree srv srv' (leave id) a h = leave-Agree srv srv' id a h
serve-Agree srv srv' (enter id room) a h = enter-Agree srv srv' id room a h
serve-Agree srv srv' (exit id room) a h = exit-Agree srv srv' id room a h

serve_all-Agree :
    (srv srv' : WsServer) (es : List Event)
    → Agree srv.rooms srv.heap
    → serve_all srv es ≡ some srv'
    → Agree srv'.rooms srv'.heap
unfolding serve_all
serve_all-Agree srv srv' [] a h = subst (λ x. Agree x.rooms x.heap) (some-injective _ _ h) a
serve_all-Agree srv srv' (e ∷ es) a h =
    let (s, f, k) = >>=-eq-some (serve srv e) _ h in
    serve_all-Agree s srv' es (serve-Agree srv s e a f) k

-- After any events that a new server has served without a panic, a room lists a client exactly if
-- the client lists the room. A client whose map of rooms is nil is in no room.
pub rooms_and_clients_agree :
    (n : ℕ) (es : List Event) (srv : WsServer)
    → serve_all (new_ws_server n) es ≡ some srv
    → (j : ClientId) (r : String)
    → (contains j (room_clients r srv.rooms) ≡ contains r (or_nil (rooms_of j srv.heap)))
      × (rooms_of j srv.heap ≡ none → contains j (room_clients r srv.rooms) ≡ false)
unfolding new_ws_server contains lookup
rooms_and_clients_agree n es srv h j r =
    let a : Agree srv.rooms srv.heap = serve_all-Agree (new_ws_server n) srv es (λ i q. refl) h in
    (sym (a j r), λ e. sym (a j r) ∙ ap (λ x. contains r (or_nil x)) e)
