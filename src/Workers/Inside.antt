-- ===== src/Workers/Inside.antt =====
-- Only clients of the server are in rooms, whatever it serves.
use mathlib.Core.Path.{subst}
use mathlib.Core.Option.{some-injective}
use go_api_practice.Prelude.{
  ℕ, true, false, Option, none, some, List, [], ◌∷◌, ◌≡◌, refl, sym, ap, ◌∙◌, inl, inr,
  if◌then◌else◌, bytes_key, string_key, same, same_iff, arith, Bool-cases, Option-cases, String,
}
use go_api_practice.Prelude.Assoc.{Assoc, lookup, insert}
use go_api_practice.Prelude.Members.{contains, add, remove, contains-remove}
use go_api_practice.Prelude.Blocking.{>>=-eq-some}
use go_api_practice.Workers.{
  ClientId, Client, WsServer, new_ws_server, new_client, join_server, leave_server, departed,
  remove_client_from_worker, join_room, leave_room, leave_found, or_nil,
}
use go_api_practice.Workers.Scaling.{IsBalanced}
use go_api_practice.Workers.Clients.{join_server_keeps_balance, leave_server_keeps_balance}
use go_api_practice.Workers.Serve.{
  Event, connect, join, leave, enter, exit, serve, serve_all, serve-IsBalanced, join-known,
}
use go_api_practice.Workers.Membership.{
  own_rooms, rooms_of, rooms_of-insert, remove_client-RoomsKept, check_scale_down-RoomsKept,
  join_server-RoomsKept,
}
use go_api_practice.Workers.Consistency.{or_nil-remove}

-- Only clients of the server list rooms.
abbrev pub Inside : WsServer → Type 0
Inside srv =
    (j : ClientId) (r : String)
    → contains r (or_nil (rooms_of j srv.heap)) ≡ true
    → contains j srv.clients ≡ true

-- A client other than the one whose object is written lists what it listed.
other-lists :
    (id j : ClientId) (cl : Client) (heap : Assoc ClientId Client) (r : String)
    → same id j ≡ false
    → contains r (or_nil (rooms_of j (insert id cl heap))) ≡ true
    → contains r (or_nil (rooms_of j heap)) ≡ true
other-lists id j cl heap r d m =
    let e : rooms_of j (insert id cl heap) ≡ rooms_of j heap =
      rooms_of-insert id j cl heap ∙ ap (λ x. if x then cl.rooms else rooms_of j heap) d in
    ap (λ x. contains r (or_nil x)) (sym e) ∙ m

join-clients :
    (srv srv' : WsServer) (id : ClientId)
    → IsBalanced srv
    → join_server srv id ≡ some srv'
    → (j : ClientId)
    → contains j srv'.clients ≡ (if same id j then true else contains j srv.clients)
join-clients srv srv' id b h =
    let (cl, l) = join-known srv srv' id b h in
    let (s, e, _, k) = join_server_keeps_balance srv id cl b l in
    subst
      (λ x.
        (j : ClientId)
        → contains j x.clients ≡ (if same id j then true else contains j srv.clients))
      (some-injective _ _ (sym e ∙ h)) k

join-Inside :
    (srv srv' : WsServer) (id : ClientId)
    → IsBalanced srv
    → Inside srv
    → join_server srv id ≡ some srv'
    → Inside srv'
join-Inside srv srv' id b i h j r m =
    let k : contains j srv.clients ≡ true =
      i j r
        (ap (λ x. contains r (or_nil x)) (sym ((join_server-RoomsKept srv srv' id h).1 j)) ∙ m) in
    ground (arith, k, join-clients srv srv' id b h j)

leave-Inside :
    (srv srv' : WsServer) (id : ClientId)
    → IsBalanced srv
    → Inside srv
    → leave_server srv id ≡ some srv'
    → Inside srv'
unfolding leave_server contains
leave-Inside srv srv' id b i h j r m =
    let (cl, l, e) = >>=-eq-some (lookup id srv.heap) _ h in
    let (s, f, k) = >>=-eq-some (remove_client_from_worker (departed srv id cl) id) _ e in
    let rooms : rooms_of j srv'.heap ≡ (if same id j then none else rooms_of j srv.heap) =
      (check_scale_down-RoomsKept s srv' k).1 j
      ∙ (remove_client-RoomsKept (departed srv id cl) s id f).1 j
      ∙ rooms_of-insert id j (record cl { rooms = none }) srv.heap in
    let (t, g, _, cs) = leave_server_keeps_balance srv id cl b l in
    let q : contains j srv'.clients ≡ contains j t.clients =
      ap (λ x. contains j x.clients) (some-injective _ _ (sym h ∙ g)) in
    let m₁ = ap (λ x. contains r (or_nil x)) (sym rooms) ∙ m in
    elim (Bool-cases (same id j)) [
      | inl d ↦ absurd (
          ground (
            arith,
            (ap (λ x. contains r (or_nil (if x then none else rooms_of j srv.heap))) (sym d) ∙ m₁),
          ))
      | inr d ↦
          let n : contains j srv.clients ≡ true = i j r (
            ap (λ x. contains r (or_nil (if x then none else rooms_of j srv.heap))) (sym d) ∙ m₁) in
          q ∙ cs j ∙ rw d n
    ]

enter-Inside :
    (srv srv' : WsServer) (id : ClientId) (room : String)
    → IsBalanced srv
    → Inside srv
    → join_room srv id room ≡ some srv'
    → Inside srv'
unfolding join_room
enter-Inside srv srv' id room b i h =
    let (s, f, e) = >>=-eq-some (join_server srv id) _ h in
    let (cl, l, e₁) = >>=-eq-some (lookup id s.heap) _ e in
    let (rs, q, e₂) = >>=-eq-some cl.rooms _ e₁ in
    subst Inside (some-injective _ _ e₂) (λ j r m. elim (Bool-cases (same id j)) [
      | inl d ↦ join-clients srv s id b f j ∙ rw d refl
      | inr d ↦
          join-Inside srv s id b i f j r
            (other-lists id j (record cl { rooms = some (add room rs) }) s.heap r d m)
    ])

exit-Inside :
    (srv srv' : WsServer) (id : ClientId) (room : String)
    → Inside srv
    → leave_room srv id room ≡ some srv'
    → Inside srv'
unfolding leave_room leave_found
exit-Inside srv srv' id room i h = by_case (lookup room srv.rooms) h
  where
    by_case : (o : Option (List ClientId)) → leave_found srv id room o ≡ some srv' → Inside srv'
    by_case none e = subst Inside (some-injective _ _ e) i
    by_case (some cls) e =
        let (cl, l, k) = >>=-eq-some (lookup id srv.heap) _ e in
        subst Inside (some-injective _ _ k) (λ j r m.
          let left = record cl {
            rooms = elim cl.rooms [ none ↦ none | some rs ↦ some (remove room rs) ];
          } in
          let n = ap (λ x. contains r (or_nil x)) (sym (rooms_of-insert id j left srv.heap)) ∙ m in
          elim (Bool-cases (same id j)) [
            | inl d ↦
                let own : rooms_of j srv.heap ≡ cl.rooms =
                  ap (λ x. rooms_of x srv.heap) (sym ((same_iff id j).0 d)) ∙ ap own_rooms l in
                let n₁ =
                  ap (λ x. contains r (or_nil (if x then left.rooms else rooms_of j srv.heap)))
                    (sym d)
                  ∙ n in
                i j r (
                  ap (λ x. contains r (or_nil x)) own
                  ∙ ground (
                    arith,
                    n₁,
                    ap (contains r) (or_nil-remove room cl.rooms),
                    contains-remove room r (or_nil cl.rooms),
                  ))
            | inr d ↦ i j r (
                ap (λ x. contains r (or_nil (if x then left.rooms else rooms_of j srv.heap)))
                  (sym d)
                ∙ n)
          ])

abbrev unknown : Client
unknown = record { rooms = some []; worker = none }

connect-Inside : (srv : WsServer) (id : ClientId) → Inside srv → Inside (new_client srv id)
unfolding new_client contains
connect-Inside srv id i = elim (Option-cases (lookup id srv.heap)) [
  | inl t ↦
      rw (new_client, t)
        (λ j r m. elim (Bool-cases (same id j)) [
          | inl d ↦
              let e : rooms_of j (insert id unknown srv.heap) ≡ some [] =
                rooms_of-insert id j unknown srv.heap
                ∙ ap (λ x. if x then some [] else rooms_of j srv.heap) d in
              absurd (ground (arith, (ap (λ x. contains r (or_nil x)) (sym e) ∙ m)))
          | inr d ↦ i j r (other-lists id j unknown srv.heap r d m)
        ])
  | inr t ↦ rw (new_client, t.1) i
]

serve-Inside :
    (srv srv' : WsServer) (e : Event)
    → IsBalanced srv
    → Inside srv
    → serve srv e ≡ some srv'
    → Inside srv'
unfolding serve
serve-Inside srv srv' (connect id) b i h =
    subst Inside (some-injective _ _ h) (connect-Inside srv id i)
serve-Inside srv srv' (join id) b i h = join-Inside srv srv' id b i h
serve-Inside srv srv' (leave id) b i h = leave-Inside srv srv' id b i h
serve-Inside srv srv' (enter id room) b i h = enter-Inside srv srv' id room b i h
serve-Inside srv srv' (exit id room) b i h = exit-Inside srv srv' id room i h

pub serve_all-Inside :
    (srv srv' : WsServer) (es : List Event)
    → IsBalanced srv
    → Inside srv
    → serve_all srv es ≡ some srv'
    → Inside srv'
unfolding serve_all
serve_all-Inside srv srv' [] b i h = subst Inside (some-injective _ _ h) i
serve_all-Inside srv srv' (e ∷ es) b i h =
    let (s, f, k) = >>=-eq-some (serve srv e) _ h in
    serve_all-Inside s srv' es (serve-IsBalanced srv s e b f) (serve-Inside srv s e b i f) k

pub start-Inside : (n : ℕ) → Inside (new_ws_server n)
unfolding new_ws_server contains lookup
start-Inside n j r m = absurd (ground arith)
