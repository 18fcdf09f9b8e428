-- ===== src/ClientLoop/Settled.antt =====
-- The two views of the memberships, between the parts of the handlers.
use mathlib.Core.Path.{subst}
use go_api_practice.Prelude.{
  Bool, true, false, Option, none, some, List, [], ◌∷◌, ◌≡◌, refl, sym, ap, ◌∙◌, inl, inr, arith,
  ◌&&◌, String, string_key, if◌then◌else◌, same, same_iff, Bool-cases,
}
use go_api_practice.Prelude.Assoc.{Assoc, lookup, insert, lookup-insert}
use go_api_practice.Prelude.Members.{contains, add}
use go_api_practice.Prelude.Run.{done, ◌>>=◌, done-injective}
use go_api_practice.ClientLoop.{Client, Room, deref, room_or_new, entered}
use go_api_practice.ClientLoop.Members.{names_of, within-insert, within-add, has_client, has_room}
use go_api_practice.ClientLoop.Parts.{
  Part, finds, enters, gains, looks, quits, loses, signs_off, lists, drops, clears, Handler, joins,
  leaves, unregisters, Views, parts_of, parts_or_none, left, drop_each, wait_for, with_rooms,
}

-- The parts lead from the two views of a membership of the room `q` to the same two.
abbrev pub Settles : String → List Part → Bool → Bool → Type 0
Settles q [] m n = m ≡ n
Settles q (finds r ∷ ps) m n = Settles q ps m n
Settles q (enters r ∷ ps) m n = Settles q ps (if same r q then true else m) n
Settles q (gains r ∷ ps) m n = Settles q ps m (if same r q then true else n)
Settles q (looks r ∷ ps) m n = Settles q ps m n
Settles q (quits r ∷ ps) m n = Settles q ps (if same r q then false else m) n
Settles q (loses r ∷ ps) m n = Settles q ps m (if same r q then false else n)
Settles q (signs_off ∷ ps) m n = Settles q ps m n × (m ≡ n)
Settles q (lists ∷ ps) m n = Settles q ps (if n then false else m) n
Settles q (drops r ∷ ps) m n = Settles q ps (if same r q then false else m) n
Settles q (clears ∷ ps) m n = Settles q ps m false

-- What is left of the handler of each client leads to views that agree.
abbrev pub Settled : Views → Type 0
Settled v = (j q : String) → Settles q (left j v) (has_client j q v.rooms) (has_room j q v.heap)

pub parts_of-Settles : (q : String) (h : Handler) (m n : Bool) → m ≡ n → Settles q (parts_of h) m n
parts_of-Settles q (joins r) m n e = ap (λ b. if same r q then true else b) e
parts_of-Settles q (leaves r) m n e = ap (λ b. if same r q then false else b) e
parts_of-Settles q unregisters m n e = (ground (arith, e), e)

pub drop_each-Settles :
    (q : String) (rs : List String) (ps : List Part) (m n : Bool)
    → Settles q ps (if contains q rs then false else m) n
    → Settles q (drop_each rs ps) m n
unfolding contains
drop_each-Settles q [] ps m n h = h
drop_each-Settles q (r ∷ rs) ps m n h =
    drop_each-Settles q rs ps (if same r q then false else m) n
      (subst (λ b. Settles q ps b n) (ground arith) h)

left-insert :
    (v : Views) (id j : String) (ps : List Part)
    → parts_or_none (lookup j (insert id ps v.waiting)) ≡ (if same id j then ps else left j v)
left-insert v id j ps =
    ap parts_or_none (lookup-insert id j ps v.waiting)
    ∙ elim (Bool-cases (same id j)) [ inl t ↦ rw t refl | inr t ↦ rw t refl ]

-- A part of the handler of client `id` that leaves the parts `ps'`.
pub moved-Settled :
    (v : Views) (rooms : Assoc String Room) (heap : Assoc String Client) (clients : List String)
    (id : String) (before ps' : List Part)
    → Settled v
    → left id v ≡ before
    → ((j q : String)
        → same id j ≡ false
        → (has_client j q rooms ≡ has_client j q v.rooms)
          × (has_room j q heap ≡ has_room j q v.heap))
    → ((q : String)
        → Settles q before (has_client id q v.rooms) (has_room id q v.heap)
        → Settles q ps' (has_client id q rooms) (has_room id q heap))
    → Settled (record {
      clients = clients;
      rooms = rooms;
      heap = heap;
      waiting = insert id ps' v.waiting;
    })
moved-Settled v rooms heap clients id before ps' h l others own j q =
    elim (Bool-cases (same id j)) [
      | inl t ↦
          let now_left : parts_or_none (lookup j (insert id ps' v.waiting)) ≡ ps' =
            left-insert v id j ps' ∙ rw t refl in
          let now = own q (
            subst (λ k. Settles q k (has_client id q v.rooms) (has_room id q v.heap)) l (h id q)) in
          let mine =
            subst (λ i. Settles q ps' (has_client i q rooms) (has_room i q heap))
              ((same_iff id j).0 t) now in
          subst (λ k. Settles q k (has_client j q rooms) (has_room j q heap)) (sym now_left) mine
      | inr t ↦
          let still_left : parts_or_none (lookup j (insert id ps' v.waiting)) ≡ left j v =
            left-insert v id j ps' ∙ rw t refl in
          let (c, d) = others j q t in
          let there : Settles q (left j v) (has_client j q rooms) (has_room j q heap) =
            rw (c, d) (h j q) in
          subst (λ k. Settles q k (has_client j q rooms) (has_room j q heap)) (sym still_left) there
    ]

same_refl : (r : String) → same r r ≡ true
same_refl r = (same_iff r r).1 refl

new_clients : (o : Option Room) → (room_or_new o).clients ≡ names_of (λ x. x.clients) o
new_clients none = refl
new_clients (some room) = refl

pub finds-has_client :
    (r j q : String) (rooms : Assoc String Room)
    → has_client j q (insert r (room_or_new (lookup r rooms)) rooms) ≡ has_client j q rooms
finds-has_client r j q rooms =
    within-insert (λ x. x.clients) j r q _ rooms ∙ elim (Bool-cases (same r q)) [
      | inl t ↦ rw t (
          ap (contains j) (new_clients (lookup r rooms))
          ∙ ap (λ i. has_client j i rooms) ((same_iff r q).0 t))
      | inr t ↦ rw t refl
    ]

pub enters-has_client :
    (id r j q : String) (rooms : Assoc String Room)
    → has_client j q (insert r (entered id (room_or_new (lookup r rooms))) rooms)
      ≡ (if same r q && same id j then true else has_client j q rooms)
unfolding entered
enters-has_client id r j q rooms =
    within-add (λ x. x.clients) j r q id _ rooms (ap (add id) (new_clients (lookup r rooms)))

-- A part that writes a room: the clients of the rooms after it.
pub room-Settled :
    (v : Views) (rooms : Assoc String Room) (id r : String) (p : Part) (ps : List Part) (b : Bool)
    → Settled v
    → left id v ≡ p ∷ ps
    → ((j q : String)
        → has_client j q rooms ≡ (if same r q && same id j then b else has_client j q v.rooms))
    → ((q : String) (m n : Bool)
        → Settles q (p ∷ ps) m n
        → Settles q ps (if same r q then b else m) n)
    → Settled (wait_for (record v { rooms = rooms }) id ps)
room-Settled v rooms id r p ps b h l write own =
    moved-Settled v rooms v.heap v.clients id (p ∷ ps) ps h l
      (λ j q s. (write j q ∙ ground (arith, s), refl))
      (λ q g.
        subst (λ m. Settles q ps m (has_room id q v.heap))
          (sym (write id q ∙ ground (arith, same_refl id)))
          (own q (has_client id q v.rooms) (has_room id q v.heap) g))

-- A part that writes the rooms of the client's object.
pub object-Settled :
    (v v' : Views) (id : String) (p : Part) (ps : List Part) (f : List String → List String)
    (own : String → Bool → Bool)
    → Settled v
    → left id v ≡ p ∷ ps
    → ((q : String) (rs : List String) → contains q (f rs) ≡ own q (contains q rs))
    → ((q : String) (m n : Bool) → Settles q (p ∷ ps) m n → Settles q ps m (own q n))
    → with_rooms (wait_for v id ps) id f ≡ done v'
    → Settled v'
object-Settled v v' id p ps f own h l names next = by_object (lookup id v.heap) refl
  where
    by_object :
        (o : Option Client)
        → lookup id v.heap ≡ o
        → (do
          c ← deref o
          done (record (wait_for v id ps) {
            heap = insert id (record c { rooms = f c.rooms }) v.heap;
          }))
          ≡ done v'
        → Settled v'
    by_object none k e = absurd (ground (arith, e))
    by_object (some c) k e =
        let c' = record c { rooms = f c.rooms } in
        let write = λ (j : String) (q : String). within-insert (λ x. x.rooms) q id j c' v.heap in
        let mine : (q : String) → has_room id q v.heap ≡ contains q c.rooms =
          λ q. ap (λ o. contains q (names_of (λ x. x.rooms) o)) k in
        subst Settled (done-injective _ _ e) (
          moved-Settled v v.rooms (insert id c' v.heap) v.clients id (p ∷ ps) ps h l
            (λ j q s. (refl, write j q ∙ rw s refl))
            (λ q g.
              subst (λ n. Settles q ps (has_client id q v.rooms) n)
                (sym (write id q ∙ rw (same_refl id) (names q c.rooms ∙ ap (own q) (sym (mine q)))))
                (next q (has_client id q v.rooms) (has_room id q v.heap) g)))
