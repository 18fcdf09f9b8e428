-- ===== src/ClientLoop/Members.antt =====
-- Rooms name their clients and clients name their rooms: the two views, and what a handler that runs
-- without an overlap makes of them.
use go_api_practice.Prelude.{
  Bool, true, false, Option, none, some, List, [], ◌∷◌, ◌≡◌, refl, sym, ap, ◌∙◌, inl, inr, ◌&&◌,
  if◌then◌else◌, String, string_key, same, same_iff, arith, Bool-cases,
}
use go_api_practice.Prelude.Assoc.{Assoc, lookup, insert, lookup-insert}
use go_api_practice.Prelude.Members.{contains, add, remove, contains-add, contains-remove}
use go_api_practice.ClientLoop.{Client, Room, leave_found, leave_all, room_or_new, entered}

module _ {V : Type 0} (names : V → List String) where
  -- The names that the entry of a map has, none if it is missing.
  abbrev pub names_of : Option V → List String
  names_of none = []
  names_of (some v) = names v

  abbrev pub within : String → String → Assoc String V → Bool
  within x k m = contains x (names_of (lookup k m))

  pub within-insert :
      (x k q : String) (v : V) (m : Assoc String V)
      → within x q (insert k v m) ≡ (if same k q then contains x (names v) else within x q m)
  within-insert x k q v m =
      ap (λ o. contains x (names_of o)) (lookup-insert k q v m)
      ∙ elim (Bool-cases (same k q)) [ inl t ↦ rw t refl | inr t ↦ rw t refl ]

  -- A write to the entry that is looked at.
  within_same :
      (x k q : String) (m : Assoc String V) → same k q ≡ true → within x k m ≡ within x q m
  within_same x k q m t = ap (λ i. within x i m) ((same_iff k q).0 t)

  pub within-add :
      (x k q y : String) (v : V) (m : Assoc String V)
      → names v ≡ add y (names_of (lookup k m))
      → within x q (insert k v m) ≡ (if same k q && same y x then true else within x q m)
  within-add x k q y v m e = within-insert x k q v m ∙ elim (Bool-cases (same k q)) [
    | inl t ↦
        rw (t, e)
          (contains-add y x (names_of (lookup k m))
            ∙ ap (λ b. if same y x then true else b) (within_same x k q m t))
    | inr t ↦ rw t refl
  ]

  pub within-remove :
      (x k q y : String) (v : V) (m : Assoc String V)
      → names v ≡ remove y (names_of (lookup k m))
      → within x q (insert k v m) ≡ (if same k q && same y x then false else within x q m)
  within-remove x k q y v m e = within-insert x k q v m ∙ elim (Bool-cases (same k q)) [
    | inl t ↦
        rw (t, e)
          (contains-remove y x (names_of (lookup k m))
            ∙ ap (λ b. if same y x then false else b) (within_same x k q m t))
    | inr t ↦ rw t refl
  ]

-- Whether room `r` has client `id`, and whether client `id` has room `r`.
abbrev pub has_client : String → String → Assoc String Room → Bool
has_client id r rooms = within (λ room. room.clients) id r rooms

abbrev pub has_room : String → String → Assoc String Client → Bool
has_room id r heap = within (λ c. c.rooms) r id heap

abbrev pub Agree : Assoc String Room → Assoc String Client → Type 0
Agree rooms heap = (id r : String) → has_client id r rooms ≡ has_room id r heap

pub leave_found-has_client :
    (id j q r : String) (rooms : Assoc String Room)
    → has_client j r (leave_found id q (lookup q rooms) rooms)
      ≡ (if same q r && same id j then false else has_client j r rooms)
unfolding leave_found contains
leave_found-has_client id j q r rooms = by_case (lookup q rooms) refl
  where
    by_case :
        (o : Option Room)
        → lookup q rooms ≡ o
        → has_client j r (leave_found id q o rooms)
          ≡ (if same q r && same id j then false else has_client j r rooms)
    by_case none l = elim (Bool-cases (same q r)) [
      | inl t ↦
          let m : has_client j r rooms ≡ false =
            sym (within_same (λ x. x.clients) j q r rooms t)
            ∙ ap (λ o. contains j (names_of (λ x. x.clients) o)) l in
          ground (arith, m)
      | inr t ↦ ground (arith, t)
    ]
    by_case (some room) l =
        within-remove (λ x. x.clients) j q r id _ rooms
          (ap (λ o. remove id (names_of (λ x. x.clients) o)) (sym l))

pub leave_all-has_client :
    (id j r : String) (rs : List String) (rooms : Assoc String Room)
    → has_client j r (leave_all id rs rooms)
      ≡ (if contains r rs && same id j then false else has_client j r rooms)
unfolding leave_all contains
leave_all-has_client id j r [] rooms = refl
leave_all-has_client id j r (q ∷ rs) rooms = ground (
  arith,
  leave_all-has_client id j r rs (leave_found id q (lookup q rooms) rooms),
  leave_found-has_client id j q r rooms,
)

-- A map of rooms and the clients' objects after a join.
pub joined-Agree :
    (id r : String) (c : Client) (rooms : Assoc String Room) (heap : Assoc String Client)
    → lookup id heap ≡ some c
    → Agree rooms heap
    → Agree
        (insert r (entered id (room_or_new (lookup r rooms))) rooms)
        (insert id (record c { rooms = add r c.rooms }) heap)
unfolding entered
joined-Agree id r c rooms heap l h j q =
    within-add (λ x. x.clients) j r q id _ rooms (ap (add id) (new_clients (lookup r rooms)))
    ∙ ground (arith, h j q)
    ∙ sym (
        within-add (λ x. x.rooms) q id j r _ heap
          (ap (λ o. add r (names_of (λ x. x.rooms) o)) (sym l)))
  where
    new_clients : (o : Option Room) → (room_or_new o).clients ≡ names_of (λ x. x.clients) o
    new_clients none = refl
    new_clients (some room) = refl

pub left-Agree :
    (id r : String) (c : Client) (room : Room) (rooms : Assoc String Room)
    (heap : Assoc String Client)
    → lookup id heap ≡ some c
    → lookup r rooms ≡ some room
    → Agree rooms heap
    → Agree
        (insert r (record room { clients = remove id room.clients }) rooms)
        (insert id (record c { rooms = remove r c.rooms }) heap)
left-Agree id r c room rooms heap l m h j q =
    within-remove (λ x. x.clients) j r q id _ rooms
      (ap (λ o. remove id (names_of (λ x. x.clients) o)) (sym m))
    ∙ ground (arith, h j q)
    ∙ sym (
        within-remove (λ x. x.rooms) q id j r _ heap
          (ap (λ o. remove r (names_of (λ x. x.rooms) o)) (sym l)))

pub left_all-Agree :
    (id : String) (c : Client) (rooms : Assoc String Room) (heap : Assoc String Client)
    → lookup id heap ≡ some c
    → Agree rooms heap
    → Agree (leave_all id c.rooms rooms) (insert id (record c { rooms = [] }) heap)
unfolding contains
left_all-Agree id c rooms heap l h j q =
    leave_all-has_client id j q c.rooms rooms
    ∙ own (same id j) refl
    ∙ sym (within-insert (λ x. x.rooms) q id j (record c { rooms = [] }) heap)
  where
    own :
        (b : Bool)
        → same id j ≡ b
        → (if contains q c.rooms && b then false else has_client j q rooms)
          ≡ (if b then contains q [] else has_room j q heap)
    own true t =
        let m : has_room j q heap ≡ contains q c.rooms =
          ap (λ i. has_room i q heap) (sym ((same_iff id j).0 t))
          ∙ ap (λ o. contains q (names_of (λ x. x.rooms) o)) l in
        ground (arith, m, h j q)
    own false t = ground (arith, h j q)
