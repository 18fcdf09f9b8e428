-- ===== src/Workers/RoomClients.antt =====
-- The clients of a room while rooms are written.
use go_api_practice.Prelude.{
  false, Option, none, some, List, [], ◌∷◌, ◌≡◌, refl, sym, ap, ◌∙◌, inl, inr, ◌&&◌, if◌then◌else◌,
  bytes_key, string_key, same, same_iff, arith, Bool-cases, String,
}
use go_api_practice.Prelude.Assoc.{Assoc, lookup, insert, lookup-insert}
use go_api_practice.Prelude.Members.{contains, remove, contains-remove}
use go_api_practice.Workers.{ClientId, leave_named, leave_rooms, room_clients}

abbrev pub found_clients : Option (List ClientId) → List ClientId
found_clients none = []
found_clients (some cls) = cls

pub room_clients-insert :
    (q r : String) (cls : List ClientId) (rooms : Assoc String (List ClientId))
    → room_clients r (insert q cls rooms) ≡ (if same q r then cls else room_clients r rooms)
room_clients-insert q r cls rooms =
    ap found_clients (lookup-insert q r cls rooms)
    ∙ elim (Bool-cases (same q r)) [ inl t ↦ rw t refl | inr t ↦ rw t refl ]

-- The clients of a room after a client has left another room, or the same.
leave_named-clients :
    (id j : ClientId) (q r : String) (rooms : Assoc String (List ClientId))
    → contains j (room_clients r (leave_named id q rooms))
      ≡ (if same id j && same q r then false else contains j (room_clients r rooms))
unfolding contains
leave_named-clients id j q r rooms = by_case (lookup q rooms) refl
  where
    by_case :
        (o : Option (List ClientId))
        → lookup q rooms ≡ o
        → contains j
            (room_clients r (elim o [ none ↦ rooms | some cls ↦ insert q (remove id cls) rooms ]))
          ≡ (if same id j && same q r then false else contains j (room_clients r rooms))
    by_case none l = elim (Bool-cases (same q r)) [
      | inl t ↦
          let m : contains j (room_clients r rooms) ≡ false =
            ap (λ x. contains j (room_clients x rooms)) (sym ((same_iff q r).0 t))
            ∙ ap (λ x. contains j (found_clients x)) l in
          ground (arith, m)
      | inr t ↦ ground (arith, t)
    ]
    by_case (some cls) l = elim (Bool-cases (same q r)) [
      | inl t ↦
          let m : contains j (room_clients r rooms) ≡ contains j cls =
            ap (λ x. contains j (room_clients x rooms)) (sym ((same_iff q r).0 t))
            ∙ ap (λ x. contains j (found_clients x)) l in
          ap (contains j) (room_clients-insert q r (remove id cls) rooms)
          ∙ rw (t, m) (ground (arith, contains-remove id j cls))
      | inr t ↦
          ap (contains j) (room_clients-insert q r (remove id cls) rooms) ∙ rw t (ground arith)
    ]

pub leave_rooms-clients :
    (id j : ClientId) (rs : List String) (r : String) (rooms : Assoc String (List ClientId))
    → contains j (room_clients r (leave_rooms id rs rooms))
      ≡ (if same id j && contains r rs then false else contains j (room_clients r rooms))
unfolding leave_rooms contains
leave_rooms-clients id j [] r rooms = ground arith
leave_rooms-clients id j (q ∷ rs) r rooms = ground (
  arith,
  leave_rooms-clients id j rs r (leave_named id q rooms),
  leave_named-clients id j q r rooms,
)
