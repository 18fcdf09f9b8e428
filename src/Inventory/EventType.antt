-- ===== src/Inventory/EventType.antt =====
-- The event type that a topic and an operation stand for.
use Prim.Native.String.{◌∷◌}
use go_api_practice.Prelude.{
  false, some, List, ◌∷◌, ◌≡◌, refl, ap, ◌∙◌, String, string_key, same, same_iff, Bool-cases, inl,
  inr, sym, arith, length, ltb,
}
use go_api_practice.Prelude.Split.{split, concat, print, AllSolid, split-print}
use go_api_practice.Inventory.Router.{dot, with_op, get_event_type, event_of}

-- The topic of a table: server, schema and table, and whatever follows.
abbrev pub topic_of : String → String → String → List String → String
topic_of server schema table more = concat server (print dot (schema ∷ table ∷ more))

-- A text of two parts or more is not empty.
not_empty :
    (s : String) {a b : String} {parts : List String}
    → split dot s ≡ a ∷ b ∷ parts
    → same s "" ≡ false
unfolding split
not_empty s {a} {b} {parts} h = elim (Bool-cases (same s "")) [
  | inl t ↦
      let empty : s ≡ "" = (same_iff {K = String} s "").0 t in
      let one : split dot "" ≡ a ∷ b ∷ parts = sym (ap (split dot) empty) ∙ h in
      absurd (ground arith)
  | inr t ↦ t
]

-- From the topic of a table, whose parts have no dot, getEventType reads the table's name again, and
-- adds what the operation stands for.
pub get_event_type-topic_of :
    (server schema table op : String) (more : List String)
    → AllSolid dot (server ∷ schema ∷ table ∷ more)
    → get_event_type (topic_of server schema table more) op ≡ some (with_op table op)
unfolding get_event_type event_of
get_event_type-topic_of server schema table op more h =
    let parts = split-print dot server (schema ∷ table ∷ more) h in
    let written : same (topic_of server schema table more) "" ≡ false =
      not_empty (topic_of server schema table more) parts in
    let long : ltb (length (server ∷ schema ∷ table ∷ more)) 3 ≡ false = ground arith in
    rw (written, parts, long) refl
