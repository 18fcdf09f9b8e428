-- ===== src/Outbox/Sent.antt =====
-- An event is marked as produced only if it was sent.
use mathlib.Core.Path.{subst}
use mathlib.Core.Option.{some-injective}
use go_api_practice.Prelude.{
  ℕ, Bool, true, false, Option, none, some, List, [], ◌∷◌, ◌≡◌, refl, sym, ap, ◌∙◌, inl, inr, ◌⊎◌,
  String, string_key, same, same_iff, if◌then◌else◌, ◌==◌, length, arith, Bool-cases,
}
use go_api_practice.Prelude.Assoc.{lookup}
use go_api_practice.Prelude.Members.{contains}
use go_api_practice.Prelude.Values.{All}
use go_api_practice.Transaction.{Driver, Ran, finished, broke, finish, tx_closure}
use go_api_practice.Outbox.{
  EventStatus, waiting, produced, Event, Table, Io, is_pending, pending_rows, get_all_pending,
  set_status, affected, update_status_by_ids, offered, marshalled, produce_all, updated,
  run_pending, handle_pending,
}

-- The message of an event is among those sent.
abbrev pub WasSent : Io → String → Event → List String → Type 0
WasSent io id e sent =
    (b : String) × (io.marshal id e ≡ some b) × (io.produce b ≡ true) × (contains b sent ≡ true)

-- A row of a table with ids of its own is the one found under its id.
Found : Table → String → Event → Type 0
Found table id e = (lookup id table ≡ some e) × (e.status ≡ waiting)

-- What the loop over pending rows of the table `table` leaves.
Made : Io → Table → List String × List String → Type 0
Made io table made =
    (id : String)
    → contains id made.1 ≡ true
    → (e : Event) × Found table id e × WasSent io id e made.0

WasSent-cons :
    (io : Io) (id b : String) (e : Event) (sent : List String)
    → WasSent io id e sent
    → WasSent io id e (b ∷ sent)
unfolding contains
WasSent-cons io id b e sent (m, k, p, c) = (m, k, p, ground (arith, c))

offered-Made :
    (io : Io) (table : Table) (ok : Bool) (b id : String) (e : Event)
    (made : List String × List String)
    → Found table id e
    → io.marshal id e ≡ some b
    → io.produce b ≡ ok
    → Made io table made
    → Made io table (offered ok b id made)
unfolding offered Made contains Found
offered-Made io table false b id e (sent, ids) f m p h = h
offered-Made io table true b id e (sent, ids) f m p h = λ j c. by_case j (same id j) refl c
  where
    by_case :
        (j : String) (t : Bool)
        → same id j ≡ t
        → (if t then true else contains j ids) ≡ true
        → (e' : Event) × Found table j e' × WasSent io j e' (b ∷ sent)
    by_case j true t c =
        subst (λ k. (e' : Event) × Found table k e' × WasSent io k e' (b ∷ sent))
          ((same_iff id j).0 t) (e, f, (b, m, p, ground (arith, same_iff b b)))
    by_case j false t c = let (e', f', w) = h j c in (e', f', WasSent-cons io j b e' sent w)

marshalled-Made :
    (io : Io) (table : Table) (id : String) (e : Event) (o : Option String)
    (made : List String × List String)
    → Found table id e
    → io.marshal id e ≡ o
    → Made io table made
    → Made io table (marshalled io id o made)
unfolding marshalled
marshalled-Made io table id e none made f m h = h
marshalled-Made io table id e (some b) made f m h =
    offered-Made io table (io.produce b) b id e made f m refl h

produce_all-Made :
    (io : Io) (table rows : Table) → All (Found table) rows → Made io table (produce_all io rows)
unfolding produce_all Made contains
produce_all-Made io table [] h = λ j c. absurd (ground arith)
produce_all-Made io table ((id, e) ∷ rows) h =
    marshalled-Made io table id e (io.marshal id e) (produce_all io rows) h.0 refl
      (produce_all-Made io table rows h.1)

-- A table whose rows have ids of their own.
abbrev pub DistinctIds : Table → Type 0
DistinctIds [] = Unit {0}
DistinctIds ((id, e) ∷ rows) = (lookup id rows ≡ none) × DistinctIds rows

-- What is found in the rows after the first is found in all.
later :
    (j id : String) (w e : Event) (rows : Table)
    → lookup j rows ≡ none
    → lookup id rows ≡ some e
    → lookup id ((j, w) ∷ rows) ≡ some e
unfolding lookup
later j id w e rows n f = elim (Bool-cases (same j id)) [
  | inl t ↦ absurd (ground (arith, sym n ∙ ap (λ k. lookup k rows) ((same_iff j id).0 t) ∙ f))
  | inr t ↦ rw t f
]

All-later :
    (j : String) (w : Event) (rows some_rows : Table)
    → lookup j rows ≡ none
    → All (Found rows) some_rows
    → All (Found ((j, w) ∷ rows)) some_rows
unfolding Found
All-later j w rows [] n h = tt
All-later j w rows ((id, e) ∷ more) n ((f, s), h) =
    ((later j id w e rows n f, s), All-later j w rows more n h)

pending_rows-Found : (table : Table) → DistinctIds table → All (Found table) (pending_rows table)
unfolding pending_rows Found lookup
pending_rows-Found [] d = tt
pending_rows-Found ((id, e) ∷ rows) (n, d) =
    by_status e.status refl (All-later id e rows (pending_rows rows) n (pending_rows-Found rows d))
  where
    by_status :
        (s : EventStatus)
        → e.status ≡ s
        → All (Found ((id, e) ∷ rows)) (pending_rows rows)
        → All
            (Found ((id, e) ∷ rows))
            (if is_pending s then (id, e) ∷ pending_rows rows else pending_rows rows)
    by_status waiting s h = ((ground (arith, same_iff id id), s), h)
    by_status produced s h = h

lookup-set_status :
    (status : EventStatus) (ids : List String) (id : String) (e : Event) (table : Table)
    → lookup id table ≡ some e
    → lookup id (set_status status ids table)
      ≡ some (if contains id ids then record e { status = status } else e)
unfolding set_status lookup
lookup-set_status status ids id e [] h = absurd (ground arith)
lookup-set_status status ids id e ((j, w) ∷ rows) h =
    by_key (same j id) refl h (lookup-set_status status ids id e rows)
  where
    by_key :
        (t : Bool)
        → same j id ≡ t
        → (if t then some w else lookup id rows) ≡ some e
        → (lookup id rows ≡ some e
            → lookup id (set_status status ids rows)
              ≡ some (if contains id ids then record e { status = status } else e))
        → (if t
            then some (if contains j ids then record w { status = status } else w)
            else lookup id (set_status status ids rows))
          ≡ some (if contains id ids then record e { status = status } else e)
    by_key true t g rest =
        let p = (same_iff j id).0 t in
        let q = some-injective _ _ g in
        λ i. some (if contains (p i) ids then record (q i) { status = status } else q i)
    by_key false t g rest = rest g

-- What handle_pending can leave of the table: all as it was, or the events that were made marked.
abbrev Left : Io → Table → Table → List String → Type 0
Left io before after sent =
    (after ≡ before)
    ⊎ ((after ≡ set_status produced (produce_all io (pending_rows before)).1 before)
        × (sent ≡ (produce_all io (pending_rows before)).0))

updated-Left :
    (io : Io) (before : Table) (sent ids : List String) (o : Option (Table × ℕ))
    → ((after : Table) (n : ℕ) → o ≡ some (after, n) → after ≡ set_status produced ids before)
    → ((updated before sent ids o).0 ≡ before)
      ⊎ (((updated before sent ids o).0 ≡ set_status produced ids before)
          × ((updated before sent ids o).1 ≡ sent))
unfolding updated
updated-Left io before sent ids none h = inl refl
updated-Left io before sent ids (some (after, n)) h = elim (Bool-cases (n == length ids)) [
  | inl t ↦ inr (rw t (h after n refl), rw t refl)
  | inr t ↦ inr (rw t (h after n refl), rw t refl)
]

update-after :
    (io : Io) (before after : Table) (ids : List String) (n : ℕ)
    → update_status_by_ids io before ids produced ≡ some (after, n)
    → after ≡ set_status produced ids before
update-after io before after ids n h = elim (Bool-cases (io.in_ok ids)) [
  | inl t ↦ elim (Bool-cases io.update_ok) [
    | inl u ↦
        let m : update_status_by_ids io before ids produced
            ≡ some (set_status produced ids before, affected ids before) =
          rw (t, u) refl in
        ap (λ x. x.0) (some-injective _ _ (sym h ∙ m))
    | inr u ↦ absurd (ground (arith, h))
  ]
  | inr t ↦ absurd (ground (arith, h))
]

run_pending-Left :
    (io : Io) (before : Table)
    → Left io before
        (run_pending io before (get_all_pending io before)).0
        (run_pending io before (get_all_pending io before)).1
unfolding run_pending
run_pending-Left io before = elim (Bool-cases io.query_ok) [
  | inl t ↦ rw t (updated-Left io before _ _ _ (λ after n h. update-after io before after _ n h))
  | inr t ↦ rw t (inl refl)
]

-- A failed commit leaves all that was written, or nothing.
abbrev pub AllOrNothing : Driver Table → Table → Type 0
AllOrNothing d before =
    (after : Table)
    → (d.failed_commit before after ≡ before) ⊎ (d.failed_commit before after ≡ after)

finish-Left :
    (d : Driver Table) (io : Io) (before : Table) (ran : Table × List String × Ran String ℕ)
    → AllOrNothing d before
    → Left io before ran.0 ran.1
    → Left io before (finish d before ran).0 (finish d before ran).1
unfolding finish
finish-Left d io before (after, sent, broke) a h = inl refl
finish-Left d io before (after, sent, finished n (some e)) a h = inl refl
finish-Left d io before (after, sent, finished n none) a h = elim (Bool-cases d.commit_ok) [
  | inl t ↦ rw t h
  | inr t ↦ elim (a after) [ inl b ↦ rw t (inl b) | inr b ↦ rw (t, b) h ]
]

handle_pending-Left :
    (d : Driver Table) (io : Io) (before : Table)
    → AllOrNothing d before
    → Left io before (handle_pending d io before).0 (handle_pending d io before).1
unfolding handle_pending tx_closure
handle_pending-Left d io before a = elim (Bool-cases d.begin_ok) [
  | inl t ↦ rw t (finish-Left d io before _ a (run_pending-Left io before))
  | inr t ↦ rw t (inl refl)
]

not_produced : (e e' : Event) → e.status ≡ waiting → e'.status ≡ produced → e ≡ e' → ⊥
not_produced e e' w p q = ground (arith, sym w ∙ ap (λ x. x.status) q ∙ p)

-- Where ids tell the rows apart and a failed commit leaves all or nothing: an event that was pending
-- and is marked as produced after handlePending, whatever failed, had its message made and taken by
-- the producer, and among those that were sent.
pub handle_pending_marks_only_sent :
    (d : Driver Table) (io : Io) (before : Table) (id : String) (e e' : Event)
    → DistinctIds before
    → AllOrNothing d before
    → lookup id before ≡ some e
    → e.status ≡ waiting
    → lookup id (handle_pending d io before).0 ≡ some e'
    → e'.status ≡ produced
    → WasSent io id e (handle_pending d io before).1
unfolding Made Found
handle_pending_marks_only_sent d io before id e e' distinct a l w l' p =
    elim (handle_pending-Left d io before a) [
      | inl b ↦
          absurd (not_produced e e' w p (some-injective _ _ (sym l ∙ sym (ap (lookup id) b) ∙ l')))
      | inr (b, s) ↦
          let after =
            sym (lookup-set_status produced ids id e before l) ∙ sym (ap (lookup id) b) ∙ l' in
          elim (Bool-cases (contains id ids)) [
            | inl c ↦
                let (k, (f, _), sent) =
                  produce_all-Made io before (pending_rows before)
                    (pending_rows-Found before distinct) id c in
                subst (λ x. WasSent io id x (handle_pending d io before).1)
                  (some-injective _ _ (sym f ∙ l)) (subst (WasSent io id k) (sym s) sent)
            | inr c ↦ absurd (
                not_produced e e' w p (
                  some-injective _ _ (
                    ap (λ q. some (if q then record e { status = produced } else e)) (sym c)
                    ∙ after)))
          ]
    ]
  where
    ids : List String
    ids = (produce_all io (pending_rows before)).1
