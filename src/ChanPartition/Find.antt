-- ===== src/ChanPartition/Find.antt =====
-- What FindLatestToCommit finds behind channels.
use mathlib.Core.Path.{subst}
use mathlib.Core.Option.{some-injective}
use go_api_practice.Prelude.{
  ℕ, zero, suc, ◌+◌, ◌<◌, false, Option, none, some, ◌≡◌, ◌≢◌, ◌↔◌, ◌⊎◌, refl, sym, ap, ◌∙◌, inl,
  inr, arith, Bool-cases, if◌then◌else◌,
}
use go_api_practice.Prelude.Int.{
  ℤ, pos, pos_part, neg_part, ◌≤ℤ◌, ◌<ℤ◌, eqb_ℤ, eqb_ℤ_iff, suc_ℤ, suc_ℤ_parts, int_key,
}
use go_api_practice.Prelude.Assoc.{Assoc, lookup, delete, lookup-delete}
use go_api_practice.Partition.{MsgState, pending, success, error, rounds}
use go_api_practice.ChanPartition.{ChanState, scan_sized, find_latest_sized}

abbrev Pending : Assoc ℤ MsgState → ℤ → Type 0
Pending st x = lookup x st ≡ some pending

-- One of the `n` offsets from `o` on.
abbrev pub Within : ℤ → ℕ → ℤ → Type 0
Within o n x = (o ≤ℤ x) × (pos_part x + neg_part o < pos_part o + neg_part x + n)

-- The first offset of the `n` from `o` on that has the property, or `latest` if none has it.
abbrev pub First : (ℤ → Type 0) → ℤ → ℕ → ℤ → ℤ → Type 0
First Has o n latest r =
    (Within o n r × Has r × ((x : ℤ) → o ≤ℤ x → x <ℤ r → Has x → ⊥))
    ⊎ ((r ≡ latest) × ((x : ℤ) → Within o n x → Has x → ⊥))

next-cases : (o x : ℤ) → o ≤ℤ x → (o ≡ x) ⊎ (suc_ℤ o ≤ℤ x)
next-cases o x h = ground (arith, suc_ℤ_parts o)

First-next :
    (Has Has' : ℤ → Type 0) (o : ℤ) (n : ℕ) (latest r : ℤ)
    → (Has o → ⊥)
    → ((x : ℤ) → Has' x ↔ Has x)
    → First Has' (suc_ℤ o) n latest r
    → First Has o (suc n) latest r
First-next Has Has' o n latest r not_here same (inl f) = inl (
  (omega (arith, f.0, suc_ℤ_parts o), omega (arith, f.0, suc_ℤ_parts o)),
  (same r).0 f.1,
  λ x h k p. elim (next-cases o x h) [
    | inl e ↦ not_here (subst Has (sym e) p)
    | inr l ↦ f.2 x l k ((same x).1 p)
  ],
)
First-next Has Has' o n latest r not_here same (inr f) = inr (
  f.0,
  λ x w p. elim (next-cases o x w.0) [
    | inl e ↦ not_here (subst Has (sym e) p)
    | inr l ↦ f.1 x (l, omega (arith, w.1, suc_ℤ_parts o)) ((same x).1 p)
  ],
)

delete-Pending :
    (o x : ℤ) (st : Assoc ℤ MsgState) → (Pending st o → ⊥) → Pending (delete o st) x ↔ Pending st x
delete-Pending o x st n = elim (Bool-cases (eqb_ℤ o x)) [
  | inl t ↦
      let e = (eqb_ℤ_iff o x).0 t in
      let m : lookup x (delete o st) ≡ none =
        lookup-delete o x st ∙ ap (λ b. if b then none else lookup x st) t in
      (λ p. absurd (ground (arith, sym m ∙ p)), λ p. absurd (n (subst (Pending st) (sym e) p)))
  | inr t ↦
      let m : lookup x (delete o st) ≡ lookup x st =
        lookup-delete o x st ∙ ap (λ b. if b then none else lookup x st) t in
      (λ p. sym m ∙ p, λ p. m ∙ p)
]

-- What holds of the result of the loop: where it stops, and that it keeps what is pending.
Scanned : ℤ → ℕ → Assoc ℤ MsgState → ℤ → Assoc ℤ MsgState × ℤ → Type 0
Scanned o n st latest r =
    First (Pending st) o n latest r.1 × ((x : ℤ) → Pending r.0 x ↔ Pending st x)

-- A round that goes on.
Scanned-next :
    (o : ℤ) (n : ℕ) (st st' : Assoc ℤ MsgState) (latest : ℤ) (r r' : Assoc ℤ MsgState × ℤ)
    → (Pending st o → ⊥)
    → ((x : ℤ) → Pending st' x ↔ Pending st x)
    → r ≡ r'
    → Scanned (suc_ℤ o) n st' latest r'
    → Scanned o (suc n) st latest r
unfolding Scanned
Scanned-next o n st st' latest r r' not_here same e (f, k) =
    subst (λ q. First (Pending st) o (suc n) latest q.1 × ((x : ℤ) → Pending q.0 x ↔ Pending st x))
      (sym e)
      (
        First-next (Pending st) (Pending st') o n latest r'.1 not_here same f,
        λ x. (λ p. (same x).0 ((k x).0 p), λ p. (k x).1 ((same x).1 p)),
      )

scan_sized-Scanned :
    (n : ℕ) (size o : ℤ) (st : Assoc ℤ MsgState) (latest : ℤ)
    → eqb_ℤ size (pos 0) ≡ false
    → Scanned o n st latest (scan_sized n size o st latest)
unfolding scan_sized Scanned
scan_sized-Scanned zero size o st latest h =
    (inr (refl, λ x w p. absurd (omega (arith, w.0, w.1))), λ x. (λ p. p, λ p. p))
scan_sized-Scanned (suc n) size o st latest h =
    by_case (lookup o st) refl (scan_sized-Scanned n size (suc_ℤ o) st latest h)
      (scan_sized-Scanned n size (suc_ℤ o) (delete o st) latest h)
  where
    passed :
        (v : MsgState)
        → v ≢ pending
        → lookup o st ≡ some v
        → scan_sized (suc n) size o st latest ≡ scan_sized n size (suc_ℤ o) (delete o st) latest
        → Scanned
            (suc_ℤ o)
            n
            (delete o st)
            latest
            (scan_sized n size (suc_ℤ o) (delete o st) latest)
        → Scanned o (suc n) st latest (scan_sized (suc n) size o st latest)
    passed v n_pending e eq deleted =
        let not_here : Pending st o → ⊥ = λ p. n_pending (some-injective _ _ (sym e ∙ p)) in
        Scanned-next o n st (delete o st) latest _ _ not_here (λ x. delete-Pending o x st not_here)
          eq deleted

    by_case :
        (v : Option MsgState)
        → lookup o st ≡ v
        → Scanned (suc_ℤ o) n st latest (scan_sized n size (suc_ℤ o) st latest)
        → Scanned
            (suc_ℤ o)
            n
            (delete o st)
            latest
            (scan_sized n size (suc_ℤ o) (delete o st) latest)
        → Scanned o (suc n) st latest (scan_sized (suc n) size o st latest)
    by_case none e kept deleted =
        Scanned-next o n st st latest _ _ (λ p. absurd (ground (arith, sym e ∙ p)))
          (λ x. (λ p. p, λ p. p)) (rw (scan_sized, h, e) refl) kept
    by_case (some pending) e kept deleted =
        let eq : scan_sized (suc n) size o st latest ≡ (st, o) = rw (scan_sized, h, e) refl in
        subst
          (λ q. First (Pending st) o (suc n) latest q.1 × ((x : ℤ) → Pending q.0 x ↔ Pending st x))
          (sym eq)
          (
            inl ((omega arith, omega arith), e, λ x l k p. absurd (omega (arith, l, k))),
            λ x. (λ p. p, λ p. p),
          )
    by_case (some success) e kept deleted =
        passed success (λ q. ground arith) e (rw (scan_sized, h, e) refl) deleted
    by_case (some error) e kept deleted =
        passed error (λ q. ground arith) e (rw (scan_sized, h, e) refl) deleted

-- Whether an offset is pending in the map of a partition.
abbrev pub IsPending : ChanState → ℤ → Type 0
IsPending ps x = lookup x ps.state ≡ some pending

-- While the size is not 0 and MaxReceived is not the last commit, FindLatestToCommit finds the first
-- offset from the last commit to MaxReceived + 1 that is pending in the map, or MaxReceived itself if
-- none is; and the map keeps what is pending, and only that becomes so.
pub find_latest_sized_never_skips :
    (ps : ChanState)
    → ps.state_size ≢ pos 0
    → ps.last_commited ≢ ps.max_received.offset
    → (r : ℤ) × ((find_latest_sized ps).1 ≡ some r)
      × (((ps.last_commited ≤ℤ r)
            × (r ≤ℤ suc_ℤ ps.max_received.offset)
            × IsPending ps r
            × ((x : ℤ) → ps.last_commited ≤ℤ x → x <ℤ r → IsPending ps x → ⊥))
          ⊎ ((r ≡ ps.max_received.offset)
              × ((x : ℤ)
                  → ps.last_commited ≤ℤ x
                  → x ≤ℤ suc_ℤ ps.max_received.offset
                  → IsPending ps x
                  → ⊥)))
      × ((x : ℤ) → IsPending (find_latest_sized ps).0 x ↔ IsPending ps x)
unfolding find_latest_sized Scanned
find_latest_sized_never_skips ps n m =
    let filled : eqb_ℤ ps.state_size (pos 0) ≡ false =
      ground (arith, n, eqb_ℤ_iff ps.state_size (pos 0)) in
    let new : eqb_ℤ ps.last_commited ps.max_received.offset ≡ false =
      ground (arith, m, eqb_ℤ_iff ps.last_commited ps.max_received.offset) in
    let last = suc_ℤ ps.max_received.offset in
    let (f, k) =
      scan_sized-Scanned (rounds ps.last_commited last) ps.state_size ps.last_commited ps.state
        ps.max_received.offset filled in
    rw new (
      _,
      refl,
      elim f [
        | inl g ↦ inl (g.0.0, omega (arith, g.0.0, g.0.1), g.1, g.2)
        | inr g ↦ inr (g.0, λ x l u. g.1 x (l, omega (arith, l, u)))
      ],
      k,
    )
