-- ===== src/Partition/Scan.antt =====
-- The loop of FindLatestToCommit: what one run of `scan` does to the map and where it stops.
use go_api_practice.Prelude.{
  ℕ, zero, suc, ◌+◌, ◌≤◌, true, false, none, some, [], ◌∷◌, ◌≡◌, refl, sym, ap, ◌∙◌, ◌≢◌, ◌⊎◌, inl,
  inr, arith, Bool-cases, Option-cases,
}
use go_api_practice.Prelude.Int.{
  ℤ, pos_part, neg_part, ◌≤ℤ◌, ◌<ℤ◌, eqb_ℤ, eqb_ℤ_iff, suc_ℤ, suc_ℤ_parts, int_key,
}
use go_api_practice.Prelude.Assoc.{Assoc, is_empty, lookup, delete, lookup-delete}
use go_api_practice.Partition.{MsgState, pending, success, error, scan}

-- What holds of the result `r` of the loop, started at `o` on the map `st` with the bound `latest`.
pub record Scanned (o : ℤ) (st : Assoc ℤ MsgState) (latest : ℤ) (r : Assoc ℤ MsgState × ℤ)
    : Type 0 where
  pub lower : pos_part o + neg_part r.1 ≤ pos_part r.1 + neg_part o + 1
  pub start : o ≤ℤ latest → o ≤ℤ r.1
  pub upper : pos_part r.1 + neg_part latest ≤ pos_part latest + neg_part r.1 + 1
  pub below : (x : ℤ) → x <ℤ o → lookup x r.0 ≡ lookup x st
  pub above : (x : ℤ) → r.1 <ℤ x → lookup x r.0 ≡ lookup x st
  pub cleared : (x : ℤ) → o ≤ℤ x → x <ℤ r.1 → lookup x r.0 ≡ none
  pub passed : (x : ℤ) → o ≤ℤ x → x <ℤ r.1 → lookup x st ≢ some pending
  pub sub : (x : ℤ) → (lookup x r.0 ≡ none) ⊎ (lookup x r.0 ≡ lookup x st)
  pub kept : (x : ℤ) → lookup x st ≡ some pending → lookup x r.0 ≡ some pending
  pub stop :
      (r.1 ≡ latest)
      ⊎ (lookup r.1 st ≡ some pending)
      ⊎ (y : ℤ) × (r.1 ≡ suc_ℤ y) × (lookup y st ≢ none) × (r.0 ≡ [])

lookup-delete_self : (o : ℤ) (st : Assoc ℤ MsgState) → lookup o (delete o st) ≡ none
lookup-delete_self o st = ground (arith, lookup-delete o o st, eqb_ℤ_iff o o)

lookup-delete_ne :
    (o x : ℤ) (st : Assoc ℤ MsgState) → (o ≡ x → ⊥) → lookup x (delete o st) ≡ lookup x st
lookup-delete_ne o x st h = ground (arith, lookup-delete o x st, eqb_ℤ_iff o x)

ne_of_lt : (o x : ℤ) → o <ℤ x → o ≡ x → ⊥
ne_of_lt o x h e = ground arith

lt-suc : (o : ℤ) → o <ℤ suc_ℤ o
lt-suc o = omega (arith, suc_ℤ_parts o)

-- From `o` on is `o` itself, or from the next offset on.
le-cases : (o x : ℤ) → o ≤ℤ x → (o ≡ x) ⊎ (suc_ℤ o ≤ℤ x)
le-cases o x h = ground (arith, suc_ℤ_parts o)

-- The four ways in which a round goes on.
Scanned-end :
    (o : ℤ) (st : Assoc ℤ MsgState) (latest : ℤ)
    → pos_part latest + neg_part o + 1 ≡ pos_part o + neg_part latest
    → Scanned o st latest (st, latest)
Scanned-end o st latest e = record {
  lower = omega arith;
  start = λ h. absurd (omega arith);
  upper = omega arith;
  below = λ x h. refl;
  above = λ x h. refl;
  cleared = λ x h k. absurd (omega arith);
  passed = λ x h k. absurd (omega arith);
  sub = λ x. inr refl;
  kept = λ x h. h;
  stop = inl refl;
}

Scanned-pending :
    (o : ℤ) (st : Assoc ℤ MsgState) (latest : ℤ)
    → o ≤ℤ latest
    → lookup o st ≡ some pending
    → Scanned o st latest (st, o)
Scanned-pending o st latest e p = record {
  lower = omega arith;
  start = λ h. omega arith;
  upper = omega arith;
  below = λ x h. refl;
  above = λ x h. refl;
  cleared = λ x h k. absurd (omega arith);
  passed = λ x h k. absurd (omega arith);
  sub = λ x. inr refl;
  kept = λ x h. h;
  stop = inr (inl p);
}

Scanned-skip :
    (o : ℤ) (st : Assoc ℤ MsgState) (latest : ℤ) (r : Assoc ℤ MsgState × ℤ)
    → lookup o st ≡ none
    → Scanned (suc_ℤ o) st latest r
    → Scanned o st latest r
Scanned-skip o st latest r p s = record {
  lower = omega (arith, s.lower, suc_ℤ_parts o);
  start = λ h. omega (arith, s.lower, suc_ℤ_parts o);
  upper = s.upper;
  below = λ x h. s.below x (omega (arith, suc_ℤ_parts o));
  above = s.above;
  cleared = λ x h k. elim (le-cases o x h) [
    | inl e ↦ rw (← e) (s.below o (lt-suc o) ∙ p)
    | inr l ↦ s.cleared x l k
  ];
  passed = λ x h k. elim (le-cases o x h) [ inl e ↦ λ q. cc | inr l ↦ s.passed x l k ];
  sub = s.sub;
  kept = s.kept;
  stop = s.stop;
}

module _ (o : ℤ) (st : Assoc ℤ MsgState) (latest : ℤ) (p : lookup o st ≢ some pending) where
  Scanned-clear :
      lookup o st ≢ none
      → o ≤ℤ latest
      → delete o st ≡ []
      → Scanned o st latest (delete o st, suc_ℤ o)
  Scanned-clear t b e = record {
    lower = omega (arith, suc_ℤ_parts o);
    start = λ h. omega (arith, suc_ℤ_parts o);
    upper = omega (arith, suc_ℤ_parts o);
    below = λ x h. lookup-delete_ne o x st (λ q. ne_of_lt x o h (sym q));
    above = λ x h. lookup-delete_ne o x st (ne_of_lt o x (omega (arith, suc_ℤ_parts o)));
    cleared = λ x h k. elim (le-cases o x h) [
      | inl q ↦ rw (← q) (lookup-delete_self o st)
      | inr l ↦ absurd (omega arith)
    ];
    passed = λ x h k. elim (le-cases o x h) [ inl q ↦ rw (← q) p | inr l ↦ absurd (omega arith) ];
    sub = λ x. elim (Bool-cases (eqb_ℤ o x)) [
      | inl q ↦ inl (ground (arith, lookup-delete o x st))
      | inr q ↦ inr (ground (arith, lookup-delete o x st))
    ];
    kept = λ x h. lookup-delete_ne o x st (λ q. p (ap (λ y. lookup y st) q ∙ h)) ∙ h;
    stop = inr (inr (o, refl, t, e));
  }

  Scanned-drop :
      (r : Assoc ℤ MsgState × ℤ) → Scanned (suc_ℤ o) (delete o st) latest r → Scanned o st latest r
  Scanned-drop r s = record {
    lower = omega (arith, s.lower, suc_ℤ_parts o);
    start = λ h. omega (arith, s.lower, suc_ℤ_parts o);
    upper = s.upper;
    below = λ x h.
        s.below x (omega (arith, suc_ℤ_parts o))
        ∙ lookup-delete_ne o x st (λ q. ne_of_lt x o h (sym q));
    above = λ x h.
        s.above x h
        ∙ lookup-delete_ne o x st (ne_of_lt o x (omega (arith, s.lower, suc_ℤ_parts o)));
    cleared = λ x h k. elim (le-cases o x h) [
      | inl q ↦ rw (← q) (s.below o (lt-suc o) ∙ lookup-delete_self o st)
      | inr l ↦ s.cleared x l k
    ];
    passed = λ x h k. elim (le-cases o x h) [
      | inl q ↦ rw (← q) p
      | inr l ↦ λ q. s.passed x l k (ground (arith, lookup-delete o x st, eqb_ℤ_iff o x, omit x q))
    ];
    sub = λ x. elim (s.sub x) [
      | inl q ↦ inl q
      | inr q ↦ elim (Bool-cases (eqb_ℤ o x)) [
        | inl t ↦ inl (ground (arith, lookup-delete o x st))
        | inr t ↦ inr (ground (arith, lookup-delete o x st))
      ]
    ];
    kept = λ x h. s.kept x (omit x h ∙ h);
    stop = elim s.stop [
      | inl q ↦ inl q
      | inr (inl q) ↦ inr (inl (ground (arith, lookup-delete o r.1 st)))
      | inr (inr (y, q, w, z)) ↦
          inr (inr (y, q, (λ a. w (ground (arith, lookup-delete o y st))), z))
    ];
  }
    where
      omit : (x : ℤ) → lookup x st ≡ some pending → lookup x (delete o st) ≡ lookup x st
      omit x h = lookup-delete_ne o x st (λ q. p (ap (λ y. lookup y st) q ∙ h))

-- One round on an entry that is not pending.
scan-done :
    (n : ℕ) (o : ℤ) (st : Assoc ℤ MsgState) (latest : ℤ)
    → pos_part latest + neg_part o + 1 ≡ pos_part o + neg_part latest + suc n
    → lookup o st ≢ some pending
    → lookup o st ≢ none
    → Scanned (suc_ℤ o) (delete o st) latest (scan n (suc_ℤ o) (delete o st) latest)
    → Scanned o st latest (elim (is_empty (delete o st)) [
      | true ↦ (delete o st, suc_ℤ o)
      | false ↦ scan n (suc_ℤ o) (delete o st) latest
    ])
scan-done n o st latest e p t s = elim (empty-cases (delete o st)) [
  | inl q ↦ rw (q, is_empty) (Scanned-clear o st latest p t (omega arith) q)
  | inr q ↦ rw q (Scanned-drop o st latest p (scan n (suc_ℤ o) (delete o st) latest) s)
]
  where
    empty-cases : (xs : Assoc ℤ MsgState) → (xs ≡ []) ⊎ (is_empty xs ≡ false)
    empty-cases [] = inl refl
    empty-cases (x ∷ xs) = inr refl

-- The loop over the offsets from `o` to `latest`, when `n` is their number.
pub scan-Scanned :
    (n : ℕ) (o : ℤ) (st : Assoc ℤ MsgState) (latest : ℤ)
    → pos_part latest + neg_part o + 1 ≡ pos_part o + neg_part latest + n
    → Scanned o st latest (scan n o st latest)
unfolding scan
scan-Scanned zero o st latest e = Scanned-end o st latest (omega arith)
scan-Scanned (suc n) o st latest e = elim (Option-cases (lookup o st)) [
  | inl p ↦
      rw (p, scan)
        (Scanned-skip o st latest (scan n (suc_ℤ o) st latest) p
          (scan-Scanned n (suc_ℤ o) st latest (omega (arith, suc_ℤ_parts o))))
  | inr (pending, p) ↦ rw (p, scan) (Scanned-pending o st latest (omega arith) p)
  | inr (success, p) ↦
      rw (p, scan)
        (scan-done n o st latest e (λ q. cc) (λ q. cc)
          (scan-Scanned n (suc_ℤ o) (delete o st) latest (omega (arith, suc_ℤ_parts o))))
  | inr (error, p) ↦
      rw (p, scan)
        (scan-done n o st latest e (λ q. cc) (λ q. cc)
          (scan-Scanned n (suc_ℤ o) (delete o st) latest (omega (arith, suc_ℤ_parts o))))
]
