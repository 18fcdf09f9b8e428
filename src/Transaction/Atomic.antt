-- ===== src/Transaction/Atomic.antt =====
-- TxClosure is all or nothing, and says which.
use go_api_practice.Prelude.{
  true, false, Option, none, some, ◌≡◌, ◌≢◌, ◌⊎◌, inl, inr, refl, arith, Bool-cases,
}
use go_api_practice.Transaction.{
  Driver, commit_failed, Ran, finished, broke, Outcome, returned, finish, tx_closure,
  tx_closure_unnamed, finish_unnamed,
}

module _ {S R E T : Type 0} where
  -- The ways in which a call can end, with what the closure ran to.
  abbrev pub Ended : Driver S → S → S × R × Ran E T → S × R × Outcome E T → Type 0
  Ended d before ran result =
      ((x : T) × (ran ≡ (result.0, result.1, finished x none))
        × (result.2 ≡ returned (some x) none)
        × (d.commit_ok ≡ true))
      ⊎ (result.0 ≡ before) × ((res : Option T) → result.2 ≢ returned res none)
      ⊎ (x : T) × (after : S) × (ran ≡ (after, result.1, finished x none))
        × (result.0 ≡ d.failed_commit before after)
        × (result.2 ≡ returned (some x) (some commit_failed))

  finish-Ended :
      (d : Driver S) (before : S) (ran : S × R × Ran E T) → Ended d before ran (finish d before ran)
  unfolding finish
  finish-Ended d before (after, r, broke) = inr (inl (refl, λ res e. absurd (cc)))
  finish-Ended d before (after, r, finished x (some e)) =
      inr (inl (refl, λ res h. absurd (ground arith)))
  finish-Ended d before (after, r, finished x none) = elim (Bool-cases d.commit_ok) [
    | inl t ↦ rw t (inl (x, refl, refl, refl))
    | inr t ↦ rw t (inr (inr (x, after, refl, refl, refl)))
  ]

-- A call of TxClosure ends in one of three ways. It returns the closure's result and no error: then
-- the commit succeeded, and the database holds what the closure wrote. It returns an error or
-- panics, and the database is as before. Or the commit failed after the closure succeeded: then the
-- call returns that error.
pub tx_closure_is_atomic :
    {S R E T : Type 0} (d : Driver S) (nothing : R) (fn : S → S × R × Ran E T) (before : S)
    → Ended d before (fn before) (tx_closure d nothing fn before)
unfolding tx_closure
tx_closure_is_atomic d nothing fn before = elim (Bool-cases d.begin_ok) [
  | inl t ↦ rw t (finish-Ended d before (fn before))
  | inr t ↦ rw t (inr (inl (refl, λ res e. absurd (ground arith))))
]

-- When the closure has succeeded and the commit fails, TxClosure returns the error of the commit. The
-- version without named results returns no error, although the database is the same.
pub unnamed_results_lose_commit_error :
    {S R E T : Type 0} (d : Driver S) (nothing : R) (fn : S → S × R × Ran E T) (before after : S)
    (r : R) (x : T)
    → d.begin_ok ≡ true
    → d.commit_ok ≡ false
    → fn before ≡ (after, r, finished x none)
    → (tx_closure d nothing fn before
        ≡ (d.failed_commit before after, r, returned (some x) (some commit_failed)))
      × (tx_closure_unnamed d nothing fn before
          ≡ (d.failed_commit before after, r, returned (some x) none))
unfolding tx_closure tx_closure_unnamed finish finish_unnamed
unnamed_results_lose_commit_error d nothing fn before after r x b c f =
    (rw (b, f, c) refl, rw (b, f, c) refl)
