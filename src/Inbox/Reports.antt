-- ===== src/Inbox/Reports.antt =====
-- What Save reports to the consumer, against what is stored.
use mathlib.Core.Path.{subst}
use go_api_practice.Prelude.{
  String, true, false, none, some, List, [], ◌∷◌, ◌≡◌, ◌⊎◌, ◌↔◌, inl, inr, refl, sym, arith,
  Bool-cases,
}
use go_api_practice.Prelude.Int.{ℤ}
use go_api_practice.Partition.{MsgState, success, error}
use go_api_practice.Transaction.{
  Driver, begin_failed, commit_failed, Outcome, returned, finish, tx_closure,
}
use go_api_practice.Inbox.{InsertResult, inserted, duplicate, insert_failed, save, save_inserted}

-- Of the result of a call, where the INSERT gave `i`.
abbrev pub Reported :
    {S : Type 0} → Driver S → S → InsertResult S → S × List MsgState × Outcome String ℤ → Type 0
Reported d before i result =
    (result.1 ≡ [] ↔ d.begin_ok ≡ false)
    × (result.1 ≡ success ∷ []
        → d.commit_ok ≡ true
        → ((id : ℤ) × (i ≡ inserted id result.0) × (result.2 ≡ returned (some id) none))
          ⊎ (i ≡ duplicate) × (result.0 ≡ before))
    × (result.1 ≡ error ∷ [] → result.0 ≡ before)

finish-Reported :
    {S : Type 0} (d : Driver S) (before : S) (i : InsertResult S)
    → d.begin_ok ≡ true
    → Reported d before i (finish d before (save_inserted before i))
unfolding finish save_inserted
finish-Reported d before (inserted id after) b = elim (Bool-cases d.commit_ok) [
  | inl c ↦ rw c (
    (λ h. absurd (ground arith), λ h. absurd (ground arith)),
    (λ h k. inl (id, refl, refl)),
    (λ h. absurd (cc)),
  )
  | inr c ↦ rw c (
    (λ h. absurd (ground arith), λ h. absurd (ground arith)),
    (λ h k. absurd (ground arith)),
    (λ h. absurd (cc)),
  )
]
finish-Reported d before duplicate b = (
  (λ h. absurd (ground arith), λ h. absurd (ground arith)),
  (λ h k. inr (refl, refl)),
  (λ h. refl),
)
finish-Reported d before (insert_failed e) b =
    ((λ h. absurd (ground arith), λ h. absurd (ground arith)), (λ h k. absurd (cc)), (λ h. refl))

-- Save reports nothing exactly if the transaction does not begin. Where it reports success and the
-- commit does not fail, either the row was inserted, is in the database and its id is returned
-- without an error, or the key was there before and the database is unchanged. Where it reports an
-- error, the database is unchanged.
pub save_reports_what_is_stored :
    {S : Type 0} (d : Driver S) (insert : S → InsertResult S) (before : S)
    → Reported d before (insert before) (save d insert before)
unfolding save tx_closure
save_reports_what_is_stored d insert before = elim (Bool-cases d.begin_ok) [
  | inl t ↦
      let run : save d insert before ≡ finish d before (save_inserted before (insert before)) =
        rw t refl in
      subst (Reported d before (insert before)) (sym run)
        (finish-Reported d before (insert before) t)
  | inr t ↦
      let run : save d insert before ≡ (before, [], returned none (some begin_failed)) =
        rw t refl in
      subst (Reported d before (insert before)) (sym run)
        ((λ h. t, λ h. refl), (λ h k. absurd (ground arith)), (λ h. refl))
]

-- A row is inserted and the commit fails: Save returns an error, and has reported success.
pub save_reports_success_of_failed_commit :
    {S : Type 0} (d : Driver S) (insert : S → InsertResult S) (before after : S) (id : ℤ)
    → d.begin_ok ≡ true
    → d.commit_ok ≡ false
    → insert before ≡ inserted id after
    → save d insert before
      ≡ (d.failed_commit before after, success ∷ [], returned (some id) (some commit_failed))
unfolding save save_inserted tx_closure finish
save_reports_success_of_failed_commit d insert before after id b c i = rw (b, i, c) refl
