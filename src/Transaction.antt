-- ===== src/Transaction.antt =====
-- TxClosure: kafka-outbox/internal/repos/repo-shared/tx-closure.go, with the same function in
-- kafka-cdc/pkg/db/postgres, and the one of kafka/internal/repo/event-repo.go, whose results have no
-- names. What the database holds is a type `S`, and the driver is a parameter: whether each of its
-- calls succeeds, and what a failed commit leaves behind. `R` is what the closure does outside the
-- transaction, which nothing takes back; `E` is the type of the closure's errors.
pub mod Atomic
use go_api_practice.Prelude.{Bool, true, false, Option, none, some, if◌then◌else◌}

pub record Driver (S : Type 0) : Type 0 where
  pub begin_ok : Bool
  pub rollback_ok : Bool
  pub commit_ok : Bool
  -- from what was there before and what the closure wrote
  pub failed_commit : S → S → S

pub data TxError (E : Type 0) : Type 0 where
  begin_failed : TxError E
  fn_failed : E → TxError E
  fn_and_rollback_failed : E → TxError E
  commit_failed : TxError E

-- What the closure ends in.
pub data Ran (E T : Type 0) : Type 0 where
  finished : T → Option E → Ran E T
  broke : Ran E T

-- What TxClosure ends in: a panic of the closure goes on, and `none` is the zero value of a result.
pub data Outcome (E T : Type 0) : Type 0 where
  returned : Option T → Option (TxError E) → Outcome E T
  panicked : Outcome E T

module _ {S R E T : Type 0} where
  -- The deferred function, and the return.
  unfoldable pub finish : Driver S → S → S × R × Ran E T → S × R × Outcome E T
  finish d before (after, r, broke) = (before, r, panicked)
  finish d before (after, r, finished res (some e)) = (
    before,
    r,
    returned (some res) (some (if d.rollback_ok then fn_failed e else fn_and_rollback_failed e)),
  )
  finish d before (after, r, finished res none) =
      if d.commit_ok
      then (after, r, returned (some res) none)
      else (d.failed_commit before after, r, returned (some res) (some commit_failed))

  unfoldable pub tx_closure : Driver S → R → (S → S × R × Ran E T) → S → S × R × Outcome E T
  unfolding finish
  tx_closure d nothing fn before =
      if d.begin_ok
      then finish d before (fn before)
      else (before, nothing, returned none (some begin_failed))

  -- Without named results, what the deferred function assigns to `err` is lost.
  finish_unnamed : Driver S → S → S × R × Ran E T → S × R × Outcome E T
  finish_unnamed d before (after, r, broke) = (before, r, panicked)
  finish_unnamed d before (after, r, finished res (some e)) =
      (before, r, returned (some res) (some (fn_failed e)))
  finish_unnamed d before (after, r, finished res none) =
      (if d.commit_ok then after else d.failed_commit before after, r, returned (some res) none)

  unfoldable pub tx_closure_unnamed : Driver S → R → (S → S × R × Ran E T) → S → S × R × Outcome E T
  unfolding finish_unnamed
  tx_closure_unnamed d nothing fn before =
      if d.begin_ok then finish_unnamed d before (fn before) else (before, nothing, panicked)
