-- ===== src/Inbox.antt =====
-- InboxService.Save: kafka-outbox/internal/service/inbox.service.go, which stores an event that a
-- consumer received and reports it to the consumer (UpdateState) from within the transaction. The
-- INSERT is a parameter: a new row with its id, a duplicate key, or another error.
mod Reports
mod Tests
use go_api_practice.Prelude.{ℕ, Option, none, some, String, List, [], ◌∷◌}
use go_api_practice.Prelude.Int.{ℤ, negsuc}
use go_api_practice.Partition.{MsgState, success, error}
use go_api_practice.Transaction.{Driver, Ran, finished, Outcome, tx_closure}

pub data InsertResult (S : Type 0) : Type 0 where
  inserted : ℤ → S → InsertResult S
  duplicate : InsertResult S
  insert_failed : String → InsertResult S

-- NonExistingIntKey
abbrev pub non_existing_int_key : ℤ
non_existing_int_key = negsuc 1000

module _ {S : Type 0} where
  -- The closure of Save, from the INSERT on, with what it reports.
  save_inserted : S → InsertResult S → S × List MsgState × Ran String ℤ
  save_inserted before (inserted id after) = (after, success ∷ [], finished id none)
  save_inserted before duplicate =
      (before, success ∷ [], finished non_existing_int_key (some "already exists"))
  save_inserted before (insert_failed e) =
      (before, error ∷ [], finished non_existing_int_key (some e))

  unfoldable pub save : Driver S → (S → InsertResult S) → S → S × List MsgState × Outcome String ℤ
  unfolding save_inserted
  save d insert before = tx_closure d [] (λ s. save_inserted s (insert s)) before
