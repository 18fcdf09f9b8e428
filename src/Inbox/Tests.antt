-- ===== src/Inbox/Tests.antt =====
-- A database that holds the ids of its rows, and one event to store: inbox.service.go and
-- tx-closure.go of kafka-outbox.
use go_api_practice.Prelude.{String, Bool, true, none, List, [], ◌∷◌}
use go_api_practice.Prelude.Int.{ℤ, pos}
use go_api_practice.Partition.{MsgState}
use go_api_practice.Transaction.{Driver, Ran, finished, tx_closure}
use go_api_practice.Transaction.Atomic.{Ended, tx_closure_is_atomic}
use go_api_practice.Inbox.{InsertResult, inserted, save}
use go_api_practice.Inbox.Reports.{Reported, save_reports_what_is_stored}

-- A commit that fails leaves nothing behind.
abbrev driver : Bool → Driver (List ℤ)
driver commits = record {
  begin_ok = true;
  rollback_ok = true;
  commit_ok = commits;
  failed_commit = λ before after. before;
}

abbrev insert_seven : List ℤ → InsertResult (List ℤ)
insert_seven rows = inserted (pos 7) (pos 7 ∷ rows)

abbrev add_seven : List ℤ → List ℤ × List MsgState × Ran String ℤ
add_seven rows = (pos 7 ∷ rows, [], finished (pos 7) none)

tx_closure_is_atomic_example :
    Ended (driver true) [] (add_seven []) (tx_closure (driver true) [] add_seven [])
tx_closure_is_atomic_example = tx_closure_is_atomic (driver true) [] add_seven []

save_reports_what_is_stored_example :
    Reported (driver true) [] (insert_seven []) (save (driver true) insert_seven [])
save_reports_what_is_stored_example = save_reports_what_is_stored (driver true) insert_seven []
