-- ===== src/Outbox.antt =====
-- The outbox: handlePending of kafka-outbox/internal/service/outbox.service.go, with the queries of
-- internal/repos/event-repo.go. The table of events is a map from their ids, which tell its rows
-- apart. `Io` is what the driver, sqlx.In, json.Marshal and the producer answer.
mod Sent
mod Tests
use go_api_practice.Prelude.{
  ℕ, zero, ◌+◌, Bool, true, false, not, Option, none, some, List, [], ◌∷◌, String, string_key,
  if◌then◌else◌, ◌==◌, length,
}
use go_api_practice.Prelude.Assoc.{Assoc}
use go_api_practice.Prelude.Members.{contains}
use go_api_practice.Transaction.{Driver, Ran, finished, Outcome, tx_closure}

pub data EventStatus : Type 0 where
  waiting produced : EventStatus

-- A row, less its id.
pub record Event : Type 0 where
  pub event_type : String
  pub parent_id : String
  pub parent_type : String
  pub parent_metadata : String
  pub status : EventStatus

abbrev pub Table : Type 0
Table = Assoc String Event

pub record Io : Type 0 where
  pub query_ok : Bool
  pub in_ok : List String → Bool
  pub update_ok : Bool
  pub marshal : String → Event → Option String
  pub produce : String → Bool

abbrev pub is_pending : EventStatus → Bool
is_pending waiting = true
is_pending produced = false

-- GetAllPending: none is an error.
unfoldable pub pending_rows : Table → Table
pending_rows [] = []
pending_rows ((id, e) ∷ rows) =
    let rest = pending_rows rows in if is_pending e.status then (id, e) ∷ rest else rest

abbrev pub get_all_pending : Io → Table → Option Table
get_all_pending io table = if io.query_ok then some (pending_rows table) else none

-- UpdateStatusByIds: none is an error, otherwise the table and the number of rows affected.
unfoldable pub set_status : EventStatus → List String → Table → Table
set_status status ids [] = []
set_status status ids ((id, e) ∷ rows) =
    (id, (if contains id ids then record e { status = status } else e)) ∷ set_status status ids rows

unfoldable pub affected : List String → Table → ℕ
affected ids [] = 0
affected ids ((id, e) ∷ rows) = (if contains id ids then 1 else 0) + affected ids rows

abbrev pub update_status_by_ids : Io → Table → List String → EventStatus → Option (Table × ℕ)
update_status_by_ids io table ids status =
    if io.in_ok ids
    then (if io.update_ok then some (set_status status ids table, affected ids table) else none)
    else none

-- The body of `for _, e := range events`, once the event is marshalled: what is sent, and the ids.
offered : Bool → String → String → List String × List String → List String × List String
offered false b id (sent, ids) = (sent, ids)
offered true b id (sent, ids) = (b ∷ sent, id ∷ ids)

marshalled : Io → String → Option String → List String × List String → List String × List String
unfolding offered
marshalled io id none rest = rest
marshalled io id (some b) rest = offered (io.produce b) b id rest

unfoldable pub produce_all : Io → Table → List String × List String
unfolding marshalled
produce_all io [] = ([], [])
produce_all io ((id, e) ∷ rows) = marshalled io id (io.marshal id e) (produce_all io rows)

updated :
    Table → List String → List String → Option (Table × ℕ) → Table × List String × Ran String ℕ
updated before sent ids none = (before, sent, finished 0 (some "error updating"))
updated before sent ids (some (after, rows)) =
    if rows == length ids
    then (after, sent, finished rows none)
    else (after, sent, finished 0 (some "updated row count didn't match"))

-- The closure of handlePending, with the messages that it sends.
run_pending : Io → Table → Option Table → Table × List String × Ran String ℕ
unfolding updated
run_pending io before none = (before, [], finished 0 (some "error querying"))
run_pending io before (some events) =
    let made = produce_all io events in
    updated before made.0 made.1 (update_status_by_ids io before made.1 produced)

unfoldable pub handle_pending : Driver Table → Io → Table → Table × List String × Outcome String ℕ
unfolding run_pending
handle_pending d io before =
    tx_closure d [] (λ table. run_pending io table (get_all_pending io table)) before
