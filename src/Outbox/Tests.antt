-- ===== src/Outbox/Tests.antt =====
-- A concrete run of the outbox: one event of two can be sent.
use go_api_practice.Prelude.{true, some, [], ◌∷◌, refl, inl, String, string_key, same}
use go_api_practice.Prelude.Assoc.{lookup}
use go_api_practice.Prelude.Members.{contains}
use go_api_practice.Transaction.{Driver, tx_closure, finish}
use go_api_practice.Outbox.{
  waiting, produced, Event, Table, Io, handle_pending, run_pending, pending_rows, produce_all,
  marshalled, offered, updated, set_status, affected,
}
use go_api_practice.Outbox.Sent.{WasSent, handle_pending_marks_only_sent}

abbrev payment : String → Event
payment order = record {
  event_type = "payment_created";
  parent_id = "7";
  parent_type = "payment";
  parent_metadata = order;
  status = waiting;
}

abbrev table : Table
table = ("e1", payment "big") ∷ ("e2", payment "small") ∷ []

abbrev database : Driver Table
database = record {
  begin_ok = true;
  rollback_ok = true;
  commit_ok = true;
  failed_commit = λ before after. before;
}

abbrev io : Io
io = record {
  query_ok = true;
  in_ok = λ ids. true;
  update_ok = true;
  marshal = λ id e. some e.parent_metadata;
  produce = λ b. same b "small";
}

handle_pending_marks_only_sent_example :
    WasSent io "e2" (payment "small") (handle_pending database io table).1
unfolding lookup contains handle_pending run_pending pending_rows produce_all marshalled offered
    updated set_status affected tx_closure finish
handle_pending_marks_only_sent_example =
    handle_pending_marks_only_sent database io table "e2" (payment "small")
      (record (payment "small") { status = produced }) (refl, (refl, tt)) (λ after. inl refl) refl
      refl refl refl
