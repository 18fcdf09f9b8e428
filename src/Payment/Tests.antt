-- ===== src/Payment/Tests.antt =====
-- A payment that is saved.
use go_api_practice.Prelude.{true, some, []}
use go_api_practice.Prelude.Int.{pos}
use go_api_practice.Transaction.{Driver}
use go_api_practice.Payment.{Payment, Db, PaymentIo, save_payment}
use go_api_practice.Payment.Stored.{SavedBoth, save_payment_stores_both}

abbrev payment : Payment
payment = record { id = 0; order_number = "a-1"; amount = pos 5; status = "created" }

abbrev empty_db : Db
empty_db = record { payment_orders = []; events = [] }

abbrev database : Driver Db
database = record {
  begin_ok = true;
  rollback_ok = true;
  commit_ok = true;
  failed_commit = λ before after. before;
}

abbrev io : PaymentIo
io = record {
  payment_id = some 7;
  marshal = λ p. some p.order_number;
  random_string = "e1";
  itoa = λ n. "7";
  event_ok = true;
}

save_payment_stores_both_example :
    SavedBoth database io payment empty_db (save_payment database io payment empty_db)
save_payment_stores_both_example = save_payment_stores_both database io payment empty_db
