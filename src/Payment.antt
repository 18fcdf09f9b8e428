-- ===== src/Payment.antt =====
-- PaymentService.Save: kafka-outbox/internal/service/payment.service.go, which stores a payment and
-- the event of its creation in one transaction, with the inserts of internal/repos/payment.repo.go and
-- event-repo.go. The tables are the rows in the order of their inserts; `PaymentIo` is what the
-- driver, json.Marshal, GenerateRandomString and strconv.Itoa answer. Times are left out.
mod Stored
mod Tests
use go_api_practice.Prelude.{
  ℕ, Bool, Option, none, some, List, [], ◌∷◌, ◌++◌, String, if◌then◌else◌,
}
use go_api_practice.Prelude.Int.{ℤ, pos}
use go_api_practice.Transaction.{Driver, Ran, finished, Outcome, tx_closure}
use go_api_practice.Inbox.{non_existing_int_key}
use go_api_practice.Outbox.{waiting, Event, Table}

pub record Payment : Type 0 where
  pub id : ℕ
  pub order_number : String
  pub amount : ℤ
  pub status : String

pub record Db : Type 0 where
  pub payment_orders : List Payment
  pub events : Table

-- `payment_id` is the id that the INSERT returns, none for its error.
pub record PaymentIo : Type 0 where
  pub payment_id : Option ℕ
  pub marshal : Payment → Option String
  pub random_string : String
  pub itoa : ℕ → String
  pub event_ok : Bool

-- NewEvent, with its id.
unfoldable pub new_event : PaymentIo → ℕ → String → String × Event
new_event io payment_id metadata = (
  io.random_string,
  record {
    event_type = "payment_created";
    parent_id = io.itoa payment_id;
    parent_type = "payment";
    parent_metadata = metadata;
    status = waiting;
  },
)

-- The rows of a payment, and of its event.
unfoldable pub insert_payment : Payment → Db → Db
insert_payment p db = record db { payment_orders = db.payment_orders ++ (p ∷ []) }

unfoldable pub insert_event : String × Event → Db → Db
insert_event e db = record db { events = db.events ++ (e ∷ []) }

-- The closure of Save, once the payment is marshalled, and once it is inserted. With it goes the
-- payment of the caller, whose ID is written.
marshalled : PaymentIo → Payment → Db → Option String → Db × Payment × Ran String ℤ
marshalled io p db none = (db, p, finished non_existing_int_key (some "error marshalling"))
marshalled io p db (some metadata) =
    if io.event_ok
    then (insert_event (new_event io p.id metadata) db, p, finished (pos p.id) none)
    else (db, p, finished non_existing_int_key (some "error inserting the event"))

inserted_payment : PaymentIo → Payment → Db → Option ℕ → Db × Payment × Ran String ℤ
unfolding marshalled
inserted_payment io p db none =
    (db, p, finished non_existing_int_key (some "error inserting the payment"))
inserted_payment io p db (some id) =
    let p' = record p { id = id } in marshalled io p' (insert_payment p' db) (io.marshal p')

unfoldable pub save_payment : Driver Db → PaymentIo → Payment → Db → Db × Payment × Outcome String ℤ
unfolding inserted_payment
save_payment d io p before = tx_closure d p (λ db. inserted_payment io p db io.payment_id) before
