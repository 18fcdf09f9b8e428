-- ===== src/Inventory.antt =====
-- The inventory server of kafka-cdc: the service internal/inventory/application/inventory.service.go
-- with its repositories, the proto mapper, the payment handler and the router of
-- internal/inventory/handlers/msg. Times are left out. `Io` is what libraries and the driver answer;
-- a row of `inventory` has an order number of its own (UNIQUE in migrations/inventory), a row of
-- event_inbox nothing but its id.
pub mod Router
pub mod EventType
pub mod Save
pub mod Reserved
mod Tests
use go_api_practice.Prelude.{
  ℕ, zero, suc, ◌/◌, Bool, true, false, not, Option, none, some, List, [], ◌∷◌, ◌++◌, ◌&&◌, String,
  string_key, same, if◌then◌else◌, get_elem?,
}
use go_api_practice.Prelude.Int.{ℤ, pos, negsuc}
use go_api_practice.Prelude.Split.{split, concat}
use go_api_practice.Prelude.Run.{Run, done, waits, panics, ◌>>=◌}
use go_api_practice.Partition.{MsgState, success, error}
use go_api_practice.Transaction.{Driver, Ran, finished, Outcome, returned, panicked, tx_closure}
use go_api_practice.AppError.{
  Err, other, pq, err_duplicate_code, code_duplicate_key, code_non_existing_key,
  new_duplicate_key_error, new_non_existing_key_error, is_duplicate_key_error, is_duplicate_key_err,
  tx_error,
}

-- A payment as the change data capture encodes it.
pub record CdcPayment : Type 0 where
  pub id : ℤ
  pub order_number : String
  pub amount : String
  pub status : String

pub record Envelope : Type 0 where
  pub before : Option CdcPayment
  pub after : Option CdcPayment
  pub op : String

-- `F` is float64.
pub record PaymentCreatedEvent (F : Type 0) : Type 0 where
  pub id : ℤ
  pub order_number : String
  pub amount : F
  pub status : String

pub record InboxEvent : Type 0 where
  pub inbox_event_type : String
  pub aggregate_id : String
  pub aggregate_type : String
  pub aggregate_metadata : String
  pub status : String

pub record Reservation : Type 0 where
  pub product_name : String
  pub status : String
  pub quantity : ℤ
  pub order_number : String
  pub payment_id : String

pub record Db : Type 0 where
  pub event_inbox : List InboxEvent
  pub inventory : List Reservation

-- The answers: of the encoder, of strconv and encoding/json, of rand.Text, whose first nine characters
-- are `text`, and of the two INSERTs, where `inventory_error` is an error besides the one of the
-- UNIQUE column. `trunc` is the conversion of a float64 to an int, which is taken to be below 2^53, so
-- that the Floor of a quotient is the quotient.
pub record Io (F : Type 0) : Type 0 where
  pub is_proto : Bool
  pub decoder : String → Option Envelope
  pub parse_float : String → Option F
  pub decode_decimal : String → Option F
  pub trunc : F → ℤ
  pub itoa : ℤ → String
  pub marshal : PaymentCreatedEvent F → Option String
  pub text : String
  pub inbox_error : Option Err
  pub inbox_id : ℤ
  pub inventory_error : Option Err

abbrev neg : ℕ → ℤ
neg zero = pos 0
neg (suc n) = negsuc n

-- The division of Go's int by 10, whose quotient is rounded towards 0.
abbrev pub price_quotient : ℤ → ℤ
price_quotient (pos n) = pos (n / 10)
price_quotient (negsuc n) = neg (suc n / 10)

unfoldable pub new_inventory_reservation : String → String → String → ℤ → Reservation
new_inventory_reservation product order_number payment_id amount = record {
  product_name = product;
  status = "reserved";
  quantity = price_quotient amount;
  order_number = order_number;
  payment_id = payment_id;
}

pub data Inserted : Type 0 where
  inserted : ℤ → Db → Inserted
  insert_failed : Err → Inserted

insert_inbox_row : Option Err → ℤ → InboxEvent → Db → Inserted
insert_inbox_row none id e db = inserted id (record db { event_inbox = db.event_inbox ++ (e ∷ []) })
insert_inbox_row (some err) id e db = insert_failed (new_non_existing_key_error err)

unfoldable pub has_order : String → List Reservation → Bool
has_order order [] = false
has_order order (inv ∷ rows) = if same inv.order_number order then true else has_order order rows

insert_inventory_row : Option Err → Reservation → Db → Inserted
insert_inventory_row none inv db =
    inserted (pos 0) (record db { inventory = db.inventory ++ (inv ∷ []) })
insert_inventory_row (some err) inv db = insert_failed (new_non_existing_key_error err)

-- InventoryRepo.Insert; the id is not used.
unfoldable pub insert_inventory : Option Err → Reservation → Db → Inserted
unfolding insert_inventory_row
insert_inventory err inv db =
    if has_order inv.order_number db.inventory
    then insert_failed (new_non_existing_key_error (pq err_duplicate_code))
    else insert_inventory_row err inv db

-- `s.inventoryRepo.Insert(ctx, tx, inv)`, whose error is dropped.
kept : Db → Inserted → Db
kept db (inserted id after) = after
kept db (insert_failed err) = db

-- The closure of Save, from the insert into the inbox on.
saved_inbox : Option Err → Reservation → Db → Inserted → Db × Unit {0} × Ran Err ℤ
unfolding kept
saved_inbox err inv db (inserted id after) =
    (kept after (insert_inventory err inv after), tt, finished id none)
saved_inbox err inv db (insert_failed e) = (
  db,
  tt,
  (if is_duplicate_key_err e
      then finished code_duplicate_key (some (new_duplicate_key_error e))
      else finished code_non_existing_key (some (new_non_existing_key_error e))),
)

module _ {F : Type 0} where
  save_closure : Io F → InboxEvent → Reservation → Db → Db × Unit {0} × Ran Err ℤ
  unfolding saved_inbox insert_inbox_row
  save_closure io e inv db =
      saved_inbox io.inventory_error inv db (insert_inbox_row io.inbox_error io.inbox_id e db)

  -- InventoryService.Save
  unfoldable pub save :
      Driver Db → Io F → InboxEvent → Reservation → Db → Db × Unit {0} × Outcome Err ℤ
  unfolding save_closure
  save d io e inv db = tx_closure d tt (save_closure io e inv) db

  -- PaymentToInventory: none is the error of the marshalling.
  to_rows :
      Io F → PaymentCreatedEvent F → String → Option String → Option (Reservation × InboxEvent)
  to_rows io ev event_type none = none
  to_rows io ev event_type (some json) = some (
    new_inventory_reservation io.text ev.order_number (io.itoa ev.id) (io.trunc ev.amount),
    record {
      inbox_event_type = event_type;
      aggregate_id = io.itoa ev.id;
      aggregate_type = "payment";
      aggregate_metadata = json;
      status = "pending";
    },
  )

  unfoldable pub payment_to_inventory :
      Io F → PaymentCreatedEvent F → String → Option (Reservation × InboxEvent)
  unfolding to_rows
  payment_to_inventory io ev event_type = to_rows io ev event_type (io.marshal ev)
