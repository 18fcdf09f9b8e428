-- ===== src/Inventory/Tests.antt =====
-- A payment of 57 that is reserved, and then delivered again.
use go_api_practice.Prelude.{true, false, none, some, [], ◌≡◌, ◌⊎◌, inl, inr, refl, arith}
use go_api_practice.Prelude.Int.{ℤ, pos}
use go_api_practice.Prelude.Run.{done}
use go_api_practice.Partition.{success, error}
use go_api_practice.Transaction.{Driver, tx_closure}
use go_api_practice.Inventory.{
  CdcPayment, Envelope, PaymentCreatedEvent, InboxEvent, Reservation, Db, Io, has_order,
  insert_inventory, save, payment_to_inventory, new_inventory_reservation,
}
use go_api_practice.Prelude.Split.{split}
use go_api_practice.Inventory.Router.{
  payment_to_event, handler_msg, handle_payment_created, get_event_type, get_payment_created_event,
  decode_msg, consume_msg,
}
use go_api_practice.Inventory.Save.{reserved, duplicate_inbox, Aborts}
use go_api_practice.Inventory.Reserved.{
  Carries, redelivered_message_changes_nothing, reported_success_is_reserved,
}

abbrev payment : CdcPayment
payment = record { id = pos 7; order_number = "a-1"; amount = "57.5"; status = "created" }

abbrev envelope : Envelope
envelope = record { before = none; after = some payment; op = "c" }

abbrev event : PaymentCreatedEvent ℤ
event = record { id = pos 7; order_number = "a-1"; amount = pos 57; status = "created" }

-- Amounts are whole numbers here.
abbrev io : Io ℤ
io = record {
  is_proto = true;
  decoder = λ value. some envelope;
  parse_float = λ s. some (pos 57);
  decode_decimal = λ s. none;
  trunc = λ n. n;
  itoa = λ n. "7";
  marshal = λ ev. some "{}";
  text = "PRODUCT";
  inbox_error = none;
  inbox_id = pos 1;
  inventory_error = none;
}

abbrev working : Driver Db
working = record {
  begin_ok = true;
  rollback_ok = true;
  commit_ok = true;
  failed_commit = λ before after. before;
}

-- The driver when a statement failed.
abbrev aborted : Driver Db
aborted = record working { commit_ok = false }

abbrev empty_db : Db
empty_db = record { event_inbox = []; inventory = [] }

abbrev row : Reservation
row = record {
  product_name = "PRODUCT";
  status = "reserved";
  quantity = pos 5;
  order_number = "a-1";
  payment_id = "7";
}

abbrev inbox : InboxEvent
inbox = record {
  inbox_event_type = "payment_created";
  aggregate_id = "7";
  aggregate_type = "payment";
  aggregate_metadata = "{}";
  status = "pending";
}

abbrev one_row : Db
one_row = reserved inbox row empty_db

carries : Carries io "cdc.public.payment" "v" row inbox
unfolding decode_msg get_event_type get_payment_created_event payment_to_inventory split
    payment_to_event new_inventory_reservation
carries = (envelope, event, refl, refl, refl, refl)

consume_first : consume_msg working io "cdc.public.payment" "v" empty_db ≡ done (one_row, success)
unfolding consume_msg handler_msg decode_msg get_event_type split payment_to_event
    handle_payment_created payment_to_inventory save tx_closure insert_inventory has_order
    new_inventory_reservation
consume_first = refl

first_Aborts : Aborts working none row empty_db
unfolding has_order
first_Aborts (inl h) = absurd (ground (arith, h))
first_Aborts (inr h) = absurd (h refl)

known_order : has_order "a-1" one_row.inventory ≡ true
unfolding has_order
known_order = refl

reported_success_is_reserved_example :
    ((one_row ≡ reserved inbox row empty_db) × (has_order "a-1" [] ≡ false))
    ⊎ ((one_row ≡ empty_db) × (duplicate_inbox none ≡ true))
reported_success_is_reserved_example =
    reported_success_is_reserved working io "cdc.public.payment" "v" row inbox empty_db one_row
      carries first_Aborts consume_first

redelivered_message_changes_nothing_example :
    consume_msg aborted io "cdc.public.payment" "v" one_row ≡ done (one_row, error)
redelivered_message_changes_nothing_example =
    redelivered_message_changes_nothing aborted io "cdc.public.payment" "v" row inbox one_row
      carries known_order (λ h. (refl, λ after. refl))
