-- ===== src/Inventory/Router.antt =====
-- The way of a message: MsgRouter, PaymentHandler and ProtoMapper of
-- kafka-cdc/internal/inventory/handlers/msg.
use Prim.Native.Char.{Char}
use go_api_practice.Prelude.{
  Option, none, some, ◌||◌, String, string_key, same, if◌then◌else◌, get_elem?, length, ltb,
}
use go_api_practice.Prelude.Int.{ℤ}
use go_api_practice.Prelude.Split.{split, concat}
use go_api_practice.Prelude.Run.{Run, done, panics, ◌>>=◌}
use go_api_practice.Partition.{MsgState, success, error}
use go_api_practice.Transaction.{Driver, Outcome, returned, panicked}
use go_api_practice.AppError.{Err, other, is_duplicate_key_error, tx_error}
use go_api_practice.Inventory.{
  CdcPayment, Envelope, PaymentCreatedEvent, InboxEvent, Reservation, Db, Io, save,
  payment_to_inventory,
}

abbrev pub dot : Char
dot = "."

-- DebPaymentTopic
abbrev pub deb_payment_topic : String
deb_payment_topic = "cdc.public.payment"

abbrev pub event_type_payment_created : String
event_type_payment_created = "payment_created"

-- What the operation adds to the name of the table.
abbrev pub with_op : String → String → String
with_op event op =
    if same op "c" || same op "r"
    then concat event "_created"
    else if same op "u"
    then concat event "_updated"
    else if same op "d"
    then concat event "_deleted"
    else if same op "t"
    then concat event "_truncated"
    else event

unfoldable pub event_of : String → Option String → Option String
event_of op none = none
event_of op (some event) = some (with_op event op)

-- getEventType: none is an error.
unfoldable pub get_event_type : String → String → Option String
unfolding event_of
get_event_type topic op =
    if same topic "" || ltb (length (split dot topic)) 3
    then none
    else event_of op (get_elem? (split dot topic) 2)

-- The error that Save returns.
unfoldable pub outcome_error : Outcome Err ℤ → Option Err
outcome_error (returned id none) = none
outcome_error (returned id (some e)) = some (tx_error e)
outcome_error panicked = none

module _ {F : Type 0} where
  -- ParseFloat, and DecodeDebeziumDecimal after it.
  amount_of : Io F → String → Option F → Option F
  amount_of io amount none = io.decode_decimal amount
  amount_of io amount (some f) = some f

  to_event : CdcPayment → Option F → Option (PaymentCreatedEvent F)
  to_event cdc none = none
  to_event cdc (some f) =
      some
        (record { id = cdc.id; order_number = cdc.order_number; amount = f; status = cdc.status })

  -- paymentToEvent: none is an error.
  unfoldable pub payment_to_event : Io F → CdcPayment → Option (PaymentCreatedEvent F)
  unfolding amount_of to_event
  payment_to_event io cdc = to_event cdc (amount_of io cdc.amount (io.parse_float cdc.amount))

  mapped_before : Io F → PaymentCreatedEvent F → Option CdcPayment → Option (PaymentCreatedEvent F)
  mapped_before io after none = some after
  mapped_before io after (some before) = elim (payment_to_event io before) [
    | none ↦ none
    | some b ↦ some after
  ]

  mapped_after :
      Io F → Option CdcPayment → Option (PaymentCreatedEvent F) → Option (PaymentCreatedEvent F)
  mapped_after io before none = none
  mapped_after io before (some after) = mapped_before io after before

  -- getPaymentCreatedEvent, as far as its `After`: without one it panics.
  unfoldable pub get_payment_created_event :
      Io F → Option CdcPayment → Option CdcPayment → Run (Option (PaymentCreatedEvent F))
  unfolding mapped_after mapped_before
  get_payment_created_event io before none = panics
  get_payment_created_event io before (some after) =
      done (mapped_after io before (payment_to_event io after))

  unfoldable pub saved_rows :
      Driver Db → Io F → Db → Option (Reservation × InboxEvent) → Db × Option Err
  unfolding outcome_error
  saved_rows d io db none = (db, some other)
  saved_rows d io db (some (inv, inbox)) =
      let r = save d io inbox inv db in (r.0, outcome_error r.2)

  -- PaymentHandler.handlePaymentCreated
  unfoldable pub handle_payment_created :
      Driver Db → Io F → PaymentCreatedEvent F → String → Db → Db × Option Err
  unfolding saved_rows
  handle_payment_created d io ev event_type db =
      saved_rows d io db (payment_to_inventory io ev event_type)

  unfoldable pub handled :
      Driver Db → Io F → String → Db → Option (PaymentCreatedEvent F) → Db × Option Err
  handled d io event_type db none = (db, some other)
  handled d io event_type db (some ev) = handle_payment_created d io ev event_type db

  unfoldable pub payment_created : Driver Db → Io F → Envelope → String → Db → Run (Db × Option Err)
  unfolding handled get_payment_created_event
  payment_created d io envelope event_type db = do
    ev ← get_payment_created_event io envelope.before envelope.after
    done (handled d io event_type db ev)

  -- The switch on the event type.
  unfoldable pub routed : Driver Db → Io F → Envelope → Db → Option String → Run (Db × Option Err)
  unfolding payment_created
  routed d io envelope db none = done (db, some other)
  routed d io envelope db (some event_type) =
      if same event_type event_type_payment_created
      then payment_created d io envelope event_type db
      else done (db, none)

  -- decodeMsg, with decodePayment: none is an error.
  unfoldable pub decode_msg : Io F → String → String → Option Envelope
  decode_msg io topic value =
      if same topic deb_payment_topic
      then (if io.is_proto then io.decoder value else none)
      else none

  unfoldable pub decoded : Driver Db → Io F → String → Db → Option Envelope → Run (Db × Option Err)
  unfolding routed
  decoded d io topic db none = done (db, some other)
  decoded d io topic db (some envelope) = routed d io envelope db (get_event_type topic envelope.op)

  -- handlerMsg
  unfoldable pub handler_msg : Driver Db → Io F → String → String → Db → Run (Db × Option Err)
  unfolding decoded
  handler_msg d io topic value db = decoded d io topic db (decode_msg io topic value)

-- What consumeLoop reports with UpdateState.
abbrev pub report : Option Err → MsgState
report none = success
report (some err) = if is_duplicate_key_error err then success else error

module _ {F : Type 0} where
  -- The goroutine that consumeLoop starts for a message.
  unfoldable pub consume_msg : Driver Db → Io F → String → String → Db → Run (Db × MsgState)
  consume_msg d io topic value db = do
    (db', err) ← handler_msg d io topic value db
    done (db', report err)
