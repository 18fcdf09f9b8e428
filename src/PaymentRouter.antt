-- ===== src/PaymentRouter.antt =====
-- The message router of the payment server: kafka-cdc/internal/payment/handlers/msg-router.go. `S` is
-- what the handlers work on. getEventType is the same function as in the inventory server, and is taken
-- from there; `parse` is json.Unmarshal, which gives the operation of a message.
pub mod Stops
mod Tests
use go_api_practice.Prelude.{
  Bool, true, false, not, Option, none, some, List, [], ◌∷◌, String, string_key, if◌then◌else◌,
}
use go_api_practice.Prelude.Int.{ℤ}
use go_api_practice.Prelude.Assoc.{Assoc, lookup, insert}
use go_api_practice.Partition.{MsgState, success, error}
use go_api_practice.AppError.{Err, other, is_duplicate_key_error}
use go_api_practice.Inventory.Router.{get_event_type}

pub record Msg : Type 0 where
  pub topic : String
  pub value : String
  pub offset : ℤ

-- From the value of a message and its event type.
abbrev pub Handler : Type 0 → Type 0
Handler S = String → String → S → S × Option Err

abbrev pub Handlers : Type 0 → Type 0
Handlers S = Assoc String (Handler S)

-- Whether consumeLoop takes the result of a handler for a failure.
abbrev pub is_failure : Option Err → Bool
is_failure none = false
is_failure (some err) = not (is_duplicate_key_error err)

module _ {S : Type 0} where
  -- AddHandler
  abbrev pub add_handler : Handler S → String → Handlers S → Handlers S
  add_handler h event handlers = insert event h handlers

  -- getHandler, and the call.
  abbrev pub call_handler : Msg → String → S → Option (Handler S) → S × Option Err
  call_handler msg event s none = (s, some other)
  call_handler msg event s (some h) = h msg.value event s

  abbrev pub handle_event : Handlers S → Msg → S → Option String → S × Option Err
  handle_event handlers msg s none = (s, some other)
  handle_event handlers msg s (some event) = call_handler msg event s (lookup event handlers)

  abbrev pub handle_parsed : Handlers S → Msg → S → Option String → S × Option Err
  handle_parsed handlers msg s none = (s, some other)
  handle_parsed handlers msg s (some op) = handle_event handlers msg s (get_event_type msg.topic op)

  -- handlerMsg
  unfoldable pub route_msg : (String → Option String) → Handlers S → Msg → S → S × Option Err
  route_msg parse handlers msg s = handle_parsed handlers msg s (parse msg.value)

  -- consumeLoop over the messages that MsgCH gives, with what it reports.
  unfoldable pub consume_loop :
      (String → Option String) → Handlers S → List Msg → S → S × List (Msg × MsgState)
  consume_loop parse handlers [] s = (s, [])
  consume_loop parse handlers (msg ∷ msgs) s =
      let r = route_msg parse handlers msg s in
      let rest = consume_loop parse handlers msgs r.0 in
      if is_failure r.1 then (r.0, (msg, error) ∷ []) else (rest.0, (msg, success) ∷ rest.1)
