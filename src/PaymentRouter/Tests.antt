-- ===== src/PaymentRouter/Tests.antt =====
-- A handler of created inventories, which counts them, and the payment server, which adds no handler.
use go_api_practice.Prelude.{ℕ, ◌+◌, Option, none, some, List, [], ◌∷◌, ◌≡◌, refl, String}
use go_api_practice.Prelude.Int.{pos}
use go_api_practice.Prelude.Assoc.{lookup}
use go_api_practice.Prelude.Split.{split}
use go_api_practice.Partition.{success, error}
use go_api_practice.AppError.{as_app_error}
use go_api_practice.Inventory.Router.{get_event_type}
use go_api_practice.PaymentRouter.{Msg, Handlers, route_msg, consume_loop}
use go_api_practice.PaymentRouter.Stops.{Stops, consume_loop_ends_with_first_error}

abbrev created : Msg
created = record { topic = "cdc.public.inventory"; value = "v"; offset = pos 0 }

abbrev unknown : Msg
unknown = record { topic = "cdc.public.payment"; value = "v"; offset = pos 1 }

abbrev parse : String → Option String
parse value = some "c"

abbrev handlers : Handlers ℕ
handlers = ("inventory_created", λ value event s. (s + 1, none)) ∷ []

abbrev msgs : List Msg
msgs = created ∷ unknown ∷ created ∷ []

one_error_ends_it :
    consume_loop parse handlers msgs 0 ≡ (1, (created, success) ∷ (unknown, error) ∷ [])
unfolding consume_loop route_msg get_event_type split lookup as_app_error
one_error_ends_it = refl

abbrev none_added : Handlers ℕ
none_added = []

no_handler : consume_loop parse none_added msgs 0 ≡ (0, (created, error) ∷ [])
unfolding consume_loop route_msg get_event_type split lookup as_app_error
no_handler = refl

consume_loop_ends_with_first_error_example :
    Stops parse handlers msgs 0 (consume_loop parse handlers msgs 0)
consume_loop_ends_with_first_error_example =
    consume_loop_ends_with_first_error parse handlers msgs 0
