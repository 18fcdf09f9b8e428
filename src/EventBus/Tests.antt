-- ===== src/EventBus/Tests.antt =====
-- Two subscriptions of a topic, a publication, and the end of a goroutine.
use go_api_practice.Prelude.{
  ℕ, true, false, Option, some, List, [], ◌∷◌, ◌++◌, ◌+◌, ◌≤◌, ◌≡◌, ◌≢◌, refl, String, string_key,
}
use go_api_practice.Prelude.Assoc.{lookup, insert}
use go_api_practice.Prelude.Run.{done, panics}
use go_api_practice.EventBus.{
  Bus, Event, subscribe, publish, receive, exit, at, close, new_bus, run, step, run_op, cancel_all,
}
use go_api_practice.EventBus.Delivery.{
  data_of, received_on, queue, published, published_is_received_in_order,
}
use go_api_practice.EventBus.Endings.{
  running_of, count, op_endings, op_subscriptions, one_goroutine_of_a_topic_ends,
}

abbrev events : List (Event ℕ String)
events =
    at "pay" (publish 0)
    ∷ at "pay" (subscribe "first")
    ∷ at "pay" (publish 1)
    ∷ at "pay" (subscribe "second")
    ∷ at "pay" receive
    ∷ at "pay" (publish 2)
    ∷ close
    ∷ at "pay" exit
    ∷ []

abbrev last_bus : Bus ℕ String
last_bus = record {
  subs =
      (
        "pay",
        record {
          handler = "second";
          data_ch = 2 ∷ [];
          running = 1;
          cancelled = true;
          closed = true;
        },
      )
      ∷ [];
  is_active = false;
}

abbrev got : List (String × Option ℕ)
got = ("pay", some 1) ∷ []

run_events : run new_bus events ≡ done (last_bus, got)
unfolding run step run_op cancel_all lookup insert
run_events = refl

published_is_received_in_order_example :
    data_of (received_on "pay" got) ++ queue (lookup "pay" last_bus.subs)
    ≡ published "pay" false events
published_is_received_in_order_example =
    published_is_received_in_order "pay" last_bus events got run_events

one_goroutine_of_a_topic_ends_example :
    (running_of (lookup "pay" last_bus.subs) + count op_endings "pay" events
      ≡ count op_subscriptions "pay" events)
    × (count op_endings "pay" events ≤ 1)
    × (count op_endings "pay" events ≡ 1
        → ((v : ℕ) → step last_bus (at "pay" (publish v)) ≡ panics)
          × (running_of (lookup "pay" last_bus.subs) ≢ 0 → step last_bus (at "pay" exit) ≡ panics))
one_goroutine_of_a_topic_ends_example =
    one_goroutine_of_a_topic_ends "pay" last_bus events got run_events
