-- ===== src/EventBus.antt =====
-- The event bus of protocol-playground/data-aggregator/event-bus.go. `T` is the data and `H` the
-- handlers. A topic of `subs` stands for the EventBusSub that subMap and subs share; `running` is the
-- number of its processEvent goroutines. An output is a value that one of them received; `none` is the
-- zero value that a closed channel gives. The call of the handler that follows a receive is not
-- modelled: with two goroutines on a topic it can come after the call for a value that was received
-- later. An operation that waits is not taken.
pub mod Topic
pub mod Delivery
pub mod Endings
mod Tests
use go_api_practice.Prelude.{
  ℕ, zero, suc, ◌+◌, ◌-◌, Bool, true, false, not, Option, none, some, List, [], ◌∷◌, ◌++◌, map,
  ◌||◌, String, string_key, if◌then◌else◌, ◌==◌, ltb, length,
}
use go_api_practice.Prelude.Assoc.{Assoc, lookup, insert}
use go_api_practice.Prelude.Run.{Run, done, waits, panics, ◌>>=◌}

-- The capacity of dataCH.
abbrev pub capacity : ℕ
capacity = 32

pub record Sub (T H : Type 0) : Type 0 where
  pub handler : H
  pub data_ch : List T
  pub running : ℕ
  pub cancelled : Bool
  pub closed : Bool

pub record Bus (T H : Type 0) : Type 0 where
  pub subs : Assoc String (Sub T H)
  pub is_active : Bool

-- What happens to a topic: a call of Subscribe or Publish, a receive of one of its goroutines, or the
-- end of one.
pub data Op (T H : Type 0) : Type 0 where
  subscribe : H → Op T H
  publish : T → Op T H
  receive : Op T H
  exit : Op T H

pub data Event (T H : Type 0) : Type 0 where
  at : String → Op T H → Event T H
  close : Event T H

abbrev pub labelled : {T : Type 0} → String → List (Option T) → List (String × Option T)
labelled topic [] = []
labelled topic (c ∷ got) = (topic, c) ∷ labelled topic got

module _ {T H : Type 0} where
  -- NewInMemoryAggregatorEventBus
  abbrev pub new_bus : Bus T H
  new_bus = record { subs = []; is_active = true }

  -- NewEventBusSub, with the goroutine that Subscribe starts.
  abbrev pub subscribed : H → Option (Sub T H) → Sub T H
  subscribed h none = record {
    handler = h;
    data_ch = [];
    running = 1;
    cancelled = false;
    closed = false;
  }
  subscribed h (some sub) = record sub { handler = h; running = sub.running + 1 }

  -- Publish
  abbrev pub publish_to : T → Option (Sub T H) → Run (Option (Sub T H))
  publish_to v none = done none
  publish_to v (some sub) =
      if sub.closed
      then panics
      else if ltb (length sub.data_ch) capacity
      then done (some (record sub { data_ch = sub.data_ch ++ (v ∷ []) }))
      else waits

  -- The case of processEvent that receives.
  abbrev pub received : Sub T H → List T → Run (Option (Sub T H) × List (Option T))
  received sub (v ∷ vs) = done (some (record sub { data_ch = vs }), some v ∷ [])
  received sub [] = if sub.closed then done (some sub, none ∷ []) else waits

  abbrev pub receive_from : Option (Sub T H) → Run (Option (Sub T H) × List (Option T))
  receive_from none = waits
  receive_from (some sub) = if sub.running == 0 then waits else received sub sub.data_ch

  -- The case of processEvent that ends, with its deferred close of the channel.
  abbrev pub exit_from : Option (Sub T H) → Run (Option (Sub T H))
  exit_from none = waits
  exit_from (some sub) =
      if sub.running == 0 || not sub.cancelled
      then waits
      else if sub.closed
      then panics
      else done (some (record sub { running = sub.running - 1; closed = true }))

  unfoldable pub run_op : Op T H → Option (Sub T H) → Run (Option (Sub T H) × List (Option T))
  run_op (subscribe h) o = done (some (subscribed h o), [])
  run_op (publish v) o = do o' ← publish_to v o; done (o', [])
  run_op receive o = receive_from o
  run_op exit o = do o' ← exit_from o; done (o', [])

  abbrev pub stays_active : Op T H → Bool → Bool
  stays_active exit b = false
  stays_active (subscribe h) b = b
  stays_active (publish v) b = b
  stays_active receive b = b

  abbrev pub store : String → Option (Sub T H) → Assoc String (Sub T H) → Assoc String (Sub T H)
  store topic none subs = subs
  store topic (some sub) subs = insert topic sub subs

  -- Close
  unfoldable pub cancel_all : Assoc String (Sub T H) → Assoc String (Sub T H)
  cancel_all [] = []
  cancel_all ((topic, sub) ∷ subs) = (topic, record sub { cancelled = true }) ∷ cancel_all subs

  unfoldable pub step : Bus T H → Event T H → Run (Bus T H × List (String × Option T))
  step eb close = done (record eb { subs = cancel_all eb.subs }, [])
  step eb (at topic op) = do
    (o, got) ← run_op op (lookup topic eb.subs)
    done (
      record { subs = store topic o eb.subs; is_active = stays_active op eb.is_active },
      labelled topic got,
    )

  -- Any interleaving, with the values that its goroutines receive.
  unfoldable pub run : Bus T H → List (Event T H) → Run (Bus T H × List (String × Option T))
  run eb [] = done (eb, [])
  run eb (e ∷ es) = do (eb', got) ← step eb e; (eb'', log) ← run eb' es; done (eb'', got ++ log)
