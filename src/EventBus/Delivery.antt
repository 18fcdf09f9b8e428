-- ===== src/EventBus/Delivery.antt =====
-- What is published on a topic reaches its goroutines in order.
use mathlib.Core.Path.{subst}
use go_api_practice.Prelude.{
  Bool, true, false, Option, none, some, List, [], ◌∷◌, ◌++◌, ◌-◌, ◌≡◌, ◌≢◌, ◌⊎◌, inl, inr, refl,
  sym, ap, ◌∙◌, arith, String, string_key, same, Bool-cases, if◌then◌else◌, ◌==◌, append_assoc,
}
use go_api_practice.Prelude.Assoc.{lookup}
use go_api_practice.Prelude.Run.{Run, done, waits, >>=-eq-done, done-injective}
use go_api_practice.EventBus.{
  Sub, Bus, Op, subscribe, publish, receive, exit, Event, at, close, new_bus, publish_to, received,
  receive_from, exit_from, run_op, labelled, run,
}
use go_api_practice.EventBus.Topic.{run-cons, Moves, step-Moves, after}

append_nil : {T : Type 0} (vs : List T) → vs ++ [] ≡ vs
append_nil [] = refl
append_nil (v ∷ vs) = ap (λ ws. v ∷ ws) (append_nil vs)

joined :
    {T : Type 0} (a b q q' q'' x y : List T)
    → a ++ q' ≡ q ++ x
    → b ++ q'' ≡ q' ++ y
    → (a ++ b) ++ q'' ≡ q ++ (x ++ y)
joined a b q q' q'' x y g h =
    append_assoc a b q''
    ∙ ap (λ zs. a ++ zs) h
    ∙ sym (append_assoc a q' y)
    ∙ ap (λ zs. zs ++ y) g
    ∙ append_assoc q x y

module _ {T : Type 0} where
  -- The data of what was received, less the zero values of closed channels.
  abbrev pub data_of : List (Option T) → List T
  data_of [] = []
  data_of (none ∷ cs) = data_of cs
  data_of (some v ∷ cs) = v ∷ data_of cs

  -- What was received on the topic `t`.
  abbrev pub received_on : String → List (String × Option T) → List (Option T)
  received_on t [] = []
  received_on t ((topic, c) ∷ log) =
      let cs = received_on t log in if same topic t then c ∷ cs else cs

  received_on-labelled :
      (t topic : String) (cs : List (Option T))
      → received_on t (labelled topic cs) ≡ (if same topic t then cs else [])
  received_on-labelled t topic [] = ground arith
  received_on-labelled t topic (c ∷ cs) = ground (arith, received_on-labelled t topic cs)

  received_on-append :
      (t : String) (log more : List (String × Option T))
      → received_on t (log ++ more) ≡ received_on t log ++ received_on t more
  received_on-append t [] more = refl
  received_on-append t ((topic, c) ∷ log) more = ground (arith, received_on-append t log more)

  data_of-append : (cs ds : List (Option T)) → data_of (cs ++ ds) ≡ data_of cs ++ data_of ds
  data_of-append [] ds = refl
  data_of-append (none ∷ cs) ds = data_of-append cs ds
  data_of-append (some v ∷ cs) ds = ap (λ vs. v ∷ vs) (data_of-append cs ds)

  data_of-got :
      (t topic : String) (cs : List (Option T)) (s : Bool)
      → same topic t ≡ s
      → data_of (received_on t (labelled topic cs)) ≡ (if s then data_of cs else [])
  data_of-got t topic cs true s =
      ap data_of (received_on-labelled t topic cs ∙ ap (λ b. if b then cs else []) s)
  data_of-got t topic cs false s =
      ap data_of (received_on-labelled t topic cs ∙ ap (λ b. if b then cs else []) s)

module _ {T H : Type 0} where
  abbrev pub has_sub : Option (Sub T H) → Bool
  has_sub none = false
  has_sub (some sub) = true

  abbrev pub queue : Option (Sub T H) → List T
  queue none = []
  queue (some sub) = sub.data_ch

  -- What an event publishes on a topic, which may have a subscription or not, and whether it has one
  -- afterwards.
  abbrev pub op_publishes : Bool → Op T H → List T
  op_publishes true (publish v) = v ∷ []
  op_publishes false (publish v) = []
  op_publishes b (subscribe h) = []
  op_publishes b receive = []
  op_publishes b exit = []

  abbrev pub publishes : String → Bool → Event T H → List T
  publishes t b close = []
  publishes t b (at topic op) = if same topic t then op_publishes b op else []

  abbrev pub subscribes_op : Bool → Op T H → Bool
  subscribes_op b (subscribe h) = true
  subscribes_op b (publish v) = b
  subscribes_op b receive = b
  subscribes_op b exit = b

  abbrev pub subscribes : String → Bool → Event T H → Bool
  subscribes t b close = b
  subscribes t b (at topic op) = if same topic t then subscribes_op b op else b

  -- All that is published on the topic `t` after its first subscription.
  abbrev pub published : String → Bool → List (Event T H) → List T
  published t b [] = []
  published t b (e ∷ es) = publishes t b e ++ published t (subscribes t b e) es

  -- One event keeps the order of what is queued.
  abbrev Passes : Option (Sub T H) → Option (Sub T H) → List T → List T → Bool → Type 0
  Passes o o' taken new b = (taken ++ queue o' ≡ queue o ++ new) × (has_sub o' ≡ b)

  pub publish_to-some :
      (v : T) (sub : Sub T H) (o : Option (Sub T H))
      → publish_to v (some sub) ≡ done o
      → (o ≡ some (record sub { data_ch = sub.data_ch ++ (v ∷ []) })) × (sub.closed ≡ false)
  publish_to-some v sub o h = ground arith

  pub exit_from-some :
      (sub : Sub T H) (o : Option (Sub T H))
      → exit_from (some sub) ≡ done o
      → (o ≡ some (record sub { running = sub.running - 1; closed = true }))
        × (sub.closed ≡ false)
        × (sub.cancelled ≡ true)
        × (sub.running ≢ 0)
  exit_from-some sub o h = ground arith

  -- What a receive leaves, and the value that it gives.
  abbrev pub Receives : Sub T H → Option (Sub T H) → List (Option T) → Type 0
  Receives sub w cs =
      ((v : T) × (vs : List T) × (sub.data_ch ≡ v ∷ vs)
        × (w ≡ some (record sub { data_ch = vs }))
        × (cs ≡ some v ∷ []))
      ⊎ (w ≡ some sub) × (cs ≡ none ∷ [])

  pub receive_from-some :
      (sub : Sub T H) (w : Option (Sub T H)) (cs : List (Option T))
      → receive_from (some sub) ≡ done (w, cs)
      → Receives sub w cs
  receive_from-some sub w cs h = elim (Bool-cases (sub.running == 0)) [
    | inl z ↦
        let stuck : waits ≡ done (w, cs) = sym (rw z refl) ∙ h in absurd (ground (arith, stuck))
    | inr z ↦ by_queue sub.data_ch refl (sym (rw z refl) ∙ h)
  ]
    where
      by_queue :
          (vs : List T) → sub.data_ch ≡ vs → received sub vs ≡ done (w, cs) → Receives sub w cs
      by_queue [] q r = inr (ground (arith, r))
      by_queue (v ∷ vs) q r =
          let p = done-injective _ _ r in
          inl (v, vs, q, ap (λ x. x.0) (sym p), ap (λ x. x.1) (sym p))

  at_result :
      (o x w : Option (Sub T H)) (y cs : List (Option T)) (new : List T) (b : Bool)
      → ◌≡◌ {A = Run (Option (Sub T H) × List (Option T))} (done (x, y)) (done (w, cs))
      → Passes o (after o x) (data_of y) new b
      → Passes o (after o w) (data_of cs) new b
  at_result o x w y cs new b r g =
      subst (λ q. Passes o (after o q.0) (data_of q.1) new b) (done-injective (x, y) (w, cs) r) g

  op-Passes :
      (op : Op T H) (o w : Option (Sub T H)) (cs : List (Option T))
      → run_op op o ≡ done (w, cs)
      → Passes o
          (after o w)
          (data_of cs)
          (op_publishes (has_sub o) op)
          (subscribes_op (has_sub o) op)
  unfolding run_op
  op-Passes (subscribe h) none w cs r = at_result none _ w _ cs _ _ r (refl, refl)
  op-Passes (subscribe h) (some sub) w cs r =
      at_result (some sub) _ w _ cs _ _ r (sym (append_nil sub.data_ch), refl)
  op-Passes (publish v) none w cs r = at_result none _ w _ cs _ _ r (refl, refl)
  op-Passes (publish v) (some sub) w cs r =
      let (o', p, d) = >>=-eq-done (publish_to v (some sub)) _ r in
      let (x, not_closed) = publish_to-some v sub o' p in
      at_result (some sub) o' w [] cs _ _ d (rw x (refl, refl))
  op-Passes receive none w cs r = absurd (ground (arith, r))
  op-Passes receive (some sub) w cs r = elim (receive_from-some sub w cs r) [
    | inl (v, vs, q, x, y) ↦ rw (x, y) (sym q ∙ sym (append_nil sub.data_ch), refl)
    | inr (x, y) ↦ rw (x, y) (sym (append_nil sub.data_ch), refl)
  ]
  op-Passes exit none w cs r = absurd (ground (arith, r))
  op-Passes exit (some sub) w cs r =
      let (o', p, d) = >>=-eq-done (exit_from (some sub)) _ r in
      let (x, not_closed, c, n) = exit_from-some sub o' p in
      at_result (some sub) o' w [] cs _ _ d (rw x (sym (append_nil sub.data_ch), refl))

  step-Passes :
      (t : String) (e : Event T H) (o o' : Option (Sub T H)) (got : List (String × Option T))
      → Moves t e o o' got
      → Passes o o'
          (data_of (received_on t got))
          (publishes t (has_sub o) e)
          (subscribes t (has_sub o) e)
  step-Passes t close none o' got (x, y) = rw (x, y) (refl, refl)
  step-Passes t close (some sub) o' got (x, y) = rw (x, y) (sym (append_nil sub.data_ch), refl)
  step-Passes t (at topic op) o o' got (cs, y, inl (s, (w, r, x))) =
      let (order, known) = op-Passes op o w cs r in
      rw (y, x, data_of-got t topic cs true s, s) (order, known)
  step-Passes t (at topic op) o o' got (cs, y, inr (s, x)) =
      rw (y, x, data_of-got t topic cs false s, s) (sym (append_nil (queue o)), refl)

  run-Passes :
      (t : String) (eb eb' : Bus T H) (es : List (Event T H)) (log : List (String × Option T))
      → run eb es ≡ done (eb', log)
      → data_of (received_on t log) ++ queue (lookup t eb'.subs)
        ≡ queue (lookup t eb.subs) ++ published t (has_sub (lookup t eb.subs)) es
  unfolding run
  run-Passes t eb eb' [] log h =
      let p = done-injective (eb, []) (eb', log) h in
      ap (λ q. data_of (received_on t q.1) ++ queue (lookup t q.0.subs)) (sym p)
      ∙ sym (append_nil (queue (lookup t eb.subs)))
  run-Passes t eb eb' (e ∷ es) log h =
      let (mid, got, more, first, then_on, l) = run-cons eb eb' e es log h in
      let (order, known) = step-Passes t e _ _ got (step-Moves t eb mid e got first) in
      ap (λ k. data_of (received_on t k) ++ queue (lookup t eb'.subs)) l
      ∙ ap (λ ds. ds ++ queue (lookup t eb'.subs))
          (ap data_of (received_on-append t got more)
            ∙ data_of-append (received_on t got) (received_on t more))
      ∙ joined _ _ (queue (lookup t eb.subs)) (queue (lookup t mid.subs)) _ _ _ order (
          run-Passes t mid eb' es more then_on
          ∙ ap (λ b. queue (lookup t mid.subs) ++ published t b es) known)

  -- Over any interleaving of subscriptions, publications, receives, ends of goroutines and Close, on a
  -- new bus, what the goroutines of a topic received, and then what its channel holds, is what was
  -- published on it after its first subscription, in the same order. The zero values that a closed
  -- channel gives are left out.
  pub published_is_received_in_order :
      (t : String) (eb : Bus T H) (es : List (Event T H)) (log : List (String × Option T))
      → run new_bus es ≡ done (eb, log)
      → data_of (received_on t log) ++ queue (lookup t eb.subs) ≡ published t false es
  unfolding lookup
  published_is_received_in_order t eb es log h = run-Passes t new_bus eb es log h
