-- ===== src/EventBus/Endings.antt =====
-- How the goroutines of a topic end.
use mathlib.Core.Path.{subst}
use go_api_practice.Prelude.{
  ℕ, ◌+◌, ◌≤◌, true, false, Option, none, some, List, [], ◌∷◌, ◌≡◌, ◌≢◌, inl, inr, refl, sym, ◌∙◌,
  arith, String, string_key, same, if◌then◌else◌, ◌==◌, ==_iff,
}
use go_api_practice.Prelude.Assoc.{lookup}
use go_api_practice.Prelude.Run.{Run, done, panics, >>=-eq-done, done-injective}
use go_api_practice.EventBus.{
  Sub, Bus, Op, subscribe, publish, receive, exit, Event, at, close, new_bus, publish_to, exit_from,
  run_op, step, run,
}
use go_api_practice.EventBus.Topic.{run-cons, Moves, step-Moves, after}
use go_api_practice.EventBus.Delivery.{publish_to-some, exit_from-some, receive_from-some}

module _ {T H : Type 0} where
  abbrev pub op_subscriptions : Op T H → ℕ
  op_subscriptions (subscribe h) = 1
  op_subscriptions (publish v) = 0
  op_subscriptions receive = 0
  op_subscriptions exit = 0

  abbrev pub op_endings : Op T H → ℕ
  op_endings (subscribe h) = 0
  op_endings (publish v) = 0
  op_endings receive = 0
  op_endings exit = 1

  -- How often `f` says, over the events of the topic `t`.
  abbrev pub count : (Op T H → ℕ) → String → List (Event T H) → ℕ
  count f t [] = 0
  count f t (close ∷ es) = count f t es
  count f t (at topic op ∷ es) = let n = count f t es in if same topic t then f op + n else n

  abbrev pub running_of : Option (Sub T H) → ℕ
  running_of none = 0
  running_of (some sub) = sub.running

  -- With `n` subscriptions and `m` ends so far.
  abbrev pub Counted : Option (Sub T H) → ℕ → ℕ → Type 0
  Counted none n m = (n ≡ 0) × (m ≡ 0)
  Counted (some sub) n m =
      (sub.running + m ≡ n)
      × (m ≡ (if sub.closed then 1 else 0))
      × (sub.closed ≡ true → sub.cancelled ≡ true)

  at_run_result :
      (o x w : Option (Sub T H)) (y cs : List (Option T)) (n m : ℕ)
      → ◌≡◌ {A = Run (Option (Sub T H) × List (Option T))} (done (x, y)) (done (w, cs))
      → Counted (after o x) n m
      → Counted (after o w) n m
  at_run_result o x w y cs n m r g =
      subst (λ q. Counted (after o q.0) n m) (done-injective (x, y) (w, cs) r) g

  op-Counted :
      (op : Op T H) (o w : Option (Sub T H)) (cs : List (Option T)) (n m : ℕ)
      → run_op op o ≡ done (w, cs)
      → Counted o n m
      → Counted (after o w) (n + op_subscriptions op) (m + op_endings op)
  unfolding run_op
  op-Counted (subscribe h) none w cs n m r (a, b) =
      at_run_result none _ w _ cs _ _ r
        (ground (arith, a, b), ground (arith, a, b), λ c. absurd (ground (arith, c)))
  op-Counted (subscribe h) (some sub) w cs n m r (a, b, c) =
      at_run_result (some sub) _ w _ cs _ _ r (omega (arith, a), omega arith ∙ b, c)
  op-Counted (publish v) none w cs n m r (a, b) =
      at_run_result none _ w _ cs _ _ r (omega (arith, a), omega (arith, b))
  op-Counted (publish v) (some sub) w cs n m r (a, b, c) =
      let (o', p, d) = >>=-eq-done (publish_to v (some sub)) _ r in
      let (x, not_closed) = publish_to-some v sub o' p in
      at_run_result (some sub) o' w [] cs _ _ d (rw x (omega (arith, a), omega arith ∙ b, c))
  op-Counted receive none w cs n m r g = absurd (ground (arith, r))
  op-Counted receive (some sub) w cs n m r (a, b, c) = elim (receive_from-some sub w cs r) [
    | inl (v, vs, q, x, y) ↦ rw x (omega (arith, a), omega arith ∙ b, c)
    | inr (x, y) ↦ rw x (omega (arith, a), omega arith ∙ b, c)
  ]
  op-Counted exit none w cs n m r g = absurd (ground (arith, r))
  op-Counted exit (some sub) w cs n m r (a, b, c) =
      let (o', p, d) = >>=-eq-done (exit_from (some sub)) _ r in
      let (x, open_ch, k, some_run) = exit_from-some sub o' p in
      let none_yet : m ≡ 0 = ground (arith, b, open_ch) in
      at_run_result (some sub) o' w [] cs _ _ d
        (rw x (omega (arith, a, some_run, none_yet), omega (arith, none_yet), λ z. k))

  step-Counted :
      (t : String) (e : Event T H) (es : List (Event T H)) (o o' : Option (Sub T H))
      (got : List (String × Option T)) (n m : ℕ)
      → Moves t e o o' got
      → Counted o n m
      → (n' : ℕ) × (m' : ℕ) × Counted o' n' m'
        × (n + count op_subscriptions t (e ∷ es) ≡ n' + count op_subscriptions t es)
        × (m + count op_endings t (e ∷ es) ≡ m' + count op_endings t es)
  step-Counted t close es none o' got n m (x, y) g = (n, m, rw x g, refl, refl)
  step-Counted t close es (some sub) o' got n m (x, y) (a, b, c) =
      (n, m, rw x (a, b, λ z. refl), refl, refl)
  step-Counted t (at topic op) es o o' got n m (cs, y, inl (s, (w, r, x))) g = (
    n + op_subscriptions op,
    m + op_endings op,
    rw x (op-Counted op o w cs n m r g),
    rw s (omega arith),
    rw s (omega arith),
  )
  step-Counted t (at topic op) es o o' got n m (cs, y, inr (s, x)) g =
      (n, m, rw x g, rw s refl, rw s refl)

  run-Counted :
      (t : String) (eb eb' : Bus T H) (es : List (Event T H)) (log : List (String × Option T))
      (n m : ℕ)
      → run eb es ≡ done (eb', log)
      → Counted (lookup t eb.subs) n m
      → Counted (lookup t eb'.subs) (n + count op_subscriptions t es) (m + count op_endings t es)
  unfolding run
  run-Counted t eb eb' [] log n m h g =
      let p = done-injective (eb, []) (eb', log) h in
      let e : n + 0 ≡ n = omega arith in
      let e' : m + 0 ≡ m = omega arith in
      let z : Counted (lookup t eb.subs) (n + 0) (m + 0) = rw (e, e') g in
      subst (λ q. Counted (lookup t q.0.subs) (n + 0) (m + 0)) p z
  run-Counted t eb eb' (e ∷ es) log n m h g =
      let (mid, got, more, first, then_on, l) = run-cons eb eb' e es log h in
      let (n', m', g', a, b) =
        step-Counted t e es _ _ got n m (step-Moves t eb mid e got first) g in
      subst (λ k. Counted (lookup t eb'.subs) k (m + count op_endings t (e ∷ es))) (sym a)
        (subst (λ k. Counted (lookup t eb'.subs) (n' + count op_subscriptions t es) k) (sym b)
          (run-Counted t mid eb' es more n' m' then_on g'))

  -- With `n` subscriptions and `m` ends: what the next ones come to.
  abbrev pub Ended : Option (Sub T H) → ℕ → ℕ → Type 0
  Ended o n m =
      (running_of o + m ≡ n)
      × (m ≤ 1)
      × (m ≡ 1
          → ((v : T) → run_op (publish v) o ≡ panics) × (running_of o ≢ 0 → run_op exit o ≡ panics))

  Counted-Ended : (o : Option (Sub T H)) (n m : ℕ) → Counted o n m → Ended o n m
  unfolding run_op
  Counted-Ended none n m (a, b) =
      (omega (arith, a, b), omega (arith, b), λ e. absurd (omega (arith, b, e)))
  Counted-Ended (some sub) n m (a, b, c) = (
    a,
    ground (arith, b),
    λ e.
        let shut : sub.closed ≡ true = ground (arith, b, e) in
        (
          (λ v. rw shut refl),
          λ r.
              let some_run : (sub.running == 0) ≡ false = ground (arith, r, ==_iff sub.running 0) in
              rw (shut, some_run, c shut) refl,
        ),
  )

  -- Over any interleaving of subscriptions, publications, receives, ends of goroutines and Close, on a
  -- new bus, that does not panic, a topic has a goroutine for each of its subscriptions but those that
  -- ended, and at most one has ended. Once one has, every publication on the topic panics, and so does
  -- the end of the next goroutine, if there is one.
  pub one_goroutine_of_a_topic_ends :
      (t : String) (eb : Bus T H) (es : List (Event T H)) (log : List (String × Option T))
      → run new_bus es ≡ done (eb, log)
      → (running_of (lookup t eb.subs) + count op_endings t es ≡ count op_subscriptions t es)
        × (count op_endings t es ≤ 1)
        × (count op_endings t es ≡ 1
            → ((v : T) → step eb (at t (publish v)) ≡ panics)
              × (running_of (lookup t eb.subs) ≢ 0 → step eb (at t exit) ≡ panics))
  unfolding lookup step
  one_goroutine_of_a_topic_ends t eb es log h =
      let n = count op_subscriptions t es in
      let m = count op_endings t es in
      let e : 0 + n ≡ n = omega arith in
      let e' : 0 + m ≡ m = omega arith in
      let counted : Counted (lookup t eb.subs) n m =
        rw (e, e') at (run-Counted t new_bus eb es log 0 0 h (refl, refl)) in
      let (all, most, next) = Counted-Ended (lookup t eb.subs) n m counted in
      (all, most, λ e. ((λ v. rw ((next e).0 v) refl), λ r. rw ((next e).1 r) refl))
