-- ===== src/EventBus/Topic.antt =====
-- A step of the bus, seen from one topic.
use go_api_practice.Prelude.{
  true, false, Option, none, some, List, [], ◌∷◌, ◌++◌, ◌≡◌, ◌⊎◌, inl, inr, refl, sym, ap, ◌∙◌,
  arith, String, string_key, same, same_iff, Bool-cases, if◌then◌else◌,
}
use go_api_practice.Prelude.Assoc.{Assoc, lookup, lookup-insert}
use go_api_practice.Prelude.Run.{done, >>=-eq-done, done-injective}
use go_api_practice.EventBus.{
  Sub, Bus, Event, at, close, run_op, store, cancel_all, labelled, step, run,
}

module _ {T H : Type 0} where
  abbrev pub cancelled_sub : Option (Sub T H) → Option (Sub T H)
  cancelled_sub none = none
  cancelled_sub (some sub) = some (record sub { cancelled = true })

  pub lookup-cancel_all :
      (t : String) (subs : Assoc String (Sub T H))
      → lookup t (cancel_all subs) ≡ cancelled_sub (lookup t subs)
  unfolding lookup cancel_all
  lookup-cancel_all t [] = refl
  lookup-cancel_all t ((topic, sub) ∷ subs) = elim (Bool-cases (same topic t)) [
    | inl s ↦ rw s refl
    | inr s ↦ rw s (lookup-cancel_all t subs)
  ]

  abbrev pub after : Option (Sub T H) → Option (Sub T H) → Option (Sub T H)
  after o none = o
  after o (some sub) = some sub

  lookup-store :
      (topic t : String) (w : Option (Sub T H)) (subs : Assoc String (Sub T H))
      → lookup t (store topic w subs)
        ≡ (if same topic t then after (lookup t subs) w else lookup t subs)
  lookup-store topic t none subs = ground arith
  lookup-store topic t (some sub) subs = lookup-insert topic t sub subs

  -- What an event does to the topic `t`, which has the subscription `o` before and `o'` after it.
  abbrev pub Moves :
      String → Event T H → Option (Sub T H) → Option (Sub T H) → List (String × Option T) → Type 0
  Moves t close o o' got = (o' ≡ cancelled_sub o) × (got ≡ [])
  Moves t (at topic op) o o' got =
      (cs : List (Option T)) × (got ≡ labelled topic cs)
      × (((same topic t ≡ true)
            × ((w : Option (Sub T H)) × (run_op op o ≡ done (w, cs)) × (o' ≡ after o w)))
          ⊎ ((same topic t ≡ false) × (o' ≡ o)))

  pub step-Moves :
      (t : String) (eb eb' : Bus T H) (e : Event T H) (got : List (String × Option T))
      → step eb e ≡ done (eb', got)
      → Moves t e (lookup t eb.subs) (lookup t eb'.subs) got
  unfolding step
  step-Moves t eb eb' close got h =
      let p = done-injective _ _ h in
      (ap (λ q. lookup t q.0.subs) (sym p) ∙ lookup-cancel_all t eb.subs, ap (λ q. q.1) (sym p))
  step-Moves t eb eb' (at topic op) got h =
      let (r, m, d) = >>=-eq-done (run_op op (lookup topic eb.subs)) _ h in
      let p = done-injective _ _ d in
      let there : lookup t eb'.subs
          ≡ (if same topic t then after (lookup t eb.subs) r.0 else lookup t eb.subs) =
        ap (λ q. lookup t q.0.subs) (sym p) ∙ lookup-store topic t r.0 eb.subs in
      (
        r.1,
        ap (λ q. q.1) (sym p),
        elim (Bool-cases (same topic t)) [
          | inl s ↦ inl (
            s,
            (
              r.0,
              ap (λ k. run_op op (lookup k eb.subs)) (sym ((same_iff topic t).0 s)) ∙ m,
              there ∙ ap (λ b. if b then after (lookup t eb.subs) r.0 else lookup t eb.subs) s,
            ),
          )
          | inr s ↦
              inr (
                s,
                there ∙ ap (λ b. if b then after (lookup t eb.subs) r.0 else lookup t eb.subs) s,
              )
        ],
      )

  -- A run that starts with an event.
  pub run-cons :
      (eb eb' : Bus T H) (e : Event T H) (es : List (Event T H)) (log : List (String × Option T))
      → run eb (e ∷ es) ≡ done (eb', log)
      → (mid : Bus T H) × (got : List (String × Option T)) × (more : List (String × Option T))
        × (step eb e ≡ done (mid, got))
        × (run mid es ≡ done (eb', more))
        × (log ≡ got ++ more)
  unfolding run
  run-cons eb eb' e es log h =
      let (r, m, d) = >>=-eq-done (step eb e) _ h in
      let (r', m', d') = >>=-eq-done (run r.0 es) _ d in
      let p = done-injective (r'.0, r.1 ++ r'.1) (eb', log) d' in
      (r.0, r.1, r'.1, m, m' ∙ ap (λ b. done (b, r'.1)) (ap (λ q. q.0) p), ap (λ q. q.1) (sym p))
