-- ===== src/PaymentRouter/Stops.antt =====
-- The loop of the payment server ends with the first failure.
use go_api_practice.Prelude.{
  Bool, true, false, Option, List, [], ◌∷◌, ◌++◌, ◌≡◌, ◌⊎◌, inl, inr, refl, ap, String,
}
use go_api_practice.Partition.{MsgState, success, error}
use go_api_practice.PaymentRouter.{Msg, Handlers, is_failure, route_msg, consume_loop}

abbrev pub all_success : List Msg → List (Msg × MsgState)
all_success [] = []
all_success (msg ∷ msgs) = (msg, success) ∷ all_success msgs

module _ {S : Type 0} (parse : String → Option String) (handlers : Handlers S) where
  -- All messages were handled, or those before one whose handling failed, and the rest made no
  -- difference.
  abbrev pub Stops : List Msg → S → S × List (Msg × MsgState) → Type 0
  Stops msgs s r =
      (r.1 ≡ all_success msgs)
      ⊎ (before : List Msg) × (msg : Msg) × (after : List Msg) × (msgs ≡ before ++ (msg ∷ after))
        × (r.1 ≡ all_success before ++ ((msg, error) ∷ []))
        × ((more : List Msg) → consume_loop parse handlers (before ++ (msg ∷ more)) s ≡ r)

  -- consumeLoop reports every message as a success, or it reports a prefix of them as successes and the
  -- next one as an error and has ended there: whatever messages follow are neither handled nor reported.
  pub consume_loop_ends_with_first_error :
      (msgs : List Msg) (s : S) → Stops msgs s (consume_loop parse handlers msgs s)
  unfolding consume_loop
  consume_loop_ends_with_first_error [] s = inl refl
  consume_loop_ends_with_first_error (msg ∷ msgs) s =
      by_result (is_failure (route_msg parse handlers msg s).1) refl
        (consume_loop_ends_with_first_error msgs (route_msg parse handlers msg s).0)
    where
      by_result :
          (failed : Bool)
          → is_failure (route_msg parse handlers msg s).1 ≡ failed
          → Stops msgs
              (route_msg parse handlers msg s).0
              (consume_loop parse handlers msgs (route_msg parse handlers msg s).0)
          → Stops (msg ∷ msgs) s (consume_loop parse handlers (msg ∷ msgs) s)
      by_result true f rest = rw f (inr ([], msg, msgs, refl, refl, λ more. rw f refl))
      by_result false f (inl all) = rw f (inl (ap (λ log. (msg, success) ∷ log) all))
      by_result false f (inr (before, m, after, split_at, log, stops)) = rw f (
          inr (
            msg ∷ before,
            m,
            after,
            ap (λ ms. msg ∷ ms) split_at,
            ap (λ l. (msg, success) ∷ l) log,
            λ more. rw (f, stops more) refl,
          ))
