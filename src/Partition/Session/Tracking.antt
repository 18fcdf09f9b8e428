-- ===== src/Partition/Session/Tracking.antt =====
-- The map of a partition against its specification, and what that means for the commits.
use mathlib.Core.Path.{subst}
use go_api_practice.Prelude.{
  Bool, true, false, Option, none, some, List, [], ◌∷◌, ◌≡◌, ◌↔◌, refl, sym, ap, ◌∙◌, inl, inr,
  arith,
}
use go_api_practice.Prelude.Int.{ℤ, ◌≤ℤ◌, int_key}
use go_api_practice.Prelude.Assoc.{lookup, lookup-insert}
use go_api_practice.Partition.{
  pending, TopicPartition, PartitionState, FindResult, found, failed, new_partition_state,
  find_latest_to_commit, after_commit, set_msg_state, receive, read_offset,
}
use go_api_practice.Partition.Find.{find-Found, find_fails_exactly}
use go_api_practice.Partition.Session.{
  Session, Event, deliver, report, tick, broker_ok, broker_err, cancel, done, step, run, start,
  AllAllowed, waiting_after, waiting, sent, on_tick, on_done, on_broker_ok,
}
use go_api_practice.Partition.Session.Soundness.{run-IsSound, start-IsSound}

-- The map has a pending entry at `x` exactly if `w`.
abbrev Tracks : PartitionState → ℤ → Bool → Type 0
Tracks ps x w = lookup x ps.state ≡ some pending ↔ w ≡ true

sent-Tracks :
    (s : Session) (p : PartitionState × FindResult) (x : ℤ) (w : Bool)
    → find_latest_to_commit s.ps ≡ p
    → Tracks s.ps x w
    → Tracks (sent p s).ps x w
unfolding sent
sent-Tracks s (ps', found tp) x w call t =
    let f = (find-Found s.ps ps' tp call).2 in
    ((λ e. elim (f.sub x) [ inl q ↦ cc | inr q ↦ t.0 (sym q ∙ e) ]), λ h. f.kept x (t.1 h))
sent-Tracks s (ps', failed e) x w call t =
    let same : (find_latest_to_commit s.ps).0 ≡ s.ps =
      (find_fails_exactly s.ps).2 e (ap (λ q. q.1) call) in
    subst (λ q. Tracks q x w) (sym same ∙ ap (λ q. q.0) call) t

tick-Tracks : (s : Session) (x : ℤ) (w : Bool) → Tracks s.ps x w → Tracks (step s tick).ps x w
unfolding step
tick-Tracks s x w t = by_case s.ps.exited s.ps.cancelled s.inflight
  where
    by_case :
        (exited cancelled : Bool) (inflight : Option ℤ)
        → Tracks (on_tick exited cancelled inflight s).ps x w
    by_case true cancelled inflight = t
    by_case false true inflight = t
    by_case false false (some r) = t
    by_case false false none = sent-Tracks s (find_latest_to_commit s.ps) x w refl t

step-Tracks :
    (s : Session) (e : Event) (x : ℤ) (w : Bool)
    → Tracks s.ps x w
    → Tracks (step s e).ps x (waiting_after e x w)
unfolding step waiting_after receive set_msg_state after_commit
step-Tracks s (deliver tp) x w t = (
  ground (arith, t, lookup-insert tp.offset x pending s.ps.state),
  ground (arith, t, lookup-insert tp.offset x pending s.ps.state),
)
step-Tracks s (report o m) x w t = (
  ground (arith, t, lookup-insert o x m s.ps.state),
  ground (arith, t, lookup-insert o x m s.ps.state),
)
step-Tracks s tick x w t = tick-Tracks s x w t
step-Tracks s broker_ok x w t = by_case s.inflight
  where
    by_case : (i : Option ℤ) → Tracks (on_broker_ok i s).ps x w
    by_case none = t
    by_case (some r) = t
step-Tracks s broker_err x w t = t
step-Tracks s cancel x w t = t
step-Tracks s done x w t = by_case s.ps.cancelled s.inflight
  where
    by_case : (c : Bool) (i : Option ℤ) → Tracks (on_done c i s).ps x w
    by_case true none = t
    by_case true (some r) = t
    by_case false i = t

run-Tracks :
    (s : Session) (es : List Event) (x : ℤ) (w : Bool)
    → Tracks s.ps x w
    → Tracks (run s es).ps x (waiting es x w)
unfolding run waiting
run-Tracks s [] x w t = t
run-Tracks s (e ∷ es) x w t =
    run-Tracks (step s e) es x (waiting_after e x w) (step-Tracks s e x w t)

start-Tracks : (tp : TopicPartition) (x : ℤ) → Tracks (start tp).ps x false
unfolding start new_partition_state lookup
start-Tracks tp x = ground arith

-- Over any sequence of events of a fresh assignment, the map has a pending entry at an offset
-- exactly if a message was delivered there and not reported since.
pub state_tracks_waiting :
    (tp : TopicPartition) (es : List Event) (x : ℤ)
    → (read_offset (run (start tp) es).ps x ≡ some pending) ↔ (waiting es x false ≡ true)
unfolding read_offset
state_tracks_waiting tp es x = run-Tracks (start tp) es x false (start-Tracks tp x)

-- A fresh assignment, over any events in which the broker delivers in order and handlers report
-- delivered messages: no offset committed, nor one whose commit is on its way, is past a message
-- that was delivered and not reported since.
pub commit_never_skips_waiting :
    (tp : TopicPartition) (es : List Event)
    → AllAllowed (start tp) es
    → (x : ℤ) → waiting es x false ≡ true
    → ((run (start tp) es).ps.last_commited ≤ℤ x)
      × ((r : ℤ) → (run (start tp) es).inflight ≡ some r → r ≤ℤ x)
commit_never_skips_waiting tp es a x w =
    let v = run-IsSound (start tp) es a (start-IsSound tp) in
    let p = (run-Tracks (start tp) es x false (start-Tracks tp x)).1 w in
    (v.pend_last x p, λ r e. v.pend_flight r x e p)
