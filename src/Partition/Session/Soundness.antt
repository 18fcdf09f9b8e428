-- ===== src/Partition/Session/Soundness.antt =====
-- What holds over every interleaving of deliveries, reports and commits.
use mathlib.Core.Path.{subst}
use mathlib.Core.Option.{some-injective}
use go_api_practice.Prelude.{
  Bool, true, false, Option, none, some, List, [], ◌∷◌, ◌≡◌, ◌≢◌, ◌⊎◌, refl, sym, ap, ◌∙◌, inl, inr,
  arith,
}
use go_api_practice.Prelude.Int.{
  ℤ, ◌≤ℤ◌, ◌<ℤ◌, eqb_ℤ_iff, suc_ℤ, suc_ℤ_parts, pred_ℤ_parts, int_key,
}
use go_api_practice.Prelude.Assoc.{lookup, insert, lookup-insert}
use go_api_practice.Partition.{
  MsgState, pending, TopicPartition, PartitionState, FindResult, found, failed, new_partition_state,
  find_latest_to_commit, after_commit, set_msg_state, receive,
}
use go_api_practice.Partition.Find.{Found, find-Found, find_fails_exactly}
use go_api_practice.Partition.Session.{
  Session, Event, deliver, report, tick, broker_ok, broker_err, cancel, done, step, run, start,
  Allowed, AllAllowed, sent, on_tick, on_done, on_broker_ok,
}

-- The map, MaxReceived and every commit stay behind the broker's position, and no commit, taken or
-- on its way, is past a pending message.
pub record IsSound (s : Session) : Type 0 where
  pub keys : (x : ℤ) → s.position ≤ℤ x → lookup x s.ps.state ≡ none
  pub max_le : (max : TopicPartition) → s.ps.max_received ≡ some max → max.offset ≤ℤ s.position
  pub last_le : s.ps.last_commited ≤ℤ s.position
  pub flight_le : (r : ℤ) → s.inflight ≡ some r → r ≤ℤ s.position
  pub pend_last : (x : ℤ) → lookup x s.ps.state ≡ some pending → s.ps.last_commited ≤ℤ x
  pub pend_flight : (r x : ℤ) → s.inflight ≡ some r → lookup x s.ps.state ≡ some pending → r ≤ℤ x

deliver-IsSound :
    (s : Session) (tp : TopicPartition)
    → s.position ≤ℤ tp.offset
    → IsSound s
    → IsSound (step s (deliver tp))
unfolding step receive
deliver-IsSound s tp h v = record {
  keys = λ x k. ground (
    arith,
    lookup-insert tp.offset x pending s.ps.state,
    v.keys x,
    eqb_ℤ_iff tp.offset x,
    suc_ℤ_parts tp.offset,
  );
  max_le = λ max e. max_case s.ps.max_received (λ m. v.max_le m) max e;
  last_le = omega (arith, v.last_le, suc_ℤ_parts tp.offset);
  flight_le = λ r e. omega (arith, v.flight_le r e, suc_ℤ_parts tp.offset);
  pend_last = λ x e. ground (
    arith,
    lookup-insert tp.offset x pending s.ps.state,
    v.pend_last x,
    v.last_le,
    eqb_ℤ_iff tp.offset x,
  );
  pend_flight = λ r x e k. ground (
    arith,
    lookup-insert tp.offset x pending s.ps.state,
    v.pend_flight r x e,
    v.flight_le r e,
    eqb_ℤ_iff tp.offset x,
  );
}
  where
    max_case :
        (m : Option TopicPartition)
        → ((max : TopicPartition) → m ≡ some max → max.offset ≤ℤ s.position)
        → (max : TopicPartition)
        → (receive (record s.ps { max_received = m }) tp).max_received ≡ some max
        → max.offset ≤ℤ suc_ℤ tp.offset
    max_case none f max e = ground (arith, suc_ℤ_parts tp.offset)
    max_case (some m) f max e = ground (arith, suc_ℤ_parts tp.offset, f m refl)

report-IsSound :
    (s : Session) (o : ℤ) (m : MsgState)
    → o <ℤ s.position
    → m ≢ pending
    → IsSound s
    → IsSound (step s (report o m))
unfolding step set_msg_state
report-IsSound s o m h n v = record {
  keys = λ x k. ground (arith, lookup-insert o x m s.ps.state, v.keys x, eqb_ℤ_iff o x);
  max_le = v.max_le;
  last_le = v.last_le;
  flight_le = v.flight_le;
  pend_last = λ x e. v.pend_last x (older x e);
  pend_flight = λ r x e k. v.pend_flight r x e (older x k);
}
  where
    older :
        (x : ℤ)
        → lookup x (insert o m s.ps.state) ≡ some pending
        → lookup x s.ps.state ≡ some pending
    older x e = ground (arith, lookup-insert o x m s.ps.state)

lt-or-le : (a b : ℤ) → (a <ℤ b) ⊎ (b ≤ℤ a)
lt-or-le a b = omega arith

key-lt-position : (s : Session) (x : ℤ) → IsSound s → lookup x s.ps.state ≢ none → x <ℤ s.position
key-lt-position s x v h = elim (lt-or-le x s.position) [
  | inl k ↦ k
  | inr k ↦ absurd (h (v.keys x k))
]

-- The offset found is not past the broker's position.
found-le-position :
    (s : Session) {max : TopicPartition} {ps' : PartitionState} {tp : TopicPartition}
    → s.ps.max_received ≡ some max
    → Found s.ps max ps' tp
    → IsSound s
    → tp.offset ≤ℤ s.position
found-le-position s {max} {ps'} {tp} is_max f v = elim f.stop [
  | inl e ↦ rw e (v.max_le max is_max)
  | inr (inl e) ↦ omega (arith, key-lt-position s tp.offset v (λ q. cc))
  | inr (inr (y, e, h, _)) ↦ rw e (omega (arith, key-lt-position s y v h, suc_ℤ_parts y))
]

-- Nothing pending lies below the offset found.
pending-ge-found :
    (s : Session) {max : TopicPartition} {ps' : PartitionState} {tp : TopicPartition}
    → Found s.ps max ps' tp
    → IsSound s
    → (x : ℤ) → lookup x s.ps.state ≡ some pending
    → tp.offset ≤ℤ x
pending-ge-found s {tp = tp} f v x e = elim (lt-or-le x tp.offset) [
  | inl h ↦ absurd (f.passed x (v.pend_last x e) h e)
  | inr h ↦ h
]

found-IsSound :
    (s : Session) (ps' : PartitionState) (tp : TopicPartition)
    → find_latest_to_commit s.ps ≡ (ps', found tp)
    → IsSound s
    → IsSound (record s { ps = ps'; inflight = some tp.offset })
found-IsSound s ps' tp call v =
    let (max, is_max, f) = find-Found s.ps ps' tp call in
    let same_last : ps'.last_commited ≡ s.ps.last_commited = ap (λ p. p.last_commited) f.frame in
    let same_max : ps'.max_received ≡ s.ps.max_received = ap (λ p. p.max_received) f.frame in
    record {
      keys = λ x k. elim (f.sub x) [ inl e ↦ e | inr e ↦ e ∙ v.keys x k ];
      max_le = λ m e. v.max_le m (sym same_max ∙ e);
      last_le = rw same_last v.last_le;
      flight_le = λ r e.
          subst (λ q. q ≤ℤ s.position) (some-injective tp.offset r e)
            (found-le-position s is_max f v);
      pend_last = λ x e. rw same_last (v.pend_last x (before f x e));
      pend_flight = λ r x e k.
          subst (λ q. q ≤ℤ x) (some-injective tp.offset r e)
            (pending-ge-found s f v x (before f x k));
    }
  where
    before :
        {max : TopicPartition}
        → Found s.ps max ps' tp
        → (x : ℤ) → lookup x ps'.state ≡ some pending
        → lookup x s.ps.state ≡ some pending
    before f x e = elim (f.sub x) [ inl q ↦ cc | inr q ↦ sym q ∙ e ]

sent-IsSound :
    (s : Session) (p : PartitionState × FindResult)
    → find_latest_to_commit s.ps ≡ p
    → IsSound s
    → IsSound (sent p s)
unfolding sent
sent-IsSound s (ps', found tp) call v = found-IsSound s ps' tp call v
sent-IsSound s (ps', failed e) call v =
    let same : (find_latest_to_commit s.ps).0 ≡ s.ps =
      (find_fails_exactly s.ps).2 e (ap (λ q. q.1) call) in
    subst (λ q. IsSound (record s { ps = q })) (sym same ∙ ap (λ q. q.0) call) v

-- The fields `cancelled` and `exited` do not matter.
same-IsSound :
    (s : Session) (ps' : PartitionState)
    → ps'.state ≡ s.ps.state
    → ps'.max_received ≡ s.ps.max_received
    → ps'.last_commited ≡ s.ps.last_commited
    → IsSound s
    → IsSound (record s { ps = ps' })
same-IsSound s ps' e m l v = record {
  keys = λ x k. rw e (v.keys x k);
  max_le = λ max q. v.max_le max (sym m ∙ q);
  last_le = rw l v.last_le;
  flight_le = v.flight_le;
  pend_last = λ x k. rw l (v.pend_last x (rw e at k));
  pend_flight = λ r x q k. v.pend_flight r x q (rw e at k);
}

broker_ok-IsSound : (s : Session) → IsSound s → IsSound (step s broker_ok)
unfolding step after_commit
broker_ok-IsSound s v = by_case s.inflight refl
  where
    by_case : (i : Option ℤ) → s.inflight ≡ i → IsSound (on_broker_ok i s)
    by_case none e = v
    by_case (some r) e = record {
      keys = v.keys;
      max_le = λ max q. bump s.ps.max_received (λ m. v.max_le m) max q;
      last_le = v.flight_le r e;
      flight_le = λ q h. cc;
      pend_last = λ x k. v.pend_flight r x e k;
      pend_flight = λ q x h k. cc;
    }
      where
        bump :
            (m : Option TopicPartition)
            → ((max : TopicPartition) → m ≡ some max → max.offset ≤ℤ s.position)
            → (max : TopicPartition)
            → (after_commit (record s.ps { max_received = m }) r).max_received ≡ some max
            → max.offset ≤ℤ s.position
        bump none f max q = cc
        bump (some m) f max q = ground (arith, f m refl, v.flight_le r e)

tick-IsSound : (s : Session) → IsSound s → IsSound (step s tick)
unfolding step
tick-IsSound s v = by_case s.ps.exited s.ps.cancelled s.inflight
  where
    by_case :
        (exited cancelled : Bool) (inflight : Option ℤ)
        → IsSound (on_tick exited cancelled inflight s)
    by_case true cancelled inflight = v
    by_case false true inflight = same-IsSound s (record s.ps { exited = true }) refl refl refl v
    by_case false false (some r) = v
    by_case false false none = sent-IsSound s (find_latest_to_commit s.ps) refl v

done-IsSound : (s : Session) → IsSound s → IsSound (step s done)
unfolding step
done-IsSound s v = by_case s.ps.cancelled s.inflight
  where
    by_case : (cancelled : Bool) (inflight : Option ℤ) → IsSound (on_done cancelled inflight s)
    by_case true none = same-IsSound s (record s.ps { exited = true }) refl refl refl v
    by_case true (some r) = v
    by_case false inflight = v

broker_err-IsSound : (s : Session) → IsSound s → IsSound (step s broker_err)
unfolding step
broker_err-IsSound s v = record {
  keys = v.keys;
  max_le = v.max_le;
  last_le = v.last_le;
  flight_le = λ r e. cc;
  pend_last = v.pend_last;
  pend_flight = λ r x e k. cc;
}

cancel-IsSound : (s : Session) → IsSound s → IsSound (step s cancel)
unfolding step
cancel-IsSound s v = same-IsSound s (record s.ps { cancelled = true }) refl refl refl v

-- Every event that the broker and the handlers may cause keeps the session sound.
pub step-IsSound : (s : Session) (e : Event) → Allowed s e → IsSound s → IsSound (step s e)
step-IsSound s (deliver tp) a v = deliver-IsSound s tp a v
step-IsSound s (report o m) a v = report-IsSound s o m a.0 a.1 v
step-IsSound s tick a v = tick-IsSound s v
step-IsSound s broker_ok a v = broker_ok-IsSound s v
step-IsSound s broker_err a v = broker_err-IsSound s v
step-IsSound s cancel a v = cancel-IsSound s v
step-IsSound s done a v = done-IsSound s v

pub start-IsSound : (tp : TopicPartition) → IsSound (start tp)
unfolding start new_partition_state lookup
start-IsSound tp = record {
  keys = λ x k. refl;
  max_le = λ max e. ground arith;
  last_le = ground (arith, pred_ℤ_parts tp.offset);
  flight_le = λ r e. cc;
  pend_last = λ x k. cc;
  pend_flight = λ r x e k. cc;
}

pub run-IsSound : (s : Session) (es : List Event) → AllAllowed s es → IsSound s → IsSound (run s es)
unfolding run
run-IsSound s [] a v = v
run-IsSound s (e ∷ es) a v = run-IsSound (step s e) es a.1 (step-IsSound s e a.0 v)
