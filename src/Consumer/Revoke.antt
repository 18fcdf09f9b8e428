-- ===== src/Consumer/Revoke.antt =====
-- revokePrtnCB: what a rebalance commits and forgets.
use mathlib.Core.Path.{subst}
use mathlib.Core.Option.{some-injective}
use go_api_practice.Prelude.{
  false, none, some, List, [], ◌∷◌, ◌≡◌, ◌↔◌, refl, sym, ◌∙◌, arith, nat_key, string_key, same,
  ◌||◌, if◌then◌else◌,
}
use go_api_practice.Prelude.Int.{pos, ltb_ℤ}
use go_api_practice.Prelude.Assoc.{is_empty, lookup, delete, lookup-insert, lookup-delete}
use go_api_practice.Prelude.Blocking.{>>=-eq-some}
use go_api_practice.Partition.{
  TopicPartition, PartitionState, FindResult, found, failed, find_latest_to_commit,
}
use go_api_practice.Consumer.{
  KafkaConsumer, Broker, Revoked, r_lock, r_unlock, w_lock, w_unlock, stopped, revoke_result,
  revoke_found, revoke_one, revoke_all, revoke_prtn_cb,
}
use go_api_practice.Consumer.Commits.{All, Committable, revoke_all-Safe}

-- Whatever partitions are revoked, in whatever order: each offset that is committed is an offset of
-- the log, for a partition that the consumer had, and no message of that partition from its last
-- committed offset up to the one now committed was pending.
pub revoke_commits_nothing_pending :
    (b : Broker) (c : KafkaConsumer) (ps : List TopicPartition) (r : Revoked)
    → revoke_prtn_cb b c ps ≡ some r
    → All (Committable c.msgs_state_map) r.to_commit
unfolding revoke_prtn_cb
revoke_commits_nothing_pending b c ps r h =
    let (q, e, k) = >>=-eq-some (revoke_all ps c []) _ h in
    subst (λ x. All (Committable c.msgs_state_map) x.to_commit) (some-injective _ _ k)
      (revoke_all-Safe c.msgs_state_map ps c [] q ((λ p old l. (old, l, refl, refl)), tt) e).1

one_result-forgets :
    (c : KafkaConsumer) (tp : TopicPartition) (p : PartitionState × FindResult)
    → c.mu ≡ record { readers = 0; writer = false }
    → (r : KafkaConsumer × List TopicPartition) × (revoke_result c [] tp p ≡ some r)
      × (r.0.mu ≡ c.mu)
      × ((lookup tp.partition r.0.msgs_state_map ≡ none)
          ↔ ((latest : TopicPartition) × (p.1 ≡ found latest)))
unfolding revoke_result w_lock w_unlock
one_result-forgets c tp (ps, failed e) free = (
  _,
  refl,
  refl,
  (
    λ h. absurd (ground (arith, h, lookup-insert tp.partition tp.partition ps c.msgs_state_map)),
    λ w. absurd (ground (arith, w.1)),
  ),
)
one_result-forgets c tp (ps, found latest) free = (
  (
    record c {
      mu = record { readers = 0; writer = false };
      msgs_state_map = delete tp.partition c.msgs_state_map;
    },
    if ltb_ℤ latest.offset (pos 0) then [] else record tp { offset = latest.offset } ∷ [],
  ),
  rw free refl,
  sym free,
  (
    λ h. (latest, refl),
    λ w. ground (arith, lookup-delete tp.partition tp.partition c.msgs_state_map),
  ),
)

revoke_one-tracked :
    (c : KafkaConsumer) (tp : TopicPartition) (ps : PartitionState)
    → c.mu ≡ record { readers = 0; writer = false }
    → lookup tp.partition c.msgs_state_map ≡ some ps
    → revoke_one c [] tp
      ≡ revoke_result
          (record c { mu = record { readers = 0; writer = false } })
          []
          tp
          (find_latest_to_commit (stopped ps))
unfolding revoke_one revoke_found r_lock r_unlock
revoke_one-tracked c tp ps free l = rw (free, l) refl

-- One tracked partition is revoked while the lock is free: the call returns with the lock free, and
-- it forgets the partition exactly if FindLatestToCommit finds an offset. With nothing to commit,
-- the revoked partition stays in the map.
pub revoke_forgets_exactly :
    (b : Broker) (c : KafkaConsumer) (tp : TopicPartition) (ps : PartitionState)
    → c.mu ≡ record { readers = 0; writer = false }
    → lookup tp.partition c.msgs_state_map ≡ some ps
    → (r : Revoked) × (revoke_prtn_cb b c (tp ∷ []) ≡ some r)
      × (r.consumer.mu ≡ c.mu)
      × ((lookup tp.partition r.consumer.msgs_state_map ≡ none)
          ↔ ((latest : TopicPartition) × ((find_latest_to_commit (stopped ps)).1 ≡ found latest)))
unfolding revoke_prtn_cb revoke_all
revoke_forgets_exactly b c tp ps free l =
    let c' = record c { mu = record { readers = 0; writer = false } } in
    let (r, e, m, f) = one_result-forgets c' tp (find_latest_to_commit (stopped ps)) refl in
    let one = revoke_one-tracked c tp ps free l ∙ e in
    (
      record {
        consumer = r.0;
        to_commit = r.1;
        commit_ok = is_empty r.1 || b.commit_offsets r.1;
        ok =
            if same c.partition_assign_strategy "cooperative-sticky"
            then b.incremental_unassign (tp ∷ [])
            else b.unassign;
      },
      rw one refl,
      m ∙ sym free,
      f,
    )
