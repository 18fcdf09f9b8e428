-- ===== src/Consumer/Tests.antt =====
-- Runs of a consumer with one partition: kafka-cdc/pkg/kafka/consumer.go.
use go_api_practice.Prelude.{ℕ, true, false, none, some, [], ◌∷◌, ◌≡◌, ◌↔◌, refl, nat_key}
use go_api_practice.Prelude.Int.{ℤ, pos, suc_ℤ}
use go_api_practice.Prelude.Assoc.{lookup, insert, delete}
use go_api_practice.Partition.{
  pending, success, TopicPartition, PartitionState, found, find_latest_to_commit, scan, receive,
}
use go_api_practice.Consumer.{
  RwMutex, KafkaConsumer, Broker, Revoked, r_lock, r_unlock, w_lock, w_unlock, update_state,
  append_msg_state, assign_prnt_cb, stopped, revoke_one, revoke_all, revoke_prtn_cb,
}
use go_api_practice.Consumer.Lock.{append, call, call_all, missing_partition_blocks_assignment}
use go_api_practice.Consumer.Commits.{All, Committable}
use go_api_practice.Consumer.Revoke.{revoke_commits_nothing_pending, revoke_forgets_exactly}

abbrev at : ℕ → ℤ → TopicPartition
at p o = record { topic = "orders"; partition = p; offset = o }

abbrev free : RwMutex
free = record { readers = 0; writer = false }

-- Partition 0, with offset 4 processed and 5 pending, and offset 3 committed last.
abbrev half_done : PartitionState
half_done = record {
  id = 0;
  state = (pos 4, success) ∷ (pos 5, pending) ∷ [];
  max_received = some (at 0 (pos 5));
  last_commited = pos 3;
  cancelled = false;
  exited = false;
}

abbrev consumer : KafkaConsumer
consumer = record {
  mu = free;
  msgs_state_map = (0, half_done) ∷ [];
  partition_assign_strategy = "range";
}

abbrev broker : Broker
broker = record {
  committed = λ tps. none;
  commit_offsets = λ tps. true;
  assign = λ tps. true;
  incremental_assign = λ tps. true;
  unassign = true;
  incremental_unassign = λ tps. true;
}

missing_partition_blocks_assignment_example :
    assign_prnt_cb broker
      (record consumer { mu = record { readers = 1; writer = false } })
      (at 1 (pos 0) ∷ [])
    ≡ none
unfolding update_state r_lock lookup append_msg_state r_unlock call call_all insert receive
missing_partition_blocks_assignment_example =
    missing_partition_blocks_assignment broker consumer
      (record consumer { mu = record { readers = 1; writer = false } })
      (record consumer { mu = record { readers = 1; writer = false } }) (at 1 (pos 0)) success
      (append (at 1 (pos 0)) ∷ []) (at 1 (pos 0) ∷ []) refl refl refl

-- The revoked partition is committed up to its pending message.
abbrev after_revoke : Revoked
after_revoke = record {
  consumer = record consumer { msgs_state_map = [] };
  to_commit = at 0 (pos 5) ∷ [];
  commit_ok = true;
  ok = true;
}

revoke_commits_nothing_pending_example :
    All (Committable consumer.msgs_state_map) (at 0 (pos 5) ∷ [])
unfolding revoke_prtn_cb revoke_all revoke_one r_lock lookup find_latest_to_commit stopped w_lock
    r_unlock w_unlock delete scan suc_ℤ
revoke_commits_nothing_pending_example =
    revoke_commits_nothing_pending broker consumer (at 0 (pos 0) ∷ []) after_revoke refl

revoke_forgets_exactly_example :
    (r : Revoked) × (revoke_prtn_cb broker consumer (at 0 (pos 0) ∷ []) ≡ some r)
    × (r.consumer.mu ≡ free)
    × ((lookup 0 r.consumer.msgs_state_map ≡ none) ↔ (
        (latest : TopicPartition) × ((find_latest_to_commit (stopped half_done)).1 ≡ found latest)))
unfolding lookup
revoke_forgets_exactly_example =
    revoke_forgets_exactly broker consumer (at 0 (pos 0)) half_done refl refl
