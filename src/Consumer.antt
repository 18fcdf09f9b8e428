-- ===== src/Consumer.antt =====
-- The partition map of a Kafka consumer: kafka-cdc/pkg/kafka/consumer.go, with the same functions in
-- kafka-outbox/internal/kafka/consumer and kafka/internal/consumer. The map is guarded by `Mu`, a
-- sync.RWMutex, whose state is modelled: a function is `none` where it waits for a lock that no
-- other call releases. The broker is a parameter. A partition's commit loop has ended where the
-- code waits for its ExitCH, so the state in the map is the one that the loop has left.

pub mod Lock
pub mod Rebalance
mod Commits
pub mod Revoke
mod Tests
use go_api_practice.Prelude.{
  ℕ, ◌+◌, ◌-◌, Bool, true, false, not, Option, none, some, List, [], ◌∷◌, ◌++◌, ◌||◌, if◌then◌else◌,
  ltb, String, nat_key, same, string_key,
}
use go_api_practice.Prelude.Int.{ℤ, pos, ltb_ℤ}
use go_api_practice.Prelude.Assoc.{Assoc, is_empty, lookup, insert, delete}
use go_api_practice.Prelude.Blocking.{◌>>=◌}
pub use go_api_practice.Prelude.Mutex.{RwMutex}
unfoldable pub use go_api_practice.Prelude.Mutex.{r_lock, r_unlock, w_lock, w_unlock}
use go_api_practice.Partition.{
  MsgState, error, TopicPartition, PartitionState, offset_beginning, FindResult, found, failed,
  new_partition_state, find_latest_to_commit, set_msg_state, receive,
}

pub record KafkaConsumer : Type 0 where
  pub mu : RwMutex
  pub msgs_state_map : Assoc ℕ PartitionState
  pub partition_assign_strategy : String

-- The calls of confluent-kafka-go: `none` and `false` are errors.
pub record Broker : Type 0 where
  pub committed : List TopicPartition → Option (List TopicPartition)
  pub commit_offsets : List TopicPartition → Bool
  pub assign : List TopicPartition → Bool
  pub incremental_assign : List TopicPartition → Bool
  pub unassign : Bool
  pub incremental_unassign : List TopicPartition → Bool

update_found :
    KafkaConsumer → TopicPartition → MsgState → RwMutex → Option PartitionState → KafkaConsumer
update_found c tp new_state mu none = record c { mu = mu }
update_found c tp new_state mu (some ps) = record c {
  mu = r_unlock mu;
  msgs_state_map = insert tp.partition (set_msg_state ps tp.offset new_state) c.msgs_state_map;
}

-- UpdateState: the early return for a missing partition keeps the read lock.
unfoldable pub update_state : KafkaConsumer → TopicPartition → MsgState → Option KafkaConsumer
unfolding update_found
update_state c tp new_state = do
  mu ← r_lock c.mu
  some (update_found c tp new_state mu (lookup tp.partition c.msgs_state_map))

append_found : KafkaConsumer → TopicPartition → Option PartitionState → KafkaConsumer
append_found c tp none = c
append_found c tp (some ps) = record c {
  msgs_state_map = insert tp.partition (receive ps tp) c.msgs_state_map;
}

-- appendMsgState
unfoldable pub append_msg_state : KafkaConsumer → TopicPartition → Option KafkaConsumer
unfolding append_found
append_msg_state c tp = do
  mu ← r_lock c.mu
  some (append_found (record c { mu = r_unlock mu }) tp (lookup tp.partition c.msgs_state_map))

-- The partition state that assignPrntCB makes: a negative offset becomes OffsetBeginning.
unfoldable pub assigned_state : TopicPartition → PartitionState
assigned_state tp =
    new_partition_state
      (record tp { offset = if ltb_ℤ tp.offset (pos 0) then offset_beginning else tp.offset })

-- The loop of assignPrntCB: the old state of a partition is cancelled, awaited and dropped.
unfoldable pub assign_all : List TopicPartition → Assoc ℕ PartitionState → Assoc ℕ PartitionState
assign_all [] m = m
assign_all (tp ∷ tps) m = assign_all tps (insert tp.partition (assigned_state tp) m)

pub or_else {ℓ} : {A : Type ℓ} → Option A → A → A
or_else none a = a
or_else (some b) a = b

-- assignPrntCB, with whether it returns no error.
unfoldable pub assign_prnt_cb :
    Broker → KafkaConsumer → List TopicPartition → Option (KafkaConsumer × Bool)
unfolding or_else
assign_prnt_cb b c partitions = do
  mu ← w_lock c.mu
  let m = assign_all (or_else (b.committed partitions) partitions) c.msgs_state_map
  let c' = record c { mu = w_unlock mu; msgs_state_map = m }
  some (
    c',
    if same c.partition_assign_strategy "cooperative-sticky"
        then b.incremental_assign partitions
        else b.assign partitions,
  )

-- The state of a partition whose commit loop was cancelled and has ended.
unfoldable pub stopped : PartitionState → PartitionState
stopped ps = record ps { cancelled = true; exited = true }

-- One round of the loop of revokePrtnCB, from the look-up on. Where FindLatestToCommit fails, the
-- round ends before the partition is removed from the map.
revoke_result :
    KafkaConsumer
    → List TopicPartition
    → TopicPartition
    → PartitionState × FindResult
    → Option (KafkaConsumer × List TopicPartition)
revoke_result c to_commit tp (ps, failed e) =
    some (record c { msgs_state_map = insert tp.partition ps c.msgs_state_map }, to_commit)
revoke_result c to_commit tp (ps, found latest) = do
  mu ← w_lock c.mu
  some (
    record c { mu = w_unlock mu; msgs_state_map = delete tp.partition c.msgs_state_map },
    if ltb_ℤ latest.offset (pos 0)
        then to_commit
        else to_commit ++ (record tp { offset = latest.offset } ∷ []),
  )

revoke_found :
    KafkaConsumer
    → List TopicPartition
    → TopicPartition
    → Option PartitionState
    → Option (KafkaConsumer × List TopicPartition)
unfolding revoke_result
revoke_found c to_commit tp none = some (c, to_commit)
revoke_found c to_commit tp (some ps) =
    revoke_result c to_commit tp (find_latest_to_commit (stopped ps))

unfoldable pub revoke_one :
    KafkaConsumer
    → List TopicPartition
    → TopicPartition
    → Option (KafkaConsumer × List TopicPartition)
unfolding revoke_found
revoke_one c to_commit tp = do
  mu ← r_lock c.mu
  revoke_found (record c { mu = r_unlock mu }) to_commit tp (lookup tp.partition c.msgs_state_map)

unfoldable pub revoke_all :
    List TopicPartition
    → KafkaConsumer
    → List TopicPartition
    → Option (KafkaConsumer × List TopicPartition)
revoke_all [] c to_commit = some (c, to_commit)
revoke_all (tp ∷ tps) c to_commit = do
  (c', to_commit') ← revoke_one c to_commit tp
  revoke_all tps c' to_commit'

-- revokePrtnCB, with the offsets that it commits, whether the broker took them, and whether it
-- returns no error. A refused commit is only logged.
pub record Revoked : Type 0 where
  pub consumer : KafkaConsumer
  pub to_commit : List TopicPartition
  pub commit_ok : Bool
  pub ok : Bool

unfoldable pub revoke_prtn_cb : Broker → KafkaConsumer → List TopicPartition → Option Revoked
revoke_prtn_cb b c partitions = do
  (c', to_commit) ← revoke_all partitions c []
  some (record {
    consumer = c';
    to_commit = to_commit;
    commit_ok = is_empty to_commit || b.commit_offsets to_commit;
    ok =
        if same c.partition_assign_strategy "cooperative-sticky"
        then b.incremental_unassign partitions
        else b.unassign;
  })

pub data RebalanceEvent : Type 0 where
  assigned_partitions : List TopicPartition → RebalanceEvent
  revoked_partitions : List TopicPartition → RebalanceEvent
  other_event : RebalanceEvent

-- rebalanceCB
unfoldable pub rebalance_cb :
    Broker → KafkaConsumer → RebalanceEvent → Option (KafkaConsumer × Bool)
rebalance_cb b c (assigned_partitions ps) = assign_prnt_cb b c ps
rebalance_cb b c (revoked_partitions ps) = do r ← revoke_prtn_cb b c ps; some (r.consumer, r.ok)
rebalance_cb b c other_event = some (c, true)
