-- ===== src/Partition.antt =====
-- The offset bookkeeping of one Kafka partition: kafka-cdc/pkg/kafka/partition-state.go, with the
-- same file in kafka-outbox/internal/kafka/consumer and kafka/internal/consumer. An offset is an
-- int64 of the broker, here an integer: `commit_in_range` says that nothing is computed past
-- MaxReceived + 1. The context and the channels of the commit loop are the fields `cancelled` and
-- `exited`; `Mu` is held over each function below, so each is one step.
mod Scan
pub mod Find
pub mod Session
mod Lag
pub mod Loop
mod Tests
use go_api_practice.Prelude.{
  ℕ, zero, suc, ◌+◌, ◌-◌, Bool, true, false, Option, none, some, [], ◌||◌, if◌then◌else◌, String,
}
use go_api_practice.Prelude.Int.{
  ℤ, pos, negsuc, pos_part, neg_part, ltb_ℤ, eqb_ℤ, suc_ℤ, pred_ℤ, int_key,
}
use go_api_practice.Prelude.Assoc.{Assoc, is_empty, lookup, insert, delete}

pub data MsgState : Type 0 where
  pending success error : MsgState

pub record TopicPartition : Type 0 where
  pub topic : String
  pub partition : ℕ
  pub offset : ℤ

-- kafka.OffsetBeginning
abbrev pub offset_beginning : ℤ
offset_beginning = negsuc 1

pub record PartitionState : Type 0 where
  pub id : ℕ
  pub state : Assoc ℤ MsgState
  pub max_received : Option TopicPartition
  pub last_commited : ℤ
  pub cancelled : Bool
  pub exited : Bool

pub data FindError : Type 0 where
  max_received_nil : FindError
  nothing_to_commit : FindError

pub data FindResult : Type 0 where
  found : TopicPartition → FindResult
  failed : FindError → FindResult

unfoldable pub new_partition_state : TopicPartition → PartitionState
new_partition_state tp = record {
  id = tp.partition;
  state = [];
  max_received = some tp;
  last_commited =
      if eqb_ℤ tp.offset offset_beginning || ltb_ℤ tp.offset (pos 0)
      then negsuc 0
      else pred_ℤ tp.offset;
  cancelled = false;
  exited = false;
}

-- How often `for offset := last; offset <= max; offset++` runs its body.
abbrev pub rounds : ℤ → ℤ → ℕ
rounds last max = (pos_part max + neg_part last + 1) - (pos_part last + neg_part max)

-- The loop, with the rounds left, the current offset, `ps.State` and `latestToCommit.Offset`.
unfoldable pub scan : ℕ → ℤ → Assoc ℤ MsgState → ℤ → Assoc ℤ MsgState × ℤ
scan zero offset st latest = (st, latest)
scan (suc n) offset st latest = elim (lookup offset st) [
  | none ↦ scan n (suc_ℤ offset) st latest
  | some pending ↦ (st, offset)
  | some _ ↦ elim (is_empty (delete offset st)) [
    | true ↦ (delete offset st, suc_ℤ offset)
    | false ↦ scan n (suc_ℤ offset) (delete offset st) latest
  ]
]

find_in : PartitionState → Option TopicPartition → PartitionState × FindResult
find_in ps none = (ps, failed max_received_nil)
find_in ps (some max) =
    let r = scan (rounds ps.last_commited max.offset) ps.last_commited ps.state max.offset in
    if eqb_ℤ ps.last_commited max.offset
    then (ps, failed nothing_to_commit)
    else (record ps { state = r.0 }, found (record max { offset = r.1 }))

-- FindLatestToCommit
unfoldable pub find_latest_to_commit : PartitionState → PartitionState × FindResult
unfolding find_in
find_latest_to_commit ps = find_in ps ps.max_received

bump_max : Option TopicPartition → ℤ → Option TopicPartition
bump_max none last = none
bump_max (some max) last =
    some (if ltb_ℤ max.offset last then record max { offset = last } else max)

-- What commitOffsetLoop writes once the broker has taken the commit.
unfoldable pub after_commit : PartitionState → ℤ → PartitionState
unfolding bump_max
after_commit ps offset = record ps {
  last_commited = offset;
  max_received = bump_max ps.max_received offset;
}

unfoldable pub read_offset : PartitionState → ℤ → Option MsgState
read_offset ps offset = lookup offset ps.state

-- The write of KafkaConsumer.UpdateState to the partition.
unfoldable pub set_msg_state : PartitionState → ℤ → MsgState → PartitionState
set_msg_state ps offset new_state = record ps { state = insert offset new_state ps.state }

raise_max : Option TopicPartition → TopicPartition → Option TopicPartition
raise_max none tp = some tp
raise_max (some max) tp = if ltb_ℤ max.offset tp.offset then some tp else some max

-- The write of KafkaConsumer.appendMsgState to the partition.
unfoldable pub receive : PartitionState → TopicPartition → PartitionState
unfolding raise_max
receive ps tp = record ps {
  state = insert tp.offset pending ps.state;
  max_received = raise_max ps.max_received tp;
}
