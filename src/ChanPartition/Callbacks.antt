-- ===== src/ChanPartition/Callbacks.antt =====
-- The rebalance callbacks of kafka-chans/internal/consumer/consumer.go. `Broker` and the events are those
-- of Consumer. A callback is one step here; a partition's commit loop has ended where the code waits for
-- its exitCH, and so has acceptMsgLoop, with what its channels still hold.
use go_api_practice.Prelude.{
  ℕ, Bool, true, Option, none, some, List, [], ◌∷◌, ◌++◌, ◌||◌, String, string_key, nat_key, same,
  if◌then◌else◌,
}
use go_api_practice.Prelude.Int.{ℤ, pos, ltb_ℤ, int_key}
use go_api_practice.Prelude.Assoc.{Assoc, is_empty, lookup, insert, delete}
use go_api_practice.Partition.{TopicPartition, offset_beginning}
use go_api_practice.Consumer.{
  Broker, RebalanceEvent, assigned_partitions, revoked_partitions, other_event,
}
use go_api_practice.ChanPartition.{ChanState, new_chan_state, find_latest_sized}

pub record ChanConsumer : Type 0 where
  pub msgs_state_map : Assoc ℕ ChanState
  pub partition_assign_strategy : String

-- The partition state that assignPrntCB makes.
unfoldable pub assigned_chan_state : TopicPartition → ChanState
assigned_chan_state tp =
    new_chan_state
      (record tp { offset = if ltb_ℤ tp.offset (pos 0) then offset_beginning else tp.offset })

-- The loop of assignPrntCB: an old state is cancelled and dropped.
unfoldable pub assign_chan_states : List TopicPartition → Assoc ℕ ChanState → Assoc ℕ ChanState
assign_chan_states [] m = m
assign_chan_states (tp ∷ tps) m =
    assign_chan_states tps (insert tp.partition (assigned_chan_state tp) m)

abbrev pub is_sticky : ChanConsumer → Bool
is_sticky c = same c.partition_assign_strategy "cooperative-sticky"

abbrev pub committed_or : Option (List TopicPartition) → List TopicPartition → List TopicPartition
committed_or none partitions = partitions
committed_or (some committed) partitions = committed

-- assignPrntCB, with whether it returns no error.
unfoldable pub assign_chan_cb : Broker → ChanConsumer → List TopicPartition → ChanConsumer × Bool
assign_chan_cb b c partitions = (
  record c {
    msgs_state_map =
        assign_chan_states (committed_or (b.committed partitions) partitions) c.msgs_state_map;
  },
  if is_sticky c then b.incremental_assign partitions else b.assign partitions,
)

-- A round of the loop of revokePrtnCB.
abbrev pub revoke_chan_result :
    Assoc ℕ ChanState
    → List TopicPartition
    → TopicPartition
    → ChanState × Option ℤ
    → Assoc ℕ ChanState × List TopicPartition
revoke_chan_result m to_commit tp (ps, none) = (insert tp.partition ps m, to_commit)
revoke_chan_result m to_commit tp (ps, some offset) = (
  delete tp.partition m,
  if ltb_ℤ offset (pos 0) then to_commit else to_commit ++ (record tp { offset = offset } ∷ []),
)

abbrev pub revoke_chan_found :
    Assoc ℕ ChanState
    → List TopicPartition
    → TopicPartition
    → Option ChanState
    → Assoc ℕ ChanState × List TopicPartition
revoke_chan_found m to_commit tp none = (m, to_commit)
revoke_chan_found m to_commit tp (some ps) =
    revoke_chan_result m to_commit tp (find_latest_sized ps)

unfoldable pub revoke_chan_states :
    List TopicPartition
    → Assoc ℕ ChanState
    → List TopicPartition
    → Assoc ℕ ChanState × List TopicPartition
revoke_chan_states [] m to_commit = (m, to_commit)
revoke_chan_states (tp ∷ tps) m to_commit =
    let r = revoke_chan_found m to_commit tp (lookup tp.partition m) in
    revoke_chan_states tps r.0 r.1

-- revokePrtnCB, with the offsets that it commits, whether the broker took them, and whether it returns
-- no error.
pub record ChanRevoked : Type 0 where
  pub consumer : ChanConsumer
  pub to_commit : List TopicPartition
  pub commit_ok : Bool
  pub ok : Bool

unfoldable pub revoke_chan_cb : Broker → ChanConsumer → List TopicPartition → ChanRevoked
revoke_chan_cb b c partitions =
    let r = revoke_chan_states partitions c.msgs_state_map [] in
    record {
      consumer = record c { msgs_state_map = r.0 };
      to_commit = r.1;
      commit_ok = is_empty r.1 || b.commit_offsets r.1;
      ok = if is_sticky c then b.incremental_unassign partitions else b.unassign;
    }

-- rebalanceCB
unfoldable pub rebalance_chan_cb : Broker → ChanConsumer → RebalanceEvent → ChanConsumer × Bool
rebalance_chan_cb b c (assigned_partitions ps) = assign_chan_cb b c ps
rebalance_chan_cb b c (revoked_partitions ps) = let r = revoke_chan_cb b c ps in (r.consumer, r.ok)
rebalance_chan_cb b c other_event = (c, true)
