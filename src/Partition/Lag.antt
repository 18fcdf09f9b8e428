-- ===== src/Partition/Lag.antt =====
-- A processed message that no commit can reach: after everything was committed, the bookkeeping does
-- not see the next message until another one follows it.
use go_api_practice.Prelude.{some, ◌≡◌, arith}
use go_api_practice.Prelude.Int.{suc_ℤ, suc_ℤ_parts, eqb_ℤ_iff, int_key}
use go_api_practice.Prelude.Assoc.{insert, lookup-insert}
use go_api_practice.Partition.{
  pending, success, TopicPartition, PartitionState, failed, nothing_to_commit,
  find_latest_to_commit, after_commit, set_msg_state, receive, read_offset,
}

-- Once the broker has taken the commit of MaxReceived + 1, the next message, which has just that
-- offset, is entered and reported as processed, and FindLatestToCommit still finds nothing to
-- commit.
pub next_message_not_committable :
    (ps : PartitionState) (max tp : TopicPartition)
    → ps.max_received ≡ some max
    → tp.offset ≡ suc_ℤ max.offset
    → let ps' = set_msg_state (receive (after_commit ps tp.offset) tp) tp.offset success in
      (read_offset ps' tp.offset ≡ some success)
      × (find_latest_to_commit ps' ≡ (ps', failed nothing_to_commit))
unfolding read_offset set_msg_state receive after_commit find_latest_to_commit
next_message_not_committable ps max tp m e = (
  ground (
    arith,
    lookup-insert tp.offset tp.offset success (insert tp.offset pending ps.state),
    eqb_ℤ_iff tp.offset tp.offset,
  ),
  rw m (ground (arith, suc_ℤ_parts max.offset)),
)
