-- ===== src/Partition/Tests.antt =====
-- Runs of the bookkeeping of kafka-cdc/pkg/kafka/partition-state.go on small partitions.
use go_api_practice.Prelude.{true, false, none, some, List, [], ◌∷◌, ◌≡◌, ◌≢◌, ◌↔◌, refl, arith}
use go_api_practice.Prelude.Int.{ℤ, pos, negsuc, ◌≤ℤ◌, suc_ℤ}
use go_api_practice.Partition.{
  MsgState, pending, success, TopicPartition, PartitionState, found, failed, nothing_to_commit,
  find_latest_to_commit, read_offset, after_commit, set_msg_state, receive, scan, rounds,
}
use go_api_practice.Prelude.Assoc.{Assoc, lookup, delete}
use go_api_practice.Partition.Find.{find_never_passes_pending, commit_in_range}
use go_api_practice.Partition.Session.{
  Event, deliver, report, tick, broker_ok, start, run, step, waiting, waiting_after,
}
use go_api_practice.Partition.Session.Tracking.{state_tracks_waiting, commit_never_skips_waiting}
use go_api_practice.Partition.Loop.{LoopRun, find_loop_terminates}
use go_api_practice.Partition.Lag.{next_message_not_committable}

abbrev at : ℤ → TopicPartition
at o = record { topic = "orders"; partition = 3; offset = o }

-- Offsets 0 and 1 are processed, 2 is pending, and nothing is committed yet.
abbrev two_done : PartitionState
two_done = record {
  id = 3;
  state = (pos 0, success) ∷ (pos 1, success) ∷ (pos 2, pending) ∷ [];
  max_received = some (at (pos 2));
  last_commited = negsuc 0;
  cancelled = false;
  exited = false;
}

two_done_found :
    find_latest_to_commit two_done
    ≡ (record two_done { state = (pos 2, pending) ∷ [] }, found (at (pos 2)))
unfolding find_latest_to_commit scan lookup suc_ℤ delete
two_done_found = refl

find_never_passes_pending_example :
    (read_offset two_done (pos 1) ≢ some pending)
    × (read_offset (record two_done { state = (pos 2, pending) ∷ [] }) (pos 1) ≡ none)
find_never_passes_pending_example =
    find_never_passes_pending two_done (record two_done { state = (pos 2, pending) ∷ [] })
      (at (pos 2)) two_done_found (pos 1) (omega arith) (omega arith)

commit_in_range_example :
    (max : TopicPartition) × (some (at (pos 2)) ≡ some max)
    × (pos 2 ≤ℤ suc_ℤ max.offset)
    × (negsuc 0 ≤ℤ max.offset → negsuc 0 ≤ℤ pos 2)
commit_in_range_example =
    commit_in_range two_done (record two_done { state = (pos 2, pending) ∷ [] }) (at (pos 2))
      two_done_found

-- Two messages are delivered, the later one is reported first, and a commit goes through.
abbrev out_of_order : List Event
out_of_order =
    deliver (at (pos 0)) ∷ deliver (at (pos 1)) ∷ report (pos 1) success ∷ tick ∷ broker_ok ∷ []

state_tracks_waiting_example :
    (read_offset (run (start (at (negsuc 1))) out_of_order).ps (pos 0) ≡ some pending)
    ↔ (waiting out_of_order (pos 0) false ≡ true)
state_tracks_waiting_example = state_tracks_waiting (at (negsuc 1)) out_of_order (pos 0)

commit_never_skips_waiting_example :
    ((run (start (at (negsuc 1))) out_of_order).ps.last_commited ≤ℤ pos 0)
    × ((r : ℤ) → (run (start (at (negsuc 1))) out_of_order).inflight ≡ some r → r ≤ℤ pos 0)
unfolding waiting waiting_after start run step suc_ℤ
commit_never_skips_waiting_example =
    commit_never_skips_waiting (at (negsuc 1)) out_of_order
      (omega arith, (omega arith, ((omega arith, λ e. cc), (tt, (tt, tt))))) (pos 0) refl

next_message_not_committable_example :
    let ps' =
      set_msg_state (receive (after_commit two_done (pos 3)) (at (pos 3))) (pos 3) success in
    (read_offset ps' (pos 3) ≡ some success)
    × (find_latest_to_commit ps' ≡ (ps', failed nothing_to_commit))
unfolding suc_ℤ
next_message_not_committable_example =
    next_message_not_committable two_done (at (pos 2)) (at (pos 3)) refl refl

find_loop_terminates_example :
    LoopRun
      (pos 2)
      (negsuc 0)
      two_done.state
      (pos 2)
      (scan (rounds (negsuc 0) (pos 2)) (negsuc 0) two_done.state (pos 2))
    × ((r : Assoc ℤ MsgState × ℤ)
        → LoopRun (pos 2) (negsuc 0) two_done.state (pos 2) r
        → r ≡ scan (rounds (negsuc 0) (pos 2)) (negsuc 0) two_done.state (pos 2))
find_loop_terminates_example =
    find_loop_terminates (pos 2) (negsuc 0) two_done.state (pos 2) (omega arith)
