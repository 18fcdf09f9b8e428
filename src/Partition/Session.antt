-- ===== src/Partition/Session.antt =====
-- One assignment of a partition to a consumer, as a state machine: the messages that the broker
-- delivers (appendMsgState), the reports of the handlers (UpdateState) and the two halves of a round
-- of commitOffsetLoop, FindLatestToCommit and the broker's answer, in any interleaving. `position`
-- is the broker's: the next offset that it delivers.
mod Soundness
pub mod Tracking
use go_api_practice.Prelude.{
  Bool, true, false, Option, none, some, List, [], ◌∷◌, ◌≡◌, ◌≢◌, if◌then◌else◌,
}
use go_api_practice.Prelude.Int.{ℤ, pos, ◌≤ℤ◌, ◌<ℤ◌, ltb_ℤ, eqb_ℤ, suc_ℤ}
use go_api_practice.Partition.{
  MsgState, pending, success, error, TopicPartition, PartitionState, offset_beginning, FindResult,
  found, failed, new_partition_state, find_latest_to_commit, after_commit, set_msg_state, receive,
}

pub record Session : Type 0 where
  pub ps : PartitionState
  -- `latestToCommit.Offset` while CommitOffsets runs
  pub inflight : Option ℤ
  pub position : ℤ

pub data Event : Type 0 where
  deliver : TopicPartition → Event
  report : ℤ → MsgState → Event
  tick : Event
  broker_ok : Event
  broker_err : Event
  cancel : Event
  done : Event

sent : PartitionState × FindResult → Session → Session
sent (ps, found tp) s = record s { ps = ps; inflight = some tp.offset }
sent (ps, failed e) s = record s { ps = ps }

-- `case <-ticker.C`, when no commit is running.
on_tick : Bool → Bool → Option ℤ → Session → Session
unfolding sent
on_tick true cancelled inflight s = s
on_tick false true inflight s = record s { ps = record s.ps { exited = true } }
on_tick false false (some r) s = s
on_tick false false none s = sent (find_latest_to_commit s.ps) s

-- `case <-ps.ctx.Done()`, which a running commit holds up.
on_done : Bool → Option ℤ → Session → Session
on_done true none s = record s { ps = record s.ps { exited = true } }
on_done cancelled inflight s = s

on_broker_ok : Option ℤ → Session → Session
on_broker_ok none s = s
on_broker_ok (some r) s = record s { ps = after_commit s.ps r; inflight = none }

unfoldable pub step : Session → Event → Session
unfolding on_tick on_done on_broker_ok
step s (deliver tp) = record s { ps = receive s.ps tp; position = suc_ℤ tp.offset }
step s (report o m) = record s { ps = set_msg_state s.ps o m }
step s tick = on_tick s.ps.exited s.ps.cancelled s.inflight s
step s broker_ok = on_broker_ok s.inflight s
step s broker_err = record s { inflight = none }
step s cancel = record s { ps = record s.ps { cancelled = true } }
step s done = on_done s.ps.cancelled s.inflight s

unfoldable pub run : Session → List Event → Session
run s [] = s
run s (e ∷ es) = run (step s e) es

-- The part of assignPrntCB that starts a partition: a negative offset becomes OffsetBeginning.
unfoldable pub start : TopicPartition → Session
start tp =
    let from = if ltb_ℤ tp.offset (pos 0) then offset_beginning else tp.offset in
    record {
      ps = new_partition_state (record tp { offset = from });
      inflight = none;
      position = if ltb_ℤ tp.offset (pos 0) then pos 0 else tp.offset;
    }

-- The broker delivers a partition in order; a handler reports a delivered message as handled.
abbrev pub Allowed : Session → Event → Type 0
Allowed s (deliver tp) = s.position ≤ℤ tp.offset
Allowed s (report o m) = (o <ℤ s.position) × (m ≢ pending)
Allowed s _ = Unit {0}

abbrev pub AllAllowed : Session → List Event → Type 0
AllAllowed s [] = Unit {0}
AllAllowed s (e ∷ es) = Allowed s e × AllAllowed (step s e) es

-- The specification of the map: whether the message at `x` was delivered and not yet reported.
abbrev is_pending : MsgState → Bool
is_pending pending = true
is_pending _ = false

unfoldable pub waiting_after : Event → ℤ → Bool → Bool
waiting_after (deliver tp) x w = if eqb_ℤ tp.offset x then true else w
waiting_after (report o m) x w = if eqb_ℤ o x then is_pending m else w
waiting_after _ x w = w

unfoldable pub waiting : List Event → ℤ → Bool → Bool
waiting [] x w = w
waiting (e ∷ es) x w = waiting es x (waiting_after e x w)
