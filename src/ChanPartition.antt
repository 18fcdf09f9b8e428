-- ===== src/ChanPartition.antt =====
-- The partition state behind channels: kafka-chans/internal/consumer/partition-state.go, with
-- UpdateState and appendMsgState of consumer.go beside it. The offset and partition types are those of
-- Partition. UpdateStateCH and DeleteFromStateCH are the lists of what was sent and not yet received;
-- MaxReceived is never nil here. A commit and a round of acceptMsgLoop are steps of their own,
-- although the map that both use has no lock.
pub mod Find
pub mod Pool
pub mod Callbacks
pub mod Unreceived
mod Tests
use go_api_practice.Prelude.{
  ℕ, zero, suc, Bool, true, false, Option, none, some, List, [], ◌∷◌, ◌++◌, ◌||◌, if◌then◌else◌,
  nat_key, same,
}
use go_api_practice.Prelude.Int.{ℤ, pos, negsuc, ltb_ℤ, eqb_ℤ, suc_ℤ, pred_ℤ, int_key}
use go_api_practice.Prelude.Assoc.{Assoc, lookup, insert, delete}
use go_api_practice.Prelude.Run.{Run, done, waits, panics, ◌>>=◌}
use go_api_practice.Partition.{MsgState, pending, TopicPartition, offset_beginning, rounds}

-- UpdateStateMsg
pub record UpdateStateMsg : Type 0 where
  pub offset : ℤ
  pub value : MsgState

-- `msg_pool` tells whether MsgPool is not nil.
pub record ChanState : Type 0 where
  pub id : ℕ
  pub state : Assoc ℤ MsgState
  pub state_size : ℤ
  pub max_received : TopicPartition
  pub last_commited : ℤ
  pub delete_from_state_ch : List ℤ
  pub update_state_ch : List UpdateStateMsg
  pub msg_pool : Bool

-- NewPartitionState leaves MsgPool nil; NewTestPartitionState sets it.
initial_state : Bool → TopicPartition → ChanState
initial_state pool tp = record {
  id = tp.partition;
  state = [];
  state_size = pos 0;
  max_received = tp;
  last_commited =
      if eqb_ℤ tp.offset offset_beginning || ltb_ℤ tp.offset (pos 0)
      then negsuc 0
      else pred_ℤ tp.offset;
  delete_from_state_ch = [];
  update_state_ch = [];
  msg_pool = pool;
}

unfoldable pub new_chan_state : TopicPartition → ChanState
unfolding initial_state
new_chan_state tp = initial_state false tp

unfoldable pub new_test_chan_state : TopicPartition → ChanState
unfolding initial_state
new_test_chan_state tp = initial_state true tp

-- The loop of FindLatestToCommit, with the rounds left, `ps.getStateSize()`, the offset, `ps.state`
-- and `latestToCommit.Offset`. It deletes from the map, and leaves the size as it is.
unfoldable pub scan_sized : ℕ → ℤ → ℤ → Assoc ℤ MsgState → ℤ → Assoc ℤ MsgState × ℤ
scan_sized zero size offset st latest = (st, latest)
scan_sized (suc n) size offset st latest = elim (eqb_ℤ size (pos 0)) [
  | true ↦ (st, suc_ℤ offset)
  | false ↦ elim (lookup offset st) [
    | none ↦ scan_sized n size (suc_ℤ offset) st latest
    | some pending ↦ (st, offset)
    | some _ ↦ scan_sized n size (suc_ℤ offset) (delete offset st) latest
  ]
]

-- FindLatestToCommit: none is the error.
unfoldable pub find_latest_sized : ChanState → ChanState × Option ℤ
find_latest_sized ps =
    let max = ps.max_received.offset in
    let r =
      scan_sized (rounds ps.last_commited (suc_ℤ max)) ps.state_size ps.last_commited ps.state
        max in
    if eqb_ℤ ps.last_commited max then (ps, none) else (record ps { state = r.0 }, some r.1)

-- What CommitOffsetLoop writes once the broker has answered.
commited : ChanState → Bool → Option ℤ → ChanState
commited ps ok none = ps
commited ps false (some offset) = ps
commited ps true (some offset) = record ps {
  last_commited = offset;
  max_received =
      if ltb_ℤ ps.max_received.offset offset
      then record ps.max_received { offset = offset }
      else ps.max_received;
}

-- A tick of CommitOffsetLoop; the flag is the broker's answer.
unfoldable pub commit_tick : ChanState → Bool → ChanState
unfolding commited
commit_tick ps ok = let r = find_latest_sized ps in commited r.0 ok r.1

-- The rounds of acceptMsgLoop that receive an update, or an offset to delete.
stored : ChanState → List UpdateStateMsg → Run ChanState
stored ps [] = waits
stored ps (msg ∷ msgs) =
    if ps.msg_pool
    then done (record ps {
      state = insert msg.offset msg.value ps.state;
      state_size = suc_ℤ ps.state_size;
      update_state_ch = msgs;
    })
    else panics

unfoldable pub accept_update : ChanState → Run ChanState
unfolding stored
accept_update ps = stored ps ps.update_state_ch

dropped : ChanState → List ℤ → Run ChanState
dropped ps [] = waits
dropped ps (offset ∷ offsets) = done (record ps {
  state = delete offset ps.state;
  state_size = pred_ℤ ps.state_size;
  delete_from_state_ch = offsets;
})

unfoldable pub accept_delete : ChanState → Run ChanState
unfolding dropped
accept_delete ps = dropped ps ps.delete_from_state_ch

-- `ps.UpdateStateCH <- updMsg`
abbrev pub send_update : ChanState → ℤ → MsgState → ChanState
send_update ps offset value = record ps {
  update_state_ch = ps.update_state_ch ++ (record { offset = offset; value = value } ∷ []);
}

-- What appendMsgState does to the partition of the message.
unfoldable pub append_to : ChanState → TopicPartition → ChanState
append_to ps tp = record (send_update ps tp.offset pending) {
  max_received = if ltb_ℤ ps.max_received.offset tp.offset then tp else ps.max_received;
}

-- appendMsgState: a partition that is missing is a nil pointer.
append_found : Assoc ℕ ChanState → TopicPartition → Option ChanState → Run (Assoc ℕ ChanState)
append_found c tp none = panics
append_found c tp (some ps) = done (insert tp.partition (append_to ps tp) c)

unfoldable pub append_msg_state : Assoc ℕ ChanState → TopicPartition → Run (Assoc ℕ ChanState)
unfolding append_found
append_msg_state c tp = append_found c tp (lookup tp.partition c)

-- UpdateState: a partition that is missing is logged.
report_found : Assoc ℕ ChanState → TopicPartition → MsgState → Option ChanState → Assoc ℕ ChanState
report_found c tp new_state none = c
report_found c tp new_state (some ps) = insert tp.partition (send_update ps tp.offset new_state) c

unfoldable pub update_state : Assoc ℕ ChanState → TopicPartition → MsgState → Assoc ℕ ChanState
unfolding report_found
update_state c tp new_state = report_found c tp new_state (lookup tp.partition c)

-- The steps of the goroutines that share a partition.
pub data Step : Type 0 where
  delivered : TopicPartition → Step
  reported : ℤ → MsgState → Step
  delete_sent : ℤ → Step
  update_received delete_received : Step
  ticked : Bool → Step

unfoldable pub take_step : ChanState → Step → Run ChanState
take_step ps (delivered tp) = done (append_to ps tp)
take_step ps (reported offset value) = done (send_update ps offset value)
take_step ps (delete_sent offset) =
    done (record ps { delete_from_state_ch = ps.delete_from_state_ch ++ (offset ∷ []) })
take_step ps update_received = accept_update ps
take_step ps delete_received = accept_delete ps
take_step ps (ticked ok) = done (commit_tick ps ok)

unfoldable pub take_steps : ChanState → List Step → Run ChanState
take_steps ps [] = done ps
take_steps ps (e ∷ es) = do ps' ← take_step ps e; take_steps ps' es
