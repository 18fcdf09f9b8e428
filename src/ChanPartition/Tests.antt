-- ===== src/ChanPartition/Tests.antt =====
-- Concrete partitions behind channels.
use go_api_practice.Prelude.{
  true, false, some, none, nat_key, List, [], ◌∷◌, ◌≡◌, ◌≢◌, ◌↔◌, ◌⊎◌, refl, arith,
}
use go_api_practice.Prelude.Int.{ℤ, pos, ◌≤ℤ◌, ◌<ℤ◌, suc_ℤ, pred_ℤ}
use go_api_practice.Prelude.Run.{done, panics}
use go_api_practice.Partition.{pending, success, TopicPartition, rounds}
use go_api_practice.ChanPartition.{
  ChanState, new_chan_state, initial_state, find_latest_sized, append_to, delivered, Step, ticked,
  commit_tick, commited, scan_sized, update_received, take_step, take_steps,
}
use go_api_practice.ChanPartition.Find.{IsPending, find_latest_sized_never_skips}
use go_api_practice.Consumer.{Broker}
use go_api_practice.ChanPartition.Callbacks.{ChanConsumer, assigned_chan_state, revoke_chan_cb}
use go_api_practice.ChanPartition.Unreceived.{revoke_passes_unreceived}
use go_api_practice.Prelude.Assoc.{lookup}
use go_api_practice.ChanPartition.Pool.{new_chan_state_never_stores}

abbrev at : ℤ → TopicPartition
at o = record { topic = "orders"; partition = 0; offset = o }

-- Offset 4 is processed, 5 is pending.
abbrev half_done : ChanState
half_done = record {
  id = 0;
  state = (pos 4, success) ∷ (pos 5, pending) ∷ [];
  state_size = pos 3;
  max_received = at (pos 6);
  last_commited = pos 4;
  delete_from_state_ch = [];
  update_state_ch = [];
  msg_pool = true;
}

find_latest_sized_never_skips_example :
    (r : ℤ) × ((find_latest_sized half_done).1 ≡ some r)
    × (((pos 4 ≤ℤ r)
          × (r ≤ℤ suc_ℤ (pos 6))
          × IsPending half_done r
          × ((x : ℤ) → pos 4 ≤ℤ x → x <ℤ r → IsPending half_done x → ⊥))
        ⊎ ((r ≡ pos 6) × ((x : ℤ) → pos 4 ≤ℤ x → x ≤ℤ suc_ℤ (pos 6) → IsPending half_done x → ⊥)))
    × ((x : ℤ) → IsPending (find_latest_sized half_done).0 x ↔ IsPending half_done x)
find_latest_sized_never_skips_example =
    find_latest_sized_never_skips half_done (λ e. ground (arith, e)) (λ e. ground (arith, e))

abbrev one_delivered : ChanState
one_delivered = record (initial_state false (at (pos 4))) {
  max_received = at (pos 5);
  update_state_ch = record { offset = pos 5; value = pending } ∷ [];
}

new_chan_state_never_stores_example :
    (one_delivered.state ≡ [])
    × (one_delivered.update_state_ch ≢ [] → take_step one_delivered update_received ≡ panics)
unfolding new_chan_state initial_state take_steps take_step append_to
new_chan_state_never_stores_example =
    new_chan_state_never_stores (at (pos 4)) (delivered (at (pos 5)) ∷ []) one_delivered refl

abbrev broker : Broker
broker = record {
  committed = λ tps. some tps;
  commit_offsets = λ tps. true;
  assign = λ tps. true;
  incremental_assign = λ tps. true;
  unassign = true;
  incremental_unassign = λ tps. true;
}

-- After a commit of 4, messages 4 and 5 are delivered, and their updates not yet received.
abbrev unreceived : ChanState
unreceived = record {
  id = 0;
  state = [];
  state_size = pos 0;
  max_received = at (pos 5);
  last_commited = pos 4;
  delete_from_state_ch = [];
  update_state_ch =
      record { offset = pos 4; value = pending } ∷ record { offset = pos 5; value = pending } ∷ [];
  msg_pool = false;
}

abbrev consumer : ChanConsumer
consumer = record { msgs_state_map = (0, unreceived) ∷ []; partition_assign_strategy = "range" }

abbrev delivering : List Step
delivering = ticked true ∷ delivered (at (pos 4)) ∷ delivered (at (pos 5)) ∷ []

run_delivering : take_steps (assigned_chan_state (at (pos 4))) delivering ≡ done unreceived
unfolding assigned_chan_state new_chan_state initial_state take_steps take_step append_to
    commit_tick commited find_latest_sized scan_sized rounds suc_ℤ pred_ℤ
run_delivering = refl

revoke_passes_unreceived_example :
    ((revoke_chan_cb broker consumer (at (pos 5) ∷ [])).to_commit ≡ at (suc_ℤ (pos 4)) ∷ [])
    × (lookup 0 (revoke_chan_cb broker consumer (at (pos 5) ∷ [])).consumer.msgs_state_map ≡ none)
unfolding lookup
revoke_passes_unreceived_example =
    revoke_passes_unreceived broker consumer (at (pos 4)) (at (pos 5)) delivering unreceived
      (omega arith) refl run_delivering refl (λ e. ground (arith, e))
