-- ===== src/Consumer/Rebalance.antt =====
-- assignPrntCB: the state that a rebalance starts for a partition.
use go_api_practice.Prelude.{
  ℕ, Bool, false, Option, none, some, List, [], ◌∷◌, ◌≡◌, refl, sym, arith, nat_key, string_key,
  same, ◌==◌, if◌then◌else◌,
}
use go_api_practice.Prelude.Assoc.{Assoc, lookup, insert, lookup-insert}
use go_api_practice.Partition.{TopicPartition, PartitionState}
use go_api_practice.Consumer.{
  KafkaConsumer, Broker, w_lock, w_unlock, assigned_state, assign_all, assign_prnt_cb, or_else,
}

-- The last entry of the list for a partition.
pub assigned_to : ℕ → List TopicPartition → Option TopicPartition
assigned_to p [] = none
assigned_to p (tp ∷ tps) = elim (assigned_to p tps) [
  | some later ↦ some later
  | none ↦ if tp.partition == p then some tp else none
]

abbrev pub started : Option TopicPartition → Option PartitionState → Option PartitionState
started none old = old
started (some tp) old = some (assigned_state tp)

lookup-assign_all :
    (tps : List TopicPartition) (m : Assoc ℕ PartitionState) (p : ℕ)
    → lookup p (assign_all tps m) ≡ started (assigned_to p tps) (lookup p m)
unfolding assign_all assigned_to
lookup-assign_all [] m p = refl
lookup-assign_all (tp ∷ tps) m p = ground (
  arith,
  lookup-assign_all tps (insert tp.partition (assigned_state tp) m) p,
  lookup-insert tp.partition p (assigned_state tp) m,
)

-- An assignment, when the lock is free, returns with the lock free. Each partition that the broker
-- names in its committed offsets (those of the event, if the broker gives none) has a fresh state
-- that starts at the offset named for it; every other partition keeps its state.
pub assign_starts_afresh :
    (b : Broker) (c : KafkaConsumer) (tps : List TopicPartition)
    → c.mu ≡ record { readers = 0; writer = false }
    → (r : KafkaConsumer × Bool) × (assign_prnt_cb b c tps ≡ some r)
      × (r.0.mu ≡ c.mu)
      × ((p : ℕ)
          → lookup p r.0.msgs_state_map
            ≡ started (assigned_to p (or_else (b.committed tps) tps)) (lookup p c.msgs_state_map))
unfolding assign_prnt_cb w_lock w_unlock
assign_starts_afresh b c tps free =
    let m = assign_all (or_else (b.committed tps) tps) c.msgs_state_map in
    let ok : Bool =
      if same c.partition_assign_strategy "cooperative-sticky"
      then b.incremental_assign tps
      else b.assign tps in
    (
      (record c { mu = record { readers = 0; writer = false }; msgs_state_map = m }, ok),
      rw free refl,
      sym free,
      λ p. lookup-assign_all (or_else (b.committed tps) tps) c.msgs_state_map p,
    )
