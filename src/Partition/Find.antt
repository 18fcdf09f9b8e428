-- ===== src/Partition/Find.antt =====
-- FindLatestToCommit: which offset it picks, which entries it drops, when it fails.
use mathlib.Core.Path.{subst₂}
use go_api_practice.Prelude.{
  ℕ, ◌+◌, ◌≤◌, Option, none, some, [], ◌≡◌, ◌↔◌, refl, ◌≢◌, ◌⊎◌, inl, inr, arith, Bool-cases,
}
use go_api_practice.Prelude.Int.{
  ℤ, pos_part, neg_part, ◌≤ℤ◌, ◌<ℤ◌, eqb_ℤ, eqb_ℤ_iff, suc_ℤ, suc_ℤ_parts, int_key,
}
use go_api_practice.Prelude.Assoc.{Assoc, lookup}
use go_api_practice.Partition.{
  MsgState, pending, TopicPartition, PartitionState, FindError, max_received_nil, nothing_to_commit,
  found, failed, rounds, scan, find_in, find_latest_to_commit, read_offset,
}
use go_api_practice.Partition.Scan.{Scanned, scan-Scanned}

-- What a successful call has done, in terms of the state before it, MaxReceived and the result.
pub record Found (ps : PartitionState) (max : TopicPartition) (ps' : PartitionState)
    (tp : TopicPartition) : Type 0 where
  pub same_topic : tp.topic ≡ max.topic
  pub same_partition : tp.partition ≡ max.partition
  pub frame : ps' ≡ record ps { state = ps'.state }
  pub ne_max : ps.last_commited ≢ max.offset
  pub start : ps.last_commited ≤ℤ max.offset → ps.last_commited ≤ℤ tp.offset
  pub upper :
      pos_part tp.offset + neg_part max.offset ≤ pos_part max.offset + neg_part tp.offset + 1
  pub below : (x : ℤ) → x <ℤ ps.last_commited → lookup x ps'.state ≡ lookup x ps.state
  pub above : (x : ℤ) → tp.offset <ℤ x → lookup x ps'.state ≡ lookup x ps.state
  pub cleared : (x : ℤ) → ps.last_commited ≤ℤ x → x <ℤ tp.offset → lookup x ps'.state ≡ none
  pub passed : (x : ℤ) → ps.last_commited ≤ℤ x → x <ℤ tp.offset → lookup x ps.state ≢ some pending
  pub sub : (x : ℤ) → (lookup x ps'.state ≡ none) ⊎ (lookup x ps'.state ≡ lookup x ps.state)
  pub kept : (x : ℤ) → lookup x ps.state ≡ some pending → lookup x ps'.state ≡ some pending
  pub stop :
      (tp.offset ≡ max.offset)
      ⊎ (lookup tp.offset ps.state ≡ some pending)
      ⊎ (y : ℤ) × (tp.offset ≡ suc_ℤ y) × (lookup y ps.state ≢ none) × (ps'.state ≡ [])

-- The state and the result of a call that gets as far as the loop.
abbrev scanned : PartitionState → TopicPartition → Assoc ℤ MsgState × ℤ
scanned ps max = scan (rounds ps.last_commited max.offset) ps.last_commited ps.state max.offset

scan-eq_of_zero :
    (n : ℕ) (o : ℤ) (st : Assoc ℤ MsgState) (latest : ℤ) → n ≡ 0 → scan n o st latest ≡ (st, latest)
unfolding scan
scan-eq_of_zero n o st latest e = rw e refl

rounds-cases :
    (last max : ℤ)
    → (rounds last max ≡ 0) × (max <ℤ last)
      ⊎ (pos_part max + neg_part last + 1 ≡ pos_part last + neg_part max + rounds last max)
rounds-cases last max = ground arith

Found-idle :
    (ps : PartitionState) (max : TopicPartition)
    → max.offset <ℤ ps.last_commited
    → ps.last_commited ≢ max.offset
    → Found ps max (record ps { state = ps.state }) (record max { offset = max.offset })
Found-idle ps max h ne = record {
  same_topic = refl;
  same_partition = refl;
  frame = refl;
  ne_max = ne;
  start = λ k. absurd (omega arith);
  upper = omega arith;
  below = λ x k. refl;
  above = λ x k. refl;
  cleared = λ x k l. absurd (omega arith);
  passed = λ x k l. absurd (omega arith);
  sub = λ x. inr refl;
  kept = λ x k. k;
  stop = inl refl;
}

Found-scan :
    (ps : PartitionState) (max : TopicPartition) (r : Assoc ℤ MsgState × ℤ)
    → ps.last_commited ≢ max.offset
    → Scanned ps.last_commited ps.state max.offset r
    → Found ps max (record ps { state = r.0 }) (record max { offset = r.1 })
Found-scan ps max r ne s = record {
  same_topic = refl;
  same_partition = refl;
  frame = refl;
  ne_max = ne;
  start = s.start;
  upper = s.upper;
  below = s.below;
  above = s.above;
  cleared = s.cleared;
  passed = s.passed;
  sub = s.sub;
  kept = s.kept;
  stop = s.stop;
}

scanned-Found :
    (ps : PartitionState) (max : TopicPartition)
    → ps.last_commited ≢ max.offset
    → Found ps max
        (record ps { state = (scanned ps max).0 })
        (record max { offset = (scanned ps max).1 })
scanned-Found ps max ne = elim (rounds-cases ps.last_commited max.offset) [
  | inl (z, h) ↦
      rw
        (scan-eq_of_zero (rounds ps.last_commited max.offset) ps.last_commited ps.state max.offset
          z)
        (Found-idle ps max h ne)
  | inr e ↦
      Found-scan ps max (scanned ps max) ne
        (scan-Scanned (rounds ps.last_commited max.offset) ps.last_commited ps.state max.offset e)
]

-- The inversion of a successful call.
find_in-Found :
    (ps : PartitionState) (m : Option TopicPartition) (ps' : PartitionState) (tp : TopicPartition)
    → find_in ps m ≡ (ps', found tp)
    → (max : TopicPartition) × (m ≡ some max) × Found ps max ps' tp
unfolding find_in
find_in-Found ps none ps' tp e = absurd (cc)
find_in-Found ps (some max) ps' tp e = elim (Bool-cases (eqb_ℤ ps.last_commited max.offset)) [
  | inl t ↦ absurd (ground arith)
  | inr t ↦
      let p : record ps { state = (scanned ps max).0 } ≡ ps' = ground arith in
      let q : record max { offset = (scanned ps max).1 } ≡ tp = ground arith in
      let ne : ps.last_commited ≢ max.offset =
        ground (arith, eqb_ℤ_iff ps.last_commited max.offset) in
      (max, refl, subst₂ (λ a b. Found ps max a b) p q (scanned-Found ps max ne))
]

module _ (ps ps' : PartitionState) (tp : TopicPartition)
    (call : find_latest_to_commit ps ≡ (ps', found tp)) where
  pub find-Found : (max : TopicPartition) × (ps.max_received ≡ some max) × Found ps max ps' tp
  unfolding find_latest_to_commit
  find-Found = find_in-Found ps ps.max_received ps' tp call

  -- The offset to commit never passes a pending message: no offset from the last committed one up
  -- to the one found belonged to a pending message, and none of them is in the map any more.
  pub find_never_passes_pending :
      (x : ℤ)
      → ps.last_commited ≤ℤ x
      → x <ℤ tp.offset
      → (read_offset ps x ≢ some pending) × (read_offset ps' x ≡ none)
  unfolding read_offset
  find_never_passes_pending x h k = let f = find-Found.2 in (f.passed x h k, f.cleared x h k)

  -- A call that finds an offset keeps every pending entry and every entry below the last committed
  -- offset or above the one found, as it was; any other entry it keeps as it was or drops.
  pub find_drops_only_processed :
      (x : ℤ)
      → (read_offset ps x ≡ some pending → read_offset ps' x ≡ some pending)
        × ((x <ℤ ps.last_commited) ⊎ (tp.offset <ℤ x) → read_offset ps' x ≡ read_offset ps x)
        × ((read_offset ps' x ≡ none) ⊎ (read_offset ps' x ≡ read_offset ps x))
  unfolding read_offset
  find_drops_only_processed x =
      let f = find-Found.2 in
      (f.kept x, elim [ inl h ↦ f.below x h | inr h ↦ f.above x h ], f.sub x)

  -- The offset found is not held back for nothing: it is MaxReceived itself, or the offset of a
  -- pending message, or one past a message of the map, which has become empty.
  pub find_stops_for_a_reason :
      (max : TopicPartition) × (ps.max_received ≡ some max)
      × ((tp.offset ≡ max.offset)
          ⊎ (read_offset ps tp.offset ≡ some pending)
          ⊎ (y : ℤ) × (tp.offset ≡ suc_ℤ y) × (read_offset ps y ≢ none) × (ps'.state ≡ []))
  unfolding read_offset
  find_stops_for_a_reason = (find-Found.0, find-Found.1, find-Found.2.stop)

  -- The offset found is at most MaxReceived + 1; it is not below the last committed offset unless
  -- MaxReceived is.
  pub commit_in_range :
      (max : TopicPartition) × (ps.max_received ≡ some max)
      × (tp.offset ≤ℤ suc_ℤ max.offset)
      × (ps.last_commited ≤ℤ max.offset → ps.last_commited ≤ℤ tp.offset)
  commit_in_range =
      let f = find-Found.2 in
      (find-Found.0, find-Found.1, omega (arith, f.upper, suc_ℤ_parts find-Found.0.offset), f.start)

failed_in :
    (ps : PartitionState) (m : Option TopicPartition)
    → ((find_in ps m).1 ≡ failed max_received_nil ↔ m ≡ none)
      × ((find_in ps m).1 ≡ failed nothing_to_commit
          ↔ (max : TopicPartition) × (m ≡ some max) × (ps.last_commited ≡ max.offset))
      × ((e : FindError) → (find_in ps m).1 ≡ failed e → (find_in ps m).0 ≡ ps)
unfolding find_in
failed_in ps none = ((λ h. refl, λ h. refl), (λ h. cc, λ w. absurd (some-ne w.1)), λ e h. refl)
  where
    some-ne : {max : TopicPartition} → none ≡ some max → ⊥
    some-ne h = cc
failed_in ps (some max) = elim (Bool-cases (eqb_ℤ ps.last_commited max.offset)) [
  | inl t ↦ rw t (
    (λ h. cc, λ h. cc),
    (λ h. (max, refl, (eqb_ℤ_iff ps.last_commited max.offset).0 t), λ h. refl),
    λ e h. refl,
  )
  | inr t ↦ rw t (
    (λ h. cc, λ h. cc),
    (λ h. cc, λ w. absurd (ground (arith, eqb_ℤ_iff ps.last_commited max.offset, w.1, w.2))),
    λ e h. cc,
  )
]

-- A call fails in two cases only: MaxReceived is nil, or the last committed offset is MaxReceived.
-- A failed call changes nothing.
pub find_fails_exactly :
    (ps : PartitionState)
    → ((find_latest_to_commit ps).1 ≡ failed max_received_nil ↔ ps.max_received ≡ none)
      × ((find_latest_to_commit ps).1 ≡ failed nothing_to_commit
          ↔ (max : TopicPartition) × (ps.max_received ≡ some max) × (ps.last_commited ≡ max.offset))
      × ((e : FindError)
          → (find_latest_to_commit ps).1 ≡ failed e
          → (find_latest_to_commit ps).0 ≡ ps)
unfolding find_latest_to_commit
find_fails_exactly ps = failed_in ps ps.max_received
