-- ===== src/ChanPartition/Unreceived.antt =====
-- What a revocation in kafka-chans does to messages whose updates are still in the channel. The states
-- are those that assignPrntCB makes and that its goroutines reach: their size stays 0.
use mathlib.Core.Path.{subst}
use go_api_practice.Prelude.{
  ℕ, suc, Bool, true, false, none, some, List, [], ◌∷◌, ◌≡◌, ◌≢◌, inl, inr, refl, ◌∙◌, arith,
  string_key, nat_key, same_iff, Bool-cases,
}
use go_api_practice.Prelude.Int.{
  ℤ, pos, negsuc, suc_ℤ, suc_ℤ_parts, pred_ℤ_parts, ltb_ℤ, eqb_ℤ, ◌≤ℤ◌, int_key,
}
use go_api_practice.Prelude.Assoc.{lookup, lookup-delete}
use go_api_practice.Prelude.Run.{done, done-injective, >>=-eq-done}
use go_api_practice.Partition.{TopicPartition, offset_beginning}
use go_api_practice.Partition.Loop.{rounds-ltb}
use go_api_practice.Consumer.{Broker}
use go_api_practice.ChanPartition.{
  ChanState, initial_state, new_chan_state, scan_sized, find_latest_sized, commited, commit_tick,
  accept_update, dropped, accept_delete, append_to, Step, delivered, reported, delete_sent,
  update_received, delete_received, ticked, take_step, take_steps,
}
use go_api_practice.ChanPartition.Pool.{take_step-receives_no_update}
use go_api_practice.ChanPartition.Callbacks.{
  ChanConsumer, assigned_chan_state, revoke_chan_states, revoke_chan_cb,
}

-- No step sends on DeleteFromStateCH, as nothing in the repository does.
abbrev pub sends_no_delete : List Step → Bool
sends_no_delete [] = true
sends_no_delete (delete_sent offset ∷ es) = false
sends_no_delete (delivered tp ∷ es) = sends_no_delete es
sends_no_delete (reported offset value ∷ es) = sends_no_delete es
sends_no_delete (update_received ∷ es) = sends_no_delete es
sends_no_delete (delete_received ∷ es) = sends_no_delete es
sends_no_delete (ticked ok ∷ es) = sends_no_delete es

-- A partition without a pool, of size 0, with its offsets in order.
abbrev Unsized : ChanState → Type 0
Unsized ps =
    (ps.msg_pool ≡ false)
    × (ps.delete_from_state_ch ≡ [])
    × (ps.state_size ≡ pos 0)
    × (negsuc 0 ≤ℤ ps.last_commited)
    × (ps.last_commited ≤ℤ ps.max_received.offset)

scan_sized-size_zero :
    (n : ℕ) (size offset : ℤ) (ps : ChanState) (latest : ℤ)
    → size ≡ pos 0
    → scan_sized (suc n) size offset ps.state latest ≡ (ps.state, suc_ℤ offset)
unfolding scan_sized
scan_sized-size_zero n size offset ps latest e = rw (scan_sized, e) refl

-- The first round ends the loop, at the offset after the last commit.
find_latest_sized-Unsized :
    (ps : ChanState)
    → Unsized ps
    → ps.last_commited ≢ ps.max_received.offset
    → find_latest_sized ps ≡ (ps, some (suc_ℤ ps.last_commited))
unfolding find_latest_sized
find_latest_sized-Unsized ps (p, d, z, l, m) n =
    let max = ps.max_received.offset in
    let differ : eqb_ℤ ps.last_commited max ≡ false = ground (arith, n) in
    let within : ltb_ℤ (suc_ℤ max) ps.last_commited ≡ false = ground (arith, m, suc_ℤ_parts max) in
    let (k, r) = rounds-ltb ps.last_commited (suc_ℤ max) within in
    rw (differ, r, scan_sized-size_zero k ps.state_size ps.last_commited ps max z) refl

find_latest_sized-equal :
    (ps : ChanState) → ps.last_commited ≡ ps.max_received.offset → find_latest_sized ps ≡ (ps, none)
unfolding find_latest_sized
find_latest_sized-equal ps e =
    let equal : eqb_ℤ ps.last_commited ps.max_received.offset ≡ true = ground (arith, e) in
    rw equal refl

commited-Unsized :
    (ps : ChanState) (ok : Bool)
    → Unsized ps
    → ps.last_commited ≢ ps.max_received.offset
    → Unsized (commited ps ok (some (suc_ℤ ps.last_commited)))
unfolding commited
commited-Unsized ps false u n = u
commited-Unsized ps true (p, d, z, l, m) n =
    let parts = suc_ℤ_parts ps.last_commited in
    let reached : suc_ℤ ps.last_commited ≤ℤ ps.max_received.offset = ground (arith, n, m, parts) in
    let kept : ltb_ℤ ps.max_received.offset (suc_ℤ ps.last_commited) ≡ false =
      ground (arith, reached) in
    (p, d, z, omega (arith, l, parts), rw kept reached)

commit_tick-Unsized : (ps : ChanState) (ok : Bool) → Unsized ps → Unsized (commit_tick ps ok)
unfolding commit_tick commited
commit_tick-Unsized ps ok u = elim (Bool-cases (eqb_ℤ ps.last_commited ps.max_received.offset)) [
  | inl t ↦ rw (find_latest_sized-equal ps (ground (arith, t))) u
  | inr t ↦
      let n : ps.last_commited ≢ ps.max_received.offset = ground (arith, t) in
      rw (find_latest_sized-Unsized ps u n) (commited-Unsized ps ok u n)
]

append_to-Unsized : (ps : ChanState) (tp : TopicPartition) → Unsized ps → Unsized (append_to ps tp)
unfolding append_to
append_to-Unsized ps tp (p, d, z, l, m) =
    elim (Bool-cases (ltb_ℤ ps.max_received.offset tp.offset)) [
      | inl t ↦ rw t (p, d, z, l, ground (arith, t, m))
      | inr t ↦ rw t (p, d, z, l, m)
    ]

dropped-never :
    (ps ps' : ChanState) (offsets : List ℤ) → offsets ≡ [] → dropped ps offsets ≢ done ps'
unfolding dropped
dropped-never ps ps' [] e h = ground arith
dropped-never ps ps' (offset ∷ offsets) e h = ground arith

take_steps-Unsized :
    (ps ps' : ChanState) (es : List Step)
    → sends_no_delete es ≡ true
    → Unsized ps
    → take_steps ps es ≡ done ps'
    → Unsized ps'
unfolding take_steps take_step accept_update accept_delete
take_steps-Unsized ps ps' [] s u e = subst Unsized (done-injective _ _ e) u
take_steps-Unsized ps ps' (delivered tp ∷ es) s u e =
    take_steps-Unsized (append_to ps tp) ps' es s (append_to-Unsized ps tp u) e
take_steps-Unsized ps ps' (reported offset value ∷ es) s u e = take_steps-Unsized _ ps' es s u e
take_steps-Unsized ps ps' (delete_sent offset ∷ es) s u e = absurd (ground (arith, s))
take_steps-Unsized ps ps' (update_received ∷ es) s u e =
    let (t, k, rest) = >>=-eq-done (take_step ps update_received) _ e in
    absurd (take_step-receives_no_update ps t u.0 k)
take_steps-Unsized ps ps' (delete_received ∷ es) s u e =
    let (t, k, rest) = >>=-eq-done (take_step ps delete_received) _ e in
    absurd (dropped-never ps t ps.delete_from_state_ch u.1 k)
take_steps-Unsized ps ps' (ticked ok ∷ es) s u e =
    take_steps-Unsized (commit_tick ps ok) ps' es s (commit_tick-Unsized ps ok u) e

new_chan_state-Unsized : (tp : TopicPartition) → pos 0 ≤ℤ tp.offset → Unsized (new_chan_state tp)
unfolding new_chan_state initial_state
new_chan_state-Unsized tp h =
    let counted : ltb_ℤ tp.offset (pos 0) ≡ false = ground (arith, h) in
    let not_beginning : eqb_ℤ tp.offset offset_beginning ≡ false = ground (arith, h) in
    let parts = pred_ℤ_parts tp.offset in
    rw (not_beginning, counted) (refl, refl, refl, omega (arith, h, parts), omega (arith, parts))

assigned_chan_state-Unsized :
    (tp : TopicPartition) → pos 0 ≤ℤ tp.offset → Unsized (assigned_chan_state tp)
unfolding assigned_chan_state
assigned_chan_state-Unsized tp h =
    let counted : ltb_ℤ tp.offset (pos 0) ≡ false = ground (arith, h) in
    rw counted (new_chan_state-Unsized tp h)

-- A partition is assigned at an offset that is not negative. After any steps of its goroutines without
-- a panic, in which nothing is sent on DeleteFromStateCH, and with a last commit other than
-- MaxReceived, a revocation commits the offset after the last commit and forgets the partition. So it
-- passes over the message at the last commit, with whatever was delivered and reported.
pub revoke_passes_unreceived :
    (b : Broker) (c : ChanConsumer) (tp t : TopicPartition) (es : List Step) (ps : ChanState)
    → pos 0 ≤ℤ tp.offset
    → sends_no_delete es ≡ true
    → take_steps (assigned_chan_state tp) es ≡ done ps
    → lookup t.partition c.msgs_state_map ≡ some ps
    → ps.last_commited ≢ ps.max_received.offset
    → ((revoke_chan_cb b c (t ∷ [])).to_commit ≡ record t { offset = suc_ℤ ps.last_commited } ∷ [])
      × (lookup t.partition (revoke_chan_cb b c (t ∷ [])).consumer.msgs_state_map ≡ none)
unfolding revoke_chan_cb revoke_chan_states
revoke_passes_unreceived b c tp t es ps h s e l n =
    let u =
      take_steps-Unsized (assigned_chan_state tp) ps es s (assigned_chan_state-Unsized tp h) e in
    let counted : ltb_ℤ (suc_ℤ ps.last_commited) (pos 0) ≡ false =
      ground (arith, u.3, suc_ℤ_parts ps.last_commited) in
    let gone = lookup-delete t.partition t.partition c.msgs_state_map in
    rw (l, find_latest_sized-Unsized ps u n, counted)
      (refl, gone ∙ rw ((same_iff t.partition t.partition).1 refl) refl)
