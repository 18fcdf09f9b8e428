-- ===== src/ChanPartition/Pool.antt =====
-- The pool of messages that NewPartitionState leaves nil.
use mathlib.Core.Path.{subst}
use go_api_practice.Prelude.{
  ℕ, zero, suc, ◌≢◌, Bool, true, false, Option, none, some, List, [], ◌∷◌, ◌≡◌, refl, sym, ap, ◌∙◌,
  inl, inr, arith, Bool-cases,
}
use go_api_practice.Prelude.Int.{ℤ, suc_ℤ, pos, eqb_ℤ, int_key}
use go_api_practice.Prelude.Assoc.{lookup, delete}
use go_api_practice.Prelude.Run.{done, panics, done-injective, >>=-eq-done}
use go_api_practice.Partition.{TopicPartition, rounds}
use go_api_practice.ChanPartition.{
  UpdateStateMsg, ChanState, initial_state, new_chan_state, scan_sized, find_latest_sized, commited,
  commit_tick, stored, accept_update, dropped, accept_delete, append_to, Step, delivered, reported,
  delete_sent, update_received, delete_received, ticked, take_step, take_steps,
}

-- Of a partition without a pool: nothing was stored.
abbrev pub Blank : ChanState → Type 0
Blank ps = (ps.msg_pool ≡ false) × (ps.state ≡ [])

scan_sized-nil : (n : ℕ) (size o latest : ℤ) → (scan_sized n size o [] latest).0 ≡ []
unfolding scan_sized lookup
scan_sized-nil zero size o latest = refl
scan_sized-nil (suc n) size o latest = elim (Bool-cases (eqb_ℤ size (pos 0))) [
  | inl t ↦ rw (scan_sized, t) refl
  | inr t ↦ rw (scan_sized, t) (scan_sized-nil n size (suc_ℤ o) latest)
]

find_latest_sized-Blank : (ps : ChanState) → Blank ps → Blank (find_latest_sized ps).0
unfolding find_latest_sized
find_latest_sized-Blank ps (p, e) =
    elim (Bool-cases (eqb_ℤ ps.last_commited ps.max_received.offset)) [
      | inl t ↦ rw t (p, e)
      | inr t ↦
          let n = rounds ps.last_commited (suc_ℤ ps.max_received.offset) in
          rw t (
            p,
            ap (λ st. (scan_sized n ps.state_size ps.last_commited st ps.max_received.offset).0) e
                ∙ scan_sized-nil n ps.state_size ps.last_commited ps.max_received.offset,
          )
    ]

commited-Blank : (ps : ChanState) (ok : Bool) (o : Option ℤ) → Blank ps → Blank (commited ps ok o)
unfolding commited
commited-Blank ps ok none h = h
commited-Blank ps false (some offset) h = h
commited-Blank ps true (some offset) h = h

stored-panics :
    (ps : ChanState) (msgs : List UpdateStateMsg)
    → ps.msg_pool ≡ false
    → msgs ≢ []
    → stored ps msgs ≡ panics
unfolding stored
stored-panics ps [] h n = absurd (n refl)
stored-panics ps (msg ∷ msgs) h n = rw h refl

stored-never :
    (ps ps' : ChanState) (msgs : List UpdateStateMsg)
    → ps.msg_pool ≡ false
    → stored ps msgs ≢ done ps'
unfolding stored
stored-never ps ps' [] h e = ground arith
stored-never ps ps' (msg ∷ msgs) h e =
    ground (arith, sym (stored-panics ps (msg ∷ msgs) h (λ q. ground arith)) ∙ e)

pub take_step-receives_no_update :
    (ps ps' : ChanState) → ps.msg_pool ≡ false → take_step ps update_received ≢ done ps'
unfolding take_step accept_update
take_step-receives_no_update ps ps' h = stored-never ps ps' ps.update_state_ch h

dropped-Blank :
    (ps ps' : ChanState) (offsets : List ℤ) → Blank ps → dropped ps offsets ≡ done ps' → Blank ps'
unfolding dropped delete
dropped-Blank ps ps' [] h e = absurd (ground arith)
dropped-Blank ps ps' (offset ∷ offsets) h e =
    subst Blank (done-injective _ _ e) (h.0, ap (delete offset) h.1)

take_step-Blank : (ps ps' : ChanState) (e : Step) → Blank ps → take_step ps e ≡ done ps' → Blank ps'
unfolding take_step append_to accept_update accept_delete commit_tick
take_step-Blank ps ps' (delivered tp) h e = subst Blank (done-injective _ _ e) h
take_step-Blank ps ps' (reported offset value) h e = subst Blank (done-injective _ _ e) h
take_step-Blank ps ps' (delete_sent offset) h e = subst Blank (done-injective _ _ e) h
take_step-Blank ps ps' update_received h e = absurd (stored-never ps ps' ps.update_state_ch h.0 e)
take_step-Blank ps ps' delete_received h e = dropped-Blank ps ps' ps.delete_from_state_ch h e
take_step-Blank ps ps' (ticked ok) h e = subst Blank (done-injective _ _ e) (
    commited-Blank (find_latest_sized ps).0 ok (find_latest_sized ps).1
      (find_latest_sized-Blank ps h))

take_steps-Blank :
    (ps ps' : ChanState) (es : List Step) → Blank ps → take_steps ps es ≡ done ps' → Blank ps'
unfolding take_steps
take_steps-Blank ps ps' [] h e = subst Blank (done-injective _ _ e) h
take_steps-Blank ps ps' (v ∷ es) h e =
    let (t, k, e₁) = >>=-eq-done (take_step ps v) _ e in
    take_steps-Blank t ps' es (take_step-Blank ps t v h k) e₁

-- A partition from NewPartitionState, after any steps without a panic, has stored nothing, whatever
-- was delivered and reported; and as soon as one update waits, receiving it panics.
pub new_chan_state_never_stores :
    (tp : TopicPartition) (es : List Step) (ps : ChanState)
    → take_steps (new_chan_state tp) es ≡ done ps
    → (ps.state ≡ []) × (ps.update_state_ch ≢ [] → take_step ps update_received ≡ panics)
unfolding new_chan_state initial_state take_step accept_update
new_chan_state_never_stores tp es ps e =
    let h = take_steps-Blank (new_chan_state tp) ps es (refl, refl) e in
    (h.1, λ n. stored-panics ps ps.update_state_ch h.0 n)
