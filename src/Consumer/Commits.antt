-- ===== src/Consumer/Commits.antt =====
-- The loop of revokePrtnCB: the offsets that it collects, and the states that it leaves in the map.
use mathlib.Core.Path.{subst}
use mathlib.Core.Option.{some-injective}
use go_api_practice.Prelude.{
  ℕ, false, Option, none, some, List, [], ◌∷◌, ◌++◌, ◌≡◌, ◌≢◌, inl, inr, refl, sym, ap, ◌∙◌, arith,
  Bool-cases, nat_key, string_key, ◌==◌, ==_iff,
}
use go_api_practice.Prelude.Int.{ℤ, pos, ◌≤ℤ◌, ◌<ℤ◌, ltb_ℤ}
use go_api_practice.Prelude.Assoc.{Assoc, lookup, insert, delete, lookup-insert, lookup-delete}
use go_api_practice.Prelude.Blocking.{>>=-eq-some}
use go_api_practice.Partition.{
  pending, TopicPartition, PartitionState, FindResult, found, failed, find_latest_to_commit,
  read_offset,
}
use go_api_practice.Partition.Find.{find_never_passes_pending, find_fails_exactly}
use go_api_practice.Consumer.{
  RwMutex, KafkaConsumer, r_lock, r_unlock, w_lock, stopped, revoke_result, revoke_found,
  revoke_one, revoke_all,
}

-- Every state of the map has the entries and the last commit that its partition had in `m`.
abbrev pub Derived : Assoc ℕ PartitionState → Assoc ℕ PartitionState → Type 0
Derived m m' =
    (p : ℕ) (ps : PartitionState)
    → lookup p m' ≡ some ps
    → (old : PartitionState) × (lookup p m ≡ some old)
      × (ps.state ≡ old.state)
      × (ps.last_commited ≡ old.last_commited)

-- What is committed for a partition is an offset of the log that is past no pending message.
abbrev pub Committable : Assoc ℕ PartitionState → TopicPartition → Type 0
Committable m tp =
    (pos 0 ≤ℤ tp.offset)
    × (old : PartitionState) × (lookup tp.partition m ≡ some old)
    × ((x : ℤ) → old.last_commited ≤ℤ x → x <ℤ tp.offset → read_offset old x ≢ some pending)

abbrev pub All {ℓ κ} : {A : Type ℓ} → (A → Type κ) → List A → Type κ
All P [] = Unit
All P (x ∷ xs) = P x × All P xs

All-append {ℓ κ} :
    {A : Type ℓ} (P : A → Type κ) (xs ys : List A) → All P xs → All P ys → All P (xs ++ ys)
All-append P [] ys h k = k
All-append P (x ∷ xs) ys h k = (h.0, All-append P xs ys h.1 k)

module _ (m : Assoc ℕ PartitionState) where
  revoke_failed-Derived :
      (c : KafkaConsumer) (p : ℕ) (ps : PartitionState)
      → Derived m c.msgs_state_map
      → lookup p c.msgs_state_map ≡ some ps
      → Derived m (insert p (stopped ps) c.msgs_state_map)
  unfolding stopped
  revoke_failed-Derived c p ps d h q qs e = elim (Bool-cases (p == q)) [
    | inl t ↦
        let (old, l, s, k) = d p ps h in
        let same_ps : stopped ps ≡ qs =
          ground (arith, lookup-insert p q (stopped ps) c.msgs_state_map, e) in
        let same_p : p ≡ q = (==_iff p q).0 t in
        (
          old,
          sym (ap (λ x. lookup x m) same_p) ∙ l,
          sym (ap (λ x. x.state) same_ps) ∙ s,
          sym (ap (λ x. x.last_commited) same_ps) ∙ k,
        )
    | inr t ↦ d q qs (ground (arith, lookup-insert p q (stopped ps) c.msgs_state_map))
  ]

  revoke_found-Derived :
      (c : KafkaConsumer) (p : ℕ)
      → Derived m c.msgs_state_map
      → Derived m (delete p c.msgs_state_map)
  revoke_found-Derived c p d q qs e = d q qs (ground (arith, lookup-delete p q c.msgs_state_map))

  abbrev Safe : KafkaConsumer × List TopicPartition → Type 0
  Safe r = Derived m r.0.msgs_state_map × All (Committable m) r.1

  found-Committable :
      (ps ps' : PartitionState) (tp latest : TopicPartition)
      → find_latest_to_commit (stopped ps) ≡ (ps', found latest)
      → (old : PartitionState) × (lookup tp.partition m ≡ some old)
        × (ps.state ≡ old.state)
        × (ps.last_commited ≡ old.last_commited)
      → ltb_ℤ latest.offset (pos 0) ≡ false
      → Committable m (record tp { offset = latest.offset })
  unfolding stopped read_offset
  found-Committable ps ps' tp latest call (old, l, s, k) h = (
    ground arith,
    old,
    l,
    λ x i j e. (find_never_passes_pending (stopped ps) ps' latest call x (rw k i) j).0 (rw s e),
  )

  revoke_result-Safe :
      (c : KafkaConsumer) (acc : List TopicPartition) (tp : TopicPartition) (ps : PartitionState)
      (p : PartitionState × FindResult) (r : KafkaConsumer × List TopicPartition)
      → find_latest_to_commit (stopped ps) ≡ p
      → lookup tp.partition c.msgs_state_map ≡ some ps
      → Safe (c, acc)
      → revoke_result c acc tp p ≡ some r
      → Safe r
  unfolding revoke_result
  revoke_result-Safe c acc tp ps (ps', failed e) r call l s h =
      let kept : stopped ps ≡ ps' =
        sym ((find_fails_exactly (stopped ps)).2 e (ap (λ q. q.1) call)) ∙ ap (λ q. q.0) call in
      subst Safe (some-injective _ _ h) (
        subst (λ q. Derived m (insert tp.partition q c.msgs_state_map)) kept
            (revoke_failed-Derived c tp.partition ps s.0 l),
        s.1,
      )
  revoke_result-Safe c acc tp ps (ps', found latest) r call l s h =
      let (mu, _, e) = >>=-eq-some (w_lock c.mu) _ h in
      subst Safe (some-injective _ _ e) (
        revoke_found-Derived c tp.partition s.0,
        elim (Bool-cases (ltb_ℤ latest.offset (pos 0))) [
          | inl t ↦ rw t s.1
          | inr t ↦ rw t (
              All-append (Committable m) acc (record tp { offset = latest.offset } ∷ []) s.1
                (found-Committable ps ps' tp latest call (s.0 tp.partition ps l) t, tt))
        ],
      )

  revoke_one-Safe :
      (c : KafkaConsumer) (acc : List TopicPartition) (tp : TopicPartition)
      (r : KafkaConsumer × List TopicPartition)
      → Safe (c, acc)
      → revoke_one c acc tp ≡ some r
      → Safe r
  unfolding revoke_one revoke_found
  revoke_one-Safe c acc tp r s h =
      let (mu, _, e) = >>=-eq-some (r_lock c.mu) _ h in
      by_case mu (lookup tp.partition c.msgs_state_map) refl e
    where
      by_case :
          (mu : RwMutex) (o : Option PartitionState)
          → lookup tp.partition c.msgs_state_map ≡ o
          → revoke_found (record c { mu = r_unlock mu }) acc tp o ≡ some r
          → Safe r
      by_case mu none l e = subst Safe (some-injective _ _ e) s
      by_case mu (some ps) l e =
          revoke_result-Safe (record c { mu = r_unlock mu }) acc tp ps
            (find_latest_to_commit (stopped ps)) r refl l s e

  pub revoke_all-Safe :
      (tps : List TopicPartition) (c : KafkaConsumer) (acc : List TopicPartition)
      (r : KafkaConsumer × List TopicPartition)
      → Safe (c, acc)
      → revoke_all tps c acc ≡ some r
      → Safe r
  unfolding revoke_all
  revoke_all-Safe [] c acc r s h = subst Safe (some-injective _ _ h) s
  revoke_all-Safe (tp ∷ tps) c acc r s h =
      let (q, e, k) = >>=-eq-some (revoke_one c acc tp) _ h in
      revoke_all-Safe tps q.0 q.1 r (revoke_one-Safe c acc tp q s e) k
