-- ===== src/Consumer/Lock.antt =====
-- The read lock that UpdateState keeps when the partition is missing.
use go_api_practice.Prelude.{
  ◌+◌, ◌≤◌, Bool, false, Option, none, some, List, [], ◌∷◌, ◌≡◌, arith, nat_key,
}
use go_api_practice.Prelude.Assoc.{lookup, insert}
use go_api_practice.Prelude.Blocking.{◌>>=◌, >>=-eq-some}
use go_api_practice.Partition.{
  MsgState, TopicPartition, PartitionState, FindResult, found, failed, find_latest_to_commit,
  set_msg_state, receive,
}
use go_api_practice.Consumer.{
  RwMutex, KafkaConsumer, Broker, RebalanceEvent, assigned_partitions, revoked_partitions,
  other_event, r_lock, r_unlock, w_lock, w_unlock, update_state, update_found, append_msg_state,
  append_found, assign_prnt_cb, revoke_result, revoke_found, revoke_one, revoke_all, revoke_prtn_cb,
  rebalance_cb, stopped,
}

-- The calls that a consumer serves, in any order.
pub data Call : Type 0 where
  update : TopicPartition → MsgState → Call
  append : TopicPartition → Call
  rebalance : RebalanceEvent → Call

unfoldable pub call : Broker → KafkaConsumer → Call → Option KafkaConsumer
call b c (update tp m) = update_state c tp m
call b c (append tp) = append_msg_state c tp
call b c (rebalance ev) = do (c', ok) ← rebalance_cb b c ev; some c'

unfoldable pub call_all : Broker → KafkaConsumer → List Call → Option KafkaConsumer
call_all b c [] = some c
call_all b c (k ∷ ks) = do c' ← call b c k; call_all b c' ks

-- A read lock that is taken leaves one more reader, and no writer.
r_lock-readers : (m m' : RwMutex) → r_lock m ≡ some m' → m'.readers ≡ m.readers + 1
unfolding r_lock
r_lock-readers m m' h = ground arith

update-readers :
    (c c' : KafkaConsumer) (tp : TopicPartition) (m : MsgState)
    → update_state c tp m ≡ some c'
    → c.mu.readers ≤ c'.mu.readers
unfolding update_state r_unlock
update-readers c c' tp m h =
    let (mu, l, e) = >>=-eq-some (r_lock c.mu) _ h in
    by_case mu (r_lock-readers c.mu mu l) (lookup tp.partition c.msgs_state_map) e
  where
    by_case :
        (mu : RwMutex)
        → mu.readers ≡ c.mu.readers + 1
        → (o : Option PartitionState) → some (update_found c tp m mu o) ≡ some c'
        → c.mu.readers ≤ c'.mu.readers
    by_case mu l none e = ground arith
    by_case mu l (some ps) e = ground arith

append-readers :
    (c c' : KafkaConsumer) (tp : TopicPartition)
    → append_msg_state c tp ≡ some c'
    → c.mu.readers ≤ c'.mu.readers
unfolding append_msg_state r_unlock
append-readers c c' tp h =
    let (mu, l, e) = >>=-eq-some (r_lock c.mu) _ h in
    by_case mu (r_lock-readers c.mu mu l) (lookup tp.partition c.msgs_state_map) e
  where
    by_case :
        (mu : RwMutex)
        → mu.readers ≡ c.mu.readers + 1
        → (o : Option PartitionState)
        → some (append_found (record c { mu = r_unlock mu }) tp o) ≡ some c'
        → c.mu.readers ≤ c'.mu.readers
    by_case mu l none e = ground arith
    by_case mu l (some ps) e = ground arith

assign-readers :
    (b : Broker) (c c' : KafkaConsumer) (ps : List TopicPartition) (ok : Bool)
    → assign_prnt_cb b c ps ≡ some (c', ok)
    → c.mu.readers ≤ c'.mu.readers
unfolding assign_prnt_cb w_lock w_unlock
assign-readers b c c' ps ok h = ground arith

revoke_result-readers :
    (c c' : KafkaConsumer) (acc acc' : List TopicPartition) (tp : TopicPartition)
    (r : PartitionState × FindResult)
    → revoke_result c acc tp r ≡ some (c', acc')
    → c.mu.readers ≤ c'.mu.readers
unfolding revoke_result w_lock w_unlock
revoke_result-readers c c' acc acc' tp (ps, failed e) h = ground arith
revoke_result-readers c c' acc acc' tp (ps, found latest) h = ground arith

revoke_one-readers :
    (c c' : KafkaConsumer) (acc acc' : List TopicPartition) (tp : TopicPartition)
    → revoke_one c acc tp ≡ some (c', acc')
    → c.mu.readers ≤ c'.mu.readers
unfolding revoke_one r_unlock
revoke_one-readers c c' acc acc' tp h =
    let (mu, l, e) = >>=-eq-some (r_lock c.mu) _ h in
    by_case mu (r_lock-readers c.mu mu l) (lookup tp.partition c.msgs_state_map) e
  where
    by_case :
        (mu : RwMutex)
        → mu.readers ≡ c.mu.readers + 1
        → (o : Option PartitionState)
        → revoke_found (record c { mu = r_unlock mu }) acc tp o ≡ some (c', acc')
        → c.mu.readers ≤ c'.mu.readers
    by_case mu l none e = ground arith
    by_case mu l (some ps) e = ground (
      arith,
      revoke_result-readers (record c { mu = r_unlock mu }) c' acc acc' tp
          (find_latest_to_commit (stopped ps)) e,
    )

revoke_all-readers :
    (tps : List TopicPartition) (c c' : KafkaConsumer) (acc acc' : List TopicPartition)
    → revoke_all tps c acc ≡ some (c', acc')
    → c.mu.readers ≤ c'.mu.readers
unfolding revoke_all
revoke_all-readers [] c c' acc acc' h = ground arith
revoke_all-readers (tp ∷ tps) c c' acc acc' h =
    let (r, e, k) = >>=-eq-some (revoke_one c acc tp) _ h in
    omega (arith, revoke_one-readers c r.0 acc r.1 tp e, revoke_all-readers tps r.0 c' r.1 acc' k)

rebalance-readers :
    (b : Broker) (c c' : KafkaConsumer) (ev : RebalanceEvent) (ok : Bool)
    → rebalance_cb b c ev ≡ some (c', ok)
    → c.mu.readers ≤ c'.mu.readers
unfolding rebalance_cb revoke_prtn_cb
rebalance-readers b c c' (assigned_partitions ps) ok h = assign-readers b c c' ps ok h
rebalance-readers b c c' (revoked_partitions ps) ok h =
    let (r, e, k) = >>=-eq-some (revoke_prtn_cb b c ps) _ h in
    let (q, f, l) = >>=-eq-some (revoke_all ps c []) _ e in
    ground (arith, revoke_all-readers ps c q.0 [] q.1 f)
rebalance-readers b c c' other_event ok h = ground arith

call-readers :
    (b : Broker) (c c' : KafkaConsumer) (k : Call)
    → call b c k ≡ some c'
    → c.mu.readers ≤ c'.mu.readers
unfolding call
call-readers b c c' (update tp m) h = update-readers c c' tp m h
call-readers b c c' (append tp) h = append-readers c c' tp h
call-readers b c c' (rebalance ev) h =
    let (r, e, k) = >>=-eq-some (rebalance_cb b c ev) _ h in
    ground (arith, rebalance-readers b c r.0 ev r.1 e)

call_all-readers :
    (b : Broker) (c c' : KafkaConsumer) (ks : List Call)
    → call_all b c ks ≡ some c'
    → c.mu.readers ≤ c'.mu.readers
unfolding call_all
call_all-readers b c c' [] h = ground arith
call_all-readers b c c' (k ∷ ks) h =
    let (d, e, l) = >>=-eq-some (call b c k) _ h in
    omega (arith, call-readers b c d k e, call_all-readers b d c' ks l)

-- A report for a partition that the consumer does not have returns with the read lock held, so that
-- no assignment ever goes through again: whatever calls return after it, the next assignPrntCB
-- waits for the lock for ever.
pub missing_partition_blocks_assignment :
    (b : Broker) (c c₁ c₂ : KafkaConsumer) (tp : TopicPartition) (m : MsgState) (ks : List Call)
    (ps : List TopicPartition)
    → lookup tp.partition c.msgs_state_map ≡ none
    → update_state c tp m ≡ some c₁
    → call_all b c₁ ks ≡ some c₂
    → assign_prnt_cb b c₂ ps ≡ none
unfolding update_state assign_prnt_cb w_lock
missing_partition_blocks_assignment b c c₁ c₂ tp m ks ps miss h k =
    let (mu, l, e) = >>=-eq-some (r_lock c.mu) _ h in
    ground (arith, r_lock-readers c.mu mu l, call_all-readers b c₁ c₂ ks k)

-- With no writer at work, a report for a partition that the consumer has, and appendMsgState for
-- it, return with the lock as it was, and change the state of that partition and nothing else.
pub tracked_partition_releases_lock :
    (c : KafkaConsumer) (tp : TopicPartition) (m : MsgState) (ps : PartitionState)
    → c.mu.writer ≡ false
    → lookup tp.partition c.msgs_state_map ≡ some ps
    → (update_state c tp m
        ≡ some (record c {
          msgs_state_map = insert tp.partition (set_msg_state ps tp.offset m) c.msgs_state_map;
        }))
      × (append_msg_state c tp
          ≡ some
              (record c { msgs_state_map = insert tp.partition (receive ps tp) c.msgs_state_map }))
unfolding update_state append_msg_state r_lock r_unlock
tracked_partition_releases_lock c tp m ps w h = (rw h (ground arith), rw h (ground arith))
