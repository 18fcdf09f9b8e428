-- ===== src/LoopServer/Sending/Stopped.antt =====
-- A goroutine of sendMsg before a client whose writeMsgLoop has ended.
use mathlib.Core.Path.{subst}
use mathlib.Core.Option.{some-injective}
use go_api_practice.Prelude.{
  ℕ, zero, suc, ◌≤◌, Bool, true, false, Option, none, some, List, [], ◌∷◌, ◌++◌, ◌≡◌, inl, inr,
  refl, sym, ap, ◌∙◌, arith, String, string_key, same, same_iff, Bool-cases, if◌then◌else◌, length,
  get_elem?, get_elem?-set_ne, ◌==◌, ==_iff,
}
use go_api_practice.Prelude.Assoc.{Assoc, lookup, insert, lookup-insert}
use go_api_practice.Prelude.Run.{Run, done, waits, >>=-eq-done, done-injective}
use go_api_practice.Ring.{RespMsg}
use go_api_practice.LoopServer.Sending.{
  channel_size, Conn, Sender, Net, new_conn, Act, writes, ticks, pongs, leaves, stops, SendEvent,
  connects, acts, pings, send_starts, send_goes, put, run_act, conn_of, connected, send_next,
  send_one, labelled, send_step, send_steps,
}

-- No longer served, with a full channel.
abbrev pub Halted : Conn → Type 0
Halted c = (c.writing ≡ false) × (channel_size ≤ length c.msg_ch)

unless_left :
    (b : Bool) (x c' : Conn) (w : List RespMsg)
    → ◌≡◌ {A = Run (Conn × List RespMsg)} (if b then waits else done (x, [])) (done (c', w))
    → Halted x
    → Halted c'
unless_left true x c' w r h = absurd (ground (arith, r))
unless_left false x c' w r h = subst (λ q. Halted q.0) (done-injective (x, []) (c', w) r) h

act-Halted :
    (act : Act) (c c' : Conn) (w : List RespMsg)
    → run_act act c ≡ done (c', w)
    → Halted c
    → Halted c'
unfolding run_act
act-Halted (writes ok) c c' w r (h, k) = absurd (ground (arith, r, h))
act-Halted ticks c c' w r (h, k) = absurd (ground (arith, r, h))
act-Halted pongs c c' w r (h, k) = unless_left c.left _ c' w r (h, k)
act-Halted leaves c c' w r (h, k) = unless_left c.left _ c' w r (h, k)
act-Halted stops c c' w r (h, k) = absurd (ground (arith, r, h))

put-Halted : (resp : RespMsg) (c c' : Conn) → put resp c ≡ done c' → Halted c → ⊥
put-Halted resp c c' r (h, k) = ground (arith, r, k)

-- The client `id` is halted, and the goroutine `k` of sendMsg has to write to it next.
abbrev pub Blocked : String → ℕ → List String → RespMsg → Net → Type 0
Blocked id k ids resp net =
    ((c : Conn) × (lookup id net.conns ≡ some c) × Halted c)
    × (get_elem? net.senders k ≡ some (record { clients = id ∷ ids; resp = resp }))

-- A write to the map of clients that halts no client less.
insert-Halted :
    (id id' : String) (c' : Conn) (conns : Assoc String Conn)
    → ((c : Conn) × (lookup id conns ≡ some c) × Halted c)
    → ((c : Conn) → lookup id' conns ≡ some c → Halted c → Halted c')
    → (c : Conn) × (lookup id (insert id' c' conns) ≡ some c) × Halted c
insert-Halted id id' c' conns (c, e, h) keeps = elim (Bool-cases (same id' id)) [
  | inl s ↦
      let here : lookup id' conns ≡ some c = ap (λ j. lookup j conns) ((same_iff id' id).0 s) ∙ e in
      (c', lookup-insert id' id c' conns ∙ rw s refl, keeps c here h)
  | inr s ↦ (c, lookup-insert id' id c' conns ∙ rw s e, h)
]

conn_of-eq : (o : Option Conn) (c : Conn) → conn_of o ≡ done c → o ≡ some c
conn_of-eq none c h = absurd (ground (arith, h))
conn_of-eq (some d) c h = ap some (done-injective d c h)

get_elem?-more :
    {A : Type 0} (xs : List A) (y a : A) (i : ℕ)
    → get_elem? xs i ≡ some a
    → get_elem? (xs ++ (y ∷ [])) i ≡ some a
get_elem?-more [] y a i h = absurd (ground (arith, h))
get_elem?-more (x ∷ xs) y a zero h = h
get_elem?-more (x ∷ xs) y a (suc i) h = get_elem?-more xs y a i h

abbrev head_or : String → List String → String
head_or d [] = d
head_or d (id ∷ ids) = id

send_next-Blocked :
    (id : String) (k : ℕ) (ids : List String) (resp : RespMsg) (net mid : Net) (j : ℕ) (s : Sender)
    (todo : List String)
    → get_elem? net.senders j ≡ some s
    → s.clients ≡ todo
    → send_next net j s todo ≡ done mid
    → Blocked id k ids resp net
    → Blocked id k ids resp mid
send_next-Blocked id k ids resp net mid j s [] g t r b = absurd (ground (arith, r))
send_next-Blocked id k ids resp net mid j s (id' ∷ todo) g t r ((c₀, e₀, h₀), waiting) =
    let (c, m, d) = >>=-eq-done (conn_of (lookup id' net.conns)) _ r in
    let (c', m', d') = >>=-eq-done (put s.resp c) _ d in
    let there = conn_of-eq (lookup id' net.conns) c m in
    let still_puts : (c₁ : Conn) → lookup id' net.conns ≡ some c₁ → Halted c₁ → ⊥ =
      λ c₁ e h. put-Halted s.resp c c' m' (subst Halted (some-injective _ _ (sym e ∙ there)) h) in
    subst (Blocked id k ids resp) (done-injective _ _ d') (elim (Bool-cases (j == k)) [
      | inl y ↦
          let same_sender =
            some-injective _ _ (sym g ∙ ap (get_elem? net.senders) ((==_iff j k).0 y) ∙ waiting) in
          let same_id : id' ≡ id = ap (head_or id) (sym t ∙ ap (λ q. q.clients) same_sender) in
          absurd (still_puts c₀ (ap (λ i. lookup i net.conns) same_id ∙ e₀) h₀)
      | inr y ↦ (
        insert-Halted id id' c' net.conns (c₀, e₀, h₀) (λ c₁ e h. absurd (still_puts c₁ e h)),
        get_elem?-set_ne net.senders _ (λ eq. absurd (ground (arith, y, (==_iff j k).1 eq)))
            ∙ waiting,
      )
    ])

send_one-Blocked :
    (id : String) (k : ℕ) (ids : List String) (resp : RespMsg) (net mid : Net) (j : ℕ)
    (o : Option Sender)
    → get_elem? net.senders j ≡ o
    → send_one net j o ≡ done mid
    → Blocked id k ids resp net
    → Blocked id k ids resp mid
send_one-Blocked id k ids resp net mid j none g r b = absurd (ground (arith, r))
send_one-Blocked id k ids resp net mid j (some s) g r b =
    send_next-Blocked id k ids resp net mid j s s.clients g refl r b

step-Blocked :
    (id : String) (k : ℕ) (ids : List String) (resp : RespMsg) (net net' : Net) (e : SendEvent)
    (w : List (String × RespMsg))
    → send_step net e ≡ done (net', w)
    → Blocked id k ids resp net
    → Blocked id k ids resp net'
unfolding send_step
step-Blocked id k ids resp net net' (connects id') w r (halted, waiting) =
    let (mid, m, d) = >>=-eq-done (connected net id' (lookup id' net.conns)) _ r in
    let p = done-injective (mid, []) (net', w) d in
    subst (λ q. Blocked id k ids resp q.0) p (by_conn (lookup id' net.conns) refl mid m)
  where
    by_conn :
        (o : Option Conn)
        → lookup id' net.conns ≡ o
        → (mid : Net) → connected net id' o ≡ done mid
        → Blocked id k ids resp mid
    by_conn (some c) e mid m = absurd (ground (arith, m))
    by_conn none e mid m = subst (Blocked id k ids resp) (done-injective _ _ m) (
      insert-Halted id id' new_conn net.conns halted
          (λ c there h. absurd (ground (arith, e, there))),
      waiting,
    )
step-Blocked id k ids resp net net' (acts id' act) w r (halted, waiting) =
    let (c, m, d) = >>=-eq-done (conn_of (lookup id' net.conns)) _ r in
    let (q, m', d') = >>=-eq-done (run_act act c) _ d in
    let p =
      done-injective (record net { conns = insert id' q.0 net.conns }, labelled id' q.1) (net', w)
        d' in
    let there = conn_of-eq (lookup id' net.conns) c m in
    subst (λ n. Blocked id k ids resp n.0) p
      (
        insert-Halted id id' q.0 net.conns halted (λ c₁ e h.
            act-Halted act c q.0 q.1 m' (subst Halted (some-injective _ _ (sym e ∙ there)) h)),
        waiting,
      )
step-Blocked id k ids resp net net' (pings id' ping) w r (halted, waiting) =
    let (c, m, d) = >>=-eq-done (conn_of (lookup id' net.conns)) _ r in
    let (c', m', d') = >>=-eq-done (put ping c) _ d in
    let p = done-injective (record net { conns = insert id' c' net.conns }, []) (net', w) d' in
    let there = conn_of-eq (lookup id' net.conns) c m in
    subst (λ n. Blocked id k ids resp n.0) p
      (
        insert-Halted id id' c' net.conns halted (λ c₁ e h.
            absurd (put-Halted ping c c' m' (subst Halted (some-injective _ _ (sym e ∙ there)) h))),
        waiting,
      )
step-Blocked id k ids resp net net' (send_starts all msg) w r (halted, waiting) =
    subst (λ n. Blocked id k ids resp n.0) (done-injective _ (net', w) r)
      (halted, get_elem?-more net.senders (record { clients = all; resp = msg }) _ k waiting)
step-Blocked id k ids resp net net' (send_goes j) w r (halted, waiting) =
    let (mid, m, d) = >>=-eq-done (send_one net j (get_elem? net.senders j)) _ r in
    let p = done-injective (mid, []) (net', w) d in
    subst (λ q. Blocked id k ids resp q.0) p
      (send_one-Blocked id k ids resp net mid j (get_elem? net.senders j) refl m (halted, waiting))

-- If the writeMsgLoop of a client has ended and its channel is full, a goroutine of sendMsg that has to
-- write to it next stays where it is, whatever else happens: neither that client nor those that it would
-- write to after it get the message from it. The channel stays full.
pub stopped_client_blocks_sender :
    (id : String) (k : ℕ) (ids : List String) (resp : RespMsg) (net net' : Net)
    (es : List SendEvent) (log : List (String × RespMsg))
    → Blocked id k ids resp net
    → send_steps net es ≡ done (net', log)
    → Blocked id k ids resp net'
unfolding send_steps
stopped_client_blocks_sender id k ids resp net net' [] log b r =
    subst (λ q. Blocked id k ids resp q.0) (done-injective (net, []) (net', log) r) b
stopped_client_blocks_sender id k ids resp net net' (e ∷ es) log b r =
    let (q, m, d) = >>=-eq-done (send_step net e) _ r in
    let (q', m', d') = >>=-eq-done (send_steps q.0 es) _ d in
    let p = done-injective (q'.0, q.1 ++ q'.1) (net', log) d' in
    subst (λ x. Blocked id k ids resp x.0) p
      (stopped_client_blocks_sender id k ids resp q.0 q'.0 es q'.1
        (step-Blocked id k ids resp net q.0 e q.1 m b) m')
