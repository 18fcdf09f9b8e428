-- ===== src/Workers/Sharding.antt =====
-- Every client is in the worker that getWorker picks for it, across joining, leaving and scaling.
use mathlib.Core.Path.{subst}
use native.Mathlib.Nat.{mod-lt}
use go_api_practice.Prelude.{
  ℕ, ◌<◌, true, some, List, [], ◌∷◌, map, ◌≡◌, refl, sym, ap, ◌∙◌, inl, inr, if◌then◌else◌,
  bytes_key, same, same_iff, length, get_elem?, arith, Bool-cases, ◌==◌, ==_iff, get_elem?-lt,
}
use go_api_practice.Prelude.Assoc.{insert}
use go_api_practice.Prelude.Members.{contains, add, remove}
use go_api_practice.Workers.{
  ClientId, Worker, WsServer, shard, get_worker, touch, add_client_to_worker, move_client,
  move_clients, hash,
}
use go_api_practice.Workers.Placement.{Placed, moved, Placed-congr, remove-Outside, settle-Placed}

-- `n` workers with every client in its own, where there is at least one worker.
pub record IsSharded (srv : WsServer) : Type 0 where
  pub some_worker : 0 < length srv.workers
  pub placed : Placed (length srv.workers) (shard (length srv.workers)) srv

pub shard-lt : (n : ℕ) (id : ClientId) → 0 < n → shard n id < n
unfolding shard
shard-lt n id h = mod-lt (hash 0 id) h

pub get_worker-shard :
    (n : ℕ) (srv : WsServer) (id : ClientId)
    → 0 < n
    → length srv.workers ≡ n
    → ((i : ℕ) (w : Worker) → get_elem? srv.workers i ≡ some w → w.id ≡ i)
    → (w : Worker) × (get_worker srv id ≡ some w) × (w.id ≡ shard n id)
unfolding get_worker
get_worker-shard n srv id h size ids =
    let (w, e) =
      get_elem?-lt srv.workers (shard (length srv.workers) id) (rw size (shard-lt n id h)) in
    (w, e, ids (shard (length srv.workers) id) w e ∙ ap (λ k. shard k id) size)

pub contains_self :
    (id j : ClientId) (ids : List ClientId)
    → contains id ids ≡ true
    → contains j ids ≡ (if same id j then true else contains j ids)
contains_self id j ids h = elim (Bool-cases (same id j)) [
  | inl t ↦ rw t (ap (λ x. contains x ids) (sym ((same_iff id j).0 t)) ∙ h)
  | inr t ↦ rw t refl
]

-- What a round of moving leaves alone.
abbrev pub Kept : WsServer → WsServer → Type 0
Kept srv srv' = (srv'.clients ≡ srv.clients) × (srv'.clients_per_worker ≡ srv.clients_per_worker)

move_client-Placed :
    (n : ℕ) (place : ClientId → ℕ) (srv : WsServer) (id : ClientId)
    → 0 < n
    → Placed n place srv
    → contains id srv.clients ≡ true
    → (srv' : WsServer) × (move_client srv id ≡ some srv')
      × Placed n (moved place id (shard n id)) srv'
      × Kept srv srv'
unfolding move_client add_client_to_worker
move_client-Placed n place srv id h p m =
    let (cl, l, e) = p.home id m in
    let (w, g, s) = get_worker-shard n srv id h p.size p.ids in
    elim (Bool-cases (place id == w.id)) [
      | inl t ↦ (
        srv,
        rw (l, e, g, t) refl,
        Placed-congr n place (moved place id (shard n id)) srv
            (still ((==_iff (place id) w.id).0 t ∙ s)) p,
        (refl, refl),
      )
      | inr t ↦
          let srv₁ = record srv { workers = map (touch (place id) (remove id)) srv.workers } in
          let o = remove-Outside n place srv id (place id) p (λ x. refl) in
          let (v, b, r) = get_worker-shard n srv₁ id h o.size o.ids in
          let srv' = record srv₁ {
            workers = map (touch v.id (add id)) srv₁.workers;
            heap = insert id (record cl { worker = some v.id }) srv.heap;
          } in
          (
            srv',
            rw (l, e, g, t, b) refl,
            subst (λ k. Placed n (moved place id k) srv') r
                (settle-Placed n place srv₁ srv' id v.id cl o refl refl
                  (λ j. contains_self id j srv.clients m)),
            (refl, refl),
          )
    ]
  where
    still :
        place id ≡ shard n id
        → (j : ClientId) → contains j srv.clients ≡ true
        → place j ≡ moved place id (shard n id) j
    still q j k = elim (Bool-cases (same id j)) [
      | inl t ↦ rw t (sym (ap place ((same_iff id j).0 t)) ∙ q)
      | inr t ↦ rw t refl
    ]

-- Where `ids` are still to be moved, the placement that the loop ends in.
abbrev pub resharded : ℕ → (ClientId → ℕ) → List ClientId → ClientId → ℕ
resharded n place ids j = if contains j ids then shard n j else place j

move_clients-Placed :
    (n : ℕ) (place : ClientId → ℕ) (ids : List ClientId) (srv : WsServer)
    → 0 < n
    → Placed n place srv
    → ((j : ClientId) → contains j ids ≡ true → contains j srv.clients ≡ true)
    → (srv' : WsServer) × (move_clients ids srv ≡ some srv')
      × Placed n (resharded n place ids) srv'
      × Kept srv srv'
unfolding move_clients contains
move_clients-Placed n place [] srv h p sub = (srv, refl, p, (refl, refl))
move_clients-Placed n place (id ∷ ids) srv h p sub =
    let (srv₁, e, q, k) =
      move_client-Placed n place srv id h p (sub id (ground (arith, same_iff id id))) in
    let (srv₂, f, r, l) =
      move_clients-Placed n (moved place id (shard n id)) ids srv₁ h q
        (λ j m. rw k.0 (sub j (ground arith))) in
    (srv₂, rw e f, Placed-congr n _ _ srv₂ (λ j m. agree j) r, (l.0 ∙ k.0, l.1 ∙ k.1))
  where
    agree :
        (j : ClientId)
        → resharded n (moved place id (shard n id)) ids j ≡ resharded n place (id ∷ ids) j
    agree j = elim (Bool-cases (same id j)) [
      | inl t ↦
          let q : shard n id ≡ shard n j = ap (shard n) ((same_iff id j).0 t) in
          rw t (ground (arith, q))
      | inr t ↦ rw t refl
    ]

-- The loop, over all clients of the server.
pub reshard-Placed :
    (n : ℕ) (place : ClientId → ℕ) (srv : WsServer)
    → 0 < n
    → Placed n place srv
    → (srv' : WsServer) × (move_clients srv.clients srv ≡ some srv')
      × Placed n (shard n) srv'
      × Kept srv srv'
reshard-Placed n place srv h p =
    let (srv', e, q, k) = move_clients-Placed n place srv.clients srv h p (λ j m. m) in
    (
      srv',
      e,
      Placed-congr n (resharded n place srv.clients) (shard n) srv'
          (λ j m.
            let t : contains j srv.clients ≡ true = ap (contains j) (sym k.0) ∙ m in rw t refl)
          q,
      k,
    )
