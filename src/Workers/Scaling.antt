-- ===== src/Workers/Scaling.antt =====
-- scaleUp and scaleDown: the clients are shared out anew, and the number of workers follows them.
use mathlib.Core.Path.{subst}
use go_api_practice.Prelude.{
  ℕ, ◌+◌, ◌-◌, ◌*◌, ◌≤◌, ◌<◌, false, some, [], ◌∷◌, ◌++◌, ◌≡◌, refl, sym, ap, ◌∙◌, inl, inr, ◌⊎◌,
  ◌&&◌, bytes_key, length, arith, Bool-cases, take, ltb, leb, get_elem?-append, get_elem?-take,
  length-take, length-append,
}
use go_api_practice.Prelude.Members.{contains}
use go_api_practice.Workers.{
  ClientId, WsServer, shard, scale_up, scale_down, check_scale_up, check_scale_down,
}
use go_api_practice.Workers.Placement.{Placed}
use go_api_practice.Workers.Sharding.{Kept, IsSharded, shard-lt, reshard-Placed}

grown-Placed :
    (n : ℕ) (srv : WsServer)
    → 0 < n
    → Placed n (shard n) srv
    → Placed
        (n + 1)
        (shard n)
        (record srv { workers = srv.workers ++ (record { id = n; clients = [] } ∷ []) })
unfolding contains
grown-Placed n srv h p = record {
  size = omega (arith, p.size, length-append srv.workers (record { id = n; clients = [] } ∷ []));
  ids = λ i w e. elim (get_elem?-append srv.workers _ i w e) [
    | inl l ↦ p.ids i w l
    | inr l ↦ sym (ap (λ x. x.id) l.1) ∙ sym p.size ∙ sym l.0
  ];
  home = p.home;
  holds = λ i w j e. elim (get_elem?-append srv.workers _ i w e) [
    | inl l ↦ p.holds i w j l
    | inr l ↦
        let c : contains j w.clients ≡ false = ap (λ x. contains j x.clients) (sym l.1) in
        (
          λ m. absurd (ground (arith, c)),
          λ m. absurd (omega (arith, m.1, l.0, p.size, shard-lt n j h)),
        )
  ];
}

shrunk-Placed :
    (n : ℕ) (place : ClientId → ℕ) (srv : WsServer)
    → Placed n place srv
    → Placed (n - 1) place (record srv { workers = take (n - 1) srv.workers })
shrunk-Placed n place srv p = record {
  size = length-take (n - 1) srv.workers (omega (arith, p.size));
  ids = λ i w e. p.ids i w (get_elem?-take (n - 1) srv.workers i w e).0;
  home = p.home;
  holds = λ i w j e. p.holds i w j (get_elem?-take (n - 1) srv.workers i w e).0;
}

-- What a check for scaling leaves behind: a sharded server with the same clients, and how many
-- workers it has.
abbrev pub Scaled : ℕ → WsServer → WsServer → Type 0
Scaled n srv srv' = (length srv'.workers ≡ n) × Placed n (shard n) srv' × Kept srv srv'

scale_up-Scaled :
    (n : ℕ) (srv : WsServer)
    → 0 < n
    → Placed n (shard n) srv
    → (srv' : WsServer) × (scale_up (n - 1) srv ≡ some srv') × Scaled (n + 1) srv srv'
unfolding scale_up
scale_up-Scaled n srv h p =
    let q : n - 1 + 1 ≡ n = omega arith in
    let (srv', e, r, k) =
      reshard-Placed (n + 1) (shard n)
        (record srv { workers = srv.workers ++ (record { id = n; clients = [] } ∷ []) })
        (omega arith) (grown-Placed n srv h p) in
    (srv', rw q e, (r.size, r, k))

scale_down-Scaled :
    (n : ℕ) (srv : WsServer)
    → 1 < n
    → Placed n (shard n) srv
    → (srv' : WsServer) × (scale_down (n - 1) srv ≡ some srv') × Scaled (n - 1) srv srv'
unfolding scale_down
scale_down-Scaled n srv h p =
    let (srv', e, r, k) =
      reshard-Placed (n - 1) (shard n) (record srv { workers = take (n - 1) srv.workers })
        (omega arith) (shrunk-Placed n (shard n) srv p) in
    (srv', e, (r.size, r, k))

-- A server whose workers are enough for its clients: beyond 50 clients, there are never more than 25
-- for each worker and 25 over.
pub record IsBalanced (srv : WsServer) : Type 0 where
  pub sharded : IsSharded srv
  pub per_worker : srv.clients_per_worker ≡ 50
  pub fits : (length srv.clients ≤ 50) ⊎ (2 * length srv.clients ≤ 50 * (length srv.workers + 1))

Scaled-IsBalanced :
    (n : ℕ) (srv srv' : WsServer)
    → 0 < n
    → Scaled n srv srv'
    → srv.clients_per_worker ≡ 50
    → (length srv.clients ≤ 50) ⊎ (2 * length srv.clients ≤ 50 * (n + 1))
    → IsBalanced srv'
Scaled-IsBalanced n srv srv' h s per fits = record {
  sharded = record {
    some_worker = rw s.0 h;
    placed = subst (λ k. Placed k (shard k) srv') (sym s.0) s.1;
  };
  per_worker = s.2.1 ∙ per;
  fits = rw (s.0, s.2.0) fits;
}

unscaled : (n : ℕ) (srv : WsServer) → Placed n (shard n) srv → Scaled n srv srv
unscaled n srv p = (p.size, p, (refl, refl))

pub check_scale_up-IsBalanced :
    (n : ℕ) (srv : WsServer)
    → 0 < n
    → Placed n (shard n) srv
    → srv.clients_per_worker ≡ 50
    → (length srv.clients ≤ 51) ⊎ (2 * length srv.clients ≤ 50 * (n + 1) + 2)
    → (srv' : WsServer) × (check_scale_up srv ≡ some srv') × IsBalanced srv' × Kept srv srv'
unfolding check_scale_up
check_scale_up-IsBalanced n srv h p per fits =
    let total = length srv.clients in
    let need : ℕ = length srv.workers * srv.clients_per_worker in
    let e₀ : need ≡ n * 50 = ap (λ k. k * srv.clients_per_worker) p.size ∙ ap (λ k. n * k) per in
    elim (Bool-cases (ltb srv.clients_per_worker total && ltb need (2 * total))) [
      | inl t ↦
          let (srv', e, s) = scale_up-Scaled n srv h p in
          (
            srv',
            rw t (ap (λ k. scale_up (k - 1) srv) p.size ∙ e),
            Scaled-IsBalanced (n + 1) srv srv' (omega arith) s per (ground arith),
            s.2,
          )
      | inr t ↦ (
        srv,
        rw t refl,
        Scaled-IsBalanced n srv srv h (unscaled n srv p) per (ground arith),
        (refl, refl),
      )
    ]

pub check_scale_down-IsBalanced :
    (n : ℕ) (srv : WsServer)
    → 0 < n
    → Placed n (shard n) srv
    → srv.clients_per_worker ≡ 50
    → (length srv.clients ≤ 50) ⊎ (2 * length srv.clients ≤ 50 * (n + 1))
    → (srv' : WsServer) × (check_scale_down srv ≡ some srv') × IsBalanced srv' × Kept srv srv'
unfolding check_scale_down
check_scale_down-IsBalanced n srv h p per fits =
    let total = length srv.clients in
    let need : ℕ = length srv.workers * srv.clients_per_worker in
    let e₀ : need ≡ n * 50 = ap (λ k. k * srv.clients_per_worker) p.size ∙ ap (λ k. n * k) per in
    elim (Bool-cases (ltb srv.clients_per_worker total && leb (2 * total) need)) [
      | inl t ↦
          let (srv', e, s) = scale_down-Scaled n srv (ground arith) p in
          (
            srv',
            rw t (ap (λ k. scale_down (k - 1) srv) p.size ∙ e),
            Scaled-IsBalanced (n - 1) srv srv' (ground arith) s per (ground arith),
            s.2,
          )
      | inr t ↦
          (srv, rw t refl, Scaled-IsBalanced n srv srv h (unscaled n srv p) per fits, (refl, refl))
    ]
