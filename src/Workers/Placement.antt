-- ===== src/Workers/Placement.antt =====
-- Which worker holds which client, while clients enter, move and leave.
use go_api_practice.Prelude.{
  ℕ, true, false, some, List, map, ◌≡◌, ◌↔◌, refl, sym, ap, ◌∙◌, inl, inr, if◌then◌else◌, bytes_key,
  same, same_iff, length, get_elem?, arith, Bool-cases, ◌==◌, get_elem?-map, length-map,
}
use go_api_practice.Prelude.Assoc.{lookup, insert, lookup-insert}
use go_api_practice.Prelude.Members.{contains, add, remove, contains-add, contains-remove}
use go_api_practice.Workers.{ClientId, Worker, Client, WsServer, touch}

-- `n` workers, numbered from 0, and every client of the server in the worker where `place` puts it
-- and in no other.
pub record Placed (n : ℕ) (place : ClientId → ℕ) (srv : WsServer) : Type 0 where
  pub size : length srv.workers ≡ n
  pub ids : (i : ℕ) (w : Worker) → get_elem? srv.workers i ≡ some w → w.id ≡ i
  pub home :
      (j : ClientId)
      → contains j srv.clients ≡ true
      → (cl : Client) × (lookup j srv.heap ≡ some cl) × (cl.worker ≡ some (place j))
  pub holds :
      (i : ℕ) (w : Worker) (j : ClientId)
      → get_elem? srv.workers i ≡ some w
      → (contains j w.clients ≡ true) ↔ ((contains j srv.clients ≡ true) × (place j ≡ i))

-- The same for every client but `id`, which no worker holds.
pub record Outside (n : ℕ) (place : ClientId → ℕ) (id : ClientId) (srv : WsServer) : Type 0 where
  pub size : length srv.workers ≡ n
  pub ids : (i : ℕ) (w : Worker) → get_elem? srv.workers i ≡ some w → w.id ≡ i
  pub home :
      (j : ClientId)
      → same id j ≡ false
      → contains j srv.clients ≡ true
      → (cl : Client) × (lookup j srv.heap ≡ some cl) × (cl.worker ≡ some (place j))
  pub holds :
      (i : ℕ) (w : Worker) (j : ClientId)
      → same id j ≡ false
      → get_elem? srv.workers i ≡ some w
      → (contains j w.clients ≡ true) ↔ ((contains j srv.clients ≡ true) × (place j ≡ i))
  pub vacant :
      (i : ℕ) (w : Worker) → get_elem? srv.workers i ≡ some w → contains id w.clients ≡ false

abbrev pub moved : (ClientId → ℕ) → ClientId → ℕ → ClientId → ℕ
moved place id k j = if same id j then k else place j

touch-id : (k : ℕ) (f : List ClientId → List ClientId) (w : Worker) → (touch k f w).id ≡ w.id
unfolding touch
touch-id k f w = ground arith

touch-ids :
    (k : ℕ) (f : List ClientId → List ClientId) (ws : List Worker)
    → ((i : ℕ) (w : Worker) → get_elem? ws i ≡ some w → w.id ≡ i)
    → (i : ℕ) (w : Worker) → get_elem? (map (touch k f) ws) i ≡ some w
    → w.id ≡ i
touch-ids k f ws ids i w e =
    let (v, l, t) = get_elem?-map (touch k f) ws i w e in
    sym (ap (λ x. x.id) t) ∙ touch-id k f v ∙ ids i v l

-- The clients of a worker after another client is removed from worker `k`.
touch-remove :
    (k : ℕ) (id j : ClientId) (w : Worker)
    → contains j (touch k (remove id) w).clients ≡ (
        if w.id == k
        then if same id j then false else contains j w.clients
        else contains j w.clients)
unfolding touch
touch-remove k id j w = ground (arith, contains-remove id j w.clients)

touch-add :
    (k : ℕ) (id j : ClientId) (w : Worker)
    → contains j (touch k (add id) w).clients ≡ (
        if w.id == k
        then if same id j then true else contains j w.clients
        else contains j w.clients)
unfolding touch
touch-add k id j w = ground (arith, contains-add id j w.clients)

pub Placed-congr :
    (n : ℕ) (place place' : ClientId → ℕ) (srv : WsServer)
    → ((j : ClientId) → contains j srv.clients ≡ true → place j ≡ place' j)
    → Placed n place srv
    → Placed n place' srv
Placed-congr n place place' srv h p = record {
  size = p.size;
  ids = p.ids;
  home = λ j m. let (cl, l, e) = p.home j m in (cl, l, e ∙ ap some (h j m));
  holds = λ i w j e. (
    λ c. let (m, q) = (p.holds i w j e).0 c in (m, sym (h j m) ∙ q),
    λ mq. (p.holds i w j e).1 (mq.0, h j mq.0 ∙ mq.1),
  );
}

-- A client is removed from the worker that holds it.
pub remove-Outside :
    (n : ℕ) (place : ClientId → ℕ) (srv : WsServer) (id : ClientId) (k : ℕ)
    → Placed n place srv
    → (contains id srv.clients ≡ true → place id ≡ k)
    → Outside n place id (record srv { workers = map (touch k (remove id)) srv.workers })
remove-Outside n place srv id k p h = record {
  size = length-map (touch k (remove id)) srv.workers ∙ p.size;
  ids = touch-ids k (remove id) srv.workers p.ids;
  home = λ j d m. p.home j m;
  holds = λ i w j d e.
      let (v, l, t) = get_elem?-map (touch k (remove id)) srv.workers i w e in
      ground (arith, touch-remove k id j v, p.holds i v j l, ap (λ x. x.clients) t);
  vacant = λ i w e.
      let (v, l, t) = get_elem?-map (touch k (remove id)) srv.workers i w e in
      ground (
        arith,
        touch-remove k id id v,
        same_iff id id,
        p.holds i v id l,
        p.ids i v l,
        h,
        ap (λ x. x.clients) t,
      );
}

-- A client that no worker holds is put into worker `k`.
pub settle-Placed :
    (n : ℕ) (place : ClientId → ℕ) (srv srv' : WsServer) (id : ClientId) (k : ℕ) (cl : Client)
    → Outside n place id srv
    → srv'.workers ≡ map (touch k (add id)) srv.workers
    → srv'.heap ≡ insert id (record cl { worker = some k }) srv.heap
    → ((j : ClientId)
        → contains j srv'.clients ≡ (if same id j then true else contains j srv.clients))
    → Placed n (moved place id k) srv'
settle-Placed n place srv srv' id k cl o ws hp cs = record {
  size = ap length ws ∙ length-map (touch k (add id)) srv.workers ∙ o.size;
  ids = λ i w e. touch-ids k (add id) srv.workers o.ids i w (rw (sym ws) e);
  home = λ j m. elim (Bool-cases (same id j)) [
    | inl t ↦ (
      record cl { worker = some k },
      ap (lookup j) hp
          ∙ ground (arith, lookup-insert id j (record cl { worker = some k }) srv.heap),
      rw t refl,
    )
    | inr t ↦
        let (c, l, e) = o.home j t (ground (arith, cs j)) in
        (
          c,
          ap (lookup j) hp
              ∙ ground (arith, lookup-insert id j (record cl { worker = some k }) srv.heap),
          rw t e,
        )
  ];
  holds = λ i w j e.
      let (v, l, t) =
        get_elem?-map (touch k (add id)) srv.workers i w (ap (λ x. get_elem? x i) (sym ws) ∙ e) in
      elim (Bool-cases (same id j)) [
        | inl s ↦
            let e₀ : contains j v.clients ≡ false =
              ap (λ x. contains x v.clients) (sym ((same_iff id j).0 s)) ∙ o.vacant i v l in
            rw s (ground (arith, touch-add k id j v, o.ids i v l, e₀, ap (λ x. x.clients) t, cs j))
        | inr s ↦
            rw s
              (ground (arith, touch-add k id j v, o.holds i v j s l, ap (λ x. x.clients) t, cs j))
      ];
}

-- A client that no worker holds has left.
pub left-Placed :
    (n : ℕ) (place : ClientId → ℕ) (srv srv' : WsServer) (id : ClientId)
    → Outside n place id srv
    → srv'.workers ≡ srv.workers
    → ((j : ClientId) → same id j ≡ false → lookup j srv'.heap ≡ lookup j srv.heap)
    → ((j : ClientId)
        → contains j srv'.clients ≡ (if same id j then false else contains j srv.clients))
    → Placed n place srv'
left-Placed n place srv srv' id o ws hp cs = record {
  size = ap length ws ∙ o.size;
  ids = λ i w e. o.ids i w (ap (λ x. get_elem? x i) (sym ws) ∙ e);
  home = λ j m.
      let d : same id j ≡ false = ground (arith, cs j) in
      let (c, l, e) = o.home j d (ground (arith, cs j)) in (c, hp j d ∙ l, e);
  holds = λ i w j e.
      let l = ap (λ x. get_elem? x i) (sym ws) ∙ e in
      elim (Bool-cases (same id j)) [
        | inl s ↦
            let e₀ : contains j w.clients ≡ false =
              ap (λ x. contains x w.clients) (sym ((same_iff id j).0 s)) ∙ o.vacant i w l in
            ground (arith, e₀, cs j)
        | inr s ↦ ground (arith, o.holds i w j s l, cs j)
      ];
}

pub absent-Outside :
    (n : ℕ) (place : ClientId → ℕ) (srv : WsServer) (id : ClientId)
    → Placed n place srv
    → contains id srv.clients ≡ false
    → Outside n place id srv
absent-Outside n place srv id p h = record {
  size = p.size;
  ids = p.ids;
  home = λ j d m. p.home j m;
  holds = λ i w j d e. p.holds i w j e;
  vacant = λ i w e. ground (arith, p.holds i w id e);
}
