-- ===== src/Workers/Clients.antt =====
-- JoinServer and LeaveServer: who is a client, and that the workers stay balanced.
use go_api_practice.Prelude.{
  ℕ, ◌≤◌, true, false, none, some, List, map, ◌≡◌, refl, sym, ap, ◌∙◌, inl, inr, if◌then◌else◌,
  bytes_key, same, same_iff, length, arith, Bool-cases,
}
use go_api_practice.Prelude.Int.{pred_ℤ, suc_ℤ}
use go_api_practice.Prelude.Assoc.{lookup, insert, lookup-insert}
use go_api_practice.Prelude.Members.{
  contains, add, remove, contains-add, contains-remove, length-add, length-remove,
}
use go_api_practice.Workers.{
  ClientId, Client, WsServer, shard, touch, add_client_to_worker, join_server,
  remove_client_from_worker, leave_server, leave_rooms, or_nil,
}
use go_api_practice.Workers.Placement.{
  Placed, moved, Placed-congr, remove-Outside, settle-Placed, left-Placed, absent-Outside,
}
use go_api_practice.Workers.Sharding.{get_worker-shard, contains_self}
use go_api_practice.Workers.Scaling.{
  IsBalanced, check_scale_up-IsBalanced, check_scale_down-IsBalanced,
}

joined-Placed :
    (n : ℕ) (srv srv' : WsServer) (id : ClientId) (k : ℕ) (cl : Client)
    → Placed n (shard n) srv
    → contains id srv.clients ≡ false
    → k ≡ shard n id
    → srv'.workers ≡ map (touch k (add id)) srv.workers
    → srv'.heap ≡ insert id (record cl { worker = some k }) srv.heap
    → srv'.clients ≡ add id srv.clients
    → Placed n (shard n) srv'
joined-Placed n srv srv' id k cl p h e ws hp cs =
    Placed-congr n (moved (shard n) id k) (shard n) srv' (λ j m. at_home j)
      (settle-Placed n (shard n) srv srv' id k cl (absent-Outside n (shard n) srv id p h) ws hp
        (λ j. ap (contains j) cs ∙ contains-add id j srv.clients))
  where
    at_home : (j : ClientId) → moved (shard n) id k j ≡ shard n j
    at_home j = elim (Bool-cases (same id j)) [
      | inl t ↦ rw t (e ∙ ap (shard n) ((same_iff id j).0 t))
      | inr t ↦ rw t refl
    ]

-- JoinServer, for a client that exists, does not panic. Just this client is new among the server's
-- clients, if it was not there. The workers stay balanced: getWorker picks for each client the worker
-- that holds it, no other worker holds it, and more than 50 clients are at most 25 (n + 1) for n
-- workers.
pub join_server_keeps_balance :
    (srv : WsServer) (id : ClientId) (cl : Client)
    → IsBalanced srv
    → lookup id srv.heap ≡ some cl
    → (srv' : WsServer) × (join_server srv id ≡ some srv')
      × IsBalanced srv'
      × ((j : ClientId)
          → contains j srv'.clients ≡ (if same id j then true else contains j srv.clients))
unfolding join_server add_client_to_worker
join_server_keeps_balance srv id cl b l = elim (Bool-cases (contains id srv.clients)) [
  | inl t ↦ (srv, rw t refl, b, λ j. contains_self id j srv.clients t)
  | inr t ↦
      let p = b.sharded.placed in
      let n = length srv.workers in
      let (w, g, s) = get_worker-shard n srv id b.sharded.some_worker refl p.ids in
      let srv₁ = record srv {
        workers = map (touch w.id (add id)) srv.workers;
        heap = insert id (record cl { worker = some w.id }) srv.heap;
        clients = add id srv.clients;
        active_clients = suc_ℤ srv.active_clients;
      } in
      let (srv', e, c, k) =
        check_scale_up-IsBalanced n srv₁ b.sharded.some_worker
          (joined-Placed n srv srv₁ id w.id cl p t s refl refl refl) b.per_worker
          (elim b.fits [
            | inl f ↦ inl (omega (arith, length-add id srv.clients))
            | inr f ↦ inr (omega (arith, length-add id srv.clients))
          ]) in
      (srv', rw (t, g, l) e, c, λ j. ap (contains j) k.0 ∙ contains-add id j srv.clients)
]

contains-forget :
    (id j : ClientId) (ids : List ClientId)
    → contains j (if contains id ids then remove id ids else ids)
      ≡ (if same id j then false else contains j ids)
contains-forget id j ids = elim (Bool-cases (contains id ids)) [
  | inl t ↦ rw t (contains-remove id j ids)
  | inr t ↦
      let e : same id j ≡ true → contains j ids ≡ false =
        λ s. ap (λ x. contains x ids) (sym ((same_iff id j).0 s)) ∙ t in
      rw t (ground (arith, e))
]

length-forget :
    (id : ClientId) (ids : List ClientId)
    → length (if contains id ids then remove id ids else ids) ≤ length ids
length-forget id ids = ground (arith, length-remove id ids)

-- LeaveServer, for a client that exists, does not panic, and just this client is gone from the
-- server's clients. The workers stay balanced.
pub leave_server_keeps_balance :
    (srv : WsServer) (id : ClientId) (cl : Client)
    → IsBalanced srv
    → lookup id srv.heap ≡ some cl
    → (srv' : WsServer) × (leave_server srv id ≡ some srv')
      × IsBalanced srv'
      × ((j : ClientId)
          → contains j srv'.clients ≡ (if same id j then false else contains j srv.clients))
unfolding leave_server remove_client_from_worker
leave_server_keeps_balance srv id cl b l =
    let p = b.sharded.placed in
    let n = length srv.workers in
    let known = contains id srv.clients in
    let srv₀ : WsServer = record srv {
      clients = if known then remove id srv.clients else srv.clients;
      active_clients = if known then pred_ℤ srv.active_clients else srv.active_clients;
      rooms = leave_rooms id (or_nil cl.rooms) srv.rooms;
      heap = insert id (record cl { rooms = none }) srv.heap;
    } in
    let (w, g, s) = get_worker-shard n srv₀ id b.sharded.some_worker refl p.ids in
    let l₀ : lookup id srv₀.heap ≡ some (record cl { rooms = none }) =
      ground (arith, lookup-insert id id (record cl { rooms = none }) srv.heap, same_iff id id) in
    let srv₁ : WsServer = record srv₀ {
      workers = map (touch w.id (remove id)) srv.workers;
      heap = insert id (record cl { rooms = none; worker = none }) srv₀.heap;
    } in
    let cs : (j : ClientId)
        → contains j srv₁.clients ≡ (if same id j then false else contains j srv.clients) =
      λ j. contains-forget id j srv.clients in
    let (srv', e, c, k) =
      check_scale_down-IsBalanced n srv₁ b.sharded.some_worker
        (left-Placed n (shard n) (record srv { workers = map (touch w.id (remove id)) srv.workers })
          srv₁ id (remove-Outside n (shard n) srv id w.id p (λ m. sym s)) refl
          (λ j d. ground (
            arith,
            lookup-insert id j (record cl { rooms = none; worker = none }) srv₀.heap,
            lookup-insert id j (record cl { rooms = none }) srv.heap,
          ))
          cs)
        b.per_worker
        (elim b.fits [
          | inl f ↦ inl (omega (arith, length-forget id srv.clients))
          | inr f ↦ inr (omega (arith, length-forget id srv.clients))
        ]) in
    (srv', rw (l, g, l₀) e, c, λ j. ap (contains j) k.0 ∙ cs j)
