-- ===== src/Workers/Broadcast.antt =====
-- What SendBroadcastMsg and the workers' SendBroadcastMsg send, to whom.
use go_api_practice.Prelude.{
  ℕ, true, false, some, List, [], ◌∷◌, ◌≡◌, ◌↔◌, refl, if◌then◌else◌, bytes_key, string_key, same,
  same_iff, length, get_elem?, arith,
}
use go_api_practice.Prelude.Members.{contains}
use go_api_practice.Workers.{
  ClientId, Worker, WsServer, shard, get_worker, others, send_broadcast_msg,
  worker_send_broadcast_msg,
}
use go_api_practice.Workers.Sharding.{get_worker-shard}
use go_api_practice.Workers.Scaling.{IsBalanced}

pub contains-others :
    (j sender : ClientId) (ids : List ClientId)
    → contains j (others sender ids) ≡ (if same j sender then false else contains j ids)
unfolding others contains
contains-others j sender [] = ground arith
contains-others j sender (id ∷ ids) =
    ground
      (arith, same_iff id j, same_iff id sender, same_iff j sender, contains-others j sender ids)

-- On a balanced server, the broadcast of the workers reaches the clients that the plain broadcast
-- reaches: every client but the sender is written to by one worker, the one that getWorker picks,
-- and by no other worker; nobody else is written to.
pub worker_broadcast_reaches_all_once :
    (srv : WsServer) (sender j : ClientId)
    → IsBalanced srv
    → ((contains j (send_broadcast_msg srv sender) ≡ true) ↔ (
        (w : Worker) × (get_worker srv j ≡ some w)
        × (contains j (worker_send_broadcast_msg w sender) ≡ true)))
      × ((i : ℕ) (w : Worker)
          → get_elem? srv.workers i ≡ some w
          → contains j (worker_send_broadcast_msg w sender) ≡ true
          → i ≡ shard (length srv.workers) j)
unfolding send_broadcast_msg worker_send_broadcast_msg get_worker
worker_broadcast_reaches_all_once srv sender j b =
    let p = b.sharded.placed in
    let n = length srv.workers in
    let (w, g, _) = get_worker-shard n srv j b.sharded.some_worker refl p.ids in
    let o = contains-others j sender srv.clients in
    (
      (
        λ m. (
          w,
          g,
          ground (arith, o, contains-others j sender w.clients, p.holds (shard n j) w j g),
        ),
        λ (v, l, m).
            ground (arith, o, contains-others j sender v.clients, p.holds (shard n j) v j l),
      ),
      λ i w e m. ground (arith, contains-others j sender w.clients, p.holds i w j e),
    )
