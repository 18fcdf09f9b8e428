-- ===== src/Workers/RoomMessages.antt =====
-- SendRoomMsg and SendRoomMsgWorkers reach the same clients.
use go_api_practice.Prelude.{
  ℕ, ◌<◌, true, false, some, List, [], ◌∷◌, ◌≡◌, refl, ap, ◌∙◌, inl, inr, if◌then◌else◌, bytes_key,
  string_key, same, same_iff, arith, Bool-cases, String, get_elem?, get_elem?-map,
  get_elem?-map-some, length,
}
use go_api_practice.Prelude.Members.{contains}
use go_api_practice.Workers.{
  ClientId, Worker, WsServer, shard, get_worker, new_ws_server, room_clients, send_room_msg,
  worker_send_room_msg, send_room_msg_workers,
}
use go_api_practice.Workers.Sharding.{get_worker-shard}
use go_api_practice.Workers.Rooms.{new_ws_server-IsBalanced}
use go_api_practice.Workers.Serve.{Event, serve_all, serving_keeps_balance}
use go_api_practice.Workers.Broadcast.{contains-others}
use go_api_practice.Workers.Consistency.{rooms_and_clients_agree}
use go_api_practice.Workers.Inside.{serve_all-Inside, start-Inside}

contains-held :
    (j : ClientId) (w : Worker) (ids : List ClientId)
    → contains j (worker_send_room_msg w ids)
      ≡ (if contains j w.clients then contains j ids else false)
unfolding worker_send_room_msg contains
contains-held j w [] = ground arith
contains-held j w (id ∷ ids) = elim (Bool-cases (same id j)) [
  | inl d ↦
      let e : contains id w.clients ≡ contains j w.clients =
        ap (λ x. contains x w.clients) ((same_iff id j).0 d) in
      ground (arith, e, contains-held j w ids)
  | inr d ↦ ground (arith, contains-held j w ids)
]

-- On a server that has served any events since it started with at least one worker, without a panic:
-- a client that SendRoomMsg writes to is written to by the worker that getWorker picks for it, under
-- SendRoomMsgWorkers, and by no other worker; and no worker writes to anybody else.
pub worker_room_msg_reaches_all_once :
    (n : ℕ) (es : List Event) (srv : WsServer)
    → 0 < n
    → serve_all (new_ws_server n) es ≡ some srv
    → (sender j : ClientId) (room : String)
    → (contains j (send_room_msg srv sender room) ≡ true
        → (got : List ClientId) × (get_elem?
              (send_room_msg_workers srv sender room)
              (shard (length srv.workers) j)
            ≡ some got)
          × (contains j got ≡ true))
      × ((i : ℕ) (got : List ClientId)
          → get_elem? (send_room_msg_workers srv sender room) i ≡ some got
          → contains j got ≡ true
          → (contains j (send_room_msg srv sender room) ≡ true)
            × (i ≡ shard (length srv.workers) j))
unfolding send_room_msg send_room_msg_workers get_worker
worker_room_msg_reaches_all_once n es srv h e sender j room =
    let b = serving_keeps_balance n es srv h e in
    let p = b.sharded.placed in
    let cls = send_room_msg srv sender room in
    let i =
      serve_all-Inside (new_ws_server n) srv es (new_ws_server-IsBalanced n h) (start-Inside n) e in
    let a = (rooms_and_clients_agree n es srv e j room).0 in
    let o = contains-others j sender (room_clients room srv.rooms) in
    let (w, g, _) = get_worker-shard (length srv.workers) srv j b.sharded.some_worker refl p.ids in
    let f : Worker → List ClientId = λ v. worker_send_room_msg v cls in
    (
      λ m.
          let k : contains j srv.clients ≡ true = i j room (ground (arith, a, o)) in
          (
            f w,
            get_elem?-map-some f srv.workers (shard (length srv.workers) j) w g,
            ground (arith, contains-held j w cls, p.holds (shard (length srv.workers) j) w j g, k),
          ),
      λ k got l m.
          let (v, q, t) = get_elem?-map f srv.workers k got l in
          let m₁ : contains j (f v) ≡ true = ap (contains j) t ∙ m in
          ground (arith, contains-held j v cls, p.holds k v j q),
    )
