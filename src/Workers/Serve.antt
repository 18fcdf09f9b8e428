-- ===== src/Workers/Serve.antt =====
-- The accept loop, as the sequence of the events that it serves.
use mathlib.Core.Path.{subst}
use mathlib.Core.Option.{some-injective}
use go_api_practice.Prelude.{
  ℕ, ◌<◌, false, Option, none, some, List, [], ◌∷◌, ◌≡◌, refl, sym, ap, ◌∙◌, inl, inr, bytes_key,
  string_key, same_iff, arith, Bool-cases, Option-cases, String,
}
use go_api_practice.Prelude.Assoc.{lookup, insert, lookup-insert}
use go_api_practice.Prelude.Members.{contains, add, remove}
use go_api_practice.Prelude.Blocking.{◌>>=◌, >>=-eq-some}
use go_api_practice.Workers.{
  ClientId, Client, WsServer, get_worker, leave_found, new_ws_server, new_client,
  add_client_to_worker, join_server, leave_server, join_room, leave_room,
}
use go_api_practice.Workers.Scaling.{IsBalanced}
use go_api_practice.Workers.Clients.{join_server_keeps_balance, leave_server_keeps_balance}
use go_api_practice.Workers.Rooms.{new_ws_server-IsBalanced, reheaped-IsBalanced, rooms-heap}

pub data Event : Type 0 where
  connect : ClientId → Event
  join : ClientId → Event
  leave : ClientId → Event
  enter : ClientId → String → Event
  exit : ClientId → String → Event

unfoldable pub serve : WsServer → Event → Option WsServer
serve srv (connect id) = some (new_client srv id)
serve srv (join id) = join_server srv id
serve srv (leave id) = leave_server srv id
serve srv (enter id room) = join_room srv id room
serve srv (exit id room) = leave_room srv id room

unfoldable pub serve_all : WsServer → List Event → Option WsServer
serve_all srv [] = some srv
serve_all srv (e ∷ es) = do srv' ← serve srv e; serve_all srv' es

abbrev fresh : Client
fresh = record { rooms = some []; worker = none }

connect-IsBalanced :
    (srv : WsServer) (id : ClientId) → IsBalanced srv → IsBalanced (new_client srv id)
unfolding new_client
connect-IsBalanced srv id b = elim (Option-cases (lookup id srv.heap)) [
  | inl t ↦
      rw (new_client, t)
        (reheaped-IsBalanced srv (record srv { heap = insert id fresh srv.heap }) b refl refl refl
          (λ j c l. (
            c,
            ground (
              arith,
              lookup-insert id j fresh srv.heap,
              ap (λ x. lookup x srv.heap) ((same_iff id j).0 _),
            ),
            refl,
          )))
  | inr t ↦ rw (new_client, t.1) b
]

join_server-known :
    (srv srv' : WsServer) (id : ClientId)
    → contains id srv.clients ≡ false
    → join_server srv id ≡ some srv'
    → (cl : Client) × (lookup id srv.heap ≡ some cl)
unfolding join_server add_client_to_worker
join_server-known srv srv' id h e = elim (Option-cases (lookup id srv.heap)) [
  | inl t ↦ elim (Option-cases (get_worker srv id)) [
    | inl g ↦ absurd (ground arith)
    | inr g ↦ absurd (ground (arith, g.1))
  ]
  | inr t ↦ t
]

pub join-known :
    (srv srv' : WsServer) (id : ClientId)
    → IsBalanced srv
    → join_server srv id ≡ some srv'
    → (cl : Client) × (lookup id srv.heap ≡ some cl)
join-known srv srv' id b e = elim (Bool-cases (contains id srv.clients)) [
  | inl t ↦ let (cl, l, _) = b.sharded.placed.home id t in (cl, l)
  | inr t ↦ join_server-known srv srv' id t e
]

join-IsBalanced :
    (srv srv' : WsServer) (id : ClientId)
    → IsBalanced srv
    → join_server srv id ≡ some srv'
    → IsBalanced srv'
join-IsBalanced srv srv' id b e =
    let (cl, l) = join-known srv srv' id b e in
    let (s, f, c, k) = join_server_keeps_balance srv id cl b l in
    subst IsBalanced (some-injective _ _ (sym f ∙ e)) c

leave-IsBalanced :
    (srv srv' : WsServer) (id : ClientId)
    → IsBalanced srv
    → leave_server srv id ≡ some srv'
    → IsBalanced srv'
unfolding leave_server
leave-IsBalanced srv srv' id b e =
    let (cl, l, _) = >>=-eq-some (lookup id srv.heap) _ e in
    let (s, f, c, k) = leave_server_keeps_balance srv id cl b l in
    subst IsBalanced (some-injective _ _ (sym f ∙ e)) c

enter-IsBalanced :
    (srv srv' : WsServer) (id : ClientId) (room : String)
    → IsBalanced srv
    → join_room srv id room ≡ some srv'
    → IsBalanced srv'
unfolding join_room
enter-IsBalanced srv srv' id room b e =
    let (s, f, e₁) = >>=-eq-some (join_server srv id) _ e in
    let (cl, l, e₂) = >>=-eq-some (lookup id s.heap) _ e₁ in
    let (rs, _, e₃) = >>=-eq-some cl.rooms _ e₂ in
    subst IsBalanced (some-injective _ _ e₃) (
      reheaped-IsBalanced s _ (join-IsBalanced srv s id b f) refl refl refl
        (rooms-heap s.heap id cl (some (add room rs)) l))

exit-IsBalanced :
    (srv srv' : WsServer) (id : ClientId) (room : String)
    → IsBalanced srv
    → leave_room srv id room ≡ some srv'
    → IsBalanced srv'
unfolding leave_room leave_found
exit-IsBalanced srv srv' id room b e = by_case (lookup room srv.rooms) e
  where
    by_case : (o : Option (List ClientId)) → leave_found srv id room o ≡ some srv' → IsBalanced srv'
    by_case none h = subst IsBalanced (some-injective _ _ h) b
    by_case (some cls) h =
        let (cl, l, k) = >>=-eq-some (lookup id srv.heap) _ h in
        subst IsBalanced (some-injective _ _ k) (
          reheaped-IsBalanced srv _ b refl refl refl (
            rooms-heap srv.heap id cl
              (elim cl.rooms [ none ↦ none | some rs ↦ some (remove room rs) ]) l))

pub serve-IsBalanced :
    (srv srv' : WsServer) (e : Event) → IsBalanced srv → serve srv e ≡ some srv' → IsBalanced srv'
unfolding serve
serve-IsBalanced srv srv' (connect id) b h =
    subst IsBalanced (some-injective _ _ h) (connect-IsBalanced srv id b)
serve-IsBalanced srv srv' (join id) b h = join-IsBalanced srv srv' id b h
serve-IsBalanced srv srv' (leave id) b h = leave-IsBalanced srv srv' id b h
serve-IsBalanced srv srv' (enter id room) b h = enter-IsBalanced srv srv' id room b h
serve-IsBalanced srv srv' (exit id room) b h = exit-IsBalanced srv srv' id room b h

serve_all-IsBalanced :
    (srv srv' : WsServer) (es : List Event)
    → IsBalanced srv
    → serve_all srv es ≡ some srv'
    → IsBalanced srv'
unfolding serve_all
serve_all-IsBalanced srv srv' [] b h = subst IsBalanced (some-injective _ _ h) b
serve_all-IsBalanced srv srv' (e ∷ es) b h =
    let (s, f, k) = >>=-eq-some (serve srv e) _ h in
    serve_all-IsBalanced s srv' es (serve-IsBalanced srv s e b f) k

-- A server that started with at least one worker and has served any events without a panic is
-- balanced: every client is held by the worker that getWorker picks for it and by no other, and
-- beyond 50 clients there are at most 25 (n + 1) for n workers.
pub serving_keeps_balance :
    (n : ℕ) (es : List Event) (srv : WsServer)
    → 0 < n
    → serve_all (new_ws_server n) es ≡ some srv
    → IsBalanced srv
serving_keeps_balance n es srv h e =
    serve_all-IsBalanced (new_ws_server n) srv es (new_ws_server-IsBalanced n h) e
