-- ===== src/Workers/Membership.antt =====
-- Rooms and clients name each other: what no handler but the room handlers and LeaveServer touches.
use mathlib.Core.Path.{subst}
use mathlib.Core.Option.{some-injective}
use go_api_practice.Prelude.{
  ℕ, Bool, true, false, Option, none, some, List, [], ◌∷◌, map, ◌≡◌, refl, sym, ap, ◌∙◌, inl, inr,
  ◌&&◌, if◌then◌else◌, bytes_key, string_key, same, same_iff, length, Bool-cases, String, ltb, leb,
  ◌==◌, ◌*◌, ◌-◌,
}
use go_api_practice.Prelude.Int.{suc_ℤ}
use go_api_practice.Prelude.Assoc.{Assoc, lookup, insert, lookup-insert}
use go_api_practice.Prelude.Members.{contains, add, remove}
use go_api_practice.Prelude.Blocking.{◌>>=◌, >>=-eq-some}
use go_api_practice.Workers.{
  ClientId, Client, WsServer, get_worker, touch, add_client_to_worker, remove_client_from_worker,
  move_client, move_clients, scale_up, scale_down, check_scale_up, check_scale_down, join_server,
}

-- The rooms that a client names, none if it does not exist or its map is nil.
abbrev pub own_rooms : Option Client → Option (List String)
own_rooms none = none
own_rooms (some cl) = cl.rooms

abbrev pub rooms_of : ClientId → Assoc ClientId Client → Option (List String)
rooms_of id heap = own_rooms (lookup id heap)

abbrev pub RoomsKept : WsServer → WsServer → Type 0
RoomsKept srv srv' =
    (srv'.rooms ≡ srv.rooms) × ((j : ClientId) → rooms_of j srv'.heap ≡ rooms_of j srv.heap)

RoomsKept-trans : (a b c : WsServer) → RoomsKept a b → RoomsKept b c → RoomsKept a c
RoomsKept-trans a b c h k = (k.0 ∙ h.0, λ j. k.1 j ∙ h.1 j)

-- What a client names after its object is written.
pub rooms_of-insert :
    (id j : ClientId) (cl : Client) (heap : Assoc ClientId Client)
    → rooms_of j (insert id cl heap) ≡ (if same id j then cl.rooms else rooms_of j heap)
rooms_of-insert id j cl heap =
    ap own_rooms (lookup-insert id j cl heap)
    ∙ elim (Bool-cases (same id j)) [ inl t ↦ rw t refl | inr t ↦ rw t refl ]

-- A write to the object of a client that keeps its rooms.
rooms_of-rewrite :
    (id : ClientId) (cl : Client) (k : Option ℕ) (heap : Assoc ClientId Client)
    → lookup id heap ≡ some cl
    → (j : ClientId) → rooms_of j (insert id (record cl { worker = k }) heap) ≡ rooms_of j heap
rooms_of-rewrite id cl k heap l j =
    rooms_of-insert id j (record cl { worker = k }) heap ∙ elim (Bool-cases (same id j)) [
      | inl t ↦
          let m : lookup j heap ≡ some cl =
            ap (λ x. lookup x heap) (sym ((same_iff id j).0 t)) ∙ l in
          rw t (sym (ap own_rooms m))
      | inr t ↦ rw t refl
    ]

add_client-RoomsKept :
    (srv srv' : WsServer) (id : ClientId)
    → add_client_to_worker srv id ≡ some srv'
    → RoomsKept srv srv'
unfolding add_client_to_worker
add_client-RoomsKept srv srv' id h =
    let (w, _, e) = >>=-eq-some (get_worker srv id) _ h in
    let (cl, l, k) = >>=-eq-some (lookup id srv.heap) _ e in
    subst (RoomsKept srv) (some-injective _ _ k)
      (refl, rooms_of-rewrite id cl (some w.id) srv.heap l)

pub remove_client-RoomsKept :
    (srv srv' : WsServer) (id : ClientId)
    → remove_client_from_worker srv id ≡ some srv'
    → RoomsKept srv srv'
unfolding remove_client_from_worker
remove_client-RoomsKept srv srv' id h =
    let (w, _, e) = >>=-eq-some (get_worker srv id) _ h in
    let (cl, l, k) = >>=-eq-some (lookup id srv.heap) _ e in
    subst (RoomsKept srv) (some-injective _ _ k) (refl, rooms_of-rewrite id cl none srv.heap l)

move_client-RoomsKept :
    (srv srv' : WsServer) (id : ClientId) → move_client srv id ≡ some srv' → RoomsKept srv srv'
unfolding move_client
move_client-RoomsKept srv srv' id h =
    let (cl, _, h₁) = >>=-eq-some (lookup id srv.heap) _ h in
    let (k, _, h₂) = >>=-eq-some cl.worker _ h₁ in
    let (w, _, h₃) = >>=-eq-some (get_worker srv id) _ h₂ in by_case k (k == w.id) h₃
  where
    by_case :
        (k : ℕ) (b : Bool)
        → (if b
            then some srv
            else add_client_to_worker
                (record srv { workers = map (touch k (remove id)) srv.workers })
                id)
          ≡ some srv'
        → RoomsKept srv srv'
    by_case k true e = subst (RoomsKept srv) (some-injective _ _ e) (refl, λ j. refl)
    by_case k false e =
        add_client-RoomsKept (record srv { workers = map (touch k (remove id)) srv.workers }) srv'
          id e

move_clients-RoomsKept :
    (ids : List ClientId) (srv srv' : WsServer)
    → move_clients ids srv ≡ some srv'
    → RoomsKept srv srv'
unfolding move_clients
move_clients-RoomsKept [] srv srv' h =
    subst (RoomsKept srv) (some-injective _ _ h) (refl, λ j. refl)
move_clients-RoomsKept (id ∷ ids) srv srv' h =
    let (s, e, k) = >>=-eq-some (move_client srv id) _ h in
    RoomsKept-trans srv s srv' (move_client-RoomsKept srv s id e)
      (move_clients-RoomsKept ids s srv' k)

check_scale_up-RoomsKept :
    (srv srv' : WsServer) → check_scale_up srv ≡ some srv' → RoomsKept srv srv'
unfolding check_scale_up scale_up
check_scale_up-RoomsKept srv srv' h =
    by_case
      (ltb srv.clients_per_worker (length srv.clients)
        && ltb (length srv.workers * srv.clients_per_worker) (2 * length srv.clients))
      h
  where
    by_case :
        (b : Bool)
        → (if b then scale_up (length srv.workers - 1) srv else some srv) ≡ some srv'
        → RoomsKept srv srv'
    by_case true e = move_clients-RoomsKept srv.clients _ srv' e
    by_case false e = subst (RoomsKept srv) (some-injective _ _ e) (refl, λ j. refl)

pub check_scale_down-RoomsKept :
    (srv srv' : WsServer) → check_scale_down srv ≡ some srv' → RoomsKept srv srv'
unfolding check_scale_down scale_down
check_scale_down-RoomsKept srv srv' h =
    by_case
      (ltb srv.clients_per_worker (length srv.clients)
        && leb (2 * length srv.clients) (length srv.workers * srv.clients_per_worker))
      h
  where
    by_case :
        (b : Bool)
        → (if b then scale_down (length srv.workers - 1) srv else some srv) ≡ some srv'
        → RoomsKept srv srv'
    by_case true e = move_clients-RoomsKept srv.clients _ srv' e
    by_case false e = subst (RoomsKept srv) (some-injective _ _ e) (refl, λ j. refl)

pub join_server-RoomsKept :
    (srv srv' : WsServer) (id : ClientId) → join_server srv id ≡ some srv' → RoomsKept srv srv'
unfolding join_server
join_server-RoomsKept srv srv' id h = by_case (contains id srv.clients) h
  where
    by_case :
        (b : Bool)
        → (if b
            then some srv
            else (add_client_to_worker srv id >>= (λ s. check_scale_up (record s {
              clients = add id s.clients;
              active_clients = suc_ℤ s.active_clients;
            }))))
          ≡ some srv'
        → RoomsKept srv srv'
    by_case true e = subst (RoomsKept srv) (some-injective _ _ e) (refl, λ j. refl)
    by_case false e =
        let (s, f, k) = >>=-eq-some (add_client_to_worker srv id) _ e in
        RoomsKept-trans srv s srv' (add_client-RoomsKept srv s id f) (
          check_scale_up-RoomsKept
            (record s { clients = add id s.clients; active_clients = suc_ℤ s.active_clients }) srv'
            k)
