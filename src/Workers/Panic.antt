-- ===== src/Workers/Panic.antt =====
-- When JoinRoom panics.
use go_api_practice.Prelude.{
  Option, none, some, List, ◌≡◌, ◌↔◌, refl, sym, ap, ◌∙◌, inl, inr, bytes_key, string_key, same_iff,
  arith, Option-cases, String,
}
use go_api_practice.Prelude.Assoc.{lookup}
use go_api_practice.Prelude.Blocking.{◌>>=◌, >>=-eq-some}
use go_api_practice.Workers.{
  ClientId, Client, WsServer, remove_client_from_worker, join_server, leave_server, departed,
  join_room,
}
use go_api_practice.Workers.Scaling.{IsBalanced}
use go_api_practice.Workers.Clients.{join_server_keeps_balance}
use go_api_practice.Workers.Membership.{
  own_rooms, rooms_of, rooms_of-insert, remove_client-RoomsKept, check_scale_down-RoomsKept,
  join_server-RoomsKept,
}

panics_iff :
    (o : Option Client) (f : Client → List String → WsServer) (rooms : Option (List String))
    → own_rooms o ≡ rooms
    → ((o >>= (λ c. c.rooms >>= (λ rs. some (f c rs)))) ≡ none) ↔ (rooms ≡ none)
panics_iff none f rooms k = (λ h. sym k, λ h. refl)
panics_iff (some c) f rooms k = by_case c.rooms k
  where
    by_case :
        (o : Option (List String))
        → o ≡ rooms
        → ((o >>= (λ rs. some (f c rs))) ≡ none) ↔ (rooms ≡ none)
    by_case none e = (λ h. sym e, λ h. refl)
    by_case (some rs) e = (λ h. absurd (ground arith), λ h. absurd (cc))

-- JoinRoom of a client that exists, on a balanced server, panics exactly if the client's map of
-- rooms is nil, which LeaveServer sets it to.
pub join_room_panics_exactly :
    (srv : WsServer) (id : ClientId) (cl : Client) (room : String)
    → IsBalanced srv
    → lookup id srv.heap ≡ some cl
    → (join_room srv id room ≡ none) ↔ (cl.rooms ≡ none)
unfolding join_room
join_room_panics_exactly srv id cl room b l =
    let (s, e, _, _) = join_server_keeps_balance srv id cl b l in
    let k : rooms_of id s.heap ≡ cl.rooms =
      (join_server-RoomsKept srv s id e).1 id ∙ ap own_rooms l in
    rw e (panics_iff (lookup id s.heap) _ cl.rooms k)

-- Once LeaveServer has returned for a client, JoinRoom for it panics: its map of rooms is nil.
pub join_room_after_leave_panics :
    (srv srv' : WsServer) (id : ClientId) (room : String)
    → leave_server srv id ≡ some srv'
    → join_room srv' id room ≡ none
unfolding leave_server join_room
join_room_after_leave_panics srv srv' id room h =
    let (cl, l, e) = >>=-eq-some (lookup id srv.heap) _ h in
    let (s, f, k) = >>=-eq-some (remove_client_from_worker (departed srv id cl) id) _ e in
    let none_left : rooms_of id srv'.heap ≡ none =
      (check_scale_down-RoomsKept s srv' k).1 id
      ∙ (remove_client-RoomsKept (departed srv id cl) s id f).1 id
      ∙ rooms_of-insert id id (record cl { rooms = none }) srv.heap
      ∙ rw ((same_iff id id).1 refl) refl in
    elim (Option-cases (join_server srv' id)) [
      | inl t ↦ rw t refl
      | inr t ↦ rw t.1 (
          (panics_iff (lookup id t.0.heap) _ none
              ((join_server-RoomsKept srv' t.0 id t.1).1 id ∙ none_left)).1
            refl)
    ]
