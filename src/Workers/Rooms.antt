-- ===== src/Workers/Rooms.antt =====
-- A new server is balanced, and what the room handlers write to the clients keeps it so.
use mathlib.Core.Option.{some-injective}
use go_api_practice.Prelude.{
  ℕ, zero, suc, ◌<◌, false, Option, some, List, [], ◌∷◌, ◌≡◌, refl, sym, ap, ◌∙◌, inl, inr,
  bytes_key, string_key, same, same_iff, length, get_elem?, arith, Bool-cases, String,
  length-append, get_elem?-append,
}
use go_api_practice.Prelude.Assoc.{Assoc, lookup, insert, lookup-insert}
use go_api_practice.Prelude.Members.{contains}
use go_api_practice.Workers.{ClientId, Worker, Client, WsServer, new_ws_server, new_workers}
use go_api_practice.Workers.Scaling.{IsBalanced}

new_workers-length : (n : ℕ) → length (new_workers n) ≡ n
new_workers-length zero = refl
new_workers-length (suc n) = omega (
  arith,
  new_workers-length n,
  length-append (new_workers n) (record { id = n; clients = [] } ∷ []),
)

new_workers-get :
    (n i : ℕ) (w : Worker) → get_elem? (new_workers n) i ≡ some w → (w.id ≡ i) × (w.clients ≡ [])
new_workers-get zero i w e = absurd (ground arith)
new_workers-get (suc n) i w e = elim (get_elem?-append (new_workers n) _ i w e) [
  | inl l ↦ new_workers-get n i w l
  | inr l ↦
      (sym (ap (λ x. x.id) l.1) ∙ sym (l.0 ∙ new_workers-length n), sym (ap (λ x. x.clients) l.1))
]

pub new_ws_server-IsBalanced : (n : ℕ) → 0 < n → IsBalanced (new_ws_server n)
unfolding new_ws_server contains
new_ws_server-IsBalanced n h = record {
  sharded = record {
    some_worker = rw (new_workers-length n) h;
    placed = record {
      size = refl;
      ids = λ i w e. (new_workers-get n i w e).0;
      home = λ j m. absurd (ground arith);
      holds = λ i w j e.
          let c : contains j w.clients ≡ false = ap (contains j) (new_workers-get n i w e).1 in
          (λ m. absurd (ground (arith, c)), λ m. absurd (ground (arith, m.0)));
    };
  };
  per_worker = refl;
  fits = inl (omega arith);
}

-- A write to the heap that keeps every client's worker.
pub reheaped-IsBalanced :
    (srv srv' : WsServer)
    → IsBalanced srv
    → srv'.clients ≡ srv.clients
    → srv'.workers ≡ srv.workers
    → srv'.clients_per_worker ≡ srv.clients_per_worker
    → ((j : ClientId) (cl : Client)
        → lookup j srv.heap ≡ some cl
        → (cl' : Client) × (lookup j srv'.heap ≡ some cl') × (cl'.worker ≡ cl.worker))
    → IsBalanced srv'
reheaped-IsBalanced srv srv' b cs ws per hp =
    let p = b.sharded.placed in
    record {
      sharded = record {
        some_worker = rw ws b.sharded.some_worker;
        placed = rw ws (record {
          size = refl;
          ids = p.ids;
          home = λ j m.
              let (cl, l, e) = p.home j (ap (contains j) (sym cs) ∙ m) in
              let (cl', l', e') = hp j cl l in (cl', l', e' ∙ e);
          holds = λ i w j e. rw cs (p.holds i w j e);
        });
      };
      per_worker = per ∙ b.per_worker;
      fits = rw (ws, cs) b.fits;
    }

pub rooms-heap :
    (heap : Assoc ClientId Client) (id : ClientId) (cl : Client) (rs : Option (List String))
    → lookup id heap ≡ some cl
    → (j : ClientId) (c : Client) → lookup j heap ≡ some c
    → (c' : Client) × (lookup j (insert id (record cl { rooms = rs }) heap) ≡ some c')
      × (c'.worker ≡ c.worker)
rooms-heap heap id cl rs l j c k = elim (Bool-cases (same id j)) [
  | inl t ↦ (
    record cl { rooms = rs },
    ground (arith, lookup-insert id j (record cl { rooms = rs }) heap),
    ap (λ x. x.worker)
        (some-injective cl c (sym l ∙ ap (λ x. lookup x heap) ((same_iff id j).0 t) ∙ k)),
  )
  | inr t ↦ (c, ground (arith, lookup-insert id j (record cl { rooms = rs }) heap), refl)
]
