-- ===== src/ClientLoop/Interleaved.antt =====
-- The parts of the handlers, one by one and in any order.
use mathlib.Core.Path.{subst}
use go_api_practice.Prelude.{
  Bool, true, false, Option, none, some, List, [], ◌∷◌, ◌≡◌, refl, sym, ap, ◌∙◌, inl, inr, arith,
  String, string_key, if◌then◌else◌, same, same_iff, Bool-cases,
}
use go_api_practice.Prelude.Assoc.{lookup, insert}
use go_api_practice.Prelude.Members.{contains, add, remove, contains-add, contains-remove}
use go_api_practice.Prelude.Run.{done, panics, ◌>>=◌, done-injective, >>=-eq-done}
use go_api_practice.ClientLoop.{Client, Room, deref, new_client}
use go_api_practice.ClientLoop.Members.{
  names_of, within-insert, within-remove, has_client, has_room, leave_found-has_client,
}
use go_api_practice.ClientLoop.Parts.{
  Part, finds, enters, gains, looks, quits, loses, signs_off, lists, drops, clears, Handler, Views,
  parts_of, left, drop_each, wait_for, quit_room, look_up, do_part, PartEvent, connects, registers,
  starts, goes, started, went, connected, part_step, part_steps, no_views,
}
use go_api_practice.ClientLoop.Settled.{
  Settles, Settled, parts_of-Settles, drop_each-Settles, moved-Settled, finds-has_client,
  enters-has_client, room-Settled, object-Settled,
}

opened : (o : Option Room) (v v' : Views) → look_up v o ≡ done v' → v ≡ v'
opened none v v' e = absurd (ground (arith, e))
opened (some room) v v' e = done-injective _ _ e

-- A part that changes no membership.
same-Settled :
    (v : Views) (clients : List String) (id : String) (p : Part) (ps ps' : List Part)
    → Settled v
    → left id v ≡ p ∷ ps
    → ((q : String) (n : Bool)
        → has_room id q v.heap ≡ n
        → (m : Bool) → Settles q (p ∷ ps) m n
        → Settles q ps' m n)
    → Settled (wait_for (record v { clients = clients }) id ps')
same-Settled v clients id p ps ps' h l own =
    moved-Settled v v.rooms v.heap clients id (p ∷ ps) ps' h l (λ j q s. (refl, refl))
      (λ q g. own q (has_room id q v.heap) refl (has_client id q v.rooms) g)

quit_room-Settled :
    (v v' : Views) (id r : String) (ps : List Part) (o : Option Room)
    → lookup r v.rooms ≡ o
    → Settled v
    → left id v ≡ quits r ∷ ps
    → quit_room (wait_for v id ps) id r o ≡ done v'
    → Settled v'
quit_room-Settled v v' id r ps none k h l e = absurd (ground (arith, e))
quit_room-Settled v v' id r ps (some room) k h l e = elim (Bool-cases (contains id room.clients)) [
  | inl t ↦
      let quit = record room { clients = remove id room.clients } in
      subst Settled (done-injective _ _ (rw t at e)) (
        room-Settled v (insert r quit v.rooms) id r (quits r) ps false h l
          (λ j q.
            within-remove (λ x. x.clients) j r q id quit v.rooms
              (ap (λ x. remove id (names_of (λ y. y.clients) x)) (sym k)))
          (λ q m n g. g))
  | inr t ↦ let stuck : panics ≡ done v' = rw t at e in absurd (ground (arith, stuck))
]

signed_off-Settled :
    (v v' : Views) (id : String) (ps : List Part)
    → Settled v
    → left id v ≡ signs_off ∷ ps
    → do_part v id signs_off ps ≡ done v'
    → Settled v'
unfolding do_part
signed_off-Settled v v' id ps h l e = elim (Bool-cases (contains id v.clients)) [
  | inl t ↦
      subst Settled (done-injective _ _ (rw t at e))
        (same-Settled v (remove id v.clients) id signs_off ps ps h l (λ q n k m g. g.0))
  | inr t ↦
      subst Settled (done-injective _ _ (rw t at e))
        (same-Settled v v.clients id signs_off ps [] h l (λ q n k m g. g.1))
]

listed-Settled :
    (v v' : Views) (id : String) (ps : List Part) (o : Option Client)
    → lookup id v.heap ≡ o
    → Settled v
    → left id v ≡ lists ∷ ps
    → (do c ← deref o; done (wait_for v id (drop_each c.rooms ps))) ≡ done v'
    → Settled v'
listed-Settled v v' id ps none k h l e = absurd (ground (arith, e))
listed-Settled v v' id ps (some c) k h l e = subst Settled (done-injective _ _ e) (
    same-Settled v v.clients id lists ps (drop_each c.rooms ps) h l (λ q n a m g.
      let mine : contains q c.rooms ≡ n =
        sym (ap (λ o. contains q (names_of (λ x. x.rooms) o)) k) ∙ a in
      drop_each-Settles q c.rooms ps m n
        (subst (λ b. Settles q ps (if b then false else m) n) (sym mine) g)))

do_part-Settled :
    (v v' : Views) (id : String) (p : Part) (ps : List Part)
    → Settled v
    → left id v ≡ p ∷ ps
    → do_part v id p ps ≡ done v'
    → Settled v'
unfolding do_part contains
do_part-Settled v v' id (finds r) ps h l e = subst Settled (done-injective _ _ e) (
    moved-Settled v _ v.heap v.clients id (finds r ∷ ps) ps h l
      (λ j q s. (finds-has_client r j q v.rooms, refl))
      (λ q g.
        subst (λ m. Settles q ps m (has_room id q v.heap)) (sym (finds-has_client r id q v.rooms))
          g))
do_part-Settled v v' id (enters r) ps h l e = subst Settled (done-injective _ _ e) (
    room-Settled v _ id r (enters r) ps true h l (λ j q. enters-has_client id r j q v.rooms)
      (λ q m n g. g))
do_part-Settled v v' id (gains r) ps h l e =
    object-Settled v v' id (gains r) ps (add r) (λ q n. if same r q then true else n) h l
      (λ q rs. contains-add r q rs) (λ q m n g. g) e
do_part-Settled v v' id (looks r) ps h l e =
    subst Settled (opened (lookup r v.rooms) _ v' e)
      (same-Settled v v.clients id (looks r) ps ps h l (λ q n k m g. g))
do_part-Settled v v' id (quits r) ps h l e =
    quit_room-Settled v v' id r ps (lookup r v.rooms) refl h l e
do_part-Settled v v' id (loses r) ps h l e =
    object-Settled v v' id (loses r) ps (remove r) (λ q n. if same r q then false else n) h l
      (λ q rs. contains-remove r q rs) (λ q m n g. g) e
do_part-Settled v v' id signs_off ps h l e = signed_off-Settled v v' id ps h l e
do_part-Settled v v' id lists ps h l e = listed-Settled v v' id ps (lookup id v.heap) refl h l e
do_part-Settled v v' id (drops r) ps h l e = subst Settled (done-injective _ _ e) (
    room-Settled v _ id r (drops r) ps false h l (λ j q. leave_found-has_client id j r q v.rooms)
      (λ q m n g. g))
do_part-Settled v v' id clears ps h l e =
    object-Settled v v' id clears ps (λ rs. []) (λ q n. false) h l (λ q rs. refl) (λ q m n g. g) e

connected-Settled :
    (v v' : Views) (id : String) (o : Option Client)
    → lookup id v.heap ≡ o
    → Settled v
    → connected v id o ≡ done v'
    → Settled v'
unfolding new_client contains
connected-Settled v v' id (some c) k h e = absurd (ground (arith, e))
connected-Settled v v' id none k h e = subst Settled (done-injective _ _ e) (λ j q.
    subst (λ n. Settles q (left j v) (has_client j q v.rooms) n)
      (sym (within-insert (λ x. x.rooms) q id j new_client v.heap ∙ own q j (same id j) refl))
      (h j q))
  where
    own :
        (q j : String) (b : Bool)
        → same id j ≡ b
        → (if b then false else has_room j q v.heap) ≡ has_room j q v.heap
    own q j true t = sym (
        ap (λ i. has_room i q v.heap) (sym ((same_iff id j).0 t))
        ∙ ap (λ o. contains q (names_of (λ x. x.rooms) o)) k)
    own q j false t = refl

started-Settled :
    (v v' : Views) (id : String) (handler : Handler) (ps : List Part)
    → left id v ≡ ps
    → Settled v
    → started v id handler ps ≡ done v'
    → Settled v'
started-Settled v v' id handler (p ∷ ps) l h e = absurd (ground (arith, e))
started-Settled v v' id handler [] l h e = subst Settled (done-injective _ _ e) (
    moved-Settled v v.rooms v.heap v.clients id [] (parts_of handler) h l (λ j q s. (refl, refl))
      (λ q g. parts_of-Settles q handler (has_client id q v.rooms) (has_room id q v.heap) g))

went-Settled :
    (v v' : Views) (id : String) (ps : List Part)
    → left id v ≡ ps
    → Settled v
    → went v id ps ≡ done v'
    → Settled v'
went-Settled v v' id [] l h e = absurd (ground (arith, e))
went-Settled v v' id (p ∷ ps) l h e = do_part-Settled v v' id p ps h l e

part_step-Settled :
    (v v' : Views) (e : PartEvent) → Settled v → part_step v e ≡ done v' → Settled v'
unfolding part_step
part_step-Settled v v' (connects id) h e = connected-Settled v v' id (lookup id v.heap) refl h e
part_step-Settled v v' (registers id) h e = subst Settled (done-injective _ _ e) h
part_step-Settled v v' (starts id handler) h e =
    started-Settled v v' id handler (left id v) refl h e
part_step-Settled v v' (goes id) h e = went-Settled v v' id (left id v) refl h e

part_steps-Settled :
    (v v' : Views) (es : List PartEvent) → Settled v → part_steps v es ≡ done v' → Settled v'
unfolding part_steps
part_steps-Settled v v' [] h e = subst Settled (done-injective _ _ e) h
part_steps-Settled v v' (x ∷ es) h e =
    let (t, k, rest) = >>=-eq-done (part_step v x) _ e in
    part_steps-Settled t v' es (part_step-Settled v t x h k) rest

-- After the parts of JoinRoom, LeaveRoom and Unregister of any clients, in any order and without a
-- panic, on a new server to which clients connect and register, where a client starts a handler only
-- when its last one has ended: a room names a client that has no handler at work if and only if the
-- client names the room.
pub room_and_client_views_agree :
    (es : List PartEvent) (v : Views) (id r : String)
    → part_steps no_views es ≡ done v
    → left id v ≡ []
    → has_client id r v.rooms ≡ has_room id r v.heap
unfolding no_views lookup contains
room_and_client_views_agree es v id r e l =
    let all : Settled v = part_steps-Settled no_views v es (λ j q. refl) e in
    subst (λ ps. Settles r ps (has_client id r v.rooms) (has_room id r v.heap)) l (all id r)
