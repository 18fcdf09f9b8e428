-- ===== src/ClientLoop/Parts.antt =====
-- JoinRoom, LeaveRoom and Unregister of chat/client-loop/chat-client-loop.go in the parts between which
-- they hold no lock. The parts of different clients come in any order; a client starts a handler when
-- its last one has ended, and a wsID is taken once. What LeaveRoom does after it has found no room is
-- left out, since it ends in a nil pointer.
use go_api_practice.Prelude.{Option, none, some, List, [], ◌∷◌, String, string_key, if◌then◌else◌}
use go_api_practice.Prelude.Assoc.{Assoc, lookup, insert}
use go_api_practice.Prelude.Members.{contains, add, remove}
use go_api_practice.Prelude.Run.{Run, done, waits, panics, ◌>>=◌}
use go_api_practice.ClientLoop.{Client, Room, deref, new_client, room_or_new, entered, leave_found}

-- One critical section each, in the order of the source.
pub data Part : Type 0 where
  finds enters gains : String → Part
  looks quits loses : String → Part
  signs_off lists : Part
  drops : String → Part
  clears : Part

pub data Handler : Type 0 where
  joins leaves : String → Handler
  unregisters : Handler

-- The fields of WSServer that the parts use, and what is left of the handler of each client.
pub record Views : Type 0 where
  pub clients : List String
  pub rooms : Assoc String Room
  pub heap : Assoc String Client
  pub waiting : Assoc String (List Part)

abbrev pub parts_of : Handler → List Part
parts_of (joins r) = finds r ∷ enters r ∷ gains r ∷ []
parts_of (leaves r) = looks r ∷ quits r ∷ loses r ∷ []
parts_of unregisters = signs_off ∷ lists ∷ clears ∷ []

abbrev pub parts_or_none : Option (List Part) → List Part
parts_or_none none = []
parts_or_none (some ps) = ps

abbrev pub left : String → Views → List Part
left id v = parts_or_none (lookup id v.waiting)

abbrev pub drop_each : List String → List Part → List Part
drop_each [] ps = ps
drop_each (r ∷ rs) ps = drops r ∷ drop_each rs ps

abbrev pub wait_for : Views → String → List Part → Views
wait_for v id ps = record v { waiting = insert id ps v.waiting }

abbrev pub quit_room : Views → String → String → Option Room → Run Views
quit_room v id r none = panics
quit_room v id r (some room) =
    if contains id room.clients
    then done
        (record v { rooms = insert r (record room { clients = remove id room.clients }) v.rooms })
    else panics

abbrev pub look_up : Views → Option Room → Run Views
look_up v none = panics
look_up v (some room) = done v

abbrev pub with_rooms : Views → String → (List String → List String) → Run Views
with_rooms v id f = do
  c ← deref (lookup id v.heap)
  done (record v { heap = insert id (record c { rooms = f c.rooms }) v.heap })

abbrev pub sign_off : Views → String → List Part → Run Views
sign_off v id ps =
    if contains id v.clients
    then done (wait_for (record v { clients = remove id v.clients }) id ps)
    else done (wait_for v id [])

-- `for _, r := range c.rooms`, with the loop over roomsToLeave that follows.
abbrev pub list_rooms : Views → String → List Part → Run Views
list_rooms v id ps = do c ← deref (lookup id v.heap); done (wait_for v id (drop_each c.rooms ps))

-- A part of the handler of client `id`, with the parts `ps` after it.
unfoldable pub do_part : Views → String → Part → List Part → Run Views
do_part v id (finds r) ps =
    done (wait_for (record v { rooms = insert r (room_or_new (lookup r v.rooms)) v.rooms }) id ps)
do_part v id (enters r) ps = done (
    wait_for (record v { rooms = insert r (entered id (room_or_new (lookup r v.rooms))) v.rooms })
      id ps)
do_part v id (gains r) ps = with_rooms (wait_for v id ps) id (add r)
do_part v id (looks r) ps = look_up (wait_for v id ps) (lookup r v.rooms)
do_part v id (quits r) ps = quit_room (wait_for v id ps) id r (lookup r v.rooms)
do_part v id (loses r) ps = with_rooms (wait_for v id ps) id (remove r)
do_part v id signs_off ps = sign_off v id ps
do_part v id lists ps = list_rooms v id ps
do_part v id (drops r) ps =
    done (wait_for (record v { rooms = leave_found id r (lookup r v.rooms) v.rooms }) id ps)
do_part v id clears ps = with_rooms (wait_for v id ps) id (λ rs. [])

pub data PartEvent : Type 0 where
  connects registers : String → PartEvent
  starts : String → Handler → PartEvent
  goes : String → PartEvent

abbrev pub started : Views → String → Handler → List Part → Run Views
started v id h [] = done (wait_for v id (parts_of h))
started v id h (p ∷ ps) = waits

abbrev pub went : Views → String → List Part → Run Views
went v id [] = waits
went v id (p ∷ ps) = do_part v id p ps

abbrev pub connected : Views → String → Option Client → Run Views
connected v id none = done (record v { heap = insert id new_client v.heap })
connected v id (some c) = waits

unfoldable pub part_step : Views → PartEvent → Run Views
part_step v (connects id) = connected v id (lookup id v.heap)
part_step v (registers id) = done (record v { clients = add id v.clients })
part_step v (starts id h) = started v id h (left id v)
part_step v (goes id) = went v id (left id v)

unfoldable pub part_steps : Views → List PartEvent → Run Views
part_steps v [] = done v
part_steps v (e ∷ es) = do v' ← part_step v e; part_steps v' es

unfoldable pub no_views : Views
no_views = record { clients = []; rooms = []; heap = []; waiting = [] }
