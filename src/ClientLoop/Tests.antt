-- ===== src/ClientLoop/Tests.antt =====
-- Concrete runs of the server with a client loop.
use go_api_practice.Prelude.{
  ◌+◌, true, false, some, List, [], ◌∷◌, ◌≡◌, refl, String, string_key, if◌then◌else◌, same,
  same_iff, ◌&&◌, arith,
}
use go_api_practice.Prelude.Int.{pos}
use go_api_practice.Prelude.Assoc.{lookup, insert}
use go_api_practice.Prelude.Members.{contains, add}
use go_api_practice.Prelude.Mutex.{r_lock, w_lock, w_unlock}
use go_api_practice.Prelude.Run.{done, waits, panics}
use go_api_practice.ClientLoop.{
  connect, new_client, WsServer, register_broadcast_cmd, register_room_cmd, unregister_cmd,
  join_room, entered, leave_room, send_room_msg, sent_room_msg, register_cmd, Event, registered,
  step, steps,
}
use go_api_practice.ClientLoop.Url.{
  ParsedCmd, parse_url_to_cmd, process_cmd, join_url, parse-join_url,
}
use go_api_practice.ClientLoop.Lock.{missing_room_blocks_registration}
use go_api_practice.ClientLoop.Members.{has_client, has_room}
use go_api_practice.ClientLoop.Leave.{Agrees, leave_room_panics_unless_member}
use go_api_practice.ClientLoop.Visit.{unlocked, room_visit, room_visitor_is_never_removed}
use go_api_practice.ClientLoop.Parts.{
  gains, joins, Views, PartEvent, connects, starts, goes, do_part, part_step, part_steps, no_views,
}
use go_api_practice.ClientLoop.Interleaved.{room_and_client_views_agree}
use go_api_practice.ClientLoop.Places.{places, event_registrations, step_keeps_broadcast_places}

-- One client, in no room, and a room without clients.
abbrev quiet : WsServer
quiet = record {
  clients = [];
  rooms = ("lobby", record { clients = [] }) ∷ [];
  client_ch = [];
  workers = record { clients = "bob" ∷ []; msg_ch = [] } ∷ [];
  mu = unlocked;
  heap = ("ann", record { rooms = []; ping_count = pos 0 }) ∷ [];
}

abbrev leaked : WsServer
leaked = record quiet { mu = record { readers = 1; writer = false } }

quiet-Agrees : Agrees quiet
unfolding lookup contains
quiet-Agrees id r = ground arith

parse-join_url_example :
    (cmd : ParsedCmd) × (parse_url_to_cmd (join_url "lobby" ("x" ∷ [])) ≡ done (some cmd))
    × (process_cmd "ann" cmd
        ≡ some (record { client = "ann"; cmd = register_room_cmd; room_id = "lobby" }))
parse-join_url_example =
    parse-join_url "ann" "lobby" ("x" ∷ [])
      ((refl, (refl, (refl, (refl, (refl, tt))))), ((refl, tt), tt))
      (λ e. ground (arith, e, same_iff {K = String} "lobby" ""))

missing_room_blocks_registration_example :
    (register_cmd leaked register_broadcast_cmd "eve" "" ≡ waits)
    × (register_cmd leaked unregister_cmd "eve" "" ≡ waits)
    × (join_room leaked "eve" "" ≡ waits)
unfolding lookup send_room_msg sent_room_msg r_lock steps
missing_room_blocks_registration_example =
    missing_room_blocks_registration quiet leaked leaked "hello" "ann" "cellar" [] false [] refl
      refl refl "eve" ""

leave_room_panics_unless_member_example :
    ((has_client "ann" "lobby" quiet.rooms ≡ false) → leave_room quiet "ann" "lobby" ≡ panics)
    × ((has_client "ann" "lobby" quiet.rooms ≡ true)
        → (svr' : WsServer) × (leave_room quiet "ann" "lobby" ≡ done svr')
          × Agrees svr'
          × ((j q : String)
              → has_client j q svr'.rooms
                ≡ (if same "lobby" q && same "ann" j then false else has_client j q quiet.rooms)))
leave_room_panics_unless_member_example =
    leave_room_panics_unless_member quiet "ann" "lobby" refl quiet-Agrees

abbrev ann_in_lobby : WsServer
ann_in_lobby = record quiet {
  rooms = ("lobby", record { clients = "ann" ∷ [] }) ∷ [];
  heap = ("ann", record { rooms = "lobby" ∷ []; ping_count = pos 0 }) ∷ [];
}

abbrev ann_joins : Event
ann_joins = registered (record { client = "ann"; cmd = register_room_cmd; room_id = "lobby" })

abbrev from_start : List Event
from_start = connect "ann" ∷ ann_joins ∷ []

abbrev after_start : WsServer
after_start = record ann_in_lobby { workers = record { clients = []; msg_ch = [] } ∷ [] }

room_visitor_is_never_removed_example :
    (svr' : WsServer) × (steps quiet (room_visit "eve" "lobby") ≡ done svr')
    × (has_client "eve" "lobby" svr'.rooms ≡ true)
unfolding contains
room_visitor_is_never_removed_example = room_visitor_is_never_removed quiet "eve" "lobby" refl refl

step_keeps_broadcast_places_example :
    places "ann" ann_in_lobby ≡ places "ann" quiet + event_registrations "ann" ann_joins
unfolding step register_cmd join_room entered w_lock w_unlock lookup insert add
step_keeps_broadcast_places_example =
    step_keeps_broadcast_places "ann" quiet ann_in_lobby ann_joins [] refl

-- Two clients join a room in turns; the second is done, and the first has not added the room to its own.
abbrev two_joins : List PartEvent
two_joins =
    connects "ann"
    ∷ connects "bob"
    ∷ starts "ann" (joins "lobby")
    ∷ starts "bob" (joins "lobby")
    ∷ goes "ann"
    ∷ goes "bob"
    ∷ goes "bob"
    ∷ goes "ann"
    ∷ goes "bob"
    ∷ []

abbrev between : Views
between = record {
  clients = [];
  rooms = ("lobby", record { clients = "bob" ∷ "ann" ∷ [] }) ∷ [];
  heap =
      ("ann", record { rooms = []; ping_count = pos 0 })
      ∷ ("bob", record { rooms = "lobby" ∷ []; ping_count = pos 0 })
      ∷ [];
  waiting = ("ann", gains "lobby" ∷ []) ∷ ("bob", []) ∷ [];
}

run_two_joins : part_steps no_views two_joins ≡ done between
unfolding part_steps part_step no_views do_part lookup insert add entered new_client
run_two_joins = refl

room_and_client_views_agree_example :
    has_client "bob" "lobby" between.rooms ≡ has_room "bob" "lobby" between.heap
unfolding lookup
room_and_client_views_agree_example =
    room_and_client_views_agree two_joins between "bob" "lobby" run_two_joins refl
