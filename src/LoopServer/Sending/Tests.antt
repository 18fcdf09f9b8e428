-- ===== src/LoopServer/Sending/Tests.antt =====
-- A message to bob, who is not served any more, and to carol.
use go_api_practice.Prelude.{false, true, List, [], ◌∷◌, ◌≡◌, refl, string_key, replicate, arith}
use go_api_practice.Prelude.Int.{pos, negsuc, pred_ℤ}
use go_api_practice.Prelude.Assoc.{lookup, insert}
use go_api_practice.Prelude.Run.{done}
use go_api_practice.Ring.{RespMsg}
use go_api_practice.LoopServer.Sending.{
  Conn, Net, SendEvent, acts, writes, send_starts, send_goes, new_conn, send_step, send_steps,
  run_act,
}
use go_api_practice.LoopServer.Sending.Stopped.{Blocked, stopped_client_blocks_sender}

abbrev hello : RespMsg
hello = record {
  msg_type = "broadcast";
  contents = "hello";
  sender_id = "ann";
  room_id = "";
  err_code = pos 0;
  offset = pos 0;
}

abbrev bob : Conn
bob = record new_conn { msg_ch = replicate 64 hello; writing = false }

abbrev before : Net
before = record {
  conns = ("bob", bob) ∷ ("carol", new_conn) ∷ [];
  senders = record { clients = "bob" ∷ "carol" ∷ []; resp = hello } ∷ [];
}

-- Another goroutine reaches carol.
abbrev events : List SendEvent
events = send_starts ("carol" ∷ []) hello ∷ send_goes 1 ∷ acts "carol" (writes true) ∷ []

abbrev afterwards : Net
afterwards = record {
  conns = ("bob", bob) ∷ ("carol", record new_conn { queue_size = negsuc 0 }) ∷ [];
  senders =
      record { clients = "bob" ∷ "carol" ∷ []; resp = hello }
      ∷ record { clients = []; resp = hello }
      ∷ [];
}

run_events : send_steps before events ≡ done (afterwards, ("carol", hello) ∷ [])
unfolding send_steps send_step run_act lookup insert pred_ℤ
run_events = refl

before-Blocked : Blocked "bob" 0 ("carol" ∷ []) hello before
unfolding lookup
before-Blocked = ((bob, refl, (refl, omega arith)), refl)

stopped_client_blocks_sender_example : Blocked "bob" 0 ("carol" ∷ []) hello afterwards
stopped_client_blocks_sender_example =
    stopped_client_blocks_sender "bob" 0 ("carol" ∷ []) hello before afterwards events
      (("carol", hello) ∷ []) before-Blocked run_events
