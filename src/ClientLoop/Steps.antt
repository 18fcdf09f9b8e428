-- ===== src/ClientLoop/Steps.antt =====
-- What holds after a handler, if it returns.
use mathlib.Core.Path.{subst}
use go_api_practice.Prelude.{
  Bool, true, false, List, [], ◌≡◌, refl, String, string_key, same, if◌then◌else◌, arith,
}
use go_api_practice.Prelude.Run.{Run, done, waits, panics, done-injective}
use go_api_practice.ClientLoop.{
  WsServer, ClientMsg, Written, send_room_msg, join_room, leave_room, broadcast_msg, pinged,
  read_msg, silent, unreported, msg_type_broadcast, msg_type_room_message, msg_type_join_room,
  msg_type_leave_room, msg_type_ping,
}

module _ (P : WsServer → Type 0) where
  unfoldable pub After : Run (WsServer × List (String × Written)) → Type 0
  After x = (svr : WsServer) (sent : List (String × Written)) → x ≡ done (svr, sent) → P svr

  if-After :
      (b : Bool) (x y : Run (WsServer × List (String × Written)))
      → After x
      → After y
      → After (if b then x else y)
  if-After true x y h k = h
  if-After false x y h k = k

  pub done-After :
      (svr : WsServer) (sent : List (String × Written)) → P svr → After (done (svr, sent))
  unfolding After
  done-After svr sent h t out e = subst (λ x. P x.0) (done-injective _ _ e) h

  pub silent-After :
      (m : Run WsServer) → ((svr : WsServer) → m ≡ done svr → P svr) → After (silent m)
  unfolding After
  silent-After (done svr) h = done-After svr [] (h svr refl)
  silent-After waits h = λ t out e. absurd (ground arith)
  silent-After panics h = λ t out e. absurd (ground arith)

  pub unreported-After :
      (m : Run (WsServer × List (String × Written) × Bool))
      → ((svr : WsServer) (sent : List (String × Written)) (ok : Bool)
          → m ≡ done (svr, sent, ok)
          → P svr)
      → After (unreported m)
  unfolding After
  unreported-After (done (svr, sent, ok)) h = done-After svr sent (h svr sent ok refl)
  unreported-After waits h = λ t out e. absurd (ground arith)
  unreported-After panics h = λ t out e. absurd (ground arith)

  -- The dispatch of readMsgLoop, from its handlers.
  pub read_msg-After :
      (svr : WsServer) (id : String) (msg : ClientMsg)
      → P (broadcast_msg svr msg.contents)
      → ((svr' : WsServer) (sent : List (String × Written)) (ok : Bool)
          → send_room_msg svr msg.contents id msg.room_id ≡ done (svr', sent, ok)
          → P svr')
      → ((svr' : WsServer) → join_room svr id msg.room_id ≡ done svr' → P svr')
      → ((svr' : WsServer) → leave_room svr id msg.room_id ≡ done svr' → P svr')
      → After (pinged svr id)
      → P svr
      → After (read_msg svr id msg)
  unfolding read_msg
  read_msg-After svr id msg b s j l p o =
      if-After (same msg.msg_type msg_type_broadcast) _ _ (done-After _ [] b) (
        if-After (same msg.msg_type msg_type_room_message) _ _ (unreported-After _ s) (
          if-After (same msg.msg_type msg_type_join_room) _ _ (silent-After _ j) (
            if-After (same msg.msg_type msg_type_leave_room) _ _ (silent-After _ l)
              (if-After (same msg.msg_type msg_type_ping) _ _ p (done-After svr [] o)))))
