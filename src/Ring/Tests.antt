-- ===== src/Ring/Tests.antt =====
-- A room's buffer of two slots and three messages: chat/with-loop-per-client/ring-buffer.go.
use go_api_practice.Prelude.{some, List, [], ◌∷◌, ◌≡◌, refl, arith}
use go_api_practice.Prelude.Int.{ℤ, pos}
use go_api_practice.Ring.{RespMsg, RingBuffer, new_ring_buffer, push_all, get_all, get_from_offset}
use go_api_practice.Ring.Window.{get_all_returns_last_messages}
use go_api_practice.Ring.Offset.{get_from_offset_returns_newest_or_nothing}

abbrev msg : ℤ → RespMsg
msg offset = record {
  msg_type = "room-message";
  contents = "hello";
  sender_id = "A";
  room_id = "lobby";
  err_code = pos 0;
  offset = offset;
}

abbrev three : List RespMsg
three = msg (pos 0) ∷ msg (pos 1) ∷ msg (pos 2) ∷ []

get_all_returns_last_messages_example :
    (rb : RingBuffer) × (push_all (new_ring_buffer 2) three ≡ some rb)
    × (get_all rb ≡ some (some (msg (pos 1)) ∷ some (msg (pos 2)) ∷ []))
get_all_returns_last_messages_example = get_all_returns_last_messages 2 three (omega arith)

-- Both messages held are newer than offset 0, and one is returned.
get_from_offset_returns_newest_or_nothing_example :
    (rb : RingBuffer) × (push_all (new_ring_buffer 2) three ≡ some rb)
    × (get_from_offset rb (pos 0) ≡ some (some (msg (pos 2)) ∷ []))
get_from_offset_returns_newest_or_nothing_example =
    get_from_offset_returns_newest_or_nothing 2 three (msg (pos 2)) (pos 0) (omega arith) refl
