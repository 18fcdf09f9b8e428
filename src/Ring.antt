-- ===== src/Ring.antt =====
-- The message buffer of a chat room: chat/with-loop-per-client/ring-buffer.go. A slot of the slice is
-- none where the pointer is nil, and a call is `none` where it panics: on an index out of range, on
-- a nil message, on a remainder by 0. An int is a number here: every value stays below 2 * size. The
-- mutex is held over each call, so each call is one step.
pub mod Window
pub mod Offset
mod Tests
use go_api_practice.Prelude.{
  ℕ, zero, suc, ◌+◌, ◌-◌, ◌%◌, Bool, true, false, Option, none, some, List, [], ◌∷◌, String,
  if◌then◌else◌, ltb, ◌==◌, get_elem?, set, replicate,
}
use go_api_practice.Prelude.Int.{ℤ, ltb_ℤ}
use go_api_practice.Prelude.Blocking.{◌>>=◌}

pub record RespMsg : Type 0 where
  pub msg_type : String
  pub contents : String
  pub sender_id : String
  pub room_id : String
  pub err_code : ℤ
  pub offset : ℤ

pub record RingBuffer : Type 0 where
  pub buffer : List (Option RespMsg)
  pub size : ℕ
  pub head : ℕ
  pub count : ℕ

unfoldable pub new_ring_buffer : ℕ → RingBuffer
new_ring_buffer size = record { buffer = replicate size none; size = size; head = 0; count = 0 }

unfoldable pub push : RingBuffer → RespMsg → Option RingBuffer
push rb msg = do
  slot ← get_elem? rb.buffer rb.head
  some (record rb {
    buffer = set rb.buffer rb.head (some msg);
    head = (rb.head + 1) % rb.size;
    count = if ltb rb.count rb.size then rb.count + 1 else rb.count;
  })

-- `(rb.head - rb.count + rb.size) % rb.size`, where the count is at most the size.
abbrev pub oldest_idx : RingBuffer → ℕ
oldest_idx rb = (rb.head + rb.size - rb.count) % rb.size

-- The messages in `n` slots, from the `i`th after `from` on.
unfoldable pub read_slots : RingBuffer → ℕ → ℕ → ℕ → Option (List (Option RespMsg))
read_slots rb from i zero = some []
read_slots rb from i (suc n) = do
  msg ← get_elem? rb.buffer ((from + i) % rb.size)
  rest ← read_slots rb from (i + 1) n
  some (msg ∷ rest)

unfoldable pub get_all : RingBuffer → Option (List (Option RespMsg))
get_all rb = if rb.count == 0 then some [] else read_slots rb (oldest_idx rb) 0 rb.count

-- The first loop of GetFromOffset, from round `i` on with `n` rounds left. The slot that it reads is
-- the same in every round.
unfoldable pub find_start : RingBuffer → ℤ → ℕ → ℕ → Option ℕ → Option (Option ℕ)
find_start rb offset i zero start_pos = some start_pos
find_start rb offset i (suc n) start_pos = do
  slot ← get_elem? rb.buffer ((oldest_idx rb + 1) % rb.size)
  msg ← slot
  find_start rb offset (i + 1) n (if ltb_ℤ offset msg.offset then some i else start_pos)

read_found : RingBuffer → Option ℕ → Option (List (Option RespMsg))
read_found rb none = some []
read_found rb (some start_pos) = read_slots rb (oldest_idx rb + start_pos) 0 (rb.count - start_pos)

unfoldable pub get_from_offset : RingBuffer → ℤ → Option (List (Option RespMsg))
unfolding read_found
get_from_offset rb offset =
    if rb.count == 0
    then some []
    else do start_pos ← find_start rb offset 0 rb.count none; read_found rb start_pos

unfoldable pub push_all : RingBuffer → List RespMsg → Option RingBuffer
push_all rb [] = some rb
push_all rb (m ∷ ms) = do rb' ← push rb m; push_all rb' ms
