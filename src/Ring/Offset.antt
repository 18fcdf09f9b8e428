-- ===== src/Ring/Offset.antt =====
-- What GetFromOffset returns: its first loop reads one and the same slot in every round.
use go_api_practice.Prelude.{
  ℕ, zero, suc, ◌+◌, ◌-◌, ◌%◌, ◌<◌, Bool, false, Option, none, some, List, [], ◌∷◌, map, ◌≡◌, refl,
  sym, ap, ◌∙◌, inl, inr, if◌then◌else◌, ◌==◌, get_elem?, drop, length, arith, Bool-cases,
  get_elem?-lt, lt-get_elem?, drop-eq_cons, drop-length,
}
use go_api_practice.Prelude.Int.{ℤ, ltb_ℤ}
use go_api_practice.Ring.{
  RespMsg, RingBuffer, new_ring_buffer, oldest_idx, read_slots, find_start, read_found,
  get_from_offset, push_all,
}
use go_api_practice.Ring.Window.{Holds, last_of, sent-Holds}

-- The last round, if the message read is newer than the offset.
abbrev found_start : Bool → ℕ → ℕ → Option ℕ → Option ℕ
found_start newer i zero start = start
found_start newer i (suc n) start = if newer then some (i + n) else start

find_start-found :
    (rb : RingBuffer) (offset : ℤ) (m : RespMsg) (i n : ℕ) (start : Option ℕ)
    → get_elem? rb.buffer ((oldest_idx rb + 1) % rb.size) ≡ some (some m)
    → find_start rb offset i n start ≡ some (found_start (ltb_ℤ offset m.offset) i n start)
unfolding find_start
find_start-found rb offset m i zero start e = refl
find_start-found rb offset m i (suc n) start e = rw e (
    find_start-found rb offset m (i + 1) n (if ltb_ℤ offset m.offset then some i else start) e
    ∙ ap some (last_round n))
  where
    last_round :
        (k : ℕ)
        → found_start
            (ltb_ℤ offset m.offset)
            (i + 1)
            k
            (if ltb_ℤ offset m.offset then some i else start)
          ≡ (if ltb_ℤ offset m.offset then some (i + k) else start)
    last_round zero = ground arith
    last_round (suc k) = ground arith

found_start-last :
    (newer : Bool) (n : ℕ)
    → 0 < n
    → found_start newer 0 n none ≡ (if newer then some (n - 1) else none)
found_start-last newer zero h = absurd (omega arith)
found_start-last newer (suc n) h =
    ap (λ k. if newer then some k else none) {x = 0 + n} (omega arith)

read_newest :
    (win : List RespMsg) (rb : RingBuffer)
    → Holds win rb
    → 0 < length win
    → read_slots rb (oldest_idx rb + (rb.count - 1)) 0 (rb.count - (rb.count - 1))
      ≡ some (map some (drop (length win - 1) win))
unfolding read_slots
read_newest win rb w h =
    let (m, g) = get_elem?-lt win (rb.count - 1) (omega (arith, w.counted)) in
    let one : rb.count - (rb.count - 1) ≡ 1 = omega (arith, w.counted) in
    let at : oldest_idx rb + (rb.count - 1) + 0 ≡ oldest_idx rb + (rb.count - 1) = omega arith in
    let d : drop (length win - 1) win ≡ m ∷ [] =
      ap (λ k. drop (k - 1) win) (sym w.counted)
      ∙ drop-eq_cons (rb.count - 1) win m g
      ∙ ap (λ k. m ∷ drop k win) {x = suc (rb.count - 1)} (omega (arith, w.counted))
      ∙ ap (λ x. m ∷ x) (drop-length win) in
    rw (one, at, w.slot (rb.count - 1) m g) (ap (λ x. some (map some x)) (sym d))

-- For messages pushed into a new buffer that then holds two or more: GetFromOffset returns the
-- newest message only, if the second oldest one that is held has an offset beyond the one asked for,
-- and nothing otherwise.
pub get_from_offset_returns_newest_or_nothing :
    (s : ℕ) (ms : List RespMsg) (m : RespMsg) (offset : ℤ)
    → 0 < s
    → get_elem? (last_of s ms) 1 ≡ some m
    → (rb : RingBuffer) × (push_all (new_ring_buffer s) ms ≡ some rb)
      × (get_from_offset rb offset
          ≡ some (
              if ltb_ℤ offset m.offset
              then map some (drop (length (last_of s ms) - 1) (last_of s ms))
              else []))
unfolding get_from_offset read_found
get_from_offset_returns_newest_or_nothing s ms m offset h g =
    let (rb, e, w) = sent-Holds s ms h in (rb, e, from rb w)
  where
    from :
        (rb : RingBuffer)
        → Holds (last_of s ms) rb
        → get_from_offset rb offset
          ≡ some (
              if ltb_ℤ offset m.offset
              then map some (drop (length (last_of s ms) - 1) (last_of s ms))
              else [])
    from rb w =
        let l = lt-get_elem? (last_of s ms) 1 m g in
        let some_count : (rb.count == 0) ≡ false = ground (arith, w.counted) in
        let f =
          find_start-found rb offset m 0 rb.count none (w.slot 1 m g)
          ∙ ap some
              (found_start-last (ltb_ℤ offset m.offset) rb.count (omega (arith, w.counted))) in
        elim (Bool-cases (ltb_ℤ offset m.offset)) [
          | inl t ↦ rw (some_count, f, t) (read_newest (last_of s ms) rb w (omega arith))
          | inr t ↦ rw (some_count, f, t) refl
        ]
