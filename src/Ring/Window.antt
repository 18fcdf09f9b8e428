-- ===== src/Ring/Window.antt =====
-- The ring buffer as the list of the last messages.
use native.Mathlib.Nat.{mod-lt, mod-eq_of_lt, mod-eq-sub-mod}
use mathlib.Core.Path.{subst}
use go_api_practice.Prelude.{
  ℕ, zero, suc, ◌+◌, ◌-◌, ◌%◌, ◌≤◌, ◌<◌, none, some, List, [], ◌∷◌, ◌++◌, map, ◌≡◌, ◌≢◌, refl, sym,
  ap, ◌∙◌, inl, inr, ◌⊎◌, if◌then◌else◌, ltb, ◌==◌, get_elem?, set, drop, length, arith, Bool-cases,
  length-append, length-drop, length-set, length-replicate, get_elem?-set_self, get_elem?-set_ne,
  get_elem?-drop, drop-drop, drop-append, drop-eq_cons, drop-length, drop_nil, append-nil,
  append_assoc, nil_of_length, get_elem?-append, get_elem?-lt, lt-get_elem?,
}
use go_api_practice.Ring.{
  RespMsg, RingBuffer, new_ring_buffer, push, oldest_idx, read_slots, get_all, push_all,
}

-- `x % s` of a number below `2 * s`.
mod_wrap : (s x : ℕ) → x < s + s → (x < s) × (x % s ≡ x) ⊎ (s ≤ x) × (x % s + s ≡ x)
mod_wrap s x h = elim (Bool-cases (ltb x s)) [
  | inl t ↦ inl (ground arith, mod-eq_of_lt (ground arith))
  | inr t ↦
      let l : s ≤ x = ground arith in
      let e : x % s ≡ (x - s) % s = mod-eq-sub-mod l in
      let f : (x - s) % s ≡ x - s = mod-eq_of_lt (omega arith) in inr (l, omega (arith, e, f))
]

-- The buffer holds the messages of `win`, the oldest first.
pub record Holds (win : List RespMsg) (rb : RingBuffer) : Type 0 where
  pub some_slot : 0 < rb.size
  pub slots : length rb.buffer ≡ rb.size
  pub head_lt : rb.head < rb.size
  pub fits : rb.count ≤ rb.size
  pub counted : rb.count ≡ length win
  pub slot :
      (k : ℕ) (m : RespMsg)
      → get_elem? win k ≡ some m
      → get_elem? rb.buffer ((oldest_idx rb + k) % rb.size) ≡ some (some m)

-- The list after one more message, of which a buffer of size `s` keeps the last `s`.
abbrev pub slide : ℕ → List RespMsg → RespMsg → List RespMsg
slide s win m = drop (length win + 1 - s) (win ++ (m ∷ []))

-- Where the slots of the new window were, with `c` messages in `s` slots before the push.
module _ (s h c : ℕ) (pos : 0 < s) (hs : h < s) (cs : c ≤ s) where
  abbrev o : ℕ
  o = (h + s - c) % s

  abbrev c' : ℕ
  c' = if ltb c s then c + 1 else c

  abbrev o' : ℕ
  o' = ((h + 1) % s + s - c') % s

  old_slot : (k : ℕ) → c + 1 - s + k < c → (o' + k) % s ≡ (o + (c + 1 - s + k)) % s
  old_slot k l = ground (
    arith,
    mod_wrap s (h + s - c) (omega arith),
    mod_wrap s (h + 1) (omega arith),
    mod_wrap s ((h + 1) % s + s - c') (ground arith),
    mod_wrap s (o' + k) (ground arith),
    mod_wrap s (o + (c + 1 - s + k)) (ground arith),
  )

  other_slot : (k : ℕ) → c + 1 - s + k < c → (o + (c + 1 - s + k)) % s ≢ h
  other_slot k l e =
      ground (
        arith,
        mod_wrap s (h + s - c) (omega arith),
        mod_wrap s (o + (c + 1 - s + k)) (ground arith),
      )

  new_slot : (k : ℕ) → c + 1 - s + k ≡ c → (o' + k) % s ≡ h
  new_slot k e = ground (
    arith,
    mod_wrap s (h + 1) (omega arith),
    mod_wrap s ((h + 1) % s + s - c') (ground arith),
    mod_wrap s (o' + k) (ground arith),
  )

-- The buffer after a push, where the head is in range.
abbrev pushed : RingBuffer → RespMsg → RingBuffer
pushed rb m = record rb {
  buffer = set rb.buffer rb.head (some m);
  head = (rb.head + 1) % rb.size;
  count = if ltb rb.count rb.size then rb.count + 1 else rb.count;
}

pub push-Holds :
    (win : List RespMsg) (rb : RingBuffer) (m : RespMsg)
    → Holds win rb
    → (rb' : RingBuffer) × (push rb m ≡ some rb')
      × Holds (slide rb.size win m) rb'
      × (rb'.size ≡ rb.size)
unfolding push
push-Holds win rb m w =
    let (old, e) = get_elem?-lt rb.buffer rb.head (omega (arith, w.slots, w.head_lt)) in
    (
      pushed rb m,
      rw e refl,
      record {
        some_slot = w.some_slot;
        slots = length-set rb.buffer rb.head (some m) ∙ w.slots;
        head_lt = mod-lt (rb.head + 1) w.some_slot;
        fits = ground (arith, w.fits);
        counted = ground (
          arith,
          w.fits,
          w.counted,
          length-append win (m ∷ []),
          length-drop (length win + 1 - rb.size) (win ++ (m ∷ [])),
        );
        slot = λ k a g.
            slot k a (sym (get_elem?-drop (length win + 1 - rb.size) (win ++ (m ∷ [])) k) ∙ g);
      },
      refl,
    )
  where
    slot :
        (k : ℕ) (a : RespMsg)
        → get_elem? (win ++ (m ∷ [])) (length win + 1 - rb.size + k) ≡ some a
        → get_elem? (pushed rb m).buffer ((oldest_idx (pushed rb m) + k) % rb.size) ≡ some (some a)
    slot k a g =
        let n : length win + 1 - rb.size + k ≡ rb.count + 1 - rb.size + k =
          ap (λ x. x + 1 - rb.size + k) (sym w.counted) in
        elim (get_elem?-append win m (length win + 1 - rb.size + k) a g) [
          | inl l ↦
              let lt : rb.count + 1 - rb.size + k < rb.count =
                omega (arith, n, w.counted, lt-get_elem? win (length win + 1 - rb.size + k) a l) in
              ap (get_elem? (pushed rb m).buffer)
                (old_slot rb.size rb.head rb.count w.some_slot w.head_lt w.fits k lt)
              ∙ get_elem?-set_ne rb.buffer (some m) (λ q.
                other_slot rb.size rb.head rb.count w.some_slot w.head_lt w.fits k lt (sym q))
              ∙ w.slot (rb.count + 1 - rb.size + k) a (ap (get_elem? win) (sym n) ∙ l)
          | inr l ↦
              ap (get_elem? (pushed rb m).buffer) (
                new_slot rb.size rb.head rb.count w.some_slot w.head_lt w.fits k
                  (sym n ∙ l.0 ∙ sym w.counted))
              ∙ get_elem?-set_self rb.buffer rb.head (some m) (omega (arith, w.slots, w.head_lt))
              ∙ ap (λ x. some (some x)) l.1
        ]

pub read_slots-Holds :
    (win : List RespMsg) (rb : RingBuffer) (i n : ℕ)
    → Holds win rb
    → i + n ≡ rb.count
    → read_slots rb (oldest_idx rb) i n ≡ some (map some (drop i win))
unfolding read_slots
read_slots-Holds win rb i zero w e =
    ap (λ x. some (map some x)) (sym (drop-length win))
    ∙ ap (λ k. some (map some (drop k win))) (omega (arith, w.counted))
read_slots-Holds win rb i (suc n) w e =
    let (m, g) = get_elem?-lt win i (omega (arith, w.counted)) in
    let r = read_slots-Holds win rb (i + 1) n w (omega arith) in
    let d : drop i win ≡ m ∷ drop (i + 1) win =
      drop-eq_cons i win m g ∙ ap (λ k. m ∷ drop k win) {x = suc i} (omega arith) in
    rw (w.slot i m g, r) (ap (λ x. some (map some x)) (sym d))

-- The last `s` of some messages.
abbrev pub last_of : ℕ → List RespMsg → List RespMsg
last_of s ms = drop (length ms - s) ms

pub slide-last_of :
    (s : ℕ) (ms : List RespMsg) (m : RespMsg)
    → slide s (last_of s ms) m ≡ last_of s (ms ++ (m ∷ []))
slide-last_of s ms m =
    let a = length ms - s in
    let l = length-drop a ms in
    ap (drop (length (drop a ms) + 1 - s)) (sym (drop-append a ms (m ∷ []) (omega arith)))
    ∙ drop-drop (length (drop a ms) + 1 - s) a (ms ++ (m ∷ []))
    ∙ ap (λ k. drop k (ms ++ (m ∷ []))) (omega (arith, l, length-append ms (m ∷ [])))

pub new_ring_buffer-Holds : (s : ℕ) → 0 < s → Holds [] (new_ring_buffer s)
unfolding new_ring_buffer
new_ring_buffer-Holds s h = record {
  some_slot = h;
  slots = length-replicate s none;
  head_lt = h;
  fits = omega arith;
  counted = refl;
  slot = λ k m e. absurd (ground arith);
}

push_all-Holds :
    (s : ℕ) (sent ms : List RespMsg) (rb : RingBuffer)
    → rb.size ≡ s
    → Holds (last_of s sent) rb
    → (rb' : RingBuffer) × (push_all rb ms ≡ some rb') × Holds (last_of s (sent ++ ms)) rb'
unfolding push_all
push_all-Holds s sent [] rb e w =
    (rb, refl, subst (λ x. Holds (last_of s x) rb) (sym (append-nil sent)) w)
push_all-Holds s sent (m ∷ ms) rb e w =
    let (rb₁, p, w₁, e₁) = push-Holds (last_of s sent) rb m w in
    let w₂ =
      subst (λ x. Holds x rb₁) (ap (λ k. slide k (last_of s sent) m) e ∙ slide-last_of s sent m)
        w₁ in
    let (rb₂, q, w₃) = push_all-Holds s (sent ++ (m ∷ [])) ms rb₁ (e₁ ∙ e) w₂ in
    (rb₂, rw p q, subst (λ x. Holds (last_of s x) rb₂) (append_assoc sent (m ∷ []) ms) w₃)

pub sent-Holds :
    (s : ℕ) (ms : List RespMsg)
    → 0 < s
    → (rb : RingBuffer) × (push_all (new_ring_buffer s) ms ≡ some rb) × Holds (last_of s ms) rb
unfolding new_ring_buffer
sent-Holds s ms h =
    push_all-Holds s [] ms (new_ring_buffer s) refl (
      subst (λ x. Holds x (new_ring_buffer s)) (sym (drop_nil (0 - s))) (new_ring_buffer-Holds s h))

pub get_all-Holds :
    (win : List RespMsg) (rb : RingBuffer) → Holds win rb → get_all rb ≡ some (map some win)
unfolding get_all
get_all-Holds win rb w = elim (Bool-cases (rb.count == 0)) [
  | inl t ↦ rw t (ap (λ x. some (map some x)) (nil_of_length win (ground arith)))
  | inr t ↦ rw t (read_slots-Holds win rb 0 rb.count w (omega arith))
]

-- Messages pushed into a new buffer with at least one slot: no push panics, and GetAll then returns
-- the last messages, as many as the buffer has slots or all of them if there are fewer, in the order
-- of the pushes.
pub get_all_returns_last_messages :
    (s : ℕ) (ms : List RespMsg)
    → 0 < s
    → (rb : RingBuffer) × (push_all (new_ring_buffer s) ms ≡ some rb)
      × (get_all rb ≡ some (map some (last_of s ms)))
get_all_returns_last_messages s ms h =
    let (rb, e, w) = sent-Holds s ms h in (rb, e, get_all-Holds (last_of s ms) rb w)
