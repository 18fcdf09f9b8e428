-- ===== src/Partition/Loop.antt =====
-- The loop of FindLatestToCommit as the source writes it, with its guard `offset <= MaxReceived.Offset`,
-- its `continue` and `break` and its int64 loop variable, against `scan`, which counts its rounds
-- beforehand on integers without bounds.
use mathlib.Core.Path.{subst}
use go_api_practice.Prelude.{
  ℕ, zero, suc, true, false, Option, none, some, ◌≡◌, ◌≢◌, inl, inr, refl, sym, ap, ◌∙◌, arith,
  Bool-cases, if◌then◌else◌,
}
use go_api_practice.Prelude.Int.{ℤ, pos, negsuc, ltb_ℤ, eqb_ℤ, ◌<ℤ◌, suc_ℤ, suc_ℤ_parts, int_key}
use go_api_practice.Prelude.Assoc.{Assoc, is_empty, lookup, delete}
use go_api_practice.Partition.{MsgState, pending, success, error, rounds, scan}

abbrev pub max_int64 : ℤ
max_int64 = pos 9223372036854775807

abbrev pub min_int64 : ℤ
min_int64 = negsuc 9223372036854775807

-- `offset + 1` in int64, which wraps.
unfoldable pub next_offset : ℤ → ℤ
next_offset offset = if eqb_ℤ offset max_int64 then min_int64 else suc_ℤ offset

-- The runs of the loop that end, from an offset, `ps.State` and `latestToCommit.Offset` to the last two.
pub data LoopRun (max : ℤ) : ℤ → Assoc ℤ MsgState → ℤ → Assoc ℤ MsgState × ℤ → Type 0 where
  guard_fails :
      (offset : ℤ) (st : Assoc ℤ MsgState) (latest : ℤ)
      → ltb_ℤ max offset ≡ true
      → LoopRun max offset st latest (st, latest)
  not_there :
      (offset : ℤ) (st : Assoc ℤ MsgState) (latest : ℤ) (r : Assoc ℤ MsgState × ℤ)
      → ltb_ℤ max offset ≡ false
      → lookup offset st ≡ none
      → LoopRun max (next_offset offset) st latest r
      → LoopRun max offset st latest r
  breaks_at_pending :
      (offset : ℤ) (st : Assoc ℤ MsgState) (latest : ℤ)
      → ltb_ℤ max offset ≡ false
      → lookup offset st ≡ some pending
      → LoopRun max offset st latest (st, offset)
  breaks_when_empty :
      (offset : ℤ) (st : Assoc ℤ MsgState) (latest : ℤ) (s : MsgState)
      → ltb_ℤ max offset ≡ false
      → lookup offset st ≡ some s
      → s ≢ pending
      → is_empty (delete offset st) ≡ true
      → LoopRun max offset st latest (delete offset st, next_offset offset)
  removes :
      (offset : ℤ) (st : Assoc ℤ MsgState) (latest : ℤ) (s : MsgState) (r : Assoc ℤ MsgState × ℤ)
      → ltb_ℤ max offset ≡ false
      → lookup offset st ≡ some s
      → s ≢ pending
      → is_empty (delete offset st) ≡ false
      → LoopRun max (next_offset offset) (delete offset st) latest r
      → LoopRun max offset st latest r

next_offset-suc :
    (max offset : ℤ)
    → max <ℤ max_int64
    → ltb_ℤ max offset ≡ false
    → next_offset offset ≡ suc_ℤ offset
unfolding next_offset
next_offset-suc max offset m g =
    let small : eqb_ℤ offset max_int64 ≡ false = ground (arith, m, g) in rw small refl

no_rounds : (offset max : ℤ) → rounds offset max ≡ 0 → ltb_ℤ max offset ≡ true
no_rounds offset max h = ground (arith, h)

a_round :
    (offset max : ℤ) (n : ℕ)
    → rounds offset max ≡ suc n
    → (ltb_ℤ max offset ≡ false) × (rounds (suc_ℤ offset) max ≡ n)
a_round offset max n h = (ground (arith, h), omega (arith, h, suc_ℤ_parts offset))

pub rounds-ltb : (offset max : ℤ) → ltb_ℤ max offset ≡ false → (n : ℕ) × (rounds offset max ≡ suc n)
rounds-ltb offset max h = by_rounds (rounds offset max) refl
  where
    by_rounds : (k : ℕ) → rounds offset max ≡ k → (n : ℕ) × (rounds offset max ≡ suc n)
    by_rounds zero e = absurd (ground (arith, h, no_rounds offset max e))
    by_rounds (suc n) e = (n, e)

scan-LoopRun :
    (max : ℤ) (n : ℕ) (offset : ℤ) (st : Assoc ℤ MsgState) (latest : ℤ)
    → max <ℤ max_int64
    → rounds offset max ≡ n
    → LoopRun max offset st latest (scan n offset st latest)
unfolding scan
scan-LoopRun max zero offset st latest m h = guard_fails offset st latest (no_rounds offset max h)
scan-LoopRun max (suc n) offset st latest m h =
    by_state (lookup offset st) refl
      (scan-LoopRun max n (suc_ℤ offset) st latest m (a_round offset max n h).1)
      (scan-LoopRun max n (suc_ℤ offset) (delete offset st) latest m (a_round offset max n h).1)
  where
    next_is : next_offset offset ≡ suc_ℤ offset
    next_is = next_offset-suc max offset m (a_round offset max n h).0

    processed :
        (s : MsgState)
        → lookup offset st ≡ some s
        → s ≢ pending
        → LoopRun max
            (suc_ℤ offset)
            (delete offset st)
            latest
            (scan n (suc_ℤ offset) (delete offset st) latest)
        → LoopRun max offset st latest (elim (is_empty (delete offset st)) [
          | true ↦ (delete offset st, suc_ℤ offset)
          | false ↦ scan n (suc_ℤ offset) (delete offset st) latest
        ])
    processed s e p next = elim (Bool-cases (is_empty (delete offset st))) [
      | inl t ↦ rw t (
          subst (λ o. LoopRun max offset st latest (delete offset st, o)) next_is
            (breaks_when_empty offset st latest s (a_round offset max n h).0 e p t))
      | inr t ↦ rw t (
          removes offset st latest s (scan n (suc_ℤ offset) (delete offset st) latest)
            (a_round offset max n h).0 e p t
            (subst
              (λ o.
                LoopRun max o (delete offset st) latest
                  (scan n (suc_ℤ offset) (delete offset st) latest))
              (sym next_is) next))
    ]

    by_state :
        (o : Option MsgState)
        → lookup offset st ≡ o
        → LoopRun max (suc_ℤ offset) st latest (scan n (suc_ℤ offset) st latest)
        → LoopRun max
            (suc_ℤ offset)
            (delete offset st)
            latest
            (scan n (suc_ℤ offset) (delete offset st) latest)
        → LoopRun max offset st latest (scan (suc n) offset st latest)
    by_state none e next less =
        rw (scan, e)
          (not_there offset st latest _ (a_round offset max n h).0 e (
            subst (λ o. LoopRun max o st latest (scan n (suc_ℤ offset) st latest)) (sym next_is)
              next))
    by_state (some pending) e next less =
        rw (scan, e) (breaks_at_pending offset st latest (a_round offset max n h).0 e)
    by_state (some success) e next less =
        rw (scan, e) (processed success e (λ c. absurd (ground (arith, c))) less)
    by_state (some error) e next less =
        rw (scan, e) (processed error e (λ c. absurd (ground (arith, c))) less)

-- A round in which the offset has a message that is processed.
scan-processed :
    (n : ℕ) (offset : ℤ) (st : Assoc ℤ MsgState) (latest : ℤ) (s : MsgState)
    → lookup offset st ≡ some s
    → s ≢ pending
    → scan (suc n) offset st latest ≡ elim (is_empty (delete offset st)) [
      | true ↦ (delete offset st, suc_ℤ offset)
      | false ↦ scan n (suc_ℤ offset) (delete offset st) latest
    ]
unfolding scan
scan-processed n offset st latest pending e p = absurd (p refl)
scan-processed n offset st latest success e p = rw (scan, e) refl
scan-processed n offset st latest error e p = rw (scan, e) refl

LoopRun-scan :
    (max : ℤ) {offset : ℤ} {st : Assoc ℤ MsgState} {latest : ℤ} {r : Assoc ℤ MsgState × ℤ}
    → max <ℤ max_int64
    → LoopRun max offset st latest r
    → (n : ℕ) → rounds offset max ≡ n
    → r ≡ scan n offset st latest
unfolding scan
LoopRun-scan max m (guard_fails offset st latest g) zero h = refl
LoopRun-scan max m (guard_fails offset st latest g) (suc n) h =
    absurd (ground (arith, g, (a_round offset max n h).0))
LoopRun-scan max m (not_there offset st latest r g e next) zero h =
    absurd (ground (arith, g, no_rounds offset max h))
LoopRun-scan max m (not_there offset st latest r g e next) (suc n) h =
    let next_is = next_offset-suc max offset m g in
    LoopRun-scan max m next n (ap (λ o. rounds o max) next_is ∙ (a_round offset max n h).1)
    ∙ rw (scan, e, next_is) refl
LoopRun-scan max m (breaks_at_pending offset st latest g e) zero h =
    absurd (ground (arith, g, no_rounds offset max h))
LoopRun-scan max m (breaks_at_pending offset st latest g e) (suc n) h = rw (scan, e) refl
LoopRun-scan max m (breaks_when_empty offset st latest s g e p t) zero h =
    absurd (ground (arith, g, no_rounds offset max h))
LoopRun-scan max m (breaks_when_empty offset st latest s g e p t) (suc n) h = sym (
    scan-processed n offset st latest s e p
    ∙ rw t (ap (λ o. (delete offset st, o)) (sym (next_offset-suc max offset m g))))
LoopRun-scan max m (removes offset st latest s r g e p t next) zero h =
    absurd (ground (arith, g, no_rounds offset max h))
LoopRun-scan max m (removes offset st latest s r g e p t next) (suc n) h =
    let next_is = next_offset-suc max offset m g in
    LoopRun-scan max m next n (ap (λ o. rounds o max) next_is ∙ (a_round offset max n h).1)
    ∙ ap (λ o. scan n o (delete offset st) latest) next_is
    ∙ sym (scan-processed n offset st latest s e p ∙ rw t refl)

-- With MaxReceived below the largest int64, the loop of FindLatestToCommit, whose variable wraps, ends
-- from every offset, whatever the map holds, and in one result: that of `scan` with as many rounds as
-- there are offsets up to MaxReceived.
pub find_loop_terminates :
    (max offset : ℤ) (st : Assoc ℤ MsgState) (latest : ℤ)
    → max <ℤ max_int64
    → LoopRun max offset st latest (scan (rounds offset max) offset st latest)
      × ((r : Assoc ℤ MsgState × ℤ)
          → LoopRun max offset st latest r
          → r ≡ scan (rounds offset max) offset st latest)
find_loop_terminates max offset st latest m = (
  scan-LoopRun max (rounds offset max) offset st latest m refl,
  λ r run. LoopRun-scan max m run (rounds offset max) refl,
)
