-- ===== src/Window/Retry.antt =====
-- src/lib/redis-sliding-window.ts: the seconds that a denied request is told to wait.
use ss_backend.Common.{
  ℕ, ◌+◌, ◌*◌, ◌≤◌, ◌<◌, ◌≡◌, refl, true, false, none, some, List, [], ◌∷◌, arith, leb, inl, inr,
  Bool-cases, Option-cases, length,
}
use ss_backend.Window.{pruned, oldest, retry_after, script, to_seconds, check_sliding_window}

module _ (w : ℕ) where
  length-pruned : (now : ℕ) (ss : List ℕ) → length (pruned w now ss) ≤ length ss
  length-pruned now [] = omega arith
  length-pruned now (s ∷ ss) = ground (arith, length-pruned now ss)

  oldest-none : (ss : List ℕ) → oldest ss ≡ none → length ss ≡ 0
  unfolding oldest
  oldest-none [] e = refl
  oldest-none (s ∷ ss) e = elim (Option-cases (oldest ss)) [
    | inl n ↦ absurd (ground arith)
    | inr (t, q) ↦ absurd (ground arith)
  ]

  -- Once the oldest score has left the window, fewer remain.
  pruned-below :
      (later s : ℕ) (ss : List ℕ)
      → oldest ss ≡ some s
      → s + w ≤ later
      → length (pruned w later ss) < length ss
  unfolding oldest
  pruned-below later s [] e h = absurd (ground arith)
  pruned-below later s (x ∷ xs) e h = elim (Option-cases (oldest xs)) [
    | inl n ↦ let same : x ≡ s = ground arith in ground (arith, length-pruned later xs)
    | inr (t, q) ↦ elim (Bool-cases (leb x t)) [
      | inl y ↦ let same : x ≡ s = ground arith in ground (arith, length-pruned later xs)
      | inr y ↦
          let same : t ≡ s = ground arith in ground (arith, pruned-below later t xs q (omega arith))
    ]
  ]

  to_seconds-le : (ms : ℕ) → ms ≤ 1_000 * to_seconds ms
  to_seconds-le ms = ground arith

  module _ (max now later : ℕ) (ss : List ℕ) (positive : 0 < max) (fits : length ss ≤ max)
      (denied : (check_sliding_window max (some (script w max now ss).0)).allowed ≡ false) where
    full : leb max (length (pruned w now ss)) ≡ true
    unfolding check_sliding_window script
    full = ground arith

    waited :
        now + 1_000 * (check_sliding_window max (some (script w max now ss).0)).retry_after_seconds
          ≤ later
        → now + retry_after w now (oldest (pruned w now ss)) ≤ later
    unfolding check_sliding_window script
    waited h =
        omega (arith, to_seconds-le (retry_after w now (oldest (pruned w now ss))), rw full at h)

    after_wait :
        now + retry_after w now (oldest (pruned w now ss)) ≤ later
        → leb max (length (pruned w later (pruned w now ss))) ≡ false
    after_wait h = elim (Option-cases (oldest (pruned w now ss))) [
      | inl n ↦ absurd (ground (arith, oldest-none (pruned w now ss) n, full))
      | inr (s, q) ↦ ground (
        arith,
        full,
        length-pruned now ss,
        pruned-below later s (pruned w now ss) q (omega (arith, rw q at h)),
      )
    ]

-- A request that is denied may be repeated after the number of seconds that the answer gives: it is let
-- through then, if no other request came between, the set held no more than the maximum, and the maximum is
-- not zero.
pub retry_admitted :
    (window_ms max now later : ℕ) (ss : List ℕ)
    → 0 < max
    → length ss ≤ max
    → (check_sliding_window max (some (script window_ms max now ss).0)).allowed ≡ false
    → now
        + 1_000
          * (check_sliding_window max (some (script window_ms max now ss).0)).retry_after_seconds
      ≤ later
    → (check_sliding_window max
        (some (script window_ms max later (script window_ms max now ss).1).0)).allowed
      ≡ true
unfolding check_sliding_window script
retry_admitted window_ms max now later ss positive fits denied h =
    let f = full window_ms max now later ss positive fits denied in
    rw f (
      rw
        (after_wait window_ms max now later ss positive fits denied
          (waited window_ms max now later ss positive fits denied h))
        refl)
