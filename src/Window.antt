-- ===== src/Window.antt =====
-- src/lib/redis-sliding-window.ts: the Lua script that Redis runs as one step, and `checkSlidingWindow`.
-- The sorted set of a key is the list of its scores, for members are drawn at random and unique. The
-- time to live of the key, two seconds past the window, is left out.
pub mod Admits
pub mod Retry
pub mod Tests
use ss_backend.Common.{
  ℕ, ◌+◌, ◌-◌, ◌*◌, ◌/◌, leb, Bool, true, false, not, Option, none, some, List, [], ◌∷◌, ◌++◌,
  if◌then◌else◌, filter, length,
}

-- `ZREMRANGEBYSCORE key -inf (now - windowMs)`
abbrev pub pruned : ℕ → ℕ → List ℕ → List ℕ
pruned window_ms now scores = filter (λ s. not (leb (s + window_ms) now)) scores

-- `ZRANGE key 0 0`: the lowest score.
unfoldable pub oldest : List ℕ → Option ℕ
oldest [] = none
oldest (s ∷ ss) = elim (oldest ss) [ none ↦ some s | some t ↦ some (if leb s t then s else t) ]

-- What the script answers.
pub record Reply : Type 0 where
  pub admitted : Bool
  pub current_count : ℕ
  pub retry_after_ms : ℕ

-- `windowMs - (now - oldestScore)`, or 0 where that is below.
abbrev pub retry_after : ℕ → ℕ → Option ℕ → ℕ
retry_after window_ms now none = window_ms
retry_after window_ms now (some s) = (s + window_ms) - now

-- `SLIDING_WINDOW_LUA_SCRIPT`
unfoldable pub script : ℕ → ℕ → ℕ → List ℕ → Reply × List ℕ
script window_ms max_requests now scores =
    let kept = pruned window_ms now scores in
    if leb max_requests (length kept)
    then (
      record {
        admitted = false;
        current_count = length kept;
        retry_after_ms = retry_after window_ms now (oldest kept);
      },
      kept,
    )
    else (
      record { admitted = true; current_count = length kept + 1; retry_after_ms = 0 },
      kept ++ (now ∷ []),
    )

pub record SlidingWindowResult : Type 0 where
  pub allowed : Bool
  pub current_count : ℕ
  pub remaining : ℕ
  pub retry_after_seconds : ℕ
  pub fallback : Bool

-- `Math.max(1, Math.ceil(ms / 1000))`
abbrev pub to_seconds : ℕ → ℕ
to_seconds ms = if leb 1 ((ms + 999) / 1_000) then (ms + 999) / 1_000 else 1

-- The answer of `checkSlidingWindow`; Redis may have failed.
unfoldable pub check_sliding_window : ℕ → Option Reply → SlidingWindowResult
check_sliding_window max_requests none = record {
  allowed = true;
  current_count = 0;
  remaining = max_requests;
  retry_after_seconds = 0;
  fallback = true;
}
check_sliding_window max_requests (some r) = record {
  allowed = r.admitted;
  current_count = r.current_count;
  remaining = if r.admitted then max_requests - r.current_count else 0;
  retry_after_seconds = if r.admitted then 0 else to_seconds r.retry_after_ms;
  fallback = false;
}
