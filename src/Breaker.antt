-- ===== src/Breaker.antt =====
-- src/lib/circuit-breaker.ts: the class `CircuitBreaker`. `execute` waits for its operation, and other
-- calls may run meanwhile, so a call is two steps: `admit` before the operation, and `on_success` or
-- `on_failure` after it. The clock does not go back.
pub mod Steps
pub mod Tests
use ss_backend.Common.{ℕ, ◌+◌, ◌-◌, ◌≤◌, leb, Bool, true, false, List, [], ◌∷◌, if◌then◌else◌}

pub record BreakerOptions : Type 0 where
  pub failure_threshold : ℕ
  pub success_threshold : ℕ
  pub timeout : ℕ

pub data BreakerMode : Type 0 where
  closed opened half_open : BreakerMode

pub record BreakerState : Type 0 where
  pub failures : ℕ
  pub successes : ℕ
  pub last_failure : ℕ
  pub mode : BreakerMode

unfoldable pub initial_state : BreakerState
initial_state = record { failures = 0; successes = 0; last_failure = 0; mode = closed }

-- The test before the operation: whether it runs, and the state.
admit_in : BreakerOptions → ℕ → BreakerState → BreakerMode → Bool × BreakerState
admit_in o now s opened =
    if leb o.timeout (now - s.last_failure)
    then (true, record s { mode = half_open })
    else (false, s)
admit_in o now s closed = (true, s)
admit_in o now s half_open = (true, s)

unfoldable pub admit : BreakerOptions → ℕ → BreakerState → Bool × BreakerState
unfolding admit_in
admit o now s = admit_in o now s s.mode

succeed_in : BreakerOptions → BreakerState → BreakerMode → BreakerState
succeed_in o s half_open =
    if leb o.success_threshold (s.successes + 1)
    then record s { failures = 0; successes = 0; mode = closed }
    else record s { failures = 0; successes = s.successes + 1 }
succeed_in o s closed = record s { failures = 0 }
succeed_in o s opened = record s { failures = 0 }

-- `onSuccess`
unfoldable pub on_success : BreakerOptions → BreakerState → BreakerState
unfolding succeed_in
on_success o s = succeed_in o s s.mode

-- `onFailure`
unfoldable pub on_failure : BreakerOptions → ℕ → BreakerState → BreakerState
on_failure o now s = record {
  failures = s.failures + 1;
  successes = 0;
  last_failure = now;
  mode = if leb o.failure_threshold (s.failures + 1) then opened else s.mode;
}
