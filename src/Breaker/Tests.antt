-- ===== src/Breaker/Tests.antt =====
-- Concrete cases of the theorems about the circuit breaker.
use ss_backend.Common.{◌-◌, ◌<◌, ◌≡◌, ◌↔◌, false, List, [], ◌∷◌, ◌++◌, map, arith}
use ss_backend.Breaker.{BreakerOptions, opened, initial_state, admit}
use ss_backend.Breaker.Steps.{
  BreakerEvent, tested, returned, threw, after_events, IsConsistent, admit_iff,
  breaker-IsConsistent, breaker_trips,
}

abbrev options : BreakerOptions
options = record { failure_threshold = 3; success_threshold = 2; timeout = 30_000 }

-- Opened by three failures, tried again after the timeout, closed by two successes.
abbrev events : List BreakerEvent
events = threw 10 ∷ threw 20 ∷ threw 30 ∷ tested 40_000 ∷ returned ∷ tested 40_001 ∷ returned ∷ []

breaker-IsConsistent_example : IsConsistent options (after_events options events initial_state)
breaker-IsConsistent_example = breaker-IsConsistent options events (omega arith) (omega arith)

admit_iff_example :
    ((admit options 100 initial_state).0 ≡ false)
    ↔ ((initial_state.mode ≡ opened) × (100 - initial_state.last_failure < 30_000))
admit_iff_example = admit_iff options 100 initial_state

breaker_trips_example :
    (admit options 500
      (after_events options (map threw ((10 ∷ 20 ∷ []) ++ (30 ∷ []))) initial_state)).0
    ≡ false
breaker_trips_example =
    breaker_trips options (10 ∷ 20 ∷ []) 30 500 initial_state (omega arith) (omega arith)
