-- ===== src/Breaker/Steps.antt =====
-- The circuit breaker over any interleaving of calls.
use ss_backend.Common.{
  ℕ, ◌+◌, ◌-◌, ◌≤◌, ◌<◌, leb, ◌≡◌, refl, ◌↔◌, ◌⊎◌, inl, inr, false, List, [], ◌∷◌, arith, length,
  Bool-cases, map, ◌++◌, length-append,
}
use ss_backend.Breaker.{
  BreakerOptions, BreakerMode, closed, opened, half_open, BreakerState, initial_state, admit_in,
  admit, succeed_in, on_success, on_failure,
}

-- A call is tested at a time, an operation returns, or one throws at a time.
pub data BreakerEvent : Type 0 where
  tested : ℕ → BreakerEvent
  returned : BreakerEvent
  threw : ℕ → BreakerEvent

pub after_event : BreakerOptions → BreakerEvent → BreakerState → BreakerState
after_event o (tested now) s = (admit o now s).1
after_event o returned s = on_success o s
after_event o (threw now) s = on_failure o now s

pub after_events : BreakerOptions → List BreakerEvent → BreakerState → BreakerState
after_events o [] s = s
after_events o (e ∷ es) s = after_events o es (after_event o e s)

-- Closed means few failures, and successes are counted below their threshold.
pub record IsConsistent (o : BreakerOptions) (s : BreakerState) : Type 0 where
  pub few_failures : s.mode ≡ closed → s.failures < o.failure_threshold
  pub few_successes : s.successes < o.success_threshold
  pub counted : s.mode ≡ closed → s.successes ≡ 0

-- A call is refused exactly while the breaker is open and its timeout has not passed since the last
-- failure.
pub admit_iff :
    (o : BreakerOptions) (now : ℕ) (s : BreakerState)
    → ((admit o now s).0 ≡ false) ↔ ((s.mode ≡ opened) × (now - s.last_failure < o.timeout))
unfolding admit admit_in
admit_iff o now s = go s.mode
  where
    go :
        (m : BreakerMode)
        → ((admit_in o now s m).0 ≡ false) ↔ ((m ≡ opened) × (now - s.last_failure < o.timeout))
    go closed = (λ e. cc, λ (e, _). cc)
    go half_open = (λ e. cc, λ (e, _). cc)
    go opened = (λ e. (refl, ground arith), λ (_, h). ground arith)

module _ (o : BreakerOptions) (f : 0 < o.failure_threshold) (t : 0 < o.success_threshold) where
  admit-IsConsistent :
      (now : ℕ) (s : BreakerState) (m : BreakerMode)
      → s.mode ≡ m
      → IsConsistent o s
      → IsConsistent o (admit_in o now s m).1
  unfolding admit_in
  admit-IsConsistent now s closed q h = h
  admit-IsConsistent now s half_open q h = h
  admit-IsConsistent now s opened q h = elim (Bool-cases (leb o.timeout (now - s.last_failure))) [
    | inl b ↦ rw b (record {
      few_failures = λ e. absurd (half_open_not_closed e);
      few_successes = h.few_successes;
      counted = λ e. absurd (half_open_not_closed e);
    })
    | inr b ↦ rw b h
  ]
    where
      half_open_not_closed : ¬ (half_open ≡ closed)
      half_open_not_closed e = cc

  succeed-IsConsistent :
      (s : BreakerState) (m : BreakerMode)
      → s.mode ≡ m
      → IsConsistent o s
      → IsConsistent o (succeed_in o s m)
  unfolding succeed_in
  succeed-IsConsistent s closed q h = record {
    few_failures = λ e. f;
    few_successes = h.few_successes;
    counted = h.counted;
  }
  succeed-IsConsistent s opened q h = record {
    few_failures = λ e. f;
    few_successes = h.few_successes;
    counted = h.counted;
  }
  succeed-IsConsistent s half_open q h =
      elim (Bool-cases (leb o.success_threshold (s.successes + 1))) [
        | inl b ↦ rw b (record { few_failures = λ e. f; few_successes = t; counted = λ e. refl })
        | inr b ↦ rw b (record {
          few_failures = λ e. f;
          few_successes = ground arith;
          counted = λ e. absurd (half_open_closed (rw q at e));
        })
      ]
    where
      half_open_closed : ¬ (half_open ≡ closed)
      half_open_closed e = cc

  fail-IsConsistent :
      (now : ℕ) (s : BreakerState) → IsConsistent o s → IsConsistent o (on_failure o now s)
  unfolding on_failure
  fail-IsConsistent now s h = elim (Bool-cases (leb o.failure_threshold (s.failures + 1))) [
    | inl b ↦ rw b (record {
      few_failures = λ e. absurd (open_not_closed e);
      few_successes = t;
      counted = λ e. refl;
    })
    | inr b ↦
        rw b (record { few_failures = λ e. ground arith; few_successes = t; counted = λ e. refl })
  ]
    where
      open_not_closed : ¬ (opened ≡ closed)
      open_not_closed e = cc

  event-IsConsistent :
      (e : BreakerEvent) (s : BreakerState) → IsConsistent o s → IsConsistent o (after_event o e s)
  unfolding after_event admit on_success
  event-IsConsistent (tested now) s h = admit-IsConsistent now s s.mode refl h
  event-IsConsistent returned s h = succeed-IsConsistent s s.mode refl h
  event-IsConsistent (threw now) s h = fail-IsConsistent now s h

  events-IsConsistent :
      (es : List BreakerEvent) (s : BreakerState)
      → IsConsistent o s
      → IsConsistent o (after_events o es s)
  unfolding after_events
  events-IsConsistent [] s h = h
  events-IsConsistent (e ∷ es) s h =
      events-IsConsistent es (after_event o e s) (event-IsConsistent e s h)

-- With thresholds above zero, a breaker that started closed has at every moment fewer failures than
-- the threshold while it is closed, has counted fewer successes than their threshold, and none while
-- it is closed.
pub breaker-IsConsistent :
    (o : BreakerOptions) (es : List BreakerEvent)
    → 0 < o.failure_threshold
    → 0 < o.success_threshold
    → IsConsistent o (after_events o es initial_state)
unfolding initial_state
breaker-IsConsistent o es f t =
    events-IsConsistent o f t es initial_state
      (record { few_failures = λ e. f; few_successes = t; counted = λ e. refl })

trip_lem :
    (o : BreakerOptions) (ts : List ℕ) (s : BreakerState)
    → (s.mode ≡ opened) ⊎ ((o.failure_threshold ≤ s.failures + length ts) × (0 < length ts))
    → (after_events o (map threw ts) s).mode ≡ opened
unfolding after_events after_event on_failure
trip_lem o [] s (inl h) = h
trip_lem o [] s (inr (_, h)) = absurd (omega arith)
trip_lem o (t ∷ ts) s h = elim (Bool-cases (leb o.failure_threshold (s.failures + 1))) [
  | inl b ↦ trip_lem o ts (on_failure o t s) (inl (rw b refl))
  | inr b ↦ trip_lem o ts (on_failure o t s) (still h b)
]
  where
    still :
        (s.mode ≡ opened)
          ⊎ ((o.failure_threshold ≤ s.failures + length (t ∷ ts)) × (0 < length (t ∷ ts)))
        → leb o.failure_threshold (s.failures + 1) ≡ false
        → ((on_failure o t s).mode ≡ opened)
          ⊎ ((o.failure_threshold ≤ (on_failure o t s).failures + length ts) × (0 < length ts))
    still (inl m) b = inl (rw b m)
    still (inr (m, _)) b = inr (omega arith, ground arith)

threw_last :
    (o : BreakerOptions) (ts : List ℕ) (t : ℕ) (s : BreakerState)
    → after_events o (map threw (ts ++ (t ∷ []))) s
      ≡ on_failure o t (after_events o (map threw ts) s)
unfolding after_events after_event
threw_last o [] t s = refl
threw_last o (x ∷ xs) t s = threw_last o xs t (on_failure o x s)

failed_at : (o : BreakerOptions) (t : ℕ) (s : BreakerState) → (on_failure o t s).last_failure ≡ t
unfolding on_failure
failed_at o t s = refl

-- As many failures in a row as the threshold open the breaker, whatever its state was: then every call
-- is refused until the timeout has passed since the last of them.
pub breaker_trips :
    (o : BreakerOptions) (ts : List ℕ) (t now : ℕ) (s : BreakerState)
    → o.failure_threshold ≤ length (ts ++ (t ∷ []))
    → now - t < o.timeout
    → (admit o now (after_events o (map threw (ts ++ (t ∷ []))) s)).0 ≡ false
breaker_trips o ts t now s h w =
    let more : 0 < length (ts ++ (t ∷ [])) = rw length-append (omega arith) in
    let at_t : (after_events o (map threw (ts ++ (t ∷ []))) s).last_failure ≡ t =
      rw (threw_last o ts t s) (failed_at o t _) in
    (admit_iff o now (after_events o (map threw (ts ++ (t ∷ []))) s)).1
      (trip_lem o (ts ++ (t ∷ [])) s (inr (omega (arith, h), more)), rw at_t w)
