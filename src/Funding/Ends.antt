-- ===== src/Funding/Ends.antt =====
-- src/services/investment.service.ts, `investInInvoice`: how many steps a call has left.
use ss_backend.Common.{
  ℕ, ◌+◌, ◌-◌, ◌*◌, ◌≤◌, ◌≡◌, refl, Bool, true, false, Option, none, some, List, [], ◌∷◌, arith,
  length, or_default, Result, ok, err, Bool-cases, inl, inr, leb,
}
use ss_backend.Models.{Db}
use ss_backend.Funding.Invest.{
  InvestConfig, InvestInput, InvestResult, check_amount, read_invoice, current_funding_window,
}
use ss_backend.Funding.Commit.{
  Answer, Phase, entered, reading, writing, done, failed, phase_of, enter, committed, invest_step,
}

-- The answers and the tables that a call meets at its steps, in turn: others may write between them.
pub invest_run : InvestConfig → InvestInput → List (Answer × Db) → Phase → Phase
invest_run config input [] phase = phase
invest_run config input ((a, db) ∷ rest) phase =
    invest_run config input rest (invest_step config input a phase db).0

abbrev pub is_over : Phase → Bool
is_over (done r) = true
is_over (failed e) = true
is_over _ = false

-- How many steps a call has still before it at most.
abbrev steps_left : Phase → ℕ
steps_left entered = 7
steps_left (reading amount block n) = 2 * (3 - n) + 2
steps_left (writing amount block n s) = 2 * (3 - n) + 1
steps_left (done r) = 0
steps_left (failed e) = 0

phase_of_left :
    {A : Type 0} (r : Result A) (next : A → Phase) (k : ℕ)
    → ((a : A) → steps_left (next a) ≤ k)
    → steps_left (phase_of r next) ≤ k
phase_of_left (err e) next k h = omega arith
phase_of_left (ok x) next k h = h x

committed_left :
    (amount block n : ℕ) (o : Option (Result (InvestResult × Db))) (db : Db)
    → steps_left (committed amount block n o db).0 ≤ 2 * (3 - n)
committed_left amount block n none db = elim (Bool-cases (leb 3 n)) [
  | inl y ↦ rw y (omega arith)
  | inr y ↦ rw y (ground arith)
]
committed_left amount block n (some (err e)) db = omega arith
committed_left amount block n (some (ok (r, db'))) db = omega arith

amount_left : (block amount : ℕ) → steps_left (reading amount block 1) ≤ 6
amount_left block amount = omega arith

step_left :
    (config : InvestConfig) (input : InvestInput) (a : Answer) (phase : Phase) (db : Db)
    → steps_left (invest_step config input a phase db).0 ≤ steps_left phase - 1
unfolding invest_step enter
step_left config input a entered db = phase_of_left _ _ 6 (λ _.
    phase_of_left (check_amount input.amount) _ 6
      (amount_left (or_default input.ledger_sequence (current_funding_window a.now))))
step_left config input a (reading amount block n) db =
    let h =
      phase_of_left (read_invoice a.now input amount block db) (writing amount block n)
        (2 * (3 - n) + 1) (λ s. omega arith) in
    omega (arith, h)
step_left config input a (writing amount block n s) db =
    omega (arith, committed_left amount block n _ db)
step_left config input a (done r) db = omega arith
step_left config input a (failed e) db = omega arith

over_of_left : (phase : Phase) → steps_left phase ≤ 0 → is_over phase ≡ true
over_of_left entered h = absurd (omega arith)
over_of_left (reading amount block n) h = absurd (omega arith)
over_of_left (writing amount block n s) h = absurd (omega arith)
over_of_left (done r) h = refl
over_of_left (failed e) h = refl

run_left :
    (config : InvestConfig) (input : InvestInput) (ms : List (Answer × Db)) (phase : Phase)
    → steps_left (invest_run config input ms phase) ≤ steps_left phase - length ms
unfolding invest_run
run_left config input [] phase = omega arith
run_left config input ((a, db) ∷ rest) phase = omega (
  arith,
  run_left config input rest (invest_step config input a phase db).0,
  step_left config input a phase db,
)

-- Whatever others write between its steps, a call of `investInInvoice` has its result or its error after
-- at most seven steps: one of checks, and two for each of three attempts.
pub invest_ends :
    (config : InvestConfig) (input : InvestInput) (ms : List (Answer × Db))
    → length ms ≡ 7
    → is_over (invest_run config input ms entered) ≡ true
invest_ends config input ms e = over_of_left _ (omega (arith, run_left config input ms entered))
