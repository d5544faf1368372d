-- ===== src/Funding/Pot.antt =====
-- What funding promises, told without rows, locks or versions: a pot with a capacity takes
-- contributions while it is open, and shuts when it is full.
use ss_backend.Common.{ℕ, ◌+◌, ◌<◌, ◌≤◌, ltb, ◌≡◌, refl, ◌∙◌, Bool, true, false, arith}

pub record Pot : Type 0 where
  pub capacity : ℕ
  pub taken : ℕ
  pub is_open : Bool

abbrev pub contributed : ℕ → Pot → Pot
contributed a p = record p { taken = p.taken + a; is_open = ltb (p.taken + a) p.capacity }

-- A contribution, an opening, a shutting, or nothing.
pub data PotStep (p p' : Pot) : Type 0 where
  contribute :
      (a : ℕ)
      → 0 < a
      → p.is_open ≡ true
      → p.taken + a ≤ p.capacity
      → p' ≡ contributed a p
      → PotStep p p'
  unlock : p.taken < p.capacity → p' ≡ record p { is_open = true } → PotStep p p'
  shut : p' ≡ record p { is_open = false } → PotStep p p'
  rest : p' ≡ p → PotStep p p'

pub data PotSteps (p : Pot) : Pot → Type 0 where
  here : PotSteps p p
  then : {q r : Pot} → PotSteps p q → PotStep q r → PotSteps p r

-- A pot is never over its capacity, and has room while it is open.
pub record IsSafe (p : Pot) : Type 0 where
  pub within : p.taken ≤ p.capacity
  pub room : p.is_open ≡ true → p.taken < p.capacity

PotStep-IsSafe : (p p' : Pot) → PotStep p p' → IsSafe p → IsSafe p'
PotStep-IsSafe p p' (contribute a pos o fits e) s =
    rw e (record { within = fits; room = λ q. ground arith })
PotStep-IsSafe p p' (unlock lt e) s = rw e (record { within = omega arith; room = λ q. lt })
PotStep-IsSafe p p' (shut e) s = rw e (record { within = s.within; room = λ q. cc })
PotStep-IsSafe p p' (rest e) s = rw e s

pub PotSteps-IsSafe : {p p' : Pot} → PotSteps p p' → IsSafe p → IsSafe p'
PotSteps-IsSafe here s = s
PotSteps-IsSafe (then ts t) s = PotStep-IsSafe _ _ t (PotSteps-IsSafe ts s)

-- The capacity stays, and what is taken only grows.
pub record Grows (p p' : Pot) : Type 0 where
  pub same_capacity : p'.capacity ≡ p.capacity
  pub more : p.taken ≤ p'.taken

PotStep-Grows : (p p' : Pot) → PotStep p p' → Grows p p'
PotStep-Grows p p' (contribute a pos o fits e) =
    rw e (record { same_capacity = refl; more = omega arith })
PotStep-Grows p p' (unlock lt e) = rw e (record { same_capacity = refl; more = omega arith })
PotStep-Grows p p' (shut e) = rw e (record { same_capacity = refl; more = omega arith })
PotStep-Grows p p' (rest e) = rw e (record { same_capacity = refl; more = omega arith })

pub PotSteps-Grows : {p p' : Pot} → PotSteps p p' → Grows p p'
PotSteps-Grows here = record { same_capacity = refl; more = omega arith }
PotSteps-Grows (then ts t) =
    let before = PotSteps-Grows ts in
    let after = PotStep-Grows _ _ t in
    record {
      same_capacity = after.same_capacity ∙ before.same_capacity;
      more = omega (arith, before.more, after.more);
    }
