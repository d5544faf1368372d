-- ===== src/Common/Checks.antt =====
-- Read-only code that may throw: `do` blocks over `Result`.
use mathlib.Core.Path.{◌≡◌, refl}
use mathlib.Core.Bool.{Bool, true, false}
use mathlib.Core.Option.{Option, none, some}
use ss_backend.Common.Results.{ServiceError, Result, ok, err}

module _ {ℓ κ} {A : Type ℓ} {B : Type κ} where
  infixl 5 ◌>>=◌
  -- An error ends the code; else the rest goes on with what was returned.
  abbrev pub ◌>>=◌ : Result A → (A → Result B) → Result B
  err e >>= rest = err e
  ok x >>= rest = rest x

  -- Where a chain returned, so did its first part.
  pub >>=-eq-ok :
      (m : Result A) (rest : A → Result B) {y : B}
      → (m >>= rest) ≡ ok y
      → (x : A) × (m ≡ ok x) × (rest x ≡ ok y)
  >>=-eq-ok (err e) rest h = cc
  >>=-eq-ok (ok x) rest h = (x, refl, h)

module _ {ℓ} {A : Type ℓ} where
  infixl 5 ◌>>◌
  abbrev pub ◌>>◌ : Result (Unit {0}) → Result A → Result A
  m >> rest = m >>= λ _. rest

  -- `if (!row) throw error`
  abbrev pub or_throw : Option A → ServiceError → Result A
  or_throw (some x) e = ok x
  or_throw none e = err e

-- `if (test) throw error`
abbrev pub throw_if : Bool → ServiceError → Result (Unit {0})
throw_if true e = err e
throw_if false e = ok tt
