-- ===== src/Common/Lists.antt =====
-- Lists as the source walks them: length, `find`, `filter`, sums, and the predicate on all members.
use Prim.Native.Nat.{ℕ, suc, ◌+◌}
use mathlib.Core.Path.{◌≡◌}
use mathlib.Core.Logic.{inl, inr}
use mathlib.Core.Bool.{Bool, true, false}
use mathlib.Core.Option.{Option, none, some}
use mathlib.Core.List.{List, [], ◌∷◌, ◌++◌}
use native.Mathlib.Omega.{arith}
use Prim.Native.String.{String}
use text.Mathlib.TextEquality.{eq_iff}
use ss_backend.Common.Tests.{str_eq, if◌then◌else◌, Bool-cases}

module _ {ℓ} {A : Type ℓ} where
  abbrev pub length : List A → ℕ
  length [] = 0
  length (_ ∷ xs) = suc (length xs)

  -- `Array.prototype.find`, and `findOne` over rows in their order.
  abbrev pub find : (A → Bool) → List A → Option A
  find p [] = none
  find p (x ∷ xs) = if p x then some x else find p xs

  -- `Array.prototype.filter`, and `find` over rows.
  abbrev pub filter : (A → Bool) → List A → List A
  filter p [] = []
  filter p (x ∷ xs) = let rest = filter p xs in if p x then x ∷ rest else rest

  -- `Array.prototype.some`
  abbrev pub any : (A → Bool) → List A → Bool
  any p [] = false
  any p (x ∷ xs) = if p x then true else any p xs

  -- The number of members that pass a test.
  abbrev pub count : (A → Bool) → List A → ℕ
  count p [] = 0
  count p (x ∷ xs) = (if p x then 1 else 0) + count p xs

  -- The first member that passes is replaced; if none does, the new one is appended.
  abbrev pub upsert : (A → Bool) → A → List A → List A
  upsert p v [] = v ∷ []
  upsert p v (x ∷ xs) = if p x then v ∷ xs else x ∷ upsert p v xs

  abbrev pub sum_by : (A → ℕ) → List A → ℕ
  sum_by f [] = 0
  sum_by f (x ∷ xs) = f x + sum_by f xs

  abbrev pub All {κ} : (A → Type κ) → List A → Type κ
  All P [] = Unit
  All P (x ∷ xs) = P x × All P xs

module _ {ℓ} {A : Type ℓ} where
  pub length-append : (xs ys : List A) → length (xs ++ ys) ≡ length xs + length ys
  length-append [] ys = omega arith
  length-append (x ∷ xs) ys = omega (arith, length-append xs ys)

  pub count-append : (p : A → Bool) (xs ys : List A) → count p (xs ++ ys) ≡ count p xs + count p ys
  count-append p [] ys = omega arith
  count-append p (x ∷ xs) ys = omega (arith, count-append p xs ys)

  pub sum_by-append : (f : A → ℕ) (xs ys : List A) → sum_by f (xs ++ ys) ≡ sum_by f xs + sum_by f ys
  sum_by-append f [] ys = omega arith
  sum_by-append f (x ∷ xs) ys = omega (arith, sum_by-append f xs ys)

  pub All-append {κ} : (P : A → Type κ) (xs ys : List A) → All P xs → All P ys → All P (xs ++ ys)
  All-append P [] ys hx hy = hy
  All-append P (x ∷ xs) ys hx hy = (hx.0, All-append P xs ys hx.1 hy)

  pub All-left {κ} : (P : A → Type κ) (xs ys : List A) → All P (xs ++ ys) → All P xs
  All-left P [] ys a = tt
  All-left P (x ∷ xs) ys a = (a.0, All-left P xs ys a.1)

  pub All-right {κ} : (P : A → Type κ) (xs ys : List A) → All P (xs ++ ys) → All P ys
  All-right P [] ys a = a
  All-right P (x ∷ xs) ys a = All-right P xs ys a.1

  -- What holds of all members holds of the one that `find` returns.
  pub find-All {κ} :
      (P : A → Type κ) (p : A → Bool) (xs : List A) (a : A) → All P xs → find p xs ≡ some a → P a
  find-All P p [] a h e = absurd (ground arith)
  find-All P p (x ∷ xs) a (hx, h) e = elim (Bool-cases (p x)) [
    | inl t ↦ let same : x ≡ a = ground arith in rw (← same) hx
    | inr t ↦ find-All P p xs a h (ground arith)
  ]

  pub upsert-All {κ} :
      (P : A → Type κ) (p : A → Bool) (v : A) (xs : List A) → All P xs → P v → All P (upsert p v xs)
  upsert-All P p v [] h hv = (hv, tt)
  upsert-All P p v (x ∷ xs) (hx, h) hv = elim (Bool-cases (p x)) [
    | inl t ↦ rw t (hv, h)
    | inr t ↦ rw t (hx, upsert-All P p v xs h hv)
  ]

  -- What `find` returns passes the test.
  pub find_sound : (p : A → Bool) (xs : List A) (a : A) → find p xs ≡ some a → p a ≡ true
  find_sound p [] a e = ground arith
  find_sound p (x ∷ xs) a e = ground (arith, find_sound p xs a)

  pub find-append :
      (p : A → Bool) (xs ys : List A) (a : A) → find p xs ≡ some a → find p (xs ++ ys) ≡ some a
  find-append p [] ys a e = ground arith
  find-append p (x ∷ xs) ys a e = ground (arith, find-append p xs ys a)

  -- Replacing the row that `find` returns moves a count by what the two rows count for.
  pub count-upsert :
      (q p : A → Bool) (v old : A) (xs : List A)
      → find p xs ≡ some old
      → count q (upsert p v xs) + count q (old ∷ []) ≡ count q xs + count q (v ∷ [])
  count-upsert q p v old [] e = ground arith
  count-upsert q p v old (x ∷ xs) e = ground (arith, count-upsert q p v old xs)

-- A saved row is found by its key.
pub find-upsert_self {ℓ} :
    {A : Type ℓ} (key : A → String) (v : A) (xs : List A)
    → find (λ x. str_eq (key x) (key v)) (upsert (λ x. str_eq (key x) (key v)) v xs) ≡ some v
find-upsert_self key v [] = ground (arith, eq_iff (key v) (key v))
find-upsert_self key v (x ∷ xs) = ground (arith, eq_iff (key v) (key v), find-upsert_self key v xs)

-- Saving a row over the one with its key leaves what another key finds.
pub find-upsert {ℓ} :
    {A : Type ℓ} (key : A → String) (v : A) (k : String) (xs : List A)
    → str_eq (key v) k ≡ false
    → find (λ x. str_eq (key x) k) (upsert (λ x. str_eq (key x) (key v)) v xs)
      ≡ find (λ x. str_eq (key x) k) xs
find-upsert key v k [] e = ground arith
find-upsert key v k (x ∷ xs) e = ground (arith, find-upsert key v k xs, eq_iff (key x) (key v))
