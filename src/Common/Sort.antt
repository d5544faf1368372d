-- ===== src/Common/Sort.antt =====
-- `Array.prototype.sort` by a comparison of keys, as the stable insertion sort.
use mathlib.Core.Path.{◌≡◌, refl}
use mathlib.Core.Bool.{Bool}
use mathlib.Core.List.{List, [], ◌∷◌}
use Prim.Native.Nat.{ℕ, ◌+◌}
use native.Mathlib.Omega.{arith}
use ss_backend.Common.Tests.{if◌then◌else◌}
use ss_backend.Common.Lists.{sum_by}

module _ {ℓ} {A : Type ℓ} (before : A → A → Bool) where
  abbrev pub insert_sorted : A → List A → List A
  insert_sorted x [] = x ∷ []
  insert_sorted x (y ∷ ys) = if before x y then x ∷ y ∷ ys else y ∷ insert_sorted x ys

  abbrev pub sort : List A → List A
  sort [] = []
  sort (x ∷ xs) = insert_sorted x (sort xs)

  sum_by-insert_sorted :
      (f : A → ℕ) (x : A) (ys : List A) → sum_by f (insert_sorted x ys) ≡ f x + sum_by f ys
  sum_by-insert_sorted f x [] = refl
  sum_by-insert_sorted f x (y ∷ ys) = ground (arith, sum_by-insert_sorted f x ys)

  -- Sorting keeps sums over the members.
  pub sum_by-sort : (f : A → ℕ) (xs : List A) → sum_by f (sort xs) ≡ sum_by f xs
  sum_by-sort f [] = refl
  sum_by-sort f (x ∷ xs) = omega (arith, sum_by-insert_sorted f x (sort xs), sum_by-sort f xs)
