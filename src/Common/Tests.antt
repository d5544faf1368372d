-- ===== src/Common/Tests.antt =====
-- Boolean tests on numbers and texts, and the conditional.
use Prim.Native.Nat.{ℕ, compare, Ordering}
use Prim.Native.String.{String}
use mathlib.Core.Path.{◌≡◌, refl}
use mathlib.Core.Logic.{◌⊎◌, inl, inr}
use mathlib.Core.Bool.{Bool, true, false, not}
use mathlib.Core.Option.{Option, none, some}
use text.Mathlib.Text.{◌==◌ as text_eq}

abbrev pub ltb : ℕ → ℕ → Bool
ltb a b = elim (compare a b) [ Ordering.lt ↦ true | _ ↦ false ]

abbrev pub leb : ℕ → ℕ → Bool
leb a b = elim (compare a b) [ Ordering.gt ↦ false | _ ↦ true ]

infix 50 ◌==◌
abbrev pub ◌==◌ : ℕ → ℕ → Bool
a == b = elim (compare a b) [ Ordering.eq ↦ true | _ ↦ false ]

-- `===` on two texts.
abbrev pub str_eq : String → String → Bool
str_eq a b = text_eq a b

infix 1 if◌then◌else◌
abbrev pub if◌then◌else◌ {ℓ} : {A : Type ℓ} → Bool → A → A → A
if true then x else _ = x
if false then _ else y = y

pub Bool-cases : (b : Bool) → (b ≡ true) ⊎ (b ≡ false)
Bool-cases true = inl refl
Bool-cases false = inr refl

pub Option-cases {ℓ} : {A : Type ℓ} (o : Option A) → (o ≡ none) ⊎ ((a : A) × (o ≡ some a))
Option-cases none = inl refl
Option-cases (some a) = inr (a, refl)

-- `o ?? d`
abbrev pub or_default {ℓ} : {A : Type ℓ} → Option A → A → A
or_default none d = d
or_default (some a) _ = a

-- `o ?? p` where both may be null.
abbrev pub or_else {ℓ} : {A : Type ℓ} → Option A → Option A → Option A
or_else none p = p
or_else (some a) _ = some a

abbrev pub is_some {ℓ} : {A : Type ℓ} → Option A → Bool
is_some none = false
is_some (some _) = true

-- A text or null tested as a condition: null and "" are false.
abbrev pub truthy : Option String → Bool
truthy none = false
truthy (some s) = not (text_eq s "")

-- `===` on two texts that may be null.
abbrev pub opt_eq : Option String → Option String → Bool
opt_eq none none = true
opt_eq (some a) (some b) = text_eq a b
opt_eq _ _ = false
