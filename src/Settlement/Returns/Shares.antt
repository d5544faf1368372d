-- ===== src/Settlement/Returns/Shares.antt =====
-- Floor division in proportion: what the shares add up to.
use native.Mathlib.Nat.{le_of_mul-le-mul_left, lt_of_mul-lt-mul_left}
use ss_backend.Common.{
  ℕ, suc, ◌+◌, ◌*◌, ◌/◌, ◌≤◌, ◌<◌, pos, ◌≡◌, refl, ap, List, [], ◌∷◌, map, arith, length, ok,
}
use ss_backend.Settlement.Returns.{
  compute_investor_return, Holding, Share, compute_shares, total_funded, total_returned,
}

div_bounds : (a t : ℕ) → (a / suc t * suc t ≤ a) × (a ≤ a / suc t * suc t + t)
div_bounds a t = (omega arith, omega arith)

-- The share of a holding when `suc t` was funded and `d` is distributed.
abbrev pub share_of : ℕ → ℕ → Holding → Share
share_of t d h = record {
  investment_id = h.id;
  investor_id = h.investor_id;
  investment_amount = h.investment_amount;
  return_amount = h.investment_amount * d / suc t;
}

pub compute_shares_lem :
    (t d : ℕ) (hs : List Holding) → compute_shares (suc t) (pos d) hs ≡ ok (map (share_of t d) hs)
unfolding compute_shares compute_investor_return
compute_shares_lem t d [] = refl
compute_shares_lem t d (h ∷ hs) = rw (compute_shares_lem t d hs)

returned_upper :
    (t d : ℕ) (hs : List Holding)
    → total_returned (map (share_of t d) hs) * suc t ≤ total_funded hs * d
returned_upper t d [] = omega arith
returned_upper t d (h ∷ hs) =
    omega (arith, div_bounds (h.investment_amount * d) t, returned_upper t d hs)

returned_lower :
    (t d : ℕ) (hs : List Holding)
    → total_funded hs * d ≤ total_returned (map (share_of t d) hs) * suc t + length hs * t
returned_lower t d [] = omega arith
returned_lower t d (h ∷ hs) =
    omega (arith, div_bounds (h.investment_amount * d) t, returned_lower t d hs)

-- All that is returned is at most what is distributed, and misses it by less than one unit for
-- each holding.
pub returned_bounds :
    (t d : ℕ) (hs : List Holding)
    → total_funded hs ≡ suc t
    → (total_returned (map (share_of t d) hs) ≤ d)
      × (d < total_returned (map (share_of t d) hs) + length hs)
returned_bounds t d [] e = absurd (omega arith)
returned_bounds t d (h ∷ hs) e =
    let all : List Holding = h ∷ hs in
    let funded : total_funded all * d ≡ suc t * d = ap (λ (s : ℕ). s * d) e in
    (
      le_of_mul-le-mul_left {k = suc t} (omega (arith, returned_upper t d all, funded))
          (omega arith),
      lt_of_mul-lt-mul_left (suc t) (omega (arith, returned_lower t d all, funded)),
    )
