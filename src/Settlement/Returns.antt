-- ===== src/Settlement/Returns.antt =====
-- `computeInvestorReturn` (src/lib/investor-return.ts) and
-- `SettlementService.calculateInvestorReturns` (src/services/settlement.service.ts). The bigints
-- are counts of 0.0001 units, as the amounts of Models.antt are. Messages are left out.
pub mod Shares
pub mod Solvency
use ss_backend.Common.{
  ℕ, zero, suc, ◌+◌, ◌*◌, ◌/◌, ℤ, pos, negsuc, sub_ℕ, ◌==◌, ltb, String, List, [], ◌∷◌,
  if◌then◌else◌, sum_by, Result, ok, err, service_error, range_error, invalid_proceeds,
  invalid_funded_amount,
}

-- The three RangeErrors are one error here; they are no ServiceErrors, so the status is 500.
unfoldable pub compute_investor_return : ℤ → ℤ → ℤ → Result ℕ
compute_investor_return invested (negsuc t) proceeds = err (service_error range_error 500)
compute_investor_return invested (pos zero) proceeds = err (service_error range_error 500)
compute_investor_return (negsuc i) (pos (suc t)) proceeds = err (service_error range_error 500)
compute_investor_return (pos i) (pos (suc t)) (negsuc p) = err (service_error range_error 500)
compute_investor_return (pos i) (pos (suc t)) (pos p) = ok (i * p / suc t)

pub record Holding : Type 0 where
  pub id : String
  pub investor_id : String
  pub investment_amount : ℕ

pub record Share : Type 0 where
  pub investment_id : String
  pub investor_id : String
  pub investment_amount : ℕ
  pub return_amount : ℕ

abbrev pub add_share : Holding → Result ℕ → Result (List Share) → Result (List Share)
add_share h (err e) rest = err e
add_share h (ok r) (err e) = err e
add_share h (ok r) (ok shares) = ok (
    record {
      investment_id = h.id;
      investor_id = h.investor_id;
      investment_amount = h.investment_amount;
      return_amount = r;
    }
    ∷ shares)

-- The loop over the investments.
pub compute_shares : ℕ → ℤ → List Holding → Result (List Share)
compute_shares total distributable [] = ok []
compute_shares total distributable (h ∷ hs) =
    add_share h (compute_investor_return (pos h.investment_amount) (pos total) distributable)
      (compute_shares total distributable hs)

abbrev pub total_funded : List Holding → ℕ
total_funded = sum_by (λ h. h.investment_amount)

abbrev pub total_returned : List Share → ℕ
total_returned = sum_by (λ s. s.return_amount)

-- `(proceedsScaled * BigInt(feeBps)) / 10_000n`; it is 0 for 0 basis points.
abbrev pub fee_of : ℕ → ℕ → ℕ
fee_of proceeds fee_bps = proceeds * fee_bps / 10_000

pub record InvestorReturns : Type 0 where
  pub funded : ℕ
  pub distributable : ℤ
  pub fee : ℕ
  pub total_distributed : ℕ
  pub remainder : ℤ
  pub returns : List Share

abbrev pub minus : ℤ → ℕ → ℤ
minus (pos a) b = sub_ℕ a b
minus (negsuc a) b = negsuc (a + b)

abbrev summarise : ℕ → ℤ → ℕ → Result (List Share) → Result InvestorReturns
summarise funded distributable fee (err e) = err e
summarise funded distributable fee (ok shares) = ok (record {
  funded = funded;
  distributable = distributable;
  fee = fee;
  total_distributed = total_returned shares;
  remainder = minus distributable (total_returned shares);
  returns = shares;
})

pub calculate_investor_returns : List Holding → ℤ → ℕ → Result InvestorReturns
unfolding compute_investor_return compute_shares
calculate_investor_returns investments (negsuc p) fee_bps = err (service_error invalid_proceeds 400)
calculate_investor_returns investments (pos zero) fee_bps = err (service_error invalid_proceeds 400)
calculate_investor_returns investments (pos (suc p)) fee_bps =
    let total = total_funded investments in
    let fee = fee_of (suc p) fee_bps in
    let distributable = sub_ℕ (suc p) fee in
    if total == 0
    then err (service_error invalid_funded_amount 400)
    else summarise total distributable fee (compute_shares total distributable investments)
