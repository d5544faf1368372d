-- ===== src/Settlement/Returns/Solvency.antt =====
-- `calculateInvestorReturns` hands out the proceeds: nothing is created and only dust is left.
use native.Mathlib.Nat.{mul-le-mul_left, div-le_of_le-mul}
use ss_backend.Common.{
  ℤ, ◌⊎◌, inl, inr, ◌↔◌, leb, Bool-cases, ServiceError, ℕ, zero, suc, ◌+◌, ◌-◌, ◌≤◌, ◌<◌, pos,
  negsuc, sub_ℕ, ◌≡◌, refl, ap, List, [], ◌∷◌, map, arith, length, ok, err, service_error,
  range_error, invalid_proceeds, invalid_funded_amount,
}
use ss_backend.Settlement.Returns.{
  Holding, total_funded, total_returned, fee_of, InvestorReturns, calculate_investor_returns,
  compute_shares, compute_investor_return,
}
use ss_backend.Settlement.Returns.Shares.{share_of, compute_shares_lem, returned_bounds}

-- Up to 100% the fee is at most the proceeds.
pub fee-le : (p fee_bps : ℕ) → fee_bps ≤ 10_000 → fee_of p fee_bps ≤ p
fee-le p b h = div-le_of_le-mul 10_000 (omega (arith, mul-le-mul_left p h))

pub sub_ℕ_of_le : (a b : ℕ) → b ≤ a → sub_ℕ a b ≡ pos (a - b)
sub_ℕ_of_le a b h = ground arith

-- How the proceeds are divided: the fee first, then to each holding its proportion rounded down,
-- and less than one unit for each holding is left.
pub record Divides (hs : List Holding) (p fee_bps : ℕ) (r : InvestorReturns) : Type 0 where
  pub paid_out : ℕ
  pub dust : ℕ
  pub is_distributable : r.distributable ≡ pos paid_out
  pub is_remainder : r.remainder ≡ pos dust
  pub fee_first : r.fee ≡ fee_of p fee_bps
  pub conserved : r.fee + (r.total_distributed + dust) ≡ p
  pub little_dust : dust < length hs
  pub in_proportion : r.returns ≡ map (share_of (total_funded hs - 1) paid_out) hs
  pub adds_up : r.total_distributed ≡ total_returned r.returns

module _ (hs : List Holding) (p fee_bps t : ℕ) (funded : total_funded hs ≡ suc t)
    (affordable : fee_of (suc p) fee_bps ≤ suc p) where
  abbrev left : ℕ
  left = suc p - fee_of (suc p) fee_bps

  abbrev divided : InvestorReturns
  divided = record {
    funded = suc t;
    distributable = pos left;
    fee = fee_of (suc p) fee_bps;
    total_distributed = total_returned (map (share_of t left) hs);
    remainder = pos (left - total_returned (map (share_of t left) hs));
    returns = map (share_of t left) hs;
  }

  calculate-eq-divided : calculate_investor_returns hs (pos (suc p)) fee_bps ≡ ok divided
  unfolding calculate_investor_returns
  calculate-eq-divided =
      rw
        (
          funded,
          sub_ℕ_of_le (suc p) (fee_of (suc p) fee_bps) affordable,
          compute_shares_lem t left hs,
          sub_ℕ_of_le left (total_returned (map (share_of t left) hs))
              (returned_bounds t left hs funded).0,
        )
        (ground arith)

  divided-Divides : Divides hs (suc p) fee_bps divided
  divided-Divides = record {
    paid_out = left;
    dust = left - total_returned (map (share_of t left) hs);
    is_distributable = refl;
    is_remainder = refl;
    fee_first = refl;
    conserved = omega (arith, affordable, returned_bounds t left hs funded);
    little_dust = omega (arith, returned_bounds t left hs funded);
    in_proportion =
        let same : t ≡ total_funded hs - 1 = omega (arith, funded) in
        ap (λ (k : ℕ). map (share_of k left) hs) same;
    adds_up = refl;
  }

-- For positive proceeds, a positive funded total and a fee of at most 100%, the returns are
-- computed without an error, and they divide the proceeds as `Divides` says.
pub calculate-Divides :
    (hs : List Holding) (p fee_bps : ℕ)
    → 0 < p
    → 0 < total_funded hs
    → fee_bps ≤ 10_000
    → (r : InvestorReturns) × (calculate_investor_returns hs (pos p) fee_bps ≡ ok r)
      × Divides hs p fee_bps r
calculate-Divides hs zero fee_bps hp ht hf = elim hp [ ]
calculate-Divides hs (suc p) fee_bps hp ht hf =
    let e : total_funded hs ≡ suc (total_funded hs - 1) = omega arith in
    let fits = fee-le (suc p) fee_bps hf in
    (
      divided hs p fee_bps (total_funded hs - 1) e fits,
      calculate-eq-divided hs p fee_bps (total_funded hs - 1) e fits,
      divided-Divides hs p fee_bps (total_funded hs - 1) e fits,
    )

compute_shares_bankrupt :
    (total n : ℕ) (hs : List Holding)
    → 0 < total_funded hs
    → compute_shares total (negsuc n) hs ≡ err (service_error range_error 500)
unfolding compute_shares compute_investor_return
compute_shares_bankrupt total n [] h = absurd (omega arith)
compute_shares_bankrupt zero n (x ∷ hs) h = refl
compute_shares_bankrupt (suc t) n (x ∷ hs) h = refl

at_most_or_more : (a b : ℕ) → (a ≤ b) ⊎ (b < a)
at_most_or_more a b = elim (Bool-cases (leb a b)) [
  | inl y ↦ inl (ground arith)
  | inr n ↦ inr (ground arith)
]

unfunded :
    (hs : List Holding) (p fee_bps : ℕ)
    → total_funded hs ≡ 0
    → calculate_investor_returns hs (pos (suc p)) fee_bps
      ≡ err (service_error invalid_funded_amount 400)
unfolding calculate_investor_returns
unfunded hs p fee_bps e = rw e

bankrupt :
    (hs : List Holding) (p fee_bps : ℕ)
    → 0 < total_funded hs
    → suc p < fee_of (suc p) fee_bps
    → calculate_investor_returns hs (pos (suc p)) fee_bps ≡ err (service_error range_error 500)
unfolding calculate_investor_returns
bankrupt hs p fee_bps f g =
    let e : total_funded hs ≡ suc (total_funded hs - 1) = omega arith in
    let q : sub_ℕ (suc p) (fee_of (suc p) fee_bps) ≡ negsuc (fee_of (suc p) fee_bps - suc p - 1) =
      ground arith in
    rw (q, compute_shares_bankrupt (total_funded hs) _ hs f, e) (ground arith)

-- What fails, and with what.
pub data Fails (hs : List Holding) (fee_bps : ℕ) : ℤ → ServiceError → Type 0 where
  negative : (p : ℕ) → Fails hs fee_bps (negsuc p) (service_error invalid_proceeds 400)
  nothing : Fails hs fee_bps (pos 0) (service_error invalid_proceeds 400)
  none_funded :
      (p : ℕ)
      → 0 < p
      → total_funded hs ≡ 0
      → Fails hs fee_bps (pos p) (service_error invalid_funded_amount 400)
  fee_over :
      (p : ℕ)
      → 0 < p
      → 0 < total_funded hs
      → p < fee_of p fee_bps
      → 10_000 < fee_bps
      → Fails hs fee_bps (pos p) (service_error range_error 500)

Fails-sound :
    (hs : List Holding) (z : ℤ) (fee_bps : ℕ) (e : ServiceError)
    → calculate_investor_returns hs z fee_bps ≡ err e
    → Fails hs fee_bps z e
unfolding calculate_investor_returns
Fails-sound hs (negsuc p) fee_bps e q =
    let same : service_error invalid_proceeds 400 ≡ e = cc in rw (← same) (negative p)
Fails-sound hs (pos zero) fee_bps e q =
    let same : service_error invalid_proceeds 400 ≡ e = cc in rw (← same) nothing
Fails-sound hs (pos (suc p)) fee_bps e q = elim (at_most_or_more (total_funded hs) 0) [
  | inl z ↦
      let gone : total_funded hs ≡ 0 = omega arith in
      let same : service_error invalid_funded_amount 400 ≡ e = cc (unfunded hs p fee_bps gone, q) in
      rw (← same) (none_funded (suc p) (omega arith) gone)
  | inr f ↦ elim (at_most_or_more (fee_of (suc p) fee_bps) (suc p)) [
    | inl fits ↦
        let t : total_funded hs ≡ suc (total_funded hs - 1) = omega arith in
        absurd (cc (calculate-eq-divided hs p fee_bps (total_funded hs - 1) t fits, q))
    | inr over ↦
        let same : service_error range_error 500 ≡ e = cc (bankrupt hs p fee_bps f over, q) in
        rw (← same) (
          fee_over (suc p) (omega arith) f over (elim (at_most_or_more fee_bps 10_000) [
            | inr lt ↦ lt
            | inl le ↦ absurd (omega (arith, fee-le (suc p) fee_bps le))
          ]))
  ]
]

Fails-complete :
    (hs : List Holding) (z : ℤ) (fee_bps : ℕ) (e : ServiceError)
    → Fails hs fee_bps z e
    → calculate_investor_returns hs z fee_bps ≡ err e
unfolding calculate_investor_returns
Fails-complete hs z fee_bps e (negative p) = refl
Fails-complete hs z fee_bps e nothing = refl
Fails-complete hs z fee_bps e (none_funded (suc p) h f) = unfunded hs p fee_bps f
Fails-complete hs z fee_bps e (none_funded zero h f) = elim h [ ]
Fails-complete hs z fee_bps e (fee_over (suc p) h f over _) = bankrupt hs p fee_bps f over
Fails-complete hs z fee_bps e (fee_over zero h f over _) = elim h [ ]

-- The computation fails exactly in these cases, and with these errors: the proceeds are not positive; or
-- they are and nothing is funded; or they are, something is, and the fee is above the proceeds, which
-- takes more than 10000 basis points.
pub calculate_errors :
    (hs : List Holding) (z : ℤ) (fee_bps : ℕ) (e : ServiceError)
    → (calculate_investor_returns hs z fee_bps ≡ err e) ↔ Fails hs fee_bps z e
calculate_errors hs z fee_bps e = (Fails-sound hs z fee_bps e, Fails-complete hs z fee_bps e)
