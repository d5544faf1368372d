-- ===== src/Funding/Dashboard.antt =====
-- src/services/investment.service.ts, `getInvestorDashboard`.
use ss_backend.Common.{
  ℕ, ◌+◌, String, ◌≡◌, Bool, true, false, Option, none, some, List, [], ◌∷◌, arith, str_eq, filter,
  sum_by, count, length, if◌then◌else◌,
}
use ss_backend.Models.{Investment, InvestmentStatus, Db}
use ss_backend.Funding.Create.{is_counted}

pub record InvestorDashboard : Type 0 where
  pub total_invested : ℕ
  pub total_returns : ℕ
  pub active_count : ℕ
  pub active_total : ℕ
  pub settled_count : ℕ
  pub failed_count : ℕ

abbrev pub is_settled : InvestmentStatus → Bool
is_settled InvestmentStatus.settled = true
is_settled _ = false

abbrev pub is_failed : InvestmentStatus → Bool
is_failed InvestmentStatus.cancelled = true
is_failed _ = false

abbrev pub realised : Option ℕ → ℕ
realised none = 0
realised (some n) = n

-- The variables of the loop after one more investment.
abbrev tallied : Investment → InvestorDashboard → InvestorDashboard
tallied v d = record {
  total_invested = d.total_invested + v.investment_amount;
  total_returns =
      if is_settled v.status then d.total_returns + realised v.actual_return else d.total_returns;
  active_count = if is_counted v.status then d.active_count + 1 else d.active_count;
  active_total =
      if is_counted v.status then d.active_total + v.investment_amount else d.active_total;
  settled_count = if is_settled v.status then d.settled_count + 1 else d.settled_count;
  failed_count = if is_failed v.status then d.failed_count + 1 else d.failed_count;
}

unfoldable pub tally : List Investment → InvestorDashboard → InvestorDashboard
tally [] d = d
tally (v ∷ vs) d = tally vs (tallied v d)

abbrev pub empty_dashboard : InvestorDashboard
empty_dashboard = record {
  total_invested = 0;
  total_returns = 0;
  active_count = 0;
  active_total = 0;
  settled_count = 0;
  failed_count = 0;
}

-- `getInvestorDashboard`. The source gives the active count and the returns under two names each.
unfoldable pub get_investor_dashboard : String → Db → InvestorDashboard
unfolding tally
get_investor_dashboard investor_id db =
    tally (filter (λ v. str_eq v.investor_id investor_id) db.investments) empty_dashboard

abbrev pub amount_of : Investment → ℕ
amount_of v = v.investment_amount

-- What the figures are of a list of investments, each told on its own.
pub record Figures (vs : List Investment) (base d : InvestorDashboard) : Type 0 where
  pub invested : d.total_invested ≡ base.total_invested + sum_by amount_of vs
  pub returns :
      d.total_returns
      ≡ base.total_returns
        + sum_by (λ v. realised v.actual_return) (filter (λ v. is_settled v.status) vs)
  pub actives : d.active_count ≡ base.active_count + count (λ v. is_counted v.status) vs
  pub active_sum :
      d.active_total ≡ base.active_total + sum_by amount_of (filter (λ v. is_counted v.status) vs)
  pub settleds : d.settled_count ≡ base.settled_count + count (λ v. is_settled v.status) vs
  pub faileds : d.failed_count ≡ base.failed_count + count (λ v. is_failed v.status) vs
  pub all :
      d.active_count + d.settled_count + d.failed_count
      ≡ base.active_count + base.settled_count + base.failed_count + length vs

one_more :
    (s : InvestmentStatus) (a b c : ℕ)
    → (if is_counted s then a + 1 else a)
        + (if is_settled s then b + 1 else b)
        + (if is_failed s then c + 1 else c)
      ≡ a + b + c + 1
one_more InvestmentStatus.pending a b c = omega arith
one_more InvestmentStatus.confirmed a b c = omega arith
one_more InvestmentStatus.settled a b c = omega arith
one_more InvestmentStatus.cancelled a b c = omega arith

tally-Figures : (vs : List Investment) (d : InvestorDashboard) → Figures vs d (tally vs d)
unfolding tally
tally-Figures [] d = record {
  invested = omega arith;
  returns = omega arith;
  actives = omega arith;
  active_sum = omega arith;
  settleds = omega arith;
  faileds = omega arith;
  all = omega arith;
}
tally-Figures (v ∷ vs) d =
    let rest = tally-Figures vs (tallied v d) in
    record {
      invested = ground (arith, rest.invested);
      returns = ground (arith, rest.returns);
      actives = ground (arith, rest.actives);
      active_sum = ground (arith, rest.active_sum);
      settleds = ground (arith, rest.settleds);
      faileds = ground (arith, rest.faileds);
      all =
          omega (arith, rest.all, one_more v.status d.active_count d.settled_count d.failed_count);
    }

-- The dashboard counts and sums the investments of this investor alone: all that was invested, the
-- actual returns of the settled ones, the number and the sum of those pending or confirmed, and the
-- numbers of those settled and cancelled; each investment is in exactly one of the three counts.
pub get_investor_dashboard_lem :
    (investor_id : String) (db : Db)
    → Figures
        (filter (λ v. str_eq v.investor_id investor_id) db.investments)
        empty_dashboard
        (get_investor_dashboard investor_id db)
unfolding get_investor_dashboard
get_investor_dashboard_lem investor_id db = tally-Figures _ empty_dashboard
