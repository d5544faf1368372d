-- ===== src/Funding/Create.antt =====
-- src/services/investment.service.ts, `createInvestment`. The invoice row is locked from its read
-- on, so the transaction is one step, and its retries are never taken. Amounts are given with at
-- most four decimals. What the investor's risk profile answers is an argument.
use ss_backend.Common.{
  ℕ, ◌+◌, ◌-◌, ltb, leb, ℤ, String, Bool, true, false, not, ◌&&◌, Option, none, some, List,
  if◌then◌else◌, str_eq, sum_by, filter, Result, ok, err, service_error, invoice_not_found,
  invalid_invoice_status, invoice_expired, funding_deadline_passed, self_dealing,
  insufficient_capacity, suitability_check_failed,
}
use ss_backend.Common.Checks.{◌>>=◌, ◌>>◌, throw_if, or_throw}
use ss_backend.Models.{published, funded, status_eq, Invoice, Investment, InvestmentStatus, Db}
use ss_backend.Invoice.Machine.{Transition, save_row}
use ss_backend.Dates.{is_past_due_date}
use ss_backend.Funding.Terms.{assert_acknowledged}
use ss_backend.Funding.Invest.{InvestConfig, row_of, deadline_passed, check_amount}
use ss_backend.Funding.Commit.{Answer, add_investment, to_funded}

pub record CreateInvestmentInput : Type 0 where
  pub invoice_id : String
  pub investor_id : String
  pub investment_amount : ℤ
  pub investor_wallet : String

abbrev pub is_counted : InvestmentStatus → Bool
is_counted InvestmentStatus.pending = true
is_counted InvestmentStatus.confirmed = true
is_counted _ = false

-- A pending or confirmed investment in an invoice.
abbrev pub is_active_in : String → Investment → Bool
is_active_in invoice_id v = str_eq v.invoice_id invoice_id && is_counted v.status

-- `totalInvested`
abbrev pub total_invested : String → List Investment → ℕ
total_invested invoice_id vs =
    sum_by (λ v. v.investment_amount) (filter (is_active_in invoice_id) vs)

-- The checks inside the transaction.
unfoldable pub check_commitment : ℕ → CreateInvestmentInput → ℕ → Db → Result Invoice
check_commitment now input amount db = do
  invoice ← or_throw (row_of input.invoice_id db) (service_error invoice_not_found 404)
  throw_if (status_eq invoice.status funded) (service_error insufficient_capacity 400)
  throw_if (not (status_eq invoice.status published)) (service_error invalid_invoice_status 400)
  throw_if (is_past_due_date invoice.due_date now) (service_error invoice_expired 422)
  throw_if (deadline_passed invoice.funding_deadline now)
      (service_error funding_deadline_passed 422)
  throw_if (str_eq invoice.seller_id input.investor_id) (service_error self_dealing 400)
  throw_if (ltb (invoice.net_amount - total_invested input.invoice_id db.investments) amount)
      (service_error insufficient_capacity 400)
  ok invoice

-- The profile's answer; null if there is no profile service, or no invoice, or the check threw.
abbrev pub is_unsuitable : Option Bool → Bool
is_unsuitable (some false) = true
is_unsuitable _ = false

-- All checks, in their order.
unfoldable pub check_create :
    InvestConfig → Option Bool → ℕ → CreateInvestmentInput → Db → Result (ℕ × Invoice)
check_create config suitable now input db = do
  assert_acknowledged config.current_version input.investor_wallet db
  throw_if (is_unsuitable suitable) (service_error suitability_check_failed 403)
  amount ← check_amount (some input.investment_amount)
  invoice ← check_commitment now input amount db
  ok (amount, invoice)

abbrev pub commitment_of : InvestConfig → String → CreateInvestmentInput → ℕ → Invoice → Investment
commitment_of config id input amount invoice = record {
  id = id;
  invoice_id = input.invoice_id;
  investor_id = input.investor_id;
  investor_wallet = some input.investor_wallet;
  funding_block = none;
  investment_amount = amount;
  expected_return = config.expected_return amount invoice.amount invoice.net_amount;
  actual_return = none;
  status = InvestmentStatus.pending;
}

abbrev pub after_transition : Investment → Result (Transition × Db) → Result (Investment × Db)
after_transition v (err e) = err e
after_transition v (ok (t, db)) = ok (v, db)

-- The writes: the investment, and the invoice with its total, funded if that is all.
unfoldable pub write_commitment :
    ℕ → String → Investment → Invoice → ℕ → Db → Result (Investment × Db)
write_commitment now wallet v invoice total db =
    let held = record invoice { funded_amount = total } in
    if leb invoice.net_amount total
    then after_transition v (to_funded now wallet held (add_investment v db))
    else ok (v, save_row (record held { version = invoice.version + 1 }) (add_investment v db))

unfoldable pub written :
    InvestConfig
    → Answer
    → CreateInvestmentInput
    → Db
    → Result (ℕ × Invoice)
    → Result (Investment × Db)
unfolding write_commitment
written config a input db (err e) = err e
written config a input db (ok (amount, invoice)) =
    write_commitment a.now input.investor_wallet
      (commitment_of config a.investment_id input amount invoice) invoice
      (total_invested input.invoice_id db.investments + amount) db

-- `InvestmentService.createInvestment`
unfoldable pub create_investment :
    InvestConfig → Option Bool → Answer → CreateInvestmentInput → Db → Result (Investment × Db)
unfolding written
create_investment config suitable a input db =
    written config a input db (check_create config suitable a.now input db)
