-- ===== src/Funding/Invest.antt =====
-- src/services/investment.service.ts, `investInInvoice`: up to three attempts, each of which reads
-- the invoice and then advances its funded amount by an update on condition that the row is as it was
-- read. From that update on, which locks the row, the transaction is one step. The decimal division
-- behind an expected return is an argument; what follows the commit (notifications, dispatch, logs)
-- is left out.
use ss_backend.Common.{
  ℕ, suc, ◌+◌, ◌-◌, ◌/◌, ◌==◌, ltb, leb, ℤ, pos, String, Bool, false, not, ◌&&◌, Option, none, some,
  if◌then◌else◌, str_eq, opt_eq, any, find, Result, ok, err, service_error, invalid_amount,
  invoice_not_found, invoice_not_open_for_investment, invoice_expired, funding_deadline_passed,
  self_dealing, insufficient_capacity, duplicate_investment,
}
use ss_backend.Common.Checks.{◌>>=◌, ◌>>◌, throw_if, or_throw}
use ss_backend.Models.{InvoiceStatus, published, status_eq, Invoice, Investment, Db}
use ss_backend.Invoice.Machine.{Transition, save_row}
use ss_backend.Dates.{is_past_due_date}

-- The current version of the terms, and the expected return of an amount, a face value and a net
-- amount.
pub record InvestConfig : Type 0 where
  pub current_version : String
  pub expected_return : ℕ → ℕ → ℕ → ℕ

-- The amount is null when its text is no finite number or has more than four decimals.
pub record InvestInput : Type 0 where
  pub invoice_id : String
  pub investor_id : String
  pub wallet_address : String
  pub amount : Option ℤ
  pub ledger_sequence : Option ℕ

pub record InvestResult : Type 0 where
  pub investment : Investment
  pub invoice : Invoice
  pub funded_amount : ℕ
  pub funded_transition : Option Transition

pub record InvoiceFundingState : Type 0 where
  pub invoice_id : String
  pub status : InvoiceStatus
  pub target_amount : ℕ
  pub funded_amount : ℕ
  pub remaining_capacity : ℕ
  pub version : ℕ

abbrev pub funding_state : InvestInput → InvestResult → InvoiceFundingState
funding_state input r = record {
  invoice_id = input.invoice_id;
  status = r.invoice.status;
  target_amount = r.invoice.net_amount;
  funded_amount = r.funded_amount;
  remaining_capacity = r.invoice.net_amount - r.funded_amount;
  version = r.invoice.version;
}

abbrev funding_window_ms : ℕ
funding_window_ms = 5_000

-- `currentFundingWindow`
abbrev pub current_funding_window : ℕ → ℕ
current_funding_window now = now / funding_window_ms

abbrev pub max_attempts : ℕ
max_attempts = 3

unfoldable pub check_amount : Option ℤ → Result ℕ
check_amount (some (pos (suc n))) = ok (suc n)
check_amount _ = err (service_error invalid_amount 400)

abbrev pub row_of : String → Db → Option Invoice
row_of id db = find (λ r. str_eq r.id id) db.invoices

abbrev pub block_eq : Option ℕ → ℕ → Bool
block_eq none block = false
block_eq (some b) block = b == block

-- The unique index on invoice, wallet and block.
abbrev pub is_duplicate : String → String → ℕ → Investment → Bool
is_duplicate invoice_id wallet block v =
    str_eq v.invoice_id invoice_id
    && opt_eq v.investor_wallet (some wallet)
    && block_eq v.funding_block block

abbrev pub deadline_passed : Option ℕ → ℕ → Bool
deadline_passed none now = false
deadline_passed (some t) now = ltb t now

-- The checks of an attempt, before its update.
unfoldable pub read_invoice : ℕ → InvestInput → ℕ → ℕ → Db → Result Invoice
read_invoice now input amount block db = do
  invoice ← or_throw (row_of input.invoice_id db) (service_error invoice_not_found 404)
  throw_if (not (status_eq invoice.status published))
      (service_error invoice_not_open_for_investment 422)
  throw_if (is_past_due_date invoice.due_date now) (service_error invoice_expired 422)
  throw_if (deadline_passed invoice.funding_deadline now)
      (service_error funding_deadline_passed 422)
  throw_if (str_eq invoice.seller_id input.investor_id) (service_error self_dealing 403)
  throw_if (ltb (invoice.net_amount - invoice.funded_amount) amount)
      (service_error insufficient_capacity 422)
  throw_if (any (is_duplicate input.invoice_id input.wallet_address block) db.investments)
      (service_error duplicate_investment 409)
  ok invoice

-- The conditions of the update.
abbrev pub is_as_read : ℕ → ℕ → Invoice → Bool
is_as_read version amount row =
    row.version == version
    && status_eq row.status published
    && leb (row.funded_amount + amount) row.net_amount

abbrev pub advanced : ℕ → Invoice → Invoice
advanced amount row = record row {
  funded_amount = row.funded_amount + amount;
  version = row.version + 1;
}

unfoldable pub advance_row : ℕ → ℕ → Option Invoice → Db → Option Db
advance_row version amount none db = none
advance_row version amount (some row) db =
    if is_as_read version amount row then some (save_row (advanced amount row) db) else none

-- The update; null if it affects no row.
unfoldable pub advance_funded : String → ℕ → ℕ → Db → Option Db
unfolding advance_row
advance_funded id version amount db = advance_row version amount (row_of id db) db
