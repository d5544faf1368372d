-- ===== src/Funding/Commit.antt =====
-- src/services/investment.service.ts, `investInInvoice`: the part of an attempt that is one step, and
-- the attempts as phases between which other calls may run.
use ss_backend.Common.{
  ℕ, suc, leb, String, Bool, Option, none, some, [], ◌∷◌, ◌++◌, if◌then◌else◌, any, Result, ok, err,
  ServiceError, service_error, Body, pure, ◌>>=◌, duplicate_investment,
  concurrent_investment_conflict, or_default,
}
use ss_backend.Models.{funded, system, TransitionReason, Invoice, Investment, InvestmentStatus, Db}
use ss_backend.Invoice.Machine.{Transition, entity_manager_store, transition}
use ss_backend.Funding.Terms.{assert_acknowledged}
use ss_backend.Funding.Invest.{
  InvestConfig, InvestInput, InvestResult, current_funding_window, max_attempts, check_amount,
  is_duplicate, read_invoice, advanced, advance_funded,
}

abbrev pub new_investment : InvestConfig → String → InvestInput → ℕ → ℕ → Invoice → Investment
new_investment config id input amount block invoice = record {
  id = id;
  invoice_id = input.invoice_id;
  investor_id = input.investor_id;
  investor_wallet = some input.wallet_address;
  funding_block = some block;
  investment_amount = amount;
  expected_return = config.expected_return amount invoice.amount invoice.net_amount;
  actual_return = none;
  status = InvestmentStatus.pending;
}

abbrev pub add_investment : Investment → Db → Db
add_investment v db = record db { investments = db.investments ++ (v ∷ []) }

-- The insertion, on which the unique index decides.
unfoldable pub insert_investment : Investment → Bool → Body Db Investment
insert_investment v taken db =
    if taken then err (service_error duplicate_investment 409) else ok (v, add_investment v db)

-- The transition of an invoice that is full.
unfoldable pub to_funded : ℕ → String → Invoice → Body Db Transition
to_funded now wallet invoice =
    transition entity_manager_store now invoice funded
      (record { role = system; id = none; wallet = some wallet }) TransitionReason.fully_funded
      (record { funded_amount = some invoice.funded_amount; reason = none })

unfoldable pub result_of : Investment → Invoice → Option Transition → InvestResult
result_of v invoice none = record {
  investment = v;
  invoice = invoice;
  funded_amount = invoice.funded_amount;
  funded_transition = none;
}
result_of v invoice (some t) = record {
  investment = v;
  invoice = t.invoice;
  funded_amount = invoice.funded_amount;
  funded_transition = some t;
}

unfoldable pub filled : ℕ → InvestConfig → String → Investment → Invoice → Body Db InvestResult
unfolding result_of
filled now config wallet v invoice =
    if leb invoice.net_amount invoice.funded_amount
    then (to_funded now wallet invoice >>= λ t. pure (result_of v invoice (some t)))
    else pure (result_of v invoice none)

-- The clock and the identifier that the database draws.
pub record Answer : Type 0 where
  pub now : ℕ
  pub investment_id : String

unfoldable pub after_update :
    InvestConfig
    → Answer
    → InvestInput
    → ℕ
    → ℕ
    → Invoice
    → Option Db
    → Option (Result (InvestResult × Db))
unfolding insert_investment filled
after_update config a input amount block invoice none = none
after_update config a input amount block invoice (some db) = some (
    (insert_investment (new_investment config a.investment_id input amount block invoice)
          (any (is_duplicate input.invoice_id input.wallet_address block) db.investments)
        >>= λ v. filled a.now config input.wallet_address v (advanced amount invoice))
      db)

-- The transaction from its update on. No value stands for `FundingConflictError`.
unfoldable pub commit :
    InvestConfig → Answer → InvestInput → ℕ → ℕ → Invoice → Db → Option (Result (InvestResult × Db))
unfolding after_update
commit config a input amount block invoice db =
    after_update config a input amount block invoice
      (advance_funded input.invoice_id invoice.version amount db)

-- Where a call stands, with what it holds in its variables.
pub data Phase : Type 0 where
  entered : Phase
  reading : (amount block attempt : ℕ) → Phase
  writing : (amount block attempt : ℕ) → Invoice → Phase
  done : InvestResult → Phase
  failed : ServiceError → Phase

abbrev pub phase_of : {A : Type 0} → Result A → (A → Phase) → Phase
phase_of (err e) next = failed e
phase_of (ok x) next = next x

-- Before the first attempt.
unfoldable pub enter : InvestConfig → InvestInput → ℕ → Db → Phase
enter config input now db =
    phase_of (assert_acknowledged config.current_version input.wallet_address db) (λ _.
      phase_of (check_amount input.amount) (λ amount.
        reading amount (or_default input.ledger_sequence (current_funding_window now)) 1))

-- After a conflict.
abbrev pub retried : ℕ → ℕ → ℕ → Phase
retried amount block attempt =
    if leb max_attempts attempt
    then failed (service_error concurrent_investment_conflict 409)
    else reading amount block (suc attempt)

abbrev pub committed : ℕ → ℕ → ℕ → Option (Result (InvestResult × Db)) → Db → Phase × Db
committed amount block attempt none db = (retried amount block attempt, db)
committed amount block attempt (some (err e)) db = (failed e, db)
committed amount block attempt (some (ok (r, db'))) db = (done r, db')

-- One step of `investInInvoice`.
unfoldable pub invest_step : InvestConfig → InvestInput → Answer → Phase → Db → Phase × Db
unfolding enter
invest_step config input a entered db = (enter config input a.now db, db)
invest_step config input a (reading amount block attempt) db =
    (phase_of (read_invoice a.now input amount block db) (writing amount block attempt), db)
invest_step config input a (writing amount block attempt invoice) db =
    committed amount block attempt (commit config a input amount block invoice db) db
invest_step config input a (done r) db = (done r, db)
invest_step config input a (failed e) db = (failed e, db)
