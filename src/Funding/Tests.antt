-- ===== src/Funding/Tests.antt =====
-- Two investors on a small database, and concrete cases of the theorems about funding.
use ss_backend.Common.{
  ℕ, ◌*◌, ◌/◌, ◌≤◌, ◌≢◌, String, ◌≡◌, refl, ◌↔◌, true, none, some, List, [], ◌∷◌, arith, pos, ok,
  filter, str_eq, eq_iff, trim, trim_start, trim_end,
}
use ss_backend.Models.{
  published, Invoice, Investment, InvestmentStatus, InvestorAcknowledgement, Db,
}
use ss_backend.Invoice.Rules.{assert_transition, fully_funded}
use ss_backend.Invoice.Machine.{transition, entity_manager_store, save_invoice, record_history}
use ss_backend.Funding.Terms.{
  latest, assert_acknowledged, AcknowledgeInput, acknowledge, has_current_acknowledgement,
}
use ss_backend.Funding.Invest.{
  InvestConfig, InvestInput, InvestResult, read_invoice, check_amount, advance_row, advance_funded,
}
use ss_backend.Funding.Commit.{
  Answer, Phase, entered, done, new_investment, invest_step, enter, commit, after_update,
  insert_investment, filled, result_of, to_funded,
}
use ss_backend.Funding.Create.{CreateInvestmentInput, total_invested, check_create}
use ss_backend.Funding.Accepts.{Accepts}
use ss_backend.Funding.Checks.{IsOpenTo, MayInvest, read_invoice_iff}
use ss_backend.Funding.Creation.{MayCreate, check_create_iff}
use ss_backend.Funding.Ends.{invest_run, is_over, invest_ends}
use ss_backend.Funding.Alone.{invest_steps, invest_alone}
use ss_backend.Funding.Ack.{assert_acknowledged_iff, acknowledge-assert}
use ss_backend.Funding.Dashboard.{
  Figures, get_investor_dashboard, empty_dashboard, get_investor_dashboard_lem,
}

abbrev pub an_invoice : Invoice
an_invoice = record {
  id = "inv-1";
  seller_id = "issuer";
  invoice_number = "N-1";
  amount = 10_000;
  discount_rate = 1_000;
  net_amount = 9_000;
  funded_amount = 3_000;
  due_date = some 86_400_000;
  ipfs_hash = none;
  status = published;
  rejection_reason = none;
  settlement_remainder = none;
  funding_deadline = some 50_000_000;
  version = 4;
}

abbrev investment : String → String → ℕ → Investment
investment id investor amount = record {
  id = id;
  invoice_id = "inv-1";
  investor_id = investor;
  investor_wallet = some investor;
  funding_block = some 1;
  investment_amount = amount;
  expected_return = amount;
  actual_return = none;
  status = InvestmentStatus.pending;
}

abbrev agreed : String → InvestorAcknowledgement
agreed wallet = record {
  wallet_address = wallet;
  user_id = none;
  terms_version = "1";
  acknowledged_at = 5;
}

abbrev pub database : Db
database = record {
  invoices = an_invoice ∷ [];
  deleted_invoices = [];
  history = [];
  investments = investment "a" "ann" 3_000 ∷ [];
  users = [];
  intents = [];
  returns = [];
  remainders = [];
  transactions = [];
  listings = [];
  acknowledgements = agreed "bob" ∷ agreed "cyd" ∷ [];
  next_id = 1;
}

abbrev pub config : InvestConfig
config = record { current_version = "1"; expected_return = λ amount face net. amount * face / net }

abbrev pub wish : String → ℕ → InvestInput
wish investor amount = record {
  invoice_id = "inv-1";
  investor_id = investor;
  wallet_address = investor;
  amount = some (pos amount);
  ledger_sequence = some 7;
}

abbrev pub answer : Answer
answer = record { now = 1_000; investment_id = "n" }

open_to :
    (investor : String) → ◌≢◌ {A = String} "issuer" investor → IsOpenTo 1_000 investor an_invoice
open_to investor ne = record {
  is_open = refl;
  not_due = λ due e. let q : 86_400_000 ≡ due = cc in rw (← q) (omega arith);
  in_time = λ t e. let q : 50_000_000 ≡ t = cc in rw (← q) (omega arith);
  not_seller = ne;
}

bob_is_other : ◌≢◌ {A = String} "issuer" "bob"
bob_is_other e = let t : str_eq "issuer" "bob" ≡ true = (eq_iff "issuer" "bob").1 e in cc

may_invest :
    (amount : ℕ) → amount ≤ 6_000 → MayInvest 1_000 (wish "bob" amount) amount 7 database an_invoice
may_invest amount fits = record {
  found = refl;
  open_to = open_to "bob" bob_is_other;
  fits = omega arith;
  first = (refl, tt);
}

read_invoice_iff_example :
    (read_invoice 1_000 (wish "bob" 6_000) 6_000 7 database ≡ ok an_invoice)
    ↔ MayInvest 1_000 (wish "bob" 6_000) 6_000 7 database an_invoice
read_invoice_iff_example = read_invoice_iff 1_000 (wish "bob" 6_000) 6_000 7 database an_invoice

read_test : read_invoice 1_000 (wish "bob" 6_000) 6_000 7 database ≡ ok an_invoice
read_test = read_invoice_iff_example.1 (may_invest 6_000 (omega arith))

-- The last of the capacity: the invoice is funded.
abbrev filled_up : Phase × Db
filled_up = invest_steps config (wish "bob" 6_000) (answer ∷ answer ∷ answer ∷ []) entered database

fills_test : total_invested "inv-1" filled_up.1.investments ≡ 9_000
unfolding invest_steps invest_step enter assert_acknowledged latest check_amount read_invoice trim
    trim_start trim_end commit advance_funded advance_row after_update insert_investment filled
    to_funded result_of transition entity_manager_store save_invoice record_history
    assert_transition fully_funded
fills_test = refl

invest_alone_example :
    (r : InvestResult) × (db' : Db) × (invest_steps config
        (wish "bob" 6_000)
        (answer ∷ answer ∷ answer ∷ [])
        entered
        database
      ≡ (done r, db'))
    × (r.investment ≡ new_investment config "n" (wish "bob" 6_000) 6_000 7 an_invoice)
    × Accepts "inv-1" 6_000 3_000 database db'
unfolding assert_acknowledged latest trim trim_start trim_end
invest_alone_example =
    invest_alone config answer answer answer (wish "bob" 6_000) 6_000 an_invoice database refl refl
      (omega arith) (may_invest 6_000 (omega arith))

abbrev meetings : List (Answer × Db)
meetings =
    (answer, database)
    ∷ (answer, database)
    ∷ (answer, database)
    ∷ (answer, database)
    ∷ (answer, database)
    ∷ (answer, database)
    ∷ (answer, database)
    ∷ []

invest_ends_example : is_over (invest_run config (wish "bob" 6_000) meetings entered) ≡ true
invest_ends_example = invest_ends config (wish "bob" 6_000) meetings refl

abbrev the_create : CreateInvestmentInput
the_create = record {
  invoice_id = "inv-1";
  investor_id = "bob";
  investment_amount = pos 2_000;
  investor_wallet = "bob";
}

check_create_iff_example :
    (check_create config (some true) 1_000 the_create database ≡ ok (2_000, an_invoice))
    ↔ MayCreate config (some true) 1_000 the_create database 2_000 an_invoice
check_create_iff_example =
    check_create_iff config (some true) 1_000 the_create database 2_000 an_invoice

check_create_test :
    check_create config (some true) 1_000 the_create database ≡ ok (2_000, an_invoice)
unfolding assert_acknowledged latest trim trim_start trim_end
check_create_test = check_create_iff_example.1 (record {
  acknowledged = refl;
  suits = λ e. cc;
  given = refl;
  positive = omega arith;
  found = refl;
  open_to = open_to "bob" bob_is_other;
  fits = omega arith;
})

abbrev agreeing : AcknowledgeInput
agreeing = record { wallet_address = " dan "; user_id = none; terms_version = none }

abbrev dan : InvestorAcknowledgement
dan = record { wallet_address = "dan"; user_id = none; terms_version = "1"; acknowledged_at = 9 }

acknowledge-assert_example :
    (assert_acknowledged "1" " dan "
        (record database { acknowledgements = agreed "bob" ∷ agreed "cyd" ∷ dan ∷ [] })
      ≡ ok tt)
    × (has_current_acknowledgement "1" " dan "
          (record database { acknowledgements = agreed "bob" ∷ agreed "cyd" ∷ dan ∷ [] })
        ≡ true)
unfolding acknowledge trim trim_start trim_end
acknowledge-assert_example = acknowledge-assert 9 "1" agreeing database dan _ refl

assert_acknowledged_iff_example :
    (assert_acknowledged "1" "bob" database ≡ ok tt)
    ↔ (has_current_acknowledgement "1" "bob" database ≡ true)
assert_acknowledged_iff_example = assert_acknowledged_iff "1" "bob" database

get_investor_dashboard_lem_example :
    Figures
      (filter (λ v. str_eq v.investor_id "ann") database.investments)
      empty_dashboard
      (get_investor_dashboard "ann" database)
get_investor_dashboard_lem_example = get_investor_dashboard_lem "ann" database
