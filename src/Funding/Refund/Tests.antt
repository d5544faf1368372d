-- ===== src/Funding/Refund/Tests.antt =====
-- A refund on a small database.
use ss_backend.Common.{ℕ, ◌<◌, ◌≡◌, refl, some, none, [], ◌∷◌, arith, ok, String}
use ss_backend.Models.{published, Invoice, Investment, InvestmentStatus, Db}
use ss_backend.Funding.Create.{total_invested}
use ss_backend.Funding.Race.{IsBooked}
use ss_backend.Funding.Refund.{can_refund, refund_investment, refund_leaves_funded}

abbrev an_invoice : Invoice
an_invoice = record {
  id = "inv-1";
  seller_id = "issuer";
  invoice_number = "N-1";
  amount = 10_000;
  discount_rate = 1_000;
  net_amount = 9_000;
  funded_amount = 4_000;
  due_date = none;
  ipfs_hash = none;
  status = published;
  rejection_reason = none;
  settlement_remainder = none;
  funding_deadline = some 500;
  version = 3;
}

abbrev investment : String → ℕ → Investment
investment investor amount = record {
  id = investor;
  invoice_id = "inv-1";
  investor_id = investor;
  investor_wallet = some investor;
  funding_block = none;
  investment_amount = amount;
  expected_return = amount;
  actual_return = none;
  status = InvestmentStatus.pending;
}

abbrev database : Db
database = record {
  invoices = an_invoice ∷ [];
  deleted_invoices = [];
  history = [];
  investments = investment "ann" 3_000 ∷ investment "bob" 1_000 ∷ [];
  users = [];
  intents = [];
  returns = [];
  remainders = [];
  transactions = [];
  listings = [];
  acknowledgements = [];
  next_id = 1;
}

is_booked : IsBooked "inv-1" database
is_booked = record {
  row = an_invoice;
  found = refl;
  booked = refl;
  within = omega arith;
  room = λ _. omega arith;
}

abbrev refunded : Db
refunded = record database { investments = investment "ann" 3_000 ∷ [] }

refund_test : refund_investment 600 "inv-1" "bob" database ≡ ok refunded
unfolding refund_investment can_refund
refund_test = refl

refund_leaves_funded_example : total_invested "inv-1" refunded.investments < 4_000
refund_leaves_funded_example =
    refund_leaves_funded 600 "inv-1" "bob" (investment "bob" 1_000) database refunded is_booked refl
      refl (omega arith) refund_test an_invoice refl
