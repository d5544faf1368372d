-- ===== src/Settlement/Saga/Tests.antt =====
-- Runs of `settleInvoice` on a small database, and concrete cases of the theorems about it.
use ss_backend.Common.{
  Result, ok, err, ℕ, ◌≤◌, String, ◌≡◌, refl, true, false, Option, none, some, List, [], ◌∷◌, arith,
  pos, sub_ℕ, All, service_error, forbidden,
}
use ss_backend.Models.{
  funded, Invoice, Investment, InvestmentStatus, on_chain_settled, approved, Db,
}
use ss_backend.Invoice.Rules.{assert_transition}
use ss_backend.Invoice.Machine.{transition, entity_manager_store, save_invoice, record_history}
use ss_backend.Settlement.Returns.{compute_investor_return, fee_of}
use ss_backend.Settlement.Intents.{
  prepare_settlement_intent, claim_settlement_intent, mark_settlement_distributed,
}
use ss_backend.Settlement.Finish.{
  Service, SettleInput, SettleResult, Payout, lifecycle, load_settlement, write_settlement,
}
use ss_backend.Settlement.Saga.{
  World, Phase, started, done, failed, Answer, settle_step, settle_steps,
}
use ss_backend.Settlement.Saga.Steps.{IsHash, calls_of}
use ss_backend.Settlement.Saga.Race.{
  Call, Race, Turn, arrive, step, Turns, here, then, at_most_one_payout,
}
use ss_backend.Settlement.Finish.Books.{Settles, write-Settles}
use ss_backend.Settlement.Finish.Solvent.{IsSolventPayout, exceeds_total}
use ss_backend.Settlement.Saga.Solvency.{payouts_solvent}

abbrev an_invoice : Invoice
an_invoice = record {
  id = "inv-1";
  seller_id = "seller";
  invoice_number = "N-1";
  amount = 10_000_000;
  discount_rate = 1_000;
  net_amount = 9_500_000;
  funded_amount = 0;
  due_date = some 1_000;
  ipfs_hash = some "Qm";
  status = funded;
  rejection_reason = none;
  settlement_remainder = none;
  funding_deadline = none;
  version = 1;
}

abbrev investment : String → String → ℕ → Investment
investment id investor_id amount = record {
  id = id;
  invoice_id = "inv-1";
  investor_id = investor_id;
  investor_wallet = none;
  funding_block = none;
  investment_amount = amount;
  expected_return = amount;
  actual_return = none;
  status = InvestmentStatus.confirmed;
}

-- Two investors and the seller, whose registered address is given.
abbrev database : Option String → Db
database address = record {
  invoices = an_invoice ∷ [];
  deleted_invoices = [];
  history = [];
  investments = investment "a" "ann" 6_000_000 ∷ investment "b" "bob" 3_500_000 ∷ [];
  users = record { id = "seller"; kyc_status = approved; stellar_address = address } ∷ [];
  intents = [];
  returns = [];
  remainders = [];
  transactions = [];
  listings = [];
  acknowledgements = [];
  next_id = 1;
}

abbrev world : Option String → World
world address = record { db = database address; payouts = [] }

abbrev service : Service
service = record {
  has_distributor = true;
  config = some (record { fee_recipient = "GFEE"; fee_bps = 250 });
  before = λ a b. true;
}

abbrev settling : String → SettleInput
settling wallet = record {
  invoice_id = "inv-1";
  proceeds = pos 10_000_001;
  actor_wallet = wallet;
  settlement_transaction_hash = none;
  trigger = lifecycle on_chain_settled;
  system_trigger = false;
  seller_id = none;
}

abbrev answer : Answer
answer = record { now = 1; payout = some "tx"; inner_payout = some "tx2" }

abbrev answers : List Answer
answers = answer ∷ answer ∷ answer ∷ answer ∷ answer ∷ []

-- What a finished run shows: how much was distributed, and the payouts that were submitted.
abbrev distributed_by : Phase × World → Option (ℕ × ℕ)
distributed_by (done r, w) = some (r.total_distributed, calls_of "inv-1" w.payouts)
distributed_by _ = none

settles_test :
    distributed_by
      (settle_steps service (settling "GSELLER") answers started (world (some "GSELLER")))
    ≡ some (9_750_000, 1)
unfolding settle_steps settle_step prepare_settlement_intent claim_settlement_intent
    mark_settlement_distributed load_settlement write_settlement compute_investor_return
    assert_transition transition entity_manager_store save_invoice record_history
settles_test = refl

-- The system actor is refused when the seller has a registered address, though the guard of the
-- last transaction lets it pass.
system_refused_test :
    (settle_steps service (settling "system") answers started (world (some "GSELLER"))).0
    ≡ failed (service_error forbidden 403)
unfolding settle_steps settle_step prepare_settlement_intent
system_refused_test = refl

system_allowed_test :
    distributed_by (settle_steps service (settling "system") answers started (world none))
    ≡ some (9_750_000, 1)
unfolding settle_steps settle_step prepare_settlement_intent claim_settlement_intent
    mark_settlement_distributed load_settlement write_settlement compute_investor_return
    assert_transition transition entity_manager_store save_invoice record_history
system_allowed_test = refl

abbrev idle : Race
idle = record { world = world (some "GSELLER"); calls = [] }

-- The first call of a race takes a step.
abbrev first_steps : Race → Race
first_steps r = elim r.calls [
  | [] ↦ r
  | c ∷ cs ↦
      let (phase', world') = settle_step service c.input answer c.phase r.world in
      record { world = world'; calls = record c { phase = phase' } ∷ cs }
]

abbrev joined : Race → Race
joined r = record r { calls = record { input = settling "GSELLER"; phase = started } ∷ r.calls }

-- Two calls for the same invoice, of which the later one takes three steps.
abbrev raced : Race
raced = first_steps (first_steps (first_steps (joined (joined idle))))

none-IsHash : IsHash none
none-IsHash h e = ground arith

some-IsHash : IsHash (some "tx")
some-IsHash h e = let q : "tx" ≡ h = cc in rw (← q) refl

arrives : (r : Race) → Turn service r (joined r)
arrives r = arrive (settling "GSELLER") none-IsHash refl

steps : (r : Race) (c : Call) (cs : List Call) → r.calls ≡ c ∷ cs → Turn service r (first_steps r)
steps r c cs e = step [] cs c answer some-IsHash e (rw e refl) (rw e refl)

races : Turns service idle raced
races =
    then
      (then
        (then (then (then here (arrives idle)) (arrives (joined idle)))
          (steps (joined (joined idle)) _ _ refl))
        (steps (first_steps (joined (joined idle))) _ _ refl))
      (steps (first_steps (first_steps (joined (joined idle)))) _ _ refl)

at_most_one_payout_example : calls_of "inv-1" raced.world.payouts ≤ 1
at_most_one_payout_example =
    at_most_one_payout service "inv-1" (world (some "GSELLER")) raced refl refl (omega arith)
      (record { distinct = tt; drawn = tt }) races

-- The race has submitted a payout.
raced_test : calls_of "inv-1" raced.world.payouts ≡ 1
unfolding settle_step prepare_settlement_intent claim_settlement_intent compute_investor_return
raced_test = refl

payouts_solvent_example : All IsSolventPayout raced.world.payouts
payouts_solvent_example =
    payouts_solvent service (world (some "GSELLER")) raced (record { stored = tt; submitted = tt })
      races

abbrev no_result : SettleResult × Db
no_result = (
  record {
    invoice_id = "";
    seller_id = "";
    proceeds = 0;
    total_distributed = 0;
    remainder = pos 0;
    settlements = [];
    transaction_hash = none;
  },
  database none,
)

abbrev result_of : Result (SettleResult × Db) → SettleResult × Db
result_of (ok x) = x
result_of (err _) = no_result

abbrev booked : SettleResult × Db
booked = result_of (
    write_settlement service (settling "GSELLER") 10_000_001 1 none (some "tx") an_invoice
      (database none).investments (database none))

books :
    write_settlement service
      (settling "GSELLER")
      10_000_001
      1
      none
      (some "tx")
      an_invoice
      (database none).investments
      (database none)
    ≡ ok (booked.0, booked.1)
unfolding write_settlement compute_investor_return assert_transition transition entity_manager_store
    save_invoice record_history
books = refl

write-Settles_example :
    Settles service (settling "GSELLER") 10_000_001 an_invoice (database none) booked.0 booked.1
write-Settles_example =
    write-Settles service (settling "GSELLER") 10_000_001 1 none (some "tx") an_invoice
      (database none).investments (database none) booked.1 booked.0 books

-- Proceeds of 1.0001 at 250 basis points, to one investor: settlement reserves 0.0250 and returns 0.9751,
-- and the distributor, which takes 250025 stroops, finds that too much.
abbrev tight : Payout
tight = record {
  invoice_id = "inv-1";
  total_amount = 10_001_000;
  fee_recipient = "GFEE";
  fee_bps = 250;
  recipients = ("ann", 9_751_000) ∷ [];
}

refused_fee_test :
    (compute_investor_return (pos 100) (pos 100) (sub_ℕ 10_001 (fee_of 10_001 250)) ≡ ok 9_751)
    × (exceeds_total tight ≡ true)
unfolding compute_investor_return exceeds_total
refused_fee_test = (refl, refl)
