-- ===== src/Settlement/Finish.antt =====
-- src/services/settlement.service.ts: the last database transaction of `settleInvoice`, which
-- checks the invoice once more, pays out in the books and moves the invoice to settled.
pub mod Effects
pub mod Books
pub mod Solvent
use ss_backend.Common.{
  ℕ, ◌*◌, ◌==◌, pos, ℤ, sub_ℕ, String, Bool, true, false, not, ◌&&◌, Option, none, some, List, [],
  ◌∷◌, ◌++◌, map, if◌then◌else◌, str_eq, truthy, upsert, sum_by, sort, Body, Result, ok, err,
  service_error, forbidden, no_confirmed_investments, settlement_snapshot_changed,
  settlement_intent_invalid,
}
use ss_backend.Common.Checks.{◌>>=◌, ◌>>◌, throw_if, or_throw}
use ss_backend.Models.{
  settled, Invoice, Investment, InvestmentStatus, IntentStatus, distributed, completed,
  IntentPayload, SettlementIntent, InvestorReturn, SettlementRemainder, TransitionReason,
  maturity_settled, system, Db,
}
use ss_backend.Invoice.Machine.{Transition, entity_manager_store, transition}
use ss_backend.Settlement.Returns.{compute_investor_return, fee_of, Share, minus, total_returned}
use ss_backend.Settlement.Intents.{
  is_system_settlement_actor, find_invoice, is_other_seller, is_other_wallet, check_funded, backing,
  recipient_of, stroop_factor, intent_by_id, save_intent,
}

pub record DistributorConfig : Type 0 where
  pub fee_recipient : String
  pub fee_bps : ℕ

-- What `SettlementService` is made with; `before` is `localeCompare` on ids.
pub record Service : Type 0 where
  pub has_distributor : Bool
  pub config : Option DistributorConfig
  pub before : String → String → Bool

pub data SettlementTrigger : Type 0 where
  lifecycle : TransitionReason → SettlementTrigger
  system_matured : SettlementTrigger

abbrev pub transition_reason : SettlementTrigger → TransitionReason
transition_reason (lifecycle r) = r
transition_reason system_matured = maturity_settled

pub record SettleInput : Type 0 where
  pub invoice_id : String
  pub proceeds : ℤ
  pub actor_wallet : String
  pub settlement_transaction_hash : Option String
  pub trigger : SettlementTrigger
  pub system_trigger : Bool
  pub seller_id : Option String

-- The argument of `distributePayouts`, in stroops.
pub record Payout : Type 0 where
  pub invoice_id : String
  pub total_amount : ℕ
  pub fee_recipient : String
  pub fee_bps : ℕ
  pub recipients : List (String × ℕ)

pub record SettleResult : Type 0 where
  pub invoice_id : String
  pub seller_id : String
  pub proceeds : ℕ
  pub total_distributed : ℕ
  pub remainder : ℤ
  pub settlements : List Share
  pub transaction_hash : Option String

abbrev same_snapshot : List (String × ℕ) → List (String × ℕ) → Bool
same_snapshot [] [] = true
same_snapshot ((i, a) ∷ xs) ((j, b) ∷ ys) = str_eq i j && a == b && same_snapshot xs ys
same_snapshot _ _ = false

abbrev snapshot_of : (String → String → Bool) → List (String × ℕ) → List (String × ℕ)
snapshot_of before rows = sort (λ a b. before a.0 b.0) rows

abbrev snapshot_changed : (String → String → Bool) → Option IntentPayload → List Investment → Bool
snapshot_changed before none vs = false
snapshot_changed before (some p) vs = not (
    same_snapshot (snapshot_of before (map (λ v. (v.id, v.investment_amount)) vs))
      (snapshot_of before (map (λ n. (n.id, n.investment_amount)) p.investments)))

abbrev is_empty_list : List Investment → Bool
is_empty_list [] = true
is_empty_list (_ ∷ _) = false

-- Steps 1 to 3: the invoice and the investments that back it, or the error.
unfoldable pub load_settlement :
    Service → SettleInput → Option IntentPayload → Db → Result (Invoice × List Investment)
load_settlement service input payload db = do
  invoice ← find_invoice input.invoice_id db
  throw_if (is_other_seller input.seller_id invoice) (service_error forbidden 403)
  throw_if
      (not (is_system_settlement_actor input.actor_wallet)
        && not input.system_trigger
        && is_other_wallet input.actor_wallet invoice db)
      (service_error forbidden 403)
  check_funded invoice
  throw_if (is_empty_list (backing invoice.id db)) (service_error no_confirmed_investments 400)
  throw_if (snapshot_changed service.before payload (backing invoice.id db))
      (service_error settlement_snapshot_changed 409)
  ok (invoice, backing invoice.id db)

abbrev pub fee_with : Option DistributorConfig → ℕ → ℕ
fee_with none proceeds = 0
fee_with (some c) proceeds = fee_of proceeds c.fee_bps

-- The recipients of a payout that is made inside the transaction.
pub recipients_of : Db → ℕ → ℤ → List Investment → Result (List (String × ℕ))
recipients_of db total distributable [] = ok []
recipients_of db total distributable (v ∷ vs) = do
  r ← compute_investor_return (pos v.investment_amount) (pos total) distributable
  rest ← recipients_of db total distributable vs
  ok ((recipient_of v db, r * stroop_factor) ∷ rest)

abbrev settled_row : Investment → ℕ → Investment
settled_row v r = record v { actual_return = some r; status = InvestmentStatus.settled }

abbrev return_row : String → Investment → ℕ → InvestorReturn
return_row invoice_id v r = record {
  invoice_id = invoice_id;
  investment_id = v.id;
  investor_id = v.investor_id;
  return_amount = r;
}

abbrev book_share : String → Investment → ℕ → Db → Db
book_share invoice_id v r db = record db {
  investments = upsert (λ w. str_eq w.id v.id) (settled_row v r) db.investments;
  returns = db.returns ++ (return_row invoice_id v r ∷ []);
}

abbrev pub share_row : Investment → ℕ → Share
share_row v r = record {
  investment_id = v.id;
  investor_id = v.investor_id;
  investment_amount = v.investment_amount;
  return_amount = r;
}

-- The loop of step 4 over the investments.
pub book_shares : String → ℕ → ℤ → List Investment → Body Db (List Share)
book_shares invoice_id total distributable [] db = ok ([], db)
book_shares invoice_id total distributable (v ∷ vs) db =
    compute_investor_return (pos v.investment_amount) (pos total) distributable >>= λ r.
    book_shares invoice_id total distributable vs (book_share invoice_id v r db) >>= λ done.
    ok (share_row v r ∷ done.0, done.1)

abbrev book_transaction : Invoice → ℕ → Option String → Db → Db
book_transaction invoice proceeds none db = db
book_transaction invoice proceeds (some hash) db =
    if truthy (some hash)
    then record db {
      transactions =
          db.transactions
          ++ (record {
            user_id = invoice.seller_id;
            invoice_id = invoice.id;
            investment_id = none;
            amount = proceeds;
            stellar_tx_hash = hash;
          }
              ∷ []);
    }
    else db

abbrev is_distributed : IntentStatus → Bool
is_distributed distributed = true
is_distributed _ = false

abbrev same_hash : Option String → Option String → Bool
same_hash (some a) (some b) = str_eq a b
same_hash none none = true
same_hash _ _ = false

-- The intent is marked completed, if it is still the one that was paid.
pub complete_intent : Option SettlementIntent → Option String → Db → Result Db
complete_intent none hash db = ok db
complete_intent (some n) hash db =
    or_throw (intent_by_id n.id db) (service_error settlement_intent_invalid 409) >>= λ m.
    if is_distributed m.status && same_hash m.transaction_hash hash
    then ok (save_intent (record m { status = completed }) db)
    else err (service_error settlement_intent_invalid 409)

abbrev pub remainder_row : Invoice → ℕ → List Share → ℤ → SettlementRemainder
remainder_row invoice proceeds shares remainder = record {
  invoice_id = invoice.id;
  remainder_amount = remainder;
  total_settlement_amount = proceeds;
  total_distributed_amount = total_returned shares;
}

-- The shares of all investments, booked.
abbrev pub book_all :
    Service → ℕ → Option String → Invoice → List Investment → Db → Result (List Share × Db)
book_all service proceeds hash invoice investments db =
    book_shares invoice.id (sum_by (λ v. v.investment_amount) investments)
      (sub_ℕ proceeds (fee_with service.config proceeds)) investments
      (book_transaction invoice proceeds hash db)

abbrev pub remainder_of : Service → ℕ → List Share → ℤ
remainder_of service proceeds shares =
    minus (sub_ℕ proceeds (fee_with service.config proceeds)) (total_returned shares)

-- The remainder is recorded and the invoice moves to settled.
abbrev pub move_settled :
    Service → SettleInput → ℕ → ℕ → Invoice → List Share → Db → Result (Transition × Db)
move_settled service input proceeds now invoice shares db =
    transition entity_manager_store now
      (record invoice { settlement_remainder = some (remainder_of service proceeds shares) })
      settled (record { role = system; id = none; wallet = some input.actor_wallet })
      (transition_reason input.trigger) (record { funded_amount = none; reason = none })
      (record db {
        remainders =
            db.remainders
            ++ (remainder_row invoice proceeds shares (remainder_of service proceeds shares) ∷ []);
      })

-- Steps 4 and 5, once the payout's hash (if any) is known.
unfoldable pub write_settlement :
    Service
    → SettleInput
    → ℕ
    → ℕ
    → Option SettlementIntent
    → Option String
    → Invoice
    → List Investment
    → Body Db SettleResult
unfolding book_shares complete_intent
write_settlement service input proceeds now intent hash invoice investments db =
    book_all service proceeds hash invoice investments db >>= λ booked.
    move_settled service input proceeds now invoice booked.0 booked.1 >>= λ moved.
    complete_intent intent hash moved.1 >>= λ db'. ok (
      record {
        invoice_id = invoice.id;
        seller_id = invoice.seller_id;
        proceeds = proceeds;
        total_distributed = total_returned booked.0;
        remainder = remainder_of service proceeds booked.0;
        settlements = booked.0;
        transaction_hash = hash;
      },
      db',
    )
