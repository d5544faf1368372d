-- ===== src/Settlement/Intents.antt =====
-- src/services/settlement.service.ts: `isSystemSettlementActor`, `prepareSettlementIntent`,
-- `claimSettlementIntent` and `markSettlementDistributed`. Each runs in one database transaction
-- under row locks, so it is one step on the database that either returns or changes nothing.
pub mod Effects
pub mod Solvent
use ss_backend.Common.{
  ℕ, ◌+◌, ◌*◌, ◌==◌, pos, ℤ, sub_ℕ, String, Bool, true, false, not, ◌&&◌, ◌||◌, Option, none, some,
  List, [], ◌∷◌, ◌++◌, if◌then◌else◌, ltb, str_eq, opt_eq, truthy, or_default, find, filter, upsert,
  sum_by, sort, Result, ok, err, service_error, invalid_distributor_fee, invoice_not_found,
  forbidden, invoice_already_settled, invalid_invoice_status, no_confirmed_investments,
  settlement_intent_conflict, settlement_intent_not_found, settlement_reconciliation_required,
  settlement_intent_invalid,
}
use ss_backend.Common.Checks.{◌>>=◌, ◌>>◌, throw_if, or_throw}
use ss_backend.Models.{
  funded, settled, status_eq, Invoice, Investment, InvestmentStatus, User, IntentStatus, prepared,
  submitting, distributed, IntentInvestment, IntentPayload, SettlementIntent, TransitionReason, Db,
}
use ss_backend.Settlement.Returns.{compute_investor_return, fee_of}
use text.Mathlib.Text.{starts_with}

abbrev pub is_system_settlement_actor : String → Bool
is_system_settlement_actor wallet =
    truthy (some wallet) && (str_eq wallet "system" || starts_with wallet "system:")

-- The reasons of the status history as numbers, to compare two.
abbrev reason_index : TransitionReason → ℕ
reason_index TransitionReason.seller_submitted = 0
reason_index TransitionReason.seller_published = 1
reason_index TransitionReason.seller_batch_published = 2
reason_index TransitionReason.seller_cancelled = 3
reason_index TransitionReason.admin_approved = 4
reason_index TransitionReason.admin_cancelled = 5
reason_index TransitionReason.fully_funded = 6
reason_index TransitionReason.admin_settled = 7
reason_index TransitionReason.on_chain_settled = 8
reason_index TransitionReason.admin_rejected = 9
reason_index TransitionReason.maturity_settled = 10
reason_index TransitionReason.maturity_underfunded = 11

pub record PrepareInput : Type 0 where
  pub invoice_id : String
  pub proceeds : ℕ
  pub actor_wallet : String
  pub seller_id : Option String
  pub trigger : TransitionReason
  pub fee_recipient : String
  pub fee_bps : ℕ

abbrev pub find_invoice : String → Db → Result Invoice
find_invoice id db =
    or_throw (find (λ r. str_eq r.id id) db.invoices) (service_error invoice_not_found 404)

-- `sellerId && invoice.sellerId && invoice.sellerId !== sellerId`
abbrev pub is_other_seller : Option String → Invoice → Bool
is_other_seller seller_id invoice =
    truthy seller_id
    && truthy (some invoice.seller_id)
    && not (opt_eq (some invoice.seller_id) seller_id)

abbrev address_differs : String → Option User → Bool
address_differs wallet none = false
address_differs wallet (some u) =
    truthy u.stellar_address && not (opt_eq u.stellar_address (some wallet))

-- The wallet equality check against the seller's registered address.
abbrev pub is_other_wallet : String → Invoice → Db → Bool
is_other_wallet wallet invoice db =
    truthy (some wallet)
    && truthy (some invoice.seller_id)
    && address_differs wallet (find (λ u. str_eq u.id invoice.seller_id) db.users)

abbrev pub check_funded : Invoice → Result (Unit {0})
check_funded invoice = do
  throw_if (status_eq invoice.status settled) (service_error invoice_already_settled 409)
  throw_if (not (status_eq invoice.status funded)) (service_error invalid_invoice_status 400)

abbrev is_confirmed : InvestmentStatus → Bool
is_confirmed InvestmentStatus.confirmed = true
is_confirmed _ = false

abbrev pub is_backing : String → Investment → Bool
is_backing invoice_id v = str_eq v.invoice_id invoice_id && is_confirmed v.status

abbrev pub backing : String → Db → List Investment
backing invoice_id db = filter (is_backing invoice_id) db.investments

-- `investment.investor?.stellarAddress ?? investment.investorId`
abbrev pub recipient_of : Investment → Db → String
recipient_of v db = elim (find (λ u. str_eq u.id v.investor_id) db.users) [
  | none ↦ v.investor_id
  | some u ↦ or_default u.stellar_address v.investor_id
]

-- `DECIMAL_SCALE_TO_STROOP_FACTOR`
abbrev pub stroop_factor : ℕ
stroop_factor = 1000

pub prepare_investments : Db → ℕ → ℤ → List Investment → Result (List IntentInvestment)
prepare_investments db total distributable [] = ok []
prepare_investments db total distributable (v ∷ vs) = do
  r ← compute_investor_return (pos v.investment_amount) (pos total) distributable
  rest ← prepare_investments db total distributable vs
  ok (
      record {
        id = v.id;
        investor_id = v.investor_id;
        investment_amount = v.investment_amount;
        recipient_address = recipient_of v db;
        return_amount_stroops = r * stroop_factor;
      }
      ∷ rest)

-- The guards of `prepareSettlementIntent`, up to the look-up of an existing intent.
pub check_prepare : PrepareInput → Db → Result Invoice
check_prepare input db = do
  throw_if (ltb 10_000 input.fee_bps) (service_error invalid_distributor_fee 400)
  invoice ← find_invoice input.invoice_id db
  throw_if (is_other_seller input.seller_id invoice) (service_error forbidden 403)
  throw_if (is_other_wallet input.actor_wallet invoice db) (service_error forbidden 403)
  check_funded invoice
  ok invoice

abbrev same_parameters : IntentPayload → PrepareInput → Bool
same_parameters p input =
    p.proceeds == input.proceeds
    && str_eq p.actor_wallet input.actor_wallet
    && opt_eq p.seller_id input.seller_id
    && reason_index p.trigger == reason_index input.trigger
    && str_eq p.fee_recipient input.fee_recipient
    && p.fee_bps == input.fee_bps

abbrev is_empty_list : List Investment → Bool
is_empty_list [] = true
is_empty_list (_ ∷ _) = false

-- The payload of a new intent. `before` is `localeCompare` on the ids, which the sort uses.
pub new_payload : (String → String → Bool) → PrepareInput → Invoice → Db → Result IntentPayload
unfolding prepare_investments
new_payload before input invoice db = do
  let investments = backing invoice.id db
  throw_if (is_empty_list investments) (service_error no_confirmed_investments 400)
  rows ←
      prepare_investments db (sum_by (λ v. v.investment_amount) investments)
        (sub_ℕ input.proceeds (fee_of input.proceeds input.fee_bps)) investments
  ok (record {
    proceeds = input.proceeds;
    actor_wallet = input.actor_wallet;
    seller_id = input.seller_id;
    trigger = input.trigger;
    fee_recipient = input.fee_recipient;
    fee_bps = input.fee_bps;
    investments = sort (λ a b. before a.id b.id) rows;
  })

abbrev pub new_intent : Invoice → IntentPayload → Db → SettlementIntent
new_intent invoice payload db = record {
  id = db.next_id;
  invoice_id = invoice.id;
  status = prepared;
  payload = payload;
  transaction_hash = none;
}

abbrev pub add_intent : SettlementIntent → Db → Db
add_intent n db = record db { intents = db.intents ++ (n ∷ []); next_id = db.next_id + 1 }

-- An intent of the invoice is taken up again if its parameters are the same; else one is made.
pub reuse_or_create :
    (String → String → Bool)
    → PrepareInput
    → Db
    → Invoice
    → Option SettlementIntent
    → Result (SettlementIntent × Db)
unfolding new_payload
reuse_or_create before input db invoice (some n) =
    if same_parameters n.payload input
    then ok (n, db)
    else err (service_error settlement_intent_conflict 409)
reuse_or_create before input db invoice none = new_payload before input invoice db >>= λ payload.
    ok (new_intent invoice payload db, add_intent (new_intent invoice payload db) db)

abbrev pub intent_of : String → Db → Option SettlementIntent
intent_of invoice_id db = find (λ n. str_eq n.invoice_id invoice_id) db.intents

unfoldable pub prepare_settlement_intent :
    (String → String → Bool) → PrepareInput → Db → Result (SettlementIntent × Db)
unfolding check_prepare reuse_or_create
prepare_settlement_intent before input db = check_prepare input db >>= λ invoice.
    reuse_or_create before input db invoice (intent_of invoice.id db)

abbrev pub save_intent : SettlementIntent → Db → Db
save_intent n db = record db { intents = upsert (λ m. m.id == n.id) n db.intents }

abbrev pub intent_by_id : ℕ → Db → Option SettlementIntent
intent_by_id id db = find (λ m. m.id == id) db.intents

claim_row : Db → SettlementIntent → IntentStatus → Result (SettlementIntent × Db)
claim_row db n prepared = let n' = record n { status = submitting } in ok (n', save_intent n' db)
claim_row db n _ = err (service_error settlement_reconciliation_required 409)

unfoldable pub claim_settlement_intent : ℕ → Db → Result (SettlementIntent × Db)
unfolding claim_row
claim_settlement_intent id db =
    or_throw (intent_by_id id db) (service_error settlement_intent_not_found 404) >>= λ n.
    claim_row db n n.status

mark_row : Db → String → SettlementIntent → IntentStatus → Result (SettlementIntent × Db)
mark_row db hash n submitting =
    let n' = record n { status = distributed; transaction_hash = some hash } in
    ok (n', save_intent n' db)
mark_row db hash n _ = err (service_error settlement_intent_invalid 409)

unfoldable pub mark_settlement_distributed : ℕ → String → Db → Result (SettlementIntent × Db)
unfolding mark_row
mark_settlement_distributed id hash db =
    or_throw (intent_by_id id db) (service_error settlement_intent_invalid 409) >>= λ n.
    mark_row db hash n n.status
