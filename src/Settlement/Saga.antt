-- ===== src/Settlement/Saga.antt =====
-- src/services/settlement.service.ts, `settleInvoice`: a chain of database transactions with the
-- external payout between them. Each phase is one step, so that calls for one invoice, retries
-- included, may interleave between any two steps. What follows the last commit (dispatch of side
-- effects, the settlement event, reputation, notifications, logs) is left out: it cannot fail the
-- settlement.
pub mod Steps
pub mod Race
pub mod Solvency
pub mod Tests
use ss_backend.Common.{
  ℕ, zero, suc, ◌+◌, ◌*◌, ℤ, pos, negsuc, sub_ℕ, String, Bool, true, false, not, ◌&&◌, Option, none,
  some, List, [], ◌∷◌, ◌++◌, map, if◌then◌else◌, truthy, or_else, sum_by, Result, ok, err,
  ServiceError, service_error, invalid_proceeds, distributor_configuration_missing, payout_failed,
  settlement_reconciliation_required,
}
use ss_backend.Models.{
  Invoice, Investment, IntentStatus, prepared, submitting, distributed, completed, IntentPayload,
  SettlementIntent, Db,
}
use ss_backend.Settlement.Intents.{
  PrepareInput, prepare_settlement_intent, claim_settlement_intent, mark_settlement_distributed,
  stroop_factor,
}
use ss_backend.Settlement.Finish.{
  DistributorConfig, Service, SettleInput, Payout, SettleResult, transition_reason, load_settlement,
  recipients_of, fee_with, write_settlement,
}

-- The database, and the payouts that were submitted to the chain, in order.
pub record World : Type 0 where
  pub db : Db
  pub payouts : List Payout

-- Where a call of `settleInvoice` stands, with what it holds in its variables.
pub data Phase : Type 0 where
  started : Phase
  holding : SettlementIntent → Phase
  claimed : SettlementIntent → IntentPayload → Phase
  paid : SettlementIntent → IntentPayload → (hash : String) → Phase
  ready : Option (SettlementIntent × IntentPayload) → Option String → Phase
  done : SettleResult → Phase
  failed : ServiceError → Phase

-- What the environment answers: the clock, and for each payout call its hash, or null if it threw.
pub record Answer : Type 0 where
  pub now : ℕ
  pub payout : Option String
  pub inner_payout : Option String

abbrev reconcile : ServiceError
reconcile = service_error settlement_reconciliation_required 409

abbrev pub payout_of : IntentPayload → String → Payout
payout_of p invoice_id = record {
  invoice_id = invoice_id;
  total_amount = p.proceeds * stroop_factor;
  fee_recipient = p.fee_recipient;
  fee_bps = p.fee_bps;
  recipients = map (λ v. (v.recipient_address, v.return_amount_stroops)) p.investments;
}

abbrev prepare_input : SettleInput → ℕ → DistributorConfig → PrepareInput
prepare_input input proceeds c = record {
  invoice_id = input.invoice_id;
  proceeds = proceeds;
  actor_wallet = input.actor_wallet;
  seller_id = input.seller_id;
  trigger = transition_reason input.trigger;
  fee_recipient = c.fee_recipient;
  fee_bps = c.fee_bps;
}

abbrev moved_to : {A : Type 0} → World → Result (A × Db) → (A → Phase) → Phase × World
moved_to w (err e) next = (failed e, w)
moved_to w (ok (a, db')) next = (next a, record w { db = db' })

start : Service → SettleInput → ℕ → World → Option DistributorConfig → Bool → Phase × World
start service input proceeds w config false = (ready none none, w)
start service input proceeds w none true =
    (failed (service_error distributor_configuration_missing 400), w)
start service input proceeds w (some c) true =
    moved_to w (prepare_settlement_intent service.before (prepare_input input proceeds c) w.db)
      holding

take_up : SettlementIntent → IntentStatus → World → Phase × World
take_up n submitting w = (failed reconcile, w)
take_up n prepared w = moved_to w (claim_settlement_intent n.id w.db) (λ n'. claimed n' n.payload)
take_up n distributed w =
    if truthy n.transaction_hash
    then (ready (some (n, n.payload)) n.transaction_hash, w)
    else (failed reconcile, w)
take_up n completed w = (failed reconcile, w)

abbrev submit : Payout → World → World
submit p w = record w { payouts = w.payouts ++ (p ∷ []) }

after_payout : SettlementIntent → IntentPayload → Option String → Phase
after_payout n p none = failed (service_error payout_failed 500)
after_payout n p (some hash) = paid n p hash

abbrev intent_part : Option (SettlementIntent × IntentPayload) → Option SettlementIntent
intent_part none = none
intent_part (some (n, p)) = some n

abbrev payload_part : Option (SettlementIntent × IntentPayload) → Option IntentPayload
payload_part none = none
payload_part (some (n, p)) = some p

abbrev written : World → Result (SettleResult × Db) → Phase × World
written w r = moved_to w r done

-- The payout inside the transaction, made only if a distributor is set and no hash is known.
abbrev inner_payout_of :
    Service → SettleInput → ℕ → Invoice → List (String × ℕ) → DistributorConfig → Payout
inner_payout_of service input proceeds invoice recipients c = record {
  invoice_id = invoice.id;
  total_amount = proceeds * stroop_factor;
  fee_recipient = c.fee_recipient;
  fee_bps = c.fee_bps;
  recipients = recipients;
}

inner_pay :
    Service
    → SettleInput
    → ℕ
    → Answer
    → Option SettlementIntent
    → Invoice
    → List Investment
    → World
    → Option DistributorConfig
    → Result (List (String × ℕ))
    → Phase × World
inner_pay service input proceeds a n invoice vs w none recipients =
    (failed (service_error distributor_configuration_missing 400), w)
inner_pay service input proceeds a n invoice vs w (some c) (err e) = (failed e, w)
inner_pay service input proceeds a n invoice vs w (some c) (ok rs) =
    let w' = submit (inner_payout_of service input proceeds invoice rs c) w in
    elim a.inner_payout [
      | none ↦ (failed (service_error payout_failed 500), w')
      | some h ↦
          written w' (write_settlement service input proceeds a.now n (some h) invoice vs w'.db)
    ]

finish_loaded :
    Service
    → SettleInput
    → ℕ
    → Answer
    → Option SettlementIntent
    → Option String
    → World
    → Result (Invoice × List Investment)
    → Phase × World
unfolding inner_pay
finish_loaded service input proceeds a n hash w (err e) = (failed e, w)
finish_loaded service input proceeds a n hash w (ok (invoice, vs)) =
    if service.has_distributor && not (truthy hash)
    then inner_pay service input proceeds a n invoice vs w service.config (
        recipients_of w.db (sum_by (λ v. v.investment_amount) vs)
          (sub_ℕ proceeds (fee_with service.config proceeds)) vs)
    else written w (write_settlement service input proceeds a.now n hash invoice vs w.db)

finish :
    Service
    → SettleInput
    → ℕ
    → Answer
    → Option (SettlementIntent × IntentPayload)
    → Option String
    → World
    → Phase × World
unfolding finish_loaded
finish service input proceeds a np distribution_hash w =
    finish_loaded service input proceeds a (intent_part np)
      (or_else input.settlement_transaction_hash distribution_hash) w
      (load_settlement service input (payload_part np) w.db)

-- One step of a call with positive proceeds.
advance : Service → SettleInput → ℕ → Answer → Phase → World → Phase × World
unfolding start take_up after_payout finish
advance service input proceeds a started w =
    start service input proceeds w service.config service.has_distributor
advance service input proceeds a (holding n) w = take_up n n.status w
advance service input proceeds a (claimed n p) w =
    (after_payout n p a.payout, submit (payout_of p input.invoice_id) w)
advance service input proceeds a (paid n p hash) w =
    moved_to w (mark_settlement_distributed n.id hash w.db) (λ n'. ready (some (n', p)) (some hash))
advance service input proceeds a (ready np hash) w = finish service input proceeds a np hash w
advance service input proceeds a (done r) w = (done r, w)
advance service input proceeds a (failed e) w = (failed e, w)

settle_step_at : ℤ → Service → SettleInput → Answer → Phase → World → Phase × World
unfolding advance
settle_step_at (pos (suc p)) service input a phase w = advance service input (suc p) a phase w
settle_step_at (pos zero) service input a phase w = (failed (service_error invalid_proceeds 400), w)
settle_step_at (negsuc p) service input a phase w = (failed (service_error invalid_proceeds 400), w)

pub settle_step : Service → SettleInput → Answer → Phase → World → Phase × World
unfolding settle_step_at
settle_step service input a phase w = settle_step_at input.proceeds service input a phase w

-- Steps with the answers in turn.
pub settle_steps : Service → SettleInput → List Answer → Phase → World → Phase × World
settle_steps service input [] phase w = (phase, w)
settle_steps service input (a ∷ as') phase w =
    let (phase', w') = settle_step service input a phase w in
    settle_steps service input as' phase' w'
