-- ===== src/Settlement/Saga/Solvency.antt =====
-- Every payout that any settlement call submits is covered by the proceeds.
use ss_backend.Common.{
  ℕ, zero, suc, ℤ, pos, negsuc, sub_ℕ, String, ◌≡◌, ◌≢◌, refl, inl, inr, Bool, true, false, not,
  ◌&&◌, Option, none, some, List, [], ◌∷◌, map, arith, sum_by, All, All-append, All-left, All-right,
  find-All, upsert-All, truthy, or_else, Option-cases, Bool-cases, Result, ok, err, Result-cases,
}
use ss_backend.Models.{
  Invoice, Investment, IntentStatus, prepared, submitting, distributed, completed, IntentInvestment,
  IntentPayload, SettlementIntent, Db,
}
use ss_backend.Settlement.Intents.{
  prepare_settlement_intent, claim_settlement_intent, mark_settlement_distributed,
}
use ss_backend.Settlement.Intents.Effects.{claim-Claims, mark-Marks}
use ss_backend.Settlement.Intents.Solvent.{IsSolvent, prepare-IsSolvent}
use ss_backend.Settlement.Finish.{
  DistributorConfig, Service, SettleInput, Payout, recipients_of, load_settlement, fee_with,
  write_settlement,
}
use ss_backend.Settlement.Finish.Solvent.{
  total_paid, IsSolventPayout, nearly_fits, recipients_fit, load_settlement-backed,
  write_settlement-All,
}
use ss_backend.Settlement.Saga.{
  World, Phase, started, holding, claimed, paid, ready, done, failed, Answer, payout_of, moved_to,
  start, take_up, submit, after_payout, inner_pay, inner_payout_of, finish_loaded, advance,
  settle_step_at, settle_step, intent_part, payload_part, prepare_input, written,
}
use ss_backend.Settlement.Saga.Race.{Race, Turn, arrive, step, Turns, here, then}

abbrev HoldsSolvent : Phase → Type 0
HoldsSolvent (holding n) = IsSolvent n.payload
HoldsSolvent (claimed n p) = IsSolvent p
HoldsSolvent _ = Unit

-- The stored payloads and the submitted payouts are solvent.
pub record IsSolventWorld (w : World) : Type 0 where
  pub stored : All (λ n. IsSolvent n.payload) w.db.intents
  pub submitted : All IsSolventPayout w.payouts

abbrev StaysSolvent : Phase × World → Type 0
StaysSolvent (phase, w) = HoldsSolvent phase × IsSolventWorld w

total_paid-map :
    (ns : List IntentInvestment)
    → total_paid (map (λ v. (v.recipient_address, v.return_amount_stroops)) ns)
      ≡ sum_by (λ n. n.return_amount_stroops) ns
total_paid-map [] = refl
total_paid-map (n ∷ ns) = omega (arith, total_paid-map ns)

submit-IsSolvent :
    (x : Payout) (w : World) → IsSolventPayout x → IsSolventWorld w → IsSolventWorld (submit x w)
submit-IsSolvent x w s g = record {
  stored = g.stored;
  submitted = All-append IsSolventPayout w.payouts (x ∷ []) g.submitted (s, tt);
}

wrote :
    (w : World) (db' : Db)
    → All (λ n. IsSolvent n.payload) db'.intents
    → IsSolventWorld w
    → IsSolventWorld (record w { db = db' })
wrote w db' all g = record { stored = all; submitted = g.submitted }

payout_of-IsSolvent :
    (p : IntentPayload) (i : String) → IsSolvent p → IsSolventPayout (payout_of p i)
payout_of-IsSolvent p i s = record {
  proceeds = p.proceeds;
  total = refl;
  enough = rw total_paid-map s;
  nearly = rw total_paid-map (nearly_fits _ p.proceeds p.fee_bps s);
}

module _ (service : Service) (input : SettleInput) where
  start_solvent :
      (p : ℕ) (w : World) (o : Option DistributorConfig) (b : Bool)
      → IsSolventWorld w
      → StaysSolvent (start service input p w o b)
  unfolding start
  start_solvent p w o false g = (tt, g)
  start_solvent p w none true g = (tt, g)
  start_solvent p w (some c) true g =
      elim (Result-cases
        (prepare_settlement_intent service.before (prepare_input input p c) w.db)) [
          | inl (e, q) ↦ rw q (tt, g)
          | inr ((n, db'), q) ↦
              let (mine, all) =
                prepare-IsSolvent service.before (prepare_input input p c) w.db n db' q g.stored in
              rw q (mine, wrote w db' all g)
        ]

  take_up_solvent :
      (n : SettlementIntent) (s : IntentStatus) (w : World)
      → IsSolvent n.payload
      → IsSolventWorld w
      → StaysSolvent (take_up n s w)
  unfolding take_up
  take_up_solvent n submitting w h g = (tt, g)
  take_up_solvent n completed w h g = (tt, g)
  take_up_solvent n distributed w h g = elim (Bool-cases (truthy n.transaction_hash)) [
    | inl t ↦ rw t (tt, g)
    | inr t ↦ rw t (tt, g)
  ]
  take_up_solvent n prepared w h g = elim (Result-cases (claim_settlement_intent n.id w.db)) [
    | inl (e, q) ↦ rw q (tt, g)
    | inr ((m, db'), q) ↦
        let c = claim-Claims n.id w.db m db' q in
        let old = find-All (λ x. IsSolvent x.payload) _ w.db.intents c.old g.stored c.read in
        rw (q, c.written)
          (
            h,
            wrote w _
                (upsert-All (λ x. IsSolvent x.payload) _ m w.db.intents g.stored (rw c.now old)) g,
          )
  ]

  after_payout_holds :
      (n : SettlementIntent) (p : IntentPayload) (o : Option String)
      → HoldsSolvent (after_payout n p o)
  unfolding after_payout
  after_payout_holds n p none = tt
  after_payout_holds n p (some h) = tt

  mark_solvent :
      (n : SettlementIntent) (p : IntentPayload) (hash : String) (w : World)
      → IsSolventWorld w
      → StaysSolvent (
          moved_to w
            (mark_settlement_distributed n.id hash w.db)
            (λ n'. ready (some (n', p)) (some hash)))
  mark_solvent n p hash w g = elim (Result-cases (mark_settlement_distributed n.id hash w.db)) [
    | inl (e, q) ↦ rw q (tt, g)
    | inr ((m, db'), q) ↦
        let c = mark-Marks n.id hash w.db m db' q in
        let old = find-All (λ x. IsSolvent x.payload) _ w.db.intents c.old g.stored c.read in
        rw (q, c.written)
          (
            tt,
            wrote w _
                (upsert-All (λ x. IsSolvent x.payload) _ m w.db.intents g.stored (rw c.now old)) g,
          )
  ]

  books_solvent :
      (p now : ℕ) (n : Option SettlementIntent) (hash : Option String) (v : Invoice)
      (vs : List Investment) (w : World)
      → IsSolventWorld w
      → StaysSolvent (written w (write_settlement service input p now n hash v vs w.db))
  books_solvent p now n hash v vs w g =
      elim (Result-cases (write_settlement service input p now n hash v vs w.db)) [
        | inl (e, q) ↦ rw q (tt, g)
        | inr ((r, db'), q) ↦ rw q (
          tt,
          wrote w db'
              (write_settlement-All IsSolvent service input p now n hash v vs w.db db' r q g.stored)
              g,
        )
      ]

  inner_solvent :
      (p : ℕ) (a : Answer) (n : Option SettlementIntent) (v : Invoice) (vs : List Investment)
      (w : World) (c : DistributorConfig) (r : Result (List (String × ℕ)))
      → ((rs : List (String × ℕ))
          → r ≡ ok rs
          → IsSolventPayout (inner_payout_of service input p v rs c))
      → IsSolventWorld w
      → StaysSolvent (inner_pay service input p a n v vs w (some c) r)
  unfolding inner_pay
  inner_solvent p a n v vs w c (err e) h g = (tt, g)
  inner_solvent p a n v vs w c (ok rs) h g =
      let g' = submit-IsSolvent (inner_payout_of service input p v rs c) w (h rs refl) g in
      elim (Option-cases a.inner_payout) [
        | inl q ↦ rw q (tt, g')
        | inr (x, q) ↦ rw q (books_solvent p a.now n (some x) v vs _ g')
      ]

  config_solvent :
      (p : ℕ) (a : Answer) (n : Option SettlementIntent) (v : Invoice) (vs : List Investment)
      (w : World) (o : Option DistributorConfig)
      → vs ≢ []
      → IsSolventWorld w
      → StaysSolvent (
          inner_pay service input p a n v vs w o
            (recipients_of w.db (sum_by (λ x. x.investment_amount) vs) (sub_ℕ p (fee_with o p)) vs))
  unfolding inner_pay
  config_solvent p a n v vs w none ne g = (tt, g)
  config_solvent p a n v vs w (some c) ne g =
      inner_solvent p a n v vs w c _
        (λ rs e. record {
          proceeds = p;
          total = refl;
          enough = recipients_fit w.db p c.fee_bps vs rs ne e;
          nearly = nearly_fits _ p c.fee_bps (recipients_fit w.db p c.fee_bps vs rs ne e);
        })
        g

  loaded_solvent :
      (p : ℕ) (a : Answer) (n : Option SettlementIntent) (hash : Option String) (w : World)
      (r : Result (Invoice × List Investment))
      → ((v : Invoice) (vs : List Investment) → r ≡ ok (v, vs) → vs ≢ [])
      → IsSolventWorld w
      → StaysSolvent (finish_loaded service input p a n hash w r)
  unfolding finish_loaded
  loaded_solvent p a n hash w (err e) h g = (tt, g)
  loaded_solvent p a n hash w (ok (v, vs)) h g =
      elim (Bool-cases (service.has_distributor && not (truthy hash))) [
        | inl t ↦ rw t (config_solvent p a n v vs w service.config (h v vs refl) g)
        | inr t ↦ rw t (books_solvent p a.now n hash v vs w g)
      ]

  advance_solvent :
      (p : ℕ) (a : Answer) (phase : Phase) (w : World)
      → HoldsSolvent phase
      → IsSolventWorld w
      → StaysSolvent (advance service input p a phase w)
  unfolding advance
  advance_solvent p a started w h g = start_solvent p w service.config service.has_distributor g
  advance_solvent p a (holding n) w h g = take_up_solvent n n.status w h g
  advance_solvent p a (claimed n q) w h g = (
    after_payout_holds n q a.payout,
    submit-IsSolvent (payout_of q input.invoice_id) w (payout_of-IsSolvent q input.invoice_id h) g,
  )
  advance_solvent p a (paid n q hash) w h g = mark_solvent n q hash w g
  advance_solvent p a (ready np hash) w h g =
      loaded_solvent p a (intent_part np) (or_else input.settlement_transaction_hash hash) w
        (load_settlement service input (payload_part np) w.db)
        (λ v vs e. load_settlement-backed service input (payload_part np) w.db v vs e) g
  advance_solvent p a (done r) w h g = (tt, g)
  advance_solvent p a (failed e) w h g = (tt, g)

  step_at_solvent :
      (z : ℤ) (a : Answer) (phase : Phase) (w : World)
      → HoldsSolvent phase
      → IsSolventWorld w
      → StaysSolvent (settle_step_at z service input a phase w)
  unfolding settle_step_at
  step_at_solvent (pos zero) a phase w h g = (tt, g)
  step_at_solvent (pos (suc p)) a phase w h g = advance_solvent (suc p) a phase w h g
  step_at_solvent (negsuc p) a phase w h g = (tt, g)

  step_solvent :
      (a : Answer) (phase : Phase) (w : World)
      → HoldsSolvent phase
      → IsSolventWorld w
      → StaysSolvent (settle_step service input a phase w)
  unfolding settle_step
  step_solvent a phase w h g = step_at_solvent input.proceeds a phase w h g

record IsSolventRace (r : Race) : Type 0 where
  world : IsSolventWorld r.world
  calls : All (λ c. HoldsSolvent c.phase) r.calls

Turn-solvent :
    (service : Service) (r r' : Race) → Turn service r r' → IsSolventRace r → IsSolventRace r'
Turn-solvent service r r' (arrive input h e) g =
    rw e (record { world = g.world; calls = (tt, g.calls) })
Turn-solvent service r r' (step before after c a h e w cs) g =
    let known = rw e at g.calls in
    let mine = All-right (λ x. HoldsSolvent x.phase) before (c ∷ after) known in
    let (holds, good) = step_solvent service c.input a c.phase r.world mine.0 g.world in
    record {
      world = rw w good;
      calls = rw cs (
          All-append (λ x. HoldsSolvent x.phase) before _
            (All-left (λ x. HoldsSolvent x.phase) before (c ∷ after) known) (holds, mine.1));
    }

Turns-solvent :
    (service : Service) {r r' : Race} → Turns service r r' → IsSolventRace r → IsSolventRace r'
Turns-solvent service here g = g
Turns-solvent service (then ts t) g = Turn-solvent service _ _ t (Turns-solvent service ts g)

-- However calls of `settleInvoice` arrive, retry and interleave, with a distributor or without, every
-- payout that is submitted has returns that fit into its total together with the fee as settlement
-- reserves it, which is in whole 0.0001 units, and that together with the fee in stroops, which the
-- distributor takes, are less than 1000 stroops above it; provided that the payloads stored at the
-- start leave room for the reserved fee, and that the payouts submitted by then are of this kind.
pub payouts_solvent :
    (service : Service) (w : World) (r : Race)
    → IsSolventWorld w
    → Turns service (record { world = w; calls = [] }) r
    → All IsSolventPayout r.world.payouts
payouts_solvent service w r g turns =
    (Turns-solvent service turns (record { world = g; calls = tt })).world.submitted
