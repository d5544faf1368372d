-- ===== src/Settlement/Saga/Steps.antt =====
-- One step of a settlement call: what it does to the payouts and to the claims of an invoice.
use mathlib.Core.Path.{subst}
use ss_backend.Common.{
  ℕ, zero, suc, ◌+◌, ◌≤◌, ◌==◌, ℤ, pos, negsuc, String, ◌≡◌, refl, sym, ap, ◌∙◌, inl, inr, Bool,
  true, false, not, ◌&&◌, Option, none, some, List, arith, count, count-append, str_eq, find,
  truthy, or_else, if◌then◌else◌, Bool-cases, Result, ok, err, Result-cases,
}
use ss_backend.Models.{
  Invoice, Investment, IntentStatus, prepared, submitting, distributed, completed, IntentPayload,
  SettlementIntent, Db,
}
use ss_backend.Settlement.Rows.{
  rows_of, claims_of, invoice_at, AreFresh, Grows, Grows-save, gain, find_own,
}
use ss_backend.Settlement.Intents.{
  prepare_settlement_intent, claim_settlement_intent, mark_settlement_distributed,
}
use ss_backend.Settlement.Intents.Effects.{prepare-Prepares, claim-Claims, mark-Marks}
use ss_backend.Settlement.Finish.{
  Service, SettleInput, Payout, SettleResult, DistributorConfig, load_settlement, write_settlement,
}
use ss_backend.Settlement.Finish.Effects.{write-Grows}
use ss_backend.Settlement.Saga.{
  World, Phase, started, holding, claimed, paid, ready, done, failed, Answer, payout_of, moved_to,
  start, take_up, submit, after_payout, finish_loaded, written, advance, settle_step_at,
  settle_step, intent_part, payload_part, prepare_input,
}

-- The payouts submitted for an invoice.
abbrev pub calls_of : String → List Payout → ℕ
calls_of i = count (λ p. str_eq p.invoice_id i)

-- A call that has claimed its payout and not yet submitted it.
abbrev pub is_due : Phase → Bool
is_due (claimed n p) = true
is_due _ = false

abbrev pub due_for : String → SettleInput → Phase → ℕ
due_for i input phase = if str_eq input.invoice_id i && is_due phase then 1 else 0

-- A hash that is not the empty text.
abbrev pub IsHash : Option String → Type 0
IsHash o = (h : String) → o ≡ some h → truthy (some h) ≡ true

-- What a phase's variables are known to be.
abbrev pub IsSound : SettleInput → Phase → Db → Type 0
IsSound input (holding n) db = invoice_at n.id db.intents ≡ some input.invoice_id
IsSound input (paid n p hash) db = truthy (some hash) ≡ true
IsSound input (ready np hash) db = truthy hash ≡ true
IsSound input _ db = Unit

pub record Advances (i : String) (input : SettleInput) (phase : Phase) (w : World) (phase' : Phase)
    (w' : World) : Type 0 where
  pub budget :
      calls_of i w'.payouts + due_for i input phase' + claims_of i w.db.intents
      ≤ calls_of i w.payouts + due_for i input phase + claims_of i w'.db.intents
  pub rows : rows_of i w.db.intents ≤ 1 → rows_of i w'.db.intents ≤ 1
  pub found :
      (k : ℕ) (j : String)
      → invoice_at k w.db.intents ≡ some j
      → invoice_at k w'.db.intents ≡ some j
  pub fresh : AreFresh w.db → AreFresh w'.db
  pub sound : AreFresh w.db → IsSound input phase w.db → IsSound input phase' w'.db

module _ (i : String) (input : SettleInput) where
  -- A step that only moves to another phase.
  stays :
      (phase phase' : Phase) (w : World)
      → due_for i input phase' ≤ due_for i input phase
      → (AreFresh w.db → IsSound input phase w.db → IsSound input phase' w.db)
      → Advances i input phase w phase' w
  stays phase phase' w d s = record {
    budget = omega arith;
    rows = λ h. h;
    found = λ k j e. e;
    fresh = λ f. f;
    sound = s;
  }

  -- A step that writes to the database and submits nothing.
  writes :
      (phase phase' : Phase) (w : World) (db' : Db) (d : ℕ)
      → Grows i d w.db db'
      → due_for i input phase' ≤ due_for i input phase + d
      → (AreFresh w.db → IsSound input phase w.db → IsSound input phase' db')
      → Advances i input phase w phase' (record w { db = db' })
  writes phase phase' w db' d g h s = record {
    budget = omega (arith, g.claims);
    rows = g.rows;
    found = g.found;
    fresh = g.fresh;
    sound = s;
  }

  not_due : (phase : Phase) → is_due phase ≡ false → due_for i input phase ≡ 0
  not_due phase e = ground arith

  start-Advances :
      (service : Service) (p : ℕ) (w : World) (o : Option DistributorConfig)
      → let (phase', w') = start service input p w o true in Advances i input started w phase' w'
  unfolding start
  start-Advances service p w none = stays started (failed _) w (ground arith) (λ _ _. tt)
  start-Advances service p w (some c) =
      elim (Result-cases
        (prepare_settlement_intent service.before (prepare_input input p c) w.db)) [
          | inl (e, q) ↦ rw q (stays started (failed e) w (ground arith) (λ _ _. tt))
          | inr ((n, db'), q) ↦
              let made = prepare-Prepares service.before (prepare_input input p c) w.db n db' q in
              rw q (
                writes started (holding n) w db' 0 (made.grows i) (ground arith)
                  (λ f _. made.row f))
        ]

  claim_gain :
      (n m : SettlementIntent) (db : Db)
      → m ≡ record n { status = submitting }
      → n.status ≡ prepared
      → n.invoice_id ≡ input.invoice_id
      → (if str_eq input.invoice_id i then 1 else 0) ≡ gain i n m
  claim_gain n m db e s q = ground arith

  take_up-Advances :
      (n : SettlementIntent) (s : IntentStatus) (w : World)
      → n.status ≡ s
      → invoice_at n.id w.db.intents ≡ some input.invoice_id
      → let (phase', w') = take_up n s w in Advances i input (holding n) w phase' w'
  unfolding take_up
  take_up-Advances n submitting w q v = stays (holding n) (failed _) w (ground arith) (λ _ _. tt)
  take_up-Advances n completed w q v = stays (holding n) (failed _) w (ground arith) (λ _ _. tt)
  take_up-Advances n distributed w q v = elim (Bool-cases (truthy n.transaction_hash)) [
    | inl t ↦ rw t (
        stays (holding n) (ready (some (n, n.payload)) n.transaction_hash) w (ground arith)
          (λ _ _. t))
    | inr t ↦ rw t (stays (holding n) (failed _) w (ground arith) (λ _ _. tt))
  ]
  take_up-Advances n prepared w q v = elim (Result-cases (claim_settlement_intent n.id w.db)) [
    | inl (e, r) ↦ rw r (stays (holding n) (failed e) w (ground arith) (λ _ _. tt))
    | inr ((m, db'), r) ↦
        let c = claim-Claims n.id w.db m db' r in
        let own : c.old.id ≡ n.id = find_own n.id w.db.intents c.old c.read in
        let whose : c.old.invoice_id ≡ input.invoice_id = ground (arith, c.read) in
        let row =
          subst (λ k. find (λ x. x.id == k) w.db.intents ≡ some c.old)
            (sym (ap (λ x. x.id) c.now ∙ own)) c.read in
        rw r (
          writes (holding n) (claimed m n.payload) w db' (gain i c.old m)
            (Grows-save i m c.old w.db db' row (ap (λ x. x.invoice_id) c.now) (rw c.now)
              (ap (λ d. d.intents) c.written) (ap (λ d. d.next_id) c.written))
            (ground (arith, claim_gain c.old m w.db c.now c.was whose)) (λ _ _. tt))
  ]

  submits :
      (n : SettlementIntent) (p : IntentPayload) (o : Option String) (w : World)
      → IsHash o
      → Advances i input
          (claimed n p)
          w
          (after_payout n p o)
          (submit (payout_of p input.invoice_id) w)
  unfolding after_payout
  submits n p none w h = record {
    budget = rw count-append (ground arith);
    rows = λ r. r;
    found = λ k j e. e;
    fresh = λ f. f;
    sound = λ _ _. tt;
  }
  submits n p (some x) w h = record {
    budget = rw count-append (ground arith);
    rows = λ r. r;
    found = λ k j e. e;
    fresh = λ f. f;
    sound = λ _ _. h x refl;
  }

  mark-Advances :
      (n : SettlementIntent) (p : IntentPayload) (hash : String) (w : World)
      → let (phase', w') =
          moved_to w
            (mark_settlement_distributed n.id hash w.db)
            (λ n'. ready (some (n', p)) (some hash)) in
        Advances i input (paid n p hash) w phase' w'
  mark-Advances n p hash w = elim (Result-cases (mark_settlement_distributed n.id hash w.db)) [
    | inl (e, r) ↦ rw r (stays (paid n p hash) (failed e) w (ground arith) (λ _ _. tt))
    | inr ((m, db'), r) ↦
        let c = mark-Marks n.id hash w.db m db' r in
        let own : c.old.id ≡ n.id = find_own n.id w.db.intents c.old c.read in
        let row =
          subst (λ k. find (λ x. x.id == k) w.db.intents ≡ some c.old)
            (sym (ap (λ x. x.id) c.now ∙ own)) c.read in
        rw r (
          writes (paid n p hash) (ready (some (m, p)) (some hash)) w db' (gain i c.old m)
            (Grows-save i m c.old w.db db' row (ap (λ x. x.invoice_id) c.now) (rw c.now)
              (ap (λ d. d.intents) c.written) (ap (λ d. d.next_id) c.written))
            (ground arith) (λ _ s. s))
  ]

  -- With a distributor and a hash at hand no second payout is made.
  finish_loaded-Advances :
      (service : Service) (p : ℕ) (a : Answer) (np : Option (SettlementIntent × IntentPayload))
      (dh hash : Option String) (w : World) (r : Result (Invoice × List Investment))
      → truthy hash ≡ true
      → let (phase', w') = finish_loaded service input p a (intent_part np) hash w r in
        Advances i input (ready np dh) w phase' w'
  unfolding finish_loaded
  finish_loaded-Advances service p a np dh hash w (err e) t =
      stays (ready np dh) (failed e) w (ground arith) (λ _ _. tt)
  finish_loaded-Advances service p a np dh hash w (ok (v, vs)) t =
      let no_inner : service.has_distributor && not (truthy hash) ≡ false = ground arith in
      rw no_inner
        (books (write_settlement service input p a.now (intent_part np) hash v vs w.db) refl)
    where
      books :
          (r : Result (SettleResult × Db))
          → write_settlement service input p a.now (intent_part np) hash v vs w.db ≡ r
          → let (phase', w') = written w r in Advances i input (ready np dh) w phase' w'
      books (err e) q = stays (ready np dh) (failed e) w (ground arith) (λ _ _. tt)
      books (ok (s, db')) q =
          writes (ready np dh) (done s) w db' 0
            (write-Grows service input p a.now (intent_part np) hash v vs w.db db' s i q)
            (ground arith) (λ _ _. tt)

  truthy_hash :
      (given known : Option String)
      → IsHash given
      → truthy known ≡ true
      → truthy (or_else given known) ≡ true
  truthy_hash none known h t = t
  truthy_hash (some x) known h t = h x refl

  module _ (service : Service) (a : Answer) (distributor : service.has_distributor ≡ true)
      (given : IsHash input.settlement_transaction_hash) (answered : IsHash a.payout) where
    advance-Advances :
        (p : ℕ) (phase : Phase) (w : World)
        → IsSound input phase w.db
        → let (phase', w') = advance service input p a phase w in Advances i input phase w phase' w'
    unfolding advance
    advance-Advances p started w s = rw distributor (start-Advances service p w service.config)
    advance-Advances p (holding n) w s = take_up-Advances n n.status w refl s
    advance-Advances p (claimed n q) w s = submits n q a.payout w answered
    advance-Advances p (paid n q hash) w s = mark-Advances n q hash w
    advance-Advances p (ready np hash) w s =
        finish_loaded-Advances service p a np hash (or_else input.settlement_transaction_hash hash)
          w (load_settlement service input (payload_part np) w.db)
          (truthy_hash input.settlement_transaction_hash hash given s)
    advance-Advances p (done r) w s = stays (done r) (done r) w (omega arith) (λ _ x. x)
    advance-Advances p (failed e) w s = stays (failed e) (failed e) w (omega arith) (λ _ x. x)

    step_at-Advances :
        (z : ℤ) (phase : Phase) (w : World)
        → IsSound input phase w.db
        → let (phase', w') = settle_step_at z service input a phase w in
          Advances i input phase w phase' w'
    unfolding settle_step_at
    step_at-Advances (pos zero) phase w s = stays phase (failed _) w (ground arith) (λ _ _. tt)
    step_at-Advances (pos (suc p)) phase w s = advance-Advances (suc p) phase w s
    step_at-Advances (negsuc p) phase w s = stays phase (failed _) w (ground arith) (λ _ _. tt)

    -- Every step keeps the payouts submitted and due within the claims.
    pub settle_step-Advances :
        (phase : Phase) (w : World)
        → IsSound input phase w.db
        → let (phase', w') = settle_step service input a phase w in
          Advances i input phase w phase' w'
    unfolding settle_step
    settle_step-Advances phase w s = step_at-Advances input.proceeds phase w s
