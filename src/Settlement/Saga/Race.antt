-- ===== src/Settlement/Saga/Race.antt =====
-- Calls of `settleInvoice` that run at the same time, retries included: any call may take its next
-- step at any moment.
use ss_backend.Common.{
  ℕ, ◌+◌, ◌≤◌, String, ◌≡◌, true, some, List, [], ◌∷◌, ◌++◌, arith, sum_by, sum_by-append, All,
  All-append, All-left, All-right,
}
use ss_backend.Models.{Db}
use ss_backend.Settlement.Rows.{rows_of, claims_of, claims-le-rows, invoice_at, AreFresh}
use ss_backend.Settlement.Finish.{Service, SettleInput}
use ss_backend.Settlement.Saga.{World, Phase, started, Answer, settle_step}
use ss_backend.Settlement.Saga.Steps.{
  calls_of, due_for, IsHash, IsSound, Advances, settle_step-Advances,
}

pub record Call : Type 0 where
  pub input : SettleInput
  pub phase : Phase

pub record Race : Type 0 where
  pub world : World
  pub calls : List Call

-- A call arrives, or one of the calls takes a step with an answer of the environment. The hash that
-- a payout or a caller gives is never the empty text.
pub data Turn (service : Service) (r r' : Race) : Type 0 where
  arrive :
      (input : SettleInput)
      → IsHash input.settlement_transaction_hash
      → r' ≡ record r { calls = record { input = input; phase = started } ∷ r.calls }
      → Turn service r r'
  step :
      (before after : List Call) (c : Call) (a : Answer)
      → IsHash a.payout
      → r.calls ≡ before ++ (c ∷ after)
      → r'.world ≡ (settle_step service c.input a c.phase r.world).1
      → r'.calls
        ≡ before ++ (record c { phase = (settle_step service c.input a c.phase r.world).0 } ∷ after)
      → Turn service r r'

pub data Turns (service : Service) (r : Race) : Race → Type 0 where
  here : Turns service r r
  then : {s t : Race} → Turns service r s → Turn service s t → Turns service r t

abbrev due : String → Call → ℕ
due i c = due_for i c.input c.phase

abbrev IsKnown : Db → Call → Type 0
IsKnown db c = IsHash c.input.settlement_transaction_hash × IsSound c.input c.phase db

-- The payouts of an invoice, submitted or due, are covered by its claimed intents, and it has at
-- most one intent.
pub record IsCovered (i : String) (r : Race) : Type 0 where
  pub covered : calls_of i r.world.payouts + sum_by (due i) r.calls ≤ claims_of i r.world.db.intents
  pub one_row : rows_of i r.world.db.intents ≤ 1
  pub fresh : AreFresh r.world.db
  pub known : All (IsKnown r.world.db) r.calls

-- A sound phase stays sound while others write.
IsSound-keeps :
    (input : SettleInput) (phase : Phase) (db db' : Db)
    → ((k : ℕ) (j : String) → invoice_at k db.intents ≡ some j → invoice_at k db'.intents ≡ some j)
    → IsSound input phase db
    → IsSound input phase db'
IsSound-keeps input (Phase.holding n) db db' f s = f n.id input.invoice_id s
IsSound-keeps input started db db' f s = s
IsSound-keeps input _ db db' f s = s

All-keep :
    (cs : List Call) (db db' : Db)
    → ((k : ℕ) (j : String) → invoice_at k db.intents ≡ some j → invoice_at k db'.intents ≡ some j)
    → All (IsKnown db) cs
    → All (IsKnown db') cs
All-keep [] db db' f a = tt
All-keep (c ∷ cs) db db' f ((h, s), a) =
    ((h, IsSound-keeps c.input c.phase db db' f s), All-keep cs db db' f a)

race_eq :
    (r : Race) (w : World) (cs : List Call)
    → r.world ≡ w
    → r.calls ≡ cs
    → r ≡ record { world = w; calls = cs }
race_eq r w cs p q = cc

module _ (service : Service) (distributor : service.has_distributor ≡ true) (i : String) where
  after_step :
      (before after : List Call) (c : Call) (phase' : Phase) (w' w : World)
      → Advances i c.input c.phase w phase' w'
      → calls_of i w.payouts + sum_by (due i) (before ++ (c ∷ after)) ≤ claims_of i w.db.intents
      → All (IsKnown w.db) (before ++ (c ∷ after))
      → rows_of i w.db.intents ≤ 1
      → AreFresh w.db
      → IsCovered i (record { world = w'; calls = before ++ (record c { phase = phase' } ∷ after) })
  after_step before after c phase' w' w adv budget known one fresh =
      let left = All-left (IsKnown w.db) before (c ∷ after) known in
      let right = All-right (IsKnown w.db) before (c ∷ after) known in
      record {
        covered = omega (
          arith,
          adv.budget,
          sum_by-append (due i) before (c ∷ after),
          sum_by-append (due i) before (record c { phase = phase' } ∷ after),
        );
        one_row = adv.rows one;
        fresh = adv.fresh fresh;
        known =
            All-append (IsKnown w'.db) before (record c { phase = phase' } ∷ after)
              (All-keep before w.db w'.db adv.found left)
              ((right.0.0, adv.sound fresh right.0.1), All-keep after w.db w'.db adv.found right.1);
      }

  Turn-IsCovered : (r r' : Race) → Turn service r r' → IsCovered i r → IsCovered i r'
  Turn-IsCovered r r' (arrive input h e) v = rw e (record {
    covered = ground (arith, v.covered);
    one_row = v.one_row;
    fresh = v.fresh;
    known = ((h, tt), v.known);
  })
  Turn-IsCovered r r' (step before after c a h e w cs) v =
      let known = rw e at v.known in
      let mine = All-right (IsKnown r.world.db) before (c ∷ after) known in
      let adv =
        settle_step-Advances i c.input service a distributor mine.0.0 h c.phase r.world mine.0.1 in
      rw (race_eq r' _ _ w cs)
        (after_step before after c _ _ r.world adv (rw e at v.covered) known v.one_row v.fresh)

  Turns-IsCovered : {r r' : Race} → Turns service r r' → IsCovered i r → IsCovered i r'
  Turns-IsCovered here v = v
  Turns-IsCovered (then ts t) v = Turn-IsCovered _ _ t (Turns-IsCovered ts v)

-- However calls of `settleInvoice` arrive, retry and interleave, at most one payout is ever submitted
-- for an invoice, provided that at the start none was, no call is under way, and the table holds at
-- most one intent for it under identifiers drawn once; the service has a distributor, and no hash
-- given by a caller or a payout is the empty text.
pub at_most_one_payout :
    (service : Service) (i : String) (w : World) (r : Race)
    → service.has_distributor ≡ true
    → calls_of i w.payouts ≡ 0
    → rows_of i w.db.intents ≤ 1
    → AreFresh w.db
    → Turns service (record { world = w; calls = [] }) r
    → calls_of i r.world.payouts ≤ 1
at_most_one_payout service i w r distributor none_yet one fresh turns =
    let v =
      Turns-IsCovered service distributor i turns
        (record { covered = omega arith; one_row = one; fresh = fresh; known = tt }) in
    omega (arith, v.covered, v.one_row, claims-le-rows i r.world.db.intents)
