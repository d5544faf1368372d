-- ===== src/Settlement/Finish/Solvent.antt =====
-- A payout made inside the last transaction pays out no more than the proceeds, and the transaction
-- leaves the payloads of the intents alone.
use ss_backend.Common.{
  ℕ, suc, ◌+◌, ◌*◌, ◌/◌, ◌≤◌, ◌<◌, ltb, Bool, ℤ, pos, sub_ℕ, String, ◌≡◌, ◌≢◌, refl, ap, ◌∙◌, inl,
  inr, false, Option, none, some, List, [], ◌∷◌, arith, sum_by, All, find-All, upsert-All, ◌==◌,
  Option-cases, Bool-cases, ◌&&◌, ok,
}
use ss_backend.Common.Checks.{>>=-eq-ok}
use ss_backend.Models.{Invoice, Investment, IntentPayload, completed, SettlementIntent, Db}
use ss_backend.Invoice.Machine.History.{transition-Moves}
use ss_backend.Settlement.Returns.{compute_investor_return, fee_of}
use ss_backend.Settlement.Intents.{stroop_factor, intent_by_id, save_intent}
use ss_backend.Settlement.Intents.Solvent.{stroops, fits, returns_when}
use ss_backend.Settlement.Finish.{
  Service, SettleInput, SettleResult, Payout, recipients_of, load_settlement, complete_intent,
  is_distributed, same_hash, write_settlement, book_all, move_settled, book_transaction,
  is_empty_list,
}
use ss_backend.Settlement.Finish.Effects.{book_shares-SameIntents, book_transaction-SameIntents}

abbrev pub total_paid : List (String × ℕ) → ℕ
total_paid = sum_by (λ r. r.1)

-- The fee that `distributePayouts` (src/services/stellar/payment-distributor-contract.service.ts) takes of
-- a total in stroops, and what it asks of the recipients before it submits.
abbrev pub protocol_fee : ℕ → ℕ → ℕ
protocol_fee total fee_bps = total * fee_bps / 10_000

unfoldable pub exceeds_total : Payout → Bool
exceeds_total x =
    ltb x.total_amount (total_paid x.recipients + protocol_fee x.total_amount x.fee_bps)

-- The returns and the fee that settlement reserves, which it takes of the proceeds in whole 0.0001
-- units, fit into the total; with the fee in stroops they are less than one such unit above it.
pub record IsSolventPayout (x : Payout) : Type 0 where
  pub proceeds : ℕ
  pub total : x.total_amount ≡ proceeds * stroop_factor
  pub enough : total_paid x.recipients + fee_of proceeds x.fee_bps * stroop_factor ≤ x.total_amount
  pub nearly :
      total_paid x.recipients + protocol_fee x.total_amount x.fee_bps
      < x.total_amount + stroop_factor

pub nearly_fits :
    (paid p bps : ℕ)
    → paid + fee_of p bps * stroop_factor ≤ p * stroop_factor
    → paid + protocol_fee (p * stroop_factor) bps < p * stroop_factor + stroop_factor
nearly_fits paid p bps h =
    let same : p * stroop_factor * bps ≡ p * bps * stroop_factor = omega arith in
    rw same (omega arith)

recipients_total :
    (db : Db) (t d : ℕ) (vs : List Investment) (rs : List (String × ℕ))
    → recipients_of db (suc t) (pos d) vs ≡ ok rs
    → total_paid rs ≡ stroops t d vs
unfolding recipients_of compute_investor_return
recipients_total db t d [] rs e = ground arith
recipients_total db t d (v ∷ vs) rs e =
    let (rest, inner, last) = >>=-eq-ok (recipients_of db (suc t) (pos d) vs) _ e in
    ground (arith, recipients_total db t d vs rest inner)

recipients_when :
    (db : Db) (total : ℕ) (z : ℤ) (v : Investment) (vs : List Investment) (rs : List (String × ℕ))
    → recipients_of db total z (v ∷ vs) ≡ ok rs
    → (t : ℕ) × (d : ℕ) × (total ≡ suc t) × (z ≡ pos d)
unfolding recipients_of
recipients_when db total z v vs rs e =
    let (r, first, _) =
      >>=-eq-ok (compute_investor_return (pos v.investment_amount) (pos total) z) _ e in
    let (t, d, p, q, _) = returns_when v.investment_amount total z r first in (t, d, p, q)

pub recipients_fit :
    (db : Db) (p bps : ℕ) (vs : List Investment) (rs : List (String × ℕ))
    → vs ≢ []
    → recipients_of db (sum_by (λ v. v.investment_amount) vs) (sub_ℕ p (fee_of p bps)) vs ≡ ok rs
    → total_paid rs + fee_of p bps * stroop_factor ≤ p * stroop_factor
recipients_fit db p bps [] rs ne e = absurd (ne refl)
recipients_fit db p bps (v ∷ vs) rs ne e =
    let (t, d, q, s) = recipients_when db _ _ v vs rs e in
    let same = recipients_total db t d (v ∷ vs) rs (rw (q, s) at e) in
    rw same (fits p bps t d (v ∷ vs) q s)

not_empty : (vs : List Investment) → is_empty_list vs ≡ false → vs ≢ []
not_empty [] e q = cc
not_empty (v ∷ vs) e q = cc

-- A loaded invoice has investments.
pub load_settlement-backed :
    (service : Service) (input : SettleInput) (o : Option IntentPayload) (db : Db) (v : Invoice)
    (vs : List Investment)
    → load_settlement service input o db ≡ ok (v, vs)
    → vs ≢ []
unfolding load_settlement
load_settlement-backed service input o db v vs e = not_empty vs (ground arith)

-- Whatever holds of all stored payloads still holds after the transaction.
module _ (P : IntentPayload → Type 0) where
  complete_intent-All :
      (o : Option SettlementIntent) (hash : Option String) (db db' : Db)
      → complete_intent o hash db ≡ ok db'
      → All (λ n. P n.payload) db.intents
      → All (λ n. P n.payload) db'.intents
  unfolding complete_intent
  complete_intent-All none hash db db' e all = let same : db ≡ db' = cc in rw (← same) all
  complete_intent-All (some n) hash db db' e all = elim (Option-cases (intent_by_id n.id db)) [
    | inl q ↦ absurd (ground arith)
    | inr (m, q) ↦
        elim (Bool-cases (is_distributed m.status && same_hash m.transaction_hash hash)) [
          | inl t ↦
              let same : db' ≡ save_intent (record m { status = completed }) db = ground arith in
              rw same (
                upsert-All (λ x. P x.payload) _ _ db.intents all
                  (find-All (λ x. P x.payload) (λ x. x.id == n.id) db.intents m all q))
          | inr t ↦ absurd (ground arith)
        ]
  ]

  pub write_settlement-All :
      (service : Service) (input : SettleInput) (p now : ℕ) (o : Option SettlementIntent)
      (hash : Option String) (v : Invoice) (vs : List Investment) (db db' : Db) (r : SettleResult)
      → write_settlement service input p now o hash v vs db ≡ ok (r, db')
      → All (λ n. P n.payload) db.intents
      → All (λ n. P n.payload) db'.intents
  unfolding write_settlement
  write_settlement-All service input p now o hash v vs db db' r e all =
      let (booked, b, e1) = >>=-eq-ok (book_all service p hash v vs db) _ e in
      let (moved, m, e2) = >>=-eq-ok (move_settled service input p now v booked.0 booked.1) _ e1 in
      let (last, c, e3) = >>=-eq-ok (complete_intent o hash moved.1) _ e2 in
      let shares =
        book_shares-SameIntents v.id _ _ vs (book_transaction v p hash db) booked.1 booked.0 b in
      let paid = book_transaction-SameIntents v p hash db in
      let written = (transition-Moves _ _ _ _ _ _ _ m).written in
      let same : moved.1.intents ≡ db.intents =
        ap (λ d. d.intents) written ∙ shares.rows ∙ paid.rows in
      let end : last ≡ db' = cc e3 in
      rw (← end) (complete_intent-All o hash moved.1 last c (rw same all))
