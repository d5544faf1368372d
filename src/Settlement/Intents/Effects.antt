-- ===== src/Settlement/Intents/Effects.antt =====
-- What preparing, claiming and marking an intent do to the table of intents.
use ss_backend.Common.{
  ℕ, String, ◌≡◌, refl, ap, ◌∙◌, inl, inr, ◌⊎◌, Bool, Option, none, some, arith, str_eq, eq_iff,
  find_sound, All, ◌<◌, Option-cases, ok,
}
use ss_backend.Common.Checks.{>>=-eq-ok}
use ss_backend.Models.{
  Invoice, prepared, submitting, distributed, IntentPayload, SettlementIntent, Db,
}
use ss_backend.Settlement.Rows.{
  invoice_at, AreFresh, row_found, row_added, ids, Grows, Grows-same, Grows-add,
}
use ss_backend.Settlement.Intents.{
  PrepareInput, check_prepare, reuse_or_create, new_payload, new_intent, add_intent, intent_of,
  prepare_settlement_intent, save_intent, intent_by_id, claim_settlement_intent,
  mark_settlement_distributed, find_invoice,
}

find_invoice-id : (id : String) (db : Db) (v : Invoice) → find_invoice id db ≡ ok v → v.id ≡ id
find_invoice-id id db v e =
    (eq_iff v.id id).0 (find_sound (λ r. str_eq r.id id) db.invoices v (ground arith))

check_prepare-id :
    (input : PrepareInput) (db : Db) (v : Invoice)
    → check_prepare input db ≡ ok v
    → find_invoice input.invoice_id db ≡ ok v
unfolding check_prepare
check_prepare-id input db v e = ground arith

-- A reused intent changes nothing, and a new one is made only if the invoice has none.
pub reuse_or_create_cases :
    (before : String → String → Bool) (input : PrepareInput) (db : Db) (v : Invoice)
    (o : Option SettlementIntent) (n : SettlementIntent) (db' : Db)
    → reuse_or_create before input db v o ≡ ok (n, db')
    → ((o ≡ some n) × (db' ≡ db))
      ⊎ ((o ≡ none)
          × (p : IntentPayload) × (new_payload before input v db ≡ ok p)
          × (n ≡ new_intent v p db)
          × (db' ≡ add_intent n db))
unfolding reuse_or_create
reuse_or_create_cases before input db v (some m) n db' e = inl (ground arith, ground arith)
reuse_or_create_cases before input db v none n db' e =
    let (p, made, same) = >>=-eq-ok (new_payload before input v db) _ e in
    inr (refl, p, made, ground arith, ground arith)

-- A returned intent is a row of the invoice that was asked for, and no payout is claimed by it.
pub record Prepares (before : String → String → Bool) (input : PrepareInput) (db : Db)
    (n : SettlementIntent) (db' : Db) : Type 0 where
  pub row : AreFresh db → invoice_at n.id db'.intents ≡ some input.invoice_id
  pub grows : (i : String) → Grows i 0 db db'

pub prepare-Prepares :
    (before : String → String → Bool) (input : PrepareInput) (db : Db) (n : SettlementIntent)
    (db' : Db)
    → prepare_settlement_intent before input db ≡ ok (n, db')
    → Prepares before input db n db'
unfolding prepare_settlement_intent
prepare-Prepares before input db n db' e =
    let (v, checked, made) = >>=-eq-ok (check_prepare input db) _ e in
    let same = find_invoice-id input.invoice_id db v (check_prepare-id input db v checked) in
    elim (reuse_or_create_cases before input db v (intent_of v.id db) n db' made) [
      | inl (old, q) ↦ record {
        row = λ f. rw (q, ← same) (row_found v.id db.intents n f.distinct old);
        grows = λ i. Grows-same i db db' (ap (λ d. d.intents) q) (ap (λ d. d.next_id) q);
      }
      | inr (fresh, p, _, new, q) ↦ record {
        row = λ f.
            let here : n.id ≡ db.next_id = ap (λ m. m.id) new in
            let whose : n.invoice_id ≡ input.invoice_id = ap (λ m. m.invoice_id) new ∙ same in
            let below : All (λ k. k < n.id) (ids db.intents) = rw here f.drawn in
            rw q (row_added db.intents n below ∙ ap some whose);
        grows = λ i.
            Grows-add i n db db' (rw new fresh) (rw new) (rw new) (ap (λ d. d.intents) q)
              (ap (λ d. d.next_id) q);
      }
    ]

-- A claim is of a prepared row, which is then submitting.
pub record Claims (id : ℕ) (db : Db) (n : SettlementIntent) (db' : Db) : Type 0 where
  pub old : SettlementIntent
  pub read : intent_by_id id db ≡ some old
  pub was : old.status ≡ prepared
  pub now : n ≡ record old { status = submitting }
  pub written : db' ≡ save_intent n db

pub claim-Claims :
    (id : ℕ) (db : Db) (n : SettlementIntent) (db' : Db)
    → claim_settlement_intent id db ≡ ok (n, db')
    → Claims id db n db'
unfolding claim_settlement_intent
claim-Claims id db n db' e = elim (Option-cases (intent_by_id id db)) [
  | inl q ↦ absurd (ground arith)
  | inr (m, q) ↦ record {
    old = m;
    read = q;
    was = ground arith;
    now = ground arith;
    written = ground arith;
  }
]

pub record Marks (id : ℕ) (hash : String) (db : Db) (n : SettlementIntent) (db' : Db) : Type 0 where
  pub old : SettlementIntent
  pub read : intent_by_id id db ≡ some old
  pub was : old.status ≡ submitting
  pub now : n ≡ record old { status = distributed; transaction_hash = some hash }
  pub written : db' ≡ save_intent n db

pub mark-Marks :
    (id : ℕ) (hash : String) (db : Db) (n : SettlementIntent) (db' : Db)
    → mark_settlement_distributed id hash db ≡ ok (n, db')
    → Marks id hash db n db'
unfolding mark_settlement_distributed
mark-Marks id hash db n db' e = elim (Option-cases (intent_by_id id db)) [
  | inl q ↦ absurd (ground arith)
  | inr (m, q) ↦ record {
    old = m;
    read = q;
    was = ground arith;
    now = ground arith;
    written = ground arith;
  }
]
