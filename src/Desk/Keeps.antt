-- ===== src/Desk/Keeps.antt =====
-- src/services/invoice.service.ts: the terms of an invoice, and the writes that keep them.
use ss_backend.Common.{
  ℕ, String, ◌≡◌, ◌≢◌, refl, ◌∙◌, inl, inr, false, not, Option, some, List, [], ◌∷◌, str_eq, eq_iff,
  find, filter, arith, ok, Bool-cases,
}
use ss_backend.Common.Checks.{>>=-eq-ok}
use ss_backend.Models.{InvoiceStatus, draft, TransitionReason, Invoice, Db}
use ss_backend.Invoice.Rules.{TransitionActor, TransitionContext}
use ss_backend.Invoice.Machine.{entity_manager_store, transition, moved, trimmed_reason, save_row}
use ss_backend.Invoice.Machine.History.{transition-Moves}
use ss_backend.Funding.Invest.{row_of}
use ss_backend.Funding.Rows.{row_of-id, row_of-save, row_of-save_other}
use ss_backend.Desk.Publishing.{apply_transition}

pub record HasTerms (r s : Invoice) : Type 0 where
  pub seller_id : s.seller_id ≡ r.seller_id
  pub invoice_number : s.invoice_number ≡ r.invoice_number
  pub amount : s.amount ≡ r.amount
  pub discount_rate : s.discount_rate ≡ r.discount_rate
  pub net_amount : s.net_amount ≡ r.net_amount
  pub due_date : s.due_date ≡ r.due_date

-- The row of an invoice that has left draft is there, has not come back, and has the same terms.
abbrev pub Keeps : Db → Db → Type 0
Keeps db db' =
    (k : String) (r : Invoice)
    → row_of k db ≡ some r
    → r.status ≢ draft
    → (s : Invoice) × (row_of k db' ≡ some s) × (s.status ≢ draft) × HasTerms r s

pub same_terms : (r : Invoice) → HasTerms r r
same_terms r = record {
  seller_id = refl;
  invoice_number = refl;
  amount = refl;
  discount_rate = refl;
  net_amount = refl;
  due_date = refl;
}

pub Keeps-all : (db : Db) → Keeps db db
Keeps-all db k r f n = (r, f, n, same_terms r)

pub Keeps-then : (a b c : Db) → Keeps a b → Keeps b c → Keeps a c
Keeps-then a b c p q k r f n =
    let (s, f', n', t) = p k r f n in
    let (u, f'', n'', t') = q k s f' n' in
    (
      u,
      f'',
      n'',
      record {
        seller_id = t'.seller_id ∙ t.seller_id;
        invoice_number = t'.invoice_number ∙ t.invoice_number;
        amount = t'.amount ∙ t.amount;
        discount_rate = t'.discount_rate ∙ t.discount_rate;
        net_amount = t'.net_amount ∙ t.net_amount;
        due_date = t'.due_date ∙ t.due_date;
      },
    )

-- A row is written over a draft, or over one with its terms.
module _ (k : String) (v w : Invoice) (db db' : Db) (found : row_of k db ≡ some v) (same : w.id ≡ k)
    (written : db'.invoices ≡ (save_row w db).invoices) where
  pub save-Keeps : (v.status ≢ draft → (w.status ≢ draft) × HasTerms v w) → Keeps db db'
  save-Keeps h j r f n = elim (Bool-cases (str_eq k j)) [
    | inr other ↦ (r, rw written (row_of-save_other w j db (rw same other)) ∙ f, n, same_terms r)
    | inl here ↦
        let at_j = (eq_iff k j).0 here in
        let old : v ≡ r = one (rw at_j at found) f in
        let (m, t) = h (rw old n) in
        (w, rw written (row_of-save w j db (same ∙ at_j)), m, rw (← old) t)
  ]
    where
      one : {o : Option Invoice} {a b : Invoice} → o ≡ some a → o ≡ some b → a ≡ b
      one p q = cc

pub apply-Keeps :
    (now : ℕ) (k : String) (i : Invoice) (to : InvoiceStatus) (a : TransitionActor)
    (t : TransitionReason) (c : TransitionContext) (db db' : Db) (i' : Invoice)
    → to ≢ draft
    → row_of k db ≡ some i
    → apply_transition now i to a t c db ≡ ok (i', db')
    → Keeps db db'
unfolding apply_transition
apply-Keeps now k i to a t c db db' i' leaves found e =
    let ((tr, last), e0, e1) = >>=-eq-ok (transition entity_manager_store now i to a t c db) _ e in
    let m = transition-Moves now i to a t c db e0 in
    let same : last ≡ db' = cc e1 in
    rw (← same) (
      save-Keeps k i (moved i to (trimmed_reason c.reason)) db last found (row_of-id k db i found)
        (rw (m.written, m.saved) refl)
        (λ _. (
          leaves,
          record {
            seller_id = refl;
            invoice_number = refl;
            amount = refl;
            discount_rate = refl;
            net_amount = refl;
            due_date = refl;
          },
        )))

pub find-without :
    (k x : String) (rs : List Invoice)
    → str_eq x k ≡ false
    → find (λ r. str_eq r.id k) (filter (λ r. not (str_eq r.id x)) rs)
      ≡ find (λ r. str_eq r.id k) rs
find-without k x [] e = refl
find-without k x (r ∷ rs) e = ground (arith, find-without k x rs e, eq_iff r.id x)
