-- ===== src/Desk/Moves.antt =====
-- src/services/invoice.service.ts, the calls that move an invoice to another status: what they keep.
use ss_backend.Common.{
  ℕ, String, ◌≡◌, ◌≢◌, refl, ◌∙◌, sym, inl, inr, true, not, Option, some, List, [], ◌∷◌, str_eq,
  eq_iff, All, arith, Result, ok, err, Bool-cases, trim,
}
use ss_backend.Common.Checks.{throw_if, or_throw, >>=-eq-ok}
use ss_backend.Models.{draft, pending, published, rejected, status_eq, Invoice, Db}
use ss_backend.Funding.Invest.{row_of}
use ss_backend.Desk.Publishing.{
  approved_seller, seller_of, publish_invoice, submit_invoice_for_review, approve_invoice,
  reject_invoice, as_conflict,
}
use ss_backend.Desk.Batch.{unique, judge, judge_all, publish_invoices_batch}
use ss_backend.Desk.Ready.{IsReady}
use ss_backend.Desk.Published.{is_named, named-unique, publish_invoices_batch_lem}
use ss_backend.Desk.Keeps.{Keeps, same_terms, apply-Keeps}

published_not_draft : published ≢ draft
published_not_draft e = cc

pending_not_draft : pending ≢ draft
pending_not_draft e = cc

rejected_not_draft : rejected ≢ draft
rejected_not_draft e = cc

pub publish-Keeps :
    (now : ℕ) (k seller_id : String) (seen db db' : Db) (i : Invoice)
    → row_of k seen ≡ row_of k db
    → publish_invoice now k seller_id seen db ≡ ok (i, db')
    → Keeps db db'
unfolding publish_invoice
publish-Keeps now k seller_id seen db db' i fresh e =
    let (v, found, e1) = >>=-eq-ok (or_throw (row_of k seen) _) _ e in
    let (_, own, e2) = >>=-eq-ok (throw_if (not (str_eq v.seller_id seller_id)) _) _ e1 in
    let (u, known, e3) = >>=-eq-ok (approved_seller (seller_of v seen)) _ e2 in
    apply-Keeps now k v published _ _ _ db db' i published_not_draft (sym fresh ∙ ground arith) e3

pub submit-Keeps :
    (now : ℕ) (k seller_id : String) (seen db db' : Db) (i : Invoice)
    → row_of k seen ≡ row_of k db
    → submit_invoice_for_review now k seller_id seen db ≡ ok (i, db')
    → Keeps db db'
unfolding submit_invoice_for_review
submit-Keeps now k seller_id seen db db' i fresh e =
    let (v, found, e1) = >>=-eq-ok (or_throw (row_of k seen) _) _ e in
    let (_, own, e2) = >>=-eq-ok (throw_if (not (str_eq v.seller_id seller_id)) _) _ e1 in
    apply-Keeps now k v pending _ _ _ db db' i pending_not_draft (sym fresh ∙ ground arith) e2

pub approve-Keeps :
    (now : ℕ) (k : String) (actor_id : Option String) (seen db db' : Db) (i : Invoice)
    → row_of k seen ≡ row_of k db
    → approve_invoice now k actor_id seen db ≡ ok (i, db')
    → Keeps db db'
unfolding approve_invoice
approve-Keeps now k actor_id seen db db' i fresh e =
    let (v, found, e1) = >>=-eq-ok (or_throw (row_of k seen) _) _ e in
    apply-Keeps now k v published _ _ _ db db' i published_not_draft (sym fresh ∙ ground arith) e1

as_conflict_inv : (o : Result (Invoice × Db)) (x : Invoice × Db) → as_conflict o ≡ ok x → o ≡ ok x
as_conflict_inv (ok y) x e = e
as_conflict_inv (err y) x e = cc

pub reject-Keeps :
    (now : ℕ) (k reason : String) (actor_id : Option String) (seen db db' : Db) (i : Invoice)
    → row_of (trim k) seen ≡ row_of (trim k) db
    → reject_invoice now k reason actor_id seen db ≡ ok (i, db')
    → Keeps db db'
unfolding reject_invoice
reject-Keeps now k reason actor_id seen db db' i fresh e =
    let (_, a, e1) = >>=-eq-ok (throw_if (str_eq (trim k) "") _) _ e in
    let (_, b, e2) = >>=-eq-ok (throw_if (str_eq (trim reason) "") _) _ e1 in
    let (v, found, e3) = >>=-eq-ok (or_throw (row_of (trim k) seen) _) _ e2 in
    let (_, c, e4) = >>=-eq-ok (throw_if (status_eq v.status rejected) _) _ e3 in
    apply-Keeps now (trim k) v rejected _ _ _ db db' i rejected_not_draft (sym fresh ∙ ground arith)
      (as_conflict_inv _ (i, db') e4)

ready_draft :
    (now : ℕ) (seller_id k : String) (db : Db) (ks : List String)
    → All (IsReady now seller_id db) ks
    → is_named k ks ≡ true
    → (r : Invoice) → row_of k db ≡ some r
    → r.status ≡ draft
ready_draft now seller_id k db [] a n r f = cc
ready_draft now seller_id k db (j ∷ js) (x, a) n r f = elim (Bool-cases (str_eq j k)) [
  | inr m ↦ ready_draft now seller_id k db js a (ground arith) r f
  | inl y ↦
      let same : x.invoice ≡ r = cc (rw ((eq_iff j k).0 y) at x.found, f) in rw (← same) x.is_draft
]

-- The verdicts depend on the invoices and the users only.
judge_all_same :
    (now : ℕ) (seller_id : String) (seen db : Db) (ks : List String)
    → seen.invoices ≡ db.invoices
    → seen.users ≡ db.users
    → judge_all now seller_id seen ks ≡ judge_all now seller_id db ks
unfolding judge_all judge
judge_all_same now seller_id seen db [] rows users = refl
judge_all_same now seller_id seen db (k ∷ ks) rows users =
    let rest = judge_all_same now seller_id seen db ks rows users in rw (rest, rows, users) refl

batch_same :
    (now : ℕ) (ks : List String) (seller_id : String) (seen db : Db)
    → seen.invoices ≡ db.invoices
    → seen.users ≡ db.users
    → publish_invoices_batch now ks seller_id seen db
      ≡ publish_invoices_batch now ks seller_id db db
unfolding publish_invoices_batch
batch_same now ks seller_id seen db rows users =
    rw (judge_all_same now seller_id seen db (unique ks) rows users) refl

pub batch-Keeps :
    (now : ℕ) (ks : List String) (seller_id : String) (seen db db' : Db) (is : List Invoice)
    → seen.invoices ≡ db.invoices
    → seen.users ≡ db.users
    → publish_invoices_batch now ks seller_id seen db ≡ ok (is, db')
    → Keeps db db'
batch-Keeps now ks seller_id seen db db' is rows users e k r f n =
    let at_once = sym (batch_same now ks seller_id seen db rows users) ∙ e in
    let (filled, a, p) = (publish_invoices_batch_lem now seller_id ks db).1 is db' at_once in
    elim (Bool-cases (is_named k ks)) [
      | inr other ↦ (r, p.others k other ∙ f, n, same_terms r)
      | inl here ↦
          absurd (n (ready_draft now seller_id k db (unique ks) a (named-unique k ks ∙ here) r f))
    ]
