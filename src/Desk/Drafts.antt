-- ===== src/Desk/Drafts.antt =====
-- src/services/invoice.service.ts, the calls on drafts: what they keep.
use ss_backend.Common.{
  ℕ, String, ◌≡◌, refl, sym, ◌∙◌, inl, inr, not, ◌||◌, ℤ, pos, or_default, Option, none, some,
  str_eq, eq_iff, find-append, arith, ok, Bool-cases, trim,
}
use ss_backend.Common.Checks.{throw_if, or_throw, >>=-eq-ok}
use ss_backend.Models.{draft, status_eq, Invoice, Db}
use ss_backend.Invoice.Machine.{save_row}
use ss_backend.Funding.Invest.{row_of}
use ss_backend.Funding.Rows.{row_of-id}
use ss_backend.Desk.{
  CreateInvoiceInput, create_invoice, new_draft, add_invoice, with_price, calculate_net_amount,
  sanitize_invoice_number, has_number, own_draft, UpdateInvoiceInput, update_invoice, repriced,
  redated, saved, delete_invoice, without_invoice, upload_document,
}
use ss_backend.Desk.Keeps.{HasTerms, Keeps, same_terms, save-Keeps, find-without}

own_draft_inv :
    (k seller_id : String) (db : Db) (i : Invoice)
    → own_draft k seller_id db ≡ ok i
    → (row_of k db ≡ some i) × (i.status ≡ draft)
unfolding own_draft
own_draft_inv k seller_id db i e =
    let (v, found, e1) = >>=-eq-ok (or_throw (row_of k db) _) _ e in
    let (_, own, e2) = >>=-eq-ok (throw_if (not (str_eq v.seller_id seller_id)) _) _ e1 in
    let (_, is_draft, e3) = >>=-eq-ok (throw_if (not (status_eq v.status draft)) _) _ e2 in
    let same : v ≡ i = cc e3 in rw (← same) (ground arith, ground arith)

pub create-Keeps :
    (id : String) (input : CreateInvoiceInput) (db db' : Db) (i : Invoice)
    → create_invoice id input db ≡ ok (i, db')
    → Keeps db db'
unfolding create_invoice
create-Keeps id input db db' i e =
    let number = sanitize_invoice_number input.invoice_number in
    let (_, a, e1) = >>=-eq-ok (throw_if (str_eq number "") _) _ e in
    let (_, b, e2) = >>=-eq-ok (throw_if (has_number number db.invoices) _) _ e1 in
    let (p, c, e3) = >>=-eq-ok (calculate_net_amount input.amount input.discount_rate) _ e2 in
    let (_, d, e4) = >>=-eq-ok (throw_if (has_number number db.deleted_invoices) _) _ e3 in
    let same : add_invoice (new_draft id number input p) db ≡ db' = cc e4 in
    rw (← same)
      (λ k r f n. (r, find-append (λ s. str_eq s.id k) db.invoices _ r f, n, same_terms r))

repriced-id : (a d : Option (Option ℤ)) (i p : Invoice) → repriced a d i ≡ ok p → p.id ≡ i.id
unfolding repriced
repriced-id none none i p e = let same : i ≡ p = cc in rw same refl
repriced-id (some a) d i p e =
    let (x, c, e1) =
      >>=-eq-ok (calculate_net_amount a (or_default d (some (pos i.discount_rate)))) _ e in
    let same : with_price i x ≡ p = cc e1 in rw (← same) refl
repriced-id none (some d) i p e =
    let (x, c, e1) = >>=-eq-ok (calculate_net_amount (some (pos i.amount)) d) _ e in
    let same : with_price i x ≡ p = cc e1 in rw (← same) refl

redated-id : (o : Option ℕ) (p : Invoice) → (redated o p).id ≡ p.id
redated-id none p = refl
redated-id (some t) p = refl

pub update-Keeps :
    (input : UpdateInvoiceInput) (seen db db' : Db) (i : Invoice)
    → row_of input.invoice_id seen ≡ row_of input.invoice_id db
    → update_invoice input seen db ≡ ok (i, db')
    → Keeps db db'
unfolding update_invoice
update-Keeps input seen db db' i fresh e =
    let (v, own, e1) = >>=-eq-ok (own_draft input.invoice_id input.seller_id seen) _ e in
    let (p, priced, e2) = >>=-eq-ok (repriced input.amount input.discount_rate v) _ e1 in
    let (read, is_draft) = own_draft_inv input.invoice_id input.seller_id seen v own in
    let found = sym fresh ∙ read in
    let w = saved (redated input.due_date p) in
    let same : save_row w db ≡ db' = cc e2 in
    rw (← same) (
      save-Keeps input.invoice_id v w db (save_row w db) found
        (redated-id input.due_date p
          ∙ repriced-id input.amount input.discount_rate v p priced
          ∙ row_of-id input.invoice_id db v found)
        refl (λ n. absurd (n is_draft)))

deleted-Keeps :
    (k : String) (i : Invoice) (db : Db)
    → row_of k db ≡ some i
    → i.status ≡ draft
    → Keeps db (without_invoice i db)
deleted-Keeps k i db found is_draft j r f n = elim (Bool-cases (str_eq i.id j)) [
  | inr other ↦ (r, find-without j i.id db.invoices other ∙ f, n, same_terms r)
  | inl here ↦
      let at_j : k ≡ j = sym (row_of-id k db i found) ∙ (eq_iff i.id j).0 here in
      let same : i ≡ r = cc (rw at_j at found, f) in absurd (n (rw (← same) is_draft))
]

pub delete-Keeps :
    (k seller_id : String) (seen db db' : Db)
    → row_of k seen ≡ row_of k db
    → delete_invoice k seller_id seen db ≡ ok db'
    → Keeps db db'
unfolding delete_invoice
delete-Keeps k seller_id seen db db' fresh e =
    let (i, own, e1) = >>=-eq-ok (own_draft k seller_id seen) _ e in
    let (read, is_draft) = own_draft_inv k seller_id seen i own in
    let found = sym fresh ∙ read in
    let same : without_invoice i db ≡ db' = cc e1 in
    rw (← same) (deleted-Keeps k i db found is_draft)

pub upload-Keeps :
    (hash k seller_id : String) (seen db db' : Db) (i : Invoice)
    → row_of (trim k) seen ≡ row_of (trim k) db
    → upload_document hash k seller_id seen db ≡ ok (i, db')
    → Keeps db db'
unfolding upload_document
upload-Keeps hash k seller_id seen db db' i fresh e =
    let (_, given, e0) =
      >>=-eq-ok (throw_if (str_eq (trim k) "" || str_eq (trim seller_id) "") _) _ e in
    let (v, found, e1) = >>=-eq-ok (or_throw (row_of (trim k) seen) _) _ e0 in
    let (_, own, e2) = >>=-eq-ok (throw_if (not (str_eq v.seller_id (trim seller_id))) _) _ e1 in
    let w = saved (record v { ipfs_hash = some hash }) in
    let same : save_row w db ≡ db' = cc e2 in
    let at_row : row_of (trim k) db ≡ some v = sym fresh ∙ ground arith in
    rw (← same) (
      save-Keeps (trim k) v w db (save_row w db) at_row (row_of-id (trim k) db v at_row) refl
        (λ n. (n, terms_of v hash)))
  where
    terms_of :
        (v : Invoice) (hash : String) → HasTerms v (saved (record v { ipfs_hash = some hash }))
    terms_of v hash = record {
      seller_id = refl;
      invoice_number = refl;
      amount = refl;
      discount_rate = refl;
      net_amount = refl;
      due_date = refl;
    }
