-- ===== src/Desk/Frozen.antt =====
-- src/services/invoice.service.ts: its calls in the order of their writes, each with the tables as they
-- were when it read.
use ss_backend.Common.{
  ℕ, String, ◌≡◌, ◌≢◌, refl, Option, some, List, [], ◌∷◌, Result, ok, err, trim,
}
use ss_backend.Models.{draft, Invoice, Db}
use ss_backend.Funding.Invest.{row_of}
use ss_backend.Desk.{
  CreateInvoiceInput, create_invoice, UpdateInvoiceInput, update_invoice, delete_invoice,
  upload_document,
}
use ss_backend.Desk.Publishing.{
  publish_invoice, submit_invoice_for_review, approve_invoice, reject_invoice,
}
use ss_backend.Desk.Batch.{publish_invoices_batch}
use ss_backend.Desk.Keeps.{HasTerms, Keeps, Keeps-all, Keeps-then}
use ss_backend.Desk.Drafts.{create-Keeps, update-Keeps, delete-Keeps, upload-Keeps}
use ss_backend.Desk.Moves.{publish-Keeps, submit-Keeps, approve-Keeps, reject-Keeps, batch-Keeps}

pub data DeskCall : Type 0 where
  create : (id : String) → CreateInvoiceInput → DeskCall
  update : UpdateInvoiceInput → DeskCall
  delete : (invoice_id seller_id : String) → DeskCall
  upload : (hash invoice_id seller_id : String) → DeskCall
  publish : ℕ → (invoice_id seller_id : String) → DeskCall
  submit : ℕ → (invoice_id seller_id : String) → DeskCall
  approve : ℕ → (invoice_id : String) → Option String → DeskCall
  reject : ℕ → (invoice_id reason : String) → Option String → DeskCall
  publish_batch : ℕ → List String → (seller_id : String) → DeskCall

-- The tables after a call that may throw.
abbrev pub after : {A : Type 0} → Result (A × Db) → Db → Db
after (err e) db = db
after (ok (a, db')) db = db'

abbrev pub after_delete : Result Db → Db → Db
after_delete (err e) db = db
after_delete (ok db') db = db'

unfoldable pub desk_call : DeskCall → Db → Db → Db
desk_call (create id input) seen db = after (create_invoice id input db) db
desk_call (update input) seen db = after (update_invoice input seen db) db
desk_call (delete k seller_id) seen db = after_delete (delete_invoice k seller_id seen db) db
desk_call (upload hash k seller_id) seen db = after (upload_document hash k seller_id seen db) db
desk_call (publish now k seller_id) seen db = after (publish_invoice now k seller_id seen db) db
desk_call (submit now k seller_id) seen db =
    after (submit_invoice_for_review now k seller_id seen db) db
desk_call (approve now k actor_id) seen db = after (approve_invoice now k actor_id seen db) db
desk_call (reject now k reason actor_id) seen db =
    after (reject_invoice now k reason actor_id seen db) db
desk_call (publish_batch now ks seller_id) seen db =
    after (publish_invoices_batch now ks seller_id seen db) db

unfoldable pub desk_calls : List (DeskCall × Db) → Db → Db
unfolding desk_call
desk_calls [] db = db
desk_calls ((c, seen) ∷ cs) db = desk_calls cs (desk_call c seen db)

-- The row that a call saves is still as the call has read it; for a batch, all invoices and users are.
unfoldable pub IsFresh : DeskCall → Db → Db → Type 0
IsFresh (create id input) seen db = Unit
IsFresh (update input) seen db = row_of input.invoice_id seen ≡ row_of input.invoice_id db
IsFresh (delete k seller_id) seen db = row_of k seen ≡ row_of k db
IsFresh (upload hash k seller_id) seen db = row_of (trim k) seen ≡ row_of (trim k) db
IsFresh (publish now k seller_id) seen db = row_of k seen ≡ row_of k db
IsFresh (submit now k seller_id) seen db = row_of k seen ≡ row_of k db
IsFresh (approve now k actor_id) seen db = row_of k seen ≡ row_of k db
IsFresh (reject now k reason actor_id) seen db = row_of (trim k) seen ≡ row_of (trim k) db
IsFresh (publish_batch now ks seller_id) seen db =
    (seen.invoices ≡ db.invoices) × (seen.users ≡ db.users)

-- Every call finds its row as it was read.
unfoldable pub AreFresh : List (DeskCall × Db) → Db → Type 0
unfolding IsFresh
AreFresh [] db = Unit
AreFresh ((c, seen) ∷ cs) db = IsFresh c seen db × AreFresh cs (desk_call c seen db)

after-Keeps :
    {A : Type 0} (o : Result (A × Db)) (db : Db)
    → ((a : A) (db' : Db) → o ≡ ok (a, db') → Keeps db db')
    → Keeps db (after o db)
after-Keeps (err e) db h = Keeps-all db
after-Keeps (ok (a, db')) db h = h a db' refl

after_delete-Keeps :
    (o : Result Db) (db : Db)
    → ((db' : Db) → o ≡ ok db' → Keeps db db')
    → Keeps db (after_delete o db)
after_delete-Keeps (err e) db h = Keeps-all db
after_delete-Keeps (ok db') db h = h db' refl

desk_call-Keeps : (c : DeskCall) (seen db : Db) → IsFresh c seen db → Keeps db (desk_call c seen db)
unfolding desk_call IsFresh
desk_call-Keeps (create id input) seen db h =
    after-Keeps _ db (λ i db' e. create-Keeps id input db db' i e)
desk_call-Keeps (update input) seen db h =
    after-Keeps _ db (λ i db' e. update-Keeps input seen db db' i h e)
desk_call-Keeps (delete k s) seen db h =
    after_delete-Keeps _ db (λ db' e. delete-Keeps k s seen db db' h e)
desk_call-Keeps (upload f k s) seen db h =
    after-Keeps _ db (λ i db' e. upload-Keeps f k s seen db db' i h e)
desk_call-Keeps (publish now k s) seen db h =
    after-Keeps _ db (λ i db' e. publish-Keeps now k s seen db db' i h e)
desk_call-Keeps (submit now k s) seen db h =
    after-Keeps _ db (λ i db' e. submit-Keeps now k s seen db db' i h e)
desk_call-Keeps (approve now k a) seen db h =
    after-Keeps _ db (λ i db' e. approve-Keeps now k a seen db db' i h e)
desk_call-Keeps (reject now k r a) seen db h =
    after-Keeps _ db (λ i db' e. reject-Keeps now k r a seen db db' i h e)
desk_call-Keeps (publish_batch now ks s) seen db (rows, users) =
    after-Keeps _ db (λ is db' e. batch-Keeps now ks s seen db db' is rows users e)

-- In whatever order calls of the invoice service write, each on the row as it has read it, and a
-- batch on the invoices and users as it has read them, an invoice that has left draft stays in
-- the table, does not come back to draft, and keeps its seller, number, amount, discount rate,
-- net amount and due date.
pub terms_frozen :
    (cs : List (DeskCall × Db)) (db : Db) (k : String) (r : Invoice)
    → AreFresh cs db
    → row_of k db ≡ some r
    → r.status ≢ draft
    → (s : Invoice) × (row_of k (desk_calls cs db) ≡ some s) × (s.status ≢ draft) × HasTerms r s
unfolding desk_calls AreFresh
terms_frozen cs db k r fresh = run cs db fresh k r
  where
    run : (cs : List (DeskCall × Db)) (db : Db) → AreFresh cs db → Keeps db (desk_calls cs db)
    run [] db h = Keeps-all db
    run ((c, seen) ∷ cs) db (h, hs) =
        Keeps-then db (desk_call c seen db) (desk_calls cs (desk_call c seen db))
          (desk_call-Keeps c seen db h) (run cs (desk_call c seen db) hs)
