-- ===== src/Desk/Tests.antt =====
-- The invoice service on a small database, and concrete cases of the theorems about it.
use ss_backend.Common.{
  String, ◌≡◌, ◌≢◌, refl, false, Option, none, some, [], ◌∷◌, List, arith, pos, ok, err,
  service_error, invoice_create_failed, All, trim, trim_start, trim_end, text_take,
}
use ss_backend.Models.{draft, published, rejected, InvoiceStatus, Invoice, User, approved, Db}
use ss_backend.Invoice.Publish.{
  IsPublishable, validate_invoice_for_publish, validate_funding_deadline,
}
use ss_backend.Invoice.Rules.{assert_transition, publish_ready}
use ss_backend.Invoice.Machine.{transition, entity_manager_store, save_invoice, record_history}
use ss_backend.Funding.Invest.{row_of}
use ss_backend.Desk.{
  CreateInvoiceInput, create_invoice, UpdateInvoiceInput, update_invoice, own_draft,
  upload_document, calculate_net_amount,
}
use ss_backend.Desk.Publishing.{publish_invoice, apply_transition}
use ss_backend.Desk.Batch.{unique, is_empty, publish_invoices_batch}
use ss_backend.Desk.Ready.{IsReady}
use ss_backend.Desk.Published.{Published, publish_invoices_batch_lem}
use ss_backend.Desk.Keeps.{HasTerms}
use ss_backend.Desk.Frozen.{
  DeskCall, update, upload, publish, desk_calls, desk_call, IsFresh, AreFresh, terms_frozen,
}

abbrev invoice : String → InvoiceStatus → Invoice
invoice id s = record {
  id = id;
  seller_id = "ann";
  invoice_number = id;
  amount = 2_000_000;
  discount_rate = 500;
  net_amount = 1_900_000;
  funded_amount = 0;
  due_date = some 200_000_000;
  ipfs_hash = some "Qm";
  status = s;
  rejection_reason = none;
  settlement_remainder = none;
  funding_deadline = none;
  version = 1;
}

abbrev ann : User
ann = record { id = "ann"; kyc_status = approved; stellar_address = some "GANN" }

abbrev database : Db
database = record {
  invoices = invoice "a" draft ∷ invoice "b" draft ∷ invoice "c" published ∷ [];
  deleted_invoices = [];
  history = [];
  investments = [];
  users = ann ∷ [];
  intents = [];
  returns = [];
  remainders = [];
  transactions = [];
  listings = [];
  acknowledgements = [];
  next_id = 1;
}

fit : IsPublishable 10 (invoice "a" draft)
fit = record {
  face_value = omega arith;
  deadline = 200_000_000;
  dated = refl;
  lead_time = omega arith;
  documented = refl;
}

ready : All (IsReady 10 "ann" database) ("a" ∷ [])
ready = (
  record {
    invoice = invoice "a" draft;
    found = refl;
    owned = refl;
    user = ann;
    sold_by = refl;
    known = refl;
    is_draft = refl;
    fit = fit;
  },
  tt,
)

publish_invoices_batch_lem_example :
    ((is_empty ("a" ∷ "a" ∷ []) ≡ false) × All (IsReady 10 "ann" database) (unique ("a" ∷ "a" ∷ []))
      → (is : List Invoice) × (db' : Db) × (publish_invoices_batch 10
            ("a" ∷ "a" ∷ [])
            "ann"
            database
            database
          ≡ ok (is, db')))
    × ((is : List Invoice) (db' : Db)
        → publish_invoices_batch 10 ("a" ∷ "a" ∷ []) "ann" database database ≡ ok (is, db')
        → (is_empty ("a" ∷ "a" ∷ []) ≡ false)
          × All (IsReady 10 "ann" database) (unique ("a" ∷ "a" ∷ []))
          × Published ("a" ∷ "a" ∷ []) database db')
publish_invoices_batch_lem_example = publish_invoices_batch_lem 10 "ann" ("a" ∷ "a" ∷ []) database

batch_test :
    (is : List Invoice) × (db' : Db) × (publish_invoices_batch 10
        ("a" ∷ "a" ∷ [])
        "ann"
        database
        database
      ≡ ok (is, db'))
unfolding unique
batch_test = publish_invoices_batch_lem_example.0 (refl, ready)

abbrev reprice : UpdateInvoiceInput
reprice = record {
  invoice_id = "c";
  seller_id = "ann";
  amount = some (some (pos 5));
  discount_rate = none;
  due_date = none;
}

abbrev calls : List (DeskCall × Db)
calls = (update reprice, database) ∷ (upload "Qx" "c" "ann", database) ∷ []

published_not_draft : ◌≢◌ {A = InvoiceStatus} published draft
published_not_draft e = cc

fresh : AreFresh calls database
unfolding AreFresh IsFresh desk_call update_invoice own_draft trim trim_start trim_end
fresh = (refl, (refl, tt))

terms_frozen_example :
    (s : Invoice) × (row_of "c" (desk_calls calls database) ≡ some s)
    × (s.status ≢ draft)
    × HasTerms (invoice "c" published) s
terms_frozen_example =
    terms_frozen calls database "c" (invoice "c" published) fresh refl published_not_draft

abbrev wish : String → CreateInvoiceInput
wish number = record {
  seller_id = "ann";
  invoice_number = number;
  amount = some (pos 299_900);
  discount_rate = some (pos 50);
  due_date = none;
  ipfs_hash = none;
  funding_deadline = none;
}

-- The example in the comment of `calculateNetAmount`: 29.99 at 0.5% is 29.8401 (rounded from 29.84005).
net_test : calculate_net_amount (some (pos 299_900)) (some (pos 50)) ≡ ok (299_900, 50, 298_401)
unfolding calculate_net_amount
net_test = refl

-- The number of a deleted draft is not taken for the look-up, but is for the index.
reused_test :
    create_invoice "d" (wish " z ") (record database { deleted_invoices = invoice "z" draft ∷ [] })
    ≡ err (service_error invoice_create_failed 500)
unfolding create_invoice calculate_net_amount trim trim_start trim_end text_take
reused_test = refl

-- A document is uploaded to a draft while the draft is published: the row that was read before the
-- upload is saved over the published one, which so is a draft again.
abbrev overtaken : List (DeskCall × Db)
overtaken = (publish 10 "a" "ann", database) ∷ (upload "Qx" "a" "ann", database) ∷ []

abbrev status_in : Option Invoice → InvoiceStatus
status_in none = rejected
status_in (some i) = i.status

stale_test :
    (status_in (row_of "a" (desk_call (publish 10 "a" "ann") database database)) ≡ published)
    × (status_in (row_of "a" (desk_calls overtaken database)) ≡ draft)
unfolding desk_call desk_calls publish_invoice upload_document apply_transition transition
    entity_manager_store save_invoice record_history assert_transition publish_ready
    validate_invoice_for_publish validate_funding_deadline trim trim_start trim_end
stale_test = (refl, refl)
