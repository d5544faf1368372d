-- ===== src/Desk/Publishing.antt =====
-- src/services/invoice.service.ts, `publishInvoice`, `submitInvoiceForReview`, `approveInvoice`
-- and `rejectInvoice`: checks of their own on rows that are read without a lock (from `seen`),
-- and then a transition of the row that was read, in one database transaction (on `db`). Side
-- effects after the commit are left out.
use ss_backend.Common.{
  ℕ, String, Bool, true, false, not, Option, none, some, if◌then◌else◌, str_eq, find, trim, Result,
  ok, err, ErrorCode, service_error, invoice_not_found, unauthorized_invoice_access,
  kyc_approval_required, invalid_invoice_id, invalid_rejection_reason, invoice_already_rejected,
  invalid_status_transition,
}
use ss_backend.Common.Checks.{◌>>=◌, ◌>>◌, throw_if, or_throw}
use ss_backend.Models.{
  InvoiceStatus, pending, published, rejected, status_eq, KycStatus, approved, TransitionReason,
  seller_published, seller_submitted, admin_approved, admin_rejected, seller, admin, Invoice, User,
  Db,
}
use ss_backend.Invoice.Rules.{TransitionActor, TransitionContext}
use ss_backend.Invoice.Machine.{entity_manager_store, transition}
use ss_backend.Funding.Invest.{row_of}

abbrev pub plain_context : TransitionContext
plain_context = record { funded_amount = none; reason = none }

abbrev pub is_approved : KycStatus → Bool
is_approved approved = true
is_approved _ = false

abbrev pub seller_of : Invoice → Db → Option User
seller_of i db = find (λ u. str_eq u.id i.seller_id) db.users

-- `!seller || seller.kycStatus !== KYCStatus.APPROVED`
abbrev pub approved_seller : Option User → Result User
approved_seller none = err (service_error kyc_approval_required 403)
approved_seller (some u) =
    if is_approved u.kyc_status then ok u else err (service_error kyc_approval_required 403)

abbrev pub as_seller : String → Option String → TransitionActor
as_seller id wallet = record { role = seller; id = some id; wallet = wallet }

abbrev pub as_admin : Option String → TransitionActor
as_admin id = record { role = admin; id = id; wallet = none }

-- `applyTransition`: the row that was read, which may be stale by now, moves and is saved.
unfoldable pub apply_transition :
    ℕ
    → Invoice
    → InvoiceStatus
    → TransitionActor
    → TransitionReason
    → TransitionContext
    → Db
    → Result (Invoice × Db)
apply_transition now i to actor trigger context db =
    transition entity_manager_store now i to actor trigger context db >>= λ r. ok (r.0.invoice, r.1)

-- `publishInvoice`
unfoldable pub publish_invoice : ℕ → String → String → Db → Db → Result (Invoice × Db)
publish_invoice now invoice_id seller_id seen db = do
  i ← or_throw (row_of invoice_id seen) (service_error invoice_not_found 404)
  throw_if (not (str_eq i.seller_id seller_id)) (service_error unauthorized_invoice_access 403)
  u ← approved_seller (seller_of i seen)
  apply_transition now i published (as_seller seller_id u.stellar_address) seller_published
      plain_context db

abbrev wallet_of : Option User → Option String
wallet_of none = none
wallet_of (some u) = u.stellar_address

-- `submitInvoiceForReview`
unfoldable pub submit_invoice_for_review : ℕ → String → String → Db → Db → Result (Invoice × Db)
submit_invoice_for_review now invoice_id seller_id seen db = do
  i ← or_throw (row_of invoice_id seen) (service_error invoice_not_found 404)
  throw_if (not (str_eq i.seller_id seller_id)) (service_error invoice_not_found 404)
  apply_transition now i pending (as_seller seller_id (wallet_of (seller_of i seen)))
      seller_submitted plain_context db

-- `approveInvoice`
unfoldable pub approve_invoice : ℕ → String → Option String → Db → Db → Result (Invoice × Db)
approve_invoice now invoice_id actor_id seen db = do
  i ← or_throw (row_of invoice_id seen) (service_error invoice_not_found 404)
  apply_transition now i published (as_admin actor_id) admin_approved plain_context db

abbrev is_invalid_transition : ErrorCode → Bool
is_invalid_transition invalid_status_transition = true
is_invalid_transition _ = false

-- A refused edge is reported as a conflict.
abbrev pub as_conflict : Result (Invoice × Db) → Result (Invoice × Db)
as_conflict (ok r) = ok r
as_conflict (err e) =
    err (if is_invalid_transition e.code then service_error invalid_status_transition 409 else e)

-- `rejectInvoice`
unfoldable pub reject_invoice :
    ℕ → String → String → Option String → Db → Db → Result (Invoice × Db)
reject_invoice now invoice_id rejection_reason actor_id seen db = do
  throw_if (str_eq (trim invoice_id) "") (service_error invalid_invoice_id 400)
  throw_if (str_eq (trim rejection_reason) "") (service_error invalid_rejection_reason 400)
  i ← or_throw (row_of (trim invoice_id) seen) (service_error invoice_not_found 404)
  throw_if (status_eq i.status rejected) (service_error invoice_already_rejected 409)
  as_conflict (
      apply_transition now i rejected (as_admin actor_id) admin_rejected
        (record { funded_amount = none; reason = some (trim rejection_reason) }) db)
