-- ===== src/Desk/Batch.antt =====
-- src/services/invoice.service.ts, `publishInvoicesBatch`.
use ss_backend.Common.{
  ℕ, String, Bool, true, false, not, Option, none, some, List, [], ◌∷◌, if◌then◌else◌, str_eq,
  filter, Result, ok, service_error, empty_batch, batch_publish_rejected,
}
use ss_backend.Common.Checks.{◌>>=◌, ◌>>◌, throw_if}
use ss_backend.Models.{draft, published, status_eq, seller_batch_published, Invoice, Db}
use ss_backend.Invoice.Publish.{ValidationError, validate_invoice_for_publish}
use ss_backend.Funding.Invest.{row_of}
use ss_backend.Desk.Publishing.{
  plain_context, seller_of, approved_seller, as_seller, apply_transition,
}

-- Why one invoice of a batch cannot be published.
pub data BatchPublishRejection : Type 0 where
  not_found unauthorized not_a_draft not_publishable : (id : String) → BatchPublishRejection

-- `[...new Set(ids)]`: the first of each, in order.
unfoldable pub unique : List String → List String
unique [] = []
unique (k ∷ ks) = k ∷ filter (λ j. not (str_eq j k)) (unique ks)

-- One invoice of the batch: publishable, with the wallet of its seller, or rejected.
pub data Verdict : Type 0 where
  publishable : Invoice → Option String → Verdict
  refused : BatchPublishRejection → Verdict

abbrev pub verdict_on : String → Invoice → Option String → List ValidationError → Verdict
verdict_on k i wallet [] = publishable i wallet
verdict_on k i wallet (e ∷ es) = refused (not_publishable k)

unfoldable pub judge : ℕ → String → Db → String → Option Invoice → Result Verdict
judge now seller_id db k none = ok (refused (not_found k))
judge now seller_id db k (some i) =
    if not (str_eq i.seller_id seller_id)
    then ok (refused (unauthorized k))
    else approved_seller (seller_of i db) >>= λ u.
        if not (status_eq i.status draft)
        then ok (refused (not_a_draft k))
        else ok (verdict_on k i u.stellar_address (validate_invoice_for_publish i now))

-- The loop over the batch.
unfoldable pub judge_all : ℕ → String → Db → List String → Result (List Verdict)
unfolding judge
judge_all now seller_id db [] = ok []
judge_all now seller_id db (k ∷ ks) = do
  v ← judge now seller_id db k (row_of k db)
  vs ← judge_all now seller_id db ks
  ok (v ∷ vs)

abbrev pub has_refusal : List Verdict → Bool
has_refusal [] = false
has_refusal (publishable i wallet ∷ vs) = has_refusal vs
has_refusal (refused r ∷ vs) = true

-- The transitions, in one database transaction.
unfoldable pub publish_all : ℕ → String → List Verdict → Db → Result (List Invoice × Db)
publish_all now seller_id [] db = ok ([], db)
publish_all now seller_id (refused r ∷ vs) db = publish_all now seller_id vs db
publish_all now seller_id (publishable i wallet ∷ vs) db =
    apply_transition now i published (as_seller seller_id wallet) seller_batch_published
      plain_context db
    >>= λ r. publish_all now seller_id vs r.1 >>= λ rs. ok (r.0 ∷ rs.0, rs.1)

abbrev pub is_empty : List String → Bool
is_empty [] = true
is_empty (_ ∷ _) = false

-- `publishInvoicesBatch`: the invoices are read and judged without a lock, and then moved in one
-- database transaction.
unfoldable pub publish_invoices_batch :
    ℕ → List String → String → Db → Db → Result (List Invoice × Db)
unfolding judge_all publish_all
publish_invoices_batch now ids seller_id seen db = do
  throw_if (is_empty ids) (service_error empty_batch 400)
  vs ← judge_all now seller_id seen (unique ids)
  throw_if (has_refusal vs) (service_error batch_publish_rejected 400)
  publish_all now seller_id vs db
