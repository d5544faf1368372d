-- ===== src/Invoice/Publish.antt =====
-- src/lib/validate-invoice-for-publish.ts. `now` is the server's clock. Messages are left out, and
-- a code stands for its field too.
use ss_backend.Common.{
  ℕ, ◌+◌, ◌-◌, ◌≤◌, ◌≡◌, ◌↔◌, true, not, Option, none, some, List, [], ◌∷◌, ◌++◌, arith, ltb, leb,
  if◌then◌else◌, truthy,
}
use ss_backend.Models.{Invoice}

pub data ValidationError : Type 0 where
  face_value_too_low due_date_in_past due_date_too_soon missing_document : ValidationError

-- 24 hours in milliseconds.
abbrev pub min_lead_time_ms : ℕ
min_lead_time_ms = 86_400_000

-- 100.0000 XLM
abbrev pub min_face_value_xlm : ℕ
min_face_value_xlm = 1_000_000

-- `leadTimeMs <= 0` is `deadline <= now`, and past that test the difference is exact.
unfoldable pub validate_funding_deadline : Option ℕ → ℕ → Option ValidationError
validate_funding_deadline none now = some due_date_in_past
validate_funding_deadline (some deadline) now =
    if leb deadline now
    then some due_date_in_past
    else if ltb (deadline - now) min_lead_time_ms
    then some due_date_too_soon
    else none

abbrev pub listed : Option ValidationError → List ValidationError
listed none = []
listed (some e) = e ∷ []

unfoldable pub validate_invoice_for_publish : Invoice → ℕ → List ValidationError
validate_invoice_for_publish invoice now =
    (if ltb invoice.amount min_face_value_xlm then face_value_too_low ∷ [] else [])
    ++ (listed (validate_funding_deadline invoice.due_date now)
        ++ (if not (truthy invoice.ipfs_hash) then missing_document ∷ [] else []))

-- What an invoice needs to be published, stated without the order of the checks.
pub record IsPublishable (now : ℕ) (invoice : Invoice) : Type 0 where
  pub face_value : min_face_value_xlm ≤ invoice.amount
  pub deadline : ℕ
  pub dated : invoice.due_date ≡ some deadline
  pub lead_time : now + min_lead_time_ms ≤ deadline
  pub documented : truthy invoice.ipfs_hash ≡ true

-- A deadline passes exactly when it is a date at least 24 hours ahead.
deadline_sound :
    (due : Option ℕ) (now : ℕ)
    → validate_funding_deadline due now ≡ none
    → (t : ℕ) × (due ≡ some t) × (now + min_lead_time_ms ≤ t)
unfolding validate_funding_deadline
deadline_sound none now e = ground arith
deadline_sound (some t) now e = (t, ground arith, ground arith)

deadline_complete :
    (due : Option ℕ) (now t : ℕ)
    → due ≡ some t
    → now + min_lead_time_ms ≤ t
    → validate_funding_deadline due now ≡ none
unfolding validate_funding_deadline
deadline_complete due now t e h = ground arith

parts_empty :
    (invoice : Invoice) (now : ℕ)
    → validate_invoice_for_publish invoice now ≡ []
    → (min_face_value_xlm ≤ invoice.amount)
      × (validate_funding_deadline invoice.due_date now ≡ none)
      × (truthy invoice.ipfs_hash ≡ true)
unfolding validate_invoice_for_publish
parts_empty invoice now e = ground arith

parts_complete :
    (invoice : Invoice) (now : ℕ)
    → min_face_value_xlm ≤ invoice.amount
    → validate_funding_deadline invoice.due_date now ≡ none
    → truthy invoice.ipfs_hash ≡ true
    → validate_invoice_for_publish invoice now ≡ []
unfolding validate_invoice_for_publish
parts_complete invoice now face due doc = ground arith

-- No error is reported exactly when the face value is 100 XLM or more, the funding deadline is a
-- date at least 24 hours ahead of the clock, and a document is attached.
pub validate_invoice_iff :
    (invoice : Invoice) (now : ℕ)
    → (validate_invoice_for_publish invoice now ≡ []) ↔ IsPublishable now invoice
validate_invoice_iff invoice now = (sound, complete)
  where
    sound : validate_invoice_for_publish invoice now ≡ [] → IsPublishable now invoice
    sound e =
        let (face, due, doc) = parts_empty invoice now e in
        let (t, dated, lead) = deadline_sound invoice.due_date now due in
        record {
          face_value = face;
          deadline = t;
          dated = dated;
          lead_time = lead;
          documented = doc;
        }

    complete : IsPublishable now invoice → validate_invoice_for_publish invoice now ≡ []
    complete p =
        parts_complete invoice now p.face_value
          (deadline_complete invoice.due_date now p.deadline p.dated p.lead_time) p.documented
