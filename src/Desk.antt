-- ===== src/Desk.antt =====
-- src/services/invoice.service.ts, the drafts: `createInvoice`, `updateInvoice`, `deleteInvoice`
-- and `uploadDocument`. Amounts are given with at most four decimals and rates with at most two,
-- and with so few digits that decimal.js multiplies them exactly. An uploaded file is not empty.
-- A call reads its invoice without a lock and later saves the whole row that it has read, so it
-- takes the tables as they are when it reads (`seen`) and as they are when it writes (`db`).
-- Columns for display are left out, and so is the wrapping of unexpected errors.
pub mod Publishing
pub mod Batch
pub mod Ready
pub mod Published
pub mod Keeps
pub mod Drafts
pub mod Moves
pub mod Frozen
pub mod Tests
use ss_backend.Common.{
  ℕ, zero, suc, ◌+◌, ◌-◌, ◌*◌, ◌/◌, ltb, ℤ, pos, negsuc, String, Bool, true, false, not, ◌||◌,
  Option, none, some, List, [], ◌∷◌, ◌++◌, if◌then◌else◌, str_eq, or_default, any, filter, trim,
  text_take, Result, ok, err, service_error, invalid_input, invalid_amount, invalid_invoice_number,
  invoice_number_exists, invoice_create_failed, invoice_not_found, unauthorized_invoice_access,
  invalid_invoice_status,
}
use ss_backend.Common.Checks.{◌>>=◌, ◌>>◌, throw_if, or_throw}
use ss_backend.Models.{draft, status_eq, Invoice, Db}
use ss_backend.Invoice.Machine.{save_row}
use ss_backend.Funding.Invest.{row_of}

-- amount - amount * rate / 100, rounded to four decimals, halves up.
abbrev pub net_of : ℕ → ℕ → ℕ
net_of amount rate = (amount * (10_000 - rate) + 5_000) / 10_000

-- `calculateNetAmount`; no value stands for a text that is no finite number.
unfoldable pub calculate_net_amount : Option ℤ → Option ℤ → Result (ℕ × ℕ × ℕ)
calculate_net_amount (some (pos a)) (some (pos d)) =
    if ltb 10_000 d then err (service_error invalid_amount 400) else ok (a, d, net_of a d)
calculate_net_amount _ _ = err (service_error invalid_amount 400)

-- `sanitizeInvoiceNumber`
abbrev pub sanitize_invoice_number : String → String
sanitize_invoice_number value = text_take 64 (trim value)

pub record CreateInvoiceInput : Type 0 where
  pub seller_id : String
  pub invoice_number : String
  pub amount : Option ℤ
  pub discount_rate : Option ℤ
  pub due_date : Option ℕ
  pub ipfs_hash : Option String
  pub funding_deadline : Option ℕ

abbrev pub has_number : String → List Invoice → Bool
has_number number = any (λ r. str_eq r.invoice_number number)

-- `text?.trim() || null`
abbrev pub trimmed : Option String → Option String
trimmed none = none
trimmed (some s) = if str_eq (trim s) "" then none else some (trim s)

abbrev pub new_draft : String → String → CreateInvoiceInput → ℕ × ℕ × ℕ → Invoice
new_draft id number input (amount, rate, net) = record {
  id = id;
  seller_id = input.seller_id;
  invoice_number = number;
  amount = amount;
  discount_rate = rate;
  net_amount = net;
  funded_amount = 0;
  due_date = input.due_date;
  ipfs_hash = trimmed input.ipfs_hash;
  status = draft;
  rejection_reason = none;
  settlement_remainder = none;
  funding_deadline = input.funding_deadline;
  version = 1;
}

abbrev pub add_invoice : Invoice → Db → Db
add_invoice i db = record db { invoices = db.invoices ++ (i ∷ []) }

-- `createInvoice`, with the identifier that the database draws. The look-up does not see deleted
-- rows; the unique index on the number does.
unfoldable pub create_invoice : String → CreateInvoiceInput → Db → Result (Invoice × Db)
create_invoice id input db = do
  let number = sanitize_invoice_number input.invoice_number
  throw_if (str_eq number "") (service_error invalid_invoice_number 400)
  throw_if (has_number number db.invoices) (service_error invoice_number_exists 409)
  priced ← calculate_net_amount input.amount input.discount_rate
  throw_if (has_number number db.deleted_invoices) (service_error invoice_create_failed 500)
  ok (new_draft id number input priced, add_invoice (new_draft id number input priced) db)

-- The seller's own draft, as it is read.
unfoldable pub own_draft : String → String → Db → Result Invoice
own_draft invoice_id seller_id db = do
  i ← or_throw (row_of invoice_id db) (service_error invoice_not_found 404)
  throw_if (not (str_eq i.seller_id seller_id)) (service_error unauthorized_invoice_access 403)
  throw_if (not (status_eq i.status draft)) (service_error invalid_invoice_status 400)
  ok i

-- A field that is not given is null; a number that is given but is none is a null inside.
pub record UpdateInvoiceInput : Type 0 where
  pub invoice_id : String
  pub seller_id : String
  pub amount : Option (Option ℤ)
  pub discount_rate : Option (Option ℤ)
  pub due_date : Option ℕ

abbrev pub with_price : Invoice → ℕ × ℕ × ℕ → Invoice
with_price i (amount, rate, net) = record i {
  amount = amount;
  discount_rate = rate;
  net_amount = net;
}

unfoldable pub repriced : Option (Option ℤ) → Option (Option ℤ) → Invoice → Result Invoice
repriced none none i = ok i
repriced (some amount) rate i =
    calculate_net_amount amount (or_default rate (some (pos i.discount_rate))) >>= λ p.
    ok (with_price i p)
repriced none (some rate) i =
    calculate_net_amount (some (pos i.amount)) rate >>= λ p. ok (with_price i p)

abbrev pub redated : Option ℕ → Invoice → Invoice
redated none i = i
redated (some t) i = record i { due_date = some t }

-- `save`: the next version of the row.
abbrev pub saved : Invoice → Invoice
saved i = record i { version = i.version + 1 }

-- `updateInvoice`
unfoldable pub update_invoice : UpdateInvoiceInput → Db → Db → Result (Invoice × Db)
update_invoice input seen db = do
  i ← own_draft input.invoice_id input.seller_id seen
  priced ← repriced input.amount input.discount_rate i
  ok (saved (redated input.due_date priced), save_row (saved (redated input.due_date priced)) db)

abbrev pub without_invoice : Invoice → Db → Db
without_invoice i db = record db {
  invoices = filter (λ r. not (str_eq r.id i.id)) db.invoices;
  deleted_invoices = saved i ∷ db.deleted_invoices;
}

-- `deleteInvoice`
unfoldable pub delete_invoice : String → String → Db → Db → Result Db
delete_invoice invoice_id seller_id seen db = do
  i ← own_draft invoice_id seller_id seen
  ok (without_invoice i db)

-- `uploadDocument`, with the hash that IPFS answers between the read and the save.
unfoldable pub upload_document : String → String → String → Db → Db → Result (Invoice × Db)
upload_document hash invoice_id seller_id seen db = do
  throw_if (str_eq (trim invoice_id) "" || str_eq (trim seller_id) "")
      (service_error invalid_input 400)
  i ← or_throw (row_of (trim invoice_id) seen) (service_error invoice_not_found 404)
  throw_if (not (str_eq i.seller_id (trim seller_id)))
      (service_error unauthorized_invoice_access 403)
  let i' = saved (record i { ipfs_hash = some hash })
  ok (i', save_row i' db)
