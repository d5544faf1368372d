-- ===== src/Market.antt =====
-- src/services/secondary-market.service.ts: `createListing`, and what it shares with
-- `buyListing` and `cancelListing`.
-- Quantities and prices are given with at most four decimals, as numbers of 0.0001 units. The product
-- of two, rounded to four decimals, is an argument, for decimal.js computes it. Reads for display and
-- notifications are left out.
pub mod Purchase
pub mod Transfer
pub mod Cancel
pub mod Listings
pub mod Tests
use mathlib.Core.Option
use ss_backend.Common.{
  ℕ, zero, suc, ◌+◌, ◌-◌, ◌%◌, ℤ, pos, negsuc, ◌==◌, ltb, leb, String, Bool, true, false, not, ◌&&◌,
  ◌||◌, Option, none, some, List, [], ◌∷◌, ◌++◌, if◌then◌else◌, str_eq, opt_eq, truthy, is_some,
  find, filter, upsert, sum_by, Result, ok, err, service_error, invalid_quantity, invalid_price,
  invalid_expiry, invoice_not_found, invoice_matured, invalid_invoice_status,
  settlement_in_progress, no_holdings, insufficient_holdings, listing_not_found, listing_not_active,
  listing_expired, self_purchase, over_purchase, forbidden,
}
use ss_backend.Common.Checks.{◌>>=◌, ◌>>◌, throw_if, or_throw}
use ss_backend.Models.{
  funded, settled, failed, status_eq, Invoice, Investment, InvestmentStatus, ListingStatus, active,
  sold, SecondaryListing, Transaction, Db,
}
use ss_backend.Invoice.Machine.{has_open_intent}
use ss_backend.Settlement.Intents.{find_invoice, is_backing}

pub record CreateInput : Type 0 where
  pub invoice_id : String
  pub seller_wallet : String
  pub seller_id : Option String
  pub quantity : ℤ
  pub price_per_fraction : ℤ
  pub expires_at : Option ℕ

abbrev pub not_positive : ℤ → Bool
not_positive (pos zero) = true
not_positive (pos (suc n)) = false
not_positive (negsuc n) = true

abbrev pub amount_of : ℤ → ℕ
amount_of (pos n) = n
amount_of (negsuc n) = 0

-- The last millisecond of a day in UTC.
abbrev end_of_day : ℕ → ℕ
end_of_day t = t - t % 86_400_000 + 86_399_999

abbrev is_due_by : ℕ → Option ℕ → Bool
is_due_by now none = false
is_due_by now (some t) = ltb (end_of_day t) now || leb t now

abbrev pub is_matured : ℕ → Invoice → Bool
is_matured now invoice =
    status_eq invoice.status settled
    || status_eq invoice.status failed
    || is_due_by now invoice.due_date

abbrev pub expires_by : ℕ → Option ℕ → Bool
expires_by now none = false
expires_by now (some t) = leb t now

-- 30 days from now if neither the caller nor the invoice has a date.
abbrev pub effective_expiry : ℕ → Option ℕ → Option ℕ → ℕ
effective_expiry now (some t) due = t
effective_expiry now none (some t) = t
effective_expiry now none none = now + 2_592_000_000

-- A confirmed holding of the seller, known by a wallet or by an id. The source puts a condition for
-- each that is given in a list; an empty list of conditions is no condition.
abbrev pub is_held_by : String → String → Option String → Investment → Bool
is_held_by invoice_id wallet seller_id v =
    if truthy (some wallet) || truthy seller_id
    then is_backing invoice_id v
      && (truthy (some wallet) && opt_eq v.investor_wallet (some wallet)
          || truthy seller_id && opt_eq (some v.investor_id) seller_id)
    else true

abbrev pub held_by : String → String → Option String → Db → List Investment
held_by invoice_id wallet seller_id db =
    filter (is_held_by invoice_id wallet seller_id) db.investments

abbrev pub is_active : ListingStatus → Bool
is_active active = true
is_active _ = false

abbrev pub is_expired : ℕ → SecondaryListing → Bool
is_expired now l = ltb l.expires_at now

-- An active listing of the seller: by either of wallet and id if both are given, else by the one
-- that is.
abbrev pub is_listed_by : String → String → Option String → SecondaryListing → Bool
is_listed_by invoice_id wallet seller_id l =
    str_eq l.invoice_id invoice_id
    && is_active l.status
    && (if truthy (some wallet) && truthy seller_id
        then str_eq l.seller_wallet wallet || opt_eq l.seller_id seller_id
        else (not (truthy (some wallet)) || str_eq l.seller_wallet wallet)
          && (not (truthy seller_id) || opt_eq l.seller_id seller_id))

-- What the seller offers already.
abbrev pub currently_listed : ℕ → String → String → Option String → List SecondaryListing → ℕ
currently_listed now invoice_id wallet seller_id ls =
    sum_by (λ l. l.quantity)
      (filter (λ l. is_listed_by invoice_id wallet seller_id l && not (is_expired now l)) ls)

abbrev pub total_held : List Investment → ℕ
total_held = sum_by (λ v. v.investment_amount)

abbrev pub is_empty_list : List Investment → Bool
is_empty_list [] = true
is_empty_list (_ ∷ _) = false

abbrev pub or_null : Option String → Option String
or_null o = if truthy o then o else none

-- The checks on the invoice that listing and buying share.
abbrev pub check_open : Invoice → Db → Result (Unit {0})
check_open invoice db = do
  throw_if (not (status_eq invoice.status funded)) (service_error invalid_invoice_status 400)
  throw_if (has_open_intent invoice.id db.intents) (service_error settlement_in_progress 409)

abbrev pub new_listing : (ℕ → ℕ → ℕ) → String → ℕ → CreateInput → Invoice → SecondaryListing
new_listing total_price id now input invoice = record {
  id = id;
  invoice_id = input.invoice_id;
  seller_wallet = input.seller_wallet;
  seller_id = or_null input.seller_id;
  quantity = amount_of input.quantity;
  price_per_fraction = amount_of input.price_per_fraction;
  total_price = total_price (amount_of input.quantity) (amount_of input.price_per_fraction);
  status = active;
  expires_at = effective_expiry now input.expires_at invoice.due_date;
  cancellation_reason = none;
}

-- `id` is the identifier that the database draws.
unfoldable pub create_listing :
    (ℕ → ℕ → ℕ) → String → ℕ → CreateInput → Db → Result (SecondaryListing × Db)
create_listing total_price id now input db = do
  throw_if (not_positive input.quantity) (service_error invalid_quantity 400)
  throw_if (not_positive input.price_per_fraction) (service_error invalid_price 400)
  throw_if (expires_by now input.expires_at) (service_error invalid_expiry 400)
  invoice ← find_invoice input.invoice_id db
  throw_if (is_matured now invoice) (service_error invoice_matured 422)
  check_open invoice db
  throw_if (leb (effective_expiry now input.expires_at invoice.due_date) now)
      (service_error invalid_expiry 400)
  let held = held_by input.invoice_id input.seller_wallet input.seller_id db
  throw_if (is_empty_list held) (service_error no_holdings 400)
  throw_if
      (ltb (total_held held) (
        amount_of input.quantity
        + currently_listed now input.invoice_id input.seller_wallet input.seller_id db.listings))
      (service_error insufficient_holdings 400)
  let listing = new_listing total_price id now input invoice
  ok (listing, record db { listings = db.listings ++ (listing ∷ []) })
