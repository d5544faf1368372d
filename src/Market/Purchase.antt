-- ===== src/Market/Purchase.antt =====
-- src/services/secondary-market.service.ts: `buyListing` and `cancelListing`.
use ss_backend.Common.{
  ℕ, ◌+◌, ◌-◌, ℤ, pos, ◌==◌, ltb, leb, String, Bool, not, ◌&&◌, ◌||◌, Option, none, some, List, [],
  ◌∷◌, ◌++◌, if◌then◌else◌, str_eq, opt_eq, truthy, find, upsert, Result, ok, service_error,
  invalid_quantity, listing_not_found, listing_not_active, listing_expired, self_purchase,
  over_purchase, forbidden,
}
use ss_backend.Common.Checks.{◌>>=◌, ◌>>◌, throw_if, or_throw}
use ss_backend.Models.{
  Investment, InvestmentStatus, ListingStatus, sold, SecondaryListing, Transaction, Db,
}
use ss_backend.Settlement.Intents.{find_invoice, is_backing}
use ss_backend.Market.{not_positive, amount_of, held_by, is_active, is_expired, check_open, or_null}

pub record BuyInput : Type 0 where
  pub listing_id : String
  pub buyer_wallet : String
  pub buyer_id : String
  pub quantity : Option ℤ

abbrev pub listing_by_id : String → Db → Option SecondaryListing
listing_by_id id db = find (λ l. str_eq l.id id) db.listings

abbrev pub save_listing : SecondaryListing → Db → Db
save_listing l db = record db { listings = upsert (λ m. str_eq m.id l.id) l db.listings }

abbrev pub is_own_listing : SecondaryListing → BuyInput → Bool
is_own_listing l input =
    str_eq l.seller_wallet input.buyer_wallet
    || truthy l.seller_id
      && (truthy (some input.buyer_id) && opt_eq l.seller_id (some input.buyer_id))

abbrev pub wanted : Option ℤ → SecondaryListing → ℤ
wanted (some q) l = q
wanted none l = pos l.quantity

abbrev pub save_investment : Investment → List Investment → List Investment
save_investment v = upsert (λ w. str_eq w.id v.id) v

-- What a holding keeps when a quantity is taken from it, and what of the quantity is left.
abbrev pub kept : ℕ → Investment → Investment
kept q v = record v {
  investment_amount = if leb v.investment_amount q then 0 else v.investment_amount - q;
}

abbrev pub still_due : ℕ → Investment → ℕ
still_due q v = if leb v.investment_amount q then q - v.investment_amount else 0

-- The loop that takes a quantity from the seller's holdings; what is left over is not reported.
unfoldable pub deduct : ℕ → List Investment → List Investment → ℕ × List Investment
deduct q [] table = (q, table)
deduct q (v ∷ vs) table =
    let rest = deduct (still_due q v) vs (save_investment (kept q v) table) in
    if q == 0 then (q, table) else rest

abbrev pub is_buyers : String → String → Investment → Bool
is_buyers invoice_id buyer_id v = is_backing invoice_id v && str_eq v.investor_id buyer_id

abbrev bought : String → String → BuyInput → ℕ → Investment
bought id invoice_id input q = record {
  id = id;
  invoice_id = invoice_id;
  investor_id = input.buyer_id;
  investor_wallet = some input.buyer_wallet;
  funding_block = none;
  investment_amount = q;
  expected_return = q;
  actual_return = none;
  status = InvestmentStatus.confirmed;
}

abbrev pub topped_up : BuyInput → ℕ → Investment → Investment
topped_up input q v = record v {
  investment_amount = v.investment_amount + q;
  investor_wallet =
      if truthy (some input.buyer_wallet) && not (truthy v.investor_wallet)
      then some input.buyer_wallet
      else v.investor_wallet;
}

-- The buyer's holding, and the table with it.
unfoldable pub credit :
    String → String → BuyInput → ℕ → List Investment → Investment × List Investment
credit id invoice_id input q table = elim (find (is_buyers invoice_id input.buyer_id) table) [
  | none ↦ (bought id invoice_id input q, table ++ (bought id invoice_id input q ∷ []))
  | some v ↦ (topped_up input q v, save_investment (topped_up input q v) table)
]

abbrev payment : String → String → Option String → ℕ → String → Transaction
payment user_id invoice_id investment_id amount hash = record {
  user_id = user_id;
  invoice_id = invoice_id;
  investment_id = investment_id;
  amount = amount;
  stellar_tx_hash = hash;
}

abbrev payments : SecondaryListing → BuyInput → Investment → ℕ → String → List Transaction
payments l input v price hash =
    payment input.buyer_id l.invoice_id (some v.id) price hash ∷ elim l.seller_id [
      | none ↦ []
      | some s ↦ if truthy (some s) then payment s l.invoice_id none price hash ∷ [] else []
    ]

-- The listing after the sale.
abbrev pub after_sale : (ℕ → ℕ → ℕ) → ℕ → SecondaryListing → SecondaryListing
after_sale total_price q l = if q == l.quantity then record l { status = sold } else record l {
  quantity = l.quantity - q;
  total_price = total_price (l.quantity - q) l.price_per_fraction;
}

pub record BuyResult : Type 0 where
  pub listing_id : String
  pub buyer_wallet : String
  pub quantity : ℕ
  pub total_price : ℕ

-- The guards of a purchase: the listing and how much of it is bought.
unfoldable pub check_buy : ℕ → BuyInput → Db → Result (SecondaryListing × ℕ)
check_buy now input db = do
  l ← or_throw (listing_by_id input.listing_id db) (service_error listing_not_found 404)
  throw_if (not (is_active l.status)) (service_error listing_not_active 400)
  throw_if (is_expired now l) (service_error listing_expired 400)
  throw_if (is_own_listing l input) (service_error self_purchase 400)
  invoice ← find_invoice l.invoice_id db
  check_open invoice db
  throw_if (not_positive (wanted input.quantity l)) (service_error invalid_quantity 400)
  throw_if (ltb l.quantity (amount_of (wanted input.quantity l))) (service_error over_purchase 409)
  ok (l, amount_of (wanted input.quantity l))

-- The writes of a purchase, which cannot fail.
unfoldable pub transfer :
    (ℕ → ℕ → ℕ) → String → String → BuyInput → Db → SecondaryListing → ℕ → BuyResult × Db
unfolding deduct credit
transfer total_price id hash input db l q =
    let deducted = deduct q (held_by l.invoice_id l.seller_wallet l.seller_id db) db.investments in
    let credited = credit id l.invoice_id input q deducted.1 in
    let price = total_price q l.price_per_fraction in
    (
      record {
        listing_id = input.listing_id;
        buyer_wallet = input.buyer_wallet;
        quantity = q;
        total_price = price;
      },
      record (save_listing (after_sale total_price q l) db) {
        investments = credited.1;
        transactions = db.transactions ++ payments l input credited.0 price hash;
      },
    )

-- `id` is drawn by the database for a new holding, `hash` is the simulated transaction hash.
unfoldable pub buy_listing :
    (ℕ → ℕ → ℕ) → String → String → ℕ → BuyInput → Db → Result (BuyResult × Db)
unfolding check_buy transfer
buy_listing total_price id hash now input db =
    check_buy now input db >>= λ found. ok (transfer total_price id hash input db found.0 found.1)

pub record CancelInput : Type 0 where
  pub listing_id : String
  pub seller_wallet : String
  pub reason : Option String
  pub seller_id : Option String

abbrev pub is_owner : SecondaryListing → CancelInput → Bool
is_owner l input =
    str_eq l.seller_wallet input.seller_wallet
    || truthy input.seller_id && (truthy l.seller_id && opt_eq l.seller_id input.seller_id)

abbrev pub cancelled_listing : SecondaryListing → CancelInput → SecondaryListing
cancelled_listing l input = record l {
  status = ListingStatus.cancelled;
  cancellation_reason = or_null input.reason;
}

-- The listing is read without a lock (from `seen`), and the whole row is saved later (on `db`).
unfoldable pub cancel_listing : CancelInput → Db → Db → Result (SecondaryListing × Db)
cancel_listing input seen db = do
  l ← or_throw (listing_by_id input.listing_id seen) (service_error listing_not_found 404)
  throw_if (not (is_owner l input)) (service_error forbidden 403)
  throw_if (not (is_active l.status)) (service_error listing_not_active 400)
  ok (cancelled_listing l input, save_listing (cancelled_listing l input) db)
