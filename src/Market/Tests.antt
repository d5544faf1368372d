-- ===== src/Market/Tests.antt =====
-- Concrete cases of the theorems about the secondary market.
use ss_backend.Common.{
  inl, ℕ, ◌+◌, ◌*◌, ◌/◌, String, ◌≡◌, refl, ◌↔◌, none, some, [], ◌∷◌, map, pos, ok,
}
use ss_backend.Models.{sold, funded, Investment, InvestmentStatus, active, SecondaryListing, Db}
use ss_backend.Market.{CreateInput, create_listing}
use ss_backend.Market.Purchase.{
  BuyInput, listing_by_id, save_listing, check_buy, transfer, deduct, credit, CancelInput,
  cancelled_listing, cancel_listing,
}
use ss_backend.Market.Cancel.{Owns, Cancels, cancel_listing_lem}
use ss_backend.Market.Transfer.{total_backing}
use ss_backend.Market.Listings.{
  Offers, create-Offers, MayBuy, check_buy_iff, MarketCall, cancel, call_all, closed_stays,
}

abbrev rounded : ℕ → ℕ → ℕ
rounded q p = (q * p + 5_000) / 10_000

abbrev holding : String → String → ℕ → Investment
holding id investor amount = record {
  id = id;
  invoice_id = "inv-1";
  investor_id = investor;
  investor_wallet = some investor;
  funding_block = none;
  investment_amount = amount;
  expected_return = amount;
  actual_return = none;
  status = InvestmentStatus.confirmed;
}

abbrev database : Db
database = record {
  invoices =
      record {
        id = "inv-1";
        seller_id = "issuer";
        invoice_number = "N-1";
        amount = 10_000;
        discount_rate = 1_000;
        net_amount = 9_000;
        funded_amount = 0;
        due_date = some 500;
        ipfs_hash = none;
        status = funded;
        rejection_reason = none;
        settlement_remainder = none;
        funding_deadline = none;
        version = 1;
      }
      ∷ [];
  deleted_invoices = [];
  history = [];
  investments = holding "a" "ann" 300 ∷ holding "b" "bob" 200 ∷ holding "c" "ann" 100 ∷ [];
  users = [];
  intents = [];
  returns = [];
  remainders = [];
  transactions = [];
  listings = [];
  acknowledgements = [];
  next_id = 1;
}

abbrev offer : CreateInput
offer = record {
  invoice_id = "inv-1";
  seller_wallet = "ann";
  seller_id = none;
  quantity = pos 350;
  price_per_fraction = pos 20_000;
  expires_at = none;
}

abbrev offered : SecondaryListing
offered = record {
  id = "l-1";
  invoice_id = "inv-1";
  seller_wallet = "ann";
  seller_id = none;
  quantity = 350;
  price_per_fraction = 20_000;
  total_price = 700;
  status = active;
  expires_at = 500;
  cancellation_reason = none;
}

abbrev listed : Db
listed = record database { listings = offered ∷ [] }

creates : create_listing rounded "l-1" 100 offer database ≡ ok (offered, listed)
unfolding create_listing
creates = refl

create-Offers_example : Offers 100 offer database offered listed
create-Offers_example = create-Offers rounded "l-1" 100 offer database offered listed creates

abbrev wish : BuyInput
wish = record { listing_id = "l-1"; buyer_wallet = "bob"; buyer_id = "bob"; quantity = none }

check_buy_iff_example :
    (check_buy 100 wish listed ≡ ok (offered, 350)) ↔ MayBuy 100 wish listed offered 350
check_buy_iff_example = check_buy_iff 100 wish listed offered 350

abbrev after_purchase : Db
after_purchase = (transfer rounded "d" "simulated" wish listed offered 350).1

-- The buyer ends with the whole quantity, and the seller with what is left.
purchase_test : map (λ v. v.investment_amount) after_purchase.investments ≡ 0 ∷ 550 ∷ 50 ∷ []
unfolding transfer deduct credit
purchase_test = refl

-- A seller whose holdings have shrunk since the listing: the buyer is credited all the same, and the
-- holdings of the invoice grow by what is missing.
abbrev shrunk : Db
shrunk = record listed { investments = holding "a" "ann" 100 ∷ [] }

minting_test :
    (total_backing "inv-1" shrunk.investments ≡ 100)
    × (total_backing "inv-1"
          (transfer rounded "d" "simulated" wish shrunk offered 350).1.investments
        ≡ 350)
unfolding transfer deduct credit
minting_test = (refl, refl)

abbrev withdrawal : CancelInput
withdrawal = record { listing_id = "l-1"; seller_wallet = "ann"; reason = none; seller_id = none }

abbrev withdrawn : Db
withdrawn = save_listing (cancelled_listing offered withdrawal) listed

cancel_listing_lem_example :
    ((m : SecondaryListing)
      → listing_by_id "l-1" listed ≡ some m
      → Owns withdrawal m
      → m.status ≡ active
      → (l : SecondaryListing) × (db' : Db) × (cancel_listing withdrawal listed listed
          ≡ ok (l, db')))
    × ((l : SecondaryListing) (db' : Db)
        → cancel_listing withdrawal listed listed ≡ ok (l, db')
        → Cancels withdrawal listed listed l db')
cancel_listing_lem_example = cancel_listing_lem withdrawal listed listed

-- The owner's call returns.
cancel_test :
    (l : SecondaryListing) × (db' : Db) × (cancel_listing withdrawal listed listed ≡ ok (l, db'))
cancel_test = cancel_listing_lem_example.0 offered refl (inl refl) refl

-- The listing is sold between the read and the save of the cancellation: the sale is overwritten.
abbrev sold_out : Db
sold_out = record listed { listings = record offered { status = sold } ∷ [] }

overwritten_test :
    cancel_listing withdrawal listed sold_out
    ≡ ok (
      cancelled_listing offered withdrawal,
      record sold_out { listings = cancelled_listing offered withdrawal ∷ [] },
    )
unfolding cancel_listing
overwritten_test = refl

closed_stays_example :
    listing_by_id "l-1" (
      call_all rounded (MarketCall.buy "d" "simulated" 100 wish ∷ cancel withdrawal ∷ []) withdrawn)
    ≡ some (cancelled_listing offered withdrawal)
closed_stays_example =
    closed_stays rounded (MarketCall.buy "d" "simulated" 100 wish ∷ cancel withdrawal ∷ []) "l-1"
      (cancelled_listing offered withdrawal) withdrawn refl refl
