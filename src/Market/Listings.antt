-- ===== src/Market/Listings.antt =====
-- The life of a listing: what may be offered, who may buy, and that a closed listing stays as it is.
use ss_backend.Common.{
  ℕ, zero, suc, ◌+◌, ◌≤◌, ◌<◌, leb, ltb, ℤ, pos, negsuc, String, ◌≡◌, refl, sym, ◌∙◌, ◌↔◌, inl, inr,
  true, false, not, Option, some, List, [], ◌∷◌, ◌++◌, arith, str_eq, eq_iff, find_sound,
  find-append, find-upsert, Bool-cases, Result, Result-cases, ok, err, ServiceError,
}
use ss_backend.Common.Checks.{>>=-eq-ok, or_throw, throw_if}
use ss_backend.Models.{funded, Invoice, active, SecondaryListing, Db}
use ss_backend.Invoice.Machine.{has_open_intent}
use ss_backend.Settlement.Intents.{find_invoice}
use ss_backend.Market.{
  CreateInput, amount_of, total_held, held_by, is_active, is_expired, currently_listed,
  create_listing, check_open, not_positive, expires_by, is_matured, effective_expiry, is_empty_list,
  new_listing,
}
use ss_backend.Market.Cancel.{cancel_sound}
use ss_backend.Market.Purchase.{
  BuyInput, listing_by_id, save_listing, after_sale, check_buy, transfer, buy_listing, CancelInput,
  cancelled_listing, cancel_listing, wanted, is_own_listing,
}

currently_listed-append :
    (now : ℕ) (i wallet : String) (seller_id : Option String) (xs ys : List SecondaryListing)
    → currently_listed now i wallet seller_id (xs ++ ys)
      ≡ currently_listed now i wallet seller_id xs + currently_listed now i wallet seller_id ys
currently_listed-append now i wallet seller_id [] ys = omega arith
currently_listed-append now i wallet seller_id (x ∷ xs) ys =
    ground (arith, currently_listed-append now i wallet seller_id xs ys)

-- What a returned listing is, and that all that its seller now offers is held.
pub record Offers (now : ℕ) (input : CreateInput) (db : Db) (l : SecondaryListing) (db' : Db)
    : Type 0 where
  pub status : l.status ≡ active
  pub positive : 0 < l.quantity
  pub quantity : pos l.quantity ≡ input.quantity
  pub open_ended : now < l.expires_at
  pub appended : db' ≡ record db { listings = db.listings ++ (l ∷ []) }
  pub covered :
      currently_listed now input.invoice_id input.seller_wallet input.seller_id db'.listings
      ≤ total_held (held_by input.invoice_id input.seller_wallet input.seller_id db)

positive_of : (z : ℤ) → not_positive z ≡ false → 0 < amount_of z
positive_of (pos zero) e = cc
positive_of (pos (suc n)) e = omega arith
positive_of (negsuc n) e = cc

quantity_of : (z : ℤ) → not_positive z ≡ false → pos (amount_of z) ≡ z
quantity_of (pos n) e = refl
quantity_of (negsuc n) e = cc

-- A returned listing is as asked, starts active, and does not make its seller offer more than the
-- seller holds.
pub create-Offers :
    (total_price : ℕ → ℕ → ℕ) (id : String) (now : ℕ) (input : CreateInput) (db : Db)
    (l : SecondaryListing) (db' : Db)
    → create_listing total_price id now input db ≡ ok (l, db')
    → Offers now input db l db'
unfolding create_listing
create-Offers total_price id now input db l db' e =
    let (_, some_quantity, e1) = >>=-eq-ok (throw_if (not_positive input.quantity) _) _ e in
    let (_, some_price, e2) = >>=-eq-ok (throw_if (not_positive input.price_per_fraction) _) _ e1 in
    let (_, not_over, e3) = >>=-eq-ok (throw_if (expires_by now input.expires_at) _) _ e2 in
    let (v, found, e4) = >>=-eq-ok (find_invoice input.invoice_id db) _ e3 in
    let (_, unmatured, e5) = >>=-eq-ok (throw_if (is_matured now v) _) _ e4 in
    let (_, opened, e6) = >>=-eq-ok (check_open v db) _ e5 in
    let (_, ahead, e7) =
      >>=-eq-ok (throw_if (leb (effective_expiry now input.expires_at v.due_date) now) _) _ e6 in
    let held = held_by input.invoice_id input.seller_wallet input.seller_id db in
    let (_, holding, e8) = >>=-eq-ok (throw_if (is_empty_list held) _) _ e7 in
    let (_, covers, e9) =
      >>=-eq-ok
        (throw_if
          (ltb (total_held held) (
            amount_of input.quantity
            + currently_listed now input.invoice_id input.seller_wallet input.seller_id
                db.listings))
          _)
        _ e8 in
    let new : new_listing total_price id now input v ≡ l = cc e9 in
    let written : record db {
      listings = db.listings ++ (new_listing total_price id now input v ∷ []);
    }
        ≡ db' =
      cc e9 in
    rw (← new, ← written)
      (record {
        status = refl;
        positive = positive_of input.quantity (ground arith);
        quantity = quantity_of input.quantity (ground arith);
        open_ended = ground arith;
        appended = refl;
        covered = rw currently_listed-append (ground arith);
      })

-- The listing, the invoice and the quantity of a purchase that is allowed.
pub record MayBuy (now : ℕ) (input : BuyInput) (db : Db) (l : SecondaryListing) (q : ℕ)
    : Type 0 where
  pub listed : listing_by_id input.listing_id db ≡ some l
  pub status : is_active l.status ≡ true
  pub in_time : now ≤ l.expires_at
  pub not_own : is_own_listing l input ≡ false
  pub invoice : Invoice
  pub found : find_invoice l.invoice_id db ≡ ok invoice
  pub is_funded : invoice.status ≡ funded
  pub unsettled : has_open_intent invoice.id db.intents ≡ false
  pub asked : wanted input.quantity l ≡ pos q
  pub positive : 0 < q
  pub within : q ≤ l.quantity

buy_sound :
    (now : ℕ) (input : BuyInput) (db : Db) (l : SecondaryListing) (q : ℕ)
    → check_buy now input db ≡ ok (l, q)
    → MayBuy now input db l q
unfolding check_buy
buy_sound now input db l q e =
    let (m, listed, e1) = >>=-eq-ok (or_throw (listing_by_id input.listing_id db) _) _ e in
    let (_, is_open, e2) = >>=-eq-ok (throw_if (not (is_active m.status)) _) _ e1 in
    let (_, unexpired, e3) = >>=-eq-ok (throw_if (is_expired now m) _) _ e2 in
    let (_, other, e4) = >>=-eq-ok (throw_if (is_own_listing m input) _) _ e3 in
    let (v, found, e5) = >>=-eq-ok (find_invoice m.invoice_id db) _ e4 in
    let (_, opened, e6) = >>=-eq-ok (check_open v db) _ e5 in
    let (_, some_quantity, e7) =
      >>=-eq-ok (throw_if (not_positive (wanted input.quantity m)) _) _ e6 in
    let (_, covers, e8) =
      >>=-eq-ok (throw_if (ltb m.quantity (amount_of (wanted input.quantity m))) _) _ e7 in
    let same : m ≡ l = cc e8 in
    let all : amount_of (wanted input.quantity m) ≡ q = cc e8 in
    rw (← same, ← all)
      (record {
        listed = ground arith;
        status = ground arith;
        in_time = ground arith;
        not_own = ground arith;
        invoice = v;
        found = found;
        is_funded = ground arith;
        unsettled = ground arith;
        asked = sym (quantity_of (wanted input.quantity m) (ground arith));
        positive = positive_of (wanted input.quantity m) (ground arith);
        within = ground arith;
      })

buy_complete :
    (now : ℕ) (input : BuyInput) (db : Db) (l : SecondaryListing) (q : ℕ)
    → MayBuy now input db l q
    → check_buy now input db ≡ ok (l, q)
unfolding check_buy
buy_complete now input db l q p = rw (p.listed, p.status) (rw (p.found) (ground arith))

-- A purchase is let through exactly when the listing is found, active, in time and not the buyer's own,
-- its invoice is found, funded and not being settled, and the quantity is positive and on offer.
pub check_buy_iff :
    (now : ℕ) (input : BuyInput) (db : Db) (l : SecondaryListing) (q : ℕ)
    → (check_buy now input db ≡ ok (l, q)) ↔ MayBuy now input db l q
check_buy_iff now input db l q = (buy_sound now input db l q, buy_complete now input db l q)

-- A call of the market, with what the environment gives it.
pub data MarketCall : Type 0 where
  create : (id : String) → (now : ℕ) → CreateInput → MarketCall
  buy : (id hash : String) → (now : ℕ) → BuyInput → MarketCall
  cancel : CancelInput → MarketCall

abbrev kept_db {ℓ} : {A : Type ℓ} → Db → Result (A × Db) → Db
kept_db db (err _) = db
kept_db db (ok (_, db')) = db'

pub call : (ℕ → ℕ → ℕ) → MarketCall → Db → Db
call total_price (create id now input) db = kept_db db (create_listing total_price id now input db)
call total_price (buy id hash now input) db =
    kept_db db (buy_listing total_price id hash now input db)
call total_price (cancel input) db = kept_db db (cancel_listing input db db)

-- Calls in turn, each after the one before has written; one that throws is rolled back.
pub call_all : (ℕ → ℕ → ℕ) → List MarketCall → Db → Db
call_all total_price [] db = db
call_all total_price (c ∷ cs) db = call_all total_price cs (call total_price c db)

-- Saving over a row that was read as active leaves a closed one.
save-Keeps :
    (id key : String) (l m v : SecondaryListing) (db : Db)
    → listing_by_id id db ≡ some l
    → is_active l.status ≡ false
    → listing_by_id key db ≡ some m
    → is_active m.status ≡ true
    → v.id ≡ m.id
    → listing_by_id id (save_listing v db) ≡ some l
save-Keeps id key l m v db e c f a s =
    let own : m.id ≡ key =
      (eq_iff m.id key).0 (find_sound (λ x. str_eq x.id key) db.listings m f) in
    elim (Bool-cases (str_eq v.id id)) [
      | inl t ↦
          let same : key ≡ id = sym own ∙ sym s ∙ (eq_iff v.id id).0 t in
          let both : listing_by_id id db ≡ some m = rw same at f in
          let one : l ≡ m = cc both in absurd (closed_is_not_active l m c a one)
      | inr t ↦ find-upsert (λ x. x.id) v id db.listings t ∙ e
    ]
  where
    closed_is_not_active :
        (l m : SecondaryListing)
        → is_active l.status ≡ false
        → is_active m.status ≡ true
        → ¬ (l ≡ m)
    closed_is_not_active l m c a q = cc

buy_throws :
    (total_price : ℕ → ℕ → ℕ) (id hash : String) (now : ℕ) (input : BuyInput) (db : Db)
    {x : ServiceError}
    → check_buy now input db ≡ err x
    → kept_db db (buy_listing total_price id hash now input db) ≡ db
unfolding buy_listing
buy_throws total_price id hash now input db q = rw q refl

buy_writes :
    (total_price : ℕ → ℕ → ℕ) (id hash : String) (now : ℕ) (input : BuyInput) (db : Db)
    {l : SecondaryListing} {n : ℕ}
    → check_buy now input db ≡ ok (l, n)
    → (kept_db db (buy_listing total_price id hash now input db)).listings
      ≡ (save_listing (after_sale total_price n l) db).listings
unfolding buy_listing transfer
buy_writes total_price id hash now input db q = rw q refl

call_keeps :
    (total_price : ℕ → ℕ → ℕ) (c : MarketCall) (id : String) (l : SecondaryListing) (db : Db)
    → listing_by_id id db ≡ some l
    → is_active l.status ≡ false
    → listing_by_id id (call total_price c db) ≡ some l
unfolding call
call_keeps total_price (create new now input) id l db e a =
    elim (Result-cases (create_listing total_price new now input db)) [
      | inl (x, q) ↦ rw q e
      | inr ((m, db'), q) ↦
          rw (q, (create-Offers total_price new now input db m db' q).appended)
            (find-append (λ x. str_eq x.id id) db.listings (m ∷ []) l e)
    ]
call_keeps total_price (buy new hash now input) id l db e a =
    elim (Result-cases (check_buy now input db)) [
      | inl (x, q) ↦ rw (buy_throws total_price new hash now input db q) e
      | inr ((m, n), q) ↦
          let p = buy_sound now input db m n q in
          rw (buy_writes total_price new hash now input db q) (
            save-Keeps id input.listing_id l m (after_sale total_price n m) db e a p.listed p.status
              (ground arith))
    ]
call_keeps total_price (cancel input) id l db e a =
    elim (Result-cases (cancel_listing input db db)) [
      | inl (x, q) ↦ rw q e
      | inr ((m, db'), q) ↦
          let (k, p) = cancel_sound input db db m db' q in
          rw (q, p.written)
            (save-Keeps id input.listing_id l k (cancelled_listing k input) db e a p.read
              (rw p.was_active refl) refl)
    ]

-- Whatever calls follow one after the other, a listing that is sold or cancelled stays as it is.
pub closed_stays :
    (total_price : ℕ → ℕ → ℕ) (cs : List MarketCall) (id : String) (l : SecondaryListing) (db : Db)
    → listing_by_id id db ≡ some l
    → is_active l.status ≡ false
    → listing_by_id id (call_all total_price cs db) ≡ some l
unfolding call_all
closed_stays total_price [] id l db e a = e
closed_stays total_price (c ∷ cs) id l db e a =
    closed_stays total_price cs id l (call total_price c db) (call_keeps total_price c id l db e a)
      a
