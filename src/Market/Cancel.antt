-- ===== src/Market/Cancel.antt =====
-- src/services/secondary-market.service.ts, `cancelListing`: who may cancel, and what it writes.
use ss_backend.Common.{
  String, ◌≡◌, ◌≢◌, refl, ◌⊎◌, inl, inr, ◌∙◌, sym, true, false, not, ◌&&◌, Option, none, some,
  arith, str_eq, eq_iff, truthy, opt_eq, find_sound, find-upsert, find-upsert_self, Bool-cases, ok,
}
use ss_backend.Common.Checks.{>>=-eq-ok, or_throw, throw_if}
use ss_backend.Models.{ListingStatus, active, SecondaryListing, Db}
use ss_backend.Market.{is_active, or_null}
use ss_backend.Market.Purchase.{
  listing_by_id, save_listing, CancelInput, is_owner, cancelled_listing, cancel_listing,
}

-- The acting wallet sold the listing, or the acting user did.
abbrev pub Owns : CancelInput → SecondaryListing → Type 0
Owns input m =
    (m.seller_wallet ≡ input.seller_wallet)
    ⊎ ((u : String) × (u ≢ "") × (input.seller_id ≡ some u) × (m.seller_id ≡ some u))

-- The listing that was read was the caller's and active, and it is written.
pub record Withdraws (input : CancelInput) (seen db : Db) (l : SecondaryListing) (db' : Db)
    (m : SecondaryListing) : Type 0 where
  pub read : listing_by_id input.listing_id seen ≡ some m
  pub owned : Owns input m
  pub was_active : m.status ≡ active
  pub row : l ≡ cancelled_listing m input
  pub written : db' ≡ save_listing (cancelled_listing m input) db

user_owns :
    (a b : Option String)
    → (truthy a && (truthy b && opt_eq b a)) ≡ true
    → (u : String) × (u ≢ "") × (a ≡ some u) × (b ≡ some u)
user_owns none b e = cc
user_owns (some a) none e = absurd (ground arith)
user_owns (some a) (some b) e =
    let same : b ≡ a = ground (arith, eq_iff b a) in
    let full : str_eq a "" ≡ false = ground arith in
    (a, (λ q. cc ((eq_iff a "").1 q, full)), refl, rw same refl)

is_owner-Owns :
    (m : SecondaryListing) (input : CancelInput) → is_owner m input ≡ true → Owns input m
is_owner-Owns m input e = elim (Bool-cases (str_eq m.seller_wallet input.seller_wallet)) [
  | inl y ↦ inl ((eq_iff m.seller_wallet input.seller_wallet).0 y)
  | inr n ↦ inr (user_owns input.seller_id m.seller_id (ground arith))
]

Owns-is_owner :
    (m : SecondaryListing) (input : CancelInput) → Owns input m → is_owner m input ≡ true
Owns-is_owner m input (inl w) =
    let y = (eq_iff m.seller_wallet input.seller_wallet).1 w in ground arith
Owns-is_owner m input (inr (u, full, a, b)) = elim (Bool-cases (str_eq u "")) [
  | inl y ↦ absurd (full ((eq_iff u "").0 y))
  | inr n ↦ let y = (eq_iff u u).1 refl in rw (a, b) (ground arith)
]

is_active_eq : (s : ListingStatus) → is_active s ≡ true → s ≡ active
is_active_eq s e = ground arith

pub cancel_sound :
    (input : CancelInput) (seen db : Db) (l : SecondaryListing) (db' : Db)
    → cancel_listing input seen db ≡ ok (l, db')
    → (m : SecondaryListing) × Withdraws input seen db l db' m
unfolding cancel_listing
cancel_sound input seen db l db' e =
    let (m, listed, e1) = >>=-eq-ok (or_throw (listing_by_id input.listing_id seen) _) _ e in
    let (_, owned, e2) = >>=-eq-ok (throw_if (not (is_owner m input)) _) _ e1 in
    let (_, is_open, e3) = >>=-eq-ok (throw_if (not (is_active m.status)) _) _ e2 in
    (
      m,
      record {
        read = ground arith;
        owned = is_owner-Owns m input (ground arith);
        was_active = is_active_eq m.status (ground arith);
        row = cc e3;
        written = cc e3;
      },
    )

-- What the call leaves: the listing as it was read but cancelled, with the reason if one is
-- given that is not empty, and everything else as it is.
pub record Cancels (input : CancelInput) (seen db : Db) (l : SecondaryListing) (db' : Db)
    : Type 0 where
  pub listing : SecondaryListing
  pub read : listing_by_id input.listing_id seen ≡ some listing
  pub owned : Owns input listing
  pub was_active : listing.status ≡ active
  pub is_cancelled : l.status ≡ ListingStatus.cancelled
  pub reason : l.cancellation_reason ≡ or_null input.reason
  pub same_quantity : l.quantity ≡ listing.quantity
  pub same_wallet : l.seller_wallet ≡ listing.seller_wallet
  pub same_invoice : l.invoice_id ≡ listing.invoice_id
  pub same_price : l.total_price ≡ listing.total_price
  pub saved : listing_by_id input.listing_id db' ≡ some l
  pub others : (k : String) → k ≢ input.listing_id → listing_by_id k db' ≡ listing_by_id k db
  pub only_listings : db' ≡ record db { listings = db'.listings }

withdrawn-Cancels :
    (input : CancelInput) (seen db : Db) (m : SecondaryListing)
    → listing_by_id input.listing_id seen ≡ some m
    → Owns input m
    → m.status ≡ active
    → Cancels input seen db
        (cancelled_listing m input)
        (save_listing (cancelled_listing m input) db)
withdrawn-Cancels input seen db m read owned was_active =
    let same : m.id ≡ input.listing_id =
      (eq_iff m.id input.listing_id).0
        (find_sound (λ x. str_eq x.id input.listing_id) seen.listings m read) in
    record {
      listing = m;
      read = read;
      owned = owned;
      was_active = was_active;
      is_cancelled = refl;
      reason = refl;
      same_quantity = refl;
      same_wallet = refl;
      same_invoice = refl;
      same_price = refl;
      saved = rw (← same) (find-upsert_self (λ x. x.id) (cancelled_listing m input) db.listings);
      others = λ k ne. elim (Bool-cases (str_eq m.id k)) [
        | inl y ↦ absurd (ne (sym ((eq_iff m.id k).0 y) ∙ same))
        | inr n ↦ find-upsert (λ x. x.id) (cancelled_listing m input) k db.listings n
      ];
      only_listings = refl;
    }

pub cancel_listing_lem :
    (input : CancelInput) (seen db : Db)
    → ((m : SecondaryListing)
        → listing_by_id input.listing_id seen ≡ some m
        → Owns input m
        → m.status ≡ active
        → (l : SecondaryListing) × (db' : Db) × (cancel_listing input seen db ≡ ok (l, db')))
      × ((l : SecondaryListing) (db' : Db)
          → cancel_listing input seen db ≡ ok (l, db')
          → Cancels input seen db l db')
unfolding cancel_listing
cancel_listing_lem input seen db = (returns, leaves)
  where
    returns :
        (m : SecondaryListing)
        → listing_by_id input.listing_id seen ≡ some m
        → Owns input m
        → m.status ≡ active
        → (l : SecondaryListing) × (db' : Db) × (cancel_listing input seen db ≡ ok (l, db'))
    returns m e o a = (
      cancelled_listing m input,
      save_listing (cancelled_listing m input) db,
      rw (e, Owns-is_owner m input o, a) refl,
    )

    leaves :
        (l : SecondaryListing) (db' : Db)
        → cancel_listing input seen db ≡ ok (l, db')
        → Cancels input seen db l db'
    leaves l db' e =
        let (m, w) = cancel_sound input seen db l db' e in
        rw (w.row, w.written) (withdrawn-Cancels input seen db m w.read w.owned w.was_active)
