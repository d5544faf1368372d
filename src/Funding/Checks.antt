-- ===== src/Funding/Checks.antt =====
-- src/services/investment.service.ts, `investInInvoice`: when an investment is let through.
use ss_backend.Common.{
  ℕ, ◌-◌, ◌≤◌, ltb, String, ◌≡◌, ◌≢◌, refl, ◌↔◌, Bool, false, not, Option, none, some, List, [],
  ◌∷◌, arith, str_eq, eq_iff, ok, any, All,
}
use ss_backend.Common.Checks.{throw_if, or_throw, >>=-eq-ok}
use ss_backend.Models.{published, status_eq, Invoice, Db}
use ss_backend.Dates.{end_of_day_utc, is_past_due_date}
use ss_backend.Funding.Invest.{InvestInput, row_of, is_duplicate, deadline_passed, read_invoice}
use ss_backend.Funding.Rows.{is_published}

-- An invoice that takes investments of this investor.
pub record IsOpenTo (now : ℕ) (investor_id : String) (i : Invoice) : Type 0 where
  pub is_open : i.status ≡ published
  pub not_due : (due : ℕ) → i.due_date ≡ some due → now ≤ end_of_day_utc due
  pub in_time : (t : ℕ) → i.funding_deadline ≡ some t → now ≤ t
  pub not_seller : i.seller_id ≢ investor_id

pub not_due_sound :
    (o : Option ℕ) (now : ℕ)
    → is_past_due_date o now ≡ false
    → (due : ℕ) → o ≡ some due
    → now ≤ end_of_day_utc due
not_due_sound none now e due q = cc
not_due_sound (some t) now e due q = ground arith

pub not_due_complete :
    (o : Option ℕ) (now : ℕ)
    → ((due : ℕ) → o ≡ some due → now ≤ end_of_day_utc due)
    → is_past_due_date o now ≡ false
not_due_complete none now h = refl
not_due_complete (some t) now h = let x = h t refl in ground arith

pub in_time_sound :
    (o : Option ℕ) (now : ℕ) → deadline_passed o now ≡ false → (t : ℕ) → o ≡ some t → now ≤ t
in_time_sound none now e t q = cc
in_time_sound (some d) now e t q = ground arith

pub in_time_complete :
    (o : Option ℕ) (now : ℕ) → ((t : ℕ) → o ≡ some t → now ≤ t) → deadline_passed o now ≡ false
in_time_complete none now h = refl
in_time_complete (some d) now h = let x = h d refl in ground arith

pub not_seller_sound : (a b : String) → str_eq a b ≡ false → a ≢ b
not_seller_sound a b e q = ground (arith, eq_iff a b)

pub not_seller_complete : (a b : String) → a ≢ b → str_eq a b ≡ false
not_seller_complete a b ne = ground (arith, eq_iff a b)

module _ {ℓ} {A : Type ℓ} (p : A → Bool) where
  any_sound : (xs : List A) → any p xs ≡ false → All (λ x. p x ≡ false) xs
  any_sound [] e = tt
  any_sound (x ∷ xs) e = (ground arith, any_sound xs (ground arith))

  pub any_complete : (xs : List A) → All (λ x. p x ≡ false) xs → any p xs ≡ false
  any_complete [] h = refl
  any_complete (x ∷ xs) (hx, h) = rw (hx, any_complete xs h) refl

-- What `investInInvoice` demands before its update.
pub record MayInvest (now : ℕ) (input : InvestInput) (amount block : ℕ) (db : Db) (i : Invoice)
    : Type 0 where
  pub found : row_of input.invoice_id db ≡ some i
  pub open_to : IsOpenTo now input.investor_id i
  pub fits : amount ≤ i.net_amount - i.funded_amount
  pub first :
      All (λ v. is_duplicate input.invoice_id input.wallet_address block v ≡ false) db.investments

read_sound :
    (now : ℕ) (input : InvestInput) (amount block : ℕ) (db : Db) (i : Invoice)
    → read_invoice now input amount block db ≡ ok i
    → MayInvest now input amount block db i
unfolding read_invoice
read_sound now input amount block db i e =
    let (v, found, e1) = >>=-eq-ok (or_throw (row_of input.invoice_id db) _) _ e in
    let (_, is_open, e2) = >>=-eq-ok (throw_if (not (status_eq v.status published)) _) _ e1 in
    let (_, not_due, e3) = >>=-eq-ok (throw_if (is_past_due_date v.due_date now) _) _ e2 in
    let (_, in_time, e4) = >>=-eq-ok (throw_if (deadline_passed v.funding_deadline now) _) _ e3 in
    let (_, other, e5) = >>=-eq-ok (throw_if (str_eq v.seller_id input.investor_id) _) _ e4 in
    let (_, fits, e6) = >>=-eq-ok (throw_if (ltb (v.net_amount - v.funded_amount) amount) _) _ e5 in
    let (_, first, e7) =
      >>=-eq-ok
        (throw_if (any (is_duplicate input.invoice_id input.wallet_address block) db.investments) _)
        _ e6 in
    let same : v ≡ i = cc e7 in
    rw (← same) (record {
      found = ground arith;
      open_to = record {
        is_open = is_published v.status (ground arith);
        not_due = not_due_sound v.due_date now (ground arith);
        in_time = in_time_sound v.funding_deadline now (ground arith);
        not_seller = not_seller_sound v.seller_id input.investor_id (ground arith);
      };
      fits = ground arith;
      first = any_sound _ db.investments (ground arith);
    })

read_complete :
    (now : ℕ) (input : InvestInput) (amount block : ℕ) (db : Db) (i : Invoice)
    → MayInvest now input amount block db i
    → read_invoice now input amount block db ≡ ok i
unfolding read_invoice
read_complete now input amount block db i m =
    let o = m.open_to in
    let due = not_due_complete i.due_date now o.not_due in
    let deadline = in_time_complete i.funding_deadline now o.in_time in
    let other = not_seller_complete i.seller_id input.investor_id o.not_seller in
    let first =
      any_complete (is_duplicate input.invoice_id input.wallet_address block) db.investments
        m.first in
    let fits : ltb (i.net_amount - i.funded_amount) amount ≡ false = ground (arith, m.fits) in
    rw (m.found) (rw (o.is_open) (rw (due, deadline, other, fits, first) refl))

-- An attempt of `investInInvoice` goes on to its update exactly when the invoice is found, is
-- published, is neither past its due date nor past its funding deadline, and is not the investor's
-- own, the amount fits into what it has left, and the wallet has no investment in it in this block.
pub read_invoice_iff :
    (now : ℕ) (input : InvestInput) (amount block : ℕ) (db : Db) (i : Invoice)
    → (read_invoice now input amount block db ≡ ok i) ↔ MayInvest now input amount block db i
read_invoice_iff now input amount block db i =
    (read_sound now input amount block db i, read_complete now input amount block db i)
