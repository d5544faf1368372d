-- ===== src/Funding/Creation.antt =====
-- src/services/investment.service.ts, `createInvestment`: when it is let through, and what it
-- writes then.
use ss_backend.Common.{
  ℕ, zero, suc, ◌-◌, ◌<◌, ◌≤◌, ltb, ◌≡◌, ◌≢◌, refl, ap, ◌↔◌, Bool, true, false, not, Option, none,
  some, arith, str_eq, ok, err, Result, ℤ, pos, negsuc,
}
use ss_backend.Common.Checks.{◌>>=◌, throw_if, or_throw, >>=-eq-ok}
use ss_backend.Models.{published, funded, status_eq, Invoice, Investment, Db}
use ss_backend.Dates.{is_past_due_date}
use ss_backend.Funding.Terms.{assert_acknowledged}
use ss_backend.Funding.Invest.{InvestConfig, row_of, deadline_passed, check_amount}
use ss_backend.Funding.Commit.{Answer}
use ss_backend.Funding.Create.{
  CreateInvestmentInput, total_invested, check_commitment, check_create, is_unsuitable,
  commitment_of, written, create_investment,
}
use ss_backend.Funding.Rows.{is_published}
use ss_backend.Funding.Accepts.{Accepts, write_commitment-Accepts}
use ss_backend.Funding.Checks.{
  IsOpenTo, not_due_sound, not_due_complete, in_time_sound, in_time_complete, not_seller_sound,
  not_seller_complete,
}

-- What `createInvestment` demands; `suitable` is the answer of the risk profile.
pub record MayCreate (config : InvestConfig) (suitable : Option Bool) (now : ℕ)
    (input : CreateInvestmentInput) (db : Db) (amount : ℕ) (i : Invoice) : Type 0 where
  pub acknowledged : assert_acknowledged config.current_version input.investor_wallet db ≡ ok tt
  pub suits : suitable ≢ some false
  pub given : input.investment_amount ≡ pos amount
  pub positive : 0 < amount
  pub found : row_of input.invoice_id db ≡ some i
  pub open_to : IsOpenTo now input.investor_id i
  pub fits : amount ≤ i.net_amount - total_invested input.invoice_id db.investments

pub amount_sound : (z : ℤ) (n : ℕ) → check_amount (some z) ≡ ok n → (z ≡ pos n) × (0 < n)
unfolding check_amount
amount_sound (pos zero) n e = cc
amount_sound (pos (suc m)) n e = let same : suc m ≡ n = cc in (ap pos same, omega arith)
amount_sound (negsuc m) n e = cc

pub amount_complete : (z : ℤ) (n : ℕ) → z ≡ pos n → 0 < n → check_amount (some z) ≡ ok n
unfolding check_amount
amount_complete z zero e p = absurd (omega arith)
amount_complete z (suc n) e p = rw e refl

suits_sound : (o : Option Bool) → is_unsuitable o ≡ false → o ≢ some false
suits_sound none e q = cc
suits_sound (some true) e q = cc
suits_sound (some false) e q = cc

suits_complete : (o : Option Bool) → o ≢ some false → is_unsuitable o ≡ false
suits_complete none ne = refl
suits_complete (some true) ne = refl
suits_complete (some false) ne = absurd (ne refl)

commitment_sound :
    (now : ℕ) (input : CreateInvestmentInput) (amount : ℕ) (db : Db) (i : Invoice)
    → check_commitment now input amount db ≡ ok i
    → (row_of input.invoice_id db ≡ some i)
      × IsOpenTo now input.investor_id i
      × (amount ≤ i.net_amount - total_invested input.invoice_id db.investments)
unfolding check_commitment
commitment_sound now input amount db i e =
    let (v, found, e1) = >>=-eq-ok (or_throw (row_of input.invoice_id db) _) _ e in
    let (_, not_full, e1') = >>=-eq-ok (throw_if (status_eq v.status funded) _) _ e1 in
    let (_, is_open, e2) = >>=-eq-ok (throw_if (not (status_eq v.status published)) _) _ e1' in
    let (_, not_due, e3) = >>=-eq-ok (throw_if (is_past_due_date v.due_date now) _) _ e2 in
    let (_, in_time, e4) = >>=-eq-ok (throw_if (deadline_passed v.funding_deadline now) _) _ e3 in
    let (_, other, e5) = >>=-eq-ok (throw_if (str_eq v.seller_id input.investor_id) _) _ e4 in
    let (_, fits, e6) =
      >>=-eq-ok
        (throw_if (ltb (v.net_amount - total_invested input.invoice_id db.investments) amount) _) _
        e5 in
    let same : v ≡ i = cc e6 in
    rw (← same) (
      ground arith,
      record {
        is_open = is_published v.status (ground arith);
        not_due = not_due_sound v.due_date now (ground arith);
        in_time = in_time_sound v.funding_deadline now (ground arith);
        not_seller = not_seller_sound v.seller_id input.investor_id (ground arith);
      },
      ground arith,
    )

commitment_complete :
    (now : ℕ) (input : CreateInvestmentInput) (amount : ℕ) (db : Db) (i : Invoice)
    → row_of input.invoice_id db ≡ some i
    → IsOpenTo now input.investor_id i
    → amount ≤ i.net_amount - total_invested input.invoice_id db.investments
    → check_commitment now input amount db ≡ ok i
unfolding check_commitment
commitment_complete now input amount db i found o f =
    let due = not_due_complete i.due_date now o.not_due in
    let deadline = in_time_complete i.funding_deadline now o.in_time in
    let other = not_seller_complete i.seller_id input.investor_id o.not_seller in
    let fits : ltb (i.net_amount - total_invested input.invoice_id db.investments) amount ≡ false =
      ground arith in
    rw found (rw (o.is_open) (rw (due, deadline, other, fits) refl))

create_sound :
    (config : InvestConfig) (suitable : Option Bool) (now : ℕ) (input : CreateInvestmentInput)
    (db : Db) (amount : ℕ) (i : Invoice)
    → check_create config suitable now input db ≡ ok (amount, i)
    → MayCreate config suitable now input db amount i
unfolding check_create
create_sound config suitable now input db amount i e =
    let (_, acknowledged, e1) =
      >>=-eq-ok (assert_acknowledged config.current_version input.investor_wallet db) _ e in
    let (_, suits, e2) = >>=-eq-ok (throw_if (is_unsuitable suitable) _) _ e1 in
    let (n, positive, e3) = >>=-eq-ok (check_amount (some input.investment_amount)) _ e2 in
    let (v, checked, e4) = >>=-eq-ok (check_commitment now input n db) _ e3 in
    let same : v ≡ i = cc e4 in
    let all : n ≡ amount = cc e4 in
    let (given, above) = amount_sound input.investment_amount n positive in
    let (found, open_to, fits) = commitment_sound now input n db v checked in
    rw (← same, ← all)
      (record {
        acknowledged = acknowledged;
        suits = suits_sound suitable (ground arith);
        given = given;
        positive = above;
        found = found;
        open_to = open_to;
        fits = fits;
      })

create_complete :
    (config : InvestConfig) (suitable : Option Bool) (now : ℕ) (input : CreateInvestmentInput)
    (db : Db) (amount : ℕ) (i : Invoice)
    → MayCreate config suitable now input db amount i
    → check_create config suitable now input db ≡ ok (amount, i)
unfolding check_create
create_complete config suitable now input db amount i m =
    let fine = suits_complete suitable m.suits in
    let n = amount_complete input.investment_amount amount m.given m.positive in
    let checked = commitment_complete now input amount db i m.found m.open_to m.fits in
    rw (m.acknowledged, fine, ◌>>=◌, n, ◌>>=◌, checked, ◌>>=◌) refl

-- `createInvestment` gets to its writes exactly when the wallet has acknowledged the terms, the risk
-- profile does not object, the amount is positive, the invoice is found, is published, is neither past
-- its due date nor past its funding deadline, and is not the investor's own, and the amount fits into
-- what its pending and confirmed investments leave.
pub check_create_iff :
    (config : InvestConfig) (suitable : Option Bool) (now : ℕ) (input : CreateInvestmentInput)
    (db : Db) (amount : ℕ) (i : Invoice)
    → (check_create config suitable now input db ≡ ok (amount, i))
      ↔ MayCreate config suitable now input db amount i
check_create_iff config suitable now input db amount i = (
  create_sound config suitable now input db amount i,
  create_complete config suitable now input db amount i,
)

written-Accepts :
    (config : InvestConfig) (suitable : Option Bool) (a : Answer) (input : CreateInvestmentInput)
    (db db' : Db) (v : Investment) (o : Result (ℕ × Invoice))
    → check_create config suitable a.now input db ≡ o
    → written config a input db o ≡ ok (v, db')
    → (amount : ℕ) × Accepts input.invoice_id amount
        (total_invested input.invoice_id db.investments)
        db
        db'
unfolding written
written-Accepts config suitable a input db db' v (err e) q w = cc
written-Accepts config suitable a input db db' v (ok (amount, i)) q w =
    let m = create_sound config suitable a.now input db amount i q in
    (
      amount,
      write_commitment-Accepts a.now input.investor_wallet input.invoice_id _
          (commitment_of config a.investment_id input amount i) v i db db' m.found m.open_to.is_open
          m.positive (omega (arith, m.fits, m.positive)) refl refl w,
    )

-- A returned investment of `createInvestment` is one that the invoice has taken in.
pub create-Accepts :
    (config : InvestConfig) (suitable : Option Bool) (a : Answer) (input : CreateInvestmentInput)
    (db db' : Db) (v : Investment)
    → create_investment config suitable a input db ≡ ok (v, db')
    → (amount : ℕ) × Accepts input.invoice_id amount
        (total_invested input.invoice_id db.investments)
        db
        db'
unfolding create_investment
create-Accepts config suitable a input db db' v e =
    written-Accepts config suitable a input db db' v _ refl e
