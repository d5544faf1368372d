-- ===== src/Funding/Refund.antt =====
-- src/services/invoice-refund.service.ts: `canRefund` and `refundInvestment`, which is taken as one step.
pub mod Tests
use ss_backend.Common.{
  ℕ, ◌+◌, ◌≤◌, ◌<◌, ltb, is_some, String, ◌≡◌, refl, ap, inl, inr, Bool, true, false, not, ◌&&◌,
  ◌||◌, Option, none, some, List, [], ◌∷◌, arith, if◌then◌else◌, str_eq, eq_iff, opt_eq, find,
  find_sound, filter, any, Bool-cases, Result, ok, err, service_error, invoice_not_found,
  investment_not_found, refund_not_allowed,
}
use ss_backend.Common.Checks.{◌>>=◌, ◌>>◌, throw_if, or_throw, >>=-eq-ok}
use ss_backend.Models.{funded, settled, cancelled, status_eq, Invoice, Investment, Db}
use ss_backend.Invoice.Machine.{save_row}
use ss_backend.Funding.Invest.{row_of}
use ss_backend.Funding.Create.{is_active_in, total_invested}
use ss_backend.Funding.Rows.{row_of-id, row_of-save}
use ss_backend.Funding.Race.{IsBooked}

pub data RefundBar : Type 0 where
  no_invoice already_funded already_settled before_deadline : RefundBar

abbrev pub is_before : ℕ → Option ℕ → Bool
is_before now none = false
is_before now (some t) = ltb now t

refund_bar : ℕ → Option Invoice → Option RefundBar
refund_bar now none = some no_invoice
refund_bar now (some i) =
    if status_eq i.status funded
    then some already_funded
    else if status_eq i.status settled
    then some already_settled
    else if is_before now i.funding_deadline
    then some before_deadline
    else none

-- `InvoiceRefundService.canRefund`: the reason not to, if there is one.
unfoldable pub can_refund : ℕ → String → Db → Option RefundBar
unfolding refund_bar
can_refund now invoice_id db = refund_bar now (row_of invoice_id db)

abbrev pub is_refunded : String → String → Investment → Bool
is_refunded invoice_id wallet v =
    str_eq v.invoice_id invoice_id && opt_eq v.investor_wallet (some wallet)

abbrev pub without_row : Investment → Db → Db
without_row v db = record db { investments = filter (λ x. not (str_eq x.id v.id)) db.investments }

abbrev pub called_off : Invoice → Invoice
called_off i = record i { status = cancelled; version = i.version + 1 }

-- The invoice is cancelled, past the state machine, when nothing is invested in it any more.
abbrev pub called_off_if_empty : String → Invoice → Db → Db
called_off_if_empty invoice_id i db =
    if any (λ v. str_eq v.invoice_id invoice_id) db.investments
    then db
    else save_row (called_off i) db

-- `InvoiceRefundService.refundInvestment`
unfoldable pub refund_investment : ℕ → String → String → Db → Result Db
refund_investment now invoice_id wallet db = do
  i ← or_throw (row_of invoice_id db) (service_error invoice_not_found 404)
  v ←
      or_throw (find (is_refunded invoice_id wallet) db.investments)
        (service_error investment_not_found 404)
  throw_if (is_some (can_refund now invoice_id db)) (service_error refund_not_allowed 400)
  ok (called_off_if_empty invoice_id i (without_row v db))

filtered_total :
    (k : String) (q : Investment → Bool) (xs : List Investment)
    → total_invested k (filter q xs) ≤ total_invested k xs
filtered_total k q [] = omega arith
filtered_total k q (x ∷ xs) = ground (arith, filtered_total k q xs)

-- What is found counts no more once its row is removed.
removed_total :
    (k : String) (p : Investment → Bool) (v : Investment) (xs : List Investment)
    → find p xs ≡ some v
    → is_active_in k v ≡ true
    → total_invested k (filter (λ x. not (str_eq x.id v.id)) xs) + v.investment_amount
      ≤ total_invested k xs
removed_total k p v [] e a = absurd (ground arith)
removed_total k p v (x ∷ xs) e a = elim (Bool-cases (p x)) [
  | inl y ↦
      let same : x ≡ v = ground arith in
      rw same (ground (arith, filtered_total k (λ z. not (str_eq z.id v.id)) xs, eq_iff v.id v.id))
  | inr y ↦ ground (arith, removed_total k p v xs (ground arith) a)
]

called_off_total :
    (id k : String) (i : Invoice) (db : Db)
    → total_invested k (called_off_if_empty id i db).investments ≡ total_invested k db.investments
called_off_total id k i db = ground arith

-- The row that the invoice has after a refund.
called_off_row :
    (id : String) (i : Invoice) (v : Investment) (db : Db)
    → row_of id db ≡ some i
    → (r : Invoice) → row_of id (called_off_if_empty id i (without_row v db)) ≡ some r
    → r.funded_amount ≡ i.funded_amount
called_off_row id i v db found r e =
    elim (Bool-cases (any (λ x. str_eq x.invoice_id id) (without_row v db).investments)) [
      | inl y ↦ let same : r ≡ i = cc (rw y at e, found) in rw same refl
      | inr n ↦
          let same : r ≡ called_off i = cc (
            rw n at e,
            row_of-save (called_off i) id (without_row v db) (row_of-id id db i found),
          ) in
          rw same refl
    ]

-- A refund does not give the invoice its room back: if a booked invoice has an active investment refunded,
-- its funded amount is then above what its investments come to.
pub refund_leaves_funded :
    (now : ℕ) (id wallet : String) (v : Investment) (db db' : Db)
    → IsBooked id db
    → find (is_refunded id wallet) db.investments ≡ some v
    → is_active_in id v ≡ true
    → 0 < v.investment_amount
    → refund_investment now id wallet db ≡ ok db'
    → (r : Invoice) → row_of id db' ≡ some r
    → total_invested id db'.investments < r.funded_amount
unfolding refund_investment
refund_leaves_funded now id wallet v db db' b found active positive e r f =
    let (i, row, e1) = >>=-eq-ok (or_throw (row_of id db) _) _ e in
    let (w, mine, e2) = >>=-eq-ok (or_throw (find (is_refunded id wallet) db.investments) _) _ e1 in
    let (_, allowed, e3) = >>=-eq-ok (throw_if (is_some (can_refund now id db)) _) _ e2 in
    let at_row : row_of id db ≡ some i = ground arith in
    let one : w ≡ v = ground arith in
    let two : b.row ≡ i = cc (b.found, at_row) in
    let written : called_off_if_empty id i (without_row w db) ≡ db' = cc e3 in
    refunded id wallet v i db db' found active positive at_row (rw two at b.booked)
      (rw one at written) r f
  where
    refunded :
        (id wallet : String) (v : Investment) (i : Invoice) (db db' : Db)
        → find (is_refunded id wallet) db.investments ≡ some v
        → is_active_in id v ≡ true
        → 0 < v.investment_amount
        → row_of id db ≡ some i
        → total_invested id db.investments ≡ i.funded_amount
        → called_off_if_empty id i (without_row v db) ≡ db'
        → (r : Invoice) → row_of id db' ≡ some r
        → total_invested id db'.investments < r.funded_amount
    refunded id wallet v i db db' found active positive row booked e r f = rw (← e) (
        omega (
          arith,
          called_off_total id id i (without_row v db),
          removed_total id (is_refunded id wallet) v db.investments found active,
          called_off_row id i v db row r (rw (← e) at f),
          booked,
          positive,
        ))
