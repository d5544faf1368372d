-- ===== src/Funding/Committed.antt =====
-- src/services/investment.service.ts, `investInInvoice`: what its last step writes.
use ss_backend.Common.{
  ℕ, ◌<◌, String, ◌≡◌, refl, inl, inr, Bool, true, false, Option, none, some, arith, leb, ok,
  Result, Result-cases, Bool-cases, ◌∙◌, ap, ◌⊎◌, ◌>>=◌,
}
use ss_backend.Models.{funded, Invoice, Investment, InvestmentStatus, Db}
use ss_backend.Invoice.Machine.{save_row, moved}
use ss_backend.Funding.Invest.{
  InvestConfig, InvestInput, InvestResult, row_of, is_as_read, advanced, advance_funded,
  advance_row,
}
use ss_backend.Funding.Commit.{
  Answer, to_funded, add_investment, new_investment, insert_investment, filled, after_update,
  commit,
}
use ss_backend.Funding.Rows.{is_published, row_of-id, row_of-save_other, Closes, to_funded-Closes}
use ss_backend.Funding.Accepts.{Accepts, Accepts-saved}

-- The update: the row as it was, and what it becomes.
advance_row-inv :
    (version amount : ℕ) (o : Option Invoice) (db mid : Db)
    → advance_row version amount o db ≡ some mid
    → (row : Invoice) × (o ≡ some row)
      × (is_as_read version amount row ≡ true)
      × (mid ≡ save_row (advanced amount row) db)
unfolding advance_row
advance_row-inv version amount none db mid e = cc
advance_row-inv version amount (some row) db mid e =
    elim (Bool-cases (is_as_read version amount row)) [
      | inl y ↦ (row, refl, y, ground arith)
      | inr n ↦ absurd (ground arith)
    ]

filled-inv :
    (now : ℕ) (config : InvestConfig) (wallet : String) (v : Investment) (i : Invoice) (db db' : Db)
    (r : InvestResult)
    → filled now config wallet v i db ≡ ok (r, db')
    → ((leb i.net_amount i.funded_amount ≡ true) × Closes i db db')
      ⊎ ((leb i.net_amount i.funded_amount ≡ false) × (db' ≡ db))
unfolding filled
filled-inv now config wallet v i db db' r e = elim (Bool-cases (leb i.net_amount i.funded_amount)) [
  | inr n ↦ inr (n, ground arith)
  | inl y ↦ elim (Result-cases (to_funded now wallet i db)) [
    | inl (x, q) ↦ absurd (ground arith)
    | inr ((t, db''), q) ↦
        let same : db'' ≡ db' = ground arith in
        inl (y, to_funded-Closes now wallet i db (q ∙ ap (λ d. ok (t, d)) same))
  ]
]

inserted-inv :
    (now : ℕ) (config : InvestConfig) (wallet : String) (v : Investment) (taken : Bool)
    (held : Invoice) (mid db' : Db) (r : InvestResult)
    → (insert_investment v taken >>= λ v'. filled now config wallet v' held) mid ≡ ok (r, db')
    → filled now config wallet v held (add_investment v mid) ≡ ok (r, db')
unfolding insert_investment
inserted-inv now config wallet v true held mid db' r e = cc
inserted-inv now config wallet v false held mid db' r e = e

-- The rows after an update that met the row as read.
Accepts-read :
    (id : String) (row : Invoice) (v : Investment) (db db' : Db)
    → row_of id db ≡ some row
    → row.id ≡ id
    → is_as_read row.version v.investment_amount row ≡ true
    → 0 < v.investment_amount
    → v.invoice_id ≡ id
    → v.status ≡ InvestmentStatus.pending
    → let held = advanced v.investment_amount row in
      let mid = save_row held db in
      ((leb held.net_amount held.funded_amount ≡ true) × Closes held (add_investment v mid) db')
        ⊎ ((leb held.net_amount held.funded_amount ≡ false) × (db' ≡ add_investment v mid))
      → Accepts id v.investment_amount row.funded_amount db db'
Accepts-read id row v db db' f rid ok_row p vid vst (inl (full, c)) =
    let held = advanced v.investment_amount row in
    Accepts-saved id row.funded_amount row (moved held funded none) v db (save_row held db) db' f
      (is_published row.status (ground arith)) p (ground arith) rid refl refl (ground arith)
      (rw full refl) (λ k ne. row_of-save_other held k db (ground arith)) c.saved vid vst
      c.investments
Accepts-read id row v db db' f rid ok_row p vid vst (inr (room, e)) =
    let held = advanced v.investment_amount row in
    let open_row = is_published row.status (ground arith) in
    Accepts-saved id row.funded_amount row held v db db db' f open_row p (ground arith) rid refl
      refl (ground arith) (rw room open_row) (λ k ne. refl) (rw e refl) vid vst (rw e refl)

-- The same, told of the invoice that was read.
read_as :
    (id : String) (amount : ℕ) (invoice row : Invoice) (v : Investment) (db mid db' : Db)
    → row_of id db ≡ some row
    → invoice ≡ row
    → is_as_read row.version v.investment_amount row ≡ true
    → 0 < v.investment_amount
    → v.invoice_id ≡ id
    → v.status ≡ InvestmentStatus.pending
    → mid ≡ save_row (advanced v.investment_amount row) db
    → let held = advanced v.investment_amount invoice in
      ((leb held.net_amount held.funded_amount ≡ true) × Closes held (add_investment v mid) db')
        ⊎ ((leb held.net_amount held.funded_amount ≡ false) × (db' ≡ add_investment v mid))
      → Accepts id v.investment_amount invoice.funded_amount db db'
read_as id amount invoice row v db mid db' f same ok_row p vid vst w effect = rw same (
    Accepts-read id row v db db' f (row_of-id id db row f) ok_row p vid vst
      (rw (same, w) at effect))

after_update-inv :
    (config : InvestConfig) (a : Answer) (input : InvestInput) (amount block : ℕ)
    (invoice : Invoice) (o : Option Db) (db' : Db) (r : InvestResult)
    → after_update config a input amount block invoice o ≡ some (ok (r, db'))
    → (mid : Db) × (o ≡ some mid)
      × (filled a.now config input.wallet_address
            (new_investment config a.investment_id input amount block invoice)
            (advanced amount invoice)
            (add_investment (new_investment config a.investment_id input amount block invoice) mid)
          ≡ ok (r, db'))
unfolding after_update insert_investment
after_update-inv config a input amount block invoice none db' r e = cc
after_update-inv config a input amount block invoice (some mid) db' r e = (
  mid,
  refl,
  inserted-inv a.now config input.wallet_address _ _ (advanced amount invoice) mid db' r
      (some-inj e),
)
  where
    some-inj : {x y : Result (InvestResult × Db)} → some x ≡ some y → x ≡ y
    some-inj q = cc

-- `investInInvoice`: what its last step writes, if the invoice it read is the row that it meets at
-- the same version.
pub commit-Accepts :
    (config : InvestConfig) (a : Answer) (input : InvestInput) (amount block : ℕ)
    (invoice : Invoice) (db db' : Db) (r : InvestResult)
    → 0 < amount
    → ((row : Invoice)
        → row_of input.invoice_id db ≡ some row
        → row.version ≡ invoice.version
        → invoice ≡ row)
    → commit config a input amount block invoice db ≡ some (ok (r, db'))
    → Accepts input.invoice_id amount invoice.funded_amount db db'
      × (row_of input.invoice_id db ≡ some invoice)
unfolding commit advance_funded
commit-Accepts config a input amount block invoice db db' r p snap e =
    let (mid, q, wrote) = after_update-inv config a input amount block invoice _ db' r e in
    let (row, f, ok_row, w) =
      advance_row-inv invoice.version amount (row_of input.invoice_id db) db mid q in
    let same = snap row f (ground arith) in
    (
      read_as input.invoice_id amount invoice row
          (new_investment config a.investment_id input amount block invoice) db mid db' f same
          (ground (arith, same)) p refl refl w
          (filled-inv a.now config input.wallet_address _ _ _ db' r wrote),
      rw same f,
    )
