-- ===== src/Funding/Accepts.antt =====
-- What both ways of investing write (src/services/investment.service.ts), and the writes of
-- `createInvestment`.
use ss_backend.Common.{
  ℕ, ◌+◌, ◌<◌, ◌≤◌, String, ◌≡◌, refl, sym, inl, inr, false, none, some, List, [], ◌∷◌, ◌++◌, arith,
  if◌then◌else◌, leb, str_eq, eq_iff, ok, err, Result, Bool-cases, ◌∙◌, ap,
}
use ss_backend.Models.{published, funded, Invoice, Investment, InvestmentStatus, Db}
use ss_backend.Invoice.Machine.{Transition, save_row, moved}
use ss_backend.Funding.Invest.{row_of}
use ss_backend.Funding.Commit.{to_funded}
use ss_backend.Funding.Create.{total_invested, after_transition, write_commitment}
use ss_backend.Funding.Rows.{
  row_of-id, row_of-save, row_of-save_other, total_invested-append, Closes, to_funded-Closes,
}

-- An investment of `a` units in an invoice of which `base` units were taken: the row takes them in
-- and is funded exactly when that fills it, and no other invoice is touched.
pub record Accepts (id : String) (a base : ℕ) (db db' : Db) : Type 0 where
  pub before : Invoice
  pub after : Invoice
  pub found : row_of id db ≡ some before
  pub was_open : before.status ≡ published
  pub positive : 0 < a
  pub fits : base + a ≤ before.net_amount
  pub kept : row_of id db' ≡ some after
  pub net : after.net_amount ≡ before.net_amount
  pub taken : after.funded_amount ≡ base + a
  pub newer : before.version < after.version
  pub status : after.status ≡ (if leb before.net_amount (base + a) then funded else published)
  pub others : (k : String) → str_eq id k ≡ false → row_of k db' ≡ row_of k db
  pub total : total_invested id db'.investments ≡ total_invested id db.investments + a
  pub other_totals :
      (k : String)
      → str_eq id k ≡ false
      → total_invested k db'.investments ≡ total_invested k db.investments

-- The rows after the writes: `held` is what is saved last, over a table where no other row changed.
rows_saved :
    (id : String) (v : Invoice) (mid db' : Db)
    → v.id ≡ id
    → db'.invoices ≡ (save_row v mid).invoices
    → (row_of id db' ≡ some v) × ((k : String) → str_eq id k ≡ false → row_of k db' ≡ row_of k mid)
rows_saved id v mid db' same e =
    (rw e (row_of-save v id mid same), λ k ne. rw e (row_of-save_other v k mid (rw same ne)))

-- The totals after one more active investment.
totals_added :
    (id : String) (v : Investment) (vs vs' : List Investment)
    → v.invoice_id ≡ id
    → v.status ≡ InvestmentStatus.pending
    → vs' ≡ vs ++ (v ∷ [])
    → (total_invested id vs' ≡ total_invested id vs + v.investment_amount)
      × ((k : String) → str_eq id k ≡ false → total_invested k vs' ≡ total_invested k vs)
totals_added id v vs vs' same p e = (
  rw e (ground (arith, total_invested-append id vs v, eq_iff v.invoice_id id)),
  λ k ne. rw e (ground (arith, total_invested-append k vs v)),
)

-- The last write of either way, over a table whose other rows are those of the start.
pub Accepts-saved :
    (id : String) (base : ℕ) (before w : Invoice) (v : Investment) (db mid db' : Db)
    → row_of id db ≡ some before
    → before.status ≡ published
    → 0 < v.investment_amount
    → base + v.investment_amount ≤ before.net_amount
    → w.id ≡ id
    → w.net_amount ≡ before.net_amount
    → w.funded_amount ≡ base + v.investment_amount
    → before.version < w.version
    → w.status ≡ (if leb before.net_amount (base + v.investment_amount) then funded else published)
    → ((k : String) → str_eq id k ≡ false → row_of k mid ≡ row_of k db)
    → db'.invoices ≡ (save_row w mid).invoices
    → v.invoice_id ≡ id
    → v.status ≡ InvestmentStatus.pending
    → db'.investments ≡ db.investments ++ (v ∷ [])
    → Accepts id v.investment_amount base db db'
Accepts-saved id base before w v db mid db' f o p fits wid net taken newer st others inv vid vst
      add =
    let (kept, elsewhere) = rows_saved id w mid db' wid inv in
    let (total, other_totals) = totals_added id v db.investments db'.investments vid vst add in
    record {
      before = before;
      after = w;
      found = f;
      was_open = o;
      positive = p;
      fits = fits;
      kept = kept;
      net = net;
      taken = taken;
      newer = newer;
      status = st;
      others = λ k ne. elsewhere k ne ∙ others k ne;
      total = total;
      other_totals = other_totals;
    }

after_transition-inv :
    (now : ℕ) (wallet : String) (v : Investment) (held : Invoice) (db db' : Db) (v' : Investment)
    (o : Result (Transition × Db))
    → to_funded now wallet held db ≡ o
    → after_transition v o ≡ ok (v', db')
    → Closes held db db'
after_transition-inv now wallet v held db db' v' (err x) q e = cc
after_transition-inv now wallet v held db db' v' (ok (t, d)) q e =
    let same : d ≡ db' = cc in to_funded-Closes now wallet held db (q ∙ ap (λ x. ok (t, x)) same)

-- `createInvestment`: what it writes after its checks.
pub write_commitment-Accepts :
    (now : ℕ) (wallet : String) (id : String) (base : ℕ) (v v' : Investment) (row : Invoice)
    (db db' : Db)
    → row_of id db ≡ some row
    → row.status ≡ published
    → 0 < v.investment_amount
    → base + v.investment_amount ≤ row.net_amount
    → v.invoice_id ≡ id
    → v.status ≡ InvestmentStatus.pending
    → write_commitment now wallet v row (base + v.investment_amount) db ≡ ok (v', db')
    → Accepts id v.investment_amount base db db'
unfolding write_commitment
write_commitment-Accepts now wallet id base v v' row db db' f o p fits vid vst e =
    elim (Bool-cases (leb row.net_amount (base + v.investment_amount))) [
      | inl full ↦
          let c = after_transition-inv now wallet v _ _ db' v' _ refl (rw full at e) in
          Accepts-saved id base row
            (moved (record row { funded_amount = base + v.investment_amount }) funded none) v db db
            db' f o p fits (row_of-id id db row f) refl refl (ground arith) (rw full refl)
            (λ k ne. refl) c.saved vid vst c.investments
      | inr room ↦
          let w : db' ≡ _ = sym (ok_db (rw room at e)) in
          Accepts-saved id base row
            (record row { funded_amount = base + v.investment_amount; version = row.version + 1 }) v
            db db db' f o p fits (row_of-id id db row f) refl refl (ground arith) (rw room o)
            (λ k ne. refl) (rw w refl) vid vst (rw w refl)
    ]
  where
    ok_db :
        {x y : Investment} {d d' : Db}
        → ◌≡◌ {A = Result (Investment × Db)} (ok (x, d)) (ok (y, d'))
        → d ≡ d'
    ok_db q = cc
