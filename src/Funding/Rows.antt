-- ===== src/Funding/Rows.antt =====
-- What the funding of an invoice does to its row and to what is invested in it.
use ss_backend.Common.{
  ℕ, ◌+◌, String, ◌≡◌, refl, true, false, none, some, List, [], ◌∷◌, ◌++◌, arith, if◌then◌else◌,
  str_eq, eq_iff, find_sound, find-upsert, find-upsert_self, ok,
}
use ss_backend.Models.{InvoiceStatus, published, funded, status_eq, Invoice, Investment, Db}
use ss_backend.Invoice.Machine.{Transition, save_row, moved}
use ss_backend.Invoice.Machine.History.{transition-Moves}
use ss_backend.Funding.Invest.{row_of}
use ss_backend.Funding.Commit.{to_funded}
use ss_backend.Funding.Create.{is_active_in, total_invested}

pub is_published : (s : InvoiceStatus) → status_eq s published ≡ true → s ≡ published
is_published s e = ground arith

-- A row that is found by its identifier has it.
pub row_of-id : (k : String) (db : Db) (r : Invoice) → row_of k db ≡ some r → r.id ≡ k
row_of-id k db r e = (eq_iff r.id k).0 (find_sound (λ s. str_eq s.id k) db.invoices r e)

pub row_of-save :
    (v : Invoice) (k : String) (db : Db) → v.id ≡ k → row_of k (save_row v db) ≡ some v
row_of-save v k db e = rw (← e) (find-upsert_self (λ r. r.id) v db.invoices)

pub row_of-save_other :
    (v : Invoice) (k : String) (db : Db)
    → str_eq v.id k ≡ false
    → row_of k (save_row v db) ≡ row_of k db
row_of-save_other v k db e = find-upsert (λ r. r.id) v k db.invoices e

pub total_invested-append :
    (k : String) (vs : List Investment) (v : Investment)
    → total_invested k (vs ++ (v ∷ []))
      ≡ total_invested k vs + (if is_active_in k v then v.investment_amount else 0)
total_invested-append k [] v = ground arith
total_invested-append k (x ∷ xs) v = ground (arith, total_invested-append k xs v)

-- What a transition to funded does to the tables.
pub record Closes (i : Invoice) (db db' : Db) : Type 0 where
  pub saved : db'.invoices ≡ (save_row (moved i funded none) db).invoices
  pub investments : db'.investments ≡ db.investments

pub to_funded-Closes :
    (now : ℕ) (wallet : String) (i : Invoice) (db : Db) {t : Transition} {db' : Db}
    → to_funded now wallet i db ≡ ok (t, db')
    → Closes i db db'
unfolding to_funded
to_funded-Closes now wallet i db {t} {db'} e =
    let m = transition-Moves now i funded _ _ _ db e in
    record { saved = rw (m.written, m.saved) refl; investments = rw m.written refl }
