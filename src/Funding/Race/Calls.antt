-- ===== src/Funding/Race/Calls.antt =====
-- What a call of `investInInvoice` knows about the row that it has read, while others write.
use ss_backend.Common.{
  ℕ, zero, suc, ◌<◌, ◌≤◌, String, ◌≡◌, refl, sym, ◌⊎◌, inl, inr, Option, none, some, List, [], ◌∷◌,
  ok, err, Result, arith, All, leb, Bool-cases, or_default, ℤ, pos, negsuc,
}
use ss_backend.Models.{Invoice, Db}
use ss_backend.Funding.Invest.{
  InvestConfig, InvestInput, InvestResult, row_of, read_invoice, check_amount,
  current_funding_window,
}
use ss_backend.Funding.Commit.{
  Answer, Phase, entered, reading, writing, done, failed, phase_of, enter, retried, committed,
  commit, invest_step,
}
use ss_backend.Funding.Create.{total_invested}
use ss_backend.Funding.Committed.{commit-Accepts}
use ss_backend.Funding.Checks.{read_invoice_iff}
use ss_backend.Funding.Race.{Call, IsBooked}
use ss_backend.Funding.Race.Progress.{IsNewer, Progress, accepts-Progress, elsewhere-Progress}

-- The row is at the version that was read or a later one, and at that version it is what was read.
pub record IsSnapshot (k : String) (s : Invoice) (db : Db) : Type 0 where
  pub row : Invoice
  pub found : row_of k db ≡ some row
  pub not_newer : s.version ≤ row.version
  pub same : s.version ≡ row.version → s ≡ row

abbrev pub IsSound : String → Phase → Db → Type 0
IsSound k entered db = Unit
IsSound k (reading amount block n) db = 0 < amount
IsSound k (writing amount block n s) db = (0 < amount) × IsSnapshot k s db
IsSound k (done r) db = Unit
IsSound k (failed e) db = Unit

abbrev pub IsKnown : Db → Call → Type 0
IsKnown db c = IsSound c.input.invoice_id c.phase db

keeps_row :
    (k : String) (s : Invoice) (db db' : Db) (snap : IsSnapshot k s db) (r' : Invoice)
    → row_of k db' ≡ some r'
    → (r' ≡ snap.row) ⊎ (snap.row.version < r'.version)
    → IsSnapshot k s db'
keeps_row k s db db' snap r' f (inl e) = record {
  row = r';
  found = f;
  not_newer = rw e snap.not_newer;
  same = rw e snap.same;
}
keeps_row k s db db' snap r' f (inr lt) = record {
  row = r';
  found = f;
  not_newer = omega (arith, snap.not_newer);
  same = λ q. absurd (omega (arith, snap.not_newer));
}

IsSnapshot-keeps :
    (k : String) (s : Invoice) (db db' : Db)
    → IsNewer db db'
    → IsSnapshot k s db
    → IsSnapshot k s db'
IsSnapshot-keeps k s db db' newer snap =
    let (r', f, how) = newer k snap.row snap.found in keeps_row k s db db' snap r' f how

IsSound-keeps :
    (k : String) (phase : Phase) (db db' : Db)
    → IsNewer db db'
    → IsSound k phase db
    → IsSound k phase db'
IsSound-keeps k entered db db' newer h = tt
IsSound-keeps k (reading amount block n) db db' newer h = h
IsSound-keeps k (writing amount block n s) db db' newer (p, snap) =
    (p, IsSnapshot-keeps k s db db' newer snap)
IsSound-keeps k (done r) db db' newer h = tt
IsSound-keeps k (failed e) db db' newer h = tt

pub All-keep :
    (cs : List Call) (db db' : Db) → IsNewer db db' → All (IsKnown db) cs → All (IsKnown db') cs
All-keep [] db db' newer a = tt
All-keep (c ∷ cs) db db' newer (h, a) =
    (IsSound-keeps c.input.invoice_id c.phase db db' newer h, All-keep cs db db' newer a)

module _ (config : InvestConfig) (input : InvestInput) (a : Answer) where
  enter-IsSound :
      (db : Db) (acknowledged : Result (Unit {0})) (amount : Result ℕ)
      → check_amount input.amount ≡ amount
      → IsSound input.invoice_id
          (phase_of acknowledged (λ _.
            phase_of amount
              (λ n. reading n (or_default input.ledger_sequence (current_funding_window a.now)) 1)))
          db
  unfolding check_amount
  enter-IsSound db (err e) amount q = tt
  enter-IsSound db (ok _) (err e) q = tt
  enter-IsSound db (ok _) (ok n) q = positive input.amount n q
    where
      positive : (o : Option ℤ) (n : ℕ) → check_amount o ≡ ok n → 0 < n
      positive none n e = cc
      positive (some (pos zero)) n e = cc
      positive (some (pos (suc m))) n e = let same : suc m ≡ n = cc in rw (← same) (omega arith)
      positive (some (negsuc m)) n e = cc

  read_phase-IsSound :
      (amount block n : ℕ) (db : Db) (o : Result Invoice)
      → 0 < amount
      → read_invoice a.now input amount block db ≡ o
      → IsSound input.invoice_id (phase_of o (writing amount block n)) db
  read_phase-IsSound amount block n db (err e) p q = tt
  read_phase-IsSound amount block n db (ok i) p q =
      let m = (read_invoice_iff a.now input amount block db i).0 q in
      (p, record { row = i; found = m.found; not_newer = omega arith; same = λ _. refl })

  retried-IsSound :
      (amount block n : ℕ) (db : Db)
      → 0 < amount
      → IsSound input.invoice_id (retried amount block n) db
  retried-IsSound amount block n db p = elim (Bool-cases (leb 3 n)) [
    | inl y ↦ rw y tt
    | inr y ↦ rw y p
  ]

  committed-IsSound :
      (amount block n : ℕ) (s : Invoice) (db : Db) (o : Option (Result (InvestResult × Db)))
      → 0 < amount
      → IsSnapshot input.invoice_id s db
      → commit config a input amount block s db ≡ o
      → ((i : String) → Progress i db (committed amount block n o db).1)
        × IsSound input.invoice_id
            (committed amount block n o db).0
            (committed amount block n o db).1
  committed-IsSound amount block n s db none p snap e =
      (elsewhere-Progress db db refl (λ k. refl), retried-IsSound amount block n db p)
  committed-IsSound amount block n s db (some (err x)) p snap e =
      (elsewhere-Progress db db refl (λ k. refl), tt)
  committed-IsSound amount block n s db (some (ok (r, db'))) p snap e = (
    λ i.
        let (acc, found) = commit-Accepts config a input amount block s db db' r p as_read e in
        accepts-Progress input.invoice_id amount s.funded_amount db db' acc i
          (λ b same. base_of i b same found),
    tt,
  )
    where
      as_read :
          (row : Invoice)
          → row_of input.invoice_id db ≡ some row
          → row.version ≡ s.version
          → s ≡ row
      as_read row f v =
          let one : row ≡ snap.row = cc (f, snap.found) in rw one (snap.same (sym (rw one at v)))

      base_of :
          (i : String) (b : IsBooked i db)
          → input.invoice_id ≡ i
          → row_of input.invoice_id db ≡ some s
          → s.funded_amount ≡ total_invested i db.investments
      base_of i b same found =
          let one : b.row ≡ s = cc (b.found, rw same at found) in rw (b.booked, one) refl

  pub step-IsSound :
      (phase : Phase) (db : Db)
      → IsSound input.invoice_id phase db
      → ((i : String) → Progress i db (invest_step config input a phase db).1)
        × IsSound input.invoice_id
            (invest_step config input a phase db).0
            (invest_step config input a phase db).1
  unfolding invest_step enter
  step-IsSound entered db h = (elsewhere-Progress db db refl (λ k. refl), enter-IsSound db _ _ refl)
  step-IsSound (reading amount block n) db h =
      (elsewhere-Progress db db refl (λ k. refl), read_phase-IsSound amount block n db _ h refl)
  step-IsSound (writing amount block n s) db (p, snap) =
      committed-IsSound amount block n s db _ p snap refl
  step-IsSound (done r) db h = (elsewhere-Progress db db refl (λ k. refl), tt)
  step-IsSound (failed e) db h = (elsewhere-Progress db db refl (λ k. refl), tt)
