-- ===== src/Funding/Race/Progress.antt =====
-- What one write by any code does to a booked invoice and to the versions of all rows.
use ss_backend.Common.{
  ℕ, ◌+◌, ◌<◌, String, ◌≡◌, refl, sym, ap, ◌∙◌, ◌⊎◌, inl, inr, Bool, true, false, Option, some, ok,
  arith, str_eq, eq_iff, Bool-cases,
}
use ss_backend.Models.{
  InvoiceStatus, draft, pending, published, funded, settled, cancelled, rejected, failed, status_eq,
  TransitionReason, Invoice, Db,
}
use ss_backend.Invoice.Rules.{TransitionActor, TransitionContext}
use ss_backend.Invoice.Rules.Permission.{Permitted}
use ss_backend.Invoice.Machine.{
  Transition, entity_manager_store, transition, moved, save_row, trimmed_reason,
}
use ss_backend.Invoice.Machine.History.{transition-Moves}
use ss_backend.Funding.Invest.{row_of}
use ss_backend.Funding.Create.{total_invested}
use ss_backend.Funding.Rows.{row_of-id, row_of-save, row_of-save_other}
use ss_backend.Funding.Accepts.{Accepts}
use ss_backend.Funding.Pot.{Pot, PotStep, contribute, unlock, shut, rest}
use ss_backend.Funding.Race.{is_early, IsBooked, pot_with}

-- A row that is there stays, as it is or at a higher version.
abbrev pub IsNewer : Db → Db → Type 0
IsNewer db db' =
    (k : String) (r : Invoice)
    → row_of k db ≡ some r
    → (r' : Invoice) × (row_of k db' ≡ some r') × ((r' ≡ r) ⊎ (r.version < r'.version))

abbrev pub pot : {i : String} {db : Db} → IsBooked i db → Pot
pot {i} {db} b = pot_with b.row (total_invested i db.investments)

pub record Progress (i : String) (db db' : Db) : Type 0 where
  pub newer : IsNewer db db'
  pub kept : (b : IsBooked i db) → (b' : IsBooked i db') × PotStep (pot b) (pot b')

-- An invoice that is not touched.
untouched :
    (i : String) (db db' : Db) (b : IsBooked i db)
    → row_of i db' ≡ row_of i db
    → total_invested i db'.investments ≡ total_invested i db.investments
    → (b' : IsBooked i db') × PotStep (pot b) (pot b')
untouched i db db' b same total = (
  record {
    row = b.row;
    found = same ∙ b.found;
    booked = total ∙ b.booked;
    within = b.within;
    room = b.room;
  },
  rest (ap (pot_with b.row) total),
)

one_row : {o : Option Invoice} {r s : Invoice} → o ≡ some r → o ≡ some s → r ≡ s
one_row p q = cc

pot_eq :
    {c c' t t' : ℕ} {o o' : Bool}
    → c ≡ c'
    → t ≡ t'
    → o ≡ o'
    → ◌≡◌ {A = Pot}
        (record { capacity = c; taken = t; is_open = o })
        (record { capacity = c'; taken = t'; is_open = o' })
pot_eq p q r = cc

module _ (id : String) (a base : ℕ) (db db' : Db) (acc : Accepts id a base db db') where
  open acc use {before, after}

  accepts-IsNewer : IsNewer db db'
  accepts-IsNewer k r f = elim (Bool-cases (str_eq id k)) [
    | inr ne ↦ (r, acc.others k ne ∙ f, inl refl)
    | inl eq ↦
        let same = (eq_iff id k).0 eq in
        (
          after,
          ap (λ x. row_of x db') (sym same) ∙ acc.kept,
          inr (rw (one_row f (ap (λ x. row_of x db) (sym same) ∙ acc.found)) acc.newer),
        )
  ]

  accepts_kept :
      (i : String)
      → id ≡ i
      → (b : IsBooked i db) → base ≡ total_invested i db.investments
      → (b' : IsBooked i db') × PotStep (pot b) (pot b')
  accepts_kept i same b e =
      let before_row : b.row ≡ before = one_row b.found (rw same at acc.found) in
      let total : total_invested i db'.investments ≡ total_invested i db.investments + a =
        rw same at acc.total in
      (
        record {
          row = after;
          found = rw same at acc.kept;
          booked = omega (arith, total, e, acc.taken);
          within = omega (arith, acc.taken, acc.net, acc.fits);
          room = λ q. after_room q;
        },
        contribute a acc.positive (rw (before_row, acc.was_open) refl)
            (rw before_row (omega (arith, acc.fits, e)))
            (pot_eq (acc.net ∙ ap (λ r. r.net_amount) (sym before_row)) total
              (rw before_row (ground (arith, acc.status)))),
      )
    where
      after_room : is_early after.status ≡ true → after.funded_amount < after.net_amount
      after_room q = ground (arith, acc.status, acc.taken, acc.net)

  pub accepts-Progress :
      (i : String)
      → (IsBooked i db → id ≡ i → base ≡ total_invested i db.investments)
      → Progress i db db'
  accepts-Progress i e = record {
    newer = accepts-IsNewer;
    kept = λ b. elim (Bool-cases (str_eq id i)) [
      | inr ne ↦ untouched i db db' b (acc.others i ne) (acc.other_totals i ne)
      | inl eq ↦ let same = (eq_iff id i).0 eq in accepts_kept i same b (e b same)
    ];
  }

early_back :
    (now : ℕ) (i : Invoice) (a : TransitionActor) (c : TransitionContext) (from to : InvoiceStatus)
    → Permitted now i a c from to
    → is_early to ≡ true
    → is_early from ≡ true
early_back now i a c draft to p e = refl
early_back now i a c pending to p e = refl
early_back now i a c published to p e = refl
early_back now i a c funded draft p e = elim p [ ]
early_back now i a c funded pending p e = elim p [ ]
early_back now i a c funded published p e = elim p [ ]
early_back now i a c funded funded p e = elim p [ ]
early_back now i a c funded settled p e = cc
early_back now i a c funded rejected p e = elim p [ ]
early_back now i a c funded failed p e = elim p [ ]
early_back now i a c settled to p e = elim p [ ]
early_back now i a c cancelled to p e = elim p [ ]
early_back now i a c rejected to p e = elim p [ ]
early_back now i a c failed to p e = elim p [ ]
early_back now i a c funded cancelled p e = cc

early_published : (s : InvoiceStatus) → status_eq s published ≡ true → is_early s ≡ true
early_published s e = ground arith

-- A row saved at a new status and at the next version.
module _ (k : String) (v w : Invoice) (db db' : Db) (found : row_of k db ≡ some v)
    (same_id : w.id ≡ k) (saved : db'.invoices ≡ (save_row w db).invoices)
    (same_rows : db'.investments ≡ db.investments) (next : w.version ≡ v.version + 1) where
  saved_at : (j : String) → k ≡ j → row_of j db' ≡ some w
  saved_at j e = rw saved (row_of-save w j db (same_id ∙ e))

  saved_other : (j : String) → str_eq k j ≡ false → row_of j db' ≡ row_of j db
  saved_other j ne = rw saved (row_of-save_other w j db (rw same_id ne))

  saved-IsNewer : IsNewer db db'
  saved-IsNewer j r f = elim (Bool-cases (str_eq k j)) [
    | inr ne ↦ (r, saved_other j ne ∙ f, inl refl)
    | inl eq ↦
        let same = (eq_iff k j).0 eq in
        let old : v ≡ r = one_row (rw same at found) f in
        (w, saved_at j same, inr (rw (← old) (omega (arith, next))))
  ]

  saved_kept :
      (i : String)
      → k ≡ i
      → w.net_amount ≡ v.net_amount
      → w.funded_amount ≡ v.funded_amount
      → (is_early w.status ≡ true → is_early v.status ≡ true)
      → (b : IsBooked i db) → (b' : IsBooked i db') × PotStep (pot b) (pot b')
  saved_kept i same net taken early b =
      let old : b.row ≡ v = one_row b.found (rw same at found) in
      let total : total_invested i db'.investments ≡ total_invested i db.investments =
        rw same_rows refl in
      let room : is_early w.status ≡ true → w.funded_amount < w.net_amount =
        λ q. rw (net, taken) (rw old at b.room (early q)) in
      (
        record {
          row = w;
          found = saved_at i same;
          booked = total ∙ b.booked ∙ rw old (sym taken);
          within = rw (net, taken) (rw old at b.within);
          room = room;
        },
        elim (Bool-cases (status_eq w.status published)) [
          | inl o ↦
              unlock (full_room old (room (early_published w.status o)))
                (pot_eq (same_net old) total o)
          | inr o ↦ shut (pot_eq (same_net old) total o)
        ],
      )
    where
      full_room :
          b.row ≡ v
          → w.funded_amount < w.net_amount
          → total_invested i db.investments < b.row.net_amount
      full_room old lt = rw (b.booked, old, ← net, ← taken) lt

      same_net : b.row ≡ v → w.net_amount ≡ b.row.net_amount
      same_net old = rw old net

-- A change of status through the state machine.
pub move-Progress :
    (now : ℕ) (k : String) (v : Invoice) (to : InvoiceStatus) (a : TransitionActor)
    (t : TransitionReason) (c : TransitionContext) (db db' : Db) (tr : Transition)
    → row_of k db ≡ some v
    → transition entity_manager_store now v to a t c db ≡ ok (tr, db')
    → (i : String) → Progress i db db'
move-Progress now k v to a t c db db' tr found e i =
    let m = transition-Moves now v to a t c db e in
    let w = moved v to (trimmed_reason c.reason) in
    let vid = row_of-id k db v found in
    let saved : db'.invoices ≡ (save_row w db).invoices = rw (m.written, m.saved) refl in
    let same_rows : db'.investments ≡ db.investments = rw m.written refl in
    record {
      newer = saved-IsNewer k v w db db' found vid saved same_rows refl;
      kept = λ b. elim (Bool-cases (str_eq k i)) [
        | inr ne ↦
            untouched i db db' b (saved_other k v w db db' found vid saved same_rows refl i ne)
              (rw same_rows refl)
        | inl eq ↦
            saved_kept k v w db db' found vid saved same_rows refl i ((eq_iff k i).0 eq) refl refl
              (early_back now v a c v.status to m.permitted) b
      ];
    }

-- Code that leaves the invoices and what is invested in them.
pub elsewhere-Progress :
    (db db' : Db)
    → db'.invoices ≡ db.invoices
    → ((k : String) → total_invested k db'.investments ≡ total_invested k db.investments)
    → (i : String) → Progress i db db'
elsewhere-Progress db db' inv total i = record {
  newer = λ k r f. (r, rw inv f, inl refl);
  kept = λ b. untouched i db db' b (rw inv refl) (total i);
}
