-- ===== src/Settlement/Rows.antt =====
-- The table of settlement intents: how its rows are counted, and what each write does to the counts.
use mathlib.Core.Option
use mathlib.Core.List.{map-append}
use ss_backend.Common.{
  ℕ, ◌+◌, ◌≤◌, ◌<◌, ◌==◌, String, ◌≡◌, ◌≢◌, refl, ap, find_sound, inl, inr, Bool, true, false, ◌&&◌,
  not, Option, none, some, List, [], ◌∷◌, ◌++◌, map, arith, str_eq, eq_iff, count, find, upsert,
  All, All-append, count-append, count-upsert, Bool-cases, if◌then◌else◌,
}
use ss_backend.Models.{IntentStatus, prepared, SettlementIntent, Db}

abbrev pub is_claimed_status : IntentStatus → Bool
is_claimed_status prepared = false
is_claimed_status _ = true

-- The intents of an invoice, and those whose payout has been claimed.
abbrev pub rows_of : String → List SettlementIntent → ℕ
rows_of i = count (λ n. str_eq n.invoice_id i)

abbrev pub claims_of : String → List SettlementIntent → ℕ
claims_of i = count (λ n. str_eq n.invoice_id i && is_claimed_status n.status)

pub claims-le-rows : (i : String) (ns : List SettlementIntent) → claims_of i ns ≤ rows_of i ns
claims-le-rows i [] = omega arith
claims-le-rows i (n ∷ ns) = ground (arith, claims-le-rows i ns)

-- The invoice of the row with an identifier.
abbrev pub invoice_at : ℕ → List SettlementIntent → Option String
invoice_at k ns = Option.map (λ n. n.invoice_id) (find (λ n. n.id == k) ns)

abbrev pub ids : List SettlementIntent → List ℕ
ids = map (λ n. n.id)

abbrev pub Distinct : List ℕ → Type 0
Distinct [] = Unit
Distinct (x ∷ xs) = All (λ y. y ≢ x) xs × Distinct xs

-- Identifiers are drawn once.
pub record AreFresh (db : Db) : Type 0 where
  pub distinct : Distinct (ids db.intents)
  pub drawn : All (λ k. k < db.next_id) (ids db.intents)

find_in_ids :
    (P : ℕ → Type 0) (p : SettlementIntent → Bool) (ns : List SettlementIntent)
    (n : SettlementIntent)
    → All P (ids ns)
    → find p ns ≡ some n
    → P n.id
find_in_ids P p [] n h e = absurd (ground arith)
find_in_ids P p (x ∷ xs) n h e = elim (Bool-cases (p x)) [
  | inl y ↦ let same : x ≡ n = ground arith in rw (← same) h.0
  | inr y ↦ find_in_ids P p xs n h.1 (ground arith)
]

-- A row that any test finds is also found by its identifier.
pub find_by_id :
    (p : SettlementIntent → Bool) (ns : List SettlementIntent) (n : SettlementIntent)
    → Distinct (ids ns)
    → find p ns ≡ some n
    → find (λ m. m.id == n.id) ns ≡ some n
find_by_id p [] n d e = absurd (ground arith)
find_by_id p (x ∷ xs) n d e = elim (Bool-cases (p x)) [
  | inl y ↦ ground arith
  | inr y ↦
      let e' : find p xs ≡ some n = ground arith in
      let ne = find_in_ids (λ k. k ≢ x.id) p xs n d.0 e' in ground (arith, find_by_id p xs n d.1 e')
]

module _ (n : SettlementIntent) {old : SettlementIntent} where
  -- A row is written over the one with its identifier.
  pub ids-upsert :
      (ns : List SettlementIntent)
      → find (λ m. m.id == n.id) ns ≡ some old
      → ids (upsert (λ m. m.id == n.id) n ns) ≡ ids ns
  ids-upsert [] e = absurd (ground arith)
  ids-upsert (x ∷ xs) e = ground (arith, ids-upsert xs)

  pub invoice_at-upsert :
      (k : ℕ) (ns : List SettlementIntent)
      → find (λ m. m.id == n.id) ns ≡ some old
      → n.invoice_id ≡ old.invoice_id
      → invoice_at k (upsert (λ m. m.id == n.id) n ns) ≡ invoice_at k ns
  invoice_at-upsert k [] e q = absurd (ground arith)
  invoice_at-upsert k (x ∷ xs) e q = ground (arith, invoice_at-upsert k xs)

pub invoice_at-append :
    (k : ℕ) (ns ms : List SettlementIntent) (i : String)
    → invoice_at k ns ≡ some i
    → invoice_at k (ns ++ ms) ≡ some i
invoice_at-append k [] ms i e = absurd (ground arith)
invoice_at-append k (x ∷ xs) ms i e = ground (arith, invoice_at-append k xs ms i)

Distinct-append :
    (xs : List ℕ) (k : ℕ) → Distinct xs → All (λ x. x < k) xs → Distinct (xs ++ (k ∷ []))
Distinct-append [] k d a = (tt, tt)
Distinct-append (x ∷ xs) k d a =
    (All-append (λ y. y ≢ x) xs (k ∷ []) d.0 (omega arith, tt), Distinct-append xs k d.1 a.1)

All-weaken : (xs : List ℕ) (k : ℕ) → All (λ x. x < k) xs → All (λ x. x < k + 1) xs
All-weaken [] k a = tt
All-weaken (x ∷ xs) k a = (omega arith, All-weaken xs k a.1)

-- What one write to the database may do to the intents, seen from the invoice `i`: `d` more of its
-- payouts are claimed.
pub record Grows (i : String) (d : ℕ) (db db' : Db) : Type 0 where
  pub claims : claims_of i db'.intents ≡ claims_of i db.intents + d
  pub rows : rows_of i db.intents ≤ 1 → rows_of i db'.intents ≤ 1
  pub found :
      (k : ℕ) (j : String) → invoice_at k db.intents ≡ some j → invoice_at k db'.intents ≡ some j
  pub fresh : AreFresh db → AreFresh db'

-- A write elsewhere.
pub Grows-same :
    (i : String) (db db' : Db)
    → db'.intents ≡ db.intents
    → db'.next_id ≡ db.next_id
    → Grows i 0 db db'
Grows-same i db db' e q = record {
  claims = rw e (omega arith);
  rows = λ h. rw e h;
  found = λ k j h. rw e h;
  fresh = λ f. record { distinct = rw e f.distinct; drawn = rw (e, q) f.drawn };
}

abbrev pub gain : String → SettlementIntent → SettlementIntent → ℕ
gain i old n =
    if str_eq n.invoice_id i && (is_claimed_status n.status && not (is_claimed_status old.status))
    then 1
    else 0

-- A write over the row that was read, of the same invoice and not back to `prepared`.
pub Grows-save :
    (i : String) (n old : SettlementIntent) (db db' : Db)
    → find (λ m. m.id == n.id) db.intents ≡ some old
    → n.invoice_id ≡ old.invoice_id
    → is_claimed_status n.status ≡ true
    → db'.intents ≡ upsert (λ m. m.id == n.id) n db.intents
    → db'.next_id ≡ db.next_id
    → Grows i (gain i old n) db db'
Grows-save i n old db db' e q s w x = record {
  claims = rw w (
      ground (
        arith,
        count-upsert (λ m. str_eq m.invoice_id i && is_claimed_status m.status) (λ m. m.id == n.id)
            n old db.intents e,
      ));
  rows = λ h. rw w (
      ground
        (arith, count-upsert (λ m. str_eq m.invoice_id i) (λ m. m.id == n.id) n old db.intents e));
  found = λ k j h. rw (w, invoice_at-upsert n {old = old} k db.intents e q) h;
  fresh = λ f. record {
    distinct = rw (w, ids-upsert n {old = old} db.intents e) f.distinct;
    drawn = rw (w, x, ids-upsert n {old = old} db.intents e) f.drawn;
  };
}

rows_of-none :
    (i : String) (ns : List SettlementIntent)
    → find (λ n. str_eq n.invoice_id i) ns ≡ none
    → rows_of i ns ≡ 0
rows_of-none i [] e = refl
rows_of-none i (n ∷ ns) e = ground (arith, rows_of-none i ns)

-- A new row, of an invoice that has none.
pub Grows-add :
    (i : String) (n : SettlementIntent) (db db' : Db)
    → find (λ m. str_eq m.invoice_id n.invoice_id) db.intents ≡ none
    → n.status ≡ prepared
    → n.id ≡ db.next_id
    → db'.intents ≡ db.intents ++ (n ∷ [])
    → db'.next_id ≡ db.next_id + 1
    → Grows i 0 db db'
Grows-add i n db db' e s k w x = record {
  claims = rw (w, count-append) (ground arith);
  rows = λ h.
      rw (w, count-append)
        (ground (arith, eq_iff n.invoice_id i, rows_of-none n.invoice_id db.intents e));
  found = λ k j h. rw w (invoice_at-append k db.intents (n ∷ []) j h);
  fresh = λ f. record {
    distinct =
        rw (w, map-append, k) (Distinct-append (ids db.intents) db.next_id f.distinct f.drawn);
    drawn =
        rw (w, x, map-append, k)
          (All-append (λ y. y < db.next_id + 1) (ids db.intents) (db.next_id ∷ [])
            (All-weaken (ids db.intents) db.next_id f.drawn) (omega arith, tt));
  };
}

-- The row that an invoice's intent is found in is also the row of its identifier.
pub row_found :
    (i : String) (ns : List SettlementIntent) (n : SettlementIntent)
    → Distinct (ids ns)
    → find (λ m. str_eq m.invoice_id i) ns ≡ some n
    → invoice_at n.id ns ≡ some i
row_found i ns n d e =
    rw (find_by_id (λ m. str_eq m.invoice_id i) ns n d e)
      (ap some ((eq_iff n.invoice_id i).0 (find_sound (λ m. str_eq m.invoice_id i) ns n e)))

pub row_added :
    (ns : List SettlementIntent) (n : SettlementIntent)
    → All (λ k. k < n.id) (ids ns)
    → invoice_at n.id (ns ++ (n ∷ [])) ≡ some n.invoice_id
row_added [] n a = ground arith
row_added (x ∷ xs) n a = ground (arith, row_added xs n)

pub Grows-trans :
    (i : String) (c d : ℕ) (db mid db' : Db)
    → Grows i c db mid
    → Grows i d mid db'
    → Grows i (c + d) db db'
Grows-trans i c d db mid db' g h = record {
  claims = omega (arith, g.claims, h.claims);
  rows = λ r. h.rows (g.rows r);
  found = λ k j e. h.found k j (g.found k j e);
  fresh = λ f. h.fresh (g.fresh f);
}

-- A row found by an identifier has it.
pub find_own :
    (k : ℕ) (ns : List SettlementIntent) (m : SettlementIntent)
    → find (λ x. x.id == k) ns ≡ some m
    → m.id ≡ k
find_own k ns m e = let found = find_sound (λ x. x.id == k) ns m e in ground arith
