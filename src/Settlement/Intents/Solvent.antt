-- ===== src/Settlement/Intents/Solvent.antt =====
-- The payload of a prepared intent pays out no more than the proceeds.
use ss_backend.Common.{
  ℕ, zero, suc, ◌+◌, ◌*◌, ◌/◌, ◌≤◌, ℤ, pos, negsuc, sub_ℕ, String, ◌≡◌, ◌≢◌, refl, ◌∙◌, inl, inr,
  Bool, false, List, [], ◌∷◌, map, arith, sum_by, sum_by-sort, sort, All, All-append, find-All, ok,
}
use ss_backend.Common.Checks.{>>=-eq-ok, throw_if}
use ss_backend.Models.{Invoice, Investment, IntentInvestment, IntentPayload, SettlementIntent, Db}
use ss_backend.Settlement.Returns.{
  compute_investor_return, Holding, total_funded, total_returned, fee_of,
}
use ss_backend.Settlement.Returns.Shares.{share_of, returned_bounds}
use ss_backend.Settlement.Intents.Effects.{reuse_or_create_cases}
use ss_backend.Settlement.Intents.{
  PrepareInput, backing, stroop_factor, prepare_investments, check_prepare, new_payload,
  is_empty_list, intent_of, prepare_settlement_intent,
}

abbrev pub holding_of : Investment → Holding
holding_of v = record {
  id = v.id;
  investor_id = v.investor_id;
  investment_amount = v.investment_amount;
}

pub total_funded-holdings :
    (vs : List Investment) → total_funded (map holding_of vs) ≡ sum_by (λ v. v.investment_amount) vs
total_funded-holdings [] = refl
total_funded-holdings (v ∷ vs) = omega (arith, total_funded-holdings vs)

-- A share is computed only of a positive total and from an amount that is not negative.
pub returns_when :
    (v : ℕ) (total : ℕ) (z : ℤ) (r : ℕ)
    → compute_investor_return (pos v) (pos total) z ≡ ok r
    → (t : ℕ) × (d : ℕ) × (total ≡ suc t) × (z ≡ pos d) × (r ≡ v * d / suc t)
unfolding compute_investor_return
returns_when v zero z r e = cc
returns_when v (suc t) (negsuc d) r e = cc
returns_when v (suc t) (pos d) r e = (t, d, refl, refl, cc)

-- What the holders of `vs` get in stroops when `suc t` was funded and `d` is distributed.
abbrev pub stroops : ℕ → ℕ → List Investment → ℕ
stroops t d vs = total_returned (map (share_of t d) (map holding_of vs)) * stroop_factor

abbrev total_stroops : List IntentInvestment → ℕ
total_stroops = sum_by (λ n. n.return_amount_stroops)

rows_total :
    (db : Db) (t d : ℕ) (vs : List Investment) (rows : List IntentInvestment)
    → prepare_investments db (suc t) (pos d) vs ≡ ok rows
    → total_stroops rows ≡ stroops t d vs
unfolding prepare_investments compute_investor_return
rows_total db t d [] rows e = ground arith
rows_total db t d (v ∷ vs) rows e =
    let (rest, inner, last) = >>=-eq-ok (prepare_investments db (suc t) (pos d) vs) _ e in
    ground (arith, rows_total db t d vs rest inner)

-- The fee and the returns fit into the proceeds, all in stroops.
abbrev pub IsSolvent : IntentPayload → Type 0
IsSolvent p =
    total_stroops p.investments + fee_of p.proceeds p.fee_bps * stroop_factor
    ≤ p.proceeds * stroop_factor

pub fits :
    (p bps t d : ℕ) (vs : List Investment)
    → sum_by (λ v. v.investment_amount) vs ≡ suc t
    → sub_ℕ p (fee_of p bps) ≡ pos d
    → stroops t d vs + fee_of p bps * stroop_factor ≤ p * stroop_factor
fits p bps t d vs e q =
    let bound = returned_bounds t d (map holding_of vs) (total_funded-holdings vs ∙ e) in
    let split : d + fee_of p bps ≡ p = ground arith in omega (arith, bound.0, split)

rows_when :
    (db : Db) (total : ℕ) (z : ℤ) (v : Investment) (vs : List Investment)
    (rows : List IntentInvestment)
    → prepare_investments db total z (v ∷ vs) ≡ ok rows
    → (t : ℕ) × (d : ℕ) × (total ≡ suc t) × (z ≡ pos d)
unfolding prepare_investments
rows_when db total z v vs rows e =
    let (r, first, _) =
      >>=-eq-ok (compute_investor_return (pos v.investment_amount) (pos total) z) _ e in
    let (t, d, p, q, _) = returns_when v.investment_amount total z r first in (t, d, p, q)

rows_fit :
    (db : Db) (p bps : ℕ) (vs : List Investment) (rows : List IntentInvestment)
    → vs ≢ []
    → prepare_investments db (sum_by (λ v. v.investment_amount) vs) (sub_ℕ p (fee_of p bps)) vs
      ≡ ok rows
    → total_stroops rows + fee_of p bps * stroop_factor ≤ p * stroop_factor
rows_fit db p bps [] rows ne e = absurd (ne refl)
rows_fit db p bps (v ∷ vs) rows ne e =
    let (t, d, q, s) = rows_when db _ _ v vs rows e in
    let same = rows_total db t d (v ∷ vs) rows (rw (q, s) at e) in
    rw same (fits p bps t d (v ∷ vs) q s)

is_empty_cases : (vs : List Investment) → is_empty_list vs ≡ false → vs ≢ []
is_empty_cases [] e q = cc
is_empty_cases (v ∷ vs) e q = cc

made_of :
    (before : String → String → Bool) (input : PrepareInput) (v : Invoice) (db : Db)
    (p : IntentPayload)
    → new_payload before input v db ≡ ok p
    → (rows : List IntentInvestment) × (backing v.id db ≢ [])
      × (prepare_investments db
            (sum_by (λ w. w.investment_amount) (backing v.id db))
            (sub_ℕ input.proceeds (fee_of input.proceeds input.fee_bps))
            (backing v.id db)
          ≡ ok rows)
      × (p.proceeds ≡ input.proceeds)
      × (p.fee_bps ≡ input.fee_bps)
      × (p.investments ≡ sort (λ a b. before a.id b.id) rows)
unfolding new_payload
made_of before input v db p e =
    let (_, some_left, e1) = >>=-eq-ok (throw_if (is_empty_list (backing v.id db)) _) _ e in
    let (rows, made, e2) =
      >>=-eq-ok
        (prepare_investments db (sum_by (λ w. w.investment_amount) (backing v.id db))
          (sub_ℕ input.proceeds (fee_of input.proceeds input.fee_bps)) (backing v.id db))
        _ e1 in
    (rows, is_empty_cases (backing v.id db) (ground arith), made, cc e2, cc e2, cc e2)

new_payload-IsSolvent :
    (before : String → String → Bool) (input : PrepareInput) (v : Invoice) (db : Db)
    (p : IntentPayload)
    → new_payload before input v db ≡ ok p
    → IsSolvent p
new_payload-IsSolvent before input v db p e =
    let (rows, ne, made, q, b, s) = made_of before input v db p e in
    rw (s, q, b, sum_by-sort)
      (rows_fit db input.proceeds input.fee_bps (backing v.id db) rows ne made)

-- A returned intent and all stored ones are solvent if the stored ones were.
pub prepare-IsSolvent :
    (before : String → String → Bool) (input : PrepareInput) (db : Db) (n : SettlementIntent)
    (db' : Db)
    → prepare_settlement_intent before input db ≡ ok (n, db')
    → All (λ m. IsSolvent m.payload) db.intents
    → IsSolvent n.payload × All (λ m. IsSolvent m.payload) db'.intents
unfolding prepare_settlement_intent
prepare-IsSolvent before input db n db' e all =
    let (v, checked, made) = >>=-eq-ok (check_prepare input db) _ e in
    elim (reuse_or_create_cases before input db v (intent_of v.id db) n db' made) [
      | inl (old, q) ↦ (find-All (λ m. IsSolvent m.payload) _ db.intents n all old, rw q all)
      | inr (_, p, fresh, new, q) ↦
          let good = new_payload-IsSolvent before input v db p fresh in
          (
            rw new good,
            rw (q, new) (All-append (λ m. IsSolvent m.payload) db.intents _ all (good, tt)),
          )
    ]
