-- ===== src/Funding/Ack.antt =====
-- src/services/investor-acknowledgement.service.ts, against the check of
-- src/services/investment.service.ts.
use ss_backend.Common.{
  ℕ, String, ◌≡◌, refl, sym, ap, ◌∙◌, ◌↔◌, inl, inr, Bool, true, false, not, ◌&&◌, Option, none,
  some, List, [], ◌∷◌, ◌++◌, arith, str_eq, eq_iff, filter, is_some, trim, ok, Bool-cases,
  Option-cases,
}
use ss_backend.Common.Checks.{throw_if, >>=-eq-ok}
use ss_backend.Models.{InvestorAcknowledgement, Db}
use ss_backend.Funding.Terms.{
  latest, is_for, is_current, current_row, assert_acknowledged, AcknowledgeInput, asked_version,
  acknowledgement_of, add_acknowledgement, acknowledge, status_with, get_status,
  has_current_acknowledgement,
}

latest-cons :
    (a : InvestorAcknowledgement) (xs : List InvestorAcknowledgement)
    → is_some (latest (a ∷ xs)) ≡ true
unfolding latest
latest-cons a xs = elim (Option-cases (latest xs)) [
  | inl n ↦ rw n refl
  | inr (b, s) ↦ rw s (ground arith)
]

-- A row that passes the test is in the table, so one is latest.
latest-filter :
    (p : InvestorAcknowledgement → Bool) (xs : List InvestorAcknowledgement)
    (a : InvestorAcknowledgement)
    → p a ≡ true
    → is_some (latest (filter p (xs ++ (a ∷ [])))) ≡ true
latest-filter p [] a e = rw e (latest-cons a [])
latest-filter p (x ∷ xs) a e = elim (Bool-cases (p x)) [
  | inl y ↦ rw y (latest-cons x _)
  | inr n ↦ rw n (latest-filter p xs a e)
]

is_own : (version wallet : String) → (str_eq wallet wallet && str_eq version version) ≡ true
is_own version wallet = ground (arith, eq_iff wallet wallet, eq_iff version version)

status_full :
    (version wallet : String) (db : Db)
    → str_eq (trim wallet) "" ≡ false
    → get_status version wallet db
      ≡ status_with version
          (current_row version (trim wallet) db)
          (latest (filter (is_for (trim wallet)) db.acknowledgements))
unfolding get_status
status_full version wallet db e = ground arith

module _ (version : String) where
  with_current :
      (o any_latest : Option InvestorAcknowledgement) {a : InvestorAcknowledgement}
      → o ≡ some a
      → (status_with version o any_latest).acknowledged ≡ true
  unfolding status_with
  with_current o any_latest e = rw e refl

  without_current :
      (o any_latest : Option InvestorAcknowledgement)
      → o ≡ none
      → (status_with version o any_latest).acknowledged ≡ true
      → ⊥
  unfolding status_with
  without_current none none e q = cc
  without_current none (some a) e q = cc
  without_current (some b) any_latest e q = cc

-- A row for the current version opens both.
current_opens :
    (version wallet : String) (db : Db)
    → str_eq (trim wallet) "" ≡ false
    → is_some (current_row version (trim wallet) db) ≡ true
    → (assert_acknowledged version wallet db ≡ ok tt)
      × (has_current_acknowledgement version wallet db ≡ true)
unfolding assert_acknowledged status_with
current_opens version wallet db full current =
    elim (Option-cases (current_row version (trim wallet) db)) [
      | inl n ↦ absurd (ground arith)
      | inr (a, s) ↦ (
        rw (full, current) refl,
        ap (λ x. x.acknowledged) (status_full version wallet db full) ∙ with_current version _ _ s,
      )
    ]

assert_opens :
    (version wallet : String) (db : Db)
    → assert_acknowledged version wallet db ≡ ok tt
    → has_current_acknowledgement version wallet db ≡ true
unfolding assert_acknowledged
assert_opens version wallet db e =
    let (_, full, e1) = >>=-eq-ok (throw_if (str_eq (trim wallet) "") _) _ e in
    (current_opens version wallet db (ground arith) (ground arith)).1

empty_closed :
    (version wallet : String) (db : Db)
    → str_eq (trim wallet) "" ≡ true
    → has_current_acknowledgement version wallet db ≡ true
    → ⊥
unfolding get_status status_with
empty_closed version wallet db y e = ground arith

status_opens :
    (version wallet : String) (db : Db)
    → has_current_acknowledgement version wallet db ≡ true
    → assert_acknowledged version wallet db ≡ ok tt
unfolding status_with
status_opens version wallet db e = elim (Bool-cases (str_eq (trim wallet) "")) [
  | inl y ↦ absurd (empty_closed version wallet db y e)
  | inr full ↦ elim (Option-cases (current_row version (trim wallet) db)) [
    | inr (a, s) ↦ (current_opens version wallet db full (rw s refl)).0
    | inl n ↦ absurd (
        without_current version _ _ n
          (ap (λ x. x.acknowledged) (sym (status_full version wallet db full)) ∙ e))
  ]
]

-- A wallet is let through to invest exactly when its status says that it has acknowledged the current
-- version of the terms.
pub assert_acknowledged_iff :
    (version wallet : String) (db : Db)
    → (assert_acknowledged version wallet db ≡ ok tt)
      ↔ (has_current_acknowledgement version wallet db ≡ true)
assert_acknowledged_iff version wallet db =
    (assert_opens version wallet db, status_opens version wallet db)

-- After a wallet has acknowledged the terms it may invest under them, and its status says so.
pub acknowledge-assert :
    (now : ℕ) (version : String) (input : AcknowledgeInput) (db : Db) (a : InvestorAcknowledgement)
    (db' : Db)
    → acknowledge now version input db ≡ ok (a, db')
    → (assert_acknowledged version input.wallet_address db' ≡ ok tt)
      × (has_current_acknowledgement version input.wallet_address db' ≡ true)
unfolding acknowledge assert_acknowledged get_status status_with
acknowledge-assert now version input db a db' e =
    let (_, wallet, e1) = >>=-eq-ok (throw_if (str_eq (trim input.wallet_address) "") _) _ e in
    let (_, asked, e2) =
      >>=-eq-ok (throw_if (not (str_eq (asked_version version input.terms_version) version)) _) _
        e1 in
    let not_empty : str_eq (trim input.wallet_address) "" ≡ false = ground arith in
    let same : asked_version version input.terms_version ≡ version =
      (eq_iff _ version).0 (ground arith) in
    let written : add_acknowledgement
          (acknowledgement_of now (asked_version version input.terms_version) input) db
        ≡ db' =
      cc e2 in
    current_opens version input.wallet_address db' not_empty (
      rw (← written, same)
        (latest-filter (is_current version (trim input.wallet_address)) db.acknowledgements
          (acknowledgement_of now version input) (is_own version (trim input.wallet_address))))
