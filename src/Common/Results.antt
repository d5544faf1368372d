-- ===== src/Common/Results.antt =====
-- `ServiceError` (src/utils/service-error.ts) with its code and HTTP status, results of code that
-- may throw, and database transactions that roll back when their body throws.
use Prim.Native.Nat.{ℕ}
use mathlib.Core.Path.{◌≡◌, refl}
use mathlib.Core.Logic.{◌⊎◌, inl, inr}

-- The codes that the modelled services throw.
pub data ErrorCode : Type 0 where
  invalid_status_transition transition_not_permitted invoice_not_publishable : ErrorCode
  transition_precondition_failed settlement_in_progress : ErrorCode
  invalid_proceeds invalid_funded_amount invalid_distributor_fee : ErrorCode
  invoice_not_found forbidden invoice_already_settled invalid_invoice_status : ErrorCode
  no_confirmed_investments settlement_snapshot_changed settlement_intent_conflict : ErrorCode
  settlement_intent_not_found settlement_reconciliation_required settlement_intent_invalid :
      ErrorCode
  distributor_configuration_missing payout_failed range_error : ErrorCode
  invalid_quantity invalid_price invalid_expiry invoice_matured no_holdings : ErrorCode
  insufficient_holdings listing_not_found listing_not_active listing_expired : ErrorCode
  self_purchase over_purchase : ErrorCode
  acknowledgement_required wallet_required terms_version_mismatch : ErrorCode
  invalid_amount invoice_not_open_for_investment invoice_expired : ErrorCode
  funding_deadline_passed self_dealing insufficient_capacity duplicate_investment : ErrorCode
  concurrent_investment_conflict suitability_check_failed : ErrorCode
  investment_not_found refund_not_allowed : ErrorCode
  invalid_invoice_number invoice_number_exists invoice_create_failed : ErrorCode
  unauthorized_invoice_access kyc_approval_required invalid_invoice_id invalid_input : ErrorCode
  invalid_rejection_reason invoice_already_rejected empty_batch batch_publish_rejected : ErrorCode

-- The message and the details are left out.
pub record ServiceError : Type 0 where
  pub code : ErrorCode
  pub status_code : ℕ

abbrev pub service_error : ErrorCode → ℕ → ServiceError
service_error c n = record { code = c; status_code = n }

pub data Result {ℓ} (A : Type ℓ) : Type ℓ where
  ok : A → Result A
  err : ServiceError → Result A

pub Result-cases {ℓ} :
    {A : Type ℓ} (r : Result A) → ((e : ServiceError) × (r ≡ err e)) ⊎ ((a : A) × (r ≡ ok a))
Result-cases (err e) = inl (e, refl)
Result-cases (ok a) = inr (a, refl)

-- Code over a state `S` that may throw; what it wrote is lost if it throws.
abbrev pub Body : Type 0 → Type 0 → Type 0
Body S A = S → Result (A × S)

infixl 5 ◌>>=◌ ◌>>◌
abbrev pub ◌>>=◌ : {S A B : Type 0} → Body S A → (A → Body S B) → Body S B
◌>>=◌ m f s = elim (m s) [ ok (a, s') ↦ f a s' | err e ↦ err e ]

abbrev pub ◌>>◌ : {S B : Type 0} → Body S (Unit {0}) → Body S B → Body S B
m >> k = m >>= λ _. k

module _ {S : Type 0} where
  abbrev pub pure : {A : Type 0} → A → Body S A
  pure a s = ok (a, s)
