-- ===== src/Funding/Terms.antt =====
-- src/services/investor-acknowledgement.service.ts, and `assertAccreditationAcknowledged` of
-- src/services/investment.service.ts. The current version of the terms, which the environment of
-- the process sets, is an argument.
use ss_backend.Common.{
  ℕ, String, Bool, true, false, not, ◌&&◌, Option, none, some, List, [], ◌∷◌, ◌++◌, if◌then◌else◌,
  leb, str_eq, filter, trim, Result, ok, service_error, acknowledgement_required, wallet_required,
  terms_version_mismatch, is_some,
}
use ss_backend.Common.Checks.{◌>>◌, throw_if}
use ss_backend.Models.{InvestorAcknowledgement, Db}

-- `getCurrentTermsVersion`, from the variable TERMS_VERSION.
pub current_terms_version : Option String → String
current_terms_version none = "1"
current_terms_version (some raw) = if str_eq (trim raw) "" then "1" else trim raw

-- The row with the latest time, the first of them on a tie: `order: { acknowledgedAt: "DESC" }`.
unfoldable pub latest : List InvestorAcknowledgement → Option InvestorAcknowledgement
latest [] = none
latest (a ∷ as') = elim (latest as') [
  | none ↦ some a
  | some b ↦ if leb b.acknowledged_at a.acknowledged_at then some a else some b
]

abbrev pub is_for : String → InvestorAcknowledgement → Bool
is_for wallet a = str_eq a.wallet_address wallet

abbrev pub is_current : String → String → InvestorAcknowledgement → Bool
is_current version wallet a = str_eq a.wallet_address wallet && str_eq a.terms_version version

abbrev pub current_row : String → String → Db → Option InvestorAcknowledgement
current_row version wallet db = latest (filter (is_current version wallet) db.acknowledgements)

-- `assertAccreditationAcknowledged`
unfoldable pub assert_acknowledged : String → String → Db → Result (Unit {0})
assert_acknowledged version wallet_address db = do
  throw_if (str_eq (trim wallet_address) "") (service_error acknowledgement_required 403)
  throw_if (not (is_some (current_row version (trim wallet_address) db)))
      (service_error acknowledgement_required 403)

pub record AcknowledgeInput : Type 0 where
  pub wallet_address : String
  pub user_id : Option String
  pub terms_version : Option String

-- `input.termsVersion?.trim() || getCurrentTermsVersion()`
abbrev pub asked_version : String → Option String → String
asked_version version none = version
asked_version version (some s) = if str_eq (trim s) "" then version else trim s

abbrev pub acknowledgement_of : ℕ → String → AcknowledgeInput → InvestorAcknowledgement
acknowledgement_of now version input = record {
  wallet_address = trim input.wallet_address;
  user_id = input.user_id;
  terms_version = version;
  acknowledged_at = now;
}

abbrev pub add_acknowledgement : InvestorAcknowledgement → Db → Db
add_acknowledgement a db = record db { acknowledgements = db.acknowledgements ++ (a ∷ []) }

-- `InvestorAcknowledgementService.acknowledge`
unfoldable pub acknowledge :
    ℕ → String → AcknowledgeInput → Db → Result (InvestorAcknowledgement × Db)
acknowledge now version input db = do
  throw_if (str_eq (trim input.wallet_address) "") (service_error wallet_required 400)
  throw_if (not (str_eq (asked_version version input.terms_version) version))
      (service_error terms_version_mismatch 400)
  let row = acknowledgement_of now (asked_version version input.terms_version) input
  ok (row, add_acknowledgement row db)

pub record AcknowledgementStatus : Type 0 where
  pub acknowledged : Bool
  pub current_version : String
  pub acknowledged_version : Option String
  pub acknowledged_at : Option ℕ

unfoldable pub status_with :
    String → Option InvestorAcknowledgement → Option InvestorAcknowledgement → AcknowledgementStatus
status_with version (some a) any_latest = record {
  acknowledged = true;
  current_version = version;
  acknowledged_version = some a.terms_version;
  acknowledged_at = some a.acknowledged_at;
}
status_with version none (some a) = record {
  acknowledged = false;
  current_version = version;
  acknowledged_version = some a.terms_version;
  acknowledged_at = some a.acknowledged_at;
}
status_with version none none = record {
  acknowledged = false;
  current_version = version;
  acknowledged_version = none;
  acknowledged_at = none;
}

-- `InvestorAcknowledgementService.getStatus`
unfoldable pub get_status : String → String → Db → AcknowledgementStatus
unfolding status_with
get_status version wallet_address db =
    if str_eq (trim wallet_address) ""
    then status_with version none none
    else status_with version (current_row version (trim wallet_address) db)
        (latest (filter (is_for (trim wallet_address)) db.acknowledgements))

-- `InvestorAcknowledgementService.hasCurrentAcknowledgement`
abbrev pub has_current_acknowledgement : String → String → Db → Bool
has_current_acknowledgement version wallet_address db =
    (get_status version wallet_address db).acknowledged
