-- ===== src/Invoice/Rules.antt =====
-- src/lib/invoice-state-machine.ts, the transition table and the checks: `TRANSITION_RULES`,
-- `allowedTransitionsFrom`, `isTerminalStatus`, `findRule` and `assertTransition`.
pub mod Permission
pub mod Refusal
pub mod Terminal
use mathlib.Core.Option
use ss_backend.Common.{
  ℕ, ◌==◌, String, Bool, true, false, not, ◌&&◌, ◌||◌, Option, none, some, List, [], ◌∷◌, map, leb,
  if◌then◌else◌, or_default, truthy, opt_eq, find, filter, any, ErrorCode, Result, ok, err,
  service_error, invalid_status_transition, transition_not_permitted, invoice_not_publishable,
  transition_precondition_failed, trim,
}
use ss_backend.Models.{
  InvoiceStatus, draft, pending, published, funded, settled, cancelled, rejected, failed, status_eq,
  ActorRole, seller, admin, system, Invoice,
}
use ss_backend.Invoice.Publish.{ValidationError, validate_invoice_for_publish}

pub record TransitionActor : Type 0 where
  pub role : ActorRole
  pub id : Option String
  pub wallet : Option String

pub record TransitionContext : Type 0 where
  pub funded_amount : Option ℕ
  pub reason : Option String

-- What the message of a failed guard says.
pub data GuardFailure : Type 0 where
  unpublishable : List ValidationError → GuardFailure
  reason_missing funded_amount_missing : GuardFailure
  underfunded : (committed net_amount : ℕ) → GuardFailure

-- A guard reads the clock, as `validateInvoiceForPublish` does by its default argument.
abbrev pub Guard : Type 0
Guard = ℕ → Invoice → TransitionContext → Option GuardFailure

pub record TransitionRule : Type 0 where
  pub from : InvoiceStatus
  pub to : InvoiceStatus
  pub roles : List ActorRole
  pub guard : Option Guard
  pub guard_code : Option ErrorCode

abbrev unpublishable_unless_empty : List ValidationError → Option GuardFailure
unpublishable_unless_empty [] = none
unpublishable_unless_empty (e ∷ es) = some (unpublishable (e ∷ es))

unfoldable pub publish_ready : Guard
publish_ready now invoice context =
    unpublishable_unless_empty (validate_invoice_for_publish invoice now)

-- `context.reason?.trim()` as a condition.
abbrev pub has_reason : Option String → Bool
has_reason reason = truthy (Option.map trim reason)

pub reason_required : Guard
reason_required now invoice context =
    if has_reason context.reason then none else some reason_missing

abbrev enough : ℕ → Option ℕ → Option GuardFailure
enough net none = some funded_amount_missing
enough net (some committed) = if leb net committed then none else some (underfunded committed net)

unfoldable pub fully_funded : Guard
fully_funded now invoice context = enough invoice.net_amount context.funded_amount

abbrev plain : InvoiceStatus → InvoiceStatus → List ActorRole → TransitionRule
plain from to roles = record {
  from = from;
  to = to;
  roles = roles;
  guard = none;
  guard_code = none;
}

abbrev publishing : InvoiceStatus → InvoiceStatus → ActorRole → TransitionRule
publishing from to role = record {
  from = from;
  to = to;
  roles = role ∷ [];
  guard = some publish_ready;
  guard_code = some invoice_not_publishable;
}

abbrev guarded : InvoiceStatus → InvoiceStatus → ActorRole → Guard → TransitionRule
guarded from to role g = record {
  from = from;
  to = to;
  roles = role ∷ [];
  guard = some g;
  guard_code = none;
}

unfoldable pub transition_rules : List TransitionRule
transition_rules =
    publishing draft pending seller
    ∷ publishing draft published seller
    ∷ publishing pending published admin
    ∷ guarded draft rejected admin reason_required
    ∷ guarded pending rejected admin reason_required
    ∷ guarded published funded system fully_funded
    ∷ plain funded settled (admin ∷ system ∷ [])
    ∷ plain published failed (system ∷ [])
    ∷ plain draft cancelled (seller ∷ admin ∷ [])
    ∷ plain pending cancelled (seller ∷ admin ∷ [])
    ∷ plain published cancelled (admin ∷ [])
    ∷ plain funded cancelled (admin ∷ [])
    ∷ []

pub allowed_transitions_from : InvoiceStatus → List InvoiceStatus
unfolding transition_rules
allowed_transitions_from from =
    map (λ r. r.to) (filter (λ r. status_eq r.from from) transition_rules)

abbrev is_empty : List InvoiceStatus → Bool
is_empty [] = true
is_empty (_ ∷ _) = false

pub is_terminal_status : InvoiceStatus → Bool
unfolding allowed_transitions_from
is_terminal_status status = is_empty (allowed_transitions_from status)

pub find_rule : InvoiceStatus → InvoiceStatus → Option TransitionRule
unfolding transition_rules
find_rule from to = find (λ r. status_eq r.from from && status_eq r.to to) transition_rules

abbrev pub role_index : ActorRole → ℕ
role_index seller = 0
role_index admin = 1
role_index system = 2

abbrev pub role_eq : ActorRole → ActorRole → Bool
role_eq a b = role_index a == role_index b

abbrev pub owner_mismatch : Invoice → TransitionActor → Bool
owner_mismatch invoice actor =
    role_eq actor.role seller && not (opt_eq actor.id (some invoice.seller_id))

-- The part of `assertTransition` after its rule has been looked up.
run_guard : TransitionRule → Option GuardFailure → Result (Unit {0})
run_guard rule none = ok tt
run_guard rule (some _) =
    err (service_error (or_default rule.guard_code transition_precondition_failed) 422)

abbrev pub guard_failure : Option Guard → ℕ → Invoice → TransitionContext → Option GuardFailure
guard_failure none now invoice context = none
guard_failure (some g) now invoice context = g now invoice context

abbrev pub is_refused : TransitionRule → Invoice → TransitionActor → Bool
is_refused rule invoice actor =
    not (any (λ r. role_eq r actor.role) rule.roles) || owner_mismatch invoice actor

pub check_rule :
    Option TransitionRule → ℕ → Invoice → TransitionActor → TransitionContext → Result (Unit {0})
unfolding run_guard
check_rule none now invoice actor context = err (service_error invalid_status_transition 422)
check_rule (some rule) now invoice actor context =
    if is_refused rule invoice actor
    then err (service_error transition_not_permitted 403)
    else run_guard rule (guard_failure rule.guard now invoice context)

unfoldable pub assert_transition :
    ℕ → Invoice → InvoiceStatus → TransitionActor → TransitionContext → Result (Unit {0})
unfolding check_rule find_rule
assert_transition now invoice to actor context =
    check_rule (find_rule invoice.status to) now invoice actor context
