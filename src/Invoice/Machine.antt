-- ===== src/Invoice/Machine.antt =====
-- src/lib/invoice-state-machine.ts, the class `InvoiceStateMachine` and its stores. A method that
-- throws inside a database transaction loses what it wrote (`Body` in Common/Results.antt).
pub mod History
pub mod Trail
pub mod Dispatch
use mathlib.Core.Option
use ss_backend.Common.{
  ℕ, ◌+◌, ◌==◌, String, Bool, true, false, Option, none, some, List, [], ◌∷◌, ◌++◌, ◌&&◌,
  if◌then◌else◌, str_eq, or_else, any, upsert, trim, Body, Result, ok, err, ◌>>=◌, ◌>>◌, pure,
  service_error, settlement_in_progress,
}
use ss_backend.Models.{
  InvoiceStatus, cancelled, rejected, status_eq, ActorRole, TransitionReason, Invoice,
  StatusHistory, IntentStatus, prepared, submitting, distributed, completed, SettlementIntent, Db,
}
use ss_backend.Invoice.Rules.{TransitionActor, TransitionContext, assert_transition}

-- A committed status change, handed to side effects. `occurredAt` is left out.
pub record Transition : Type 0 where
  pub invoice : Invoice
  pub from : InvoiceStatus
  pub to : InvoiceStatus
  pub actor : TransitionActor
  pub trigger : TransitionReason
  pub reason : Option String
  pub history : Option StatusHistory

-- Where the machine writes; a store over mocks has no `recordHistory`.
pub record TransitionStore (S : Type 0) : Type 0 where
  pub save_invoice : Invoice → Body S Invoice
  pub record_history : Option (StatusHistory → Body S StatusHistory)

-- The statuses of an intent that bar a cancellation.
abbrev pub is_open_intent : IntentStatus → Bool
is_open_intent completed = false
is_open_intent _ = true

abbrev pub has_open_intent : String → List SettlementIntent → Bool
has_open_intent invoice_id = any (λ n. str_eq n.invoice_id invoice_id && is_open_intent n.status)

abbrev pub save_row : Invoice → Db → Db
save_row invoice db = record db {
  invoices = upsert (λ r. str_eq r.id invoice.id) invoice db.invoices;
}

unfoldable pub save_invoice : Invoice → Body Db Invoice
save_invoice invoice db =
    if status_eq invoice.status cancelled && has_open_intent invoice.id db.intents
    then err (service_error settlement_in_progress 409)
    else ok (invoice, save_row invoice db)

unfoldable pub record_history : StatusHistory → Body Db StatusHistory
record_history entry db = ok (entry, record db { history = db.history ++ (entry ∷ []) })

-- `entityManagerTransitionStore(manager)`
unfoldable pub entity_manager_store : TransitionStore Db
entity_manager_store = record { save_invoice = save_invoice; record_history = some record_history }

-- `text || null`
abbrev non_empty : String → Option String
non_empty s = if str_eq s "" then none else some s

-- `context.reason?.trim() || null`
abbrev pub trimmed_reason : Option String → Option String
trimmed_reason none = none
trimmed_reason (some s) = non_empty (trim s)

abbrev keep_history :
    {S : Type 0}
    → Option (StatusHistory → Body S StatusHistory)
    → StatusHistory
    → Body S (Option StatusHistory)
keep_history none entry = pure none
keep_history (some write) entry = write entry >>= λ saved. pure (some saved)

-- The invoice as it is saved: the new status, the reason of a rejection, and the next version.
abbrev pub moved : Invoice → InvoiceStatus → Option String → Invoice
moved invoice to reason = record invoice {
  status = to;
  rejection_reason = if status_eq to rejected then reason else invoice.rejection_reason;
  version = invoice.version + 1;
}

abbrev checked : {S : Type 0} → Result (Unit {0}) → Body S (Unit {0})
checked (ok _) s = ok (tt, s)
checked (err e) s = err e

-- `InvoiceStateMachine.transition`
unfoldable pub transition :
    {S : Type 0}
    → TransitionStore S
    → ℕ
    → Invoice
    → InvoiceStatus
    → TransitionActor
    → TransitionReason
    → TransitionContext
    → Body S Transition
transition store now invoice to actor trigger context = do
  checked (assert_transition now invoice to actor context)
  let reason = trimmed_reason context.reason
  saved ← store.save_invoice (moved invoice to reason)
  history ← keep_history store.record_history (record {
    invoice_id = invoice.id;
    from_status = invoice.status;
    to_status = to;
    actor_role = actor.role;
    actor_id = or_else actor.id actor.wallet;
    trigger = trigger;
    reason = reason;
  })
  pure (record {
    invoice = saved;
    from = invoice.status;
    to = to;
    actor = actor;
    trigger = trigger;
    reason = reason;
    history = history;
  })

-- A side effect changes the world and may then throw.
abbrev pub Effect : Type 0 → Type 0
Effect W = Transition → W → W × Bool

-- The machine's own state: which transition objects have been dispatched (a number stands for an
-- object), the world that the effects act on, and the warnings logged for effects that threw.
pub record MachineState (W : Type 0) : Type 0 where
  pub dispatched : List ℕ
  pub world : W
  pub warnings : ℕ

module _ {W : Type 0} where
  pub run_effects : List (Effect W) → Transition → W × ℕ → W × ℕ
  run_effects [] t (w, warned) = (w, warned)
  run_effects (f ∷ fs) t (w, warned) =
      let (w', threw) = f t w in run_effects fs t (w', if threw then warned + 1 else warned)

  -- `InvoiceStateMachine.dispatch`
  pub dispatch : List (Effect W) → ℕ → Transition → MachineState W → MachineState W
  unfolding run_effects
  dispatch effects object t m =
      let (w', warned') = run_effects effects t (m.world, m.warnings) in
      if any (λ d. d == object) m.dispatched
      then m
      else record { dispatched = object ∷ m.dispatched; world = w'; warnings = warned' }
