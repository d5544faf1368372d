-- ===== src/Invoice/Machine/History.antt =====
-- What a transition writes, and the audit trail of any run of transitions.
use ss_backend.Common.{
  ℕ, ◌≡◌, refl, inl, inr, Bool, true, false, some, [], ◌∷◌, ◌++◌, ◌&&◌, arith, or_else, ok, err,
  Result-cases, ServiceError, service_error, settlement_in_progress, Bool-cases, ◌>>=◌,
}
use ss_backend.Models.{
  InvoiceStatus, draft, pending, published, funded, settled, cancelled, rejected, failed, status_eq,
  TransitionReason, Invoice, StatusHistory, Db,
}
use ss_backend.Invoice.Rules.{TransitionActor, TransitionContext, assert_transition}
use ss_backend.Invoice.Rules.Permission.{Permitted, assert_transition_iff}
use ss_backend.Invoice.Machine.{
  Transition, save_invoice, record_history, save_row, moved, trimmed_reason, has_open_intent,
  entity_manager_store, transition,
}

abbrev pub history_entry :
    Invoice → InvoiceStatus → TransitionActor → TransitionReason → TransitionContext → StatusHistory
history_entry i to a t c = record {
  invoice_id = i.id;
  from_status = i.status;
  to_status = to;
  actor_role = a.role;
  actor_id = or_else a.id a.wallet;
  trigger = t;
  reason = trimmed_reason c.reason;
}

-- What a transition that returned has done.
pub record Moves (now : ℕ) (i : Invoice) (to : InvoiceStatus) (a : TransitionActor)
    (t : TransitionReason) (c : TransitionContext) (db : Db) (tr : Transition) (db' : Db)
    : Type 0 where
  pub permitted : Permitted now i a c i.status to
  pub not_settling : to ≡ cancelled → has_open_intent i.id db.intents ≡ false
  pub saved : tr.invoice ≡ moved i to (trimmed_reason c.reason)
  pub written :
      db'
      ≡ record (save_row tr.invoice db) { history = db.history ++ (history_entry i to a t c ∷ []) }

abbrev pub is_barred : Invoice → InvoiceStatus → Db → Bool
is_barred i to db = status_eq to cancelled && has_open_intent i.id db.intents

abbrev pub made :
    Invoice → InvoiceStatus → TransitionActor → TransitionReason → TransitionContext → Transition
made i to a t c = record {
  invoice = moved i to (trimmed_reason c.reason);
  from = i.status;
  to = to;
  actor = a;
  trigger = t;
  reason = trimmed_reason c.reason;
  history = some (history_entry i to a t c);
}

module _ (now : ℕ) (i : Invoice) (to : InvoiceStatus) (a : TransitionActor) (t : TransitionReason)
    (c : TransitionContext) (db : Db) where
  transition_throws :
      {e : ServiceError}
      → assert_transition now i to a c ≡ err e
      → transition entity_manager_store now i to a t c db ≡ err e
  unfolding transition entity_manager_store
  transition_throws q = rw (q, ◌>>=◌)

  save_barred :
      is_barred i to db ≡ true
      → save_invoice (moved i to (trimmed_reason c.reason)) db
        ≡ err (service_error settlement_in_progress 409)
  unfolding save_invoice
  save_barred b = ground arith

  save_returns :
      is_barred i to db ≡ false
      → save_invoice (moved i to (trimmed_reason c.reason)) db
        ≡ ok ((made i to a t c).invoice, save_row (made i to a t c).invoice db)
  unfolding save_invoice
  save_returns b = ground arith

  transition_barred :
      assert_transition now i to a c ≡ ok tt
      → is_barred i to db ≡ true
      → transition entity_manager_store now i to a t c db
        ≡ err (service_error settlement_in_progress 409)
  unfolding transition entity_manager_store
  transition_barred q b = rw (q, ◌>>=◌) (rw (save_barred b, ◌>>=◌))

  pub transition_returns :
      assert_transition now i to a c ≡ ok tt
      → is_barred i to db ≡ false
      → transition entity_manager_store now i to a t c db
        ≡ ok (
          made i to a t c,
          record (save_row (made i to a t c).invoice db) {
            history = db.history ++ (history_entry i to a t c ∷ []);
          },
        )
  unfolding transition entity_manager_store record_history
  transition_returns q b = rw (q, ◌>>=◌) (rw (save_returns b, ◌>>=◌))

-- A transition through the database returns only if the state machine permits it and, for a
-- cancellation, no payout is open; then the invoice row is the invoice at its new status, exactly
-- one history row is appended, which names the old and the new status, and nothing else changes.
pub transition-Moves :
    (now : ℕ) (i : Invoice) (to : InvoiceStatus) (a : TransitionActor) (t : TransitionReason)
    (c : TransitionContext) (db : Db) {tr : Transition} {db' : Db}
    → transition entity_manager_store now i to a t c db ≡ ok (tr, db')
    → Moves now i to a t c db tr db'
transition-Moves now i to a t c db {tr} e = elim (Result-cases (assert_transition now i to a c)) [
  | inl (x, q) ↦ absurd (cc (transition_throws now i to a t c db q))
  | inr (_, q) ↦ elim (Bool-cases (is_barred i to db)) [
    | inl b ↦ absurd (cc (transition_barred now i to a t c db q b))
    | inr b ↦
        let same = transition_returns now i to a t c db q b in
        record {
          permitted = (assert_transition_iff now i to a c).0 q;
          not_settling = λ p. ground arith;
          saved = cc same;
          written =
              let saved' : tr.invoice ≡ moved i to (trimmed_reason c.reason) = cc same in
              rw saved' (cc same);
        }
  ]
]

barred_by :
    (to : InvoiceStatus) (b : Bool)
    → (to ≡ cancelled → b ≡ false)
    → (status_eq to cancelled && b) ≡ false
barred_by cancelled b h = h refl
barred_by draft b h = refl
barred_by pending b h = refl
barred_by published b h = refl
barred_by funded b h = refl
barred_by settled b h = refl
barred_by rejected b h = refl
barred_by failed b h = refl

-- A transition that the state machine permits does return, whether or not a payout is open, except that
-- an open payout bars a cancellation.
pub transition_complete :
    (now : ℕ) (i : Invoice) (to : InvoiceStatus) (a : TransitionActor) (t : TransitionReason)
    (c : TransitionContext) (db : Db)
    → Permitted now i a c i.status to
    → (to ≡ cancelled → has_open_intent i.id db.intents ≡ false)
    → (tr : Transition) × (db' : Db) × (transition entity_manager_store now i to a t c db
        ≡ ok (tr, db'))
transition_complete now i to a t c db p n = (
  _,
  _,
  transition_returns now i to a t c db ((assert_transition_iff now i to a c).1 p)
      (barred_by to _ n),
)
