-- ===== src/Invoice/Tests.antt =====
-- Concrete cases of the theorems about the life cycle of an invoice.
use ss_backend.Common.{
  ℕ, ◌+◌, ◌≤◌, ◌≡◌, refl, ◌↔◌, inr, true, false, none, some, List, [], ◌∷◌, ◌++◌, arith, length,
  any, ok, err, service_error, invalid_status_transition, transition_not_permitted,
}
use ss_backend.Models.{
  distributed, InvoiceStatus, draft, published, funded, settled, rejected, seller, admin, system,
  fully_funded, maturity_settled, seller_published, admin_rejected, Invoice, StatusHistory, Db,
}
use ss_backend.Invoice.Publish.{validate_invoice_for_publish, IsPublishable, validate_invoice_iff}
use ss_backend.Invoice.Rules.{
  TransitionActor, TransitionContext, assert_transition, fully_funded as funding_guard,
}
use ss_backend.Invoice.Rules.Permission.{Permitted, assert_transition_iff}
use ss_backend.Invoice.Rules.Refusal.{
  MayMove, is_edge, precondition_code, assert_transition_refusals,
}
use ss_backend.Invoice.Machine.{
  Transition, save_invoice, record_history, entity_manager_store, transition, Effect,
}
use ss_backend.Invoice.Machine.History.{Moves, transition-Moves, transition_complete}
use ss_backend.Invoice.Machine.Trail.{
  Attempt, run, Trail, run-Trail, run_bounded, is_funding, settled_through_funding,
}
use ss_backend.Invoice.Machine.Dispatch.{dispatch_all, dispatch_at_most_once}

abbrev invoice : InvoiceStatus → Invoice
invoice s = record {
  id = "inv-1";
  seller_id = "seller";
  invoice_number = "N-1";
  amount = 2_000_000;
  discount_rate = 1_000;
  net_amount = 1_900_000;
  funded_amount = 0;
  due_date = some 100_000_000;
  ipfs_hash = some "Qm";
  status = s;
  rejection_reason = none;
  settlement_remainder = none;
  funding_deadline = none;
  version = 1;
}

abbrev database : Db
database = record {
  invoices = invoice draft ∷ [];
  deleted_invoices = [];
  history = [];
  investments = [];
  users = [];
  intents = [];
  returns = [];
  remainders = [];
  transactions = [];
  listings = [];
  acknowledgements = [];
  next_id = 1;
}

abbrev the_seller : TransitionActor
the_seller = record { role = seller; id = some "seller"; wallet = none }

abbrev the_admin : TransitionActor
the_admin = record { role = admin; id = some "admin"; wallet = none }

abbrev the_system : TransitionActor
the_system = record { role = system; id = none; wallet = none }

abbrev plain_context : TransitionContext
plain_context = record { funded_amount = none; reason = none }

abbrev with_amount : TransitionContext
with_amount = record { funded_amount = some 1_900_000; reason = none }

publishable : IsPublishable 10_000 (invoice draft)
publishable = record {
  face_value = omega arith;
  deadline = 100_000_000;
  dated = refl;
  lead_time = omega arith;
  documented = refl;
}

validate_invoice_iff_example :
    (validate_invoice_for_publish (invoice draft) 10_000 ≡ [])
    ↔ IsPublishable 10_000 (invoice draft)
validate_invoice_iff_example = validate_invoice_iff (invoice draft) 10_000

assert_transition_iff_example :
    (assert_transition 10_000 (invoice draft) published the_seller plain_context ≡ ok tt)
    ↔ Permitted 10_000 (invoice draft) the_seller plain_context draft published
assert_transition_iff_example =
    assert_transition_iff 10_000 (invoice draft) published the_seller plain_context

-- The seller publishes the draft.
published_test : assert_transition 10_000 (invoice draft) published the_seller plain_context ≡ ok tt
published_test =
    assert_transition_iff_example.1 (record { as_seller = refl; owns = refl }, publishable)

assert_transition_refusals_example :
    (is_edge published rejected ≡ false
      → assert_transition 0 (invoice published) rejected the_admin plain_context
        ≡ err (service_error invalid_status_transition 422))
    × (is_edge published rejected ≡ true
        → ¬ MayMove (invoice published) the_admin published rejected
        → assert_transition 0 (invoice published) rejected the_admin plain_context
          ≡ err (service_error transition_not_permitted 403))
    × (MayMove (invoice published) the_admin published rejected
        → ¬ Permitted 0 (invoice published) the_admin plain_context published rejected
        → assert_transition 0 (invoice published) rejected the_admin plain_context
          ≡ err (service_error (precondition_code rejected) 422))
assert_transition_refusals_example =
    assert_transition_refusals 0 (invoice published) rejected the_admin plain_context

-- A payout that has been distributed and not booked yet.
abbrev paying : Db
paying = record database {
  intents =
      record {
        id = 1;
        invoice_id = (invoice funded).id;
        status = distributed;
        payload = record {
          proceeds = 1;
          actor_wallet = "system";
          seller_id = none;
          trigger = maturity_settled;
          fee_recipient = "GFEE";
          fee_bps = 0;
          investments = [];
        };
        transaction_hash = some "tx";
      }
      ∷ [];
}

transition_complete_example :
    (tr : Transition) × (db' : Db) × (transition entity_manager_store 0
        (invoice funded)
        settled
        the_system
        maturity_settled
        plain_context
        paying
      ≡ ok (tr, db'))
transition_complete_example =
    transition_complete 0 (invoice funded) settled the_system maturity_settled plain_context paying
      (inr refl) (λ e. absurd (cc e))

transition-Moves_example :
    Moves 0
      (invoice funded)
      settled
      the_system
      maturity_settled
      plain_context
      paying
      transition_complete_example.0
      transition_complete_example.1
transition-Moves_example =
    transition-Moves 0 (invoice funded) settled the_system maturity_settled plain_context paying
      transition_complete_example.2

-- Published by the seller, an attempt that is refused, funded, settled.
abbrev attempts : List Attempt
attempts =
    record {
      now = 10_000;
      to = published;
      actor = the_seller;
      trigger = seller_published;
      context = plain_context;
    }
    ∷ record {
      now = 10_000;
      to = rejected;
      actor = the_admin;
      trigger = admin_rejected;
      context = plain_context;
    }
    ∷ record {
      now = 20_000;
      to = funded;
      actor = the_system;
      trigger = fully_funded;
      context = with_amount;
    }
    ∷ record {
      now = 30_000;
      to = settled;
      actor = the_system;
      trigger = maturity_settled;
      context = plain_context;
    }
    ∷ []

run-Trail_example : Trail (invoice draft) database (run attempts (invoice draft) database)
run-Trail_example = run-Trail attempts (invoice draft) database

run_bounded_example : length (run attempts (invoice draft) database).1.history + 0 ≤ 4
run_bounded_example = run_bounded attempts (invoice draft) database

-- The last two of them, from published.
abbrev last_attempts : List Attempt
last_attempts = elim attempts [ _ ∷ _ ∷ rest ↦ rest | _ ↦ [] ]

reaches_settled : (run last_attempts (invoice published) database).0.status ≡ settled
unfolding run transition entity_manager_store save_invoice record_history assert_transition
    funding_guard
reaches_settled = refl

settled_through_funding_example :
    (rows : List StatusHistory) × ((run last_attempts (invoice published) database).1.history
      ≡ [] ++ rows)
    × (any is_funding rows ≡ true)
settled_through_funding_example =
    settled_through_funding last_attempts (invoice published) database (omega arith) reaches_settled

-- An effect that counts its calls and throws.
abbrev counting : Effect ℕ
counting t n = (n + 1, true)

abbrev some_transition : Transition
some_transition = record {
  invoice = invoice settled;
  from = funded;
  to = settled;
  actor = the_system;
  trigger = maturity_settled;
  reason = none;
  history = none;
}

dispatch_at_most_once_example :
    dispatch_all
      (counting ∷ [])
      ((7, some_transition) ∷ (7, some_transition) ∷ [])
      (record { dispatched = []; world = 0; warnings = 0 })
    ≡ dispatch_all
        (counting ∷ [])
        ((7, some_transition) ∷ [])
        (record { dispatched = []; world = 0; warnings = 0 })
dispatch_at_most_once_example =
    dispatch_at_most_once (counting ∷ []) ((7, some_transition) ∷ []) 7 some_transition
      (record { dispatched = []; world = 0; warnings = 0 }) refl
