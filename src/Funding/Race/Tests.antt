-- ===== src/Funding/Race/Tests.antt =====
-- Two investors at the same time, on the small database of Funding/Tests.antt.
use ss_backend.Common.{
  inl, false, ok, err, none, ℕ, String, ◌≡◌, refl, some, List, [], ◌∷◌, trim, trim_start, trim_end,
}
use ss_backend.Models.{draft, cancelled, admin, admin_cancelled, approved, Invoice, Db}
use ss_backend.Invoice.Machine.History.{transition_complete}
use ss_backend.Invoice.Publish.{validate_invoice_for_publish, validate_funding_deadline}
use ss_backend.Invoice.Rules.{
  TransitionActor, TransitionContext, assert_transition, publish_ready, fully_funded,
}
use ss_backend.Desk.Publishing.{publish_invoice, apply_transition}
use ss_backend.Invoice.Machine.{
  Transition, has_open_intent, transition, entity_manager_store, save_invoice, record_history,
}
use ss_backend.Funding.Terms.{latest, assert_acknowledged}
use ss_backend.Funding.Invest.{row_of, read_invoice, check_amount, advance_row, advance_funded}
use ss_backend.Funding.Commit.{
  entered, invest_step, enter, commit, after_update, insert_investment, filled, result_of,
  to_funded,
}
use ss_backend.Funding.Create.{total_invested}
use ss_backend.Funding.Pot.{Pot}
use ss_backend.Funding.Race.{Call, Race, Turn, arrive, step, load, move, Turns, here, then}
use ss_backend.Funding.Tests.{an_invoice, database, config, wish, answer}

abbrev idle : Race
idle = record { db = database; calls = []; loaded = [] }

-- Call after call, the first or the second of two takes a step.
abbrev first_steps : Race → Race
first_steps r = elim r.calls [
  | [] ↦ r
  | c ∷ cs ↦
      let (phase', db') = invest_step config c.input answer c.phase r.db in
      record r { db = db'; calls = record c { phase = phase' } ∷ cs }
]

abbrev second_steps : Race → Race
second_steps r = elim r.calls [
  | [] ↦ r
  | c ∷ cs ↦ elim cs [
    | [] ↦ r
    | d ∷ ds ↦
        let (phase', db') = invest_step config d.input answer d.phase r.db in
        record r { db = db'; calls = c ∷ record d { phase = phase' } ∷ ds }
  ]
]

abbrev joined : String → ℕ → Race → Race
joined investor amount r = record r {
  calls = record { input = wish investor amount; phase = entered } ∷ r.calls;
}

abbrev both_read : Race
both_read =
    second_steps
      (second_steps (first_steps (first_steps (joined "bob" 4_000 (joined "cyd" 3_000 idle)))))

-- Bob writes first; what Cyd has read is stale.
abbrev raced : Race
raced = second_steps (first_steps both_read)

arrives : (investor : String) (amount : ℕ) (r : Race) → Turn config r (joined investor amount r)
arrives investor amount r = arrive (wish investor amount) refl

first : (r : Race) (c : Call) (cs : List Call) → r.calls ≡ c ∷ cs → Turn config r (first_steps r)
first r c cs e = step [] cs c answer e (rw e refl) (rw e refl) (rw e refl)

second :
    (r : Race) (c d : Call) (ds : List Call) → r.calls ≡ c ∷ d ∷ ds → Turn config r (second_steps r)
second r c d ds e = step (c ∷ []) ds d answer e (rw e refl) (rw e refl) (rw e refl)

races : Turns config idle raced
races =
    let both = then (then here (arrives "cyd" 3_000 idle)) (arrives "bob" 4_000 _) in
    let read = then (then both (first _ _ _ refl)) (first _ _ _ refl) in
    let read_too = then (then read (second _ _ _ _ refl)) (second _ _ _ _ refl) in
    then (then read_too (first _ _ _ refl)) (second _ _ _ _ refl)

-- Then an administrator reads the row and cancels the invoice.
abbrev left_open : Invoice
left_open = record an_invoice { funded_amount = 7_000; version = 5 }

stands : row_of "inv-1" raced.db ≡ some left_open
unfolding invest_step enter assert_acknowledged latest check_amount read_invoice trim trim_start
    trim_end commit advance_funded advance_row after_update insert_investment filled to_funded
    result_of transition entity_manager_store save_invoice record_history assert_transition
stands = refl

no_payout : has_open_intent "inv-1" raced.db.intents ≡ false
unfolding invest_step enter assert_acknowledged latest check_amount read_invoice trim trim_start
    trim_end commit advance_funded advance_row after_update insert_investment filled to_funded
    result_of transition entity_manager_store save_invoice record_history assert_transition
no_payout = refl

abbrev the_admin : TransitionActor
the_admin = record { role = admin; id = some "root"; wallet = none }

abbrev no_context : TransitionContext
no_context = record { funded_amount = none; reason = none }

cancels :
    (t : Transition) × (db' : Db) × (transition entity_manager_store 2_000 left_open cancelled
        the_admin admin_cancelled no_context raced.db
      ≡ ok (t, db'))
cancels =
    transition_complete 2_000 left_open cancelled the_admin admin_cancelled no_context raced.db refl
      (λ _. no_payout)

abbrev read_raced : Race
read_raced = record raced { loaded = left_open ∷ raced.loaded }

abbrev closed : Race
closed = record read_raced { db = cancels.1 }

closes : Turns config idle closed
closes = then (then races (load "inv-1" left_open stands refl)) (
    move 2_000 left_open cancelled the_admin admin_cancelled no_context cancels.0 cancels.1
      (inl refl) cancels.2 refl)

-- Bob's contribution is in, and Cyd's, whose update met another version, is not.
raced_test : total_invested "inv-1" raced.db.investments ≡ 7_000
unfolding invest_step enter assert_acknowledged latest check_amount read_invoice trim trim_start
    trim_end commit advance_funded advance_row after_update insert_investment filled to_funded
    result_of transition entity_manager_store save_invoice record_history assert_transition
raced_test = refl

-- The issuer publishes twice at a time: both calls read the draft, the second saves what it has read
-- after Bob has invested, and so the row forgets his contribution and Cyd may fund the whole again.
abbrev drafted : Db
drafted = record database {
  invoices =
      record an_invoice {
        amount = 2_000_000;
        funded_amount = 0;
        due_date = some 200_000_000;
        funding_deadline = none;
        ipfs_hash = some "Qm";
        status = draft;
      }
      ∷ [];
  investments = [];
  users = record { id = "issuer"; kyc_status = approved; stellar_address = none } ∷ [];
}

abbrev publishes : Db → Db
publishes db = elim (publish_invoice 1_000 "inv-1" "issuer" drafted db) [ err e ↦ db | ok x ↦ x.1 ]

abbrev invests : String → ℕ → Db → Db
invests investor amount db =
    let go = invest_step config (wish investor amount) answer in
    let (p, db') = go entered db in let (q, db'') = go p db' in (go q db'').1

stale_publish_test :
    (total_invested "inv-1" (invests "bob" 6_000 (publishes drafted)).investments ≡ 6_000)
    × (total_invested "inv-1"
          (invests "cyd" 9_000 (publishes (invests "bob" 6_000 (publishes drafted)))).investments
        ≡ 15_000)
unfolding invest_step enter assert_acknowledged latest check_amount read_invoice trim trim_start
    trim_end commit advance_funded advance_row after_update insert_investment filled to_funded
    result_of transition entity_manager_store save_invoice record_history assert_transition
    publish_invoice apply_transition publish_ready validate_invoice_for_publish
    validate_funding_deadline fully_funded
stale_publish_test = (refl, refl)
