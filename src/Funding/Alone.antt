-- ===== src/Funding/Alone.antt =====
-- A call of `investInInvoice` that nothing disturbs.
use ss_backend.Common.{
  ℕ, ◌+◌, ◌<◌, ◌≤◌, ◌≡◌, refl, true, none, some, List, [], ◌∷◌, arith, String, ok, or_default,
  Bool-cases, inl, inr, leb, ◌>>=◌, pos,
}
use ss_backend.Models.{published, funded, system, TransitionReason, Invoice, Investment, Db}
use ss_backend.Invoice.Rules.{TransitionActor, TransitionContext}
use ss_backend.Invoice.Rules.Permission.{Permitted, assert_transition_iff}
use ss_backend.Invoice.Machine.History.{transition_returns}
use ss_backend.Invoice.Machine.{Transition, save_row}
use ss_backend.Funding.Terms.{assert_acknowledged}
use ss_backend.Funding.Invest.{
  InvestConfig, InvestInput, InvestResult, current_funding_window, advanced, advance_funded,
  advance_row, is_duplicate, check_amount,
}
use ss_backend.Funding.Commit.{
  Answer, Phase, entered, done, enter, commit, after_update, add_investment, new_investment,
  insert_investment, filled, result_of, to_funded, invest_step,
}
use ss_backend.Funding.Accepts.{Accepts}
use ss_backend.Funding.Committed.{commit-Accepts}
use ss_backend.Funding.Creation.{amount_complete}
use ss_backend.Funding.Checks.{MayInvest, read_invoice_iff, any_complete}

-- The transition of a published invoice that is full.
to_funded_complete :
    (now : ℕ) (wallet : String) (i : Invoice) (db : Db)
    → i.status ≡ published
    → i.net_amount ≤ i.funded_amount
    → (t : Transition) × (db' : Db) × (to_funded now wallet i db ≡ ok (t, db'))
unfolding to_funded
to_funded_complete now wallet i db o full =
    let actor : TransitionActor = record { role = system; id = none; wallet = some wallet } in
    let context : TransitionContext = record {
      funded_amount = some i.funded_amount;
      reason = none;
    } in
    let permitted : Permitted now i actor context i.status funded =
      rw o (refl, record { committed = i.funded_amount; given = refl; covers = full }) in
    (
      _,
      _,
      transition_returns now i funded actor TransitionReason.fully_funded context db
          ((assert_transition_iff now i funded actor context).1 permitted) refl,
    )

filled_complete :
    (now : ℕ) (config : InvestConfig) (wallet : String) (v : Investment) (i : Invoice) (db : Db)
    → i.status ≡ published
    → (r : InvestResult) × (db' : Db) × (filled now config wallet v i db ≡ ok (r, db'))
      × (r.investment ≡ v)
      × (r.funded_amount ≡ i.funded_amount)
unfolding filled result_of
filled_complete now config wallet v i db o = elim (Bool-cases (leb i.net_amount i.funded_amount)) [
  | inr room ↦ (result_of v i none, db, rw room refl, refl, refl)
  | inl full ↦
      let (t, db', e) = to_funded_complete now wallet i db o (ground arith) in
      (result_of v i (some t), db', filled_full full t db' e, refl, refl)
]
  where
    filled_full :
        leb i.net_amount i.funded_amount ≡ true
        → (t : Transition) (db' : Db) → to_funded now wallet i db ≡ ok (t, db')
        → filled now config wallet v i db ≡ ok (result_of v i (some t), db')
    filled_full full t db' e = rw full (rw (e, ◌>>=◌) refl)

-- The steps of a call that nothing disturbs.
unfoldable pub invest_steps : InvestConfig → InvestInput → List Answer → Phase → Db → Phase × Db
invest_steps config input [] phase db = (phase, db)
invest_steps config input (a ∷ as') phase db =
    let (phase', db') = invest_step config input a phase db in
    invest_steps config input as' phase' db'

module _ (config : InvestConfig) (a : Answer) (input : InvestInput) (amount block : ℕ) (i : Invoice)
    (db : Db) (now : ℕ) (may : MayInvest now input amount block db i) (positive : 0 < amount) where
  update_complete :
      advance_funded input.invoice_id i.version amount db ≡ some (save_row (advanced amount i) db)
  unfolding advance_funded advance_row
  update_complete = rw may.found (ground (arith, may.open_to.is_open, may.fits))

  commit_complete :
      (r : InvestResult) × (db' : Db) × (commit config a input amount block i db
        ≡ some (ok (r, db')))
      × (r.investment ≡ new_investment config a.investment_id input amount block i)
      × (r.funded_amount ≡ i.funded_amount + amount)
  unfolding commit after_update insert_investment
  commit_complete =
      let (r, db', e, v, f) =
        filled_complete a.now config input.wallet_address
          (new_investment config a.investment_id input amount block i) (advanced amount i)
          (add_investment (new_investment config a.investment_id input amount block i)
            (save_row (advanced amount i) db))
          may.open_to.is_open in
      (
        r,
        db',
        rw update_complete (
            rw
              (
                any_complete (is_duplicate input.invoice_id input.wallet_address block)
                    db.investments may.first,
                ◌>>=◌,
                e,
              )
              refl),
        v,
        f,
      )

-- A call of `investInInvoice` that nothing disturbs and that may invest is done after three steps, at its
-- first attempt: it returns the investment, of this wallet and this amount, and the invoice has taken
-- it in and is funded exactly when that fills it.
pub invest_alone :
    (config : InvestConfig) (a1 a2 a3 : Answer) (input : InvestInput) (amount : ℕ) (i : Invoice)
    (db : Db)
    → assert_acknowledged config.current_version input.wallet_address db ≡ ok tt
    → input.amount ≡ some (pos amount)
    → 0 < amount
    → MayInvest a2.now input amount
        (or_default input.ledger_sequence (current_funding_window a1.now))
        db
        i
    → (r : InvestResult) × (db' : Db) × (invest_steps config input (a1 ∷ a2 ∷ a3 ∷ []) entered db
        ≡ (done r, db'))
      × (r.investment
          ≡ new_investment config a3.investment_id input amount
              (or_default input.ledger_sequence (current_funding_window a1.now))
              i)
      × Accepts input.invoice_id amount i.funded_amount db db'
unfolding invest_steps invest_step enter
invest_alone config a1 a2 a3 input amount i db acknowledged given positive may =
    let block = or_default input.ledger_sequence (current_funding_window a1.now) in
    let (r, db', e, v, f) = commit_complete config a3 input amount block i db a2.now may positive in
    let accepts =
      (commit-Accepts config a3 input amount block i db db' r positive
        (λ row found _. cc (found, may.found)) e).0 in
    let read = read_invoice_iff a2.now input amount block db i in
    let checked : check_amount input.amount ≡ ok amount =
      rw given (amount_complete (pos amount) amount refl positive) in
    (r, db', rw (acknowledged, checked) (rw (read.1 may) (rw e refl)), v, accepts)
