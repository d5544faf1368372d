-- ===== src/Funding/Race.antt =====
-- Calls of `investInInvoice` that run at the same time as each other, as `createInvestment` and
-- as changes of status: any of them may take its next step at any moment. A change of status
-- moves a row that was read some time before, without a lock, and saves the whole of it.
use mathlib.Core.Option
use ss_backend.Common.{
  ℕ, ◌<◌, ◌≤◌, String, ◌≡◌, Bool, true, false, Option, some, List, ◌∷◌, ◌++◌, ok, [], ◌⊎◌,
}
use ss_backend.Models.{
  InvoiceStatus, draft, pending, published, status_eq, TransitionReason, Invoice, Investment, Db,
}
use ss_backend.Invoice.Rules.{TransitionActor, TransitionContext}
use ss_backend.Invoice.Machine.{Transition, entity_manager_store, transition}
use ss_backend.Funding.Invest.{InvestConfig, InvestInput, row_of}
use ss_backend.Funding.Commit.{Answer, Phase, entered, invest_step}
use ss_backend.Funding.Create.{CreateInvestmentInput, total_invested, create_investment}
use ss_backend.Funding.Pot.{Pot, PotStep}
pub mod Progress
pub mod Calls
pub mod Refines
pub mod Tests

pub record Call : Type 0 where
  pub input : InvestInput
  pub phase : Phase

pub record Race : Type 0 where
  pub db : Db
  pub calls : List Call
  -- The rows that other services have read.
  pub loaded : List Invoice

-- The row is in the list.
abbrev pub IsLoaded : Invoice → List Invoice → Type 0
IsLoaded i [] = ⊥
IsLoaded i (j ∷ js) = (j ≡ i) ⊎ IsLoaded i js

pub data Turn (config : InvestConfig) (r r' : Race) : Type 0 where
  arrive :
      (input : InvestInput)
      → r' ≡ record r { calls = record { input = input; phase = entered } ∷ r.calls }
      → Turn config r r'
  step :
      (before after : List Call) (c : Call) (a : Answer)
      → r.calls ≡ before ++ (c ∷ after)
      → r'.db ≡ (invest_step config c.input a c.phase r.db).1
      → r'.calls
        ≡ before ++ (record c { phase = (invest_step config c.input a c.phase r.db).0 } ∷ after)
      → r'.loaded ≡ r.loaded
      → Turn config r r'
  -- `createInvestment` returns; when it throws, it leaves no trace.
  create :
      (suitable : Option Bool) (a : Answer) (input : CreateInvestmentInput) (v : Investment)
      (db' : Db)
      → create_investment config suitable a input r.db ≡ ok (v, db')
      → r' ≡ record r { db = db' }
      → Turn config r r'
  -- Another service reads a row, to move it later.
  load :
      (k : String) (i : Invoice)
      → row_of k r.db ≡ some i
      → r' ≡ record r { loaded = i ∷ r.loaded }
      → Turn config r r'
  -- A change of status of a row that was read, which may be another by now.
  move :
      (now : ℕ) (i : Invoice) (to : InvoiceStatus) (actor : TransitionActor)
      (trigger : TransitionReason) (context : TransitionContext) (t : Transition) (db' : Db)
      → IsLoaded i r.loaded
      → transition entity_manager_store now i to actor trigger context r.db ≡ ok (t, db')
      → r' ≡ record r { db = db' }
      → Turn config r r'
  -- Other code writes other tables, or confirms investments.
  elsewhere :
      (db' : Db)
      → db'.invoices ≡ r.db.invoices
      → ((k : String) → total_invested k db'.investments ≡ total_invested k r.db.investments)
      → r' ≡ record r { db = db' }
      → Turn config r r'

pub data Turns (config : InvestConfig) (r : Race) : Race → Type 0 where
  here : Turns config r r
  then : {s t : Race} → Turns config r s → Turn config s t → Turns config r t

-- A change of status finds its row as it was read.
unfoldable pub IsFresh : {config : InvestConfig} {r r' : Race} → Turn config r r' → Type 0
IsFresh {r} (move now i to actor trigger context t db' h q e) = row_of i.id r.db ≡ some i
IsFresh _ = Unit

unfoldable pub AreFresh : {config : InvestConfig} {r r' : Race} → Turns config r r' → Type 0
unfolding IsFresh
AreFresh here = Unit
AreFresh (then ts t) = AreFresh ts × IsFresh t

-- The statuses before an invoice is funded.
abbrev pub is_early : InvoiceStatus → Bool
is_early draft = true
is_early pending = true
is_early published = true
is_early _ = false

-- The row of an invoice agrees with its investments, is not over its net amount, and has room until
-- it has been funded.
pub record IsBooked (i : String) (db : Db) : Type 0 where
  pub row : Invoice
  pub found : row_of i db ≡ some row
  pub booked : total_invested i db.investments ≡ row.funded_amount
  pub within : row.funded_amount ≤ row.net_amount
  pub room : is_early row.status ≡ true → row.funded_amount < row.net_amount

-- An invoice and its investments, as a pot.
abbrev pub pot_with : Invoice → ℕ → Pot
pot_with r total = record {
  capacity = r.net_amount;
  taken = total;
  is_open = status_eq r.status published;
}

abbrev pub pot_of : String → Db → Option Pot
pot_of i db = Option.map (λ r. pot_with r (total_invested i db.investments)) (row_of i db)

-- What kinds of turn can do to a pot: only steps of `investInInvoice` and `createInvestment`
-- contribute, and only these and changes of status open or shut.
unfoldable pub Does : {config : InvestConfig} {r r' : Race} → Turn config r r' → Pot → Pot → Type 0
Does (arrive input e) q p = p ≡ q
Does (load k i f e) q p = p ≡ q
Does (elsewhere db' invoices totals e) q p = p ≡ q
Does (move now i to actor trigger context t db' h f e) q p = p.taken ≡ q.taken
Does _ q p = Unit

-- The run, turn by turn, is a run of the pot: the invoice is a pot after every turn, and each
-- turn makes one step of the pot, of the kind that such a turn can make.
unfoldable pub Follows :
    {config : InvestConfig} {r r' : Race} → String → Turns config r r' → Pot → Pot → Type 0
unfolding Does
Follows i here p p' = p' ≡ p
Follows i (then {s} ts t) p p' =
    (q : Pot) × (pot_of i s.db ≡ some q) × Follows i ts p q × Does t q p' × PotStep q p'
