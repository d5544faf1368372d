-- ===== src/Settlement/Finish/Books.antt =====
-- What the last transaction of a settlement leaves in the books.
use mathlib.Core.List.{append_assoc, append-nil}
use ss_backend.Common.{
  ℕ, ℤ, pos, String, ◌≡◌, refl, sym, ap, ◌∙◌, inl, inr, Option, none, some, List, [], ◌∷◌, ◌++◌,
  map, arith, upsert, str_eq, truthy, Bool-cases, ok, Result,
}
use ss_backend.Common.Checks.{>>=-eq-ok}
use ss_backend.Invoice.Rules.{TransitionActor, TransitionContext}
use ss_backend.Invoice.Rules.Permission.{Permitted}
use ss_backend.Models.{
  InvoiceStatus, funded, settled, system, Invoice, Investment, SettlementIntent, InvestorReturn,
  StatusHistory, Db,
}
use ss_backend.Invoice.Machine.{moved}
use ss_backend.Invoice.Machine.History.{transition-Moves, history_entry}
use ss_backend.Settlement.Returns.{compute_investor_return, Share, total_returned}
use ss_backend.Settlement.Finish.{
  Service, SettleInput, SettleResult, book_share, book_shares, book_transaction, complete_intent,
  write_settlement, book_all, move_settled, remainder_of, remainder_row, transition_reason,
  share_row,
}

-- The return that is recorded for a share.
abbrev pub return_of : String → Share → InvestorReturn
return_of invoice_id s = record {
  invoice_id = invoice_id;
  investment_id = s.investment_id;
  investor_id = s.investor_id;
  return_amount = s.return_amount;
}

record Booked (id : String) (db db' : Db) (ss : List Share) : Type 0 where
  returns : db'.returns ≡ db.returns ++ map (return_of id) ss
  invoices : db'.invoices ≡ db.invoices
  history : db'.history ≡ db.history
  remainders : db'.remainders ≡ db.remainders

book_shares-Booked :
    (id : String) (total : ℕ) (d : ℤ) (vs : List Investment) (db db' : Db) (ss : List Share)
    → book_shares id total d vs db ≡ ok (ss, db')
    → Booked id db db' ss
unfolding book_shares
book_shares-Booked id total d [] db db' ss e =
    let none_booked : [] ≡ ss = cc in
    let same : db ≡ db' = cc in
    rw (← none_booked, ← same)
      (record {
        returns = sym (append-nil db.returns);
        invoices = refl;
        history = refl;
        remainders = refl;
      })
book_shares-Booked id total d (v ∷ vs) db db' ss e =
    let (r, computed, rest) =
      >>=-eq-ok (compute_investor_return (pos v.investment_amount) (pos total) d) _ e in
    let (booked, inner, last) =
      >>=-eq-ok (book_shares id total d vs (book_share id v r db)) _ rest in
    let below = book_shares-Booked id total d vs (book_share id v r db) booked.1 booked.0 inner in
    let same : booked.1 ≡ db' = cc last in
    let all : share_row v r ∷ booked.0 ≡ ss = cc last in
    rw (← all, ← same)
      (record {
        returns = below.returns ∙ append_assoc db.returns _ (map (return_of id) booked.0);
        invoices = below.invoices;
        history = below.history;
        remainders = below.remainders;
      })

book_transaction-Booked :
    (v : Invoice) (p : ℕ) (hash : Option String) (db : Db)
    → Booked v.id db (book_transaction v p hash db) []
book_transaction-Booked v p none db = record {
  returns = sym (append-nil db.returns);
  invoices = refl;
  history = refl;
  remainders = refl;
}
book_transaction-Booked v p (some h) db = elim (Bool-cases (truthy (some h))) [
  | inl t ↦ rw t (record {
    returns = sym (append-nil db.returns);
    invoices = refl;
    history = refl;
    remainders = refl;
  })
  | inr t ↦ rw t (record {
    returns = sym (append-nil db.returns);
    invoices = refl;
    history = refl;
    remainders = refl;
  })
]

complete-Booked :
    (id : String) (o : Option SettlementIntent) (hash : Option String) (db db' : Db)
    → complete_intent o hash db ≡ ok db'
    → Booked id db db' []
unfolding complete_intent
complete-Booked id o hash db db' e = record {
  returns =
      let same : db'.returns ≡ db.returns = ground arith in same ∙ sym (append-nil db.returns);
  invoices = ground arith;
  history = ground arith;
  remainders = ground arith;
}

abbrev settled_invoice : Invoice → ℤ → Invoice
settled_invoice v rest = moved (record v { settlement_remainder = some rest }) settled none

-- The rows that a settlement writes, and what its result says.
pub record Settles (service : Service) (input : SettleInput) (p : ℕ) (v : Invoice) (db : Db)
    (r : SettleResult) (db' : Db) : Type 0 where
  pub funded_before : v.status ≡ funded
  pub invoices :
      db'.invoices ≡ upsert (λ x. str_eq x.id v.id) (settled_invoice v r.remainder) db.invoices
  pub returns : db'.returns ≡ db.returns ++ map (return_of v.id) r.settlements
  pub history :
      (h : StatusHistory) × (db'.history ≡ db.history ++ (h ∷ []))
      × (h.invoice_id ≡ v.id)
      × (h.from_status ≡ v.status)
      × (h.to_status ≡ settled)
      × (h.actor_role ≡ system)
  pub remainders :
      db'.remainders ≡ db.remainders ++ (remainder_row v p r.settlements r.remainder ∷ [])
  pub total : r.total_distributed ≡ total_returned r.settlements
  pub rest : r.remainder ≡ remainder_of service p r.settlements

from_funded :
    (i : Invoice) (a : TransitionActor) (c : TransitionContext) (now : ℕ) (s : InvoiceStatus)
    → Permitted now i a c s settled
    → s ≡ funded
from_funded i a c now funded h = refl
from_funded i a c now _ h = absurd h

saved_over :
    {t i : Invoice} {d d' : List Invoice}
    → t ≡ i
    → d ≡ d'
    → upsert (λ x. str_eq x.id t.id) t d ≡ upsert (λ x. str_eq x.id i.id) i d'
saved_over q h = rw (q, h) refl

ok_parts :
    {a b : SettleResult} {d d' : Db}
    → ◌≡◌ {A = Result (SettleResult × Db)} (ok (a, d)) (ok (b, d'))
    → (b ≡ a) × (d ≡ d')
ok_parts e = (cc e, cc e)

-- A settlement that returned started from a funded invoice, and has written a return for each share of
-- its result, one remainder row, one row of history to settled by the system, and the invoice at
-- settled with its remainder.
pub write-Settles :
    (service : Service) (input : SettleInput) (p now : ℕ) (o : Option SettlementIntent)
    (hash : Option String) (v : Invoice) (vs : List Investment) (db db' : Db) (r : SettleResult)
    → write_settlement service input p now o hash v vs db ≡ ok (r, db')
    → Settles service input p v db r db'
unfolding write_settlement
write-Settles service input p now o hash v vs db db' r e =
    let (booked, b, e1) = >>=-eq-ok (book_all service p hash v vs db) _ e in
    let (tr, m, e2) = >>=-eq-ok (move_settled service input p now v booked.0 booked.1) _ e1 in
    let (last, c, e3) = >>=-eq-ok (complete_intent o hash tr.1) _ e2 in
    let paid = book_transaction-Booked v p hash db in
    let shares =
      book_shares-Booked v.id _ _ vs (book_transaction v p hash db) booked.1 booked.0 b in
    let moves = transition-Moves _ _ _ _ _ _ _ m in
    let done = complete-Booked v.id o hash tr.1 last c in
    let (same, end) = ok_parts e3 in
    let shares_of : r.settlements ≡ booked.0 = ap (λ x. x.settlements) same in
    let rest_of : r.remainder ≡ remainder_of service p booked.0 = ap (λ x. x.remainder) same in
    let w = moves.written in
    let before : Invoice = record v {
      settlement_remainder = some (remainder_of service p booked.0);
    } in
    let actor : TransitionActor = record {
      role = system;
      id = none;
      wallet = some input.actor_wallet;
    } in
    let context : TransitionContext = record { funded_amount = none; reason = none } in
    let entry = history_entry before settled actor (transition_reason input.trigger) context in
    record {
      funded_before = from_funded before actor context now v.status moves.permitted;
      invoices =
          ap (λ d. d.invoices) (sym end)
          ∙ done.invoices
          ∙ ap (λ d. d.invoices) w
          ∙ saved_over (moves.saved ∙ ap (settled_invoice v) (sym rest_of))
              (shares.invoices ∙ paid.invoices);
      returns = rw shares_of (
          ap (λ d. d.returns) (sym end)
          ∙ done.returns
          ∙ append-nil tr.1.returns
          ∙ ap (λ d. d.returns) w
          ∙ shares.returns
          ∙ ap (λ x. x ++ map (return_of v.id) booked.0) (paid.returns ∙ append-nil db.returns));
      history = (
        entry,
        ap (λ d. d.history) (sym end)
            ∙ done.history
            ∙ ap (λ d. d.history) w
            ∙ ap (λ x. x ++ (entry ∷ [])) (shares.history ∙ paid.history),
        refl,
        refl,
        refl,
        refl,
      );
      remainders =
          rw (shares_of, rest_of)
            (ap (λ d. d.remainders) (sym end)
              ∙ done.remainders
              ∙ ap (λ d. d.remainders) w
              ∙ ap (λ x. x ++ (remainder_row v p booked.0 (remainder_of service p booked.0) ∷ []))
                  (shares.remainders ∙ paid.remainders));
      total = rw shares_of (ap (λ x. x.total_distributed) same);
      rest = rw shares_of rest_of;
    }
