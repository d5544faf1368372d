-- ===== src/Settlement/Finish/Effects.antt =====
-- What the last transaction of a settlement does to the table of intents.
use mathlib.Core.Path.{subst}
use ss_backend.Common.{
  ℕ, ℤ, String, ◌≡◌, refl, sym, ap, ◌∙◌, ◌==◌, inl, inr, Option, none, some, List, [], ◌∷◌, arith,
  pos, find, ◌&&◌, Option-cases, Bool-cases, ok,
}
use ss_backend.Common.Checks.{>>=-eq-ok}
use ss_backend.Models.{Invoice, Investment, completed, SettlementIntent, Db}
use ss_backend.Invoice.Machine.History.{transition-Moves}
use ss_backend.Settlement.Returns.{compute_investor_return, Share}
use ss_backend.Settlement.Rows.{Grows, Grows-same, Grows-trans, Grows-save, gain, find_own}
use ss_backend.Settlement.Intents.{intent_by_id}
use ss_backend.Settlement.Finish.{
  Service, SettleInput, SettleResult, book_share, book_shares, book_transaction, complete_intent,
  write_settlement, book_all, move_settled, is_distributed, same_hash,
}

-- The two databases hold the same intents.
pub record SameIntents (db db' : Db) : Type 0 where
  pub rows : db'.intents ≡ db.intents
  pub next : db'.next_id ≡ db.next_id

pub book_shares-SameIntents :
    (id : String) (total : ℕ) (d : ℤ) (vs : List Investment) (db db' : Db) (ss : List Share)
    → book_shares id total d vs db ≡ ok (ss, db')
    → SameIntents db db'
unfolding book_shares
book_shares-SameIntents id total d [] db db' ss e = record {
  rows = ground arith;
  next = ground arith;
}
book_shares-SameIntents id total d (v ∷ vs) db db' ss e =
    let (r, computed, rest) =
      >>=-eq-ok (compute_investor_return (pos v.investment_amount) (pos total) d) _ e in
    let (booked, inner, last) =
      >>=-eq-ok (book_shares id total d vs (book_share id v r db)) _ rest in
    let below =
      book_shares-SameIntents id total d vs (book_share id v r db) booked.1 booked.0 inner in
    let same : booked.1 ≡ db' = cc last in
    record {
      rows = ap (λ x. x.intents) (sym same) ∙ below.rows;
      next = ap (λ x. x.next_id) (sym same) ∙ below.next;
    }

pub book_transaction-SameIntents :
    (v : Invoice) (p : ℕ) (hash : Option String) (db : Db)
    → SameIntents db (book_transaction v p hash db)
book_transaction-SameIntents v p none db = record { rows = refl; next = refl }
book_transaction-SameIntents v p (some h) db = record { rows = ground arith; next = ground arith }

complete-Grows :
    (o : Option SettlementIntent) (hash : Option String) (db db' : Db) (i : String)
    → complete_intent o hash db ≡ ok db'
    → Grows i 0 db db'
unfolding complete_intent
complete-Grows none hash db db' i e = Grows-same i db db' (ground arith) (ground arith)
complete-Grows (some n) hash db db' i e = elim (Option-cases (intent_by_id n.id db)) [
  | inl q ↦ absurd (ground arith)
  | inr (m, q) ↦ elim (Bool-cases (is_distributed m.status && same_hash m.transaction_hash hash)) [
    | inl t ↦
        let own : m.id ≡ n.id = find_own n.id db.intents m q in
        let row = subst (λ k. find (λ x. x.id == k) db.intents ≡ some m) (sym own) q in
        let done : SettlementIntent = record m { status = completed } in
        let none_new : gain i m done ≡ 0 = ground arith in
        subst (λ d. Grows i d db db') none_new
          (Grows-save i done m db db' row refl refl (ground arith) (ground arith))
    | inr t ↦ absurd (ground arith)
  ]
]

-- The transaction claims no payout: it leaves the intents alone but for completing the one paid.
pub write-Grows :
    (service : Service) (input : SettleInput) (p now : ℕ) (o : Option SettlementIntent)
    (hash : Option String) (v : Invoice) (vs : List Investment) (db db' : Db) (r : SettleResult)
    (i : String)
    → write_settlement service input p now o hash v vs db ≡ ok (r, db')
    → Grows i 0 db db'
unfolding write_settlement
write-Grows service input p now o hash v vs db db' r i e =
    let (booked, b, e1) = >>=-eq-ok (book_all service p hash v vs db) _ e in
    let (moved, m, e2) = >>=-eq-ok (move_settled service input p now v booked.0 booked.1) _ e1 in
    let (last, c, e3) = >>=-eq-ok (complete_intent o hash moved.1) _ e2 in
    let shares =
      book_shares-SameIntents v.id _ _ vs (book_transaction v p hash db) booked.1 booked.0 b in
    let paid = book_transaction-SameIntents v p hash db in
    let written = (transition-Moves _ _ _ _ _ _ _ m).written in
    let end : last ≡ db' = cc e3 in
    Grows-trans i 0 0 db moved.1 db'
      (Grows-same i db moved.1 (ap (λ d. d.intents) written ∙ shares.rows ∙ paid.rows)
        (ap (λ d. d.next_id) written ∙ shares.next ∙ paid.next))
      (subst (Grows i 0 moved.1) end (complete-Grows o hash moved.1 last i c))
