-- ===== src/Invoice/Machine/Trail.antt =====
-- The audit trail: what `invoice_status_history` holds after any run of transitions of an invoice,
-- each in a database transaction of its own.
use mathlib.Core.List.{append_assoc, append-nil}
use mathlib.Core.Path.{subst}
use ss_backend.Common.{
  ℕ, ◌+◌, ◌≤◌, ◌<◌, ◌≡◌, refl, sym, ap, ◌∙◌, ◌⊎◌, ◌≢◌, inl, inr, Bool, true, List, [], ◌∷◌, ◌++◌,
  ◌&&◌, arith, length, length-append, All, any, Result, ok, err, Result-cases,
}
use ss_backend.Models.{
  InvoiceStatus, draft, pending, published, funded, settled, cancelled, rejected, failed, status_eq,
  ActorRole, seller, admin, system, TransitionReason, Invoice, StatusHistory, Db,
}
use ss_backend.Invoice.Rules.{TransitionActor, TransitionContext, role_eq}
use ss_backend.Invoice.Rules.Permission.{Permitted}
use ss_backend.Invoice.Machine.{Transition, entity_manager_store, transition}
use ss_backend.Invoice.Machine.History.{Moves, history_entry, transition-Moves}

-- A call of the machine: the clock, the wanted status and who asks.
pub record Attempt : Type 0 where
  pub now : ℕ
  pub to : InvoiceStatus
  pub actor : TransitionActor
  pub trigger : TransitionReason
  pub context : TransitionContext

abbrev tried : Attempt → Invoice → Db → Result (Transition × Db)
tried r i db = transition entity_manager_store r.now i r.to r.actor r.trigger r.context db

abbrev kept : Invoice → Db → Result (Transition × Db) → Invoice × Db
kept i db (ok (tr, db')) = (tr.invoice, db')
kept i db (err _) = (i, db)

-- A call that throws is rolled back, and the next one sees the invoice as it was.
unfoldable pub run : List Attempt → Invoice → Db → Invoice × Db
run [] i db = (i, db)
run (r ∷ rs) i db = let (i', db') = kept i db (tried r i db) in run rs i' db'

-- The roles that may cause each change, as a row of the trail shows it.
abbrev pub Lawful : InvoiceStatus → InvoiceStatus → ActorRole → Type 0
Lawful draft pending r = r ≡ seller
Lawful draft published r = r ≡ seller
Lawful draft rejected r = r ≡ admin
Lawful draft cancelled r = (r ≡ seller) ⊎ (r ≡ admin)
Lawful pending published r = r ≡ admin
Lawful pending rejected r = r ≡ admin
Lawful pending cancelled r = (r ≡ seller) ⊎ (r ≡ admin)
Lawful published funded r = r ≡ system
Lawful published cancelled r = r ≡ admin
Lawful published failed r = r ≡ system
Lawful funded settled r = (r ≡ admin) ⊎ (r ≡ system)
Lawful funded cancelled r = r ≡ admin
Lawful _ _ _ = ⊥

-- Rows that lead from one status to another, each lawful and each starting where the last ended.
abbrev pub Chain : InvoiceStatus → List StatusHistory → InvoiceStatus → Type 0
Chain s [] t = s ≡ t
Chain s (h ∷ hs) t =
    (h.from_status ≡ s) × Lawful s h.to_status h.actor_role × Chain h.to_status hs t

Permitted-Lawful :
    (now : ℕ) (i : Invoice) (a : TransitionActor) (c : TransitionContext) (s t : InvoiceStatus)
    → Permitted now i a c s t
    → Lawful s t a.role
Permitted-Lawful now i a c draft pending p = p.0.as_seller
Permitted-Lawful now i a c draft published p = p.0.as_seller
Permitted-Lawful now i a c draft rejected p = p.0
Permitted-Lawful now i a c draft cancelled (inl o) = inl o.as_seller
Permitted-Lawful now i a c draft cancelled (inr r) = inr r
Permitted-Lawful now i a c pending published p = p.0
Permitted-Lawful now i a c pending rejected p = p.0
Permitted-Lawful now i a c pending cancelled (inl o) = inl o.as_seller
Permitted-Lawful now i a c pending cancelled (inr r) = inr r
Permitted-Lawful now i a c published funded p = p.0
Permitted-Lawful now i a c published cancelled p = p
Permitted-Lawful now i a c published failed p = p
Permitted-Lawful now i a c funded settled p = p
Permitted-Lawful now i a c funded cancelled p = p
Permitted-Lawful now i a c settled _ p = absurd p
Permitted-Lawful now i a c _ _ p = absurd p

-- What a run has added to the trail.
pub record Trail (i : Invoice) (db : Db) (after : Invoice × Db) : Type 0 where
  pub rows : List StatusHistory
  pub appended : after.1.history ≡ db.history ++ rows
  pub linked : Chain i.status rows after.0.status
  pub same_invoice : after.0.id ≡ i.id
  pub about : All (λ h. h.invoice_id ≡ i.id) rows

-- Whatever calls are made, in whatever order, the trail grows by rows about this invoice that link
-- its first status to its present one, each a change that the acting role may cause.
pub run-Trail : (rs : List Attempt) (i : Invoice) (db : Db) → Trail i db (run rs i db)
unfolding run
run-Trail [] i db = record {
  rows = [];
  appended = sym (append-nil _);
  linked = refl;
  same_invoice = refl;
  about = tt;
}
run-Trail (r ∷ rs) i db = elim (Result-cases (tried r i db)) [
  | inl (x, q) ↦ rw q (run-Trail rs i db)
  | inr ((tr, db'), q) ↦
      rw q
        (extend r i db tr db' _ (transition-Moves _ i _ _ _ _ db q) (run-Trail rs tr.invoice db'))
]
  where
    extend :
        (r : Attempt) (i : Invoice) (db : Db) (tr : Transition) (db' : Db) (after : Invoice × Db)
        → Moves r.now i r.to r.actor r.trigger r.context db tr db'
        → Trail tr.invoice db' after
        → Trail i db after
    extend r i db tr db' after m t = record {
      rows = history_entry i r.to r.actor r.trigger r.context ∷ t.rows;
      appended =
          t.appended ∙ ap (λ d. d.history ++ t.rows) m.written ∙ append_assoc db.history _ t.rows;
      linked = (
        refl,
        Permitted-Lawful r.now i r.actor r.context i.status r.to m.permitted,
        subst (λ s. Chain s t.rows after.0.status) (ap (λ x. x.status) m.saved) t.linked,
      );
      same_invoice = t.same_invoice ∙ ap (λ x. x.id) m.saved;
      about =
          (refl, subst (λ d. All (λ h. h.invoice_id ≡ d) t.rows) (ap (λ x. x.id) m.saved) t.about);
    }

-- How far a status is along the life of an invoice.
abbrev pub progress : InvoiceStatus → ℕ
progress draft = 0
progress pending = 1
progress published = 2
progress funded = 3
progress _ = 4

Lawful-progress : (s t : InvoiceStatus) (r : ActorRole) → Lawful s t r → progress s < progress t
Lawful-progress draft _ r h = ground arith
Lawful-progress pending _ r h = ground arith
Lawful-progress published _ r h = ground arith
Lawful-progress funded _ r h = ground arith
Lawful-progress _ _ r h = absurd h

progress_bounded : (s : InvoiceStatus) → progress s ≤ 4
progress_bounded draft = omega arith
progress_bounded _ = omega arith

Chain-progress :
    (s t : InvoiceStatus) (hs : List StatusHistory)
    → Chain s hs t
    → progress s + length hs ≤ progress t
Chain-progress s t [] e = rw e (omega arith)
Chain-progress s t (h ∷ hs) (_, l, c) =
    omega (arith, Lawful-progress s h.to_status h.actor_role l, Chain-progress h.to_status t hs c)

-- The life cycle ends: however many calls are made, an invoice adds at most four rows to the trail,
-- and fewer the further along it was.
pub run_bounded :
    (rs : List Attempt) (i : Invoice) (db : Db)
    → length (run rs i db).1.history + progress i.status ≤ length db.history + 4
run_bounded rs i db =
    let t = run-Trail rs i db in
    rw (t.appended, length-append)
      (omega (
        arith,
        Chain-progress i.status (run rs i db).0.status t.rows t.linked,
        progress_bounded (run rs i db).0.status,
      ))

abbrev pub is_funding : StatusHistory → Bool
is_funding h =
    status_eq h.from_status published && status_eq h.to_status funded && role_eq h.actor_role system

Lawful-next :
    (h : StatusHistory) (s t : InvoiceStatus)
    → h.from_status ≡ s
    → h.to_status ≡ t
    → Lawful s t h.actor_role
    → progress s < 3
    → (is_funding h ≡ true) ⊎ ((progress t < 3) ⊎ ((progress t ≡ 4) × (t ≢ settled)))
Lawful-next h published funded p q l d = inl (ground arith)
Lawful-next h draft _ p q l d = inr (ground arith)
Lawful-next h _ _ p q l d = inr (ground arith)

ended : (s t : InvoiceStatus) (hs : List StatusHistory) → progress s ≡ 4 → Chain s hs t → s ≡ t
ended s t [] p e = e
ended s t (h ∷ hs) p (_, l, c) =
    absurd
      (omega (arith, Lawful-progress s h.to_status h.actor_role l, progress_bounded h.to_status))

funding_in-Chain :
    (s : InvoiceStatus) (hs : List StatusHistory)
    → progress s < 3
    → Chain s hs settled
    → any is_funding hs ≡ true
funding_in-Chain s [] d e = absurd (subst (λ x. ¬ (progress x < 3)) (sym e) (omega arith) d)
funding_in-Chain s (h ∷ hs) d (q, l, c) = elim (Lawful-next h s h.to_status q refl l d) [
  | inl f ↦ rw f
  | inr (inl d') ↦ ground (arith, funding_in-Chain h.to_status hs d' c)
  | inr (inr (p, ne)) ↦ absurd (ne (ended h.to_status settled hs p c))
]

-- An invoice that has not been funded can only end up settled through funding: if a run takes it
-- from draft, pending or published to settled, then among the rows that the run adds to the trail
-- is one from published to funded, by the system role.
pub settled_through_funding :
    (rs : List Attempt) (i : Invoice) (db : Db)
    → progress i.status < 3
    → (run rs i db).0.status ≡ settled
    → (rows : List StatusHistory) × ((run rs i db).1.history ≡ db.history ++ rows)
      × (any is_funding rows ≡ true)
settled_through_funding rs i db d e =
    let t = run-Trail rs i db in
    (
      t.rows,
      t.appended,
      funding_in-Chain i.status t.rows d (subst (Chain i.status t.rows) e t.linked),
    )
