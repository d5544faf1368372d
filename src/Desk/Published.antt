-- ===== src/Desk/Published.antt =====
-- src/services/invoice.service.ts, `publishInvoicesBatch`: the rows that a batch leaves.
use ss_backend.Common.{
  ℕ, String, ◌≡◌, refl, sym, ap, ◌∙◌, inl, inr, Bool, true, false, not, none, some, List, [], ◌∷◌,
  str_eq, eq_iff, any, filter, All, arith, ok, Bool-cases,
}
use ss_backend.Common.Checks.{◌>>=◌, throw_if, >>=-eq-ok}
use ss_backend.Models.{InvoiceStatus, draft, published, seller_batch_published, Invoice, Db}
use ss_backend.Invoice.Publish.{IsPublishable}
use ss_backend.Invoice.Rules.{TransitionActor}
use ss_backend.Invoice.Rules.Permission.{IsOwner, Permitted, assert_transition_iff}
use ss_backend.Invoice.Machine.{Transition, entity_manager_store, transition, moved}
use ss_backend.Invoice.Machine.History.{transition_returns}
use ss_backend.Funding.Invest.{row_of}
use ss_backend.Funding.Rows.{row_of-id, row_of-save, row_of-save_other}
use ss_backend.Desk.Publishing.{plain_context, as_seller, apply_transition}
use ss_backend.Desk.Batch.{
  unique, judge_all, has_refusal, is_empty, publish_all, publish_invoices_batch,
}
use ss_backend.Desk.Ready.{IsReady, judge_all-IsReady, verdicts, judge_all_complete, verdicts_fine}

abbrev pub IsPublished : String → Db → Type 0
IsPublished k db = (r : Invoice) × (row_of k db ≡ some r) × (r.status ≡ published)

abbrev pub is_named : String → List String → Bool
is_named k ks = any (λ j. str_eq j k) ks

named-filter :
    (k x : String) (js : List String)
    → str_eq x k ≡ false
    → is_named k (filter (λ j. not (str_eq j x)) js) ≡ is_named k js
named-filter k x [] e = refl
named-filter k x (j ∷ js) e = ground (arith, named-filter k x js e, eq_iff j x)

-- Dropping duplicates drops no name.
pub named-unique : (k : String) (js : List String) → is_named k (unique js) ≡ is_named k js
unfolding unique
named-unique k [] = refl
named-unique k (j ∷ js) = elim (Bool-cases (str_eq j k)) [
  | inl y ↦ rw y refl
  | inr n ↦ rw (n, named-filter k j (unique js) n, named-unique k js) refl
]

-- The rows after a batch of names.
pub record Published (ks : List String) (db db' : Db) : Type 0 where
  pub named : (k : String) → is_named k ks ≡ true → IsPublished k db'
  pub others : (k : String) → is_named k ks ≡ false → row_of k db' ≡ row_of k db

module _ (now : ℕ) (seller_id : String) where
  Permitted-draft :
      (i : Invoice) (a : TransitionActor) (s : InvoiceStatus)
      → s ≡ draft
      → IsOwner i a
      → IsPublishable now i
      → Permitted now i a plain_context s published
  Permitted-draft i a s e o p = rw e (o, p)

  kept_by :
      (k : String) (db mid : Db)
      → IsPublished k mid
      → ((j : String) → str_eq k j ≡ false → row_of j mid ≡ row_of j db)
      → (j : String) → IsPublished j db
      → IsPublished j mid
  kept_by k db mid here away j (r, f, p) = elim (Bool-cases (str_eq k j)) [
    | inl y ↦ rw (← (eq_iff k j).0 y) here
    | inr n ↦ (r, away j n ∙ f, p)
  ]

  apply_ok :
      (i : Invoice) (a : TransitionActor) (db : Db) (t : Transition) (db' : Db)
      → transition entity_manager_store now i published a seller_batch_published plain_context db
        ≡ ok (t, db')
      → apply_transition now i published a seller_batch_published plain_context db
        ≡ ok (t.invoice, db')
  unfolding apply_transition
  apply_ok i a db t db' e = rw (e, ◌>>=◌) refl

  -- One transition of the batch.
  apply_does :
      (db0 : Db) (k : String) (r : IsReady now seller_id db0 k) (db : Db)
      → (i : Invoice) × (db' : Db) × (apply_transition now r.invoice published
            (as_seller seller_id r.user.stellar_address)
            seller_batch_published
            plain_context
            db
          ≡ ok (i, db'))
        × IsPublished k db'
        × ((j : String) → str_eq k j ≡ false → row_of j db' ≡ row_of j db)
  apply_does db0 k r db =
      let actor = as_seller seller_id r.user.stellar_address in
      let permitted : Permitted now r.invoice actor plain_context r.invoice.status published =
        Permitted-draft r.invoice actor r.invoice.status r.is_draft
          (record { as_seller = refl; owns = ap some (sym r.owned) }) r.fit in
      let e =
        transition_returns now r.invoice published actor seller_batch_published plain_context db
          ((assert_transition_iff now r.invoice published actor plain_context).1 permitted) refl in
      let same = row_of-id k db0 r.invoice r.found in
      (
        _,
        _,
        apply_ok r.invoice actor db _ _ e,
        (
          moved r.invoice published none,
          row_of-save (moved r.invoice published none) k db same,
          refl,
        ),
        λ j ne. row_of-save_other (moved r.invoice published none) j db (rw same ne),
      )

  named_in :
      (k : String) (ks : List String) (mid db' : Db)
      → IsPublished k mid
      → ((j : String) → IsPublished j mid → IsPublished j db')
      → Published ks mid db'
      → (j : String) → is_named j (k ∷ ks) ≡ true
      → IsPublished j db'
  named_in k ks mid db' here stays rest j n = elim (Bool-cases (str_eq k j)) [
    | inl y ↦ stays j (rw (← (eq_iff k j).0 y) here)
    | inr m ↦ rest.named j (ground arith)
  ]

  publish_all_does :
      (db0 : Db) (ks : List String) (a : All (IsReady now seller_id db0) ks) (db : Db)
      → (is : List Invoice) × (db' : Db) × (publish_all now seller_id
            (verdicts now seller_id db0 ks a)
            db
          ≡ ok (is, db'))
        × ((k : String) → IsPublished k db → IsPublished k db')
        × Published ks db db'
  unfolding publish_all
  publish_all_does db0 [] a db =
      ([], db, refl, λ k p. p, record { named = λ k e. cc; others = λ k e. refl })
  publish_all_does db0 (k ∷ ks) (r, a) db =
      let (i, mid, e, here, away) = apply_does db0 k r db in
      let (is, db', e', stays, rest) = publish_all_does db0 ks a mid in
      (
        i ∷ is,
        db',
        rw (e, ◌>>=◌) (rw (e', ◌>>=◌) refl),
        λ j p. stays j (kept_by k db mid here away j p),
        record {
          named = λ j n. named_in k ks mid db' here stays rest j n;
          others = λ j n. rest.others j (ground arith) ∙ away j (ground arith);
        },
      )

  batch_does :
      (ids : List String) (db : Db)
      → is_empty ids ≡ false
      → All (IsReady now seller_id db) (unique ids)
      → (is : List Invoice) × (db' : Db) × (publish_invoices_batch now ids seller_id db db
          ≡ ok (is, db'))
        × Published ids db db'
  unfolding publish_invoices_batch
  batch_does ids db filled a =
      let (is, db', e, _, p) = publish_all_does db (unique ids) a db in
      (
        is,
        db',
        rw filled (
            rw (judge_all_complete now seller_id db (unique ids) a, ◌>>=◌)
              (rw (verdicts_fine now seller_id db (unique ids) a) e)),
        record {
          named = λ k n. p.named k (named-unique k ids ∙ n);
          others = λ k n. p.others k (named-unique k ids ∙ n);
        },
      )

  batch-Ready :
      (ids : List String) (db db' : Db) (is : List Invoice)
      → publish_invoices_batch now ids seller_id db db ≡ ok (is, db')
      → (is_empty ids ≡ false) × All (IsReady now seller_id db) (unique ids)
  unfolding publish_invoices_batch
  batch-Ready ids db db' is e =
      let (_, filled, e1) = >>=-eq-ok (throw_if (is_empty ids) _) _ e in
      let (vs, judged, e2) = >>=-eq-ok (judge_all now seller_id db (unique ids)) _ e1 in
      let (_, fine, e3) = >>=-eq-ok (throw_if (has_refusal vs) _) _ e2 in
      (ground arith, judge_all-IsReady now seller_id db (unique ids) vs judged (ground arith))

-- When nothing is written between its read and its transaction, a batch is published whole or
-- not at all: it returns exactly when it names an invoice and every invoice that it names is a
-- draft of this seller, whose KYC is approved, and passes the checks before publication; and
-- when it returns, every invoice that it names is published, and no other row has changed.
pub publish_invoices_batch_lem :
    (now : ℕ) (seller_id : String) (ids : List String) (db : Db)
    → ((is_empty ids ≡ false) × All (IsReady now seller_id db) (unique ids)
        → (is : List Invoice) × (db' : Db) × (publish_invoices_batch now ids seller_id db db
            ≡ ok (is, db')))
      × ((is : List Invoice) (db' : Db)
          → publish_invoices_batch now ids seller_id db db ≡ ok (is, db')
          → (is_empty ids ≡ false)
            × All (IsReady now seller_id db) (unique ids)
            × Published ids db db')
publish_invoices_batch_lem now seller_id ids db = (
  λ (filled, a). let (is, db', e, _) = batch_does now seller_id ids db filled a in (is, db', e),
  λ is db' e.
      let (filled, a) = batch-Ready now seller_id ids db db' is e in
      let (is', db'', e', p) = batch_does now seller_id ids db filled a in
      (filled, a, ended ids db db' db'' is is' e e' p),
)
  where
    ended :
        (ids : List String) (db db' db'' : Db) (is is' : List Invoice)
        → publish_invoices_batch now ids seller_id db db ≡ ok (is, db')
        → publish_invoices_batch now ids seller_id db db ≡ ok (is', db'')
        → Published ids db db''
        → Published ids db db'
    ended ids db db' db'' is is' e e' p = let same : db'' ≡ db' = cc in rw (← same) p
