-- ===== src/Desk/Ready.antt =====
-- Which batches are judged publishable.
use ss_backend.Common.{
  ℕ, String, ◌≡◌, refl, sym, ap, ◌∙◌, inl, inr, true, false, not, Option, none, some, List, [], ◌∷◌,
  if◌then◌else◌, str_eq, eq_iff, All, arith, Result, ok, Bool-cases,
}
use ss_backend.Common.Checks.{◌>>=◌, >>=-eq-ok}
use ss_backend.Models.{draft, status_eq, approved, Invoice, User, Db}
use ss_backend.Invoice.Publish.{
  IsPublishable, ValidationError, validate_invoice_for_publish, validate_invoice_iff,
}
use ss_backend.Funding.Invest.{row_of}
use ss_backend.Desk.Publishing.{is_approved, seller_of, approved_seller}
use ss_backend.Desk.Batch.{
  Verdict, publishable, refused, not_a_draft, verdict_on, judge, judge_all, has_refusal,
}

-- An invoice that its seller may publish now.
pub record IsReady (now : ℕ) (seller_id : String) (db : Db) (k : String) : Type 0 where
  pub invoice : Invoice
  pub found : row_of k db ≡ some invoice
  pub owned : invoice.seller_id ≡ seller_id
  pub user : User
  pub sold_by : seller_of invoice db ≡ some user
  pub known : user.kyc_status ≡ approved
  pub is_draft : invoice.status ≡ draft
  pub fit : IsPublishable now invoice

approved_inv :
    (o : Option User) (u : User)
    → approved_seller o ≡ ok u
    → (o ≡ some u) × (u.kyc_status ≡ approved)
approved_inv none u e = cc
approved_inv (some v) u e = elim (Bool-cases (is_approved v.kyc_status)) [
  | inr n ↦ absurd (ground arith)
  | inl y ↦ let same : v ≡ u = ground arith in (ap some same, rw (← same) (ground arith))
]

approved_complete :
    (o : Option User) (u : User) → o ≡ some u → u.kyc_status ≡ approved → approved_seller o ≡ ok u
approved_complete o u e k = rw (e, k) refl

module _ (now : ℕ) (seller_id : String) where
  verdict_inv :
      (k : String) (i : Invoice) (wallet : Option String) (es : List ValidationError)
      → has_refusal (verdict_on k i wallet es ∷ []) ≡ false
      → (es ≡ []) × (verdict_on k i wallet es ≡ publishable i wallet)
  verdict_inv k i wallet [] e = (refl, refl)
  verdict_inv k i wallet (x ∷ es) e = cc

  approved_verdict :
      (db : Db) (k : String) (i : Invoice) (v : Verdict)
      → row_of k db ≡ some i
      → str_eq i.seller_id seller_id ≡ true
      → (u : User) → approved_seller (seller_of i db) ≡ ok u
      → ◌≡◌ {A = Result Verdict}
          (if not (status_eq i.status draft)
            then ok (refused (not_a_draft k))
            else ok (verdict_on k i u.stellar_address (validate_invoice_for_publish i now)))
          (ok v)
      → has_refusal (v ∷ []) ≡ false
      → (r : IsReady now seller_id db k) × (v ≡ publishable r.invoice r.user.stellar_address)
  approved_verdict db k i v f own u a e n = elim (Bool-cases (status_eq i.status draft)) [
    | inr other ↦ absurd (ground arith)
    | inl is_draft ↦
        let same : verdict_on k i u.stellar_address (validate_invoice_for_publish i now) ≡ v =
          ground arith in
        let (sound, verdict) =
          verdict_inv k i u.stellar_address (validate_invoice_for_publish i now) (rw same n) in
        let (sold, known) = approved_inv (seller_of i db) u a in
        (
          record {
            invoice = i;
            found = f;
            owned = (eq_iff i.seller_id seller_id).0 own;
            user = u;
            sold_by = sold;
            known = known;
            is_draft = ground arith;
            fit = (validate_invoice_iff i now).0 sound;
          },
          sym same ∙ verdict,
        )
  ]

  judge-IsReady :
      (db : Db) (k : String) (o : Option Invoice) (v : Verdict)
      → row_of k db ≡ o
      → judge now seller_id db k o ≡ ok v
      → has_refusal (v ∷ []) ≡ false
      → (r : IsReady now seller_id db k) × (v ≡ publishable r.invoice r.user.stellar_address)
  unfolding judge
  judge-IsReady db k none v f e n = absurd (ground arith)
  judge-IsReady db k (some i) v f e n = elim (Bool-cases (str_eq i.seller_id seller_id)) [
    | inr other ↦ absurd (ground arith)
    | inl own ↦
        let (u, a, e1) = >>=-eq-ok (approved_seller (seller_of i db)) _ (rw own at e) in
        approved_verdict db k i v f own u a e1 n
  ]

  judge_complete :
      (db : Db) (k : String) (r : IsReady now seller_id db k)
      → judge now seller_id db k (row_of k db) ≡ ok (publishable r.invoice r.user.stellar_address)
  unfolding judge
  judge_complete db k r =
      let own = (eq_iff r.invoice.seller_id seller_id).1 r.owned in
      let a = approved_complete (seller_of r.invoice db) r.user r.sold_by r.known in
      let is_draft : status_eq r.invoice.status draft ≡ true = rw (r.is_draft) refl in
      rw (r.found) (
        rw (own) (rw (a, ◌>>=◌) (rw (is_draft, (validate_invoice_iff r.invoice now).1 r.fit) refl)))

  -- The batch, all of whose invoices are publishable.
  pub judge_all-IsReady :
      (db : Db) (ks : List String) (vs : List Verdict)
      → judge_all now seller_id db ks ≡ ok vs
      → has_refusal vs ≡ false
      → All (IsReady now seller_id db) ks
  unfolding judge_all
  judge_all-IsReady db [] vs e n = tt
  judge_all-IsReady db (k ∷ ks) vs e n =
      let (v, e0, e1) = >>=-eq-ok (judge now seller_id db k (row_of k db)) _ e in
      let (ws, e2, e3) = >>=-eq-ok (judge_all now seller_id db ks) _ e1 in
      let same : v ∷ ws ≡ vs = cc e3 in
      let ready = judge-IsReady db k (row_of k db) v refl e0 (head_fine v ws (rw same n)) in
      (ready.0, judge_all-IsReady db ks ws e2 (tail_fine v ws (rw same n)))
    where
      head_fine :
          (v : Verdict) (ws : List Verdict)
          → has_refusal (v ∷ ws) ≡ false
          → has_refusal (v ∷ []) ≡ false
      head_fine (publishable i w) ws q = refl
      head_fine (refused r) ws q = cc

      tail_fine :
          (v : Verdict) (ws : List Verdict) → has_refusal (v ∷ ws) ≡ false → has_refusal ws ≡ false
      tail_fine (publishable i w) ws q = q
      tail_fine (refused r) ws q = cc

  -- What a batch of such invoices is judged to be.
  abbrev pub verdicts :
      (db : Db) (ks : List String) → All (IsReady now seller_id db) ks → List Verdict
  verdicts db [] a = []
  verdicts db (k ∷ ks) (r, a) = publishable r.invoice r.user.stellar_address ∷ verdicts db ks a

  pub judge_all_complete :
      (db : Db) (ks : List String) (a : All (IsReady now seller_id db) ks)
      → judge_all now seller_id db ks ≡ ok (verdicts db ks a)
  unfolding judge_all
  judge_all_complete db [] a = refl
  judge_all_complete db (k ∷ ks) (r, a) =
      rw (judge_complete db k r, ◌>>=◌) (rw (judge_all_complete db ks a, ◌>>=◌) refl)

  pub verdicts_fine :
      (db : Db) (ks : List String) (a : All (IsReady now seller_id db) ks)
      → has_refusal (verdicts db ks a) ≡ false
  verdicts_fine db [] a = refl
  verdicts_fine db (k ∷ ks) (r, a) = verdicts_fine db ks a
