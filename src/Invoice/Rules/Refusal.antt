-- ===== src/Invoice/Rules/Refusal.antt =====
-- Which error `assertTransition` throws, and which statuses are final.
use ss_backend.Common.{
  ℕ, ◌≡◌, ◌≢◌, refl, sym, ◌∙◌, ◌⊎◌, inl, inr, Bool, true, false, Option, none, some, arith, any, ok,
  err, service_error, ErrorCode, or_default, invalid_status_transition, transition_not_permitted,
  invoice_not_publishable, transition_precondition_failed, Bool-cases, Option-cases,
}
use ss_backend.Models.{
  InvoiceStatus, draft, pending, published, funded, settled, cancelled, rejected, failed, status_eq,
  admin, system, Invoice,
}
use ss_backend.Invoice.Rules.{
  TransitionActor, TransitionContext, TransitionRule, is_refused, check_rule, find_rule,
  assert_transition, allowed_transitions_from,
}
use ss_backend.Invoice.Rules.Permission.{
  IsOwner, Permitted, IsOwner-sound, IsOwner-complete, seller_or_admin, rule_sound,
}

-- Who may take each edge, written out by hand.
abbrev pub MayMove : Invoice → TransitionActor → InvoiceStatus → InvoiceStatus → Type 0
MayMove i a draft pending = IsOwner i a
MayMove i a draft published = IsOwner i a
MayMove i a draft rejected = a.role ≡ admin
MayMove i a draft cancelled = IsOwner i a ⊎ (a.role ≡ admin)
MayMove i a pending published = a.role ≡ admin
MayMove i a pending rejected = a.role ≡ admin
MayMove i a pending cancelled = IsOwner i a ⊎ (a.role ≡ admin)
MayMove i a published funded = a.role ≡ system
MayMove i a published cancelled = a.role ≡ admin
MayMove i a published failed = a.role ≡ system
MayMove i a funded settled = (a.role ≡ admin) ⊎ (a.role ≡ system)
MayMove i a funded cancelled = a.role ≡ admin
MayMove _ _ _ _ = ⊥

abbrev pub is_edge : InvoiceStatus → InvoiceStatus → Bool
is_edge from to = any (status_eq to) (allowed_transitions_from from)

-- The code of an edge whose precondition fails.
abbrev pub precondition_code : InvoiceStatus → ErrorCode
precondition_code pending = invoice_not_publishable
precondition_code published = invoice_not_publishable
precondition_code _ = transition_precondition_failed

no_edge : (from to : InvoiceStatus) → is_edge from to ≡ false → find_rule from to ≡ none
unfolding allowed_transitions_from find_rule
no_edge draft _ e = ground arith
no_edge pending _ e = ground arith
no_edge _ _ e = ground arith

abbrev refused_at : Option TransitionRule → Invoice → TransitionActor → Bool
refused_at none i a = true
refused_at (some r) i a = is_refused r i a

no_rule : (from to : InvoiceStatus) → find_rule from to ≡ none → is_edge from to ≡ false
unfolding allowed_transitions_from find_rule
no_rule draft _ e = ground arith
no_rule pending _ e = ground arith
no_rule _ _ e = ground arith

guard_codes :
    (from to : InvoiceStatus) (r : TransitionRule)
    → find_rule from to ≡ some r
    → or_default r.guard_code transition_precondition_failed ≡ precondition_code to
unfolding find_rule
guard_codes draft _ r e = ground arith
guard_codes pending _ r e = ground arith
guard_codes published _ r e = ground arith
guard_codes funded _ r e = ground arith
guard_codes _ _ r e = cc

no_rule_error :
    (now : ℕ) (i : Invoice) (a : TransitionActor) (c : TransitionContext)
    → check_rule none now i a c ≡ err (service_error invalid_status_transition 422)
unfolding check_rule
no_rule_error now i a c = refl

true-ne-false : ¬ (true ≡ false)
true-ne-false e = cc

module _ (i : Invoice) (a : TransitionActor) (c : TransitionContext) where
  MayMove-sound :
      (from to : InvoiceStatus) → refused_at (find_rule from to) i a ≡ false → MayMove i a from to
  unfolding find_rule
  MayMove-sound draft pending e = IsOwner-sound 0 i a c (ground arith) (ground arith)
  MayMove-sound draft published e = IsOwner-sound 0 i a c (ground arith) (ground arith)
  MayMove-sound draft cancelled e = seller_or_admin 0 i a c (ground arith) (ground arith)
  MayMove-sound pending cancelled e = seller_or_admin 0 i a c (ground arith) (ground arith)
  MayMove-sound _ _ e = ground arith

  MayMove-complete :
      (from to : InvoiceStatus) → MayMove i a from to → refused_at (find_rule from to) i a ≡ false
  unfolding find_rule
  MayMove-complete draft pending o = ground (arith, IsOwner-complete 0 i a c o)
  MayMove-complete draft published o = ground (arith, IsOwner-complete 0 i a c o)
  MayMove-complete draft cancelled (inl o) = ground (arith, IsOwner-complete 0 i a c o)
  MayMove-complete draft cancelled (inr r) = ground arith
  MayMove-complete pending cancelled (inl o) = ground (arith, IsOwner-complete 0 i a c o)
  MayMove-complete pending cancelled (inr r) = ground arith
  MayMove-complete draft rejected r = ground arith
  MayMove-complete pending published r = ground arith
  MayMove-complete pending rejected r = ground arith
  MayMove-complete published funded r = ground arith
  MayMove-complete published cancelled r = ground arith
  MayMove-complete published failed r = ground arith
  MayMove-complete funded settled r = ground arith
  MayMove-complete funded cancelled r = ground arith
  MayMove-complete settled _ h = absurd h
  MayMove-complete _ _ h = absurd h

  -- The three refusals, over a rule that has been looked up.
  refuse_rule :
      (now : ℕ) (r : TransitionRule)
      → is_refused r i a ≡ true
      → check_rule (some r) now i a c ≡ err (service_error transition_not_permitted 403)
  unfolding check_rule
  refuse_rule now r e = ground arith

  fail_guard :
      (now : ℕ) (r : TransitionRule)
      → is_refused r i a ≡ false
      → check_rule (some r) now i a c ≢ ok tt
      → check_rule (some r) now i a c
        ≡ err (service_error (or_default r.guard_code transition_precondition_failed) 422)
  unfolding check_rule
  fail_guard now r e h = ground arith

-- How `assertTransition` refuses: an edge that is not in the table of the code, which has the
-- edge from published to failed, is 422 `invalid_status_transition`; an edge that this actor may
-- not take is 403 `transition_not_permitted`; and when the actor may take the edge but the call
-- does not return, it is 422 `invoice_not_publishable` towards pending or published and 422
-- `transition_precondition_failed` otherwise.
pub assert_transition_refusals :
    (now : ℕ) (i : Invoice) (to : InvoiceStatus) (a : TransitionActor) (c : TransitionContext)
    → (is_edge i.status to ≡ false
        → assert_transition now i to a c ≡ err (service_error invalid_status_transition 422))
      × (is_edge i.status to ≡ true
          → ¬ MayMove i a i.status to
          → assert_transition now i to a c ≡ err (service_error transition_not_permitted 403))
      × (MayMove i a i.status to
          → ¬ Permitted now i a c i.status to
          → assert_transition now i to a c ≡ err (service_error (precondition_code to) 422))
unfolding assert_transition
assert_transition_refusals now i to a c = (unknown, denied, unmet)
  where
    unknown :
        is_edge i.status to ≡ false
        → check_rule (find_rule i.status to) now i a c
          ≡ err (service_error invalid_status_transition 422)
    unknown e = rw (no_edge i.status to e) (no_rule_error now i a c)

    denied :
        is_edge i.status to ≡ true
        → ¬ MayMove i a i.status to
        → check_rule (find_rule i.status to) now i a c
          ≡ err (service_error transition_not_permitted 403)
    denied e h = elim (Option-cases (find_rule i.status to)) [
      | inl q ↦ absurd (true-ne-false (sym e ∙ no_rule i.status to q))
      | inr (r, q) ↦ elim (Bool-cases (is_refused r i a)) [
        | inl x ↦ rw q (refuse_rule i a c now r x)
        | inr x ↦ absurd (h (MayMove-sound i a c i.status to (rw q x)))
      ]
    ]

    unmet :
        MayMove i a i.status to
        → ¬ Permitted now i a c i.status to
        → check_rule (find_rule i.status to) now i a c
          ≡ err (service_error (precondition_code to) 422)
    unmet m h = elim (Option-cases (find_rule i.status to)) [
      | inl q ↦ absurd (true-ne-false (rw q at (MayMove-complete i a c i.status to m)))
      | inr (r, q) ↦
          rw (q, ← guard_codes i.status to r q)
            (fail_guard i a c now r (rw q at (MayMove-complete i a c i.status to m))
              (λ k. h (rule_sound now i a c i.status to (rw q k))))
    ]
