-- ===== src/Invoice/Rules/Permission.antt =====
-- When `assertTransition` lets a status change through, and how it refuses one.
use ss_backend.Common.{
  ℕ, ◌≤◌, String, ◌≡◌, refl, ◌↔◌, ◌⊎◌, inl, inr, true, false, Option, none, some, arith, eq_iff, ok,
}
use ss_backend.Models.{
  InvoiceStatus, draft, pending, published, funded, settled, cancelled, rejected, failed, seller,
  admin, system, Invoice,
}
use ss_backend.Invoice.Publish.{IsPublishable, validate_invoice_iff}
use ss_backend.Invoice.Rules.{
  TransitionActor, TransitionContext, has_reason, owner_mismatch, publish_ready, reason_required,
  fully_funded, check_rule, find_rule, assert_transition,
}

-- The seller of this very invoice.
pub record IsOwner (invoice : Invoice) (actor : TransitionActor) : Type 0 where
  pub as_seller : actor.role ≡ seller
  pub owns : actor.id ≡ some invoice.seller_id

pub record HasCommitted (invoice : Invoice) (context : TransitionContext) : Type 0 where
  pub committed : ℕ
  pub given : context.funded_amount ≡ some committed
  pub covers : invoice.net_amount ≤ committed

-- The edges of the life cycle with who may take each and what must hold, written out by hand.
abbrev pub Permitted :
    ℕ → Invoice → TransitionActor → TransitionContext → InvoiceStatus → InvoiceStatus → Type 0
Permitted now i a c draft pending = IsOwner i a × IsPublishable now i
Permitted now i a c draft published = IsOwner i a × IsPublishable now i
Permitted now i a c draft rejected = (a.role ≡ admin) × (has_reason c.reason ≡ true)
Permitted now i a c draft cancelled = IsOwner i a ⊎ (a.role ≡ admin)
Permitted now i a c pending published = (a.role ≡ admin) × IsPublishable now i
Permitted now i a c pending rejected = (a.role ≡ admin) × (has_reason c.reason ≡ true)
Permitted now i a c pending cancelled = IsOwner i a ⊎ (a.role ≡ admin)
Permitted now i a c published funded = (a.role ≡ system) × HasCommitted i c
Permitted now i a c published cancelled = a.role ≡ admin
Permitted now i a c published failed = a.role ≡ system
Permitted now i a c funded settled = (a.role ≡ admin) ⊎ (a.role ≡ system)
Permitted now i a c funded cancelled = a.role ≡ admin
Permitted _ _ _ _ _ _ = ⊥

module _ (now : ℕ) (i : Invoice) (a : TransitionActor) (c : TransitionContext) where
  publish_ready_sound : publish_ready now i c ≡ none → IsPublishable now i
  unfolding publish_ready
  publish_ready_sound e = (validate_invoice_iff i now).0 (ground arith)

  publish_ready_complete : IsPublishable now i → publish_ready now i c ≡ none
  unfolding publish_ready
  publish_ready_complete p = let e = (validate_invoice_iff i now).1 p in ground arith

  fully_funded_sound : fully_funded now i c ≡ none → HasCommitted i c
  unfolding fully_funded
  fully_funded_sound e = go c.funded_amount refl
    where
      go : (o : Option ℕ) → c.funded_amount ≡ o → HasCommitted i c
      go none q = absurd (ground arith)
      go (some n) q = record { committed = n; given = q; covers = ground arith }

  fully_funded_complete : HasCommitted i c → fully_funded now i c ≡ none
  unfolding fully_funded
  fully_funded_complete p = ground arith

  pub IsOwner-sound : a.role ≡ seller → owner_mismatch i a ≡ false → IsOwner i a
  IsOwner-sound r e = go a.id refl
    where
      go : (o : Option String) → a.id ≡ o → IsOwner i a
      go none q = absurd (ground arith)
      go (some s) q = record { as_seller = r; owns = ground (arith, eq_iff s i.seller_id) }

  pub IsOwner-complete : IsOwner i a → owner_mismatch i a ≡ false
  IsOwner-complete p = ground (arith, eq_iff i.seller_id i.seller_id)

  reason_required_iff : (reason_required now i c ≡ none) ↔ (has_reason c.reason ≡ true)
  unfolding reason_required
  reason_required_iff = ground arith

  pub seller_or_admin :
      (a.role ≡ seller) ⊎ (a.role ≡ admin)
      → owner_mismatch i a ≡ false
      → IsOwner i a ⊎ (a.role ≡ admin)
  seller_or_admin (inl s) e = inl (IsOwner-sound s e)
  seller_or_admin (inr r) e = inr r

  pub rule_sound :
      (from to : InvoiceStatus)
      → check_rule (find_rule from to) now i a c ≡ ok tt
      → Permitted now i a c from to
  unfolding check_rule find_rule
  rule_sound draft pending e =
      (IsOwner-sound (ground arith) (ground arith), publish_ready_sound (ground arith))
  rule_sound draft published e =
      (IsOwner-sound (ground arith) (ground arith), publish_ready_sound (ground arith))
  rule_sound draft rejected e = (ground arith, reason_required_iff.0 (ground arith))
  rule_sound draft cancelled e = seller_or_admin (ground arith) (ground arith)
  rule_sound pending published e = (ground arith, publish_ready_sound (ground arith))
  rule_sound pending rejected e = (ground arith, reason_required_iff.0 (ground arith))
  rule_sound pending cancelled e = seller_or_admin (ground arith) (ground arith)
  rule_sound published funded e = (ground arith, fully_funded_sound (ground arith))
  rule_sound published cancelled e = ground arith
  rule_sound published failed e = ground arith
  rule_sound funded settled e = ground arith
  rule_sound funded cancelled e = ground arith
  rule_sound settled _ e = cc
  rule_sound cancelled _ e = cc
  rule_sound _ _ e = cc

  rule_complete :
      (from to : InvoiceStatus)
      → Permitted now i a c from to
      → check_rule (find_rule from to) now i a c ≡ ok tt
  unfolding check_rule find_rule
  rule_complete draft pending (o, p) = ground (arith, IsOwner-complete o, publish_ready_complete p)
  rule_complete draft published (o, p) =
      ground (arith, IsOwner-complete o, publish_ready_complete p)
  rule_complete draft rejected (r, p) = ground (arith, reason_required_iff.1 p)
  rule_complete draft cancelled (inl o) = ground (arith, IsOwner-complete o)
  rule_complete draft cancelled (inr r) = ground arith
  rule_complete pending published (r, p) = ground (arith, publish_ready_complete p)
  rule_complete pending rejected (r, p) = ground (arith, reason_required_iff.1 p)
  rule_complete pending cancelled (inl o) = ground (arith, IsOwner-complete o)
  rule_complete pending cancelled (inr r) = ground arith
  rule_complete published funded (r, p) = ground (arith, fully_funded_complete p)
  rule_complete published cancelled r = ground arith
  rule_complete published failed r = ground arith
  rule_complete funded settled r = ground arith
  rule_complete funded cancelled r = ground arith
  rule_complete settled _ h = absurd h
  rule_complete _ _ h = absurd h

-- `assertTransition` returns exactly when the edge from the invoice's status to the new one is
-- in the life cycle of the code, which has the edge from published to failed by the system, and
-- the actor and the context are what that edge demands.
pub assert_transition_iff :
    (now : ℕ) (i : Invoice) (to : InvoiceStatus) (a : TransitionActor) (c : TransitionContext)
    → (assert_transition now i to a c ≡ ok tt) ↔ Permitted now i a c i.status to
unfolding assert_transition
assert_transition_iff now i to a c =
    (rule_sound now i a c i.status to, rule_complete now i a c i.status to)
