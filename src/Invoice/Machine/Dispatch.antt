-- ===== src/Invoice/Machine/Dispatch.antt =====
-- `InvoiceStateMachine.dispatch`: the side effects of a committed transition run at most once.
use mathlib.Core.Path.{subst}
use ss_backend.Common.{
  ℕ, ◌⊎◌, inl, inr, ◌∙◌, ◌==◌, ◌≡◌, refl, Bool, true, List, [], ◌∷◌, ◌++◌, arith, any, Bool-cases,
}
use ss_backend.Invoice.Machine.{Transition, Effect, MachineState, dispatch}

module _ {W : Type 0} (effects : List (Effect W)) where
  abbrev pub has_run : ℕ → List ℕ → Bool
  has_run object = any (λ d. d == object)

  -- A sequence of calls of `dispatch`, each with an object and the transition that it holds.
  pub dispatch_all : List (ℕ × Transition) → MachineState W → MachineState W
  dispatch_all [] m = m
  dispatch_all ((o, t) ∷ ds) m = dispatch_all ds (dispatch effects o t m)

  dispatch_marks :
      (o : ℕ) (t : Transition) (m : MachineState W)
      → has_run o (dispatch effects o t m).dispatched ≡ true
  unfolding dispatch
  dispatch_marks o t m = ground arith

  dispatch_keeps :
      (o p : ℕ) (t : Transition) (m : MachineState W)
      → has_run p m.dispatched ≡ true
      → has_run p (dispatch effects o t m).dispatched ≡ true
  unfolding dispatch
  dispatch_keeps o p t m h = ground arith

  dispatch_again :
      (o : ℕ) (t : Transition) (m : MachineState W)
      → has_run o m.dispatched ≡ true
      → dispatch effects o t m ≡ m
  unfolding dispatch
  dispatch_again o t m h = rw h

  marked_after :
      (ds : List (ℕ × Transition)) (o : ℕ) (m : MachineState W)
      → (has_run o m.dispatched ≡ true) ⊎ (any (λ d. d.0 == o) ds ≡ true)
      → has_run o (dispatch_all ds m).dispatched ≡ true
  unfolding dispatch_all
  marked_after [] o m (inl h) = h
  marked_after [] o m (inr h) = cc
  marked_after ((p, t) ∷ ds) o m (inl h) =
      marked_after ds o (dispatch effects p t m) (inl (dispatch_keeps p o t m h))
  marked_after ((p, t) ∷ ds) o m (inr h) = elim (Bool-cases (p == o)) [
    | inl e ↦
        let same : p ≡ o = ground arith in
        marked_after ds o (dispatch effects p t m) (
          inl (
            subst (λ x. has_run x (dispatch effects p t m).dispatched ≡ true) same
              (dispatch_marks p t m)))
    | inr e ↦ marked_after ds o (dispatch effects p t m) (inr (ground arith))
  ]

  dispatch_all-append :
      (ds : List (ℕ × Transition)) (o : ℕ) (t : Transition) (m : MachineState W)
      → dispatch_all (ds ++ ((o, t) ∷ [])) m ≡ dispatch effects o t (dispatch_all ds m)
  unfolding dispatch_all
  dispatch_all-append [] o t m = refl
  dispatch_all-append ((p, u) ∷ ds) o t m = dispatch_all-append ds o t (dispatch effects p u m)

-- However calls of `dispatch` are ordered, a further call for a transition object that has been
-- dispatched before runs no effect: the machine, the world of the effects included, stays as it is.
pub dispatch_at_most_once :
    {W : Type 0} (effects : List (Effect W)) (ds : List (ℕ × Transition)) (o : ℕ) (t : Transition)
    (m : MachineState W)
    → any (λ d. d.0 == o) ds ≡ true
    → dispatch_all effects (ds ++ ((o, t) ∷ [])) m ≡ dispatch_all effects ds m
dispatch_at_most_once effects ds o t m h =
    dispatch_all-append effects ds o t m
    ∙ dispatch_again effects o t (dispatch_all effects ds m) (marked_after effects ds o m (inr h))
