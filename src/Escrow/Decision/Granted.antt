-- ===== src/Escrow/Decision/Granted.antt =====
-- When the tests of `transitionEscrow` let the writes happen.
use blockchain_based_e_procu.Prelude.{
  String, true, false, not, ◌&&◌, List, [], ◌∷◌, Option, none, some, get_or, if◌then◌else◌, ◌≡◌,
  refl, ap, arith, inl, inr, Bool-cases,
}
use blockchain_based_e_procu.Prelude.Text.{truthy, trim_optional}
use blockchain_based_e_procu.Escrow.Record.{EscrowRecord, ReleaseConditions}
use blockchain_based_e_procu.Escrow.Repository.{find_by_id}
use blockchain_based_e_procu.Errors.{Issue}
use blockchain_based_e_procu.Escrow.Rules.{
  TransitionInput, TransitionSpec, EscrowDependencies, validate_input, can_actor_perform,
  transition_spec, evaluate_release_conditions, release_conditions_satisfied,
}
use blockchain_based_e_procu.Escrow.Decision.{
  go, is_release_action, assumed, decide_conditions, decide_spec, decide_escrow, decide_valid,
  decide,
}
use blockchain_based_e_procu.World.{World, Platform}

module _ (p : Platform) (d : EscrowDependencies) (i : TransitionInput) (w : World) where
  -- All the tests pass, with these values.
  pub record Granted (e : EscrowRecord) (spec : TransitionSpec) (reason : Option String)
      (c : ReleaseConditions) : Type 0 where
    pub actor : truthy i.actor_user_id && truthy i.actor_organization_id ≡ true
    pub valid : validate_input i ≡ []
    pub found : find_by_id (get_or (trim_optional i.escrow_id) "") w.escrows ≡ some e
    pub may : can_actor_perform i e ≡ true
    pub allowed : transition_spec i.action i.arbitration_outcome e.status ≡ some spec
    pub given : reason ≡ trim_optional i.reason
    pub reasoned : spec.require_reason ≡ true → truthy reason ≡ true
    pub evaluated :
        c ≡ (if is_release_action i.action then evaluate_release_conditions p d e w else assumed e)
    pub met : spec.require_release_conditions ≡ true → release_conditions_satisfied c ≡ true

  conditions_granted :
      (e₀ e : EscrowRecord) (s₀ spec : TransitionSpec) (reason : Option String)
      (c₀ c : ReleaseConditions)
      → decide_conditions p d i w e₀ s₀ c₀ ≡ go e spec reason c
      → (e₀ ≡ e)
        × (s₀ ≡ spec)
        × (reason ≡ trim_optional i.reason)
        × (c ≡ c₀)
        × (s₀.require_release_conditions ≡ true → release_conditions_satisfied c₀ ≡ true)
  unfolding decide_conditions
  conditions_granted e₀ e s₀ spec reason c₀ c h =
      elim (Bool-cases (s₀.require_release_conditions && not (release_conditions_satisfied c₀))) [
        | inl unmet ↦ absurd (ground arith)
        | inr met ↦ (ground arith, ground arith, ground arith, ground arith, ground arith)
      ]

  spec_granted :
      (e₀ e : EscrowRecord) (s₀ : Option TransitionSpec) (spec : TransitionSpec)
      (reason : Option String) (c : ReleaseConditions)
      → decide_spec p d i w e₀ s₀ ≡ go e spec reason c
      → (e₀ ≡ e)
        × (s₀ ≡ some spec)
        × (reason ≡ trim_optional i.reason)
        × (spec.require_reason ≡ true → truthy reason ≡ true)
        × (c ≡ (
            if is_release_action i.action then evaluate_release_conditions p d e w else assumed e))
        × (spec.require_release_conditions ≡ true → release_conditions_satisfied c ≡ true)
  unfolding decide_spec
  spec_granted e₀ e none spec reason c h = absurd (cc h)
  spec_granted e₀ e (some s₀) spec reason c h =
      elim (Bool-cases (s₀.require_reason && not (truthy (trim_optional i.reason)))) [
        | inl missing ↦ absurd (ground arith)
        | inr present ↦
            let (pe, ps, pr, pc, met) =
              conditions_granted e₀ e s₀ spec reason
                (if is_release_action i.action
                  then evaluate_release_conditions p d e₀ w
                  else assumed e₀)
                c (rw present at h) in
            (pe, ap some ps, pr, rw (← ps, pr) (λ q. ground arith), rw (← pe) pc, rw (← ps, pc) met)
      ]

  escrow_granted :
      (e₀ : Option EscrowRecord) (e : EscrowRecord) (spec : TransitionSpec) (reason : Option String)
      (c : ReleaseConditions)
      → decide_escrow p d i w e₀ ≡ go e spec reason c
      → (e₀ ≡ some e)
        × (can_actor_perform i e ≡ true)
        × (transition_spec i.action i.arbitration_outcome e.status ≡ some spec)
        × (reason ≡ trim_optional i.reason)
        × (spec.require_reason ≡ true → truthy reason ≡ true)
        × (c ≡ (
            if is_release_action i.action then evaluate_release_conditions p d e w else assumed e))
        × (spec.require_release_conditions ≡ true → release_conditions_satisfied c ≡ true)
  unfolding decide_escrow
  escrow_granted none e spec reason c h = absurd (cc h)
  escrow_granted (some e₀) e spec reason c h = elim (Bool-cases (can_actor_perform i e₀)) [
    | inl may ↦
        let (pe, allowed, pr, reasoned, pc, met) =
          spec_granted e₀ e (transition_spec i.action i.arbitration_outcome e₀.status) spec reason c
            (rw may at h) in
        (ap some pe, rw (← pe) may, rw (← pe) allowed, pr, reasoned, pc, met)
    | inr denied ↦ absurd (ground arith)
  ]

  valid_granted :
      (issues : List Issue) (e : EscrowRecord) (spec : TransitionSpec) (reason : Option String)
      (c : ReleaseConditions)
      → decide_valid p d i w issues ≡ go e spec reason c
      → (issues ≡ [])
        × (decide_escrow p d i w (find_by_id (get_or (trim_optional i.escrow_id) "") w.escrows)
            ≡ go e spec reason c)
  unfolding decide_valid
  valid_granted [] e spec reason c h = (refl, h)
  valid_granted (x ∷ issues) e spec reason c h = absurd (cc h)

  -- The tests pass only where each of them holds.
  pub decide-Granted :
      (e : EscrowRecord) (spec : TransitionSpec) (reason : Option String) (c : ReleaseConditions)
      → decide p d i w ≡ go e spec reason c
      → Granted e spec reason c
  decide-Granted e spec reason c h =
      elim (Bool-cases (truthy i.actor_user_id && truthy i.actor_organization_id)) [
        | inl actor ↦
            let (valid, h₁) = valid_granted (validate_input i) e spec reason c (started actor h) in
            let (found, may, allowed, pr, reasoned, pc, met) =
              escrow_granted _ e spec reason c h₁ in
            record {
              actor = actor;
              valid = valid;
              found = found;
              may = may;
              allowed = allowed;
              given = pr;
              reasoned = reasoned;
              evaluated = pc;
              met = met;
            }
        | inr nobody ↦ absurd (nobody_stops nobody h)
      ]
    where
      started :
          truthy i.actor_user_id && truthy i.actor_organization_id ≡ true
          → decide p d i w ≡ go e spec reason c
          → decide_valid p d i w (validate_input i) ≡ go e spec reason c
      started actor h = unfold decide in rw actor at h

      nobody_stops :
          truthy i.actor_user_id && truthy i.actor_organization_id ≡ false
          → decide p d i w ≡ go e spec reason c
          → ⊥
      nobody_stops nobody h = unfold decide in ground arith

  -- Where each of them holds, the tests pass.
  pub Granted-decide :
      (e : EscrowRecord) (spec : TransitionSpec) (reason : Option String) (c : ReleaseConditions)
      → Granted e spec reason c
      → decide p d i w ≡ go e spec reason c
  unfolding decide
  Granted-decide e spec reason c g = rw g.actor (
      rw g.valid (
        rw g.found (
          rw g.may (
            rw g.allowed (
              rw (← g.evaluated, decide_conditions)
                (rw (← g.given) (ground (arith, g.reasoned, g.met))))))))
