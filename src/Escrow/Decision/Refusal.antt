-- ===== src/Escrow/Decision/Refusal.antt =====
-- The early returns of `transitionEscrow` (application/transition-escrow.ts) report no transition.
use blockchain_based_e_procu.Prelude.{
  not, ◌&&◌, List, [], ◌∷◌, Option, none, some, inl, inr, Bool-cases,
}
use blockchain_based_e_procu.Prelude.Text.{truthy, trim_optional}
use blockchain_based_e_procu.Escrow.Record.{EscrowRecord, ReleaseConditions}
use blockchain_based_e_procu.Errors.{Issue}
use blockchain_based_e_procu.Escrow.Rules.{
  TransitionInput, TransitionSpec, EscrowDependencies, can_actor_perform,
  release_conditions_satisfied,
}
use blockchain_based_e_procu.Escrow.Decision.{
  transitioned, Decision, stop, decide_conditions, decide_spec, decide_escrow, decide_valid, decide,
}
use blockchain_based_e_procu.World.{World, Platform}

-- The decision is no early return of a transition.
abbrev pub Refuses : Decision → Type 0
Refuses (stop (transitioned e c)) = ⊥
Refuses _ = Unit

module _ (p : Platform) (d : EscrowDependencies) (i : TransitionInput) (w : World) where
  conditions-Refuses :
      (e : EscrowRecord) (s : TransitionSpec) (c : ReleaseConditions)
      → Refuses (decide_conditions p d i w e s c)
  unfolding decide_conditions
  conditions-Refuses e s c =
      elim (Bool-cases (s.require_release_conditions && not (release_conditions_satisfied c))) [
        | inl q ↦ rw q tt
        | inr q ↦ rw q tt
      ]

  spec-Refuses : (e : EscrowRecord) (s : Option TransitionSpec) → Refuses (decide_spec p d i w e s)
  unfolding decide_spec
  spec-Refuses e none = tt
  spec-Refuses e (some s) =
      elim (Bool-cases (s.require_reason && not (truthy (trim_optional i.reason)))) [
        | inl q ↦ rw q tt
        | inr q ↦ rw q (conditions-Refuses e s _)
      ]

  escrow-Refuses : (e : Option EscrowRecord) → Refuses (decide_escrow p d i w e)
  unfolding decide_escrow
  escrow-Refuses none = tt
  escrow-Refuses (some e) = elim (Bool-cases (can_actor_perform i e)) [
    | inl q ↦ rw q (spec-Refuses e _)
    | inr q ↦ rw q tt
  ]

  valid-Refuses : (issues : List Issue) → Refuses (decide_valid p d i w issues)
  unfolding decide_valid
  valid-Refuses [] = escrow-Refuses _
  valid-Refuses (x ∷ issues) = tt

  pub decide-Refuses : Refuses (decide p d i w)
  unfolding decide
  decide-Refuses = elim (Bool-cases (truthy i.actor_user_id && truthy i.actor_organization_id)) [
    | inl q ↦ rw q (valid-Refuses _)
    | inr q ↦ rw q tt
  ]
