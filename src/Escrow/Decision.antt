-- ===== src/Escrow/Decision.antt =====
-- The tests of `transitionEscrow` (application/transition-escrow.ts), which read the state and come
-- before the first write.
pub mod Granted
pub mod Refusal
use blockchain_based_e_procu.Prelude.{
  String, Bool, true, false, not, ◌&&◌, List, [], ◌∷◌, Option, none, some, get_or, or_else,
  if◌then◌else◌,
}
use mathlib.Core.Option
use blockchain_based_e_procu.Prelude.Text.{truthy, trim_optional}
use blockchain_based_e_procu.Prelude.Effect.{pure, ◌>>=◌}
use blockchain_based_e_procu.Json.{Json, undefined, bool, str, obj, end, field}
use blockchain_based_e_procu.Blockchain.Anchor.{BlockchainAnchorMetadata, not_anchored}
use blockchain_based_e_procu.Blockchain.Anchoring.{AnchorDependencies, anchor_event}
use blockchain_based_e_procu.Lifecycle.Event.{EventInput, LifecycleEvent, escrow, success}
use blockchain_based_e_procu.Lifecycle.Builder.{text_or_undefined}
use blockchain_based_e_procu.Lifecycle.Source.{record_event}
use blockchain_based_e_procu.Escrow.Record.{
  EscrowRecord, EscrowStatus, EscrowBlockchainAnchor, ReleaseConditions,
}
use blockchain_based_e_procu.Escrow.Record
use blockchain_based_e_procu.Escrow.Repository.{find_by_id, update}
use blockchain_based_e_procu.Errors.{Issue, issue}
use blockchain_based_e_procu.Escrow.Rules.{
  Action, fund, request_release, approve_release, hold, open_dispute, record_arbitration_decision,
  ArbitrationOutcome, approve_release_outcome, refund, cancel, TransitionInput, TransitionSpec,
  EscrowDependencies, validate_input, can_actor_perform, transition_spec,
  evaluate_release_conditions, release_conditions_satisfied, is_contested,
}
use blockchain_based_e_procu.World.{World, App, Platform, read_clock, on_escrows}

pub data TransitionResult : Type 0 where
  transitioned : EscrowRecord → ReleaseConditions → TransitionResult
  invalid_input : List Issue → TransitionResult
  unauthorized : TransitionResult
  forbidden : String → TransitionResult
  not_found : TransitionResult
  conflict : String → EscrowStatus → Option ReleaseConditions → TransitionResult

-- What the tests before the first write come to: an early return, or the values that the writes use.
pub data Decision : Type 0 where
  stop : TransitionResult → Decision
  go : EscrowRecord → TransitionSpec → Option String → ReleaseConditions → Decision

abbrev pub is_release_action : Action → Bool
is_release_action request_release = true
is_release_action approve_release = true
is_release_action _ = false

-- The release conditions of an action that does not ask for them.
abbrev pub assumed : EscrowRecord → ReleaseConditions
assumed e = record {
  accepted_order = true;
  delivery_evidence_recorded = true;
  eligibility_satisfied = true;
  dispute_free = not (is_contested e.status);
}

module _ (p : Platform) (d : EscrowDependencies) (i : TransitionInput) (w : World) where
  decide_conditions : EscrowRecord → TransitionSpec → ReleaseConditions → Decision
  decide_conditions e spec conditions =
      if spec.require_release_conditions && not (release_conditions_satisfied conditions)
      then stop (conflict "releaseConditionsNotMet" e.status (some conditions))
      else go e spec (trim_optional i.reason) conditions

  decide_spec : EscrowRecord → Option TransitionSpec → Decision
  decide_spec e none = stop (conflict "transitionNotAllowed" e.status none)
  decide_spec e (some spec) =
      if spec.require_reason && not (truthy (trim_optional i.reason))
      then stop
          (invalid_input (issue "reason" "Reason is required for this escrow transition" ∷ []))
      else decide_conditions e spec
          (if is_release_action i.action then evaluate_release_conditions p d e w else assumed e)

  decide_escrow : Option EscrowRecord → Decision
  decide_escrow none = stop not_found
  decide_escrow (some e) =
      if can_actor_perform i e
      then decide_spec e (transition_spec i.action i.arbitration_outcome e.status)
      else stop (forbidden "roleOrOrganizationDenied")

  decide_valid : List Issue → Decision
  decide_valid [] = decide_escrow (find_by_id (get_or (trim_optional i.escrow_id) "") w.escrows)
  decide_valid (x ∷ issues) = stop (invalid_input (x ∷ issues))

  -- Everything before `const now`, which only reads.
  unfoldable pub decide : Decision
  unfolding decide_valid decide_escrow decide_spec decide_conditions
  decide =
      if truthy i.actor_user_id && truthy i.actor_organization_id
      then decide_valid (validate_input i)
      else stop unauthorized
