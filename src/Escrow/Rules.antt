-- ===== src/Escrow/Rules.antt =====
-- The pure part of application/transition-escrow.ts: validation, authority, the transition table and
-- the release conditions.
use blockchain_based_e_procu.Prelude.{
  String, Bool, true, false, not, ◌&&◌, ◌||◌, List, [], ◌∷◌, ◌++◌, Option, none, some, any, when,
  is_some, is_empty, get_or,
}
use blockchain_based_e_procu.Prelude.Text.{◌=s◌, trim, trim_optional, includes, eq_optional, truthy}
use blockchain_based_e_procu.Errors.{Issue, issue}
use blockchain_based_e_procu.Procurement.Order.{ProcurementOrder, OrderStatus, find_order}
use blockchain_based_e_procu.Procurement.Evidence.{list_evidence}
use blockchain_based_e_procu.Procurement.Eligibility.{EligibilityResult, is_eligible}
use blockchain_based_e_procu.Blockchain.Anchoring.{AnchorDependencies}
use blockchain_based_e_procu.Escrow.Record.{
  EscrowRecord, EscrowStatus, ReleaseConditions, escrow_created, funded, awaiting_proof,
  release_pending, release_ready, release_requested, on_hold, dispute_open, arbitration, disputed,
  refunded, cancelled, settlement_instruction_ready,
}
use blockchain_based_e_procu.World.{World, Platform}

pub data Action : Type 0 where
  fund request_release approve_release hold open_dispute record_arbitration_decision : Action

pub data ArbitrationOutcome : Type 0 where
  approve_release_outcome refund cancel : ArbitrationOutcome

pub record TransitionInput : Type 0 where
  pub escrow_id : Option String
  pub action : Action
  pub actor_user_id : Option String
  pub actor_organization_id : Option String
  pub actor_role_codes : Option (List String)
  pub reason : Option String
  pub arbitration_outcome : Option ArbitrationOutcome
  pub request_id : String

-- Which repositories the caller passes, and the gateway that answers for eligibility.
pub record EscrowDependencies : Type 0 where
  pub lifecycle : Bool
  pub anchoring : AnchorDependencies
  pub order_repository : Bool
  pub evidence_repository : Bool
  pub eligibility_gateway : Option (World → String → EligibilityResult)

pub record TransitionSpec : Type 0 where
  pub next_status : EscrowStatus
  pub event_type : String
  pub require_release_conditions : Bool
  pub require_reason : Bool

abbrev pub is_arbitration_decision : Action → Bool
is_arbitration_decision record_arbitration_decision = true
is_arbitration_decision _ = false

-- `validateInput`. An arbitration outcome that is present is one of the three of the enumeration,
-- so the test that it is supported is always passed.
unfoldable pub validate_input : TransitionInput → List Issue
unfolding trim_optional trim
validate_input i =
    when (not (is_some (trim_optional i.escrow_id))) (issue "escrowId" "Escrow id is required")
    ++ (when (trim i.request_id =s "") (issue "requestId" "Request id is required")
        ++ when (is_arbitration_decision i.action && not (is_some i.arbitration_outcome))
            (issue "arbitrationOutcome" "Arbitration outcome is required"))

-- `hasRole`
unfoldable pub has_role : TransitionInput → List String → Bool
has_role i allowed = any (λ role. includes allowed role) (get_or i.actor_role_codes [])

abbrev acts_for : TransitionInput → String → Bool
acts_for i organization = eq_optional i.actor_organization_id (some organization)

permitted : Action → TransitionInput → EscrowRecord → Bool
unfolding has_role
permitted fund i e =
    has_role i ("buyer" ∷ "financier" ∷ [])
    && (acts_for i e.buyer_organization_id
        || eq_optional i.actor_organization_id e.financier_organization_id)
permitted request_release i e =
    has_role i ("supplier" ∷ "buyer" ∷ [])
    && (acts_for i e.supplier_organization_id || acts_for i e.buyer_organization_id)
permitted approve_release i e = has_role i ("buyer" ∷ []) && acts_for i e.buyer_organization_id
permitted hold i e =
    has_role i ("buyer" ∷ "administrator" ∷ "securityOperator" ∷ [])
    && (acts_for i e.buyer_organization_id
        || has_role i ("administrator" ∷ "securityOperator" ∷ []))
permitted open_dispute i e =
    has_role i ("buyer" ∷ "supplier" ∷ [])
    && (acts_for i e.buyer_organization_id || acts_for i e.supplier_organization_id)
permitted record_arbitration_decision i e = has_role i ("administrator" ∷ "auditor" ∷ [])

-- `canActorPerform`
unfoldable pub can_actor_perform : TransitionInput → EscrowRecord → Bool
unfolding permitted
can_actor_perform i e = permitted i.action i e

abbrev is_releasable : EscrowStatus → Bool
is_releasable funded = true
is_releasable awaiting_proof = true
is_releasable release_pending = true
is_releasable release_ready = true
is_releasable _ = false

abbrev is_holdable : EscrowStatus → Bool
is_holdable escrow_created = true
is_holdable release_requested = true
is_holdable s = is_releasable s

abbrev is_disputable : EscrowStatus → Bool
is_disputable on_hold = true
is_disputable s = is_holdable s

-- `['disputeOpen', 'arbitration', 'onHold', 'disputed'].includes(status)`
abbrev pub is_contested : EscrowStatus → Bool
is_contested dispute_open = true
is_contested arbitration = true
is_contested on_hold = true
is_contested disputed = true
is_contested _ = false

abbrev is_escrow_created : EscrowStatus → Bool
is_escrow_created escrow_created = true
is_escrow_created _ = false

abbrev is_release_requested : EscrowStatus → Bool
is_release_requested release_requested = true
is_release_requested _ = false

abbrev pub spec : Bool → EscrowStatus → String → Bool → Bool → Option TransitionSpec
spec true next type conditions reason = some (record {
  next_status = next;
  event_type = type;
  require_release_conditions = conditions;
  require_reason = reason;
})
spec false next type conditions reason = none

-- The status after an arbitration decision.
abbrev decided : Option ArbitrationOutcome → EscrowStatus
decided (some approve_release_outcome) = settlement_instruction_ready
decided (some refund) = refunded
decided _ = cancelled

-- `transitionSpec`
unfoldable pub transition_spec :
    Action → Option ArbitrationOutcome → EscrowStatus → Option TransitionSpec
transition_spec fund o s = spec (is_escrow_created s) funded "escrowFunded" false false
transition_spec request_release o s =
    spec (is_releasable s) release_requested "escrowReleaseRequested" true false
transition_spec approve_release o s =
    spec (is_release_requested s) settlement_instruction_ready "escrowReleaseApproved" true false
transition_spec hold o s = spec (is_holdable s) on_hold "escrowHeld" false true
transition_spec open_dispute o s =
    spec (is_disputable s) dispute_open "escrowDisputeOpened" false true
transition_spec record_arbitration_decision o s =
    spec (is_contested s) (decided o) "escrowArbitrationDecisionRecorded" false false

abbrev pub is_accepted_order : Option ProcurementOrder → Bool
is_accepted_order none = false
is_accepted_order (some o) = elim (o.status) [ OrderStatus.accepted ↦ true | _ ↦ false ]

abbrev pub both_eligible : Option (World → String → EligibilityResult) → World → EscrowRecord → Bool
both_eligible none w e = false
both_eligible (some check) w e =
    is_eligible (check w e.buyer_organization_id).eligibility
    && is_eligible (check w e.supplier_organization_id).eligibility

-- `evaluateReleaseConditions`
unfoldable pub evaluate_release_conditions :
    Platform → EscrowDependencies → EscrowRecord → World → ReleaseConditions
unfolding find_order list_evidence is_eligible
evaluate_release_conditions p d e w = record {
  accepted_order =
      (d.order_repository && is_accepted_order (find_order e.order_id w.orders))
      || truthy e.accepted_order_reference;
  delivery_evidence_recorded =
      d.evidence_repository && not (is_empty (list_evidence p.locale_le e.order_id w.evidence));
  eligibility_satisfied = both_eligible d.eligibility_gateway w e;
  dispute_free = not (is_contested e.status);
}

-- `releaseConditionsSatisfied`
unfoldable pub release_conditions_satisfied : ReleaseConditions → Bool
release_conditions_satisfied c =
    c.accepted_order && c.delivery_evidence_recorded && c.eligibility_satisfied && c.dispute_free
