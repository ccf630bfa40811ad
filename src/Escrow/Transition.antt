-- ===== src/Escrow/Transition.antt =====
-- The writes of `transitionEscrow` (application/transition-escrow.ts), and the whole operation.
pub mod Effects
use blockchain_based_e_procu.Prelude.{
  String, Bool, true, false, not, ◌&&◌, List, [], ◌∷◌, Option, none, some, get_or, or_else,
  if◌then◌else◌,
}
use mathlib.Core.Option
use blockchain_based_e_procu.Prelude.Text.{truthy, trim_optional}
use blockchain_based_e_procu.Prelude.Effect.{pure, ◌>>=◌}
use blockchain_based_e_procu.Json.{Json, undefined, bool, str, obj, end, field}
use blockchain_based_e_procu.Blockchain.Anchor.{BlockchainAnchorMetadata, not_anchored}
use blockchain_based_e_procu.Blockchain.Anchoring.{AnchorDependencies, anchor_event}
use blockchain_based_e_procu.Lifecycle.Event.{EventInput, LifecycleEvent, escrow, success}
use blockchain_based_e_procu.Lifecycle.Builder.{text_or_undefined}
use blockchain_based_e_procu.Lifecycle.Source.{record_event}
use blockchain_based_e_procu.Escrow.Record.{
  EscrowRecord, EscrowStatus, EscrowBlockchainAnchor, ReleaseConditions,
}
use blockchain_based_e_procu.Escrow.Record
use blockchain_based_e_procu.Escrow.Repository.{find_by_id, update}
use blockchain_based_e_procu.Errors.{Issue, issue}
use blockchain_based_e_procu.Escrow.Rules.{
  Action, fund, request_release, approve_release, hold, open_dispute, record_arbitration_decision,
  ArbitrationOutcome, approve_release_outcome, refund, cancel, TransitionInput, TransitionSpec,
  EscrowDependencies, validate_input, can_actor_perform, transition_spec,
  evaluate_release_conditions, release_conditions_satisfied, is_contested,
}
use blockchain_based_e_procu.World.{World, App, Platform, read_clock, on_escrows}
use blockchain_based_e_procu.Escrow.Decision.{
  TransitionResult, transitioned, Decision, stop, go, decide,
}

unfoldable pub action_name : Action → String
action_name fund = "fund"
action_name request_release = "requestRelease"
action_name approve_release = "approveRelease"
action_name hold = "hold"
action_name open_dispute = "openDispute"
action_name record_arbitration_decision = "recordArbitrationDecision"

abbrev outcome_json : Option ArbitrationOutcome → Json
outcome_json none = undefined
outcome_json (some approve_release_outcome) = str "approveRelease"
outcome_json (some refund) = str "refund"
outcome_json (some cancel) = str "cancel"

unfoldable pub status_name : EscrowStatus → String
status_name Record.accepted = "accepted"
status_name Record.escrow_created = "escrowCreated"
status_name Record.funded = "funded"
status_name Record.awaiting_proof = "awaitingProof"
status_name Record.release_pending = "releasePending"
status_name Record.release_ready = "releaseReady"
status_name Record.release_requested = "releaseRequested"
status_name Record.release_approved = "releaseApproved"
status_name Record.release_rejected = "releaseRejected"
status_name Record.on_hold = "onHold"
status_name Record.dispute_open = "disputeOpen"
status_name Record.arbitration = "arbitration"
status_name Record.released = "released"
status_name Record.refunded = "refunded"
status_name Record.cancelled = "cancelled"
status_name Record.expired = "expired"
status_name Record.settlement_instruction_ready = "settlementInstructionReady"
status_name Record.disputed = "disputed"

conditions_json : ReleaseConditions → Json
conditions_json c = obj (
    field "acceptedOrder" (bool c.accepted_order) (
      field "deliveryEvidenceRecorded" (bool c.delivery_evidence_recorded) (
        field "eligibilitySatisfied" (bool c.eligibility_satisfied)
          (field "disputeFree" (bool c.dispute_free) end))))

payment_execution : EscrowStatus → Json
payment_execution Record.settlement_instruction_ready = str "notExecuted"
payment_execution _ = undefined

-- `acceptedOrderReference ?? orderId`
abbrev pub correlation_of : EscrowRecord → String
correlation_of e = get_or e.accepted_order_reference e.order_id

module _ (i : TransitionInput) (e : EscrowRecord) (spec : TransitionSpec) (reason : Option String)
    (conditions : ReleaseConditions) (now : String) where
  -- The input of the lifecycle event.
  unfoldable pub event_input : EventInput
  unfolding action_name status_name conditions_json payment_execution
  event_input = record {
    request_id = i.request_id;
    correlation_id = correlation_of e;
    case_id = e.order_id;
    lifecycle_stage = escrow;
    event_type = spec.event_type;
    actor_user_id = get_or i.actor_user_id "";
    target_type = "escrow";
    target_id = e.escrow_id;
    outcome = success;
    reason = none;
    metadata = some (
        obj (
          field "action" (str (action_name i.action)) (
            field "previousStatus" (str (status_name e.status)) (
              field "nextStatus" (str (status_name spec.next_status)) (
                field "arbitrationOutcome" (outcome_json i.arbitration_outcome) (
                  field "reason" (text_or_undefined reason) (
                    field "releaseConditions" (conditions_json conditions)
                      (field "paymentExecution" (payment_execution spec.next_status) end))))))));
    occurred_at = some now;
    recorded_at = some now;
    event_id = none;
    previous_event_hash = e.lifecycle_event_hash;
    source_payload_ref = none;
    source_record_ref = some e.escrow_id;
    anchor_ref = none;
  }

-- `toEscrowBlockchainAnchor`
unfoldable pub to_escrow_blockchain_anchor :
    Option String → Option String → Option BlockchainAnchorMetadata → Option EscrowBlockchainAnchor
to_escrow_blockchain_anchor id hash (some m) = some (record {
  event_id = id;
  payload_hash = some m.payload_hash;
  anchor_status = m.anchor_status;
  blockchain_network = m.blockchain_network;
  transaction_id = m.transaction_id;
  block_number = m.block_number;
  channel_name = m.channel_name;
  chaincode_name = m.chaincode_name;
  anchored_at = m.anchored_at;
  failure_reason = m.failure_reason;
})
to_escrow_blockchain_anchor none hash none = none
to_escrow_blockchain_anchor (some id) hash none =
    if truthy (some id)
    then some (record {
      event_id = some id;
      payload_hash = hash;
      anchor_status = not_anchored;
      blockchain_network = none;
      transaction_id = none;
      block_number = none;
      channel_name = none;
      chaincode_name = none;
      anchored_at = none;
      failure_reason = none;
    })
    else none

-- `lifecycleEvent?.eventId ?? escrow.lifecycleEventId`, and so for the hash
abbrev pub event_id_after : Option LifecycleEvent → EscrowRecord → Option String
event_id_after event e =
    or_else (Option.map (λ (v : LifecycleEvent). v.event_id) event) e.lifecycle_event_id

abbrev pub event_hash_after : Option LifecycleEvent → EscrowRecord → Option String
event_hash_after event e =
    or_else (Option.map (λ (v : LifecycleEvent). v.payload_hash) event) e.lifecycle_event_hash

-- `nextEscrow`
unfoldable pub next_escrow :
    EscrowRecord
    → TransitionSpec
    → Option String
    → ReleaseConditions
    → String
    → Option LifecycleEvent
    → Option BlockchainAnchorMetadata
    → EscrowRecord
unfolding to_escrow_blockchain_anchor
next_escrow e spec reason conditions now event metadata = record e {
  status = spec.next_status;
  updated_at = now;
  lifecycle_event_id = event_id_after event e;
  lifecycle_event_hash = event_hash_after event e;
  blockchain_anchor =
      or_else
        (to_escrow_blockchain_anchor (event_id_after event e) (event_hash_after event e) metadata)
        e.blockchain_anchor;
  status_reason = reason;
  release_condition_summary = some conditions;
}

-- `if (lifecycleEvent) anchorMetadata = …`
unfoldable pub anchor_recorded :
    Platform → AnchorDependencies → Option LifecycleEvent → App (Option BlockchainAnchorMetadata)
anchor_recorded p d none = pure none
anchor_recorded p d (some event) = anchor_event p d event

module _ (p : Platform) (d : EscrowDependencies) (i : TransitionInput) where
  -- The writes after the tests.
  unfoldable pub commit :
      EscrowRecord → TransitionSpec → Option String → ReleaseConditions → App TransitionResult
  unfolding read_clock
  commit e spec reason conditions = do
    now ← read_clock p
    event ← record_event p d.lifecycle (event_input i e spec reason conditions now) none
    metadata ← anchor_recorded p d.anchoring event
    updated ← on_escrows (update (next_escrow e spec reason conditions now event metadata))
    pure (transitioned updated conditions)

  unfoldable pub carry_out : Decision → App TransitionResult
  carry_out (stop result) = pure result
  carry_out (go e spec reason conditions) = commit e spec reason conditions

  -- `transitionEscrow`
  unfoldable pub transition_escrow : App TransitionResult
  unfolding carry_out
  transition_escrow w = carry_out (decide p d i w) w
