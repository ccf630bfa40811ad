-- ===== src/Lifecycle/Event.antt =====
-- application/procure-to-pay-lifecycle-event.ts, and the input and tables of
-- application/procure-to-pay-lifecycle-event-builder.ts.
use blockchain_based_e_procu.Prelude.{String, List, [], ◌∷◌, Option}
use blockchain_based_e_procu.Json.{Json}

pub data Stage : Type 0 where
  purchase_order delivery invoice settlement escrow : Stage

pub data EventOutcome : Type 0 where
  success rejected voided failed : EventOutcome

pub record LifecycleEvent : Type 0 where
  pub event_id : String
  pub occurred_at : String
  pub recorded_at : String
  pub request_id : String
  pub correlation_id : String
  pub case_id : String
  pub lifecycle_stage : Stage
  pub event_type : String
  pub actor_user_id : String
  pub target_type : String
  pub target_id : String
  pub outcome : EventOutcome
  pub reason : Option String
  pub metadata : Option Json
  pub payload_hash : String
  pub previous_event_hash : Option String
  pub source_payload_ref : Option String
  pub source_record_ref : Option String
  pub anchor_ref : Option String

pub record EventInput : Type 0 where
  pub request_id : String
  pub correlation_id : String
  pub case_id : String
  pub lifecycle_stage : Stage
  pub event_type : String
  pub actor_user_id : String
  pub target_type : String
  pub target_id : String
  pub outcome : EventOutcome
  pub reason : Option String
  pub metadata : Option Json
  pub occurred_at : Option String
  pub recorded_at : Option String
  pub event_id : Option String
  pub previous_event_hash : Option String
  pub source_payload_ref : Option String
  pub source_record_ref : Option String
  pub anchor_ref : Option String

-- The spelling of a stage and of an outcome in the event.
unfoldable pub stage_name : Stage → String
stage_name purchase_order = "purchaseOrder"
stage_name delivery = "delivery"
stage_name invoice = "invoice"
stage_name settlement = "settlement"
stage_name escrow = "escrow"

unfoldable pub outcome_name : EventOutcome → String
outcome_name success = "success"
outcome_name rejected = "rejected"
outcome_name voided = "voided"
outcome_name failed = "failed"

-- `ALLOWED_EVENT_TYPES`
unfoldable pub allowed_event_types : Stage → List String
allowed_event_types purchase_order =
    "requisitionCreated" ∷ "requisitionApproved" ∷ "rfqIssued" ∷ "quotationSubmitted"
    ∷ "awardSelected" ∷ "purchaseOrderGenerated" ∷ "purchaseOrderCreated" ∷ "purchaseOrderAccepted"
    ∷ "purchaseOrderRejected" ∷ "purchaseOrderModified" ∷ []
allowed_event_types delivery =
    "deliveryRecorded" ∷ "deliveryEvidenceSubmitted" ∷ "deliveryProofSubmitted"
    ∷ "logisticsEventRecorded" ∷ "deliveryAccepted" ∷ "deliveryRejected" ∷ "deliveryModified" ∷ []
allowed_event_types invoice =
    "invoiceIssued" ∷ "invoiceMatchPassed" ∷ "invoiceMatchFailed" ∷ "invoicePaymentApproved"
    ∷ "invoiceApproved" ∷ "invoiceRejected" ∷ "invoicePaid" ∷ []
allowed_event_types settlement =
    "settlementInitiated" ∷ "settlementCompleted" ∷ "settlementFailed" ∷ "settlementReversed" ∷ []
allowed_event_types escrow =
    "escrowCreated" ∷ "escrowFunded" ∷ "escrowReleaseRequested" ∷ "escrowReleaseApproved"
    ∷ "escrowReleaseRejected" ∷ "escrowHeld" ∷ "escrowDisputeOpened"
    ∷ "escrowArbitrationDecisionRecorded" ∷ "escrowRefunded" ∷ "escrowCancelled" ∷ "escrowExpired"
    ∷ "escrowSettlementInstructionReady" ∷ []

abbrev pub stages : List Stage
stages = purchase_order ∷ delivery ∷ invoice ∷ settlement ∷ escrow ∷ []
