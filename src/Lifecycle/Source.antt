-- ===== src/Lifecycle/Source.antt =====
-- application/record-procure-to-pay-lifecycle-event.ts and
-- application/procure-to-pay-lifecycle-source-integration.ts: recording an event, and the table from
-- source actions to stages.
use blockchain_based_e_procu.Prelude.{String, Bool, true, false, Option, none, some, if◌then◌else◌}
use blockchain_based_e_procu.Prelude.Text.{◌=s◌, trim}
use blockchain_based_e_procu.Prelude.Effect.{pure, throw, ◌>>=◌}
use blockchain_based_e_procu.Errors.{
  source_mapping, blank_source_request, blank_source_actor, blank_source_id,
}
use blockchain_based_e_procu.Json.{Json}
use blockchain_based_e_procu.Blockchain.Anchoring.{AnchorDependencies, anchor_event}
use blockchain_based_e_procu.Lifecycle.Event.{
  EventInput, LifecycleEvent, Stage, EventOutcome, purchase_order, delivery, invoice, settlement,
  escrow,
}
use blockchain_based_e_procu.Lifecycle.Log.{save}
use blockchain_based_e_procu.Lifecycle.Builder.{create_event}
use blockchain_based_e_procu.World.{App, Platform, on_events}

-- The call of the anchoring, where the caller passes it, after the event is saved.
anchored_after : Platform → Option AnchorDependencies → LifecycleEvent → App (Option LifecycleEvent)
anchored_after p none saved = pure (some saved)
anchored_after p (some anchoring) saved = do
  metadata ← anchor_event p anchoring saved
  pure (some saved)

-- `recordProcureToPayLifecycleEvent`; the first flag says whether there is a repository.
unfoldable pub record_event :
    Platform → Bool → EventInput → Option AnchorDependencies → App (Option LifecycleEvent)
unfolding anchored_after
record_event p false i anchoring = pure none
record_event p true i anchoring = do
  event ← create_event p i
  saved ← on_events (save event)
  anchored_after p anchoring saved

-- `ProcureToPaySource`
pub data Source : Type 0 where
  source_to_award purchase_orders deliveries invoices settlements escrows : Source

-- `ProcureToPaySourceAction`
pub data SourceAction : Type 0 where
  requisition_created requisition_approved rfq_issued quotation_submitted : SourceAction
  award_selected purchase_order_generated : SourceAction
  purchase_order_created purchase_order_accepted purchase_order_rejected : SourceAction
  purchase_order_modified : SourceAction
  delivery_recorded delivery_evidence_submitted delivery_proof_submitted : SourceAction
  logistics_event_recorded delivery_accepted delivery_rejected delivery_modified : SourceAction
  invoice_issued invoice_match_passed invoice_match_failed invoice_payment_approved : SourceAction
  invoice_approved invoice_rejected invoice_paid : SourceAction
  settlement_initiated settlement_completed settlement_failed settlement_reversed : SourceAction
  escrow_created : SourceAction

unfoldable pub action_name : SourceAction → String
action_name requisition_created = "requisitionCreated"
action_name requisition_approved = "requisitionApproved"
action_name rfq_issued = "rfqIssued"
action_name quotation_submitted = "quotationSubmitted"
action_name award_selected = "awardSelected"
action_name purchase_order_generated = "purchaseOrderGenerated"
action_name purchase_order_created = "purchaseOrderCreated"
action_name purchase_order_accepted = "purchaseOrderAccepted"
action_name purchase_order_rejected = "purchaseOrderRejected"
action_name purchase_order_modified = "purchaseOrderModified"
action_name delivery_recorded = "deliveryRecorded"
action_name delivery_evidence_submitted = "deliveryEvidenceSubmitted"
action_name delivery_proof_submitted = "deliveryProofSubmitted"
action_name logistics_event_recorded = "logisticsEventRecorded"
action_name delivery_accepted = "deliveryAccepted"
action_name delivery_rejected = "deliveryRejected"
action_name delivery_modified = "deliveryModified"
action_name invoice_issued = "invoiceIssued"
action_name invoice_match_passed = "invoiceMatchPassed"
action_name invoice_match_failed = "invoiceMatchFailed"
action_name invoice_payment_approved = "invoicePaymentApproved"
action_name invoice_approved = "invoiceApproved"
action_name invoice_rejected = "invoiceRejected"
action_name invoice_paid = "invoicePaid"
action_name settlement_initiated = "settlementInitiated"
action_name settlement_completed = "settlementCompleted"
action_name settlement_failed = "settlementFailed"
action_name settlement_reversed = "settlementReversed"
action_name escrow_created = "escrowCreated"

-- `SOURCE_MAPPING`
unfoldable pub source_of : SourceAction → Source
source_of requisition_created = source_to_award
source_of requisition_approved = source_to_award
source_of rfq_issued = source_to_award
source_of quotation_submitted = source_to_award
source_of award_selected = source_to_award
source_of purchase_order_generated = source_to_award
source_of purchase_order_created = purchase_orders
source_of purchase_order_accepted = purchase_orders
source_of purchase_order_rejected = purchase_orders
source_of purchase_order_modified = purchase_orders
source_of delivery_recorded = deliveries
source_of delivery_evidence_submitted = deliveries
source_of delivery_proof_submitted = deliveries
source_of logistics_event_recorded = deliveries
source_of delivery_accepted = deliveries
source_of delivery_rejected = deliveries
source_of delivery_modified = deliveries
source_of invoice_issued = invoices
source_of invoice_match_passed = invoices
source_of invoice_match_failed = invoices
source_of invoice_payment_approved = invoices
source_of invoice_approved = invoices
source_of invoice_rejected = invoices
source_of invoice_paid = invoices
source_of settlement_initiated = settlements
source_of settlement_completed = settlements
source_of settlement_failed = settlements
source_of settlement_reversed = settlements
source_of escrow_created = escrows

-- The stage of each entry of `SOURCE_MAPPING` is that of its source.
unfoldable pub stage_of : Source → Stage
stage_of source_to_award = purchase_order
stage_of purchase_orders = purchase_order
stage_of deliveries = delivery
stage_of invoices = invoice
stage_of settlements = settlement
stage_of escrows = escrow

unfoldable pub source_name : Source → String
source_name source_to_award = "sourceToAward"
source_name purchase_orders = "purchaseOrder"
source_name deliveries = "delivery"
source_name invoices = "invoice"
source_name settlements = "settlement"
source_name escrows = "escrow"

pub record SourceEventInput : Type 0 where
  pub request_id : String
  pub actor_user_id : String
  pub correlation_id : String
  pub case_id : String
  pub source_id : String
  pub source_action : SourceAction
  pub outcome : EventOutcome
  pub occurred_at : Option String
  pub recorded_at : Option String
  pub previous_event_hash : Option String
  pub source_payload_ref : Option String
  pub source_record_ref : Option String
  pub anchor_ref : Option String
  pub metadata : Option Json

-- `mappedInput`
unfoldable pub mapped_input : SourceEventInput → EventInput
unfolding action_name source_of stage_of source_name
mapped_input i = record {
  request_id = i.request_id;
  correlation_id = i.correlation_id;
  case_id = i.case_id;
  lifecycle_stage = stage_of (source_of i.source_action);
  event_type = action_name i.source_action;
  actor_user_id = i.actor_user_id;
  target_type = source_name (source_of i.source_action);
  target_id = i.source_id;
  outcome = i.outcome;
  reason = none;
  metadata = i.metadata;
  occurred_at = i.occurred_at;
  recorded_at = i.recorded_at;
  event_id = none;
  previous_event_hash = i.previous_event_hash;
  source_payload_ref = i.source_payload_ref;
  source_record_ref = i.source_record_ref;
  anchor_ref = i.anchor_ref;
}

-- `recordProcureToPaySourceEvent`; every action of the type has an entry in the table.
unfoldable pub record_source_event :
    Platform → Bool → SourceEventInput → Option AnchorDependencies → App (Option LifecycleEvent)
unfolding mapped_input trim
record_source_event p repository i anchoring =
    if trim i.request_id =s ""
    then throw (source_mapping blank_source_request)
    else if trim i.actor_user_id =s ""
    then throw (source_mapping blank_source_actor)
    else if trim i.source_id =s ""
    then throw (source_mapping blank_source_id)
    else record_event p repository (mapped_input i) anchoring
