-- ===== src/Procurement/Ordering/Acknowledge/Write.antt =====
-- application/acknowledge-procurement-order.ts: the writes, and the whole operation.
use blockchain_based_e_procu.Prelude.{String, Bool, Option, none, some}
use blockchain_based_e_procu.Prelude.Effect.{pure, ◌>>=◌}
use blockchain_based_e_procu.Prelude.Guard.{decide}
use blockchain_based_e_procu.Json.{str, obj, end, field}
use blockchain_based_e_procu.Lifecycle.Event.{LifecycleEvent, EventOutcome, success}
use blockchain_based_e_procu.Lifecycle.Event
use blockchain_based_e_procu.Lifecycle.Source.{
  SourceAction, SourceEventInput, purchase_order_accepted, purchase_order_rejected,
  record_source_event,
}
use blockchain_based_e_procu.Procurement.Order.{ProcurementOrder, accepted, rejected}
use blockchain_based_e_procu.Procurement.Ordering.Create.Write.{ids_after, hash_after}
use blockchain_based_e_procu.Procurement.Ordering.Acknowledge.{
  AckDecision, accept, reject, AcknowledgeInput, AcknowledgeResult, acknowledged, Acknowledgement,
  check_acknowledge,
}
use blockchain_based_e_procu.World.{App, Platform, read_clock, save_order}

abbrev acknowledge_action : AckDecision → SourceAction
acknowledge_action accept = purchase_order_accepted
acknowledge_action reject = purchase_order_rejected

abbrev acknowledge_outcome : AckDecision → EventOutcome
acknowledge_outcome accept = success
acknowledge_outcome reject = Event.rejected

-- The input of the event `purchaseOrderAccepted` or `purchaseOrderRejected`.
unfoldable pub acknowledged_input : Acknowledgement → String → SourceEventInput
acknowledged_input a request = record {
  request_id = request;
  actor_user_id = a.user;
  correlation_id = a.order.order_id;
  case_id = a.order.order_id;
  source_id = a.order.order_id;
  source_action = acknowledge_action a.decision;
  outcome = acknowledge_outcome a.decision;
  occurred_at = none;
  recorded_at = none;
  previous_event_hash = a.order.latest_lifecycle_payload_hash;
  source_payload_ref = none;
  source_record_ref = none;
  anchor_ref = none;
  metadata = some (
      obj (
        field "buyerOrganizationId" (str a.order.buyer_organization_id)
          (field "supplierOrganizationId" (str a.order.supplier_organization_id) end)));
}

-- The status and the fields that belong to the decision.
abbrev pub decided : AckDecision → String → String → ProcurementOrder → ProcurementOrder
decided accept user now o = record o {
  status = accepted;
  updated_at = now;
  accepted_by = some user;
  accepted_at = some now;
}
decided reject user now o = record o {
  status = rejected;
  updated_at = now;
  rejected_by = some user;
  rejected_at = some now;
}

-- `updatedOrder`
unfoldable pub updated_order : Acknowledgement → String → Option LifecycleEvent → ProcurementOrder
unfolding ids_after hash_after
updated_order a now event = record (decided a.decision a.user now a.order) {
  lifecycle_event_ids = ids_after event a.order.lifecycle_event_ids;
  latest_lifecycle_payload_hash = hash_after event a.order.latest_lifecycle_payload_hash;
}

module _ (p : Platform) (lifecycle : Bool) where
  -- The writes after the tests.
  unfoldable pub write_acknowledgement : String → Acknowledgement → App AcknowledgeResult
  unfolding read_clock
  write_acknowledgement request a = do
    now ← read_clock p
    event ← record_source_event p lifecycle (acknowledged_input a request) none
    saved ← save_order (updated_order a now event)
    pure (acknowledged saved)

  -- `acknowledgeProcurementOrder`; the flag says whether there is a lifecycle event repository.
  unfoldable pub acknowledge_order : AcknowledgeInput → App AcknowledgeResult
  unfolding check_acknowledge write_acknowledgement
  acknowledge_order i w = decide (check_acknowledge i w) (write_acknowledgement i.request_id) w
