-- ===== src/Procurement/Delivery/Submit.antt =====
-- application/submit-delivery-evidence.ts: the writes, and the whole operation.
use mathlib.Core.Option
use blockchain_based_e_procu.Prelude.{
  String, Bool, true, false, Option, none, some, any, get_or, if◌then◌else◌,
}
use blockchain_based_e_procu.Prelude.Text.{◌=s◌, ◌<>◌, truthy}
use blockchain_based_e_procu.Prelude.Effect.{pure, ◌>>=◌}
use blockchain_based_e_procu.Prelude.Guard.{decide}
use blockchain_based_e_procu.Json.{str, obj, end, field}
use blockchain_based_e_procu.Blockchain.Anchor.{BlockchainAnchorMetadata, not_anchored}
use blockchain_based_e_procu.Blockchain.Anchoring.{AnchorDependencies}
use blockchain_based_e_procu.Lifecycle.Event.{LifecycleEvent, success}
use blockchain_based_e_procu.Lifecycle.Builder.{text_or_undefined}
use blockchain_based_e_procu.Lifecycle.Source.{SourceEventInput, record_source_event}
use blockchain_based_e_procu.Escrow.Transition.{anchor_recorded}
use blockchain_based_e_procu.Procurement.Evidence.{DeliveryEvidenceRecord, EvidenceBlockchainAnchor}
use blockchain_based_e_procu.Procurement.Delivery.{
  SubmitEvidenceInput, SubmitEvidenceResult, evidence_submitted, NewEvidence, evidence_type_name,
  check_evidence,
}
use blockchain_based_e_procu.World.{World, App, Platform, read_clock, draw_id, save_evidence}

-- `buildEvidenceHash`
unfoldable pub build_evidence_hash : Platform → NewEvidence → String → String
unfolding evidence_type_name
build_evidence_hash p n submitted_at =
    "sha256:"
    <> p.sha256 (
        p.stringify (
          obj (
            field "evidenceReference" (text_or_undefined n.evidence_reference) (
              field "evidenceType" (str (evidence_type_name n.evidence_type)) (
                field "notes" (text_or_undefined n.notes) (
                  field "orderId" (str n.order.order_id) (
                    field "submittedAt" (str submitted_at) (
                      field "submittedByUserId" (str n.user) (
                        field "supplierOrganizationId" (str n.order.supplier_organization_id)
                          end)))))))))

-- `resolvePreviousEventHash`
resolve_previous : Bool → Option String → World → Option String
resolve_previous false candidate w = none
resolve_previous true none w = none
resolve_previous true (some hash) w =
    if truthy (some hash)
    then (if any (λ (e : LifecycleEvent). e.payload_hash =s hash) w.events then some hash else none)
    else none

-- `baseRecord`
unfoldable pub base_evidence : NewEvidence → String → String → String → DeliveryEvidenceRecord
base_evidence n id hash submitted_at = record {
  evidence_id = id;
  order_id = n.order.order_id;
  buyer_organization_id = n.order.buyer_organization_id;
  supplier_organization_id = n.order.supplier_organization_id;
  submitted_by_user_id = n.user;
  evidence_type = n.evidence_type;
  evidence_reference = n.evidence_reference;
  evidence_hash = hash;
  notes = n.notes;
  submitted_at = submitted_at;
  lifecycle_event_id = none;
  lifecycle_event_hash = none;
  blockchain_anchor = none;
}

-- The input of the event.
unfoldable pub evidence_event_input :
    NewEvidence → DeliveryEvidenceRecord → Option String → SourceEventInput
unfolding evidence_type_name
evidence_event_input n r previous = record {
  request_id = n.request_id;
  actor_user_id = n.user;
  correlation_id = n.order.order_id;
  case_id = n.order.order_id;
  source_id = r.evidence_id;
  source_action = n.source_action;
  outcome = success;
  occurred_at = none;
  recorded_at = none;
  previous_event_hash = previous;
  source_payload_ref = n.evidence_reference;
  source_record_ref = some r.evidence_id;
  anchor_ref = none;
  metadata = some (
      obj (
        field "orderId" (str n.order.order_id) (
          field "buyerOrganizationId" (str n.order.buyer_organization_id) (
            field "supplierOrganizationId" (str n.order.supplier_organization_id) (
              field "evidenceId" (str r.evidence_id) (
                field "evidenceType" (str (evidence_type_name n.evidence_type)) (
                  field "evidenceHash" (str r.evidence_hash)
                    (field "verificationStatus" (str "metadataRecorded") end))))))));
}

-- `toDeliveryEvidenceBlockchainAnchor`
unfoldable pub to_evidence_anchor :
    Option LifecycleEvent → Option BlockchainAnchorMetadata → Option EvidenceBlockchainAnchor
to_evidence_anchor event (some m) = some (record {
  event_id = Option.map (λ (e : LifecycleEvent). e.event_id) event;
  payload_hash = some m.payload_hash;
  anchor_status = m.anchor_status;
  blockchain_network = m.blockchain_network;
  transaction_id = m.transaction_id;
  block_number = m.block_number;
  channel_name = m.channel_name;
  chaincode_name = m.chaincode_name;
  anchored_at = m.anchored_at;
  failure_reason = m.failure_reason;
})
to_evidence_anchor none none = none
to_evidence_anchor (some e) none =
    if truthy (some e.event_id)
    then some (record {
      event_id = some e.event_id;
      payload_hash = some e.payload_hash;
      anchor_status = not_anchored;
      blockchain_network = none;
      transaction_id = none;
      block_number = none;
      channel_name = none;
      chaincode_name = none;
      anchored_at = none;
      failure_reason = none;
    })
    else none

-- `finalRecord`
unfoldable pub final_evidence :
    DeliveryEvidenceRecord
    → Option LifecycleEvent
    → Option BlockchainAnchorMetadata
    → DeliveryEvidenceRecord
unfolding to_evidence_anchor
final_evidence r event metadata = record r {
  lifecycle_event_id = Option.map (λ (e : LifecycleEvent). e.event_id) event;
  lifecycle_event_hash = Option.map (λ (e : LifecycleEvent). e.payload_hash) event;
  blockchain_anchor = to_evidence_anchor event metadata;
}

module _ (p : Platform) (lifecycle : Bool) (anchoring : AnchorDependencies) where
  -- The event, the anchoring and the second write.
  unfoldable pub announce_evidence :
      NewEvidence → DeliveryEvidenceRecord → Option String → App SubmitEvidenceResult
  announce_evidence n r previous = do
    event ← record_source_event p lifecycle (evidence_event_input n r previous) none
    metadata ← anchor_recorded p anchoring event
    saved ← save_evidence (final_evidence r event metadata)
    pure (evidence_submitted saved)

  -- The first write, and what follows.
  unfoldable pub save_and_announce : NewEvidence → DeliveryEvidenceRecord → App SubmitEvidenceResult
  unfolding resolve_previous announce_evidence
  save_and_announce n r = do
    base ← save_evidence r
    λ w.
        announce_evidence n r (resolve_previous lifecycle n.order.latest_lifecycle_payload_hash w) w

  -- The writes after the tests. An identifier of its own generator, or with the prefix of the code.
  unfoldable pub write_evidence : NewEvidence → App SubmitEvidenceResult
  unfolding read_clock draw_id save_and_announce base_evidence build_evidence_hash
  write_evidence n = do
    submitted_at ← read_clock p
    id ← draw_id p
    save_and_announce n (
        base_evidence n ("delivery_evidence_" <> id)
          (get_or n.evidence_hash (build_evidence_hash p n submitted_at)) submitted_at)

  -- `submitDeliveryEvidence`, where the caller passes no generator of identifiers.
  unfoldable pub submit_evidence : SubmitEvidenceInput → App SubmitEvidenceResult
  unfolding check_evidence write_evidence
  submit_evidence i w = decide (check_evidence i w) (write_evidence) w
