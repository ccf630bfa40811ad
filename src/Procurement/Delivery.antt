-- ===== src/Procurement/Delivery.antt =====
-- application/submit-delivery-evidence.ts: the input and the tests before the first write.
pub mod Submit
pub mod Reading
use blockchain_based_e_procu.Prelude.{
  String, Bool, true, false, not, ◌&&◌, ◌||◌, List, [], ◌∷◌, ◌++◌, Option, none, some, get_or,
  is_some, find, is_empty, when, if◌then◌else◌,
}
use mathlib.Core.Option
use blockchain_based_e_procu.Prelude.Text.{◌=s◌, ◌<>◌, trim, trim_optional, is_blank}
use blockchain_based_e_procu.Prelude.Guard.{Guard, pass, refuse_if, need, ◌>>=◌, ◌>>◌}
use blockchain_based_e_procu.Errors.{Issue, issue}
use blockchain_based_e_procu.Blockchain.Anchoring.{to_lower_case, is_hash, is_prefixed_hash}
use blockchain_based_e_procu.Lifecycle.Source.{SourceAction, delivery_evidence_submitted}
use blockchain_based_e_procu.Procurement.Actor.{Actor, known_actor, has_role, missing, as_string}
use blockchain_based_e_procu.Procurement.Evidence.{
  EvidenceType, DeliveryEvidenceRecord, delivery_note, courier_receipt, warehouse_receipt,
  inspection_record, other,
}
use blockchain_based_e_procu.Procurement.Order.{
  ProcurementOrder, OrderStatus, created, accepted, rejected, find_order,
}
use blockchain_based_e_procu.World.{World}

pub record SubmitEvidenceInput : Type 0 where
  pub order_id : Option String
  pub evidence_type : Option String
  pub evidence_reference : Option String
  pub evidence_hash : Option String
  pub notes : Option String
  pub actor : Actor
  pub lifecycle_source_action : Option SourceAction
  pub request_id : String

pub data SubmitEvidenceResult : Type 0 where
  evidence_submitted : DeliveryEvidenceRecord → SubmitEvidenceResult
  invalid_input : List Issue → SubmitEvidenceResult
  unauthorized : SubmitEvidenceResult
  supplier_role_required supplier_organization_mismatch : SubmitEvidenceResult
  order_not_found : SubmitEvidenceResult
  order_not_accepted : OrderStatus → SubmitEvidenceResult

-- The values of the input that `normalizeInput` passes on, with the order.
pub record NewEvidence : Type 0 where
  pub order : ProcurementOrder
  pub evidence_type : EvidenceType
  pub evidence_reference : Option String
  pub evidence_hash : Option String
  pub notes : Option String
  pub user : String
  pub source_action : SourceAction
  pub request_id : String

unfoldable pub evidence_type_name : EvidenceType → String
evidence_type_name delivery_note = "deliveryNote"
evidence_type_name courier_receipt = "courierReceipt"
evidence_type_name warehouse_receipt = "warehouseReceipt"
evidence_type_name inspection_record = "inspectionRecord"
evidence_type_name other = "other"

-- `deliveryEvidenceTypes`
abbrev pub delivery_evidence_types : List EvidenceType
delivery_evidence_types =
    delivery_note ∷ courier_receipt ∷ warehouse_receipt ∷ inspection_record ∷ other ∷ []

-- `isDeliveryEvidenceType(value)`, with the type that the value names
unfoldable pub evidence_type_of : String → Option EvidenceType
unfolding evidence_type_name
evidence_type_of s = find (λ t. evidence_type_name t =s s) delivery_evidence_types

-- `normalizeHash`
unfoldable pub normalize_hash : String → String
unfolding to_lower_case trim is_hash
normalize_hash value =
    if is_hash (to_lower_case (trim value))
    then "sha256:" <> to_lower_case (trim value)
    else to_lower_case (trim value)

-- The issues of `validateEvidenceHash` on a value that has been trimmed.
hash_issues : Option String → List Issue
unfolding to_lower_case is_hash is_prefixed_hash
hash_issues none = []
hash_issues (some s) =
    when (not (is_prefixed_hash (to_lower_case s) || is_hash (to_lower_case s))) (
      issue "evidenceHash" "Evidence hash must be a SHA-256 hex value with optional sha256: prefix")

type_issues : Option String → List Issue
unfolding evidence_type_of
type_issues none = issue "evidenceType" "Evidence type is required" ∷ []
type_issues (some s) =
    when (not (is_some (evidence_type_of s)))
      (issue "evidenceType" "Evidence type is not supported")

-- The issues of `normalizeInput`. That of the actor's context is left out: the operation has tested
-- the actor before.
unfoldable pub evidence_issues : SubmitEvidenceInput → List Issue
unfolding trim_optional trim hash_issues type_issues
evidence_issues i =
    missing (trim_optional i.order_id) "orderId" "Order is required"
    ++ (type_issues (trim_optional i.evidence_type)
        ++ (when
              (not (is_some (trim_optional i.evidence_reference))
                && not (is_some (trim_optional i.notes)))
              (issue "evidenceReference" "Evidence reference or notes are required")
            ++ (hash_issues (trim_optional i.evidence_hash)
                ++ when (trim i.request_id =s "") (issue "requestId" "Request id is required"))))

-- `status === 'accepted'`
abbrev pub is_accepted : OrderStatus → Bool
is_accepted accepted = true
is_accepted created = false
is_accepted rejected = false

-- The tests before the first write.
unfoldable pub check_evidence : SubmitEvidenceInput → World → Guard SubmitEvidenceResult NewEvidence
unfolding known_actor has_role evidence_issues trim_optional find_order evidence_type_of
    normalize_hash trim
check_evidence i w = do
  actor ← need (known_actor i.actor) unauthorized
  refuse_if (not (has_role i.actor "supplier")) supplier_role_required
  refuse_if (not (is_empty (evidence_issues i))) (invalid_input (evidence_issues i))
  type ←
      need (evidence_type_of (as_string (trim_optional i.evidence_type)))
        (invalid_input (evidence_issues i))
  order ← need (find_order (as_string (trim_optional i.order_id)) w.orders) order_not_found
  refuse_if (not (order.supplier_organization_id =s actor.organization))
      supplier_organization_mismatch
  refuse_if (not (is_accepted order.status)) (order_not_accepted order.status)
  pass (record {
    order = order;
    evidence_type = type;
    evidence_reference = trim_optional i.evidence_reference;
    evidence_hash = Option.map normalize_hash (trim_optional i.evidence_hash);
    notes = trim_optional i.notes;
    user = actor.user;
    source_action = get_or i.lifecycle_source_action delivery_evidence_submitted;
    request_id = trim i.request_id;
  })
