-- ===== src/Procurement/Delivery/Reading.antt =====
-- application/list-delivery-evidence.ts, which writes nothing.
use blockchain_based_e_procu.Prelude.{String, Bool, not, ◌&&◌, ◌||◌, List, [], ◌∷◌, Option, some}
use blockchain_based_e_procu.Prelude.Text.{trim_optional, eq_optional}
use blockchain_based_e_procu.Prelude.Guard.{Guard, refuse, pass, refuse_if, need, ◌>>=◌, ◌>>◌}
use blockchain_based_e_procu.Errors.{Issue}
use blockchain_based_e_procu.Procurement.Actor.{Actor, known_actor, has_role, has_any_role, missing}
use blockchain_based_e_procu.Procurement.Evidence.{DeliveryEvidenceRecord, list_evidence}
use blockchain_based_e_procu.Procurement.Order.{ProcurementOrder, find_order}
use blockchain_based_e_procu.World.{World, Platform}

pub data ListEvidenceResult : Type 0 where
  evidence_found : List DeliveryEvidenceRecord → ListEvidenceResult
  invalid_input : List Issue → ListEvidenceResult
  unauthorized forbidden order_not_found : ListEvidenceResult

-- `auditReadRoles`
abbrev pub audit_read_roles : List String
audit_read_roles = "administrator" ∷ "auditor" ∷ "regulator" ∷ "securityOperator" ∷ []

-- `canReadDeliveryEvidence`
unfoldable pub can_read_delivery_evidence : Actor → ProcurementOrder → Bool
unfolding has_role has_any_role
can_read_delivery_evidence a o =
    has_any_role a audit_read_roles
    || ((has_role a "buyer" && eq_optional a.organization_id (some o.buyer_organization_id))
        || (has_role a "supplier"
            && eq_optional a.organization_id (some o.supplier_organization_id)))

-- The result, whether a test or the end of the operation gave it.
abbrev result : Guard ListEvidenceResult ListEvidenceResult → ListEvidenceResult
result (refuse r) = r
result (pass r) = r

-- `listDeliveryEvidence`
unfoldable pub list_delivery_evidence :
    Platform → Option String → Actor → World → ListEvidenceResult
unfolding known_actor trim_optional find_order can_read_delivery_evidence list_evidence
list_delivery_evidence p order_id a w = result (do
  actor ← need (known_actor a) unauthorized
  id ←
      need (trim_optional order_id)
        (invalid_input (missing (trim_optional order_id) "orderId" "Order is required"))
  order ← need (find_order id w.orders) order_not_found
  refuse_if (not (can_read_delivery_evidence a order)) forbidden
  pass (evidence_found (list_evidence p.locale_le id w.evidence)))
