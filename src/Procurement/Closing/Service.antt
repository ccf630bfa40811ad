-- ===== src/Procurement/Closing/Service.antt =====
-- application/procurement-closeout-service.ts: the operations.
use blockchain_based_e_procu.Prelude.{
  String, Bool, not, ◌&&◌, ◌||◌, List, [], ◌∷◌, ◌++◌, Option, none, some, filter, is_empty, length,
  if◌then◌else◌,
}
use blockchain_based_e_procu.Prelude.Text.{◌=s◌, ◌<>◌, eq_optional, trim_optional, truthy}
use blockchain_based_e_procu.Prelude.Guard.{Guard, refuse, pass, refuse_if, need, ◌>>=◌, ◌>>◌}
use blockchain_based_e_procu.Prelude.Guard
use blockchain_based_e_procu.Prelude.Effect.{pure}
use blockchain_based_e_procu.Prelude.Effect
use blockchain_based_e_procu.Procurement.Actor.{Actor, known_actor, has_any_role, has_role}
use blockchain_based_e_procu.Procurement.Closeout.{
  CaseCloseout, CaseSummary, SupplierPerformanceSummary, case_closed, find_closeout,
  closeouts_of_supplier,
}
use blockchain_based_e_procu.Procurement.Closing.{score_for, invoice_exceptions, proof_coverage}
use blockchain_based_e_procu.Procurement.Delivery.{is_accepted}
use blockchain_based_e_procu.Procurement.Evidence.{DeliveryEvidenceRecord, list_evidence}
use blockchain_based_e_procu.Procurement.Invoice.{ProcurementInvoice, invoices_of_order}
use blockchain_based_e_procu.Procurement.Order.{ProcurementOrder, find_order}
use blockchain_based_e_procu.Procurement.SourceCase.{SourceToAwardCase, find_case}
use blockchain_based_e_procu.World.{World, App, Platform, read_clock, draw_id, save_closeout}

-- `ProcurementCloseoutResult`
pub data CloseoutResult : Type 0 where
  closeout_ok : CaseCloseout → CloseoutResult
  summary_ok : CaseSummary → CloseoutResult
  performance_ok : SupplierPerformanceSummary → CloseoutResult
  unauthorized : CloseoutResult
  forbidden not_found conflict : String → CloseoutResult

abbrev closeout_roles : List String
closeout_roles = "buyer" ∷ "procurementCloseoutManager" ∷ []

-- `privileged`
unfoldable pub is_privileged : Actor → Bool
unfolding has_any_role
is_privileged a =
    has_any_role a ("administrator" ∷ "auditor" ∷ "regulator" ∷ "securityOperator" ∷ [])

-- `canManageCloseoutForBuyer`
unfoldable pub can_manage_closeout : Actor → String → Bool
unfolding has_any_role
can_manage_closeout a buyer =
    has_any_role a closeout_roles && eq_optional a.organization_id (some buyer)

-- The order of a case, with the identifier of the source-to-award case that it was found by.
pub record CaseOrder : Type 0 where
  pub order : ProcurementOrder
  pub source_to_award_case_id : Option String

found_order : Option ProcurementOrder → Option String → Option CaseOrder
found_order none id = none
found_order (some o) id = some (record { order = o; source_to_award_case_id = id })

generated_order : Option SourceToAwardCase → World → Option CaseOrder
unfolding find_order found_order
generated_order none w = none
generated_order (some c) w = elim (c.generated_order_id) [
  | none ↦ none
  | some id ↦
      if truthy (some id) then found_order (find_order id w.orders) (some c.case_id) else none
]

-- `resolveCaseOrder`, where the caller passes the repository of source-to-award cases
unfoldable pub resolve_case_order : String → World → Option CaseOrder
unfolding find_order found_order generated_order find_case
resolve_case_order id w = elim (find_order id w.orders) [
  | none ↦ generated_order (find_case id w.cases) w
  | some o ↦ found_order (some o) none
]

-- The result, whether a test or the end of the operation gave it.
abbrev result : Guard CloseoutResult CloseoutResult → CloseoutResult
result (refuse r) = r
result (pass r) = r

-- `getProcurementCaseSummary`
unfoldable pub get_case_summary : Platform → String → Actor → World → CloseoutResult
unfolding known_actor resolve_case_order is_privileged can_manage_closeout has_role list_evidence
    invoices_of_order find_closeout invoice_exceptions proof_coverage
get_case_summary p id a w = result (do
  actor ← need (known_actor a) unauthorized
  found ← need (resolve_case_order id w) (not_found "caseNotFound")
  refuse_if
      (not (
        is_privileged a
        || (can_manage_closeout a found.order.buyer_organization_id
            || (has_role a "supplier"
                && eq_optional a.organization_id (some found.order.supplier_organization_id)))))
      (forbidden "caseNotVisible")
  pass (
      summary_ok (record {
        case_id = id;
        order_id = some found.order.order_id;
        source_to_award_case_id = found.source_to_award_case_id;
        buyer_organization_id = some found.order.buyer_organization_id;
        supplier_organization_id = some found.order.supplier_organization_id;
        delivery_evidence_count =
            length (list_evidence p.locale_le found.order.order_id w.evidence);
        invoice_count = length (invoices_of_order found.order.order_id w.invoices);
        invoice_exception_count =
            invoice_exceptions (invoices_of_order found.order.order_id w.invoices);
        proof_coverage_percent =
            proof_coverage p (list_evidence p.locale_le found.order.order_id w.evidence);
        closeout = find_closeout id w.closeouts;
      })))

-- What the tests of a closing have established.
pub record Closing : Type 0 where
  pub user : String
  pub order : ProcurementOrder
  pub evidence : List DeliveryEvidenceRecord

-- The tests of `closeProcurementCase`.
unfoldable pub check_close : Platform → String → Actor → World → Guard CloseoutResult Closing
unfolding known_actor has_any_role resolve_case_order list_evidence
check_close p id a w = do
  actor ← need (known_actor a) unauthorized
  refuse_if (not (has_any_role a ("buyer" ∷ "auditor" ∷ "procurementCloseoutManager" ∷ [])))
      (forbidden "buyerOrAuditorRequired")
  found ← need (resolve_case_order id w) (not_found "caseNotFound")
  refuse_if
      (has_any_role a closeout_roles
        && not (eq_optional a.organization_id (some found.order.buyer_organization_id)))
      (forbidden "buyerOrganizationMismatch")
  refuse_if (not (is_accepted found.order.status)) (conflict "orderMustBeAccepted")
  refuse_if (is_empty (list_evidence p.locale_le found.order.order_id w.evidence))
      (conflict "deliveryEvidenceRequired")
  pass (record {
    user = actor.user;
    order = found.order;
    evidence = list_evidence p.locale_le found.order.order_id w.evidence;
  })

-- The record that closes a case.
unfoldable pub new_closeout :
    Platform → String → Option String → Closing → World → String → String → CaseCloseout
unfolding trim_optional score_for invoices_of_order closeouts_of_supplier
new_closeout p case_id notes g w now id = record {
  closeout_id = "closeout_" <> id;
  case_id = case_id;
  order_id = g.order.order_id;
  buyer_organization_id = g.order.buyer_organization_id;
  supplier_organization_id = g.order.supplier_organization_id;
  closed_by_user_id = g.user;
  closed_at = now;
  status = case_closed;
  notes = trim_optional notes;
  metrics =
      score_for p (g.order ∷ []) g.evidence (invoices_of_order g.order.order_id w.invoices)
        (closeouts_of_supplier g.order.supplier_organization_id w.closeouts);
}

-- What follows the tests of `closeProcurementCase`; the invoices and closeouts are those before it.
unfoldable pub write_closeout :
    Platform → String → Option String → World → Closing → App CloseoutResult
unfolding read_clock draw_id new_closeout
write_closeout p id notes before g = Effect.◌>>=◌ (read_clock p) λ now.
    Effect.◌>>=◌ (draw_id p) λ uuid.
      Effect.◌>>=◌ (save_closeout (new_closeout p id notes g before now uuid))
        λ saved. pure (closeout_ok saved)

-- `closeProcurementCase`
unfoldable pub close_case : Platform → String → Actor → Option String → App CloseoutResult
unfolding check_close write_closeout
close_case p id a notes w = Guard.decide (check_close p id a w) (write_closeout p id notes w) w

flat_evidence : Platform → List ProcurementOrder → World → List DeliveryEvidenceRecord
unfolding list_evidence
flat_evidence p [] w = []
flat_evidence p (o ∷ orders) w =
    list_evidence p.locale_le o.order_id w.evidence ++ flat_evidence p orders w

flat_invoices : List ProcurementOrder → World → List ProcurementInvoice
unfolding invoices_of_order
flat_invoices [] w = []
flat_invoices (o ∷ orders) w = invoices_of_order o.order_id w.invoices ++ flat_invoices orders w

-- `(await orderRepository.listAll()).filter(…)`
orders_of_supplier : String → World → List ProcurementOrder
orders_of_supplier id w = filter (λ o. o.supplier_organization_id =s id) w.orders

-- `getSupplierPerformance`
unfoldable pub get_supplier_performance : Platform → String → Actor → World → CloseoutResult
unfolding known_actor is_privileged has_role has_any_role flat_evidence flat_invoices
    orders_of_supplier closeouts_of_supplier score_for
get_supplier_performance p id a w = result (do
  actor ← need (known_actor a) unauthorized
  refuse_if
      (not (
        is_privileged a
        || ((has_role a "supplier" && eq_optional a.organization_id (some id))
            || has_any_role a closeout_roles)))
      (forbidden "performanceNotVisible")
  refuse_if (is_empty (orders_of_supplier id w)) (not_found "supplierHasNoOrders")
  pass (
      performance_ok (
        score_for p (orders_of_supplier id w) (flat_evidence p (orders_of_supplier id w) w)
          (flat_invoices (orders_of_supplier id w) w) (closeouts_of_supplier id w.closeouts))))
