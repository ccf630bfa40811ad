-- ===== src/Procurement/Invoicing/Submit.antt =====
-- application/invoice-service.ts: the input of `submitInvoice` and its tests before the first write.
use mathlib.Core.Option
use blockchain_based_e_procu.Prelude.{
  String, Bool, true, false, not, ◌&&◌, ◌||◌, List, ◌++◌, Option, none, some, is_empty, when,
  if◌then◌else◌, is_some,
}
use blockchain_based_e_procu.Prelude.Text.{◌=s◌, ◌<>◌, trim, trim_optional, truthy, starts_with}
use blockchain_based_e_procu.Prelude.Guard.{Guard, pass, refuse_if, need, ◌>>=◌, ◌>>◌}
use blockchain_based_e_procu.Errors.{Issue, issue}
use blockchain_based_e_procu.Blockchain.Anchoring.{to_lower_case, is_hash, is_prefixed_hash}
use blockchain_based_e_procu.Procurement.Actor.{Actor, known_actor, missing, as_string}
use blockchain_based_e_procu.Procurement.Delivery.{is_accepted}
use blockchain_based_e_procu.Procurement.Evidence.{DeliveryEvidenceRecord, find_evidence}
use blockchain_based_e_procu.Procurement.Invoicing.{
  InvoiceResult, invalid_input, unauthorized, forbidden, not_found, conflict, can_submit_invoice,
}
use blockchain_based_e_procu.Procurement.Order.{ProcurementOrder, find_order}
use blockchain_based_e_procu.World.{World, Platform}

pub record SubmitInvoiceInput : Type 0 where
  pub order_id : Option String
  pub delivery_evidence_id : Option String
  pub amount : Option String
  pub tax : Option String
  pub currency : Option String
  pub invoice_reference : Option String
  pub invoice_hash : Option String
  pub actor : Actor
  pub request_id : String

-- The values that the tests have established.
pub record NewInvoice : Type 0 where
  pub order : ProcurementOrder
  pub delivery_evidence_id : Option String
  pub amount : String
  pub tax : Option String
  pub currency : String
  pub invoice_reference : Option String
  pub invoice_hash : Option String
  pub user : String

-- `normalizeHash`
unfoldable pub normalize_hash : String → String
unfolding to_lower_case trim starts_with
normalize_hash value =
    if starts_with (to_lower_case (trim value)) "sha256:"
    then to_lower_case (trim value)
    else "sha256:" <> to_lower_case (trim value)

-- `isHash`; the pattern does not tell the case of letters.
unfoldable pub is_invoice_hash : Option String → Bool
unfolding to_lower_case trim is_hash is_prefixed_hash
is_invoice_hash none = true
is_invoice_hash (some s) =
    is_prefixed_hash (to_lower_case (trim s)) || is_hash (to_lower_case (trim s))

-- `trimOptional(input.currency)?.toUpperCase()`
abbrev pub upper_currency : Platform → Option String → Option String
upper_currency p currency = Option.map p.upper_case (trim_optional currency)

unfoldable pub invoice_issues : Platform → SubmitInvoiceInput → List Issue
unfolding trim_optional is_invoice_hash
invoice_issues p i =
    missing (trim_optional i.order_id) "orderId" "Order is required"
    ++ (missing (trim_optional i.amount) "amount" "Invoice amount is required"
        ++ (when (not (truthy (upper_currency p i.currency)))
              (issue "currency" "Currency is required")
            ++ (when
                  (not (is_some (trim_optional i.invoice_reference))
                    && not (is_some (trim_optional i.invoice_hash)))
                  (issue "invoiceReference" "Invoice reference or invoice hash is required")
                ++ when (not (is_invoice_hash (trim_optional i.invoice_hash))) (
                    issue "invoiceHash"
                      "Invoice hash must be a SHA-256 hex value with optional sha256: prefix"))))

is_evidence_of : String → Option DeliveryEvidenceRecord → Bool
is_evidence_of order_id none = false
is_evidence_of order_id (some r) = r.order_id =s order_id

-- `if (deliveryEvidenceId) { … }`: the evidence is there and belongs to the order
evidence_found : Option String → String → World → Bool
unfolding find_evidence is_evidence_of
evidence_found none order_id w = true
evidence_found (some id) order_id w = is_evidence_of order_id (find_evidence id w.evidence)

-- The tests before the clock is read.
unfoldable pub check_invoice :
    Platform → SubmitInvoiceInput → World → Guard InvoiceResult NewInvoice
unfolding known_actor can_submit_invoice invoice_issues trim_optional find_order evidence_found
check_invoice p i w = do
  actor ← need (known_actor i.actor) unauthorized
  refuse_if (not (can_submit_invoice i.actor)) (forbidden "supplierRoleRequired")
  refuse_if (not (is_empty (invoice_issues p i))) (invalid_input (invoice_issues p i))
  order ←
      need (find_order (as_string (trim_optional i.order_id)) w.orders) (not_found "orderNotFound")
  refuse_if (not (order.supplier_organization_id =s actor.organization))
      (forbidden "supplierOrganizationMismatch")
  refuse_if (not (is_accepted order.status)) (conflict "orderMustBeAccepted")
  refuse_if (not (evidence_found (trim_optional i.delivery_evidence_id) order.order_id w))
      (not_found "deliveryEvidenceNotFound")
  pass (record {
    order = order;
    delivery_evidence_id = trim_optional i.delivery_evidence_id;
    amount = as_string (trim_optional i.amount);
    tax = trim_optional i.tax;
    currency = as_string (upper_currency p i.currency);
    invoice_reference = trim_optional i.invoice_reference;
    invoice_hash = trim_optional i.invoice_hash;
    user = actor.user;
  })
