-- ===== src/Procurement/Invoicing/Review.antt =====
-- application/invoice-service.ts: the tests of `verifyInvoiceMatch` and `approveInvoicePayment`
-- before the first write.
use blockchain_based_e_procu.Prelude.{
  String, Bool, true, false, not, List, [], ◌∷◌, ◌++◌, Option, none, some, find, is_some, is_empty,
  when, if◌then◌else◌,
}
use blockchain_based_e_procu.Prelude.Text.{◌=s◌, truthy, eq_optional}
use blockchain_based_e_procu.Prelude.Guard.{Guard, pass, refuse_if, need, ◌>>=◌, ◌>>◌}
use blockchain_based_e_procu.Procurement.Actor.{Actor, known_actor}
use blockchain_based_e_procu.Procurement.Delivery.{is_accepted}
use blockchain_based_e_procu.Procurement.Evidence.{DeliveryEvidenceRecord, list_evidence}
use blockchain_based_e_procu.Procurement.Invoice.{
  ProcurementInvoice, InvoiceStatus, match_passed, find_invoice,
}
use blockchain_based_e_procu.Procurement.Invoicing.{
  InvoiceResult, unauthorized, forbidden, not_found, conflict, can_review_invoice,
}
use blockchain_based_e_procu.Procurement.Order.{ProcurementOrder, find_order}
use blockchain_based_e_procu.World.{World, Platform}

-- What a match compares.
pub record Match : Type 0 where
  pub user : String
  pub invoice : ProcurementInvoice
  pub order : ProcurementOrder
  pub evidence : Option DeliveryEvidenceRecord

-- `records[0]`
unfoldable pub first : List DeliveryEvidenceRecord → Option DeliveryEvidenceRecord
first [] = none
first (r ∷ records) = some r

-- The evidence that the invoice names, or else the first of the order.
unfoldable pub evidence_of :
    Option String → List DeliveryEvidenceRecord → Option DeliveryEvidenceRecord
unfolding first
evidence_of id records =
    if truthy id then find (λ r. eq_optional (some r.evidence_id) id) records else first records

-- The tests of `verifyInvoiceMatch`, with the values that it compares.
unfoldable pub check_match : Platform → String → Actor → World → Guard InvoiceResult Match
unfolding known_actor find_invoice can_review_invoice find_order evidence_of list_evidence
check_match p id a w = do
  actor ← need (known_actor a) unauthorized
  invoice ← need (find_invoice id w.invoices) (not_found "invoiceNotFound")
  refuse_if (not (can_review_invoice a invoice)) (forbidden "buyerOrFinancierRequired")
  order ← need (find_order invoice.order_id w.orders) (not_found "orderNotFound")
  pass (record {
    user = actor.user;
    invoice = invoice;
    order = order;
    evidence =
        evidence_of invoice.delivery_evidence_id
          (list_evidence p.locale_le invoice.order_id w.evidence);
  })

-- The issues of a match.
unfoldable pub match_issues : Match → List String
match_issues m =
    when (not (m.order.amount =s m.invoice.amount)) "amountMismatch"
    ++ (when (not (m.order.currency =s m.invoice.currency)) "currencyMismatch"
        ++ (when (not (is_some m.evidence)) "deliveryEvidenceMissing"
            ++ when (not (is_accepted m.order.status)) "orderNotAccepted"))

-- `issues.length === 0`
abbrev pub passes : Match → Bool
passes m = is_empty (match_issues m)

pub record Approval : Type 0 where
  pub user : String
  pub invoice : ProcurementInvoice

-- `status === 'matchPassed'`
unfoldable pub is_match_passed : InvoiceStatus → Bool
is_match_passed match_passed = true
is_match_passed _ = false

-- The tests of `approveInvoicePayment`.
unfoldable pub check_approval : String → Actor → World → Guard InvoiceResult Approval
unfolding known_actor find_invoice can_review_invoice is_match_passed
check_approval id a w = do
  actor ← need (known_actor a) unauthorized
  invoice ← need (find_invoice id w.invoices) (not_found "invoiceNotFound")
  refuse_if (not (can_review_invoice a invoice)) (forbidden "buyerOrFinancierRequired")
  refuse_if (not (is_match_passed invoice.status)) (conflict "matchMustPassBeforePaymentApproval")
  pass (record { user = actor.user; invoice = invoice })
