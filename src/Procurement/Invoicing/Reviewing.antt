-- ===== src/Procurement/Invoicing/Reviewing.antt =====
-- application/invoice-service.ts: the writes of `verifyInvoiceMatch` and `approveInvoicePayment`, and
-- the whole operations.
use mathlib.Core.Option
use blockchain_based_e_procu.Prelude.{String, Bool, List, [], ◌∷◌, some, if◌then◌else◌}
use blockchain_based_e_procu.Prelude.Effect.{pure, ◌>>=◌}
use blockchain_based_e_procu.Prelude.Guard.{decide}
use blockchain_based_e_procu.Json.{Json, Items, str, arr, nil, cons, obj, end, field}
use blockchain_based_e_procu.Lifecycle.Source.{
  SourceAction, invoice_match_passed, invoice_match_failed, invoice_payment_approved,
}
use blockchain_based_e_procu.Procurement.Actor.{Actor}
use blockchain_based_e_procu.Procurement.Evidence.{DeliveryEvidenceRecord}
use blockchain_based_e_procu.Procurement.Invoice.{
  ProcurementInvoice, match_passed, match_failed, payment_approved, passed, failed,
}
use blockchain_based_e_procu.Procurement.Invoicing.{InvoiceResult, invoice_ok, append_invoice_event}
use blockchain_based_e_procu.Procurement.Invoicing.Review.{
  Match, match_issues, passes, check_match, Approval, check_approval,
}
use blockchain_based_e_procu.World.{App, Platform, read_clock, save_invoice}

-- `nextInvoice` of `verifyInvoiceMatch`
unfoldable pub matched_invoice : Match → String → ProcurementInvoice
unfolding match_issues
matched_invoice m checked_at = record (m.invoice) {
  status = if passes m then match_passed else match_failed;
  updated_at = checked_at;
  match_result = record {
    status = if passes m then passed else failed;
    checked_at = some checked_at;
    checked_by_user_id = some m.user;
    issues = match_issues m;
    order_amount = some m.order.amount;
    invoice_amount = some m.invoice.amount;
    delivery_evidence_id = Option.map (λ (r : DeliveryEvidenceRecord). r.evidence_id) m.evidence;
  };
}

strings : List String → Items
strings [] = nil
strings (s ∷ ss) = cons (str s) (strings ss)

unfoldable pub match_metadata : Match → String → Json
unfolding match_issues strings
match_metadata m id = obj (
    field "orderId" (str m.invoice.order_id) (
      field "invoiceId" (str id) (
        field "matchStatus" (str (if passes m then "passed" else "failed"))
          (field "issues" (arr (strings (match_issues m))) end))))

abbrev match_action : Match → SourceAction
match_action m = if passes m then invoice_match_passed else invoice_match_failed

-- `nextInvoice` of `approveInvoicePayment`
unfoldable pub approved_invoice : Approval → String → ProcurementInvoice
approved_invoice a approved_at = record (a.invoice) {
  status = payment_approved;
  payment_approved_by_user_id = some a.user;
  payment_approved_at = some approved_at;
  updated_at = approved_at;
}

unfoldable pub approval_metadata : Approval → String → Json
approval_metadata a id = obj (
    field "orderId" (str a.invoice.order_id)
      (field "invoiceId" (str id) (field "readiness" (str "sandboxPaymentInstructionReady") end)))

module _ (p : Platform) (lifecycle : Bool) (id : String) (a : Actor) (request : String) where
  -- What follows the tests of `verifyInvoiceMatch`.
  unfoldable pub write_match : Match → App InvoiceResult
  unfolding read_clock
  write_match m = do
    checked_at ← read_clock p
    invoice ←
        append_invoice_event p lifecycle (matched_invoice m checked_at) (match_action m) m.user
          request (match_metadata m id)
    saved ← save_invoice invoice
    pure (invoice_ok saved)

  -- `verifyInvoiceMatch`
  unfoldable pub verify_match : App InvoiceResult
  unfolding check_match write_match
  verify_match w = decide (check_match p id a w) write_match w

  -- What follows the tests of `approveInvoicePayment`.
  unfoldable pub write_approval : Approval → App InvoiceResult
  unfolding read_clock
  write_approval g = do
    approved_at ← read_clock p
    invoice ←
        append_invoice_event p lifecycle (approved_invoice g approved_at) invoice_payment_approved
          g.user request (approval_metadata g id)
    saved ← save_invoice invoice
    pure (invoice_ok saved)

  -- `approveInvoicePayment`
  unfoldable pub approve_payment : App InvoiceResult
  unfolding check_approval write_approval
  approve_payment w = decide (check_approval id a w) write_approval w
