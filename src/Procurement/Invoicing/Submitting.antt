-- ===== src/Procurement/Invoicing/Submitting.antt =====
-- application/invoice-service.ts: the writes of `submitInvoice`, and the whole operation.
use blockchain_based_e_procu.Prelude.{String, Bool, [], Option, none, some}
use blockchain_based_e_procu.Prelude.Text.{◌<>◌}
use blockchain_based_e_procu.Prelude.Effect.{pure, ◌>>=◌}
use blockchain_based_e_procu.Prelude.Guard.{decide}
use blockchain_based_e_procu.Json.{Json, str, obj, end, field}
use blockchain_based_e_procu.Lifecycle.Builder.{text_or_undefined}
use blockchain_based_e_procu.Lifecycle.Source.{invoice_issued}
use blockchain_based_e_procu.Procurement.Invoice.{
  ProcurementInvoice, submitted, not_checked, find_by_invoice_hash,
}
use blockchain_based_e_procu.Procurement.Invoicing.{
  InvoiceResult, invoice_ok, conflict, append_invoice_event,
}
use blockchain_based_e_procu.Procurement.Invoicing.Submit.{
  SubmitInvoiceInput, NewInvoice, normalize_hash, check_invoice,
}
use blockchain_based_e_procu.World.{App, Platform, read_clock, draw_id, save_invoice}

-- `buildInvoiceHash`
unfoldable pub build_invoice_hash : Platform → NewInvoice → String → String
build_invoice_hash p n submitted_at =
    "sha256:"
    <> p.sha256 (
        p.stringify (
          obj (
            field "orderId" (str n.order.order_id) (
              field "deliveryEvidenceId" (text_or_undefined n.delivery_evidence_id) (
                field "supplierOrganizationId" (str n.order.supplier_organization_id) (
                  field "buyerOrganizationId" (str n.order.buyer_organization_id) (
                    field "amount" (str n.amount) (
                      field "tax" (text_or_undefined n.tax) (
                        field "currency" (str n.currency) (
                          field "invoiceReference" (text_or_undefined n.invoice_reference)
                            (field "submittedAt" (str submitted_at) end)))))))))))

-- `normalizedHash`
unfoldable pub hash_of : Platform → NewInvoice → Option String → String → String
unfolding normalize_hash build_invoice_hash
hash_of p n none submitted_at = build_invoice_hash p n submitted_at
hash_of p n (some hash) submitted_at = normalize_hash hash

-- The record before the event.
unfoldable pub new_invoice : NewInvoice → String → String → String → ProcurementInvoice
new_invoice n id hash submitted_at = record {
  invoice_id = id;
  order_id = n.order.order_id;
  delivery_evidence_id = n.delivery_evidence_id;
  supplier_organization_id = n.order.supplier_organization_id;
  buyer_organization_id = n.order.buyer_organization_id;
  submitted_by_user_id = n.user;
  amount = n.amount;
  tax = n.tax;
  currency = n.currency;
  invoice_reference = n.invoice_reference;
  invoice_hash = hash;
  status = submitted;
  match_result = record {
    status = not_checked;
    checked_at = none;
    checked_by_user_id = none;
    issues = [];
    order_amount = none;
    invoice_amount = none;
    delivery_evidence_id = none;
  };
  submitted_at = submitted_at;
  updated_at = submitted_at;
  payment_approved_by_user_id = none;
  payment_approved_at = none;
  lifecycle_event_ids = [];
  latest_lifecycle_payload_hash = none;
}

unfoldable pub issued_metadata : NewInvoice → String → Json
issued_metadata n hash = obj (
    field "orderId" (str n.order.order_id) (
      field "deliveryEvidenceId" (text_or_undefined n.delivery_evidence_id) (
        field "invoiceHash" (str hash)
          (field "amount" (str n.amount) (field "currency" (str n.currency) end)))))

module _ (p : Platform) (lifecycle : Bool) (request : String) where
  -- Where no stored invoice has the hash.
  unfoldable pub issue_invoice : NewInvoice → String → String → App InvoiceResult
  unfolding draw_id
  issue_invoice n hash submitted_at = do
    id ← draw_id p
    invoice ←
        append_invoice_event p lifecycle (new_invoice n ("invoice_" <> id) hash submitted_at)
          invoice_issued n.user request (issued_metadata n hash)
    saved ← save_invoice invoice
    pure (invoice_ok saved)

  -- `if (existing) return …`
  unfoldable pub unless_existing :
      Option ProcurementInvoice → NewInvoice → String → String → App InvoiceResult
  unless_existing none n hash submitted_at = issue_invoice n hash submitted_at
  unless_existing (some existing) n hash submitted_at = pure (conflict "duplicateInvoiceHash")

  -- What follows the tests.
  unfoldable pub write_invoice : NewInvoice → App InvoiceResult
  unfolding read_clock hash_of unless_existing find_by_invoice_hash
  write_invoice n = do
    submitted_at ← read_clock p
    λ w.
        unless_existing (find_by_invoice_hash (hash_of p n n.invoice_hash submitted_at) w.invoices)
          n (hash_of p n n.invoice_hash submitted_at) submitted_at w

-- `submitInvoice`
unfoldable pub submit_invoice : Platform → Bool → SubmitInvoiceInput → App InvoiceResult
unfolding check_invoice write_invoice
submit_invoice p lifecycle i w =
    decide (check_invoice p i w) (write_invoice p lifecycle i.request_id) w
