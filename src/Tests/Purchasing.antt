-- ===== src/Tests/Purchasing.antt =====
-- From an order to its payment.
use mathlib.Core.List.{Memᴰ}
use blockchain_based_e_procu.Prelude.{
  String, Bool, true, false, List, [], ◌∷◌, Option, none, some, ◌≡◌, ◌≢◌, ◌≤◌, ◌+◌, ◌*◌, refl, All,
  Option-cases, inl, inr, Pairwise, is_some, arith, ◌↔◌,
}
use blockchain_based_e_procu.Prelude.Store
use blockchain_based_e_procu.Procurement.Books.{Passed}
use blockchain_based_e_procu.Procurement.Delivery.{SubmitEvidenceInput, is_accepted}
use blockchain_based_e_procu.Procurement.Invoice.{ProcurementInvoice, payment_approved}
use blockchain_based_e_procu.Procurement.Invoicing.{invoice_list, can_read_invoice}
use blockchain_based_e_procu.Procurement.Invoicing.Submit.{SubmitInvoiceInput}
use blockchain_based_e_procu.Procurement.Ordering.Acknowledge.{
  AcknowledgeInput, AcknowledgeResult, Acknowledgement, acknowledged, accept,
}
use blockchain_based_e_procu.Procurement.Ordering.Acknowledge.Write.{acknowledge_order}
use blockchain_based_e_procu.Procurement.Ordering.Create.{CreateOrderInput, OrderDependencies}
use blockchain_based_e_procu.World.{World, Platform}
use blockchain_based_e_procu.Consistency.{IsConsistent}
use blockchain_based_e_procu.System.{
  Operation, run, order_creation, order_acknowledgement, evidence_submission, invoice_submission,
  invoice_match, payment_approval, requisition_creation, requisition_approval, rfq_issue,
  quotation_submission, rfq_award, escrow_creation,
}
use blockchain_based_e_procu.System.Reached.{run-IsConsistent, paid-Passed}
use blockchain_based_e_procu.Tests.Data.{platform, creation, dependencies}
use blockchain_based_e_procu.Tests.Start.{buyer, supplier, blank_world, blank, with_log}

abbrev paper : CreateOrderInput
paper = record {
  supplier_organization_id = some " s ";
  title = some "paper";
  description = none;
  amount = some "10.00";
  currency = some "MYR";
  actor = buyer;
  request_id = "r1";
}

abbrev pub acceptance : AcknowledgeInput
acceptance = record {
  order_id = some "order_0";
  decision = some accept;
  actor = supplier;
  request_id = "r2";
}

abbrev receipt : SubmitEvidenceInput
receipt = record {
  order_id = some "order_0";
  evidence_type = some "deliveryNote";
  evidence_reference = some "ref";
  evidence_hash = none;
  notes = none;
  actor = supplier;
  lifecycle_source_action = none;
  request_id = "r3";
}

abbrev bill : SubmitInvoiceInput
bill = record {
  order_id = some "order_0";
  delivery_evidence_id = none;
  amount = some "10.00";
  tax = none;
  currency = some "MYR";
  invoice_reference = some "i1";
  invoice_hash = none;
  actor = supplier;
  request_id = "r4";
}

-- An order, its acceptance, the delivery, the invoice, its match and the approval of its payment.
abbrev purchase : Bool → List Operation
purchase log =
    order_creation (with_log log) paper
    ∷ order_acknowledgement log acceptance
    ∷ evidence_submission log (record { gateway = none; metadata_repository = none }) receipt
    ∷ invoice_submission log bill
    ∷ invoice_match log "invoice_2" buyer "r5"
    ∷ payment_approval log "invoice_2" buyer "r6"
    ∷ []

run-IsConsistent_example :
    IsConsistent
      (run platform (escrow_creation (dependencies true) creation ∷ purchase true) blank_world)
run-IsConsistent_example =
    run-IsConsistent platform (escrow_creation (dependencies true) creation ∷ purchase true)
      blank_world blank

abbrev is_paid : List ProcurementInvoice → Bool
is_paid [] = false
is_paid (i ∷ invoices) = elim (i.status) [ payment_approved ↦ true | _ ↦ false ]

first_paid :
    (l : List ProcurementInvoice)
    → is_paid l ≡ true
    → (i : ProcurementInvoice) × Memᴰ i l × (i.status ≡ payment_approved)
first_paid [] h = absurd (cc h)
first_paid (i ∷ l) h = (i, Memᴰ.head refl, ground arith)

-- The invoice of the purchase has been paid.
purchase_pays : is_paid (run platform (purchase false) blank_world).invoices ≡ true
unfolding blockchain_based_e_procu.World.save_order blockchain_based_e_procu.World.save_evidence
    blockchain_based_e_procu.World.save_invoice blockchain_based_e_procu.System.run
    blockchain_based_e_procu.Procurement.Invoicing.invoice_event_input
    blockchain_based_e_procu.Procurement.Invoicing.invoice_after
    blockchain_based_e_procu.Procurement.Invoicing.append_invoice_event
    blockchain_based_e_procu.Procurement.Ordering.Acknowledge.Write.acknowledged_input
    blockchain_based_e_procu.Procurement.Ordering.Acknowledge.Write.updated_order
    blockchain_based_e_procu.Procurement.Ordering.Acknowledge.Write.acknowledge_order
    blockchain_based_e_procu.Procurement.Ordering.Create.Write.new_order
    blockchain_based_e_procu.Procurement.Ordering.Create.Write.order_created_input
    blockchain_based_e_procu.Procurement.Ordering.Create.Write.order_after
    blockchain_based_e_procu.Procurement.Ordering.Create.Write.create_order
    blockchain_based_e_procu.Procurement.Delivery.Submit.evidence_event_input
    blockchain_based_e_procu.Procurement.Delivery.Submit.final_evidence
    blockchain_based_e_procu.Procurement.Delivery.Submit.submit_evidence
    blockchain_based_e_procu.Procurement.Invoicing.Reviewing.matched_invoice
    blockchain_based_e_procu.Procurement.Invoicing.Reviewing.approved_invoice
    blockchain_based_e_procu.Procurement.Invoicing.Reviewing.verify_match
    blockchain_based_e_procu.Procurement.Invoicing.Reviewing.approve_payment
    blockchain_based_e_procu.Procurement.Invoicing.Submitting.new_invoice
    blockchain_based_e_procu.Procurement.Invoicing.Submitting.issue_invoice
    blockchain_based_e_procu.Procurement.Invoicing.Submitting.submit_invoice
    blockchain_based_e_procu.Lifecycle.Source.record_event
    blockchain_based_e_procu.Lifecycle.Source.record_source_event
    blockchain_based_e_procu.Prelude.Store.get blockchain_based_e_procu.Prelude.Store.put
    blockchain_based_e_procu.Prelude.Decimal.show
    blockchain_based_e_procu.Escrow.Transition.anchor_recorded
purchase_pays = refl

abbrev paid_invoice :
    (i : ProcurementInvoice) × Memᴰ i (run platform (purchase false) blank_world).invoices
    × (i.status ≡ payment_approved)
paid_invoice = first_paid (run platform (purchase false) blank_world).invoices purchase_pays

paid-Passed_example :
    Passed paid_invoice.0
    × (is_some paid_invoice.0.payment_approved_by_user_id ≡ true)
    × (is_some paid_invoice.0.payment_approved_at ≡ true)
paid-Passed_example =
    paid-Passed platform (purchase false) blank_world blank paid_invoice.0 paid_invoice.1
      paid_invoice.2
