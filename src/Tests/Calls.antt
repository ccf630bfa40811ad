-- ===== src/Tests/Calls.antt =====
-- Single calls of the services, and their results.
use blockchain_based_e_procu.Prelude.{
  String, Bool, true, false, List, [], ◌∷◌, Option, none, some, ◌≡◌, ◌≢◌, ◌≤◌, ◌+◌, ◌*◌, refl, All,
  Option-cases, inl, inr, Pairwise, is_some, arith, ◌↔◌,
}
use blockchain_based_e_procu.Prelude.Text.{trim_optional}
use blockchain_based_e_procu.Prelude.Store
use blockchain_based_e_procu.Prelude.Effect.{ok}
use blockchain_based_e_procu.Procurement.Actor.{as_string}
use blockchain_based_e_procu.Procurement.Invoice.{submitted, not_checked}
use blockchain_based_e_procu.Procurement.Invoicing.{invoice_list, can_read_invoice}
use blockchain_based_e_procu.Procurement.Invoicing.Reading.{list_invoices}
use blockchain_based_e_procu.Procurement.Invoicing.Review.{Match}
use blockchain_based_e_procu.Procurement.Invoicing.Visible.{list_invoices-readable}
use blockchain_based_e_procu.Procurement.Order.{ProcurementOrder, created, accepted, find_order}
use blockchain_based_e_procu.Procurement.Ordering.Acknowledge.{
  AcknowledgeInput, AcknowledgeResult, Acknowledgement, acknowledged, accept,
}
use blockchain_based_e_procu.Procurement.Ordering.Acknowledge.Effect.{
  status_of, IsDecisionOn, acknowledge_order-decides, acknowledge_order-settled,
}
use blockchain_based_e_procu.Procurement.Ordering.Acknowledge.Granted.{Granted}
use blockchain_based_e_procu.Procurement.Ordering.Acknowledge.Write.{acknowledge_order}
use blockchain_based_e_procu.World.{World, Platform}
use blockchain_based_e_procu.Procurement.Invoicing.Matching.{Agrees, IsReview, verify_match-decides}
use blockchain_based_e_procu.Procurement.Invoicing.Reviewing.{verify_match}
use blockchain_based_e_procu.Procurement.Invoicing.{invoice_ok}
use blockchain_based_e_procu.Procurement.Invoice.{
  ProcurementInvoice, match_passed, passed, find_invoice,
}
use blockchain_based_e_procu.Tests.Data.{platform, order, evidence, empty_world}
use blockchain_based_e_procu.Tests.Start.{buyer, blank_world}
use blockchain_based_e_procu.Tests.Purchasing.{acceptance}

-- A new order, and its acceptance.
abbrev new_paper : ProcurementOrder
new_paper = record order { status = created; accepted_by = none; accepted_at = none }

abbrev new_world : World
new_world = record blank_world { orders = new_paper ∷ [] }

abbrev yes_to_paper : AcknowledgeInput
yes_to_paper = record acceptance { order_id = some "o1" }

abbrev accepted_paper : ProcurementOrder
accepted_paper = record new_paper {
  status = accepted;
  updated_at = "2026-06-01T00:00:00.000Z";
  accepted_by = some "u2";
  accepted_at = some "2026-06-01T00:00:00.000Z";
}

abbrev accepted_world : World
accepted_world = record blank_world { ticks = 1; orders = accepted_paper ∷ [] }

accepts :
    acknowledge_order platform false yes_to_paper new_world
    ≡ (ok (acknowledged accepted_paper), accepted_world)
unfolding blockchain_based_e_procu.World.save_order
    blockchain_based_e_procu.Procurement.Ordering.Acknowledge.Write.acknowledged_input
    blockchain_based_e_procu.Procurement.Ordering.Acknowledge.Write.updated_order
    blockchain_based_e_procu.Procurement.Ordering.Acknowledge.Write.acknowledge_order
    blockchain_based_e_procu.Lifecycle.Source.record_event
    blockchain_based_e_procu.Lifecycle.Source.record_source_event
    blockchain_based_e_procu.Prelude.Store.get blockchain_based_e_procu.Prelude.Store.put
accepts = refl

acknowledge_order-decides_example :
    (a : Acknowledgement) × Granted yes_to_paper new_world a
    × (find_order (as_string (trim_optional (some "o1"))) new_world.orders ≡ some a.order)
    × IsDecisionOn a.order accepted_paper
    × (some accept ≡ some a.decision)
    × (accepted ≡ status_of a.decision)
    × (find_order "o1" accepted_world.orders ≡ some accepted_paper)
acknowledge_order-decides_example =
    acknowledge_order-decides platform false yes_to_paper new_world accepted_paper accepted_world
      accepts

finds_accepted :
    find_order (as_string (trim_optional (some "o1"))) accepted_world.orders ≡ some accepted_paper
unfolding trim_optional find_order Store.get
finds_accepted = refl

acknowledge_order-settled_example :
    (acknowledge_order platform true yes_to_paper accepted_world).1 ≡ accepted_world
acknowledge_order-settled_example =
    acknowledge_order-settled platform true yes_to_paper accepted_world accepted_paper
      finds_accepted (λ same. cc same)

abbrev pub match : String → Match
match amount = record {
  user = "u1";
  invoice = record {
    invoice_id = "i1";
    order_id = "o1";
    delivery_evidence_id = none;
    supplier_organization_id = "s";
    buyer_organization_id = "b";
    submitted_by_user_id = "u2";
    amount = amount;
    tax = none;
    currency = "MYR";
    invoice_reference = some "r";
    invoice_hash = "h";
    status = submitted;
    match_result = record {
      status = not_checked;
      checked_at = none;
      checked_by_user_id = none;
      issues = [];
      order_amount = none;
      invoice_amount = none;
      delivery_evidence_id = none;
    };
    submitted_at = "t";
    updated_at = "t";
    payment_approved_by_user_id = none;
    payment_approved_at = none;
    lifecycle_event_ids = [];
    latest_lifecycle_payload_hash = none;
  };
  order = order;
  evidence = some evidence;
}

abbrev invoiced_world : World
invoiced_world = record empty_world { invoices = (match "10.00").invoice ∷ [] }

-- The match of the invoice.
abbrev matched : ProcurementInvoice
matched = record ((match "10.00").invoice) {
  status = match_passed;
  updated_at = "2026-06-01T00:00:00.000Z";
  match_result = record {
    status = passed;
    checked_at = some "2026-06-01T00:00:00.000Z";
    checked_by_user_id = some "u1";
    issues = [];
    order_amount = some "10.00";
    invoice_amount = some "10.00";
    delivery_evidence_id = some "d1";
  };
}

abbrev matched_world : World
matched_world = record invoiced_world { ticks = 1; invoices = matched ∷ [] }

matches :
    verify_match platform false "i1" buyer "req" invoiced_world
    ≡ (ok (invoice_ok matched), matched_world)
unfolding verify_match blockchain_based_e_procu.World.save_invoice
    blockchain_based_e_procu.Procurement.Invoicing.append_invoice_event
    blockchain_based_e_procu.Lifecycle.Source.record_event
    blockchain_based_e_procu.Lifecycle.Source.record_source_event
    blockchain_based_e_procu.Procurement.Invoicing.invoice_event_input
    blockchain_based_e_procu.Procurement.Invoicing.invoice_after
    blockchain_based_e_procu.Procurement.Invoicing.Reviewing.matched_invoice
    blockchain_based_e_procu.Procurement.Invoicing.Reviewing.match_metadata
    blockchain_based_e_procu.Prelude.Store.get blockchain_based_e_procu.Prelude.Store.put
matches = refl

verify_match-decides_example :
    (m : Match) × IsReview platform "i1" buyer invoiced_world m
    × ("i1" ≡ m.invoice.invoice_id)
    × (find_invoice "i1" matched_world.invoices ≡ some matched)
    × ((matched.status ≡ match_passed) ↔ Agrees m)
verify_match-decides_example =
    verify_match-decides platform false "i1" buyer "req" invoiced_world matched matched_world
      matches

lists_invoice : list_invoices buyer invoiced_world ≡ invoice_list ((match "10.00").invoice ∷ [])
unfolding list_invoices
lists_invoice = refl

list_invoices-readable_example :
    All (λ i. can_read_invoice buyer i ≡ true) ((match "10.00").invoice ∷ [])
list_invoices-readable_example =
    list_invoices-readable buyer invoiced_world ((match "10.00").invoice ∷ []) lists_invoice
