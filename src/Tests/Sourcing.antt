-- ===== src/Tests/Sourcing.antt =====
-- From a requisition to an order.
use mathlib.Core.List.{Memᴰ}
use blockchain_based_e_procu.Prelude.{
  String, Bool, true, false, List, [], ◌∷◌, Option, none, some, ◌≡◌, ◌≢◌, ◌≤◌, ◌+◌, ◌*◌, refl, All,
  Option-cases, inl, inr, Pairwise, is_some, arith, ◌↔◌,
}
use blockchain_based_e_procu.Prelude.Store
use blockchain_based_e_procu.Procurement.Books.{OtherSupplier, IsInvited, HasParts}
use blockchain_based_e_procu.Procurement.Order.{find_order}
use blockchain_based_e_procu.Procurement.Ordering.Create.{CreateOrderInput, OrderDependencies}
use blockchain_based_e_procu.Procurement.SourceCase.{SourceToAwardCase}
use blockchain_based_e_procu.Procurement.Sourcing.{
  RequisitionInput, ApproveInput, RfqInput, QuotationInput, AwardInput, whole,
}
use blockchain_based_e_procu.World.{World, Platform}
use blockchain_based_e_procu.System.{
  Operation, run, order_creation, order_acknowledgement, evidence_submission, invoice_submission,
  invoice_match, payment_approval, requisition_creation, requisition_approval, rfq_issue,
  quotation_submission, rfq_award, escrow_creation,
}
use blockchain_based_e_procu.System.Reached.{case-HasParts, generated-stored}
use blockchain_based_e_procu.Tests.Data.{platform}
use blockchain_based_e_procu.Tests.Start.{buyer, supplier, blank_world, blank, with_log}

abbrev requisition : RequisitionInput
requisition = record {
  title = some "paper";
  description = none;
  estimated_amount = some "12.00";
  currency = some "MYR";
  actor = buyer;
  request_id = "r1";
}

abbrev approval : ApproveInput
approval = record { requisition_id = some "req_1"; actor = buyer; request_id = "r2" }

abbrev call_for_quotations : RfqInput
call_for_quotations = record {
  requisition_id = some "req_1";
  supplier_organization_ids = some (" s " ∷ "s" ∷ "t" ∷ []);
  response_deadline = none;
  actor = buyer;
  request_id = "r3";
}

abbrev offer : QuotationInput
offer = record {
  rfq_id = some "rfq_2";
  amount = some "11.00";
  currency = some "MYR";
  delivery_days = some (whole 3);
  notes = none;
  actor = supplier;
  request_id = "r4";
}

abbrev choice : AwardInput
choice = record {
  rfq_id = some "rfq_2";
  quotation_id = some "quote_3";
  rationale = none;
  actor = buyer;
  request_id = "r5";
}

-- From the requisition to the order.
abbrev sourcing : Bool → List Operation
sourcing log =
    requisition_creation log requisition
    ∷ requisition_approval log approval
    ∷ rfq_issue log call_for_quotations
    ∷ quotation_submission log offer
    ∷ rfq_award (with_log log) choice
    ∷ []

abbrev is_generated : List SourceToAwardCase → Bool
is_generated [] = false
is_generated (c ∷ cases) = is_some c.generated_order_id

first_generated :
    (l : List SourceToAwardCase)
    → is_generated l ≡ true
    → (c : SourceToAwardCase) × (id : String) × Memᴰ c l × (c.generated_order_id ≡ some id)
first_generated [] h = absurd (cc h)
first_generated (c ∷ l) h = elim (Option-cases c.generated_order_id) [
  | inl none_there ↦ absurd (ground arith)
  | inr (id, same) ↦ (c, id, Memᴰ.head refl, same)
]

-- The case has generated an order.
sourcing_generates : is_generated (run platform (sourcing false) blank_world).cases ≡ true
unfolding blockchain_based_e_procu.World.save_order blockchain_based_e_procu.World.save_case
    blockchain_based_e_procu.System.run
    blockchain_based_e_procu.Procurement.Sourcing.source_event_input
    blockchain_based_e_procu.Procurement.Sourcing.case_after
    blockchain_based_e_procu.Procurement.Sourcing.append_source_event
    blockchain_based_e_procu.Procurement.Ordering.Create.Write.new_order
    blockchain_based_e_procu.Procurement.Ordering.Create.Write.order_created_input
    blockchain_based_e_procu.Procurement.Ordering.Create.Write.order_after
    blockchain_based_e_procu.Procurement.Ordering.Create.Write.create_order
    blockchain_based_e_procu.Procurement.Sourcing.Awarding.awarded_case
    blockchain_based_e_procu.Procurement.Sourcing.Awarding.order_input
    blockchain_based_e_procu.Procurement.Sourcing.Awarding.completed_case
    blockchain_based_e_procu.Procurement.Sourcing.Awarding.award_rfq
    blockchain_based_e_procu.Procurement.Sourcing.Writes.new_case
    blockchain_based_e_procu.Procurement.Sourcing.Writes.approved_case
    blockchain_based_e_procu.Procurement.Sourcing.Writes.rfq_case
    blockchain_based_e_procu.Procurement.Sourcing.Writes.new_quotation
    blockchain_based_e_procu.Procurement.Sourcing.Writes.quoted_case
    blockchain_based_e_procu.Procurement.Sourcing.Writes.create_requisition
    blockchain_based_e_procu.Procurement.Sourcing.Writes.approve_requisition
    blockchain_based_e_procu.Procurement.Sourcing.Writes.issue_rfq
    blockchain_based_e_procu.Procurement.Sourcing.Writes.submit_quotation
    blockchain_based_e_procu.Lifecycle.Source.record_event
    blockchain_based_e_procu.Lifecycle.Source.record_source_event
    blockchain_based_e_procu.Prelude.Store.put blockchain_based_e_procu.Prelude.Decimal.show
sourcing_generates = refl

abbrev generated_case :
    (c : SourceToAwardCase) × (id : String) × Memᴰ c
      (run platform (sourcing false) blank_world).cases
    × (c.generated_order_id ≡ some id)
generated_case =
    first_generated (run platform (sourcing false) blank_world).cases sourcing_generates

case-HasParts_example :
    HasParts generated_case.0.status generated_case.0.rfq generated_case.0.quotations
      generated_case.0.award generated_case.0.generated_order_id
    × Pairwise OtherSupplier generated_case.0.quotations
    × All (IsInvited generated_case.0.rfq) generated_case.0.quotations
case-HasParts_example =
    case-HasParts platform (sourcing false) blank_world blank generated_case.0 generated_case.2

generated-stored_example :
    is_some (find_order generated_case.1 (run platform (sourcing false) blank_world).orders) ≡ true
generated-stored_example =
    generated-stored platform (sourcing false) blank_world blank generated_case.0 generated_case.1
      generated_case.2 generated_case.3
