-- ===== src/Tests/Awards.antt =====
-- An award, and the order that it generates.
use blockchain_based_e_procu.Prelude.{String, false, [], ◌∷◌, none, some, ◌≡◌, refl}
use blockchain_based_e_procu.Prelude.Text.{trim_optional}
use blockchain_based_e_procu.Prelude.Effect.{ok}
use blockchain_based_e_procu.Procurement.Actor.{as_string}
use blockchain_based_e_procu.Procurement.Order.{ProcurementOrder, created, find_order}
use blockchain_based_e_procu.Procurement.SourceCase.{
  SourceToAwardCase, quotation_received, purchase_order_generated, find_case,
}
use blockchain_based_e_procu.Procurement.Sourcing.{AwardInput, source_ok}
use blockchain_based_e_procu.Procurement.Sourcing.Awarding.{award_rfq}
use blockchain_based_e_procu.Procurement.Sourcing.Checks.{Choice}
use blockchain_based_e_procu.Procurement.Sourcing.Choosing.{IsChoice}
use blockchain_based_e_procu.Procurement.Sourcing.Generating.{award_rfq-generates}
use blockchain_based_e_procu.World.{World}
use blockchain_based_e_procu.Tests.Data.{platform, order}
use blockchain_based_e_procu.Tests.Start.{buyer, blank_world, with_log}

abbrev quoted : SourceToAwardCase
quoted = record {
  case_id = "c1";
  buyer_organization_id = "b";
  status = quotation_received;
  requisition = record {
    requisition_id = "q1";
    title = "paper";
    description = none;
    estimated_amount = "12.00";
    currency = "MYR";
    requested_by_user_id = "u1";
    created_at = "t";
    approved_by_user_id = some "u1";
    approved_at = some "t";
  };
  rfq = some (record {
    rfq_id = "f1";
    requisition_id = "q1";
    supplier_organization_ids = "s" ∷ [];
    issued_by_user_id = "u1";
    issued_at = "t";
    response_deadline = none;
  });
  quotations =
      (record {
        quotation_id = "o1";
        rfq_id = "f1";
        supplier_organization_id = "s";
        submitted_by_user_id = "u2";
        amount = "10.00";
        currency = "MYR";
        delivery_days = none;
        notes = none;
        submitted_at = "t";
      })
      ∷ [];
  award = none;
  generated_order_id = none;
  lifecycle_event_ids = [];
  latest_lifecycle_payload_hash = none;
  created_at = "t";
  updated_at = "t";
}

abbrev quoted_world : World
quoted_world = record blank_world { cases = quoted ∷ [] }

abbrev choice : AwardInput
choice = record {
  rfq_id = some "f1";
  quotation_id = some "o1";
  rationale = none;
  actor = buyer;
  request_id = "r5";
}

abbrev now : String
now = "2026-06-01T00:00:00.000Z"

abbrev generated : ProcurementOrder
generated = record order {
  order_id = "order_1";
  status = created;
  created_at = now;
  updated_at = now;
  accepted_by = none;
  accepted_at = none;
}

abbrev awarded : SourceToAwardCase
awarded = record quoted {
  status = purchase_order_generated;
  award = some (record {
    award_id = "award_0";
    rfq_id = "f1";
    quotation_id = "o1";
    supplier_organization_id = "s";
    selected_by_user_id = "u1";
    selected_at = now;
    rationale = none;
    generated_order_id = some "order_1";
  });
  generated_order_id = some "order_1";
  updated_at = now;
}

abbrev awarded_world : World
awarded_world = record blank_world {
  ticks = 2;
  drawn = 2;
  orders = generated ∷ [];
  cases = awarded ∷ [];
}

awards :
    award_rfq platform (with_log false) choice quoted_world
    ≡ (ok (source_ok awarded (some generated)), awarded_world)
unfolding award_rfq blockchain_based_e_procu.World.save_order
    blockchain_based_e_procu.World.save_case
    blockchain_based_e_procu.Procurement.Sourcing.source_event_input
    blockchain_based_e_procu.Procurement.Sourcing.case_after
    blockchain_based_e_procu.Procurement.Sourcing.append_source_event
    blockchain_based_e_procu.Procurement.Ordering.Create.Write.new_order
    blockchain_based_e_procu.Procurement.Ordering.Create.Write.order_created_input
    blockchain_based_e_procu.Procurement.Ordering.Create.Write.order_after
    blockchain_based_e_procu.Procurement.Ordering.Create.Write.create_order
    blockchain_based_e_procu.Procurement.Sourcing.Awarding.awarded_case
    blockchain_based_e_procu.Procurement.Sourcing.Awarding.order_input
    blockchain_based_e_procu.Procurement.Sourcing.Awarding.completed_case
    blockchain_based_e_procu.Lifecycle.Source.record_event
    blockchain_based_e_procu.Lifecycle.Source.record_source_event
    blockchain_based_e_procu.Prelude.Store.put blockchain_based_e_procu.Prelude.Decimal.show
awards = refl

award_rfq-generates_example :
    (g : Choice) × IsChoice choice quoted_world g
    × ("c1" ≡ g.case.case_id)
    × (awarded.status ≡ purchase_order_generated)
    × (awarded.generated_order_id ≡ some "order_1")
    × ("s" ≡ as_string (trim_optional (some g.quotation.supplier_organization_id)))
    × ("10.00" ≡ as_string (trim_optional (some g.quotation.amount)))
    × ("MYR" ≡ as_string (trim_optional (some g.quotation.currency)))
    × (find_case "c1" awarded_world.cases ≡ some awarded)
    × (find_order "order_1" awarded_world.orders ≡ some generated)
award_rfq-generates_example =
    award_rfq-generates platform (with_log false) choice quoted_world awarded generated
      awarded_world awards
