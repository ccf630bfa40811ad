-- ===== src/Procurement/Sourcing/Awarding.antt =====
-- application/source-to-award-service.ts: `awardSourceToAwardRfq` after its tests.
use mathlib.Core.Option
use blockchain_based_e_procu.Prelude.{String, none, some}
use blockchain_based_e_procu.Prelude.Text.{◌<>◌, trim_optional}
use blockchain_based_e_procu.Prelude.Effect.{pure, ◌>>=◌}
use blockchain_based_e_procu.Prelude.Guard.{decide}
use blockchain_based_e_procu.Json.{Json, str, obj, end, field}
use blockchain_based_e_procu.Lifecycle.Source.{award_selected, purchase_order_generated}
use blockchain_based_e_procu.Procurement.Order.{ProcurementOrder}
use blockchain_based_e_procu.Procurement.Ordering.Create.{
  CreateOrderInput, CreateOrderResult, created_order, not_eligible, buyer_role_required,
  OrderDependencies,
}
use blockchain_based_e_procu.Procurement.Ordering.Create
use blockchain_based_e_procu.Procurement.Ordering.Create.Write.{create_order}
use blockchain_based_e_procu.Procurement.SourceCase.{SourceToAwardCase, Award, Quotation}
use blockchain_based_e_procu.Procurement.SourceCase
use blockchain_based_e_procu.Procurement.Sourcing.{
  SourceResult, source_ok, conflict, AwardInput, append_source_event,
}
use blockchain_based_e_procu.Procurement.Sourcing.Checks.{Choice, check_award}
use blockchain_based_e_procu.World.{App, Platform, read_clock, draw_id, save_case}

-- The award without its order.
unfoldable pub new_award : AwardInput → Choice → String → String → Award
unfolding trim_optional
new_award i g now id = record {
  award_id = id;
  rfq_id = g.rfq_id;
  quotation_id = g.quotation.quotation_id;
  supplier_organization_id = g.quotation.supplier_organization_id;
  selected_by_user_id = g.user;
  selected_at = now;
  rationale = trim_optional i.rationale;
  generated_order_id = none;
}

-- `awarded`
unfoldable pub awarded_case : AwardInput → Choice → String → String → SourceToAwardCase
unfolding new_award
awarded_case i g now id = record (g.case) {
  status = SourceCase.awarded;
  award = some (new_award i g now id);
  updated_at = now;
}

-- The input of `createProcurementOrder`.
unfoldable pub order_input : AwardInput → Choice → CreateOrderInput
order_input i g = record {
  supplier_organization_id = some g.quotation.supplier_organization_id;
  title = some g.case.requisition.title;
  description = g.case.requisition.description;
  amount = some g.quotation.amount;
  currency = some g.quotation.currency;
  actor = i.actor;
  request_id = i.request_id;
}

-- `completed`
unfoldable pub completed_case : SourceToAwardCase → ProcurementOrder → String → SourceToAwardCase
completed_case c o now = record c {
  status = SourceCase.purchase_order_generated;
  generated_order_id = some o.order_id;
  award = Option.map (λ (a : Award). record a { generated_order_id = some o.order_id }) c.award;
  updated_at = now;
}

unfoldable pub award_metadata : Choice → Json
award_metadata g = obj (
    field "rfqId" (str g.rfq_id) (
      field "quotationId" (str g.quotation.quotation_id)
        (field "supplierOrganizationId" (str g.quotation.supplier_organization_id) end)))

unfoldable pub generated_metadata : Choice → ProcurementOrder → Json
generated_metadata g o = obj (
    field "orderId" (str o.order_id) (
      field "quotationId" (str g.quotation.quotation_id)
        (field "supplierOrganizationId" (str g.quotation.supplier_organization_id) end)))

module _ (p : Platform) (d : OrderDependencies) (i : AwardInput) (g : Choice) where
  -- After the order: the second event and the write of the case.
  unfoldable pub finish_award : SourceToAwardCase → String → CreateOrderResult → App SourceResult
  finish_award c now (created_order o) = do
    case ←
        append_source_event p d.lifecycle (completed_case c o now) purchase_order_generated
          o.order_id g.user i.request_id (generated_metadata g o)
    saved ← save_case case
    pure (source_ok saved (some o))
  finish_award c now (Create.invalid_input issues) =
      pure (conflict "purchaseOrderNotGenerated:invalidInput")
  finish_award c now Create.unauthorized = pure (conflict "purchaseOrderNotGenerated:unauthorized")
  finish_award c now buyer_role_required = pure (conflict "purchaseOrderNotGenerated:forbidden")
  finish_award c now (not_eligible e) = pure (conflict "purchaseOrderNotGenerated:notEligible")

  -- What follows the tests.
  unfoldable pub write_award : App SourceResult
  unfolding read_clock draw_id finish_award
  write_award = do
    now ← read_clock p
    id ← draw_id p
    case ←
        append_source_event p d.lifecycle (awarded_case i g now ("award_" <> id)) award_selected
          ("award_" <> id) g.user i.request_id (award_metadata g)
    result ← create_order p d (order_input i g)
    finish_award case now result

-- `awardSourceToAwardRfq`
unfoldable pub award_rfq : Platform → OrderDependencies → AwardInput → App SourceResult
unfolding check_award write_award
award_rfq p d i w = decide (check_award i w) (write_award p d i) w
