-- ===== src/Procurement/Sourcing/Writes.antt =====
-- application/source-to-award-service.ts: requisitions, the request for quotations, and quotations.

use blockchain_based_e_procu.Prelude.{
  ℕ, String, Bool, not, List, [], ◌∷◌, ◌++◌, Option, none, some, filter,
}
use blockchain_based_e_procu.Prelude.Text.{◌=s◌, ◌<>◌, trim_optional}
use blockchain_based_e_procu.Prelude.Effect.{pure, ◌>>=◌}
use blockchain_based_e_procu.Prelude.Guard.{decide}
use blockchain_based_e_procu.Json.{Json, Items, str, arr, nil, cons, obj, end, field}
use blockchain_based_e_procu.Lifecycle.Builder.{text_or_undefined}
use blockchain_based_e_procu.Lifecycle.Source.{
  requisition_created, requisition_approved, rfq_issued, quotation_submitted,
}
use blockchain_based_e_procu.Procurement.Actor.{KnownActor, as_string}
use blockchain_based_e_procu.Procurement.SourceCase.{SourceToAwardCase, Requisition, Rfq, Quotation}
use blockchain_based_e_procu.Procurement.SourceCase
use blockchain_based_e_procu.Procurement.Sourcing.{
  SourceResult, source_ok, RequisitionInput, ApproveInput, RfqInput, Days, whole,
  not_whole_or_negative, QuotationInput, append_source_event,
}
use blockchain_based_e_procu.Procurement.Sourcing.Checks.{
  OnCase, upper, invited_suppliers, check_requisition, check_approve, check_rfq, check_quotation,
}
use blockchain_based_e_procu.World.{App, Platform, read_clock, draw_id, save_case}

-- The case that a requisition opens.
unfoldable pub new_case :
    Platform → RequisitionInput → KnownActor → String → String → String → SourceToAwardCase
unfolding trim_optional
new_case p i actor now case_id requisition_id = record {
  case_id = case_id;
  buyer_organization_id = actor.organization;
  status = SourceCase.requisition_pending_approval;
  requisition = record {
    requisition_id = requisition_id;
    title = as_string (trim_optional i.title);
    description = trim_optional i.description;
    estimated_amount = as_string (trim_optional i.estimated_amount);
    currency = as_string (upper p i.currency);
    requested_by_user_id = actor.user;
    created_at = now;
    approved_by_user_id = none;
    approved_at = none;
  };
  rfq = none;
  quotations = [];
  award = none;
  generated_order_id = none;
  lifecycle_event_ids = [];
  latest_lifecycle_payload_hash = none;
  created_at = now;
  updated_at = now;
}

unfoldable pub approved_case : OnCase → String → SourceToAwardCase
approved_case g now = record (g.case) {
  status = SourceCase.requisition_approved;
  requisition = record (g.case.requisition) {
    approved_by_user_id = some g.user;
    approved_at = some now;
  };
  updated_at = now;
}

unfoldable pub new_rfq : RfqInput → OnCase → String → String → Rfq
unfolding trim_optional invited_suppliers
new_rfq i g now id = record {
  rfq_id = id;
  requisition_id = as_string (trim_optional i.requisition_id);
  supplier_organization_ids = invited_suppliers i.supplier_organization_ids;
  issued_by_user_id = g.user;
  issued_at = now;
  response_deadline = trim_optional i.response_deadline;
}

unfoldable pub rfq_case : RfqInput → OnCase → String → String → SourceToAwardCase
unfolding new_rfq
rfq_case i g now id = record (g.case) {
  status = SourceCase.rfq_issued;
  rfq = some (new_rfq i g now id);
  updated_at = now;
}

abbrev day_count : Days → Option ℕ
day_count (whole n) = some n
day_count not_whole_or_negative = none

abbrev day_count_of : Option Days → Option ℕ
day_count_of none = none
day_count_of (some d) = day_count d

unfoldable pub new_quotation : Platform → QuotationInput → OnCase → String → String → Quotation
unfolding trim_optional
new_quotation p i g now id = record {
  quotation_id = id;
  rfq_id = as_string (trim_optional i.rfq_id);
  supplier_organization_id = g.organization;
  submitted_by_user_id = g.user;
  amount = as_string (trim_optional i.amount);
  currency = as_string (upper p i.currency);
  delivery_days = day_count_of i.delivery_days;
  notes = trim_optional i.notes;
  submitted_at = now;
}

-- `quotations.filter(item => item.supplierOrganizationId !== …)`
unfoldable pub other_quotations : String → List Quotation → List Quotation
other_quotations supplier quotations =
    filter (λ q. not (q.supplier_organization_id =s supplier)) quotations

unfoldable pub quoted_case : OnCase → Quotation → String → SourceToAwardCase
unfolding other_quotations
quoted_case g q now = record (g.case) {
  status = SourceCase.quotation_received;
  quotations = other_quotations q.supplier_organization_id g.case.quotations ++ q ∷ [];
  updated_at = now;
}

strings : List String → Items
strings [] = nil
strings (s ∷ ss) = cons (str s) (strings ss)

unfoldable pub rfq_metadata : Rfq → Json
unfolding strings
rfq_metadata r = obj (
    field "supplierOrganizationIds" (arr (strings r.supplier_organization_ids))
      (field "responseDeadline" (text_or_undefined r.response_deadline) end))

unfoldable pub quotation_metadata : Quotation → Json
quotation_metadata q = obj (
    field "rfqId" (str q.rfq_id) (
      field "supplierOrganizationId" (str q.supplier_organization_id)
        (field "amount" (str q.amount) (field "currency" (str q.currency) end))))

unfoldable pub case_metadata : SourceToAwardCase → Json
case_metadata c = obj (
    field "buyerOrganizationId" (str c.buyer_organization_id) (
      field "estimatedAmount" (str c.requisition.estimated_amount)
        (field "currency" (str c.requisition.currency) end)))

module _ (p : Platform) (lifecycle : Bool) where
  -- `createSourceToAwardRequisition`: what follows the tests
  unfoldable pub write_requisition : RequisitionInput → KnownActor → App SourceResult
  unfolding read_clock draw_id
  write_requisition i actor = do
    now ← read_clock p
    case_id ← draw_id p
    requisition_id ← draw_id p
    case ←
        append_source_event p lifecycle
          (new_case p i actor now ("sta_case_" <> case_id) ("req_" <> requisition_id))
          requisition_created ("req_" <> requisition_id) actor.user i.request_id
          (case_metadata
            (new_case p i actor now ("sta_case_" <> case_id) ("req_" <> requisition_id)))
    saved ← save_case case
    pure (source_ok saved none)

  unfoldable pub create_requisition : RequisitionInput → App SourceResult
  unfolding check_requisition write_requisition
  create_requisition i w = decide (check_requisition p i) (write_requisition i) w

  -- `approveSourceToAwardRequisition`: what follows the tests
  unfoldable pub write_approve : ApproveInput → OnCase → App SourceResult
  unfolding read_clock trim_optional
  write_approve i g = do
    now ← read_clock p
    case ←
        append_source_event p lifecycle (approved_case g now) requisition_approved
          (as_string (trim_optional i.requisition_id)) g.user i.request_id
          (obj (field "approvedByUserId" (str g.user) end))
    saved ← save_case case
    pure (source_ok saved none)

  unfoldable pub approve_requisition : ApproveInput → App SourceResult
  unfolding check_approve write_approve
  approve_requisition i w = decide (check_approve i w) (write_approve i) w

  -- `issueSourceToAwardRfq`: what follows the tests
  unfoldable pub write_rfq : RfqInput → OnCase → App SourceResult
  unfolding read_clock draw_id
  write_rfq i g = do
    now ← read_clock p
    id ← draw_id p
    case ←
        append_source_event p lifecycle (rfq_case i g now ("rfq_" <> id)) rfq_issued ("rfq_" <> id)
          g.user i.request_id (rfq_metadata (new_rfq i g now ("rfq_" <> id)))
    saved ← save_case case
    pure (source_ok saved none)

  unfoldable pub issue_rfq : RfqInput → App SourceResult
  unfolding check_rfq write_rfq
  issue_rfq i w = decide (check_rfq i w) (write_rfq i) w

  -- `submitSourceToAwardQuotation`: what follows the tests
  unfoldable pub write_quotation : QuotationInput → OnCase → App SourceResult
  unfolding read_clock draw_id
  write_quotation i g = do
    now ← read_clock p
    id ← draw_id p
    case ←
        append_source_event p lifecycle
          (quoted_case g (new_quotation p i g now ("quote_" <> id)) now) quotation_submitted
          ("quote_" <> id) g.user i.request_id
          (quotation_metadata (new_quotation p i g now ("quote_" <> id)))
    saved ← save_case case
    pure (source_ok saved none)

  unfoldable pub submit_quotation : QuotationInput → App SourceResult
  unfolding check_quotation write_quotation
  submit_quotation i w = decide (check_quotation p i w) (write_quotation i) w
