-- ===== src/Procurement/Sourcing/Checks.antt =====
-- application/source-to-award-service.ts: the tests of the operations before their first write.
use mathlib.Core.Option
use blockchain_based_e_procu.Prelude.{
  zero, suc, String, Bool, true, false, not, List, [], ◌∷◌, ◌++◌, Option, none, some, filter, find,
  is_empty, is_some, map, when, get_or,
}
use blockchain_based_e_procu.Prelude.Text.{◌=s◌, trim, trim_optional, truthy, includes}
use blockchain_based_e_procu.Prelude.Guard.{Guard, pass, refuse_if, need, ◌>>=◌, ◌>>◌}
use blockchain_based_e_procu.Errors.{Issue, issue}
use blockchain_based_e_procu.Procurement.Actor.{Actor, KnownActor, known_actor, missing, as_string}
use blockchain_based_e_procu.Procurement.SourceCase.{
  SourceToAwardCase, SourceToAwardStatus, Quotation, requisition_pending_approval,
  requisition_approved, find_by_requisition_id, find_by_rfq_id,
}
use blockchain_based_e_procu.Procurement.Sourcing.{
  SourceResult, invalid_input, unauthorized, forbidden, not_found, conflict, RequisitionInput,
  ApproveInput, RfqInput, Days, whole, not_whole_or_negative, QuotationInput, AwardInput,
  can_manage, can_quote,
}
use blockchain_based_e_procu.World.{World, Platform}

-- `requireActor`, and the role that the operations of the buyer need.
manager : Actor → Guard SourceResult KnownActor
unfolding known_actor can_manage
manager a = do
  actor ← need (known_actor a) unauthorized
  refuse_if (not (can_manage a)) (forbidden "buyerRoleRequired")
  pass actor

-- `trimOptional(value)?.toUpperCase()`
abbrev pub upper : Platform → Option String → Option String
upper p value = Option.map p.upper_case (trim_optional value)

unfoldable pub requisition_issues : Platform → RequisitionInput → List Issue
unfolding trim_optional
requisition_issues p i =
    missing (trim_optional i.title) "title" "Requisition title is required"
    ++ (missing (trim_optional i.estimated_amount) "estimatedAmount" "Estimated amount is required"
        ++ when (not (truthy (upper p i.currency))) (issue "currency" "Currency is required"))

-- The tests of `createSourceToAwardRequisition`.
unfoldable pub check_requisition : Platform → RequisitionInput → Guard SourceResult KnownActor
unfolding manager requisition_issues
check_requisition p i = do
  actor ← manager i.actor
  refuse_if (not (is_empty (requisition_issues p i))) (invalid_input (requisition_issues p i))
  pass actor

-- The user, and the case that was found.
pub record OnCase : Type 0 where
  pub user : String
  pub organization : String
  pub case : SourceToAwardCase

abbrev is_pending : SourceToAwardStatus → Bool
is_pending requisition_pending_approval = true
is_pending _ = false

abbrev is_approved : SourceToAwardStatus → Bool
is_approved requisition_approved = true
is_approved _ = false

-- The tests of `approveSourceToAwardRequisition`.
unfoldable pub check_approve : ApproveInput → World → Guard SourceResult OnCase
unfolding manager trim_optional find_by_requisition_id
check_approve i w = do
  actor ← manager i.actor
  id ←
      need (trim_optional i.requisition_id)
        (invalid_input (issue "requisitionId" "Requisition is required" ∷ []))
  case ← need (find_by_requisition_id id w.cases) (not_found "requisitionNotFound")
  refuse_if (not (case.buyer_organization_id =s actor.organization))
      (forbidden "buyerOrganizationMismatch")
  refuse_if (not (is_pending case.status)) (conflict "requisitionAlreadyReviewed")
  pass (record { user = actor.user; organization = actor.organization; case = case })

-- `[...new Set(ids)]`: each text once, where it is first.
distinct : List String → List String
distinct [] = []
distinct (s ∷ ss) = s ∷ filter (λ t. not (t =s s)) (distinct ss)

-- `supplierOrganizationIds` of `issueSourceToAwardRfq`
unfoldable pub invited_suppliers : Option (List String) → List String
unfolding distinct trim
invited_suppliers ids = distinct (filter (λ s. not (s =s "")) (map trim (get_or ids [])))

unfoldable pub rfq_issues : RfqInput → List Issue
unfolding trim_optional invited_suppliers
rfq_issues i =
    missing (trim_optional i.requisition_id) "requisitionId" "Requisition is required"
    ++ when (is_empty (invited_suppliers i.supplier_organization_ids))
        (issue "supplierOrganizationIds" "At least one supplier is required")

-- The tests of `issueSourceToAwardRfq`.
unfoldable pub check_rfq : RfqInput → World → Guard SourceResult OnCase
unfolding manager rfq_issues trim_optional find_by_requisition_id
check_rfq i w = do
  actor ← manager i.actor
  refuse_if (not (is_empty (rfq_issues i))) (invalid_input (rfq_issues i))
  case ←
      need (find_by_requisition_id (as_string (trim_optional i.requisition_id)) w.cases)
        (not_found "requisitionNotFound")
  refuse_if (not (case.buyer_organization_id =s actor.organization))
      (forbidden "buyerOrganizationMismatch")
  refuse_if (not (is_approved case.status)) (conflict "requisitionMustBeApproved")
  pass (record { user = actor.user; organization = actor.organization; case = case })

-- `deliveryDays === undefined`, or a positive integer
abbrev is_day_count : Option Days → Bool
is_day_count none = true
is_day_count (some (whole zero)) = false
is_day_count (some (whole (suc n))) = true
is_day_count (some not_whole_or_negative) = false

unfoldable pub quotation_issues : Platform → QuotationInput → List Issue
unfolding trim_optional
quotation_issues p i =
    missing (trim_optional i.rfq_id) "rfqId" "RFQ is required"
    ++ (missing (trim_optional i.amount) "amount" "Quotation amount is required"
        ++ (when (not (truthy (upper p i.currency))) (issue "currency" "Currency is required")
            ++ when (not (is_day_count i.delivery_days))
                (issue "deliveryDays" "Delivery days must be a positive integer")))

-- The tests of `submitSourceToAwardQuotation`.
unfoldable pub check_quotation : Platform → QuotationInput → World → Guard SourceResult OnCase
unfolding known_actor can_quote quotation_issues trim_optional find_by_rfq_id
check_quotation p i w = do
  actor ← need (known_actor i.actor) unauthorized
  refuse_if (not (can_quote i.actor)) (forbidden "supplierRoleRequired")
  refuse_if (not (is_empty (quotation_issues p i))) (invalid_input (quotation_issues p i))
  case ←
      need (find_by_rfq_id (as_string (trim_optional i.rfq_id)) w.cases) (not_found "rfqNotFound")
  rfq ← need case.rfq (not_found "rfqNotFound")
  refuse_if (not (includes rfq.supplier_organization_ids actor.organization))
      (forbidden "supplierNotInvited")
  refuse_if (is_some case.award) (conflict "rfqAlreadyAwarded")
  pass (record { user = actor.user; organization = actor.organization; case = case })

-- The issues of `awardSourceToAwardRfq`.
award_issues : AwardInput → List Issue
unfolding trim_optional
award_issues i =
    missing (trim_optional i.rfq_id) "rfqId" "RFQ is required"
    ++ missing (trim_optional i.quotation_id) "quotationId" "Quotation is required"

pub record Choice : Type 0 where
  pub user : String
  pub rfq_id : String
  pub case : SourceToAwardCase
  pub quotation : Quotation

-- The tests of `awardSourceToAwardRfq`.
unfoldable pub check_award : AwardInput → World → Guard SourceResult Choice
unfolding manager award_issues trim_optional find_by_rfq_id
check_award i w = do
  actor ← manager i.actor
  refuse_if (not (is_empty (award_issues i))) (invalid_input (award_issues i))
  case ←
      need (find_by_rfq_id (as_string (trim_optional i.rfq_id)) w.cases) (not_found "rfqNotFound")
  rfq ← need case.rfq (not_found "rfqNotFound")
  refuse_if (not (case.buyer_organization_id =s actor.organization))
      (forbidden "buyerOrganizationMismatch")
  refuse_if (is_some case.award) (conflict "rfqAlreadyAwarded")
  quotation ←
      need
        (find (λ (q : Quotation). q.quotation_id =s as_string (trim_optional i.quotation_id))
          case.quotations)
        (not_found "quotationNotFound")
  pass (record {
    user = actor.user;
    rfq_id = as_string (trim_optional i.rfq_id);
    case = case;
    quotation = quotation;
  })
