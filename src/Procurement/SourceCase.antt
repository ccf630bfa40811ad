-- ===== src/Procurement/SourceCase.antt =====
-- domain/source-to-award.ts and infrastructure/in-memory-source-to-award-repository.ts.
use blockchain_based_e_procu.Prelude.{
  ℕ, String, Bool, false, List, Option, none, some, find, filter,
}
use blockchain_based_e_procu.Prelude.Text.{◌=s◌, includes}
use blockchain_based_e_procu.Prelude.Store

pub data SourceToAwardStatus : Type 0 where
  requisition_pending_approval requisition_approved rfq_issued : SourceToAwardStatus
  quotation_received awarded purchase_order_generated : SourceToAwardStatus

pub record Requisition : Type 0 where
  pub requisition_id : String
  pub title : String
  pub description : Option String
  pub estimated_amount : String
  pub currency : String
  pub requested_by_user_id : String
  pub created_at : String
  pub approved_by_user_id : Option String
  pub approved_at : Option String

pub record Rfq : Type 0 where
  pub rfq_id : String
  pub requisition_id : String
  pub supplier_organization_ids : List String
  pub issued_by_user_id : String
  pub issued_at : String
  pub response_deadline : Option String

pub record Quotation : Type 0 where
  pub quotation_id : String
  pub rfq_id : String
  pub supplier_organization_id : String
  pub submitted_by_user_id : String
  pub amount : String
  pub currency : String
  pub delivery_days : Option ℕ
  pub notes : Option String
  pub submitted_at : String

pub record Award : Type 0 where
  pub award_id : String
  pub rfq_id : String
  pub quotation_id : String
  pub supplier_organization_id : String
  pub selected_by_user_id : String
  pub selected_at : String
  pub rationale : Option String
  pub generated_order_id : Option String

pub record SourceToAwardCase : Type 0 where
  pub case_id : String
  pub buyer_organization_id : String
  pub status : SourceToAwardStatus
  pub requisition : Requisition
  pub rfq : Option Rfq
  pub quotations : List Quotation
  pub award : Option Award
  pub generated_order_id : Option String
  pub lifecycle_event_ids : List String
  pub latest_lifecycle_payload_hash : Option String
  pub created_at : String
  pub updated_at : String

abbrev pub case_key : SourceToAwardCase → String
case_key c = c.case_id

-- `findByCaseId`
unfoldable pub find_case : String → List SourceToAwardCase → Option SourceToAwardCase
find_case id cases = Store.get case_key id cases

-- `findByRequisitionId`
unfoldable pub find_by_requisition_id : String → List SourceToAwardCase → Option SourceToAwardCase
find_by_requisition_id id cases = find (λ c. c.requisition.requisition_id =s id) cases

abbrev pub has_rfq : String → Option Rfq → Bool
has_rfq id none = false
has_rfq id (some r) = r.rfq_id =s id

-- `findByRfqId`
unfoldable pub find_by_rfq_id : String → List SourceToAwardCase → Option SourceToAwardCase
find_by_rfq_id id cases = find (λ c. has_rfq id c.rfq) cases

-- `listByBuyerOrganization`
unfoldable pub cases_of_buyer : String → List SourceToAwardCase → List SourceToAwardCase
cases_of_buyer id cases = filter (λ c. c.buyer_organization_id =s id) cases

-- `rfq?.supplierOrganizationIds.includes(id)`
abbrev pub invites : String → Option Rfq → Bool
invites id none = false
invites id (some r) = includes r.supplier_organization_ids id

-- `listBySupplierOrganization`
unfoldable pub cases_of_supplier : String → List SourceToAwardCase → List SourceToAwardCase
cases_of_supplier id cases = filter (λ c. invites id c.rfq) cases
