-- ===== src/Procurement/Closeout.antt =====
-- domain/procurement-closeout.ts and infrastructure/in-memory-procurement-closeout-repository.ts.
use blockchain_based_e_procu.Prelude.{ℕ, String, List, Option, filter}
use blockchain_based_e_procu.Prelude.Text.{◌=s◌}
use blockchain_based_e_procu.Prelude.Store

pub record SupplierPerformanceSummary : Type 0 where
  pub supplier_organization_id : String
  pub order_count : ℕ
  pub delivery_evidence_count : ℕ
  pub invoice_count : ℕ
  pub invoice_exception_count : ℕ
  pub proof_coverage_percent : ℕ
  pub closeout_count : ℕ
  pub score : ℕ
  pub last_updated_at : Option String

pub data CloseoutStatus : Type 0 where
  case_open case_closed : CloseoutStatus

pub record CaseCloseout : Type 0 where
  pub closeout_id : String
  pub case_id : String
  pub order_id : String
  pub buyer_organization_id : String
  pub supplier_organization_id : String
  pub closed_by_user_id : String
  pub closed_at : String
  pub status : CloseoutStatus
  pub notes : Option String
  pub metrics : SupplierPerformanceSummary

pub record CaseSummary : Type 0 where
  pub case_id : String
  pub order_id : Option String
  pub source_to_award_case_id : Option String
  pub buyer_organization_id : Option String
  pub supplier_organization_id : Option String
  pub delivery_evidence_count : ℕ
  pub invoice_count : ℕ
  pub invoice_exception_count : ℕ
  pub proof_coverage_percent : ℕ
  pub closeout : Option CaseCloseout

abbrev pub closeout_key : CaseCloseout → String
closeout_key c = c.case_id

-- `findByCaseId`
unfoldable pub find_closeout : String → List CaseCloseout → Option CaseCloseout
find_closeout id closeouts = Store.get closeout_key id closeouts

-- `listBySupplierOrganization`
unfoldable pub closeouts_of_supplier : String → List CaseCloseout → List CaseCloseout
closeouts_of_supplier id closeouts = filter (λ c. c.supplier_organization_id =s id) closeouts
