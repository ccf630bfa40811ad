-- ===== src/Financing/Contract.antt =====
-- domain/pls-contract.ts, and infrastructure/in-memory-pls-contract-repository.ts.
use blockchain_based_e_procu.Prelude.{ℕ, String, List, Option}
use blockchain_based_e_procu.Prelude.Store

pub data PlsContractStatus : Type 0 where
  draft pending_shariah_review approved_for_activation active activation_blocked : PlsContractStatus

pub data ShariahApprovalStatus : Type 0 where
  missing approved conditional_approved rejected : ShariahApprovalStatus

pub data DistributionEventType : Type 0 where
  profit loss : DistributionEventType

pub data PartyRole : Type 0 where
  financier venture_operator : PartyRole

pub record ProfitShare : Type 0 where
  pub financier_percent : ℕ
  pub venture_operator_percent : ℕ

pub record ShariahApprovalReference : Type 0 where
  pub review_id : String
  pub status : ShariahApprovalStatus
  pub decided_at : Option String

pub data CertificateStatus : Type 0 where
  certificate_active certificate_expired certificate_revoked : CertificateStatus

pub record ShariahCertificateReference : Type 0 where
  pub certificate_id : String
  pub status : CertificateStatus
  pub certificate_hash : String
  pub issued_at : String
  pub expires_at : Option String

-- The percentages are whole and not negative, as `BigInt` and the text of the basis need them; the
-- one loss allocation of the type is left out.
pub record PlsContract : Type 0 where
  pub contract_id : String
  pub procurement_reference : String
  pub contract_template_version : String
  pub buyer_organization_id : String
  pub supplier_organization_id : String
  pub financier_organization_id : String
  pub capital_amount : String
  pub currency : String
  pub profit_share : ProfitShare
  pub status : PlsContractStatus
  pub shariah_approval : Option ShariahApprovalReference
  pub shariah_certificate : Option ShariahCertificateReference
  pub activated_at : Option String
  pub created_at : String
  pub updated_at : String

pub record DistributionAllocation : Type 0 where
  pub party_role : PartyRole
  pub organization_id : String
  pub amount : String
  pub basis : String

pub record DistributionRecord : Type 0 where
  pub distribution_id : String
  pub contract_id : String
  pub event_type : DistributionEventType
  pub gross_result_amount : String
  pub currency : String
  pub calculation_basis : String
  pub allocations : List DistributionAllocation
  pub created_by : String
  pub created_at : String

-- The two maps of the repository.
pub record PlsState : Type 0 where
  pub contracts : List PlsContract
  pub distributions : List DistributionRecord

abbrev pub contract_key : PlsContract → String
contract_key c = c.contract_id

abbrev pub distribution_key : DistributionRecord → String
distribution_key d = d.distribution_id

-- `findContractById`
unfoldable pub find_contract : String → PlsState → Option PlsContract
find_contract id s = Store.get contract_key id s.contracts

-- `saveDistribution`
unfoldable pub save_distribution : DistributionRecord → PlsState → PlsState
save_distribution d s = record s { distributions = Store.put distribution_key d s.distributions }

-- `findDistributionById`
unfoldable pub find_distribution : String → PlsState → Option DistributionRecord
find_distribution id s = Store.get distribution_key id s.distributions
