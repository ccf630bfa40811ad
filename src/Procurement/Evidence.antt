-- ===== src/Procurement/Evidence.antt =====
-- domain/delivery-evidence.ts and infrastructure/in-memory-delivery-evidence-repository.ts.
pub mod Listing
use blockchain_based_e_procu.Prelude.{String, Bool, List, [], ◌∷◌, Option, filter, if◌then◌else◌}
use blockchain_based_e_procu.Prelude.Text.{◌=s◌}
use blockchain_based_e_procu.Prelude.Store
use blockchain_based_e_procu.Blockchain.Anchor.{AnchorStatus, BlockchainNetwork}

pub data EvidenceType : Type 0 where
  delivery_note courier_receipt warehouse_receipt inspection_record other : EvidenceType

pub record EvidenceBlockchainAnchor : Type 0 where
  pub event_id : Option String
  pub payload_hash : Option String
  pub anchor_status : AnchorStatus
  pub blockchain_network : Option BlockchainNetwork
  pub transaction_id : Option String
  pub block_number : Option String
  pub channel_name : Option String
  pub chaincode_name : Option String
  pub anchored_at : Option String
  pub failure_reason : Option String

pub record DeliveryEvidenceRecord : Type 0 where
  pub evidence_id : String
  pub order_id : String
  pub buyer_organization_id : String
  pub supplier_organization_id : String
  pub submitted_by_user_id : String
  pub evidence_type : EvidenceType
  pub evidence_reference : Option String
  pub evidence_hash : String
  pub notes : Option String
  pub submitted_at : String
  pub lifecycle_event_id : Option String
  pub lifecycle_event_hash : Option String
  pub blockchain_anchor : Option EvidenceBlockchainAnchor

abbrev pub evidence_key : DeliveryEvidenceRecord → String
evidence_key r = r.evidence_id

-- `findById`
unfoldable pub find_evidence : String → List DeliveryEvidenceRecord → Option DeliveryEvidenceRecord
find_evidence id records = Store.get evidence_key id records

-- `records.sort((left, right) => left.submittedAt.localeCompare(right.submittedAt))`, where the
-- comparison `left <= right` of two texts is the platform's. The sort is stable.
insert :
    (String → String → Bool)
    → DeliveryEvidenceRecord
    → List DeliveryEvidenceRecord
    → List DeliveryEvidenceRecord
insert le r [] = r ∷ []
insert le r (s ∷ l) = if le r.submitted_at s.submitted_at then r ∷ s ∷ l else s ∷ insert le r l

sort : (String → String → Bool) → List DeliveryEvidenceRecord → List DeliveryEvidenceRecord
unfolding insert
sort le [] = []
sort le (r ∷ l) = insert le r (sort le l)

-- `listByOrderId`
unfoldable pub list_evidence :
    (String → String → Bool) → String → List DeliveryEvidenceRecord → List DeliveryEvidenceRecord
unfolding sort
list_evidence le order_id records = sort le (filter (λ r. r.order_id =s order_id) records)
