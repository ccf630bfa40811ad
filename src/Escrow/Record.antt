-- ===== src/Escrow/Record.antt =====
-- domain/escrow.ts.
use blockchain_based_e_procu.Prelude.{String, Bool, true, false, Option}
use blockchain_based_e_procu.Blockchain.Anchor.{AnchorStatus, BlockchainNetwork}

pub data EscrowStatus : Type 0 where
  accepted escrow_created funded awaiting_proof release_pending release_ready : EscrowStatus
  release_requested release_approved release_rejected on_hold dispute_open : EscrowStatus
  arbitration released refunded cancelled expired : EscrowStatus
  settlement_instruction_ready disputed : EscrowStatus

pub record EscrowBlockchainAnchor : Type 0 where
  pub event_id : Option String
  pub payload_hash : Option String
  pub anchor_status : AnchorStatus
  pub blockchain_network : Option BlockchainNetwork
  pub transaction_id : Option String
  pub block_number : Option String
  pub channel_name : Option String
  pub chaincode_name : Option String
  pub anchored_at : Option String
  pub failure_reason : Option String

pub record ReleaseConditions : Type 0 where
  pub accepted_order : Bool
  pub delivery_evidence_recorded : Bool
  pub eligibility_satisfied : Bool
  pub dispute_free : Bool

pub record EscrowRecord : Type 0 where
  pub escrow_id : String
  pub order_id : String
  pub buyer_organization_id : String
  pub supplier_organization_id : String
  pub financier_organization_id : Option String
  pub terms_hash : String
  pub status : EscrowStatus
  pub accepted_order_reference : Option String
  pub created_by : String
  pub created_at : String
  pub updated_at : String
  pub lifecycle_event_id : Option String
  pub lifecycle_event_hash : Option String
  pub blockchain_anchor : Option EscrowBlockchainAnchor
  pub status_reason : Option String
  pub release_condition_summary : Option ReleaseConditions

-- `isActiveEscrowStatus`, by the list `activeEscrowStatuses`
unfoldable pub is_active_escrow_status : EscrowStatus → Bool
is_active_escrow_status released = false
is_active_escrow_status refunded = false
is_active_escrow_status cancelled = false
is_active_escrow_status expired = false
is_active_escrow_status accepted = true
is_active_escrow_status escrow_created = true
is_active_escrow_status funded = true
is_active_escrow_status awaiting_proof = true
is_active_escrow_status release_pending = true
is_active_escrow_status release_ready = true
is_active_escrow_status release_requested = true
is_active_escrow_status release_approved = true
is_active_escrow_status release_rejected = true
is_active_escrow_status on_hold = true
is_active_escrow_status dispute_open = true
is_active_escrow_status arbitration = true
is_active_escrow_status disputed = true
is_active_escrow_status settlement_instruction_ready = true
