-- ===== src/Blockchain/Anchor.antt =====
-- application/blockchain-anchor-gateway.ts and application/blockchain-anchor-metadata-repository.ts.
use blockchain_based_e_procu.Prelude.{String, Option}

pub data AnchorStatus : Type 0 where
  not_anchored pending anchored failed : AnchorStatus

pub data BlockchainNetwork : Type 0 where
  fabric_local fabric : BlockchainNetwork

pub record AnchorEventInput : Type 0 where
  pub event_id : String
  pub case_id_hash : String
  pub event_type : String
  pub payload_hash : String
  pub schema_version : String
  pub canonicalization : String
  pub occurred_at : String
  pub previous_event_hash : Option String

pub record OnChainAnchorRecord : Type 0 where
  pub input : AnchorEventInput
  pub open input use *
  pub anchored_at : String

pub record AnchorEventResult : Type 0 where
  pub event_id : String
  pub anchor_status : AnchorStatus
  pub payload_hash : String
  pub blockchain_network : BlockchainNetwork
  pub channel_name : Option String
  pub chaincode_name : Option String
  pub transaction_id : Option String
  pub block_number : Option String
  pub anchored_at : Option String
  pub failure_reason : Option String

pub record BlockchainAnchorMetadata : Type 0 where
  pub event_id : String
  pub payload_hash : String
  pub case_id_hash : Option String
  pub anchor_status : AnchorStatus
  pub blockchain_network : Option BlockchainNetwork
  pub channel_name : Option String
  pub chaincode_name : Option String
  pub transaction_id : Option String
  pub block_number : Option String
  pub anchored_at : Option String
  pub failure_reason : Option String
  pub created_at : String
  pub updated_at : String
