-- ===== src/Chaincode.antt =====
-- chaincode/audit-anchor/src/audit-anchor-contract.ts: the contract that anchors event hashes on the
-- ledger. The stub of Fabric, JSON, dates and the order of texts are the caller's.
pub mod Input
pub mod Contract
pub mod Ledger
pub mod Listing
use blockchain_based_e_procu.Prelude.{String, Bool, List, Option}
use blockchain_based_e_procu.Json.{Json}

-- Why the contract throws.
pub data Fault : Type 0 where
  required : String → Fault
  not_a_hash : String → Fault
  not_a_timestamp : String → Fault
  not_json : Fault
  not_an_object : Fault
  unsupported_field : String → Fault
  wrong_canonicalization : Fault
  duplicate_anchor : String → Fault

-- `AnchorEventInput`; its canonicalization is the one that the contract takes.
pub record AnchorInput : Type 0 where
  pub event_id : String
  pub case_id_hash : String
  pub event_type : String
  pub payload_hash : String
  pub schema_version : String
  pub occurred_at : String
  pub previous_event_hash : Option String

-- `OnChainAnchorRecord`
pub record Anchor : Type 0 where
  pub input : AnchorInput
  pub open input use *
  pub anchored_at : String

-- What `iterator.next()` gives, where `B` are the sequences of bytes.
pub record Next (B : Type 0) : Type 0 where
  pub value : Option B
  pub done : Bool

-- The stub, for a ledger of type `S` and iterators of type `I`.
pub record Stub (S I B : Type 0) : Type 0 where
  pub get_state : S → String → B
  pub put_state : S → String → B → S
  pub create_composite_key : String → List String → String
  pub get_state_by_partial_composite_key : S → String → List String → I
  pub next : I → Next B × I

-- What the language's library gives.
pub record Host (B : Type 0) : Type 0 where
  -- `JSON.parse(text)`, where it does not throw
  pub parse : String → Option Json
  -- `Buffer.from(JSON.stringify(record))`, and `JSON.parse` of the text of such bytes
  pub encode : Anchor → B
  pub decode : B → Anchor
  -- `Buffer.from(text)`, and `toString('utf8')`
  pub to_bytes : String → B
  pub of_bytes : B → String
  -- `bytes.length === 0`
  pub is_empty_buffer : B → Bool
  -- `!Number.isNaN(Date.parse(text))`
  pub is_timestamp : String → Bool
  -- `left.localeCompare(right) <= 0`
  pub locale_le : String → String → Bool
