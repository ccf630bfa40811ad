-- ===== src/Blockchain/MemoryGateway.antt =====
-- infrastructure/in-memory-blockchain-anchor-gateway.ts, with the laws of the chain that it keeps.
use blockchain_based_e_procu.Prelude.{
  String, Bool, true, false, List, Option, none, some, ◌≡◌, refl, inl, inr, arith, eq_iff, eq_refl,
  Bool-cases, Option-cases, if◌then◌else◌,
}
use blockchain_based_e_procu.Prelude.Text.{◌=s◌}
use blockchain_based_e_procu.Prelude.Store
use blockchain_based_e_procu.Prelude.Effect.{M, ok, pure, throw}
use blockchain_based_e_procu.Errors.{Error, external}
use blockchain_based_e_procu.Blockchain.Anchor.{
  AnchorEventInput, AnchorEventResult, OnChainAnchorRecord, AnchorStatus, anchored, failed,
  fabric_local,
}
use blockchain_based_e_procu.Blockchain.Anchoring.{Gateway}

pub data VerificationStatus : Type 0 where
  verified mismatch not_found unavailable : VerificationStatus

pub record VerificationResult : Type 0 where
  pub event_id : String
  pub verification_status : VerificationStatus
  pub submitted_payload_hash : String
  pub anchored_payload_hash : Option String
  pub anchored_at : Option String

-- The key of the map of records.
abbrev pub record_key : OnChainAnchorRecord → String
record_key r = r.event_id

result : AnchorEventInput → AnchorStatus → Option String → Option String → AnchorEventResult
result i status at reason = record {
  event_id = i.event_id;
  anchor_status = status;
  payload_hash = i.payload_hash;
  blockchain_network = fabric_local;
  channel_name = none;
  chaincode_name = none;
  transaction_id = none;
  block_number = none;
  anchored_at = at;
  failure_reason = reason;
}

anchor_new : String → AnchorEventInput → Option OnChainAnchorRecord → Gateway
unfolding result
anchor_new now i (some existing) _ = pure (result i failed none (some "duplicate_anchor"))
anchor_new now i none _ = λ chain. (
  ok (result i anchored (some now) none),
  Store.put record_key (record { input = i; anchored_at = now }) chain,
)

-- `anchorEvent`, where the gateway is marked unavailable or not, and reads the time `now`
unfoldable pub anchor_event : Bool → String → Gateway
unfolding anchor_new
anchor_event true now i chain = pure (result i failed none (some "blockchain_unavailable")) chain
anchor_event false now i chain = anchor_new now i (Store.get record_key i.event_id chain) i chain

-- `getAnchor`
unfoldable pub get_anchor :
    Bool → String → M (List OnChainAnchorRecord) Error (Option OnChainAnchorRecord)
get_anchor true id chain = throw (external "blockchain_unavailable") chain
get_anchor false id chain = pure (Store.get record_key id chain) chain

compare_record : String → String → Option OnChainAnchorRecord → VerificationResult
compare_record id hash none = record {
  event_id = id;
  verification_status = not_found;
  submitted_payload_hash = hash;
  anchored_payload_hash = none;
  anchored_at = none;
}
compare_record id hash (some r) = record {
  event_id = id;
  verification_status = if r.payload_hash =s hash then verified else mismatch;
  submitted_payload_hash = hash;
  anchored_payload_hash = some r.payload_hash;
  anchored_at = some r.anchored_at;
}

-- `verifyEvent`
unfoldable pub verify_event : Bool → String → String → List OnChainAnchorRecord → VerificationResult
unfolding compare_record
verify_event true id hash chain = record {
  event_id = id;
  verification_status = unavailable;
  submitted_payload_hash = hash;
  anchored_payload_hash = none;
  anchored_at = none;
}
verify_event false id hash chain = compare_record id hash (Store.get record_key id chain)

-- A record that is on the chain stays there unchanged, whatever is anchored, under whichever
-- identifier, and whether the gateway is available or not.
pub get-anchor_event :
    (down : Bool) (now : String) (i : AnchorEventInput) (chain : List OnChainAnchorRecord)
    (id : String) (r : OnChainAnchorRecord)
    → Store.get record_key id chain ≡ some r
    → Store.get record_key id (anchor_event down now i chain).1 ≡ some r
unfolding anchor_event
get-anchor_event true now i chain id r h = h
get-anchor_event false now i chain id r h =
    elim (Option-cases (Store.get record_key i.event_id chain)) [
      | inl new ↦
          rw (new, anchor_new)
            (rw (Store.get-put record_key) (elim (Bool-cases (i.event_id =s id)) [
              | inl same ↦ absurd (ground (arith, eq_iff i.event_id id))
              | inr other ↦ rw other h
            ]))
      | inr (old, found) ↦ rw (found, anchor_new) h
    ]

-- After an available gateway has answered `anchored`, verification of that identifier accepts the
-- anchored payload hash and reports a mismatch for every other one.
pub verify-anchor_event :
    (now : String) (i : AnchorEventInput) (chain : List OnChainAnchorRecord) (hash : String)
    → Store.get record_key i.event_id chain ≡ none
    → (verify_event false i.event_id hash (anchor_event false now i chain).1).verification_status
      ≡ (if i.payload_hash =s hash then verified else mismatch)
unfolding anchor_event verify_event
verify-anchor_event now i chain hash new =
    rw (new, anchor_new) (rw (Store.get-put record_key) (rw (eq_refl i.event_id) refl))
