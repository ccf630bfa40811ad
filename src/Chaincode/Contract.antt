-- ===== src/Chaincode/Contract.antt =====
-- chaincode/audit-anchor/src/audit-anchor-contract.ts: the transactions. The time of a transaction
-- and its identifier are arguments, and a transaction that throws writes nothing.
use blockchain_based_e_procu.Prelude.{
  ℕ, zero, suc, String, Bool, not, ◌||◌, ◌&&◌, List, [], ◌∷◌, Option, none, some, if◌then◌else◌,
}
use blockchain_based_e_procu.Prelude.Text.{◌=s◌}
use blockchain_based_e_procu.Prelude.Guard.{Guard, refuse, pass, refuse_if, ◌>>=◌, ◌>>◌}
use blockchain_based_e_procu.Chaincode.{Fault, duplicate_anchor, AnchorInput, Anchor, Stub, Host}
use blockchain_based_e_procu.Chaincode.Input.{required_text, validate_hash, parse_anchor_input}

-- `AnchorEventResult`; its status is `anchored`.
pub record Anchored : Type 0 where
  pub event_id : String
  pub payload_hash : String
  pub transaction_id : String
  pub anchored_at : String

pub data VerificationStatus : Type 0 where
  verified mismatch not_found : VerificationStatus

pub record Verification : Type 0 where
  pub event_id : String
  pub status : VerificationStatus
  pub submitted_payload_hash : String
  pub anchored_payload_hash : Option String
  pub anchored_at : Option String

module _ {S I B : Type 0} (stub : Stub S I B) (host : Host B) where
  -- `anchorKey` and `caseIndexKey`
  abbrev pub anchor_key : String → String
  anchor_key id = stub.create_composite_key "auditAnchor" (id ∷ [])

  abbrev pub case_index_key : String → String → String
  case_index_key case_id_hash id =
      stub.create_composite_key "auditAnchorByCase" (case_id_hash ∷ id ∷ [])

  -- `record` of `anchorEvent`
  abbrev pub new_anchor : AnchorInput → String → Anchor
  new_anchor i anchored_at = record { input = i; anchored_at = anchored_at }

  -- The two writes.
  unfoldable pub write_anchor : AnchorInput → String → S → S
  write_anchor i anchored_at s =
      stub.put_state
        (stub.put_state s (anchor_key i.event_id) (host.encode (new_anchor i anchored_at)))
        (case_index_key i.case_id_hash i.event_id) (host.to_bytes i.event_id)

  -- The tests of `anchorEvent`.
  unfoldable pub check_anchor : String → S → Guard Fault AnchorInput
  unfolding parse_anchor_input
  check_anchor anchor_json s = do
    input ← parse_anchor_input host anchor_json
    refuse_if (not (host.is_empty_buffer (stub.get_state s (anchor_key input.event_id))))
        (duplicate_anchor input.event_id)
    pass input

  unfoldable pub finish_anchor :
      String → String → S → Guard Fault AnchorInput → Guard Fault Anchored × S
  unfolding write_anchor
  finish_anchor anchored_at transaction s (refuse fault) = (refuse fault, s)
  finish_anchor anchored_at transaction s (pass i) = (
    pass (record {
      event_id = i.event_id;
      payload_hash = i.payload_hash;
      transaction_id = transaction;
      anchored_at = anchored_at;
    }),
    write_anchor i anchored_at s,
  )

  -- `anchorEvent`. The notification `AuditAnchorCreated`, which `setEvent` of the stub sends out, is not
  -- part of the ledger and is left out.
  unfoldable pub anchor_event : String → String → String → S → Guard Fault Anchored × S
  unfolding check_anchor finish_anchor
  anchor_event anchor_json anchored_at transaction s =
      finish_anchor anchored_at transaction s (check_anchor anchor_json s)

  -- The record under a key, where there is one.
  abbrev stored : B → Option Anchor
  stored bytes = if host.is_empty_buffer bytes then none else some (host.decode bytes)

  -- `getAnchor`
  unfoldable pub get_anchor : String → S → Guard Fault (Option Anchor)
  unfolding required_text
  get_anchor event_id s = do
    id ← required_text event_id "eventId"
    pass (stored (stub.get_state s (anchor_key id)))

  verification : String → String → Option Anchor → Verification
  verification id hash none = record {
    event_id = id;
    status = not_found;
    submitted_payload_hash = hash;
    anchored_payload_hash = none;
    anchored_at = none;
  }
  verification id hash (some a) = record {
    event_id = id;
    status = if a.payload_hash =s hash then verified else mismatch;
    submitted_payload_hash = hash;
    anchored_payload_hash = some a.payload_hash;
    anchored_at = some a.anchored_at;
  }

  -- `verifyEvent`
  unfoldable pub verify_event : String → String → S → Guard Fault Verification
  unfolding required_text validate_hash get_anchor verification
  verify_event event_id payload_hash s = do
    id ← required_text event_id "eventId"
    hash ← required_text payload_hash "payloadHash"
    validate_hash hash "payloadHash"
    found ← get_anchor id s
    pass (verification id hash found)

  -- The record of an entry of the index, where there is one.
  abbrev pub entry : S → Option B → List Anchor → List Anchor
  entry s none rest = rest
  entry s (some bytes) rest = elim (stored (stub.get_state s (anchor_key (host.of_bytes bytes)))) [
    | none ↦ rest
    | some a ↦ a ∷ rest
  ]

  -- `while (true)` of `collectCaseAnchors`, by rounds; none where they do not suffice. The iterator is
  -- a value here, so that the `finally` that closes it has nothing to do.
  unfoldable pub collect : ℕ → S → I → Option (List Anchor)
  collect zero s it = none
  collect (suc rounds) s it =
      let rest = collect rounds s ((stub.next it).1) in
      if (stub.next it).0.done
      then some []
      else elim rest [ none ↦ none | some anchors ↦ some (entry s (stub.next it).0.value anchors) ]

  -- The order by time, and by identifier at one time.
  abbrev pub comes_before : Anchor → Anchor → Bool
  comes_before a b =
      host.locale_le a.occurred_at b.occurred_at
      && (not (host.locale_le b.occurred_at a.occurred_at) || host.locale_le a.event_id b.event_id)

  unfoldable pub insert : Anchor → List Anchor → List Anchor
  insert a [] = a ∷ []
  insert a (b ∷ anchors) = if comes_before a b then a ∷ b ∷ anchors else b ∷ insert a anchors

  -- `records.sort(…)`; the sort is stable.
  unfoldable pub sort_anchors : List Anchor → List Anchor
  unfolding insert
  sort_anchors [] = []
  sort_anchors (a ∷ anchors) = insert a (sort_anchors anchors)

  unfoldable pub sorted : Option (List Anchor) → Option (List Anchor)
  unfolding sort_anchors
  sorted none = none
  sorted (some anchors) = some (sort_anchors anchors)

  -- `listAnchorsByCase`, with the rounds of the loop
  unfoldable pub list_anchors_by_case : ℕ → String → S → Guard Fault (Option (List Anchor))
  unfolding required_text validate_hash collect sorted
  list_anchors_by_case rounds case_id_hash s = do
    hash ← required_text case_id_hash "caseIdHash"
    validate_hash hash "caseIdHash"
    pass (
        sorted (
          collect rounds s
            (stub.get_state_by_partial_composite_key s "auditAnchorByCase" (hash ∷ []))))
