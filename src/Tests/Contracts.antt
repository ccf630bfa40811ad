-- ===== src/Tests/Contracts.antt =====
-- Runs of the contract of the ledger, and of the figures of a supplier.

use mathlib.Core.List.{Memᴰ}
use blockchain_based_e_procu.Prelude.{
  ◌↔◌, String, Bool, true, false, List, [], ◌∷◌, none, some, ◌≡◌, ◌≢◌, ◌≤◌, ◌<◌, ◌*◌, ◌-◌, filter,
  leb, refl, arith, length, eq_iff, if◌then◌else◌, inl, inr, Bool-cases,
}
use blockchain_based_e_procu.Prelude.Text.{◌=s◌}
use blockchain_based_e_procu.Prelude.Guard.{pass}
use blockchain_based_e_procu.Json.{Json, str, obj, end, field}
use blockchain_based_e_procu.Chaincode.{AnchorInput, Anchor, Next, Stub, Host}
use blockchain_based_e_procu.Chaincode.Contract.{
  Verification, verified, mismatch, check_anchor, anchor_event, write_anchor, get_anchor,
  verify_event, list_anchors_by_case, new_anchor,
}
use blockchain_based_e_procu.Chaincode.Input.{required_text, is_anchor_hash}
use blockchain_based_e_procu.Chaincode.Ledger.{
  IsLedger, anchor_event-read_back, anchor_event-verified, anchor_event-append_only,
  check_anchor-once,
}
use blockchain_based_e_procu.Chaincode.Listing.{Ends, Listed, list_anchors_by_case-Listed}
use blockchain_based_e_procu.Procurement.Closing.{score_for}
use blockchain_based_e_procu.Procurement.Closing.Bounds.{RoundsParts, score_for_bounds}
use blockchain_based_e_procu.World.{Platform}
use blockchain_based_e_procu.Tests.Calls.{match}
use blockchain_based_e_procu.Procurement.Closing.{is_exception}
use blockchain_based_e_procu.Procurement.Invoice.{ProcurementInvoice, match_failed}
use blockchain_based_e_procu.Tests.Data.{platform, order, evidence}

-- Sequences of bytes, by what they were made of.
pub data Bytes : Type 0 where
  no_bytes : Bytes
  of_text : String → Bytes
  of_anchor : Anchor → Bytes

abbrev State : Type 0
State = String → Bytes

abbrev Entries : Type 0
Entries = List Bytes

abbrev next_entry : Entries → Next Bytes × Entries
next_entry [] = (record { value = none; done = true }, [])
next_entry (b ∷ bs) = (record { value = some b; done = false }, bs)

abbrev key_of : List String → String
key_of [] = ""
key_of (a ∷ []) = String.◌∷◌ "k" a
key_of (a ∷ b ∷ more) = ""

abbrev stub : Stub State Entries Bytes
stub = record {
  get_state = λ s k. s k;
  put_state = λ s k v j. if k =s j then v else s j;
  create_composite_key = λ t parts. key_of parts;
  get_state_by_partial_composite_key = λ s t parts. of_text "e1" ∷ of_text "e2" ∷ [];
  next = next_entry;
}

abbrev input : AnchorInput
input = record {
  event_id = "e1";
  case_id_hash = "sha256:0000000000000000000000000000000000000000000000000000000000000000";
  event_type = "escrowCreated";
  payload_hash = "sha256:0000000000000000000000000000000000000000000000000000000000000001";
  schema_version = "v1";
  occurred_at = "2026-06-01T00:00:00.000Z";
  previous_event_hash = none;
}

abbrev input_json : Json
input_json = obj (
    field "eventId" (str input.event_id) (
      field "caseIdHash" (str input.case_id_hash) (
        field "eventType" (str input.event_type) (
          field "payloadHash" (str input.payload_hash) (
            field "schemaVersion" (str input.schema_version) (
              field "canonicalization" (str "json-canonical-v1")
                (field "occurredAt" (str input.occurred_at) end)))))))

abbrev decode : Bytes → Anchor
decode (of_anchor a) = a
decode no_bytes = record { input = input; anchored_at = "" }
decode (of_text s) = record { input = input; anchored_at = "" }

abbrev text_of : Bytes → String
text_of (of_text s) = s
text_of no_bytes = ""
text_of (of_anchor a) = ""

abbrev is_empty_bytes : Bytes → Bool
is_empty_bytes no_bytes = true
is_empty_bytes (of_text s) = s =s ""
is_empty_bytes (of_anchor a) = false

-- A host whose parser knows one text.
abbrev host : Host Bytes
host = record {
  parse = λ s. if s =s "json" then some input_json else none;
  encode = of_anchor;
  decode = decode;
  to_bytes = of_text;
  of_bytes = text_of;
  is_empty_buffer = is_empty_bytes;
  is_timestamp = λ s. true;
  locale_le = λ a b. true;
}

abbrev nothing : State
nothing = λ k. no_bytes

put_get : (s : State) (k : String) (v : Bytes) → (if k =s k then v else s k) ≡ v
put_get s k v = rw ((eq_iff k k).1 refl) refl

put_other :
    (s : State) (k : String) (v : Bytes) (j : String) → k ≢ j → (if k =s j then v else s j) ≡ s j
put_other s k v j n = elim (Bool-cases (k =s j)) [
  | inl same ↦ absurd (n ((eq_iff k j).0 same))
  | inr other ↦ rw other refl
]

ledger : IsLedger stub host
ledger = record {
  get_put = put_get;
  get_other = put_other;
  anchor_keys_differ = λ a b same. cc same;
  index_key_differs = λ c i a same. absurd (cc same);
  read_back = λ a. refl;
  not_empty = λ a. refl;
}

accepts : check_anchor stub host "json" nothing ≡ pass input
unfolding check_anchor
accepts = refl

names : required_text " e1 " "eventId" ≡ pass "e1"
unfolding required_text
names = refl

names_itself : required_text "e1" "eventId" ≡ pass "e1"
unfolding required_text
names_itself = refl

anchor_event-read_back_example :
    get_anchor stub host " e1 " (anchor_event stub host "json" "t" "x" nothing).1
    ≡ pass (some (new_anchor stub host input "t"))
anchor_event-read_back_example =
    anchor_event-read_back stub host ledger "json" "t" "x" nothing input " e1 " accepts names

submits : required_text input.payload_hash "payloadHash" ≡ pass input.payload_hash
unfolding required_text
submits = refl

hashes : is_anchor_hash input.payload_hash ≡ true
unfolding is_anchor_hash
hashes = refl

abbrev expected : Verification
expected = record {
  event_id = "e1";
  status = if input.payload_hash =s input.payload_hash then verified else mismatch;
  submitted_payload_hash = input.payload_hash;
  anchored_payload_hash = some input.payload_hash;
  anchored_at = some "t";
}

anchor_event-verified_example :
    verify_event stub host " e1 " input.payload_hash
      (anchor_event stub host "json" "t" "x" nothing).1
    ≡ pass expected
anchor_event-verified_example =
    anchor_event-verified stub host ledger "json" "t" "x" nothing input " e1 " input.payload_hash
      accepts names names_itself submits hashes

abbrev older : Anchor
older = record { input = record input { event_id = "e0" }; anchored_at = "s" }

abbrev started : State
started = λ k. if k =s "ke0" then of_anchor older else no_bytes

names_older : required_text "e0" "eventId" ≡ pass "e0"
unfolding required_text
names_older = refl

holds_older : get_anchor stub host "e0" started ≡ pass (some older)
unfolding get_anchor
holds_older = refl

anchor_event-append_only_example :
    get_anchor stub host "e0" (anchor_event stub host "json" "t" "x" started).1 ≡ pass (some older)
anchor_event-append_only_example =
    anchor_event-append_only stub host ledger "json" "t" "x" started "e0" "e0" older names_older
      holds_older

-- A host whose parser reads another event from another text.
abbrev other_json : Json
other_json = obj (
    field "eventId" (str "e2") (
      field "caseIdHash" (str input.case_id_hash) (
        field "eventType" (str input.event_type) (
          field "payloadHash" (str input.payload_hash) (
            field "schemaVersion" (str input.schema_version) (
              field "canonicalization" (str "json-canonical-v1")
                (field "occurredAt" (str input.occurred_at) end)))))))

abbrev two_host : Host Bytes
two_host = record host { parse = λ s. if s =s "json" then some input_json else some other_json }

abbrev other_input : AnchorInput
other_input = record input { event_id = "e2" }

two-IsLedger : IsLedger stub two_host
two-IsLedger = record {
  get_put = put_get;
  get_other = put_other;
  anchor_keys_differ = λ a b same. cc same;
  index_key_differs = λ c i a same. absurd (cc same);
  read_back = λ a. refl;
  not_empty = λ a. refl;
}

accepts_first : check_anchor stub two_host "json" nothing ≡ pass input
unfolding check_anchor
accepts_first = refl

accepts_second :
    check_anchor stub two_host "more" (write_anchor stub two_host input "t" nothing)
    ≡ pass other_input
unfolding check_anchor write_anchor
accepts_second = refl

check_anchor-once_example : other_input.event_id ≢ input.event_id
check_anchor-once_example =
    check_anchor-once stub two_host two-IsLedger "json" "t" nothing input "more" other_input
      accepts_first accepts_second

entries_end :
    (it : Entries) → (next_entry it).0.done ≡ false → length ((next_entry it).1) < length it
entries_end [] h = absurd (cc h)
entries_end (b ∷ bs) h = omega arith

ends : Ends stub
ends = record { left = length; one_less = entries_end }

of_case : required_text input.case_id_hash "caseIdHash" ≡ pass input.case_id_hash
unfolding required_text
of_case = refl

case_hashes : is_anchor_hash input.case_id_hash ≡ true
unfolding is_anchor_hash
case_hashes = refl

list_anchors_by_case-Listed_example :
    (anchors : List Anchor) × (list_anchors_by_case stub host 3 input.case_id_hash started
      ≡ pass (some anchors))
    × ((a : Anchor)
        → Memᴰ a anchors ↔ Listed stub host started (of_text "e1" ∷ of_text "e2" ∷ []) a)
unfolding ends
list_anchors_by_case-Listed_example =
    list_anchors_by_case-Listed stub host ends 3 input.case_id_hash started of_case case_hashes
      (omega arith)

-- A platform that rounds every part to all of it.
abbrev generous : Platform
generous = record platform { round_ratio = λ part whole scale. if leb part whole then scale else 0 }

generous-RoundsParts : RoundsParts generous
generous-RoundsParts = record {
  ratio_le = λ part whole scale positive h. ground arith;
  tenth_le = λ n h. omega arith;
}

-- An invoice that failed its match.
abbrev failed_invoice : ProcurementInvoice
failed_invoice = record ((match "10.00").invoice) { status = match_failed }

score_for_bounds_example :
    (70 - length (filter is_exception (failed_invoice ∷ [])) * 10
      ≤ (score_for generous (order ∷ []) (evidence ∷ []) (failed_invoice ∷ []) []).score)
    × ((score_for generous (order ∷ []) (evidence ∷ []) (failed_invoice ∷ []) []).score
        ≤ 100 - length (filter is_exception (failed_invoice ∷ [])) * 10)
    × ((score_for generous
          (order ∷ [])
          (evidence ∷ [])
          (failed_invoice ∷ [])
          []).proof_coverage_percent
        ≤ 100)
score_for_bounds_example =
    score_for_bounds generous (order ∷ []) (evidence ∷ []) (failed_invoice ∷ []) []
      generous-RoundsParts
