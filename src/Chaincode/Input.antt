-- ===== src/Chaincode/Input.antt =====
-- chaincode/audit-anchor/src/audit-anchor-contract.ts: `parseAnchorInput` and its tests.
use blockchain_based_e_procu.Prelude.{
  String, Bool, false, not, List, [], ◌∷◌, Option, none, some, if◌then◌else◌,
}
use blockchain_based_e_procu.Prelude.Text.{◌=s◌, trim, includes}
use blockchain_based_e_procu.Prelude.Guard.{Guard, refuse, pass, refuse_if, need, ◌>>=◌, ◌>>◌}
use blockchain_based_e_procu.Json.{Json, str, obj, Fields, end, field, undefined}
use blockchain_based_e_procu.Blockchain.Anchoring.{strip_prefix, is_hash, to_lower_case}
use blockchain_based_e_procu.Chaincode.{
  Fault, required, not_a_hash, not_a_timestamp, not_json, not_an_object, unsupported_field,
  wrong_canonicalization, AnchorInput, Host,
}

-- `requiredString` of a text
unfoldable pub required_text : String → String → Guard Fault String
unfolding trim
required_text value name = if trim value =s "" then refuse (required name) else pass (trim value)

-- `requiredString` of a value of the parsed object
required_string : Json → String → Guard Fault String
unfolding required_text
required_string (str s) name = required_text s name
required_string _ name = refuse (required name)

abbrev hash_after_prefix : Option String → Bool
hash_after_prefix none = false
hash_after_prefix (some s) = is_hash (to_lower_case s)

-- `HASH_PATTERN.test(value)`
unfoldable pub is_anchor_hash : String → Bool
unfolding strip_prefix is_hash to_lower_case
is_anchor_hash value = hash_after_prefix (strip_prefix "sha256:" value)

-- `validateHash`
unfoldable pub validate_hash : String → String → Guard Fault (Unit {0})
unfolding is_anchor_hash
validate_hash value name = refuse_if (not (is_anchor_hash value)) (not_a_hash name)

-- `allowedAnchorFields`
abbrev allowed_anchor_fields : List String
allowed_anchor_fields =
    "eventId" ∷ "caseIdHash" ∷ "eventType" ∷ "payloadHash" ∷ "schemaVersion" ∷ "canonicalization"
    ∷ "occurredAt" ∷ "previousEventHash" ∷ []

check_fields : Fields → Guard Fault (Unit {0})
check_fields end = pass tt
check_fields (field name value fields) =
    if includes allowed_anchor_fields name
    then check_fields fields
    else refuse (unsupported_field name)

-- The value of a field, or undefined.
lookup : String → Fields → Json
lookup name end = undefined
lookup name (field n value fields) = if n =s name then value else lookup name fields

object_of : Json → Guard Fault Fields
object_of (obj fields) = pass fields
object_of _ = refuse not_an_object

-- `previousEventHash`, where it is given
previous_of : Json → Guard Fault (Option String)
unfolding required_string validate_hash
previous_of undefined = pass none
previous_of value = do
  hash ← required_string value "previousEventHash"
  validate_hash hash "previousEventHash"
  pass (some hash)

-- The part of `parseAnchorInput` after the fields have been found to be allowed.
parse_fields : {B : Type 0} → Host B → Fields → Guard Fault AnchorInput
unfolding required_string lookup validate_hash previous_of
parse_fields host fields = do
  event_id ← required_string (lookup "eventId" fields) "eventId"
  case_id_hash ← required_string (lookup "caseIdHash" fields) "caseIdHash"
  event_type ← required_string (lookup "eventType" fields) "eventType"
  payload_hash ← required_string (lookup "payloadHash" fields) "payloadHash"
  schema_version ← required_string (lookup "schemaVersion" fields) "schemaVersion"
  occurred_at ← required_string (lookup "occurredAt" fields) "occurredAt"
  canonicalization ← required_string (lookup "canonicalization" fields) "canonicalization"
  refuse_if (not (canonicalization =s "json-canonical-v1")) wrong_canonicalization
  validate_hash case_id_hash "caseIdHash"
  validate_hash payload_hash "payloadHash"
  refuse_if (not (host.is_timestamp occurred_at)) (not_a_timestamp "occurredAt")
  previous ← previous_of (lookup "previousEventHash" fields)
  pass (record {
    event_id = event_id;
    case_id_hash = case_id_hash;
    event_type = event_type;
    payload_hash = payload_hash;
    schema_version = schema_version;
    occurred_at = occurred_at;
    previous_event_hash = previous;
  })

-- `parseAnchorInput`
unfoldable pub parse_anchor_input : {B : Type 0} → Host B → String → Guard Fault AnchorInput
unfolding required_text object_of check_fields parse_fields
parse_anchor_input host anchor_json = do
  raw ← required_text anchor_json "anchorJson"
  parsed ← need (host.parse raw) not_json
  fields ← object_of parsed
  check_fields fields
  parse_fields host fields
