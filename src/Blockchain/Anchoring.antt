-- ===== src/Blockchain/Anchoring.antt =====
-- application/anchor-procure-to-pay-lifecycle-event.ts. The gateway and the metadata repository are
-- the caller's: either may throw.
pub mod Failure
use Prim.Native.Char.{Char, code}
use blockchain_based_e_procu.Prelude.{
  ℕ, suc, String, Bool, false, List, [], ◌∷◌, Option, none, some, ◌&&◌, ◌||◌, leb, ◌==◌,
  if◌then◌else◌,
}
use mathlib.Core.Option
use blockchain_based_e_procu.Prelude.Text.{◌=s◌, ◌<>◌, trim}
use blockchain_based_e_procu.Prelude.Effect.{M, Outcome, ok, thrown, pure, ◌>>=◌}
use blockchain_based_e_procu.Errors.{Error, external, not_an_error}
use blockchain_based_e_procu.Blockchain.Anchor.{
  AnchorEventInput, AnchorEventResult, OnChainAnchorRecord, BlockchainAnchorMetadata, failed,
}
use blockchain_based_e_procu.Lifecycle.Event.{LifecycleEvent}
use blockchain_based_e_procu.World.{World, App, Platform, read_clock, on_chain, on_anchors}

abbrev pub Gateway : Type 0
Gateway = AnchorEventInput → M (List OnChainAnchorRecord) Error AnchorEventResult

abbrev pub MetadataRepository : Type 0
MetadataRepository =
    BlockchainAnchorMetadata → M (List BlockchainAnchorMetadata) Error BlockchainAnchorMetadata

pub record AnchorDependencies : Type 0 where
  pub gateway : Option Gateway
  pub metadata_repository : Option MetadataRepository

-- `hashOpaqueIdentifier`
unfoldable pub hash_opaque_identifier : Platform → String → String
hash_opaque_identifier p value = "sha256:" <> p.sha256 value

abbrev lower_letters : List (ℕ × Char)
lower_letters =
    (65, "a")
    ∷ (66, "b")
    ∷ (67, "c")
    ∷ (68, "d")
    ∷ (69, "e")
    ∷ (70, "f")
    ∷ (71, "g")
    ∷ (72, "h")
    ∷ (73, "i")
    ∷ (74, "j")
    ∷ (75, "k")
    ∷ (76, "l")
    ∷ (77, "m")
    ∷ (78, "n")
    ∷ (79, "o")
    ∷ (80, "p")
    ∷ (81, "q")
    ∷ (82, "r")
    ∷ (83, "s")
    ∷ (84, "t")
    ∷ (85, "u")
    ∷ (86, "v")
    ∷ (87, "w")
    ∷ (88, "x")
    ∷ (89, "y")
    ∷ (90, "z")
    ∷ []

lower_char : List (ℕ × Char) → Char → Char
lower_char [] c = c
lower_char ((n, l) ∷ ls) c = if code c == n then l else lower_char ls c

-- `toLowerCase`, on the letters of ASCII: hashes hold no others.
unfoldable pub to_lower_case : String → String
unfolding lower_char
to_lower_case String.[] = String.[]
to_lower_case (String.◌∷◌ c s) = String.◌∷◌ (lower_char lower_letters c) (to_lower_case s)

-- `[a-f0-9]`
abbrev is_hex_digit : Char → Bool
is_hex_digit c = (leb 97 (code c) && leb (code c) 102) || (leb 48 (code c) && leb (code c) 57)

-- `[a-f0-9]{n}` up to the end
hex_digits : ℕ → String → Bool
hex_digits n String.[] = n == 0
hex_digits n (String.◌∷◌ c s) = elim n [ ℕ.zero ↦ false | suc k ↦ is_hex_digit c && hex_digits k s ]

-- What follows a prefix, where the text begins with it.
unfoldable pub strip_prefix : String → String → Option String
strip_prefix String.[] s = some s
strip_prefix (String.◌∷◌ c p) String.[] = none
strip_prefix (String.◌∷◌ c p) (String.◌∷◌ d s) = if code c == code d then strip_prefix p s else none

abbrev with_prefix : Option String → Bool
with_prefix none = false
with_prefix (some s) = hex_digits 64 s

-- `/^[a-f0-9]{64}$/.test(value)`
unfoldable pub is_hash : String → Bool
unfolding hex_digits
is_hash value = hex_digits 64 value

-- `/^sha256:[a-f0-9]{64}$/.test(value)`
unfoldable pub is_prefixed_hash : String → Bool
unfolding strip_prefix hex_digits
is_prefixed_hash value = with_prefix (strip_prefix "sha256:" value)

-- `toBlockchainHash`
unfoldable pub to_blockchain_hash : String → String
unfolding to_lower_case is_hash is_prefixed_hash
to_blockchain_hash value =
    let normalized = to_lower_case value in
    if is_prefixed_hash normalized
    then normalized
    else if is_hash normalized
    then "sha256:" <> normalized
    else normalized

-- `safeFailureReason`: every error of the modules has a message.
unfoldable pub safe_failure_reason : Error → String
unfolding trim
safe_failure_reason (external message) =
    if trim message =s "" then "blockchain_anchor_unavailable" else "blockchain_anchor_failed"
safe_failure_reason not_an_error = "blockchain_anchor_unavailable"
safe_failure_reason _ = "blockchain_anchor_failed"

-- `toAnchorInput`
unfoldable pub to_anchor_input : Platform → LifecycleEvent → AnchorEventInput
unfolding hash_opaque_identifier to_blockchain_hash
to_anchor_input p e = record {
  event_id = e.event_id;
  case_id_hash = hash_opaque_identifier p e.case_id;
  event_type = e.event_type;
  payload_hash = to_blockchain_hash e.payload_hash;
  schema_version = "procure-to-pay-lifecycle-event.v1";
  canonicalization = "json-canonical-v1";
  occurred_at = e.occurred_at;
  previous_event_hash = Option.map to_blockchain_hash e.previous_event_hash;
}

-- `metadataFromAnchorResult`
unfoldable pub metadata_from_anchor_result :
    AnchorEventInput → AnchorEventResult → String → BlockchainAnchorMetadata
metadata_from_anchor_result i r now = record {
  event_id = i.event_id;
  payload_hash = i.payload_hash;
  case_id_hash = some i.case_id_hash;
  anchor_status = r.anchor_status;
  blockchain_network = some r.blockchain_network;
  channel_name = r.channel_name;
  chaincode_name = r.chaincode_name;
  transaction_id = r.transaction_id;
  block_number = r.block_number;
  anchored_at = r.anchored_at;
  failure_reason = r.failure_reason;
  created_at = now;
  updated_at = now;
}

-- `failedMetadata`
unfoldable pub failed_metadata : AnchorEventInput → String → String → BlockchainAnchorMetadata
failed_metadata i now reason = record {
  event_id = i.event_id;
  payload_hash = i.payload_hash;
  case_id_hash = some i.case_id_hash;
  anchor_status = failed;
  blockchain_network = none;
  channel_name = none;
  chaincode_name = none;
  transaction_id = none;
  block_number = none;
  anchored_at = none;
  failure_reason = some reason;
  created_at = now;
  updated_at = now;
}

-- `catch { return null; }`
caught :
    Outcome Error BlockchainAnchorMetadata × World
    → Outcome Error (Option BlockchainAnchorMetadata) × World
caught (ok m, w) = (ok (some m), w)
caught (thrown e, w) = (ok none, w)

-- `return metadataRepository.save(…)` without `await`: what it throws is not caught.
returned :
    Outcome Error BlockchainAnchorMetadata × World
    → Outcome Error (Option BlockchainAnchorMetadata) × World
returned (ok m, w) = (ok (some m), w)
returned (thrown e, w) = (thrown e, w)

-- The `try` and the `catch` after the gateway has answered.
settle :
    MetadataRepository
    → AnchorEventInput
    → String
    → Outcome Error AnchorEventResult × World
    → Outcome Error (Option BlockchainAnchorMetadata) × World
unfolding caught returned
settle save i now (ok result, w) =
    returned (on_anchors (save (metadata_from_anchor_result i result now)) w)
settle save i now (thrown e, w) =
    caught (on_anchors (save (failed_metadata i now (safe_failure_reason e))) w)

anchor_with :
    Platform → Gateway → MetadataRepository → LifecycleEvent → App (Option BlockchainAnchorMetadata)
unfolding settle read_clock
anchor_with p gateway save e = do
  now ← read_clock p
  λ w. settle save (to_anchor_input p e) now (on_chain (gateway (to_anchor_input p e)) w)

anchor_if :
    Platform
    → Option Gateway
    → Option MetadataRepository
    → LifecycleEvent
    → App (Option BlockchainAnchorMetadata)
unfolding anchor_with
anchor_if p none save e = pure none
anchor_if p (some gateway) none e = pure none
anchor_if p (some gateway) (some save) e = anchor_with p gateway save e

-- `anchorProcureToPayLifecycleEvent`
unfoldable pub anchor_event :
    Platform → AnchorDependencies → LifecycleEvent → App (Option BlockchainAnchorMetadata)
unfolding anchor_if
anchor_event p d e = anchor_if p d.gateway d.metadata_repository e
