-- ===== src/Tests/Records.antt =====
-- Events, anchors and canonical texts.
use blockchain_based_e_procu.Prelude.{false, [], ◌∷◌, ◌++◌, none, some, ◌≡◌, refl, ◌≢◌, ◌↔◌}
use blockchain_based_e_procu.Prelude.Text.{trim}
use blockchain_based_e_procu.Prelude.Store
use blockchain_based_e_procu.Prelude.Effect.{ok, thrown, throw}
use blockchain_based_e_procu.Errors.{external}
use blockchain_based_e_procu.Json.{str, obj, end, field, undefined, canonicalize}
use blockchain_based_e_procu.Json.Reordering.{objects, drop, canonicalize-Alike}
use blockchain_based_e_procu.Lifecycle.Event.{success}
use blockchain_based_e_procu.Lifecycle.Log.{save}
use blockchain_based_e_procu.Lifecycle.Integrity.{IsIntact, CanAppend, save_iff, save-IsIntact}
use blockchain_based_e_procu.Lifecycle.Builder.{validate_input}
use blockchain_based_e_procu.Lifecycle.Source.{SourceEventInput, delivery_recorded, mapped_input}
use blockchain_based_e_procu.Lifecycle.Stages.{mapped_input-valid}
use blockchain_based_e_procu.Blockchain.Anchor.{AnchorEventResult, OnChainAnchorRecord}
use blockchain_based_e_procu.Blockchain.Anchoring.{
  Gateway, MetadataRepository, to_anchor_input, metadata_from_anchor_result,
}
use blockchain_based_e_procu.Blockchain.Anchoring
use blockchain_based_e_procu.Blockchain.Anchoring.Failure.{anchor_event-throws_iff}
use blockchain_based_e_procu.Blockchain.MemoryGateway.{
  record_key, anchor_event, verify_event, mismatch, get-anchor_event, verify-anchor_event,
}
use blockchain_based_e_procu.Tests.Data.{platform, empty_world, event, next_event, anchor_input}
use blockchain_based_e_procu.Blockchain.MemoryMetadata.{
  in_memory, find_by_event_id, anchor_event-find_by_event_id,
}
use blockchain_based_e_procu.Blockchain.Anchor.{BlockchainAnchorMetadata}
use blockchain_based_e_procu.World.{World}

one-IsIntact : IsIntact (event ∷ [])
one-IsIntact = record {
  unique_ids = (tt, tt);
  unique_hashes = (tt, tt);
  linked = (λ hash named. absurd (cc named), tt);
}

save_iff_example :
    (save next_event (event ∷ []) ≡ (ok next_event, (event ∷ []) ++ next_event ∷ []))
    ↔ CanAppend (event ∷ []) next_event
save_iff_example = save_iff (event ∷ []) next_event one-IsIntact

save-IsIntact_example : IsIntact (save next_event (event ∷ [])).1
save-IsIntact_example = save-IsIntact (event ∷ []) next_event one-IsIntact

abbrev recorded : SourceEventInput
recorded = record {
  request_id = "r1";
  actor_user_id = "u1";
  correlation_id = "o1";
  case_id = "o1";
  source_id = "d1";
  source_action = delivery_recorded;
  outcome = success;
  occurred_at = none;
  recorded_at = none;
  previous_event_hash = none;
  source_payload_ref = none;
  source_record_ref = none;
  anchor_ref = none;
  metadata = none;
}

mapped_input-valid_example :
    (validate_input (mapped_input recorded) ≡ none)
    ↔ ((trim "r1" ≢ "") × (trim "u1" ≢ "") × (trim "o1" ≢ "") × (trim "o1" ≢ "") × (trim "d1" ≢ ""))
mapped_input-valid_example = mapped_input-valid recorded

abbrev gateway : Gateway
gateway = anchor_event false "t2"

-- A metadata repository that is out of reach.
abbrev broken : MetadataRepository
broken m = throw (external "connection lost")

anchor_event-throws_iff_example :
    ((Anchoring.anchor_event platform
        (record { gateway = some gateway; metadata_repository = some broken })
        event
        empty_world).0
      ≡ thrown (external "connection lost"))
    ↔ ((result : AnchorEventResult) × ((gateway (to_anchor_input platform event) []).0 ≡ ok result)
        × ((broken
              (metadata_from_anchor_result
                (to_anchor_input platform event)
                result
                "2026-06-01T00:00:00.000Z")
              []).0
            ≡ thrown (external "connection lost")))
anchor_event-throws_iff_example =
    anchor_event-throws_iff platform gateway broken event empty_world (external "connection lost")

abbrev old_record : OnChainAnchorRecord
old_record = record { input = anchor_input; anchored_at = "t1" }

get-anchor_event_example :
    Store.get record_key "v1" (anchor_event false "t2" anchor_input (old_record ∷ [])).1
    ≡ some old_record
unfolding Store.get
get-anchor_event_example =
    get-anchor_event false "t2" anchor_input (old_record ∷ []) "v1" old_record refl

verify-anchor_event_example :
    (verify_event false "v1" "p2" (anchor_event false "t2" anchor_input []).1).verification_status
    ≡ mismatch
unfolding Store.get
verify-anchor_event_example = verify-anchor_event "t2" anchor_input [] "p2" refl

canonicalize-Alike_example :
    canonicalize (obj (field "reason" undefined (field "a" (str "x") end)))
    ≡ canonicalize (obj (field "a" (str "x") end))
canonicalize-Alike_example =
    canonicalize-Alike (obj (field "reason" undefined (field "a" (str "x") end)))
      (obj (field "a" (str "x") end)) (objects drop)

anchor_event-find_by_event_id_example :
    (m : BlockchainAnchorMetadata) × (v : World) × (Anchoring.anchor_event platform
        (in_memory false "t2")
        event
        empty_world
      ≡ (ok (some m), v))
    × (find_by_event_id "v1" v.anchors ≡ some m)
anchor_event-find_by_event_id_example =
    anchor_event-find_by_event_id platform false "t2" event empty_world
