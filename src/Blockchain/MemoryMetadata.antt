-- ===== src/Blockchain/MemoryMetadata.antt =====
-- infrastructure/in-memory-blockchain-anchor-metadata-repository.ts, and the anchoring of an event
-- with both in-memory parts.
use blockchain_based_e_procu.Prelude.{
  String, Bool, true, false, List, Option, some, ◌≡◌, refl, ◌∙◌, ap, ◌+◌, ◌≢◌, inl, inr, eq_refl,
  Option-cases, if◌then◌else◌,
}
use blockchain_based_e_procu.Prelude.Store
use blockchain_based_e_procu.Prelude.Effect.{Outcome, ok, thrown}
use blockchain_based_e_procu.Errors.{Error}
use blockchain_based_e_procu.Blockchain.Anchor.{
  AnchorEventInput, AnchorEventResult, OnChainAnchorRecord, BlockchainAnchorMetadata,
}
use blockchain_based_e_procu.Blockchain.Anchoring.{
  MetadataRepository, AnchorDependencies, anchor_event, to_anchor_input,
  metadata_from_anchor_result,
}
use blockchain_based_e_procu.Blockchain.MemoryGateway
use blockchain_based_e_procu.Lifecycle.Event.{LifecycleEvent}
use blockchain_based_e_procu.World.{World, Platform}

abbrev pub metadata_key : BlockchainAnchorMetadata → String
metadata_key m = m.event_id

-- `save`
unfoldable pub save_metadata : MetadataRepository
save_metadata m records = (ok m, Store.put metadata_key m records)

-- `findByEventId`
unfoldable pub find_by_event_id :
    String → List BlockchainAnchorMetadata → Option BlockchainAnchorMetadata
find_by_event_id id records = Store.get metadata_key id records

answer_of :
    (q : Outcome Error AnchorEventResult × List OnChainAnchorRecord)
    → ((x : Error) → q.0 ≢ thrown x)
    → (r : AnchorEventResult) × (after : List OnChainAnchorRecord) × (q ≡ (ok r, after))
answer_of (ok r, after) h = (r, after, refl)
answer_of (thrown x, after) h = absurd (h x refl)

gateway-never_throws :
    (down : Bool) (now : String) (i : AnchorEventInput) (chain : List OnChainAnchorRecord)
    (x : Error)
    → (MemoryGateway.anchor_event down now i chain).0 ≢ thrown x
unfolding MemoryGateway.anchor_event
gateway-never_throws true now i chain x h = cc h
gateway-never_throws false now i chain x h =
    elim (Option-cases (Store.get MemoryGateway.record_key i.event_id chain)) [
      | inl new ↦ cc (rw new at h)
      | inr (old, found) ↦ cc (rw found at h)
    ]

-- The in-memory gateway always answers.
gateway_answers :
    (down : Bool) (now : String) (i : AnchorEventInput) (chain : List OnChainAnchorRecord)
    → (r : AnchorEventResult) × (after : List OnChainAnchorRecord) × (MemoryGateway.anchor_event
          down now i chain
        ≡ (ok r, after))
gateway_answers down now i chain =
    answer_of (MemoryGateway.anchor_event down now i chain) (gateway-never_throws down now i chain)

-- Both parts in memory.
abbrev pub in_memory : Bool → String → AnchorDependencies
in_memory down now = record {
  gateway = some (MemoryGateway.anchor_event down now);
  metadata_repository = some save_metadata;
}

-- With both parts in memory, anchoring an event always returns metadata, whether the gateway is
-- available or not, and the metadata of the event is then found in the repository.
pub anchor_event-find_by_event_id :
    (p : Platform) (down : Bool) (now : String) (e : LifecycleEvent) (w : World)
    → (m : BlockchainAnchorMetadata) × (v : World) × (anchor_event p (in_memory down now) e w
        ≡ (ok (some m), v))
      × (find_by_event_id e.event_id v.anchors ≡ some m)
unfolding anchor_event save_metadata find_by_event_id to_anchor_input metadata_from_anchor_result
anchor_event-find_by_event_id p down now e w =
    let (r, after, answered) = gateway_answers down now (to_anchor_input p e) w.chain in
    let m : BlockchainAnchorMetadata =
      metadata_from_anchor_result (to_anchor_input p e) r (p.clock w.ticks) in
    (
      m,
      record w { ticks = w.ticks + 1; chain = after; anchors = Store.put metadata_key m w.anchors },
      rw answered refl,
      Store.get-put metadata_key e.event_id m w.anchors
          ∙ ap (λ b. if b then some m else Store.get metadata_key e.event_id w.anchors)
              (eq_refl e.event_id),
    )
