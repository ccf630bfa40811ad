-- ===== src/Blockchain/Anchoring/Failure.antt =====
-- When `anchorProcureToPayLifecycleEvent` throws, and what it leaves alone.
use blockchain_based_e_procu.Prelude.{String, Option, none, some, ◌≡◌, refl, ◌↔◌, ◌+◌}
use blockchain_based_e_procu.Prelude.Effect.{Outcome, ok, thrown}
use blockchain_based_e_procu.Errors.{Error}
use blockchain_based_e_procu.Blockchain.Anchor.{
  AnchorEventInput, AnchorEventResult, BlockchainAnchorMetadata,
}
use blockchain_based_e_procu.Blockchain.Anchoring.{
  Gateway, MetadataRepository, AnchorDependencies, caught, returned, settle, anchor_if,
  anchor_event, to_anchor_input, metadata_from_anchor_result,
}
use blockchain_based_e_procu.Lifecycle.Event.{LifecycleEvent}
use blockchain_based_e_procu.World.{World, Platform, on_chain}

-- The parts of the state that anchoring does not write.
pub record SameOutside (w v : World) : Type 0 where
  pub same_events : v.events ≡ w.events
  pub same_escrows : v.escrows ≡ w.escrows
  pub same_drawn : v.drawn ≡ w.drawn
  pub same_orders : v.orders ≡ w.orders
  pub same_invoices : v.invoices ≡ w.invoices
  pub same_cases : v.cases ≡ w.cases

caught_world : (q : Outcome Error BlockchainAnchorMetadata × World) → (caught q).1 ≡ q.1
unfolding caught
caught_world (ok m, w) = refl
caught_world (thrown e, w) = refl

returned_world : (q : Outcome Error BlockchainAnchorMetadata × World) → (returned q).1 ≡ q.1
unfolding returned
returned_world (ok m, w) = refl
returned_world (thrown e, w) = refl

settle-SameOutside :
    (save : MetadataRepository) (i : AnchorEventInput) (now : String) (w : World)
    (q : Outcome Error AnchorEventResult × World)
    → SameOutside w q.1
    → SameOutside w (settle save i now q).1
settle-SameOutside save i now w (ok result, v) h =
    unfold settle in
    rw returned_world (record {
      same_events = h.same_events;
      same_escrows = h.same_escrows;
      same_drawn = h.same_drawn;
      same_orders = h.same_orders;
      same_invoices = h.same_invoices;
      same_cases = h.same_cases;
    })
settle-SameOutside save i now w (thrown e, v) h =
    unfold settle in
    rw caught_world (record {
      same_events = h.same_events;
      same_escrows = h.same_escrows;
      same_drawn = h.same_drawn;
      same_orders = h.same_orders;
      same_invoices = h.same_invoices;
      same_cases = h.same_cases;
    })

anchor_if-SameOutside :
    (p : Platform) (gateway : Option Gateway) (save : Option MetadataRepository)
    (e : LifecycleEvent) (w : World)
    → SameOutside w (anchor_if p gateway save e w).1
unfolding anchor_if
anchor_if-SameOutside p none save e w = record {
  same_events = refl;
  same_escrows = refl;
  same_drawn = refl;
  same_orders = refl;
  same_invoices = refl;
  same_cases = refl;
}
anchor_if-SameOutside p (some gateway) none e w = record {
  same_events = refl;
  same_escrows = refl;
  same_drawn = refl;
  same_orders = refl;
  same_invoices = refl;
  same_cases = refl;
}
anchor_if-SameOutside p (some gateway) (some save) e w =
    settle-SameOutside save (to_anchor_input p e) (p.clock w.ticks) w _ (record {
      same_events = refl;
      same_escrows = refl;
      same_drawn = refl;
      same_orders = refl;
      same_invoices = refl;
      same_cases = refl;
    })

-- Anchoring changes neither the log, nor the escrows, nor the identifiers drawn, on any path.
pub anchor_event-SameOutside :
    (p : Platform) (d : AnchorDependencies) (e : LifecycleEvent) (w : World)
    → SameOutside w (anchor_event p d e w).1
unfolding anchor_event
anchor_event-SameOutside p d e w = anchor_if-SameOutside p d.gateway d.metadata_repository e w

caught-never_throws :
    (q : Outcome Error BlockchainAnchorMetadata × World) (x : Error) → ¬ ((caught q).0 ≡ thrown x)
unfolding caught
caught-never_throws (ok m, w) x h = cc
caught-never_throws (thrown e, w) x h = cc

returned-throws_iff :
    (q : Outcome Error BlockchainAnchorMetadata × World) (x : Error)
    → ((returned q).0 ≡ thrown x) ↔ (q.0 ≡ thrown x)
unfolding returned
returned-throws_iff (ok m, w) x = (λ h. absurd (cc h), λ h. absurd (cc h))
returned-throws_iff (thrown e, w) x = (λ h. cc h, λ h. cc h)

module _ (p : Platform) (save : MetadataRepository) (i : AnchorEventInput) (now : String)
    (x : Error) where
  -- After the answer `r` of the gateway, and in the state that it left.
  abbrev SaveThrows : Outcome Error AnchorEventResult → World → Type 0
  SaveThrows r w =
      (result : AnchorEventResult) × (r ≡ ok result)
      × ((save (metadata_from_anchor_result i result now) w.anchors).0 ≡ thrown x)

  settle-throws_iff :
      (q : Outcome Error AnchorEventResult × World)
      → ((settle save i now q).0 ≡ thrown x) ↔ SaveThrows q.0 q.1
  settle-throws_iff (ok result, w) =
      unfold settle in
      (
        λ h. (result, refl, (returned-throws_iff _ x).0 h),
        λ s. let same : result ≡ s.0 = cc (s.1) in (returned-throws_iff _ x).1 (rw same s.2),
      )
  settle-throws_iff (thrown e, w) =
      unfold settle in (λ h. absurd (caught-never_throws _ x h), λ s. absurd (cc (s.1)))

-- With a gateway and a metadata repository, anchoring throws exactly when the gateway answered and
-- saving the metadata made from its answer throws; the error is that of the repository.
pub anchor_event-throws_iff :
    (p : Platform) (gateway : Gateway) (save : MetadataRepository) (e : LifecycleEvent) (w : World)
    (x : Error)
    → ((anchor_event p (record { gateway = some gateway; metadata_repository = some save }) e w).0
        ≡ thrown x)
      ↔ ((result : AnchorEventResult) × ((gateway (to_anchor_input p e) w.chain).0 ≡ ok result)
          × ((save
                (metadata_from_anchor_result (to_anchor_input p e) result (p.clock w.ticks))
                w.anchors).0
              ≡ thrown x))
unfolding anchor_event
anchor_event-throws_iff p gateway save e w x =
    settle-throws_iff p save (to_anchor_input p e) (p.clock w.ticks) x
      (on_chain (gateway (to_anchor_input p e)) (record w { ticks = w.ticks + 1 }))
