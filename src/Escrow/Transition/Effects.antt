-- ===== src/Escrow/Transition/Effects.antt =====
-- What the writes of `transitionEscrow` come to: the ways they end, and the state after each.
use blockchain_based_e_procu.Prelude.{
  String, Bool, true, false, List, Option, none, some, ◌≡◌, refl, ◌∙◌, inl, inr, arith, ◌+◌,
}
use blockchain_based_e_procu.Prelude.Store
use blockchain_based_e_procu.Prelude.Effect.{Outcome, ok, thrown, and_then, pure, ◌>>=◌}
use blockchain_based_e_procu.Errors.{Error}
use blockchain_based_e_procu.Blockchain.Anchor.{BlockchainAnchorMetadata}
use blockchain_based_e_procu.Blockchain.Anchoring.{AnchorDependencies}
use blockchain_based_e_procu.Blockchain.Anchoring.Failure.{SameOutside, anchor_event-SameOutside}
use blockchain_based_e_procu.Lifecycle.Event.{LifecycleEvent, EventInput}
use blockchain_based_e_procu.Lifecycle.Source.{record_event}
use blockchain_based_e_procu.Lifecycle.Recording.{Stored, record_event_cases}
use blockchain_based_e_procu.Escrow.Record.{EscrowRecord, ReleaseConditions}
use blockchain_based_e_procu.Escrow.Repository.{escrow_key, find_by_id, update}
use blockchain_based_e_procu.Escrow.Rules.{TransitionInput, TransitionSpec, EscrowDependencies}
use blockchain_based_e_procu.Escrow.Decision.{TransitionResult, transitioned}
use blockchain_based_e_procu.Escrow.Transition.{event_input, next_escrow, anchor_recorded, commit}
use blockchain_based_e_procu.World.{World, App, Platform, on_escrows}

-- The log after the event, and the event where there is a repository.
pub data Logged (p : Platform) (lifecycle : Bool) (i : EventInput) (w : World)
    (event : Option LifecycleEvent) (log : List LifecycleEvent) : Type 0 where
  unlogged : lifecycle ≡ false → event ≡ none → log ≡ w.events → Logged p lifecycle i w event log
  logged :
      (e : LifecycleEvent) (v : World)
      → event ≡ some e
      → Stored p i w e v
      → log ≡ v.events
      → Logged p lifecycle i w event log

pub anchor_recorded-SameOutside :
    (p : Platform) (d : AnchorDependencies) (event : Option LifecycleEvent) (w : World)
    → SameOutside w (anchor_recorded p d event w).1
unfolding anchor_recorded
anchor_recorded-SameOutside p d none w = record {
  same_events = refl;
  same_escrows = refl;
  same_drawn = refl;
  same_orders = refl;
  same_invoices = refl;
  same_cases = refl;
}
anchor_recorded-SameOutside p d (some event) w = anchor_event-SameOutside p d event w

-- An update of an entry that is there writes it.
pub update_found :
    (e : EscrowRecord) (escrows : List EscrowRecord) {old : EscrowRecord}
    → find_by_id e.escrow_id escrows ≡ some old
    → update e escrows ≡ (ok e, Store.put escrow_key e escrows)
unfolding update
update_found e escrows h = ground arith

module _ (p : Platform) (d : EscrowDependencies) (i : TransitionInput) (w : World)
    (e : EscrowRecord) (spec : TransitionSpec) (reason : Option String)
    (c : ReleaseConditions) where
  abbrev now : String
  now = p.clock w.ticks

  abbrev later : World
  later = record w { ticks = w.ticks + 1 }

  abbrev input : EventInput
  input = event_input i e spec reason c now

  abbrev next : Option LifecycleEvent → Option BlockchainAnchorMetadata → EscrowRecord
  next = next_escrow e spec reason c now

  -- The event is refused; or the event is written and the anchoring throws; or all is written.
  pub data Committed : Outcome Error TransitionResult × World → Type 0 where
    refused :
        {q : Outcome Error TransitionResult × World} (x : Error) (v : World)
        → q ≡ (thrown x, v)
        → v.events ≡ w.events
        → v.escrows ≡ w.escrows
        → Committed q
    unanchored :
        {q : Outcome Error TransitionResult × World} (x : Error) (v : World)
        (event : Option LifecycleEvent)
        → q ≡ (thrown x, v)
        → Logged p d.lifecycle input later event v.events
        → v.escrows ≡ w.escrows
        → Committed q
    written :
        {q : Outcome Error TransitionResult × World} (v : World) (event : Option LifecycleEvent)
        (metadata : Option BlockchainAnchorMetadata)
        → q ≡ (ok (transitioned (next event metadata) c), v)
        → Logged p d.lifecycle input later event v.events
        → v.escrows ≡ Store.put escrow_key (next event metadata) w.escrows
        → Committed q

  -- The end of the writes, after the anchoring.
  abbrev ending : Option LifecycleEvent → Option BlockchainAnchorMetadata → App TransitionResult
  ending event metadata = do
    updated ← on_escrows (update (next event metadata))
    pure (transitioned updated c)

  ending_cases :
      find_by_id e.escrow_id w.escrows ≡ some e
      → (event : Option LifecycleEvent) (v : World)
      → Logged p d.lifecycle input later event v.events
      → v.escrows ≡ w.escrows
      → (q : Outcome Error (Option BlockchainAnchorMetadata) × World) → SameOutside v q.1
      → Committed (and_then q (ending event))
  unfolding next_escrow
  ending_cases found event v log kept (ok metadata, u) same =
      let there : find_by_id (next event metadata).escrow_id u.escrows ≡ some e =
        rw (same.same_escrows, kept) found in
      written (record u { escrows = Store.put escrow_key (next event metadata) u.escrows }) event
        metadata (rw (update_found (next event metadata) u.escrows there)) (rw same.same_events log)
        (rw (same.same_escrows, kept))
  ending_cases found event v log kept (thrown x, u) same =
      unanchored x u event refl (rw same.same_events log) (same.same_escrows ∙ kept)

  -- The writes after the event.
  tail_cases :
      find_by_id e.escrow_id w.escrows ≡ some e
      → (event : Option LifecycleEvent) (v : World)
      → Logged p d.lifecycle input later event v.events
      → v.escrows ≡ w.escrows
      → Committed (and_then (anchor_recorded p d.anchoring event v) (ending event))
  tail_cases found event v log kept =
      ending_cases found event v log kept (anchor_recorded p d.anchoring event v)
        (anchor_recorded-SameOutside p d.anchoring event v)

  recorded_cases :
      find_by_id e.escrow_id w.escrows ≡ some e
      → (lifecycle : Bool) → d.lifecycle ≡ lifecycle
      → Committed (
          and_then
            (record_event p lifecycle input none later)
            (λ event. λ v. and_then (anchor_recorded p d.anchoring event v) (ending event)))
  recorded_cases found false off =
      unfold record_event in tail_cases found none later (unlogged off refl refl) refl
  recorded_cases found true on = elim (record_event_cases p input later) [
    | inl (x, v, q, quiet) ↦ rw q (refused x v refl quiet.quiet_events quiet.quiet_escrows)
    | inr (event, v, q, stored) ↦
        rw q (tail_cases found (some event) v (logged event v refl stored refl) stored.kept_escrows)
  ]

  -- The ways in which the writes end, where the escrow is in the repository.
  pub commit_cases :
      find_by_id e.escrow_id w.escrows ≡ some e → Committed (commit p d i e spec reason c w)
  unfolding commit
  commit_cases found = recorded_cases found d.lifecycle refl
