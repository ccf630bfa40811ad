-- ===== src/Escrow/Outcomes.antt =====
-- How `transitionEscrow` (application/transition-escrow.ts) ends once every test is passed, and what it
-- leaves in the log.
use blockchain_based_e_procu.Prelude.{
  Bool, true, false, String, List, [], ◌∷◌, ◌++◌, Option, none, some, ◌≡◌, refl, ◌∙◌, ◌+◌, ◌⊎◌, inl,
  inr, Bool-cases, get_or, sym, subst,
}
use blockchain_based_e_procu.Prelude.Text.{trim_optional}
use blockchain_based_e_procu.Prelude.Store
use blockchain_based_e_procu.Prelude.Effect.{Outcome, ok, thrown, and_then, pure, ◌>>=◌}
use blockchain_based_e_procu.Errors.{Error}
use blockchain_based_e_procu.Blockchain.Anchor.{BlockchainAnchorMetadata}
use blockchain_based_e_procu.Blockchain.Anchoring.{anchor_event}
use blockchain_based_e_procu.Blockchain.Anchoring.Failure.{SameOutside}
use blockchain_based_e_procu.Lifecycle.Event.{LifecycleEvent, EventInput}
use blockchain_based_e_procu.Lifecycle.Recording.{Stored, record_event_cases}
use blockchain_based_e_procu.Lifecycle.Source.{record_event}
use blockchain_based_e_procu.Escrow.Record.{EscrowRecord, ReleaseConditions}
use blockchain_based_e_procu.Escrow.Repository.{escrow_key, find_by_id, update}
use blockchain_based_e_procu.Escrow.Rules.{TransitionInput, TransitionSpec, EscrowDependencies}
use blockchain_based_e_procu.Escrow.Decision.{TransitionResult, transitioned}
use blockchain_based_e_procu.Escrow.Decision.Granted.{Granted, Granted-decide}
use blockchain_based_e_procu.Escrow.Soundness.{Moved, next_id, next-Moved}
use blockchain_based_e_procu.Escrow.Transition.{
  event_input, next_escrow, carry_out, transition_escrow, commit, anchor_recorded,
}
use blockchain_based_e_procu.Escrow.Transition.Effects.{
  Logged, unlogged, logged, update_found, anchor_recorded-SameOutside,
}
use blockchain_based_e_procu.World.{World, App, Platform, read_clock, on_escrows}

-- What a transition leaves in the log: without a log nothing; with one, exactly one event at its end,
-- about the escrow, chained to the event that the escrow named before, and named by it now.
pub data Noted (lifecycle : Bool) (i : TransitionInput) (e : EscrowRecord) (type : String)
    (next : EscrowRecord) (before after : List LifecycleEvent) : Type 0 where
  unnoted :
      lifecycle ≡ false
      → after ≡ before
      → next.lifecycle_event_id ≡ e.lifecycle_event_id
      → next.lifecycle_event_hash ≡ e.lifecycle_event_hash
      → Noted lifecycle i e type next before after
  noted :
      (f : LifecycleEvent)
      → after ≡ before ++ f ∷ []
      → next.lifecycle_event_id ≡ some f.event_id
      → next.lifecycle_event_hash ≡ some f.payload_hash
      → f.previous_event_hash ≡ e.lifecycle_event_hash
      → f.event_type ≡ type
      → f.target_id ≡ e.escrow_id
      → f.case_id ≡ e.order_id
      → f.actor_user_id ≡ get_or i.actor_user_id ""
      → Noted lifecycle i e type next before after

module _ (p : Platform) (d : EscrowDependencies) (i : TransitionInput) (w : World)
    (e : EscrowRecord) (spec : TransitionSpec) (reason : Option String) (c : ReleaseConditions)
    (g : Granted p d i w e spec reason c) where
  abbrev next : Option LifecycleEvent → Option BlockchainAnchorMetadata → EscrowRecord
  next = next_escrow e spec reason c (p.clock w.ticks)

  -- The escrow has moved as the table says, and the log tells it.
  pub record Done (n : EscrowRecord) (v : World) : Type 0 where
    pub moved : Moved i w.escrows e n v.escrows
    pub new_status : n.status ≡ spec.next_status
    pub new_reason : n.status_reason ≡ trim_optional i.reason
    pub new_summary : n.release_condition_summary ≡ some c
    pub new_time : n.updated_at ≡ p.clock w.ticks
    pub noted_as : Noted d.lifecycle i e spec.event_type n w.events v.events

  next-Noted :
      (event : Option LifecycleEvent) (metadata : Option BlockchainAnchorMetadata)
      (log : List LifecycleEvent)
      → Logged p d.lifecycle
          (event_input i e spec reason c (p.clock w.ticks))
          (record w { ticks = w.ticks + 1 })
          event
          log
      → Noted d.lifecycle i e spec.event_type (next event metadata) w.events log
  unfolding next_escrow event_input
  next-Noted event metadata log (unlogged off missing same) =
      unnoted off same (rw missing refl) (rw missing refl)
  next-Noted event metadata log (logged f v is stored same) =
      noted f (same ∙ stored.appended) (rw is refl) (rw is refl) stored.same_previous
        stored.same_type stored.same_target stored.same_case stored.same_actor

  next-Done :
      (event : Option LifecycleEvent) (metadata : Option BlockchainAnchorMetadata) (v : World)
      → Logged p d.lifecycle
          (event_input i e spec reason c (p.clock w.ticks))
          (record w { ticks = w.ticks + 1 })
          event
          v.events
      → v.escrows ≡ Store.put escrow_key (next event metadata) w.escrows
      → Done (next event metadata) v
  next-Done event metadata v log put = record {
    moved = rw put (next-Moved p d i w e spec reason c (p.clock w.ticks) event metadata g);
    new_status = unfold next_escrow in refl;
    new_reason = unfold next_escrow in g.given;
    new_summary = unfold next_escrow in refl;
    new_time = unfold next_escrow in refl;
    noted_as = next-Noted event metadata v.events log;
  }

  abbrev input : EventInput
  input = event_input i e spec reason c (p.clock w.ticks)

  abbrev later : World
  later = record w { ticks = w.ticks + 1 }

  -- Why a call throws: the recording of the event of this transition does, or it is recorded and its
  -- anchoring throws.
  pub data Because (x : Error) (v : World) : Type 0 where
    not_recorded : record_event p true input none later ≡ (thrown x, v) → Because x v
    not_anchored :
        (f : LifecycleEvent) (u : World)
        → record_event p true input none later ≡ (ok (some f), u)
        → anchor_event p d.anchoring f u ≡ (thrown x, v)
        → Because x v

  abbrev Ends : Outcome Error TransitionResult × World → Type 0
  Ends q =
      ((n : EscrowRecord) × (v : World) × (q ≡ (ok (transitioned n c), v)) × Done n v)
      ⊎ ((x : Error) × (v : World) × (q ≡ (thrown x, v))
          × (v.escrows ≡ w.escrows)
          × (d.lifecycle ≡ true)
          × Because x v)

  -- Without a log nothing can throw.
  commit_unlogged : d.lifecycle ≡ false → Ends (commit p d i e spec reason c w)
  unfolding commit read_clock record_event anchor_recorded next_escrow
  commit_unlogged off = inl (
    next none none,
    record w { ticks = w.ticks + 1; escrows = Store.put escrow_key (next none none) w.escrows },
    rw off (rw (update_found (next none none) w.escrows (next_id p d i w e g.found)) refl),
    next-Done none none _ (unlogged off refl refl) refl,
  )

  -- The end of the writes, after the anchoring.
  abbrev ending : Option LifecycleEvent → Option BlockchainAnchorMetadata → App TransitionResult
  ending event metadata = do
    updated ← on_escrows (update (next event metadata))
    pure (transitioned updated c)

  recorded-Ends :
      d.lifecycle ≡ true
      → (f : LifecycleEvent) (u : World) → record_event p true input none later ≡ (ok (some f), u)
      → Stored p input later f u
      → (q : Outcome Error (Option BlockchainAnchorMetadata) × World)
      → anchor_event p d.anchoring f u ≡ q
      → SameOutside u q.1
      → Ends (and_then q (ending (some f)))
  unfolding next_escrow
  recorded-Ends on f u recorded stored (thrown x, v) same kept =
      inr (x, v, refl, kept.same_escrows ∙ stored.kept_escrows, on, not_anchored f u recorded same)
  recorded-Ends on f u recorded stored (ok metadata, v) same kept =
      let last : EscrowRecord = next (some f) metadata in
      let end : World = record v { escrows = Store.put escrow_key last v.escrows } in
      let there : find_by_id last.escrow_id v.escrows ≡ some e =
        rw (kept.same_escrows, stored.kept_escrows) (next_id p d i w e g.found) in
      inl (
        last,
        end,
        rw (update_found last v.escrows there) refl,
        next-Done (some f) metadata end (logged f u refl stored kept.same_events)
            (rw (kept.same_escrows, stored.kept_escrows) refl),
      )

  abbrev after_event : Option LifecycleEvent → App TransitionResult
  after_event event u = and_then (anchor_recorded p d.anchoring event u) (ending event)

  commit-recorded :
      d.lifecycle ≡ true
      → (q : Outcome Error (Option LifecycleEvent) × World)
      → record_event p true input none later ≡ q
      → commit p d i e spec reason c w ≡ and_then q after_event
  unfolding commit read_clock
  commit-recorded on q same = rw on (rw same refl)

  commit_logged : d.lifecycle ≡ true → Ends (commit p d i e spec reason c w)
  unfolding anchor_recorded
  commit_logged on = elim (record_event_cases p input later) [
    | inl (x, v, q, quiet) ↦
        inr (x, v, commit-recorded on (thrown x, v) q, quiet.quiet_escrows, on, not_recorded q)
    | inr (f, u, q, stored) ↦ subst Ends (sym (commit-recorded on (ok (some f), u) q)) (
        recorded-Ends on f u q stored (anchor_event p d.anchoring f u) refl
          (anchor_recorded-SameOutside p d.anchoring (some f) u))
  ]

  -- When every test is passed, the call either reports the transition: the escrow has moved along the
  -- table with the given reason, the conditions and the time, and with a log there is exactly one new
  -- event, which is about this transition, is chained to the event that the escrow named before, and
  -- is the one that it names now. Or it throws, which happens with a log only, where the recording of
  -- the event of this transition throws, or its anchoring does after that; the escrows are then as
  -- they were.
  pub transition_escrow-outcomes :
      ((n : EscrowRecord) × (v : World) × (transition_escrow p d i w ≡ (ok (transitioned n c), v))
        × Done n v)
      ⊎ ((x : Error) × (v : World) × (transition_escrow p d i w ≡ (thrown x, v))
          × (v.escrows ≡ w.escrows)
          × (d.lifecycle ≡ true)
          × Because x v)
  unfolding transition_escrow carry_out
  transition_escrow-outcomes =
      rw (Granted-decide p d i w e spec reason c g) (elim (Bool-cases d.lifecycle) [
        | inl on ↦ commit_logged on
        | inr off ↦ commit_unlogged off
      ])
