-- ===== src/Escrow/Current/Creations.antt =====
-- Where it has a log of lifecycle events, `createEscrow` (application/create-escrow.ts) leaves each
-- escrow with the event of its status, errors included.
use blockchain_based_e_procu.Prelude.{
  String, true, List, [], ◌∷◌, Option, some, ◌≡◌, refl, ◌+◌, inl, inr, arith, get_or, Option-cases,
  Bool-cases,
}
use blockchain_based_e_procu.Prelude.Text.{is_blank, includes}
use blockchain_based_e_procu.Prelude.Store
use blockchain_based_e_procu.Prelude.Effect.{Outcome, ok, thrown, and_then, pure, ◌>>=◌}
use blockchain_based_e_procu.Errors.{Error, Issue}
use blockchain_based_e_procu.Blockchain.Anchor.{BlockchainAnchorMetadata}
use blockchain_based_e_procu.Blockchain.Anchoring.Failure.{SameOutside}
use blockchain_based_e_procu.Lifecycle.Event.{LifecycleEvent}
use blockchain_based_e_procu.Lifecycle.Recording.{Stored, record_event_cases}
use blockchain_based_e_procu.Escrow.Record.{EscrowRecord}
use blockchain_based_e_procu.Escrow.Repository.{escrow_key, find_by_id, update}
use blockchain_based_e_procu.Escrow.Rules.{EscrowDependencies}
use blockchain_based_e_procu.Escrow.Invariant.{Memᴰ-last}
use blockchain_based_e_procu.Escrow.Transition.{anchor_recorded}
use blockchain_based_e_procu.Escrow.Transition.Effects.{update_found, anchor_recorded-SameOutside}
use blockchain_based_e_procu.Escrow.Upkeep.{create_cases, find-put}
use blockchain_based_e_procu.Escrow.Create.{
  CreateEscrowInput, NormalizedInput, CreateEscrowResult, created, create_issues, normalize,
  refusal,
}
use blockchain_based_e_procu.Escrow.Create.Write.{
  new_escrow, updated_escrow, created_event_input, finish, announce, commit_create, create_unless,
  create_valid, create_escrow,
}
use blockchain_based_e_procu.World.{World, App, Platform, read_clock, draw_id, on_escrows}
use blockchain_based_e_procu.Escrow.Current.{
  IsCurrent, AreCurrent, append-AreCurrent, put-AreCurrent,
}

module _ (p : Platform) (d : EscrowDependencies) (on : d.lifecycle ≡ true) where
  abbrev After : {A : Type 0} → Outcome Error A × World → Type 0
  After q = AreCurrent q.1.events q.1.escrows

  module _ (n : NormalizedInput) (now id : String) where
    abbrev fresh : EscrowRecord
    fresh = new_escrow n now id

    abbrev closing :
        Option LifecycleEvent → Option BlockchainAnchorMetadata → App CreateEscrowResult
    closing event metadata = do
      later ← read_clock p
      updated ← on_escrows (update (updated_escrow fresh later event metadata))
      pure (created updated)

    updated-IsCurrent :
        (w : World) (v : LifecycleEvent) (u : World) (later : String)
        (metadata : Option BlockchainAnchorMetadata)
        → Stored p (created_event_input n id) w v u
        → IsCurrent u.events (updated_escrow fresh later (some v) metadata)
    unfolding updated_escrow new_escrow created_event_input
    updated-IsCurrent w v u later metadata stored = (
      λ missing. refl,
      λ hash named. (
        v,
        rw stored.appended (Memᴰ-last v w.events),
        ground arith,
        stored.same_target,
        rw stored.same_type refl,
      ),
    )

    closing-AreCurrent :
        (event : Option LifecycleEvent) (u : World)
        (q : Outcome Error (Option BlockchainAnchorMetadata) × World)
        → SameOutside u q.1
        → AreCurrent u.events u.escrows
        → find_by_id id u.escrows ≡ some fresh
        → ((later : String) (metadata : Option BlockchainAnchorMetadata)
            → IsCurrent u.events (updated_escrow fresh later event metadata))
        → After (and_then q (closing event))
    unfolding read_clock updated_escrow new_escrow
    closing-AreCurrent event u (thrown x, v) same k found current =
        rw (same.same_events, same.same_escrows) k
    closing-AreCurrent event u (ok metadata, v) same k found current =
        let last : EscrowRecord = updated_escrow fresh (p.clock v.ticks) event metadata in
        rw (update_found last v.escrows {old = fresh} (rw same.same_escrows found)) (
          rw (same.same_events, same.same_escrows)
            (put-AreCurrent u.events last u.escrows (current (p.clock v.ticks) metadata) k))

    announce-AreCurrent :
        (w : World)
        → AreCurrent w.events w.escrows
        → find_by_id id w.escrows ≡ some fresh
        → After (announce p d n fresh w)
    unfolding announce finish new_escrow
    announce-AreCurrent w k found = elim (record_event_cases p (created_event_input n id) w) [
      | inl (x, v, q, quiet) ↦ rw (on, q, quiet.quiet_events, quiet.quiet_escrows) k
      | inr (event, v, q, stored) ↦
          rw (on, q)
            (closing-AreCurrent (some event) v (anchor_recorded p d.anchoring (some event) v)
              (anchor_recorded-SameOutside p d.anchoring (some event) v)
              (rw (stored.appended, stored.kept_escrows)
                (append-AreCurrent w.events (event ∷ []) w.escrows k))
              (rw stored.kept_escrows found)
              (λ later metadata. updated-IsCurrent w event v later metadata stored))
    ]

  module _ (n : NormalizedInput) (w : World) (h : AreCurrent w.events w.escrows) where
    abbrev fresh_now : EscrowRecord
    fresh_now = new_escrow n (p.clock w.ticks) (p.uuid w.drawn)

    commit_create-AreCurrent : After (commit_create p d n w)
    unfolding commit_create read_clock draw_id new_escrow
    commit_create-AreCurrent = elim (create_cases fresh_now w.escrows) [
      | inl (done, free) ↦ rw done (
          announce-AreCurrent n (p.clock w.ticks) (p.uuid w.drawn)
            (record w {
              ticks = w.ticks + 1;
              drawn = w.drawn + 1;
              escrows = Store.put escrow_key fresh_now w.escrows;
            })
            (put-AreCurrent w.events fresh_now w.escrows
              (λ missing. refl, λ hash named. absurd (cc named)) h)
            (find-put fresh_now w.escrows))
      | inr (x, q) ↦ rw q h
    ]

  create_valid-AreCurrent :
      (i : CreateEscrowInput) (issues : List Issue) (w : World)
      → AreCurrent w.events w.escrows
      → After (create_valid p d i issues w)
  unfolding create_valid create_unless
  create_valid-AreCurrent i [] w h = elim (Option-cases (refusal d (normalize i) w)) [
    | inl none_refused ↦ rw none_refused (commit_create-AreCurrent (normalize i) w h)
    | inr (result, stopped) ↦ rw stopped h
  ]
  create_valid-AreCurrent i (x ∷ issues) w h = h

  pub create_escrow-AreCurrent :
      (i : CreateEscrowInput) (w : World)
      → AreCurrent w.events w.escrows
      → After (create_escrow p d i w)
  unfolding create_escrow
  create_escrow-AreCurrent i w h = elim (Bool-cases (is_blank i.actor_user_id)) [
    | inl nobody ↦ rw nobody h
    | inr somebody ↦ elim (Bool-cases (includes (get_or i.actor_role_codes []) "buyer")) [
      | inl buyer ↦ rw (somebody, buyer) (create_valid-AreCurrent i (create_issues i) w h)
      | inr other ↦ rw (somebody, other) h
    ]
  ]
