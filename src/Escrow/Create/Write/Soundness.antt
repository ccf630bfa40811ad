-- ===== src/Escrow/Create/Write/Soundness.antt =====
-- That `createEscrow` (application/create-escrow.ts) keeps the escrows and the log sound.

use blockchain_based_e_procu.Prelude.{
  String, Bool, true, false, List, [], ◌∷◌, Option, none, some, ◌≡◌, refl, ◌+◌, ◌≢◌, inl, inr,
  arith, All-map, get_or, Option-cases, Bool-cases,
}
use blockchain_based_e_procu.Prelude.Text.{is_blank, includes}
use blockchain_based_e_procu.Prelude.Store
use blockchain_based_e_procu.Prelude.Store.{HasUniqueKeys}
use blockchain_based_e_procu.Prelude.Effect.{Outcome, ok, thrown, and_then, pure, ◌>>=◌}
use blockchain_based_e_procu.Errors.{Error, Issue}
use blockchain_based_e_procu.Blockchain.Anchor.{BlockchainAnchorMetadata}
use blockchain_based_e_procu.Blockchain.Anchoring.Failure.{SameOutside}
use blockchain_based_e_procu.Lifecycle.Event.{LifecycleEvent}
use blockchain_based_e_procu.Lifecycle.Recording.{Stored, record_event_cases}
use blockchain_based_e_procu.Lifecycle.Source.{record_event}
use blockchain_based_e_procu.Escrow.Record.{EscrowRecord}
use blockchain_based_e_procu.Escrow.Repository.{escrow_key, find_by_id, update}
use blockchain_based_e_procu.Escrow.Rules.{EscrowDependencies}
use blockchain_based_e_procu.Escrow.Invariant.{Rival, Rival-sym, IsLinked, IsSound, Memᴰ-last}
use blockchain_based_e_procu.Escrow.Transition.{anchor_recorded}
use blockchain_based_e_procu.Escrow.Transition.Effects.{anchor_recorded-SameOutside, update_found}
use blockchain_based_e_procu.Escrow.Upkeep.{
  append-IsSound, put-IsSound, free-Rival, create_cases, find-put,
}
use blockchain_based_e_procu.Escrow.Create.{
  CreateEscrowInput, NormalizedInput, CreateEscrowResult, created, create_issues, normalize,
  refusal,
}
use blockchain_based_e_procu.Escrow.Create.Write.{
  new_escrow, updated_escrow, created_event_input, finish, announce, commit_create, create_unless,
  create_valid, create_escrow,
}
use blockchain_based_e_procu.World.{World, App, Platform, read_clock, draw_id, on_escrows}

module _ (p : Platform) (d : EscrowDependencies) where
  abbrev Sound : {A : Type 0} → Outcome Error A × World → Type 0
  Sound q = IsSound q.1.events q.1.escrows

  module _ (e : EscrowRecord) (event : Option LifecycleEvent) where
    -- The end of the writes, after the anchoring.
    abbrev closing : Option BlockchainAnchorMetadata → App CreateEscrowResult
    closing metadata = do
      now ← read_clock p
      updated ← on_escrows (update (updated_escrow e now event metadata))
      pure (created updated)

    abbrev Linked : List LifecycleEvent → Type 0
    Linked log =
        (now : String) (metadata : Option BlockchainAnchorMetadata)
        → IsLinked log (updated_escrow e now event metadata)

    closing-Sound :
        (metadata : Option BlockchainAnchorMetadata) (u : World)
        → IsSound u.events u.escrows
        → find_by_id e.escrow_id u.escrows ≡ some e
        → Linked u.events
        → Sound (closing metadata u)
    unfolding read_clock find_by_id updated_escrow
    closing-Sound metadata u sound found linked =
        let next : EscrowRecord = updated_escrow e (p.clock u.ticks) event metadata in
        rw (update_found next u.escrows found) (
          put-IsSound u.events u.escrows next sound
            (All-map (λ x. escrow_key x ≢ e.escrow_id → Rival e x)
              (λ x. escrow_key x ≢ escrow_key next → Rival next x) (λ x r apart. r apart) u.escrows
              (Store.Pairwise-get escrow_key Rival Rival-sym e.escrow_id u.escrows sound.one_active
                found))
            (linked (p.clock u.ticks) metadata))

    anchored-Sound :
        (w : World) (q : Outcome Error (Option BlockchainAnchorMetadata) × World)
        → SameOutside w q.1
        → IsSound w.events w.escrows
        → find_by_id e.escrow_id w.escrows ≡ some e
        → Linked w.events
        → Sound (and_then q closing)
    anchored-Sound w (ok metadata, u) same sound found linked =
        closing-Sound metadata u (rw (same.same_events, same.same_escrows) sound)
          (rw same.same_escrows found) (rw same.same_events linked)
    anchored-Sound w (thrown x, u) same sound found linked =
        rw (same.same_events, same.same_escrows) sound

    finish-Sound :
        (w : World)
        → IsSound w.events w.escrows
        → find_by_id e.escrow_id w.escrows ≡ some e
        → Linked w.events
        → Sound (finish p d e event w)
    unfolding finish
    finish-Sound w =
        anchored-Sound w (anchor_recorded p d.anchoring event w)
          (anchor_recorded-SameOutside p d.anchoring event w)

  module _ (n : NormalizedInput) (now id : String) where
    abbrev fresh : EscrowRecord
    fresh = new_escrow n now id

    unlogged-Linked : (log : List LifecycleEvent) → Linked fresh none log
    unfolding updated_escrow
    unlogged-Linked log later metadata hash named = absurd (ground arith)

    logged-Linked :
        (w : World) (v : LifecycleEvent) (u : World)
        → Stored p (created_event_input n id) w v u
        → Linked fresh (some v) u.events
    unfolding updated_escrow new_escrow created_event_input
    logged-Linked w v u stored later metadata hash named = (
      v,
      rw stored.appended (Memᴰ-last v w.events),
      ground arith,
      stored.same_case,
      stored.same_correlation,
    )

    announce-Sound :
        (w : World)
        → IsSound w.events w.escrows
        → find_by_id id w.escrows ≡ some fresh
        → (lifecycle : Bool) → d.lifecycle ≡ lifecycle
        → Sound (announce p d n fresh w)
    unfolding announce new_escrow
    announce-Sound w sound found false off =
        unfold record_event in
        rw off (finish-Sound fresh none w sound found (unlogged-Linked w.events))
    announce-Sound w sound found true on =
        elim (record_event_cases p (created_event_input n id) w) [
          | inl (x, v, q, quiet) ↦ rw (on, q, quiet.quiet_events, quiet.quiet_escrows) sound
          | inr (event, v, q, stored) ↦
              rw (on, q)
                (finish-Sound fresh (some event) v
                  (rw (stored.appended, stored.kept_escrows)
                    (append-IsSound w.events w.escrows event sound stored.may_append))
                  (rw stored.kept_escrows found) (logged-Linked w event v stored))
        ]

  module _ (n : NormalizedInput) (w : World) (sound : IsSound w.events w.escrows) where
    abbrev fresh_now : EscrowRecord
    fresh_now = new_escrow n (p.clock w.ticks) (p.uuid w.drawn)

    abbrev after_create : List EscrowRecord → World
    after_create escrows = record w { ticks = w.ticks + 1; drawn = w.drawn + 1; escrows = escrows }

    commit_create-Sound : Sound (commit_create p d n w)
    unfolding commit_create read_clock draw_id new_escrow
    commit_create-Sound = elim (create_cases fresh_now w.escrows) [
      | inl (done, free) ↦ rw done (
          announce-Sound n (p.clock w.ticks) (p.uuid w.drawn)
            (after_create (Store.put escrow_key fresh_now w.escrows))
            (put-IsSound w.events w.escrows fresh_now sound (free-Rival fresh_now w.escrows free)
              (λ hash named. absurd (ground arith)))
            (find-put fresh_now w.escrows) d.lifecycle refl)
      | inr (x, q) ↦ rw q sound
    ]

  create_valid-Sound :
      (i : CreateEscrowInput) (issues : List Issue) (w : World)
      → IsSound w.events w.escrows
      → Sound (create_valid p d i issues w)
  unfolding create_valid create_unless
  create_valid-Sound i [] w sound = elim (Option-cases (refusal d (normalize i) w)) [
    | inl none_refused ↦ rw none_refused (commit_create-Sound (normalize i) w sound)
    | inr (result, stopped) ↦ rw stopped sound
  ]
  create_valid-Sound i (x ∷ issues) w sound = sound

  -- A creation keeps the escrows and the log sound, however the call ends.
  pub create_escrow-IsSound :
      (i : CreateEscrowInput) (w : World)
      → IsSound w.events w.escrows
      → IsSound (create_escrow p d i w).1.events (create_escrow p d i w).1.escrows
  unfolding create_escrow
  create_escrow-IsSound i w sound = elim (Bool-cases (is_blank i.actor_user_id)) [
    | inl nobody ↦ rw nobody sound
    | inr somebody ↦ elim (Bool-cases (includes (get_or i.actor_role_codes []) "buyer")) [
      | inl buyer ↦ rw (somebody, buyer) (create_valid-Sound i (create_issues i) w sound)
      | inr other ↦ rw (somebody, other) sound
    ]
  ]
