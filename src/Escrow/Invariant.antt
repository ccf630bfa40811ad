-- ===== src/Escrow/Invariant.antt =====
-- The invariant of the escrows and the log of lifecycle events, and that `transitionEscrow` keeps it
-- on every path, errors included.
use mathlib.Core.List.{Memᴰ}
use blockchain_based_e_procu.Prelude.{
  String, true, List, [], ◌∷◌, ◌++◌, Option, some, ◌≡◌, refl, sym, subst, ◌∙◌, ◌+◌, ◌≢◌, arith, All,
  All-map, Pairwise,
}
use blockchain_based_e_procu.Prelude.Store
use blockchain_based_e_procu.Prelude.Store.{HasUniqueKeys}
use blockchain_based_e_procu.Prelude.Effect.{Outcome}
use blockchain_based_e_procu.Errors.{Error}
use blockchain_based_e_procu.Blockchain.Anchor.{BlockchainAnchorMetadata}
use blockchain_based_e_procu.Lifecycle.Event.{LifecycleEvent}
use blockchain_based_e_procu.Lifecycle.Integrity.{IsIntact, append-IsIntact}
use blockchain_based_e_procu.Escrow.Record.{
  EscrowRecord, EscrowStatus, ReleaseConditions, is_active_escrow_status,
}
use blockchain_based_e_procu.Escrow.Repository.{escrow_key, find_by_id}
use blockchain_based_e_procu.Escrow.Rules.{
  TransitionInput, TransitionSpec, EscrowDependencies, Action, ArbitrationOutcome, transition_spec,
}
use blockchain_based_e_procu.Escrow.Decision.{TransitionResult, Decision, stop, go, decide}
use blockchain_based_e_procu.Escrow.Decision.Granted.{decide-Granted}
use blockchain_based_e_procu.Escrow.Transition.{
  correlation_of, event_input, next_escrow, carry_out, transition_escrow, commit,
}
use blockchain_based_e_procu.Escrow.Transition.Effects.{
  Logged, unlogged, logged, Committed, refused, unanchored, written, commit_cases,
}
use blockchain_based_e_procu.World.{World, Platform}

-- Not two active escrows of one order.
abbrev pub Rival : EscrowRecord → EscrowRecord → Type 0
Rival a b =
    is_active_escrow_status a.status ≡ true
    → is_active_escrow_status b.status ≡ true
    → a.order_id ≢ b.order_id

-- The event that the escrow names last is in the log, under the escrow's order and correlation.
abbrev pub IsLinked : List LifecycleEvent → EscrowRecord → Type 0
IsLinked log e =
    (hash : String)
    → e.lifecycle_event_hash ≡ some hash
    → (f : LifecycleEvent) × Memᴰ f log
      × (f.payload_hash ≡ hash)
      × (f.case_id ≡ e.order_id)
      × (f.correlation_id ≡ correlation_of e)

pub record IsSound (events : List LifecycleEvent) (escrows : List EscrowRecord) : Type 0 where
  pub intact : IsIntact events
  pub unique : HasUniqueKeys escrow_key escrows
  pub one_active : Pairwise Rival escrows
  pub linked : All (IsLinked events) escrows

pub Memᴰ-append :
    {f : LifecycleEvent} (log more : List LifecycleEvent) → Memᴰ f log → Memᴰ f (log ++ more)
Memᴰ-append [] more m = elim m [ ]
Memᴰ-append (x ∷ log) more (Memᴰ.head same) = Memᴰ.head same
Memᴰ-append (x ∷ log) more (Memᴰ.tail m) = Memᴰ.tail (Memᴰ-append log more m)

pub Memᴰ-last : (f : LifecycleEvent) (log : List LifecycleEvent) → Memᴰ f (log ++ f ∷ [])
Memᴰ-last f [] = Memᴰ.head refl
Memᴰ-last f (x ∷ log) = Memᴰ.tail (Memᴰ-last f log)

pub IsLinked-append :
    (log more : List LifecycleEvent) (escrows : List EscrowRecord)
    → All (IsLinked log) escrows
    → All (IsLinked (log ++ more)) escrows
IsLinked-append log more escrows h =
    All-map (IsLinked log) (IsLinked (log ++ more))
      (λ e linked hash named.
        let (f, m, h, c, r) = linked hash named in (f, Memᴰ-append log more m, h, c, r))
      escrows h

pub Rival-sym : (a b : EscrowRecord) → Rival a b → Rival b a
Rival-sym a b r ab aa same = r aa ab (sym same)

-- The table has entries only at statuses that count as active.
transition_spec-active :
    (a : Action) (o : Option ArbitrationOutcome) (s : EscrowStatus) (spec : TransitionSpec)
    → transition_spec a o s ≡ some spec
    → is_active_escrow_status s ≡ true
unfolding transition_spec is_active_escrow_status
transition_spec-active Action.fund o s spec h = ground arith
transition_spec-active a o s spec h = ground arith

module _ (p : Platform) (d : EscrowDependencies) (i : TransitionInput) (w : World)
    (sound : IsSound w.events w.escrows) where
  module _ (e : EscrowRecord) (spec : TransitionSpec) (reason : Option String)
      (c : ReleaseConditions) (found : find_by_id e.escrow_id w.escrows ≡ some e)
      (active : is_active_escrow_status e.status ≡ true) where
    abbrev now : String
    now = p.clock w.ticks

    abbrev next : Option LifecycleEvent → Option BlockchainAnchorMetadata → EscrowRecord
    next = next_escrow e spec reason c now

    abbrev Written : Option LifecycleEvent → List LifecycleEvent → Type 0
    Written event log =
        Logged p d.lifecycle (event_input i e spec reason c now) (record w { ticks = w.ticks + 1 })
          event log

    found-IsLinked : IsLinked w.events e
    unfolding find_by_id
    found-IsLinked =
        Store.All-get escrow_key (IsLinked w.events) e.escrow_id w.escrows sound.linked found

    log-IsIntact :
        (event : Option LifecycleEvent) (log : List LifecycleEvent)
        → Written event log
        → IsIntact log
    log-IsIntact event log (unlogged off missing same) = rw same sound.intact
    log-IsIntact event log (logged v u is stored same) =
        rw (same, stored.appended) (append-IsIntact w.events v sound.intact stored.may_append)

    others-IsLinked :
        (event : Option LifecycleEvent) (log : List LifecycleEvent)
        → Written event log
        → All (IsLinked log) w.escrows
    others-IsLinked event log (unlogged off missing same) =
        subst (λ l. All (IsLinked l) w.escrows) (sym same) sound.linked
    others-IsLinked event log (logged v u is stored same) =
        subst (λ l. All (IsLinked l) w.escrows) (sym (same ∙ stored.appended))
          (IsLinked-append w.events (v ∷ []) w.escrows sound.linked)

    next-IsLinked :
        (event : Option LifecycleEvent) (log : List LifecycleEvent)
        (metadata : Option BlockchainAnchorMetadata)
        → Written event log
        → IsLinked log (next event metadata)
    unfolding next_escrow event_input
    next-IsLinked event log metadata (unlogged off missing same) hash named =
        rw same (found-IsLinked hash (rw missing at named))
    next-IsLinked event log metadata (logged v u is stored same) hash named = (
      v,
      rw (same, stored.appended) (Memᴰ-last v w.events),
      ground arith,
      stored.same_case,
      stored.same_correlation,
    )

    next-Rival :
        (event : Option LifecycleEvent) (metadata : Option BlockchainAnchorMetadata)
        → All
            (λ x. escrow_key x ≢ escrow_key (next event metadata) → Rival (next event metadata) x)
            w.escrows
    unfolding find_by_id next_escrow
    next-Rival event metadata =
        All-map (λ x. escrow_key x ≢ e.escrow_id → Rival e x)
          (λ x. escrow_key x ≢ escrow_key (next event metadata) → Rival (next event metadata) x)
          (λ x r n still other. r n active other) w.escrows
          (Store.Pairwise-get escrow_key Rival Rival-sym e.escrow_id w.escrows sound.one_active
            found)

    commit-IsSound :
        (q : Outcome Error TransitionResult × World)
        → Committed p d i w e spec reason c q
        → IsSound q.1.events q.1.escrows
    commit-IsSound q (refused x v same events escrows) = rw (same, events, escrows) sound
    commit-IsSound q (unanchored x v event same log escrows) =
        rw (same, escrows)
          (record {
            intact = log-IsIntact event v.events log;
            unique = sound.unique;
            one_active = sound.one_active;
            linked = others-IsLinked event v.events log;
          })
    commit-IsSound q (written v event metadata same log escrows) =
        rw (same, escrows)
          (record {
            intact = log-IsIntact event v.events log;
            unique =
                Store.HasUniqueKeys-put escrow_key (next event metadata) w.escrows sound.unique;
            one_active =
                Store.Pairwise-put escrow_key Rival Rival-sym (next event metadata) w.escrows
                  sound.unique sound.one_active (next-Rival event metadata);
            linked =
                Store.All-put escrow_key (IsLinked v.events) (next event metadata) w.escrows
                  (next-IsLinked event v.events metadata log) (others-IsLinked event v.events log);
          })

  find_by_id_self :
      (id : String) (e : EscrowRecord)
      → find_by_id id w.escrows ≡ some e
      → find_by_id e.escrow_id w.escrows ≡ some e
  unfolding find_by_id
  find_by_id_self id e h =
      subst (λ k. Store.get escrow_key k w.escrows ≡ some e)
        (sym (Store.get-key escrow_key id w.escrows h)) h

  carry_out-IsSound :
      (decision : Decision)
      → decide p d i w ≡ decision
      → IsSound (carry_out p d i decision w).1.events (carry_out p d i decision w).1.escrows
  carry_out-IsSound (stop result) same = unfold carry_out in sound
  carry_out-IsSound (go e spec reason c) same =
      let granted = decide-Granted p d i w e spec reason c same in
      let found = find_by_id_self _ e granted.found in
      unfold carry_out in
      commit-IsSound e spec reason c found
        (transition_spec-active i.action i.arbitration_outcome e.status spec granted.allowed)
        (commit p d i e spec reason c w) (commit_cases p d i w e spec reason c found)

  -- A transition keeps the escrows and the log sound: the log intact, the identifiers unique, at most
  -- one active escrow for an order, and the event that an escrow names in the log, under its order
  -- and correlation. This holds however the call ends, also when it throws halfway.
  pub transition_escrow-IsSound :
      IsSound (transition_escrow p d i w).1.events (transition_escrow p d i w).1.escrows
  transition_escrow-IsSound = unfold transition_escrow in carry_out-IsSound (decide p d i w) refl
