-- ===== src/Escrow/Current/Transitions.antt =====
-- Where it has a log of lifecycle events, `transitionEscrow` (application/transition-escrow.ts) leaves
-- each escrow with the event of its status, errors included.
use blockchain_based_e_procu.Prelude.{
  String, Bool, true, false, List, [], ◌∷◌, Option, none, some, ◌≡◌, refl, sym, subst, ◌∙◌, ◌+◌,
  arith,
}
use blockchain_based_e_procu.Prelude.Effect.{Outcome}
use blockchain_based_e_procu.Errors.{Error}
use blockchain_based_e_procu.Blockchain.Anchor.{BlockchainAnchorMetadata}
use blockchain_based_e_procu.Lifecycle.Event.{LifecycleEvent}
use blockchain_based_e_procu.Escrow.Record.{EscrowRecord, EscrowStatus, ReleaseConditions}
use blockchain_based_e_procu.Escrow.Rules
use blockchain_based_e_procu.Escrow.Rules.{
  Action, ArbitrationOutcome, TransitionInput, TransitionSpec, EscrowDependencies, transition_spec,
}
use blockchain_based_e_procu.Escrow.Decision.{Decision, stop, go, decide}
use blockchain_based_e_procu.Escrow.Decision.Granted.{Granted, decide-Granted}
use blockchain_based_e_procu.Escrow.Invariant.{Memᴰ-last}
use blockchain_based_e_procu.Escrow.Soundness.{next_id}
use blockchain_based_e_procu.Escrow.Transition.{
  event_input, next_escrow, carry_out, transition_escrow, commit,
}
use blockchain_based_e_procu.Escrow.Transition.Effects.{
  Logged, unlogged, logged, refused, unanchored, written, commit_cases,
}
use blockchain_based_e_procu.World.{World, Platform}
use blockchain_based_e_procu.Escrow.Current.{
  tells, IsCurrent, AreCurrent, append-AreCurrent, put-AreCurrent,
}

spec-tells :
    (b : Bool) (next : EscrowStatus) (type : String) (conditions reasons : Bool)
    (t : TransitionSpec)
    → tells type next ≡ true
    → Rules.spec b next type conditions reasons ≡ some t
    → tells t.event_type t.next_status ≡ true
spec-tells true next type conditions reasons t told h =
    let same : (record {
      next_status = next;
      event_type = type;
      require_release_conditions = conditions;
      require_reason = reasons;
    })
        ≡ t =
      cc h in
    subst (λ (u : TransitionSpec). tells u.event_type u.next_status ≡ true) same told
spec-tells false next type conditions reasons t told h = absurd (cc h)

-- Every entry of the table has an event that tells the status it leads to.
transition_spec-tells :
    (a : Action) (o : Option ArbitrationOutcome) (s : EscrowStatus) (t : TransitionSpec)
    → transition_spec a o s ≡ some t
    → tells t.event_type t.next_status ≡ true
unfolding transition_spec
transition_spec-tells Action.fund o s t h = spec-tells _ _ _ _ _ t refl h
transition_spec-tells Action.request_release o s t h = spec-tells _ _ _ _ _ t refl h
transition_spec-tells Action.approve_release o s t h = spec-tells _ _ _ _ _ t refl h
transition_spec-tells Action.hold o s t h = spec-tells _ _ _ _ _ t refl h
transition_spec-tells Action.open_dispute o s t h = spec-tells _ _ _ _ _ t refl h
transition_spec-tells Action.record_arbitration_decision none s t h = spec-tells _ _ _ _ _ t refl h
transition_spec-tells Action.record_arbitration_decision
      (some ArbitrationOutcome.approve_release_outcome) s t h =
    spec-tells _ _ _ _ _ t refl h
transition_spec-tells Action.record_arbitration_decision (some ArbitrationOutcome.refund) s t h =
    spec-tells _ _ _ _ _ t refl h
transition_spec-tells Action.record_arbitration_decision (some ArbitrationOutcome.cancel) s t h =
    spec-tells _ _ _ _ _ t refl h

module _ (p : Platform) (d : EscrowDependencies) (on : d.lifecycle ≡ true) where
  abbrev After : {A : Type 0} → Outcome Error A × World → Type 0
  After q = AreCurrent q.1.events q.1.escrows

  module _ (i : TransitionInput) (w : World) (h : AreCurrent w.events w.escrows) where
    module _ (e : EscrowRecord) (spec : TransitionSpec) (reason : Option String)
        (c : ReleaseConditions) (g : Granted p d i w e spec reason c) where
      abbrev next : Option LifecycleEvent → Option BlockchainAnchorMetadata → EscrowRecord
      next = next_escrow e spec reason c (p.clock w.ticks)

      abbrev Written : Option LifecycleEvent → List LifecycleEvent → Type 0
      Written event log =
          Logged p d.lifecycle (event_input i e spec reason c (p.clock w.ticks))
            (record w { ticks = w.ticks + 1 }) event log

      others-AreCurrent :
          (event : Option LifecycleEvent) (log : List LifecycleEvent)
          → Written event log
          → AreCurrent log w.escrows
      others-AreCurrent event log (unlogged off missing same) = absurd (cc (sym on ∙ off))
      others-AreCurrent event log (logged v u is stored same) =
          subst (λ l. AreCurrent l w.escrows) (sym (same ∙ stored.appended))
            (append-AreCurrent w.events (v ∷ []) w.escrows h)

      next-IsCurrent :
          (event : Option LifecycleEvent) (log : List LifecycleEvent)
          (metadata : Option BlockchainAnchorMetadata)
          → Written event log
          → IsCurrent log (next event metadata)
      unfolding next_escrow event_input
      next-IsCurrent event log metadata (unlogged off missing same) = absurd (cc (sym on ∙ off))
      next-IsCurrent event log metadata (logged v u is stored same) = (
        λ missing. absurd (ground arith),
        λ hash named. (
          v,
          rw (same, stored.appended) (Memᴰ-last v w.events),
          ground arith,
          stored.same_target,
          rw stored.same_type
              (transition_spec-tells i.action i.arbitration_outcome e.status spec g.allowed),
        ),
      )

      commit-AreCurrent : After (commit p d i e spec reason c w)
      commit-AreCurrent = elim (commit_cases p d i w e spec reason c (next_id p d i w e g.found)) [
        | refused x v q events escrows ↦ rw (q, events, escrows) h
        | unanchored x v event q log escrows ↦
            rw (q, escrows) (others-AreCurrent event v.events log)
        | written v event metadata q log escrows ↦
            rw (q, escrows)
              (put-AreCurrent v.events (next event metadata) w.escrows
                (next-IsCurrent event v.events metadata log) (others-AreCurrent event v.events log))
      ]

    carry_out-AreCurrent :
        (decision : Decision) → decide p d i w ≡ decision → After (carry_out p d i decision w)
    unfolding carry_out
    carry_out-AreCurrent (stop result) same = h
    carry_out-AreCurrent (go e spec reason c) same =
        commit-AreCurrent e spec reason c (decide-Granted p d i w e spec reason c same)

    pub transition_escrow-AreCurrent : After (transition_escrow p d i w)
    unfolding transition_escrow
    transition_escrow-AreCurrent = carry_out-AreCurrent (decide p d i w) refl
