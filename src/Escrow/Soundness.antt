-- ===== src/Escrow/Soundness.antt =====
-- What a result of `transitionEscrow` (application/transition-escrow.ts) says about the state.
use blockchain_based_e_procu.Prelude.{
  if◌then◌else◌, String, true, not, ◌&&◌, List, [], ◌∷◌, ◌++◌, Option, none, some, get_or, ◌≡◌,
  refl, sym, subst, ◌∙◌, ap, ◌≢◌, ◌⊎◌, inl, inr, arith, eq_iff, when, is_some,
}
use blockchain_based_e_procu.Prelude.Text.{trim_optional}
use blockchain_based_e_procu.Prelude.Store
use blockchain_based_e_procu.Prelude.Effect.{Outcome, ok}
use blockchain_based_e_procu.Errors.{Error, Issue}
use blockchain_based_e_procu.Escrow.Record.{EscrowRecord, ReleaseConditions}
use blockchain_based_e_procu.Escrow.Repository.{escrow_key, find_by_id}
use blockchain_based_e_procu.Escrow.Rules.{
  Action, ArbitrationOutcome, TransitionInput, TransitionSpec, EscrowDependencies, validate_input,
  is_arbitration_decision, can_actor_perform,
}
use blockchain_based_e_procu.Escrow.Decision.{
  TransitionResult, transitioned, Decision, stop, go, decide,
}
use blockchain_based_e_procu.Escrow.Decision.Refusal.{Refuses, decide-Refuses}
use blockchain_based_e_procu.Escrow.Decision.Granted.{Granted, decide-Granted}
use blockchain_based_e_procu.Escrow.Diagram.{Step, HasOutcome, transition_spec-Step}
use blockchain_based_e_procu.Escrow.Transition.{next_escrow, carry_out, transition_escrow, commit}
use blockchain_based_e_procu.Escrow.Transition.Effects.{refused, unanchored, written, commit_cases}
use blockchain_based_e_procu.Blockchain.Anchor.{BlockchainAnchorMetadata}
use blockchain_based_e_procu.Lifecycle.Event.{LifecycleEvent}
use blockchain_based_e_procu.World.{World, Platform}

append-eq-nil : (l m : List Issue) → l ++ m ≡ [] → m ≡ []
append-eq-nil [] m h = h
append-eq-nil (x ∷ l) m h = absurd (ground arith)

outcome_given :
    (a : Action) (o : Option ArbitrationOutcome) (x : Issue)
    → when (is_arbitration_decision a && not (is_some o)) x ≡ []
    → HasOutcome a o
outcome_given Action.record_arbitration_decision none x h = absurd (ground arith)
outcome_given Action.record_arbitration_decision (some o) x h = λ q. ground arith
outcome_given Action.fund o x h = tt
outcome_given Action.request_release o x h = tt
outcome_given Action.approve_release o x h = tt
outcome_given Action.hold o x h = tt
outcome_given Action.open_dispute o x h = tt

valid-HasOutcome :
    (i : TransitionInput) → validate_input i ≡ [] → HasOutcome i.action i.arbitration_outcome
unfolding validate_input
valid-HasOutcome i h =
    outcome_given i.action i.arbitration_outcome _ (append-eq-nil _ _ (append-eq-nil _ _ h))

-- The escrow that a transition leaves in place of `e`, and the repository after it.
pub record Moved (i : TransitionInput) (before : List EscrowRecord) (e next : EscrowRecord)
    (after : List EscrowRecord) : Type 0 where
  pub was_there : find_by_id (get_or (trim_optional i.escrow_id) "") before ≡ some e
  pub step : Step i.action i.arbitration_outcome e.status next.status
  pub authorised : can_actor_perform i e ≡ true
  pub same_id : next.escrow_id ≡ e.escrow_id
  pub same_order : next.order_id ≡ e.order_id
  pub same_buyer : next.buyer_organization_id ≡ e.buyer_organization_id
  pub same_supplier : next.supplier_organization_id ≡ e.supplier_organization_id
  pub same_financier : next.financier_organization_id ≡ e.financier_organization_id
  pub same_terms : next.terms_hash ≡ e.terms_hash
  pub same_reference : next.accepted_order_reference ≡ e.accepted_order_reference
  pub same_creator : next.created_by ≡ e.created_by
  pub same_creation : next.created_at ≡ e.created_at
  pub stored : find_by_id next.escrow_id after ≡ some next
  pub others : (id : String) → id ≢ next.escrow_id → find_by_id id after ≡ find_by_id id before

get-put-other :
    (e : EscrowRecord) (escrows : List EscrowRecord) (id : String)
    → id ≢ e.escrow_id
    → Store.get escrow_key id (Store.put escrow_key e escrows) ≡ Store.get escrow_key id escrows
get-put-other e escrows id other =
    ground (arith, Store.get-put escrow_key id e escrows, eq_iff e.escrow_id id)

module _ (p : Platform) (d : EscrowDependencies) (i : TransitionInput) (w : World) where
  -- The escrow that is found has the identifier under which it is found.
  pub next_id :
      (e : EscrowRecord)
      → find_by_id (get_or (trim_optional i.escrow_id) "") w.escrows ≡ some e
      → find_by_id e.escrow_id w.escrows ≡ some e
  unfolding find_by_id
  next_id e h =
      subst (λ k. Store.get escrow_key k w.escrows ≡ some e)
        (sym (Store.get-key escrow_key (get_or (trim_optional i.escrow_id) "") w.escrows h)) h

  pub next-Moved :
      (e : EscrowRecord) (spec : TransitionSpec) (reason : Option String) (c : ReleaseConditions)
      (now : String) (event : Option LifecycleEvent) (metadata : Option BlockchainAnchorMetadata)
      → Granted p d i w e spec reason c
      → Moved i w.escrows e
          (next_escrow e spec reason c now event metadata)
          (Store.put escrow_key (next_escrow e spec reason c now event metadata) w.escrows)
  unfolding find_by_id next_escrow
  next-Moved e spec reason c now event metadata g =
      let next : EscrowRecord = next_escrow e spec reason c now event metadata in
      record {
        was_there = g.found;
        step =
            transition_spec-Step i.action i.arbitration_outcome e.status spec
              (valid-HasOutcome i g.valid) g.allowed;
        authorised = g.may;
        same_id = refl;
        same_order = refl;
        same_buyer = refl;
        same_supplier = refl;
        same_financier = refl;
        same_terms = refl;
        same_reference = refl;
        same_creator = refl;
        same_creation = refl;
        stored =
            Store.get-put escrow_key e.escrow_id next w.escrows
            ∙ ap (λ b. if b then some next else Store.get escrow_key e.escrow_id w.escrows)
                ((eq_iff e.escrow_id e.escrow_id).1 refl);
        others = λ id other. get-put-other next w.escrows id other;
      }

  -- What a reported transition says of the state.
  abbrev Reported : Outcome Error TransitionResult × World → Type 0
  Reported q =
      (next : EscrowRecord) (c : ReleaseConditions) (v : World)
      → q ≡ (ok (transitioned next c), v)
      → (e : EscrowRecord) × (spec : TransitionSpec) × (reason : Option String) × Granted p d i w e
          spec reason c
        × Moved i w.escrows e next v.escrows

  commit-Reported :
      (e : EscrowRecord) (spec : TransitionSpec) (reason : Option String) (c : ReleaseConditions)
      → Granted p d i w e spec reason c
      → Reported (commit p d i e spec reason c w)
  commit-Reported e spec reason c g next c' v h =
      elim (commit_cases p d i w e spec reason c (next_id e g.found)) [
        | refused x u q events escrows ↦ absurd (cc (sym q ∙ h))
        | unanchored x u event q log escrows ↦ absurd (cc (sym q ∙ h))
        | written u event metadata q log escrows ↦
            let same : next ≡ next_escrow e spec reason c (p.clock w.ticks) event metadata =
              ground (arith, sym q ∙ h) in
            let end : v ≡ u = ground (arith, sym q ∙ h) in
            let conditions : c ≡ c' = ground (arith, sym q ∙ h) in
            (
              e,
              spec,
              reason,
              subst (Granted p d i w e spec reason) conditions g,
              rw (same, end, escrows)
                  (next-Moved e spec reason c (p.clock w.ticks) event metadata g),
            )
      ]

  carry_out-Reported :
      (decision : Decision)
      → Refuses decision
      → decide p d i w ≡ decision
      → Reported (carry_out p d i decision w)
  unfolding carry_out
  carry_out-Reported (stop (transitioned e c₀)) bad same next c v h = absurd bad
  carry_out-Reported (stop result) fine same next c v h = absurd (cc h)
  carry_out-Reported (go e spec reason c₀) fine same next c v h =
      commit-Reported e spec reason c₀ (decide-Granted p d i w e spec reason c₀ same) next c v h

  -- A reported transition passed every test on the escrow stored under the given identifier, took
  -- an edge of the table, kept the parties, the terms and the history of the escrow, and left it in
  -- the repository without touching another one.
  pub transition_escrow-Moved :
      (next : EscrowRecord) (c : ReleaseConditions) (v : World)
      → transition_escrow p d i w ≡ (ok (transitioned next c), v)
      → (e : EscrowRecord) × (spec : TransitionSpec) × (reason : Option String) × Granted p d i w e
          spec reason c
        × Moved i w.escrows e next v.escrows
  unfolding transition_escrow
  transition_escrow-Moved = carry_out-Reported (decide p d i w) (decide-Refuses p d i w) refl

  carry_out-unchanged :
      (decision : Decision) (result : TransitionResult) (v : World)
      → decide p d i w ≡ decision
      → carry_out p d i decision w ≡ (ok result, v)
      → (v ≡ w) ⊎ ((next : EscrowRecord) × (c : ReleaseConditions) × (result ≡ transitioned next c))
  unfolding carry_out
  carry_out-unchanged (stop other) result v same h = inl (ground arith)
  carry_out-unchanged (go e spec reason c) result v same h =
      elim (commit_cases p d i w e spec reason c
        (next_id e (decide-Granted p d i w e spec reason c same).found)) [
          | refused x u q events escrows ↦ absurd (cc (sym q ∙ h))
          | unanchored x u event q log escrows ↦ absurd (cc (sym q ∙ h))
          | written u event metadata q log escrows ↦ inr (
            next_escrow e spec reason c (p.clock w.ticks) event metadata,
            c,
            ground (arith, sym q ∙ h),
          )
        ]

  -- A call that returns a result other than a transition leaves the whole state as it was.
  pub transition_escrow-unchanged :
      (result : TransitionResult) (v : World)
      → transition_escrow p d i w ≡ (ok result, v)
      → ((next : EscrowRecord) (c : ReleaseConditions) → result ≢ transitioned next c)
      → v ≡ w
  unfolding transition_escrow
  transition_escrow-unchanged result v h other =
      elim (carry_out-unchanged (decide p d i w) result v refl h) [
        | inl same ↦ same
        | inr (next, c, moved) ↦ absurd (other next c moved)
      ]
