-- ===== src/Escrow/Release.antt =====
-- The release conditions of `transitionEscrow` (application/transition-escrow.ts), as statements
-- about the order, the evidence, the parties and the escrow.
use mathlib.Core.List.{Memᴰ}
use blockchain_based_e_procu.Prelude.{
  String, Bool, true, false, not, ◌&&◌, ◌||◌, Option, none, some, ◌≡◌, refl, ◌∙◌, ap, get_or, ◌⊎◌,
  inl, inr, arith, eq_iff, ◌≢◌, if◌then◌else◌, is_empty,
}
use blockchain_based_e_procu.Prelude.Text.{truthy, trim_optional}
use blockchain_based_e_procu.Prelude.Effect.{ok}
use blockchain_based_e_procu.Procurement.Order.{ProcurementOrder, OrderStatus, find_order}
use blockchain_based_e_procu.Procurement.Evidence.{DeliveryEvidenceRecord, list_evidence}
use blockchain_based_e_procu.Procurement.Evidence.Listing.{list_evidence-first}
use blockchain_based_e_procu.Procurement.Eligibility.{
  Eligibility, EligibilityResult, eligible, is_eligible,
}
use blockchain_based_e_procu.Escrow.Record.{EscrowRecord, EscrowStatus, ReleaseConditions}
use blockchain_based_e_procu.Escrow.Repository.{find_by_id}
use blockchain_based_e_procu.Escrow.Rules.{
  Action, request_release, approve_release, ArbitrationOutcome, TransitionInput, TransitionSpec,
  EscrowDependencies, transition_spec, evaluate_release_conditions, release_conditions_satisfied,
  is_contested, is_accepted_order, both_eligible,
}
use blockchain_based_e_procu.Escrow.Diagram.{IsContested}
use blockchain_based_e_procu.Escrow.Decision.{transitioned, is_release_action, assumed}
use blockchain_based_e_procu.Escrow.Transition.{transition_escrow}
use blockchain_based_e_procu.Escrow.Soundness.{transition_escrow-Moved}
use blockchain_based_e_procu.World.{World, Platform}

-- The order is accepted, or the escrow names an accepted one; there is evidence of its delivery; the
-- gateway finds both parties eligible; and the escrow is not contested.
pub record IsReleasable (d : EscrowDependencies) (e : EscrowRecord) (w : World) : Type 0 where
  pub accepted :
      ((o : ProcurementOrder) × (find_order e.order_id w.orders ≡ some o)
        × (o.status ≡ OrderStatus.accepted))
      ⊎ ((reference : String) × (e.accepted_order_reference ≡ some reference) × (reference ≢ ""))
  pub delivered : (r : DeliveryEvidenceRecord) × Memᴰ r w.evidence × (r.order_id ≡ e.order_id)
  pub approved :
      (check : World → String → EligibilityResult) × (d.eligibility_gateway ≡ some check)
      × ((check w e.buyer_organization_id).eligibility ≡ eligible)
      × ((check w e.supplier_organization_id).eligibility ≡ eligible)
  pub uncontested : IsContested e.status → ⊥

is_eligible-eq : (s : Eligibility) → is_eligible s ≡ true → s ≡ eligible
unfolding is_eligible
is_eligible-eq eligible h = refl
is_eligible-eq s h = ground arith

accepted_order-eq :
    (o : Option ProcurementOrder)
    → is_accepted_order o ≡ true
    → (q : ProcurementOrder) × (o ≡ some q) × (q.status ≡ OrderStatus.accepted)
accepted_order-eq none h = absurd (ground arith)
accepted_order-eq (some o) h = (o, refl, accepted_status o.status h)
  where
    accepted_status :
        (s : OrderStatus)
        → elim s [ OrderStatus.accepted ↦ true | _ ↦ false ] ≡ true
        → s ≡ OrderStatus.accepted
    accepted_status OrderStatus.accepted h = refl
    accepted_status OrderStatus.created h = absurd (ground arith)
    accepted_status OrderStatus.rejected h = absurd (ground arith)

truthy-some : (s : Option String) → truthy s ≡ true → (t : String) × (s ≡ some t) × (t ≢ "")
truthy-some none h = absurd (ground arith)
truthy-some (some t) h = (t, refl, λ q. ground (arith, eq_iff t ""))

contested : (s : EscrowStatus) → IsContested s → is_contested s ≡ true
contested s IsContested.at_dispute = refl
contested s _ = refl

both : (a b : Bool) → a && b ≡ true → (a ≡ true) × (b ≡ true)
both true b h = (refl, h)
both false b h = absurd (ground arith)

either : (a b : Bool) → a || b ≡ true → (a ≡ true) ⊎ (b ≡ true)
either true b h = inl refl
either false b h = inr h

satisfied_all :
    (c : ReleaseConditions)
    → release_conditions_satisfied c ≡ true
    → (c.accepted_order ≡ true)
      × (c.delivery_evidence_recorded ≡ true)
      × (c.eligibility_satisfied ≡ true)
      × (c.dispute_free ≡ true)
unfolding release_conditions_satisfied
satisfied_all c h = (ground arith, ground arith, ground arith, ground arith)

accepted_cases :
    (there : Bool) (o : Option ProcurementOrder) (reference : Option String)
    → (there && is_accepted_order o) || truthy reference ≡ true
    → ((q : ProcurementOrder) × (o ≡ some q) × (q.status ≡ OrderStatus.accepted))
      ⊎ ((t : String) × (reference ≡ some t) × (t ≢ ""))
accepted_cases there o reference h =
    elim (either (there && is_accepted_order o) (truthy reference) h) [
      | inl found ↦ inl (accepted_order-eq o (both there (is_accepted_order o) found).1)
      | inr named ↦ inr (truthy-some reference named)
    ]

clash : (b : Bool) → not b ≡ true → b ≡ true → ⊥
clash true h q = ground arith
clash false h q = ground arith

module _ (p : Platform) (d : EscrowDependencies) (w : World) where
  both_eligible-eq :
      (gateway : Option (World → String → EligibilityResult)) (e : EscrowRecord)
      → both_eligible gateway w e ≡ true
      → (check : World → String → EligibilityResult) × (gateway ≡ some check)
        × ((check w e.buyer_organization_id).eligibility ≡ eligible)
        × ((check w e.supplier_organization_id).eligibility ≡ eligible)
  both_eligible-eq none e h = absurd (ground arith)
  both_eligible-eq (some check) e h =
      let (buyer, supplier) = both _ _ h in
      (check, refl, is_eligible-eq _ buyer, is_eligible-eq _ supplier)

  conditions-IsReleasable :
      (e : EscrowRecord)
      → release_conditions_satisfied (evaluate_release_conditions p d e w) ≡ true
      → IsReleasable d e w
  unfolding evaluate_release_conditions
  conditions-IsReleasable e h =
      let (order, evidence, parties, calm) =
        satisfied_all (evaluate_release_conditions p d e w) h in
      record {
        accepted =
            accepted_cases d.order_repository (find_order e.order_id w.orders)
              e.accepted_order_reference order;
        delivered =
            list_evidence-first p.locale_le e.order_id w.evidence
              (both d.evidence_repository
                (not (is_empty (list_evidence p.locale_le e.order_id w.evidence))) evidence).1;
        approved = both_eligible-eq d.eligibility_gateway e parties;
        uncontested = λ q. clash (is_contested e.status) calm (contested e.status q);
      }

  release_asks :
      (a : Action) (o : Option ArbitrationOutcome) (s : EscrowStatus) (spec : TransitionSpec)
      → is_release_action a ≡ true
      → transition_spec a o s ≡ some spec
      → spec.require_release_conditions ≡ true
  unfolding transition_spec
  release_asks request_release o s spec r h = ground arith
  release_asks approve_release o s spec r h = ground arith
  release_asks a o s spec r h = absurd (ground arith)

  -- A release is requested or approved only for an escrow that is releasable when the call is made.
  pub transition_escrow-IsReleasable :
      (i : TransitionInput) (next : EscrowRecord) (c : ReleaseConditions) (v : World)
      → is_release_action i.action ≡ true
      → transition_escrow p d i w ≡ (ok (transitioned next c), v)
      → (e : EscrowRecord) × (find_by_id (get_or (trim_optional i.escrow_id) "") w.escrows ≡ some e)
        × IsReleasable d e w
  transition_escrow-IsReleasable i next c v release h =
      let (e, spec, reason, g, _) = transition_escrow-Moved p d i w next c v h in
      let met =
        g.met (release_asks i.action i.arbitration_outcome e.status spec release g.allowed) in
      let evaluated : c ≡ evaluate_release_conditions p d e w =
        g.evaluated
        ∙ ap (λ b. if b then evaluate_release_conditions p d e w else assumed e) release in
      (e, g.found, conditions-IsReleasable e (rw evaluated at met))
