-- ===== src/Consistency/Deliveries.antt =====
-- Submitting delivery evidence keeps the state consistent.
use blockchain_based_e_procu.Prelude.{String, Bool, Option, none, refl}
use blockchain_based_e_procu.Prelude.After.{world-After}
use blockchain_based_e_procu.Blockchain.Anchoring.{AnchorDependencies}
use blockchain_based_e_procu.Blockchain.Anchoring.Failure.{SameOutside}
use blockchain_based_e_procu.Lifecycle.Event.{LifecycleEvent}
use blockchain_based_e_procu.Escrow.Transition.{anchor_recorded}
use blockchain_based_e_procu.Escrow.Transition.Effects.{anchor_recorded-SameOutside}
use blockchain_based_e_procu.Procurement.Evidence.{DeliveryEvidenceRecord}
use blockchain_based_e_procu.Procurement.Delivery.{SubmitEvidenceInput, NewEvidence, check_evidence}
use blockchain_based_e_procu.Procurement.Delivery.Submit.{
  evidence_event_input, announce_evidence, save_and_announce, write_evidence, submit_evidence,
}
use blockchain_based_e_procu.World.{World, Platform, save_evidence, read_clock, draw_id}
use blockchain_based_e_procu.Consistency.{
  IsConsistent, Latest-none, Kept, Kept-bind, Kept-decide, Kept-record, Ticked-IsConsistent,
}

SameOutside-IsConsistent : (w v : World) → SameOutside w v → IsConsistent w → IsConsistent v
SameOutside-IsConsistent w v same h = record {
  escrows_sound = rw (same.same_events, same.same_escrows) h.escrows_sound;
  orders_kept = rw (same.same_events, same.same_orders) h.orders_kept;
  book_kept = rw (same.same_events, same.same_invoices) h.book_kept;
  cases_kept = rw (same.same_events, same.same_cases) h.cases_kept;
  generated = rw (same.same_orders, same.same_cases) h.generated;
}

pub anchor_recorded-Kept :
    (p : Platform) (d : AnchorDependencies) (event : Option LifecycleEvent) (w : World)
    → IsConsistent w
    → Kept (anchor_recorded p d event w)
anchor_recorded-Kept p d event w h =
    world-After IsConsistent (anchor_recorded p d event w)
      (SameOutside-IsConsistent w _ (anchor_recorded-SameOutside p d event w) h)

save_evidence-Kept :
    (r : DeliveryEvidenceRecord) (w : World) → IsConsistent w → Kept (save_evidence r w)
unfolding save_evidence
save_evidence-Kept r w h = record {
  escrows_sound = h.escrows_sound;
  orders_kept = h.orders_kept;
  book_kept = h.book_kept;
  cases_kept = h.cases_kept;
  generated = h.generated;
}

module _ (p : Platform) (lifecycle : Bool) (d : AnchorDependencies) (n : NewEvidence) where
  announce_evidence-Kept :
      (r : DeliveryEvidenceRecord) (previous : Option String) (w : World)
      → IsConsistent w
      → Kept (announce_evidence p lifecycle d n r previous w)
  unfolding announce_evidence evidence_event_input
  announce_evidence-Kept r previous w h =
      Kept-record p lifecycle (evidence_event_input n r previous) w n.order.order_id none _ refl
        refl h (Latest-none w.events n.order.order_id)
        λ event v kept linked beside.
          Kept-bind (anchor_recorded p d event v) _ (anchor_recorded-Kept p d event v kept)
            λ metadata u k.
              Kept-bind (save_evidence _ u) _ (save_evidence-Kept _ u k) λ saved t j. j

  write_evidence-Kept : (w : World) → IsConsistent w → Kept (write_evidence p lifecycle d n w)
  unfolding write_evidence read_clock draw_id save_and_announce
  write_evidence-Kept w h =
      Kept-bind (save_evidence _ _) _ (save_evidence-Kept _ _ (Ticked-IsConsistent w _ refl h))
        λ base v k. announce_evidence-Kept _ _ v k

-- Submitting evidence keeps the state consistent, however the call ends.
pub submit_evidence-Kept :
    (p : Platform) (lifecycle : Bool) (d : AnchorDependencies) (i : SubmitEvidenceInput) (w : World)
    → IsConsistent w
    → Kept (submit_evidence p lifecycle d i w)
unfolding submit_evidence
submit_evidence-Kept p lifecycle d i w h =
    Kept-decide (check_evidence i w) (write_evidence p lifecycle d) w h
      λ n same. write_evidence-Kept p lifecycle d n w h
