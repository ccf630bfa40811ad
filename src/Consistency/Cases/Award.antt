-- ===== src/Consistency/Cases/Award.antt =====
-- Awarding a case keeps the state consistent.
use blockchain_based_e_procu.Lifecycle.Source.{award_selected}
use blockchain_based_e_procu.Prelude.{String, true, List, Option, some, ◌≡◌, refl, subst, is_some}
use blockchain_based_e_procu.Lifecycle.Event.{LifecycleEvent}
use blockchain_based_e_procu.Procurement.Books.{Latest, IsCase}
use blockchain_based_e_procu.Procurement.Order.{ProcurementOrder, find_order}
use blockchain_based_e_procu.Procurement.Ordering.Create.{
  CreateOrderResult, created_order, not_eligible, buyer_role_required, OrderDependencies,
}
use blockchain_based_e_procu.Procurement.Ordering.Create
use blockchain_based_e_procu.Procurement.SourceCase.{SourceToAwardCase, find_by_rfq_id}
use blockchain_based_e_procu.Procurement.Sourcing.{AwardInput, case_after}
use blockchain_based_e_procu.Procurement.Sourcing.Choosing.{IsChoice, check_award-IsChoice}
use blockchain_based_e_procu.Procurement.Sourcing.Awarding.{
  new_award, awarded_case, completed_case, finish_award,
}
use blockchain_based_e_procu.Procurement.Sourcing.Checks.{Choice, check_award}
use blockchain_based_e_procu.World.{World, Platform}
use blockchain_based_e_procu.Consistency.{IsConsistent, Kept}
use blockchain_based_e_procu.Consistency.Cases.{append_and_save-Kept}
use blockchain_based_e_procu.Prelude.{sym, ◌+◌}
use blockchain_based_e_procu.Prelude.Text.{◌<>◌}
use blockchain_based_e_procu.Prelude.After.{After-bind}
use blockchain_based_e_procu.Procurement.Sourcing.Awarding.{
  award_metadata, order_input, write_award, award_rfq,
}
use blockchain_based_e_procu.World.{read_clock, draw_id}
use blockchain_based_e_procu.Consistency.{Ticked-IsConsistent, Kept-decide}
use blockchain_based_e_procu.Consistency.Cases.{Announced, append-Announced}
use blockchain_based_e_procu.Consistency.Cases.Steps.{found-IsCase}
use blockchain_based_e_procu.Consistency.Orders.{Issued, create_order-Issued}

-- The case after an award and its order.
completed-IsCase :
    (i : AwardInput) (g : Choice) (w : World) (now id : String) (event : Option LifecycleEvent)
    (o : ProcurementOrder) (log : List LifecycleEvent)
    → IsChoice i w g
    → IsCase w.events g.case
    → Latest log g.case.case_id
        (case_after event (awarded_case i g now id)).latest_lifecycle_payload_hash
    → IsCase log (completed_case (case_after event (awarded_case i g now id)) o now)
unfolding completed_case case_after awarded_case new_award
completed-IsCase i g w now id event o log choice known linked = record {
  case_linked = linked;
  parts = (
    choice.has_rfq,
    (
      record (new_award i g now id) { generated_order_id = some o.order_id },
      refl,
      refl,
      refl,
      (g.quotation, choice.chosen, refl, refl),
    ),
  );
  one_each = known.one_each;
  invited = known.invited;
}

module _ (p : Platform) (d : OrderDependencies) (i : AwardInput) (g : Choice) where
  finish_award-Kept :
      (c : SourceToAwardCase) (now : String) (r : CreateOrderResult) (w : World)
      → IsConsistent w
      → ((o : ProcurementOrder)
          → r ≡ created_order o
          → IsCase w.events (completed_case c o now)
            × (is_some (find_order o.order_id w.orders) ≡ true))
      → Kept (finish_award p d i g c now r w)
  unfolding finish_award completed_case
  finish_award-Kept c now (created_order o) w h k =
      append_and_save-Kept p d.lifecycle (completed_case c o now) _ _ _ i.request_id _ (some o) w h
        ((k o refl).0)
        (λ id named. subst (λ s. is_some (find_order s w.orders) ≡ true) (cc named) ((k o refl).1))
  finish_award-Kept c now (Create.invalid_input issues) w h k = h
  finish_award-Kept c now Create.unauthorized w h k = h
  finish_award-Kept c now buyer_role_required w h k = h
  finish_award-Kept c now (not_eligible e) w h k = h

  write_award-Kept :
      (w : World)
      → IsConsistent w
      → IsChoice i w g
      → IsCase w.events g.case
      → Kept (write_award p d i g w)
  unfolding write_award read_clock draw_id awarded_case
  write_award-Kept w h choice known =
      After-bind
        (Announced p d.lifecycle awarding award_selected id g.user i.request_id (award_metadata g) _
          moved known.case_linked)
        (λ r v. IsConsistent v) IsConsistent _ _
        (append-Announced p d.lifecycle awarding award_selected id g.user i.request_id
          (award_metadata g) _ moved known.case_linked)
        (λ c v (kept, (event, same), linked, beside).
          After-bind (Issued v) (λ r u. IsConsistent u) IsConsistent _ _
            (create_order-Issued p d (order_input i g) v kept)
            (λ r u (k, grows, stored). finish_award-Kept c now r u k (λ o made. (
              subst (λ (c' : SourceToAwardCase). IsCase u.events (completed_case c' o now))
                  (sym same)
                  (completed-IsCase i g w now id event o u.events choice known (
                    grows g.case.case_id _ (
                      subst
                        (λ (c' : SourceToAwardCase).
                          Latest v.events g.case.case_id c'.latest_lifecycle_payload_hash)
                        same linked))),
              stored o made,
            ))))
    where
      now : String
      now = p.clock w.ticks

      id : String
      id = "award_" <> p.uuid w.drawn

      awarding : SourceToAwardCase
      awarding = awarded_case i g now id

      moved : IsConsistent (record w { ticks = w.ticks + 1; drawn = w.drawn + 1 })
      moved = Ticked-IsConsistent w _ refl h

-- Awarding a case keeps the state consistent, however the call ends.
pub award_rfq-Kept :
    (p : Platform) (d : OrderDependencies) (i : AwardInput) (w : World)
    → IsConsistent w
    → Kept (award_rfq p d i w)
unfolding award_rfq find_by_rfq_id
award_rfq-Kept p d i w h = Kept-decide (check_award i w) (write_award p d i) w h (λ g same.
    let choice = check_award-IsChoice i w g same in
    write_award-Kept p d i g w h choice (found-IsCase w _ g.case h choice.found).0)
