-- ===== src/Procurement/Sourcing/Generating.antt =====
-- The order that `awardSourceToAwardRfq` generates.
use blockchain_based_e_procu.Prelude.{
  String, Bool, Option, none, some, ◌≡◌, refl, subst, ap, arith, ◌+◌,
}
use blockchain_based_e_procu.Prelude.Text.{trim_optional, ◌<>◌}
use blockchain_based_e_procu.Prelude.Store
use blockchain_based_e_procu.Prelude.Effect.{ok, pure, ◌>>=◌}
use blockchain_based_e_procu.Prelude.Guard.{refuse}
use blockchain_based_e_procu.Prelude.After.{After, After-bind, After-weaken, decide-After}
use blockchain_based_e_procu.Json.{Json}
use blockchain_based_e_procu.Lifecycle.Event.{LifecycleEvent}
use blockchain_based_e_procu.Lifecycle.Recording.{Ticked}
use blockchain_based_e_procu.Lifecycle.Recording.Appending.{Appended, record_source_event-Appended}
use blockchain_based_e_procu.Lifecycle.Source.{SourceAction, record_source_event}
use blockchain_based_e_procu.Procurement.Actor.{as_string}
use blockchain_based_e_procu.Procurement.Order.{ProcurementOrder, find_order}
use blockchain_based_e_procu.Procurement.Ordering.Create.{
  CreateOrderInput, CreateOrderResult, created_order, not_eligible, buyer_role_required,
  OrderDependencies, NewOrder, check_order_input,
}
use blockchain_based_e_procu.Procurement.Ordering.Create
use blockchain_based_e_procu.Procurement.SourceCase.{
  SourceToAwardCase, purchase_order_generated, find_case, case_key,
}
use blockchain_based_e_procu.Procurement.Sourcing.{
  SourceResult, source_ok, AwardInput, append_source_event, source_event_input, case_after,
}
use blockchain_based_e_procu.Procurement.Sourcing.Awarding.{
  awarded_case, completed_case, order_input, finish_award, write_award, award_rfq,
  generated_metadata,
}
use blockchain_based_e_procu.Procurement.Sourcing.Checks.{Choice, check_award}
use blockchain_based_e_procu.World.{World, Platform, read_clock, draw_id, save_case}
use blockchain_based_e_procu.Procurement.Sourcing.Choosing.{IsChoice, check_award-IsChoice}
use blockchain_based_e_procu.Procurement.Ordering.Create.Values.{Ordered, create_order-Ordered}

-- After the event of a case, the orders are those before it.
abbrev Told : SourceToAwardCase → World → SourceToAwardCase → World → Type 0
Told c w c' v =
    ((event : Option LifecycleEvent) × (c' ≡ case_after event c)) × (v.orders ≡ w.orders)

append-Told :
    (p : Platform) (lifecycle : Bool) (c : SourceToAwardCase) (action : SourceAction)
    (target user request : String) (metadata : Json) (w : World)
    → After
        (Told c w)
        (λ v. Unit {0})
        (append_source_event p lifecycle c action target user request metadata w)
unfolding append_source_event source_event_input
append-Told p lifecycle c action target user request metadata w =
    After-bind (Appended w c.case_id c.case_id) (Told c w) (λ v. Unit {0}) _ _
      (After-weaken (Appended w c.case_id c.case_id) (Appended w c.case_id c.case_id) (Ticked w)
        (λ v. Unit {0}) _
        (record_source_event-Appended p w lifecycle
          (source_event_input c action target user request metadata))
        (λ event v h. h) (λ v h. tt))
      (λ event v h. ((event, refl), of_event event v h))
  where
    of_event :
        (event : Option LifecycleEvent) (v : World)
        → Appended w c.case_id c.case_id event v
        → v.orders ≡ w.orders
    of_event none v ticked = ap (λ (u : World). u.orders) ticked
    of_event (some e) v (same, _, _, _) = ap (λ (u : World). u.orders) same

ok-eq :
    {c e : SourceToAwardCase} {o q : Option ProcurementOrder}
    → source_ok c o ≡ source_ok e q
    → (c ≡ e) × (o ≡ q)
ok-eq h = (cc h, cc h)

module _ (p : Platform) (d : OrderDependencies) (i : AwardInput) (w : World) where
  -- The case names the order; the order has the values of the chosen quotation; both are stored.
  abbrev Generated : SourceResult → World → Type 0
  Generated r v =
      (c : SourceToAwardCase) (o : ProcurementOrder)
      → r ≡ source_ok c (some o)
      → (g : Choice) × IsChoice i w g
        × (c.case_id ≡ g.case.case_id)
        × (c.status ≡ purchase_order_generated)
        × (c.generated_order_id ≡ some o.order_id)
        × (o.supplier_organization_id
            ≡ as_string (trim_optional (some g.quotation.supplier_organization_id)))
        × (o.amount ≡ as_string (trim_optional (some g.quotation.amount)))
        × (o.currency ≡ as_string (trim_optional (some g.quotation.currency)))
        × (find_case c.case_id v.cases ≡ some c)
        × (find_order o.order_id v.orders ≡ some o)

  finish_award-Generated :
      (g : Choice) (c : SourceToAwardCase) (now : String) (r : CreateOrderResult) (u : World)
      → IsChoice i w g
      → c.case_id ≡ g.case.case_id
      → Ordered (order_input i g) r u
      → After Generated (λ v. Unit {0}) (finish_award p d i g c now r u)
  unfolding finish_award save_case
  finish_award-Generated g c now (created_order q) u choice named ordered =
      After-bind (Told (completed_case c q now) u) Generated (λ v. Unit {0})
        (append_source_event p d.lifecycle (completed_case c q now)
          blockchain_based_e_procu.Lifecycle.Source.purchase_order_generated q.order_id g.user
          i.request_id (generated_metadata g q) u)
        (λ case. save_case case >>= λ saved. pure (source_ok saved (some q)))
        (append-Told p d.lifecycle (completed_case c q now) _ _ _ _ _ u)
        (λ c' v ((event, after), kept) e o made.
          let (one, two) = ok-eq made in
          let same : q ≡ o = cc two in
          let (supplier, amount, currency, new, stored) = ordered q refl in
          (
            g,
            choice,
            rw (← one, after) (unfold case_after completed_case in named),
            rw (← one, after) (unfold case_after completed_case in refl),
            rw (← one, after, ← same) (unfold case_after completed_case in refl),
            rw (← same) (unfold order_input in supplier),
            rw (← same) (unfold order_input in amount),
            rw (← same) (unfold order_input in currency),
            rw (← one) (unfold find_case in Store.get-put-key case_key c' v.cases),
            rw (← same, kept) stored,
          ))
  finish_award-Generated g c now (Create.invalid_input issues) u choice named ordered =
      λ c' o made. absurd (cc made)
  finish_award-Generated g c now Create.unauthorized u choice named ordered =
      λ c' o made. absurd (cc made)
  finish_award-Generated g c now buyer_role_required u choice named ordered =
      λ c' o made. absurd (cc made)
  finish_award-Generated g c now (not_eligible e) u choice named ordered =
      λ c' o made. absurd (cc made)

  write_award-Generated :
      (g : Choice) → IsChoice i w g → After Generated (λ v. Unit {0}) (write_award p d i g w)
  unfolding write_award read_clock draw_id
  write_award-Generated g choice =
      After-bind (Told awarding started) Generated (λ v. Unit {0}) _ _
        (append-Told p d.lifecycle awarding _ _ _ _ _ started)
        (λ c v ((event, after), kept).
          After-bind (Ordered (order_input i g)) Generated (λ v. Unit {0}) _ _
            (create_order-Ordered p d (order_input i g) v)
            (λ r u ordered.
              finish_award-Generated g c _ r u choice
                (rw after (unfold case_after awarded_case in refl)) ordered))
    where
      awarding : SourceToAwardCase
      awarding = awarded_case i g (p.clock w.ticks) ("award_" <> p.uuid w.drawn)

      started : World
      started = record w { ticks = w.ticks + 1; drawn = w.drawn + 1 }

  never_awarded :
      (c : SourceToAwardCase) (o : Option ProcurementOrder)
      → ¬ (check_award i w ≡ refuse (source_ok c o))
  unfolding check_award
  never_awarded c o h = ground arith

  award_rfq-Generated : After Generated (λ v. Unit {0}) (award_rfq p d i w)
  unfolding award_rfq
  award_rfq-Generated =
      decide-After Generated (λ v. Unit {0}) (check_award i w) (write_award p d i) w
        (λ r same c o made. absurd (never_awarded c (some o) (rw made at same)))
        (λ g same. write_award-Generated g (check_award-IsChoice i w g same))

  -- A successful award chooses a quotation of a stored case that has no award; the returned case has
  -- generated the returned order, which has the supplier, the amount and the currency of that
  -- quotation, trimmed; both are then found under their identifiers.
  pub award_rfq-generates :
      (c : SourceToAwardCase) (o : ProcurementOrder) (v : World)
      → award_rfq p d i w ≡ (ok (source_ok c (some o)), v)
      → (g : Choice) × IsChoice i w g
        × (c.case_id ≡ g.case.case_id)
        × (c.status ≡ purchase_order_generated)
        × (c.generated_order_id ≡ some o.order_id)
        × (o.supplier_organization_id
            ≡ as_string (trim_optional (some g.quotation.supplier_organization_id)))
        × (o.amount ≡ as_string (trim_optional (some g.quotation.amount)))
        × (o.currency ≡ as_string (trim_optional (some g.quotation.currency)))
        × (find_case c.case_id v.cases ≡ some c)
        × (find_order o.order_id v.orders ≡ some o)
  award_rfq-generates c o v same =
      subst (After Generated (λ u. Unit {0})) same award_rfq-Generated c o refl
