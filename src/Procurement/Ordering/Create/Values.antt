-- ===== src/Procurement/Ordering/Create/Values.antt =====
-- The order that `createProcurementOrder` stores.
use blockchain_based_e_procu.Prelude.{String, none, some, ◌≡◌, refl, arith}
use blockchain_based_e_procu.Prelude.Text.{trim_optional}
use blockchain_based_e_procu.Prelude.Store
use blockchain_based_e_procu.Prelude.Effect.{pure, ◌>>=◌}
use blockchain_based_e_procu.Prelude.Guard.{refuse, pass}
use blockchain_based_e_procu.Prelude.After.{After, After-any, After-bind, decide-After}
use blockchain_based_e_procu.Lifecycle.Source.{record_source_event}
use blockchain_based_e_procu.Procurement.Actor.{as_string}
use blockchain_based_e_procu.Procurement.Order.{ProcurementOrder, created, find_order, order_key}
use blockchain_based_e_procu.Procurement.Ordering.Create.{
  CreateOrderInput, CreateOrderResult, created_order, OrderDependencies, NewOrder,
  check_order_input,
}
use blockchain_based_e_procu.Procurement.Ordering.Create.Write.{
  new_order, order_after, order_created_input, issue_order, write_order, create_order,
}
use blockchain_based_e_procu.World.{World, Platform, read_clock, draw_id, save_order}

-- A created order has the trimmed values of the input, and is what a search for it finds.
abbrev pub Ordered : CreateOrderInput → CreateOrderResult → World → Type 0
Ordered i r v =
    (o : ProcurementOrder)
    → r ≡ created_order o
    → (o.supplier_organization_id ≡ as_string (trim_optional i.supplier_organization_id))
      × (o.amount ≡ as_string (trim_optional i.amount))
      × (o.currency ≡ as_string (trim_optional i.currency))
      × (o.status ≡ created)
      × (find_order o.order_id v.orders ≡ some o)

created-eq : {o q : ProcurementOrder} → created_order o ≡ created_order q → o ≡ q
created-eq h = cc h

check_order_input-values :
    (d : OrderDependencies) (i : CreateOrderInput) (w : World) (n : NewOrder)
    → check_order_input d i w ≡ pass n
    → (n.supplier ≡ as_string (trim_optional i.supplier_organization_id))
      × (n.amount ≡ as_string (trim_optional i.amount))
      × (n.currency ≡ as_string (trim_optional i.currency))
unfolding check_order_input
check_order_input-values d i w n h = elim (d.eligibility_gateway) [
  | none ↦ ground arith
  | some check ↦ ground arith
]

refused_order :
    (d : OrderDependencies) (i : CreateOrderInput) (w : World) (o : ProcurementOrder)
    → ¬ (check_order_input d i w ≡ refuse (created_order o))
unfolding check_order_input
refused_order d i w o h = elim (d.eligibility_gateway) [
  | none ↦ ground arith
  | some check ↦ ground arith
]

issue_order-Ordered :
    (p : Platform) (d : OrderDependencies) (i : CreateOrderInput) (n : NewOrder)
    (request now id : String) (w : World)
    → (n.supplier ≡ as_string (trim_optional i.supplier_organization_id))
      × (n.amount ≡ as_string (trim_optional i.amount))
      × (n.currency ≡ as_string (trim_optional i.currency))
    → After (Ordered i) (λ v. Unit {0}) (issue_order p d request n now id w)
unfolding issue_order save_order
issue_order-Ordered p d i n request now id w (supplier, amount, currency) =
    After-bind (λ e v. Unit {0}) (Ordered i) (λ v. Unit {0})
      (record_source_event p d.lifecycle (order_created_input n request id) none w)
      (λ event.
        save_order (order_after event (new_order n now id)) >>= λ saved. pure (created_order saved))
      (After-any _)
      (λ event v h o made.
        let one : order_after event (new_order n now id) ≡ o = created-eq made in
        (
          rw (← one) (unfold order_after new_order in supplier),
          rw (← one) (unfold order_after new_order in amount),
          rw (← one) (unfold order_after new_order in currency),
          rw (← one) (unfold order_after new_order in refl),
          rw (← one) (unfold find_order in Store.get-put-key order_key _ v.orders),
        ))

pub create_order-Ordered :
    (p : Platform) (d : OrderDependencies) (i : CreateOrderInput) (w : World)
    → After (Ordered i) (λ v. Unit {0}) (create_order p d i w)
unfolding create_order write_order read_clock draw_id
create_order-Ordered p d i w =
    decide-After (Ordered i) (λ v. Unit {0}) (check_order_input d i w)
      (write_order p d i.request_id) w
      (λ r same o made. absurd (refused_order d i w o (rw made at same)))
      (λ n same.
        issue_order-Ordered p d i n i.request_id _ _ _ (check_order_input-values d i w n same))
