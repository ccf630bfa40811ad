-- ===== src/Consistency/Orders.antt =====
-- Creating and acknowledging an order keeps the state consistent.
use blockchain_based_e_procu.Prelude.{
  none, true, All-map, is_some, Bool-cases, inl, inr, ◌≡◌, subst, sym, String, none, refl,
}
use blockchain_based_e_procu.Prelude.Store
use blockchain_based_e_procu.Prelude.Guard.{refuse}
use blockchain_based_e_procu.Prelude.{arith, Option}
use blockchain_based_e_procu.Prelude.{eq_iff}
use blockchain_based_e_procu.Prelude.After.{After, After-bind, After-weaken, decide-After}
use blockchain_based_e_procu.Prelude.Text.{◌=s◌}
use blockchain_based_e_procu.Procurement.Order.{created, ProcurementOrder, order_key}
use blockchain_based_e_procu.Procurement.Ordering.Create.{
  CreateOrderResult, created_order, CreateOrderInput, OrderDependencies, NewOrder,
  check_order_input,
}
use blockchain_based_e_procu.Procurement.Ordering.Create.Write.{
  new_order, order_created_input, order_after, issue_order, write_order, create_order,
}
use blockchain_based_e_procu.Procurement.Order.{find_order}
use blockchain_based_e_procu.Procurement.Ordering.Acknowledge.{
  AckDecision, accept, reject, AcknowledgeInput, Acknowledgement, check_acknowledge,
}
use blockchain_based_e_procu.Procurement.Ordering.Acknowledge.Granted.{check_acknowledge-Granted}
use blockchain_based_e_procu.Procurement.Ordering.Acknowledge.Write.{
  decided, acknowledged_input, updated_order, write_acknowledgement, acknowledge_order,
}
use blockchain_based_e_procu.Procurement.Ordering.Create.Write.{hash_after}
use blockchain_based_e_procu.Lifecycle.Event.{LifecycleEvent}
use blockchain_based_e_procu.Prelude.{Bool, some, Option, List}
use blockchain_based_e_procu.Procurement.Books.{Latest, IsStamped, IsOrder, IsGenerated}
use blockchain_based_e_procu.Consistency.{
  Grows, Recorded, record-Recorded, IsConsistent, Ticked-IsConsistent, Latest-none, Kept, Kept-bind,
  Kept-decide, Kept-record,
}
use blockchain_based_e_procu.World.{World, Platform, save_order, read_clock, draw_id}

-- An order that is stored stays so after a write.
find_order-put :
    (id : String) (o : ProcurementOrder) (orders : List ProcurementOrder)
    → is_some (find_order id orders) ≡ true
    → is_some (find_order id (Store.put order_key o orders)) ≡ true
unfolding find_order
find_order-put id o orders h = elim (Bool-cases (o.order_id =s id)) [
  | inl same ↦ rw (Store.get-put order_key id o orders, same) refl
  | inr other ↦ rw (Store.get-put order_key id o orders, other) h
]

pub save_order-Kept :
    (o : ProcurementOrder) (w : World) → IsOrder w.events o → IsConsistent w → Kept (save_order o w)
unfolding save_order
save_order-Kept o w kept h = record {
  escrows_sound = h.escrows_sound;
  orders_kept = Store.All-put order_key (IsOrder w.events) o w.orders kept h.orders_kept;
  book_kept = h.book_kept;
  cases_kept = h.cases_kept;
  generated =
      All-map (IsGenerated w.orders) (IsGenerated (Store.put order_key o w.orders))
        (λ c g id named. find_order-put id o w.orders (g id named)) w.cases h.generated;
}

-- After an order has been created: it is stored, and the log has grown only.
abbrev pub Issued : World → CreateOrderResult → World → Type 0
Issued w r v =
    IsConsistent v
    × Grows w v
    × ((o : ProcurementOrder)
        → r ≡ created_order o
        → is_some (find_order o.order_id v.orders) ≡ true)

created_order-eq : {o q : ProcurementOrder} → created_order o ≡ created_order q → o ≡ q
created_order-eq h = cc h

found_put :
    (o : ProcurementOrder) (orders : List ProcurementOrder)
    → is_some (find_order o.order_id (Store.put order_key o orders)) ≡ true
unfolding find_order
found_put o orders =
    rw (Store.get-put order_key o.order_id o orders, (eq_iff o.order_id o.order_id).1 refl) refl

module _ (p : Platform) (d : OrderDependencies) (request : String) (n : NewOrder) where
  issue_order-Issued :
      (now id : String) (w : World)
      → IsConsistent w
      → After (Issued w) IsConsistent (issue_order p d request n now id w)
  unfolding issue_order order_created_input order_after new_order save_order find_order
  issue_order-Issued now id w h =
      After-bind (Recorded p d.lifecycle (order_created_input n request id) w id none) (Issued w)
        IsConsistent _ _
        (record-Recorded p d.lifecycle _ w id none refl refl h (Latest-none w.events id))
        (λ event v (kept, linked, beside). (
          save_order-Kept _ v (record { order_linked = linked; stamped = (refl, refl) }) kept,
          beside.3,
          λ o same. rw (← created_order-eq same) (found_put _ v.orders),
        ))

  write_order-Issued :
      (w : World) → IsConsistent w → After (Issued w) IsConsistent (write_order p d request n w)
  unfolding write_order read_clock draw_id
  write_order-Issued w h = issue_order-Issued _ _ _ (Ticked-IsConsistent w _ refl h)

never_created :
    (p : Platform) (d : OrderDependencies) (i : CreateOrderInput) (w : World) (o : ProcurementOrder)
    → ¬ (check_order_input d i w ≡ refuse (created_order o))
unfolding check_order_input
never_created p d i w o h = elim (d.eligibility_gateway) [
  | none ↦ ground arith
  | some check ↦ ground arith
]

pub create_order-Issued :
    (p : Platform) (d : OrderDependencies) (i : CreateOrderInput) (w : World)
    → IsConsistent w
    → After (Issued w) IsConsistent (create_order p d i w)
unfolding create_order
create_order-Issued p d i w h =
    decide-After (Issued w) IsConsistent (check_order_input d i w) (write_order p d i.request_id) w
      (λ r same. (h, λ c l k. k, λ o e. absurd (never_created p d i w o (rw e at same))))
      (λ n same. write_order-Issued p d i.request_id n w h)

-- Creating an order keeps the state consistent, however the call ends.
pub create_order-Kept :
    (p : Platform) (d : OrderDependencies) (i : CreateOrderInput) (w : World)
    → IsConsistent w
    → Kept (create_order p d i w)
create_order-Kept p d i w h =
    After-weaken (Issued w) (λ r v. IsConsistent v) IsConsistent IsConsistent (create_order p d i w)
      (create_order-Issued p d i w h) (λ r v issued. issued.0) (λ v k. k)

decided-order_id :
    (d : AckDecision) (user now : String) (o : ProcurementOrder)
    → (decided d user now o).order_id ≡ o.order_id
decided-order_id accept user now o = refl
decided-order_id reject user now o = refl

decided-IsStamped :
    (d : AckDecision) (user now : String) (o : ProcurementOrder)
    → (o.accepted_by ≡ none) × (o.rejected_by ≡ none)
    → IsStamped
        (decided d user now o).status
        (decided d user now o).accepted_by
        (decided d user now o).rejected_by
decided-IsStamped accept user now o (a, r) = (refl, r)
decided-IsStamped reject user now o (a, r) = (a, refl)

module _ (p : Platform) (lifecycle : Bool) (request : String) (a : Acknowledgement) where
  updated_order-IsOrder :
      (now : String) (event : Option LifecycleEvent) (log : List LifecycleEvent)
      → IsStamped a.order.status a.order.accepted_by a.order.rejected_by
      → a.order.status ≡ created
      → Latest log a.order.order_id (hash_after event a.order.latest_lifecycle_payload_hash)
      → IsOrder log (updated_order a now event)
  unfolding updated_order
  updated_order-IsOrder now event log stamped new h = record {
    order_linked =
        subst (λ id. Latest log id (hash_after event a.order.latest_lifecycle_payload_hash))
          (sym (decided-order_id a.decision a.user now a.order)) h;
    stamped = decided-IsStamped a.decision a.user now a.order (rw new at stamped);
  }

  write_acknowledgement-Kept :
      (w : World)
      → IsConsistent w
      → find_order a.order.order_id w.orders ≡ some a.order
      → a.order.status ≡ created
      → Kept (write_acknowledgement p lifecycle request a w)
  unfolding write_acknowledgement read_clock acknowledged_input find_order
  write_acknowledgement-Kept w h found new =
      let known : IsOrder w.events a.order =
        Store.All-get order_key (IsOrder w.events) a.order.order_id w.orders h.orders_kept found in
      Kept-record p lifecycle (acknowledged_input a request) _ a.order.order_id
        a.order.latest_lifecycle_payload_hash _ refl refl (Ticked-IsConsistent w _ refl h)
        known.order_linked
        (λ event v kept linked beside.
          Kept-bind (save_order _ v) _
            (save_order-Kept _ v
              (updated_order-IsOrder (p.clock w.ticks) event v.events known.stamped new linked)
              kept)
            λ saved u k. k)

-- Acknowledging an order keeps the state consistent, however the call ends.
pub acknowledge_order-Kept :
    (p : Platform) (lifecycle : Bool) (i : AcknowledgeInput) (w : World)
    → IsConsistent w
    → Kept (acknowledge_order p lifecycle i w)
unfolding acknowledge_order
acknowledge_order-Kept p lifecycle i w h =
    Kept-decide (check_acknowledge i w) (write_acknowledgement p lifecycle i.request_id) w h
      (λ a same.
        let granted = check_acknowledge-Granted i w a same in
        write_acknowledgement-Kept p lifecycle i.request_id a w h granted.found granted.is_new)
