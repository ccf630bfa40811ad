-- ===== src/Procurement/Ordering/Acknowledge/Effect.antt =====
-- What `acknowledgeProcurementOrder` does to the orders, and that a decision is final.
use blockchain_based_e_procu.Prelude.{
  String, Bool, Option, some, ◌≡◌, ◌≢◌, refl, sym, subst, ◌∙◌, ◌+◌, ap, arith,
}
use blockchain_based_e_procu.Prelude.Text.{trim_optional}
use blockchain_based_e_procu.Prelude.Store
use blockchain_based_e_procu.Prelude.Guard.{Guard, refuse, pass, decide}
use blockchain_based_e_procu.Prelude.Effect.{ok}
use blockchain_based_e_procu.Prelude.After.{After, After-bind, After-weaken, decide-After}
use blockchain_based_e_procu.Lifecycle.Event.{LifecycleEvent}
use blockchain_based_e_procu.Lifecycle.Recording.{Ticked}
use blockchain_based_e_procu.Lifecycle.Recording.Appending.{Appended, record_source_event-Appended}
use blockchain_based_e_procu.Procurement.Actor.{as_string}
use blockchain_based_e_procu.Procurement.Order.{
  ProcurementOrder, OrderStatus, created, accepted, rejected, find_order, order_key,
}
use blockchain_based_e_procu.Procurement.Ordering.Acknowledge.{
  AckDecision, accept, reject, AcknowledgeInput, AcknowledgeResult, acknowledged, Acknowledgement,
  check_acknowledge,
}
use blockchain_based_e_procu.Procurement.Ordering.Acknowledge.Granted.{
  Granted, check_acknowledge-Granted,
}
use blockchain_based_e_procu.Procurement.Ordering.Acknowledge.Write.{
  decided, acknowledged_input, updated_order, write_acknowledgement, acknowledge_order,
}
use blockchain_based_e_procu.World.{World, Platform, read_clock, save_order}

abbrev pub status_of : AckDecision → OrderStatus
status_of accept = accepted
status_of reject = rejected

updated_order-status :
    (a : Acknowledgement) (now : String) (event : Option LifecycleEvent)
    → (updated_order a now event).status ≡ status_of a.decision
unfolding updated_order
updated_order-status a now event = of_decision a.decision a.user now a.order
  where
    of_decision :
        (d : AckDecision) (user now : String) (o : ProcurementOrder)
        → (decided d user now o).status ≡ status_of d
    of_decision accept user now o = refl
    of_decision reject user now o = refl

-- The order is the stored one but for the decision, its times and the events that it names.
pub record IsDecisionOn (stored o : ProcurementOrder) : Type 0 where
  pub same_id : o.order_id ≡ stored.order_id
  pub same_buyer : o.buyer_organization_id ≡ stored.buyer_organization_id
  pub same_supplier : o.supplier_organization_id ≡ stored.supplier_organization_id
  pub same_title : o.title ≡ stored.title
  pub same_description : o.description ≡ stored.description
  pub same_amount : o.amount ≡ stored.amount
  pub same_currency : o.currency ≡ stored.currency
  pub same_creator : o.created_by ≡ stored.created_by
  pub same_creation : o.created_at ≡ stored.created_at

updated_order-IsDecisionOn :
    (a : Acknowledgement) (now : String) (event : Option LifecycleEvent)
    → IsDecisionOn a.order (updated_order a now event)
unfolding updated_order
updated_order-IsDecisionOn a now event =
    let h = of_decision a.decision in
    record {
      same_id = h.same_id;
      same_buyer = h.same_buyer;
      same_supplier = h.same_supplier;
      same_title = h.same_title;
      same_description = h.same_description;
      same_amount = h.same_amount;
      same_currency = h.same_currency;
      same_creator = h.same_creator;
      same_creation = h.same_creation;
    }
  where
    of_decision : (d : AckDecision) → IsDecisionOn a.order (decided d a.user now a.order)
    of_decision accept = record {
      same_id = refl;
      same_buyer = refl;
      same_supplier = refl;
      same_title = refl;
      same_description = refl;
      same_amount = refl;
      same_currency = refl;
      same_creator = refl;
      same_creation = refl;
    }
    of_decision reject = record {
      same_id = refl;
      same_buyer = refl;
      same_supplier = refl;
      same_title = refl;
      same_description = refl;
      same_amount = refl;
      same_currency = refl;
      same_creator = refl;
      same_creation = refl;
    }

-- The order that was asked for was new and is the supplier's of the actor; it has the status of the
-- decision, and is what a search for it finds.
abbrev pub Decided : AcknowledgeInput → World → AcknowledgeResult → World → Type 0
Decided i w r v =
    (o : ProcurementOrder)
    → r ≡ acknowledged o
    → (a : Acknowledgement) × Granted i w a
      × (find_order (as_string (trim_optional i.order_id)) w.orders ≡ some a.order)
      × IsDecisionOn a.order o
      × (i.decision ≡ some a.decision)
      × (o.status ≡ status_of a.decision)
      × (find_order o.order_id v.orders ≡ some o)

find_order-put :
    (o : ProcurementOrder) (w : World)
    → find_order o.order_id (Store.put order_key o w.orders) ≡ some o
unfolding find_order
find_order-put o w = Store.get-put-key order_key o w.orders

acknowledged-eq : {o q : ProcurementOrder} → acknowledged o ≡ acknowledged q → o ≡ q
acknowledged-eq h = cc h

check_acknowledge-decision :
    (i : AcknowledgeInput) (w : World) (a : Acknowledgement)
    → check_acknowledge i w ≡ pass a
    → (i.decision ≡ some a.decision)
      × (find_order (as_string (trim_optional i.order_id)) w.orders ≡ some a.order)
unfolding check_acknowledge
check_acknowledge-decision i w a h = (ground arith, ground arith)

never_acknowledged :
    (i : AcknowledgeInput) (w : World) (o : ProcurementOrder)
    → ¬ (check_acknowledge i w ≡ refuse (acknowledged o))
unfolding check_acknowledge
never_acknowledged i w o h = ground arith

module _ (p : Platform) (lifecycle : Bool) (i : AcknowledgeInput) (w : World) where
  -- the state after the clock is read
  abbrev read : World
  read = record w { ticks = w.ticks + 1 }

  write_acknowledgement-Decided :
      (a : Acknowledgement)
      → check_acknowledge i w ≡ pass a
      → After
          (Decided i w)
          (λ v. v.orders ≡ w.orders)
          (write_acknowledgement p lifecycle i.request_id a w)
  unfolding write_acknowledgement read_clock save_order acknowledged_input
  write_acknowledgement-Decided a same =
      After-bind (Appended read a.order.order_id a.order.order_id) (Decided i w)
        (λ v. v.orders ≡ w.orders) _ _
        (After-weaken (Appended read a.order.order_id a.order.order_id)
          (Appended read a.order.order_id a.order.order_id) (Ticked read) (λ v. v.orders ≡ w.orders)
          _ (record_source_event-Appended p read lifecycle (acknowledged_input a i.request_id))
          (λ event v h. h) (λ v ticked. ap (λ (u : World). u.orders) ticked))
        (λ event v h o made.
          let new = updated_order a (p.clock w.ticks) event in
          let one : new ≡ o = acknowledged-eq made in
          (
            a,
            check_acknowledge-Granted i w a same,
            (check_acknowledge-decision i w a same).1,
            rw (← one) (updated_order-IsDecisionOn a (p.clock w.ticks) event),
            (check_acknowledge-decision i w a same).0,
            rw (← one) (updated_order-status a (p.clock w.ticks) event),
            rw (← one) (find_order-put new v),
          ))

  acknowledge_order-Decided :
      After (Decided i w) (λ v. v.orders ≡ w.orders) (acknowledge_order p lifecycle i w)
  unfolding acknowledge_order
  acknowledge_order-Decided =
      decide-After (Decided i w) (λ v. v.orders ≡ w.orders) (check_acknowledge i w)
        (write_acknowledgement p lifecycle i.request_id) w
        (λ r same o made. absurd (never_acknowledged i w o (rw made at same)))
        (λ a same. write_acknowledgement-Decided a same)

  -- A successful acknowledgement is made by a supplier for its own organization, on the order stored
  -- under the given identifier, which was new; the returned order keeps that order's identifier,
  -- parties, title, description, amount, currency and creation, has the status of the given
  -- decision, and is what is now found under the identifier.
  pub acknowledge_order-decides :
      (o : ProcurementOrder) (v : World)
      → acknowledge_order p lifecycle i w ≡ (ok (acknowledged o), v)
      → (a : Acknowledgement) × Granted i w a
        × (find_order (as_string (trim_optional i.order_id)) w.orders ≡ some a.order)
        × IsDecisionOn a.order o
        × (i.decision ≡ some a.decision)
        × (o.status ≡ status_of a.decision)
        × (find_order o.order_id v.orders ≡ some o)
  acknowledge_order-decides o v same =
      subst (After (Decided i w) (λ v. v.orders ≡ w.orders)) same acknowledge_order-Decided o refl

  -- An order that has been accepted or rejected is not decided again: the call changes nothing.
  pub acknowledge_order-settled :
      (o : ProcurementOrder)
      → find_order (as_string (trim_optional i.order_id)) w.orders ≡ some o
      → o.status ≢ created
      → (acknowledge_order p lifecycle i w).1 ≡ w
  unfolding acknowledge_order
  acknowledge_order-settled o found settled = refused (check_acknowledge i w) refl
    where
      refused :
          (g : Guard AcknowledgeResult Acknowledgement)
          → check_acknowledge i w ≡ g
          → (decide g (write_acknowledgement p lifecycle i.request_id) w).1 ≡ w
      refused (refuse r) same = refl
      refused (pass a) same =
          let one : a.order ≡ o = cc (sym ((check_acknowledge-decision i w a same).1) ∙ found) in
          absurd (
            settled (
              ap (λ (q : ProcurementOrder). q.status) (sym one)
              ∙ (check_acknowledge-Granted i w a same).is_new))
