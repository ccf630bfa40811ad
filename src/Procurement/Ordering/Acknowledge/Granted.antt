-- ===== src/Procurement/Ordering/Acknowledge/Granted.antt =====
-- What the tests of `acknowledgeProcurementOrder` establish.
use blockchain_based_e_procu.Prelude.{
  get_or, String, true, some, get_or, ◌≡◌, sym, subst, arith, eq_iff,
}
use blockchain_based_e_procu.Prelude.Text.{trim_optional}
use blockchain_based_e_procu.Prelude.Store
use blockchain_based_e_procu.Prelude.Guard.{pass}
use blockchain_based_e_procu.Procurement.Actor.{known_actor, has_role, as_string}
use blockchain_based_e_procu.Procurement.Order.{ProcurementOrder, created, find_order, order_key}
use blockchain_based_e_procu.Procurement.Ordering.Acknowledge.{
  AcknowledgeInput, Acknowledgement, check_acknowledge,
}
use blockchain_based_e_procu.World.{World}

-- What the tests of an acknowledgement have established.
pub record Granted (i : AcknowledgeInput) (w : World) (a : Acknowledgement) : Type 0 where
  pub is_supplier : has_role i.actor "supplier" ≡ true
  pub acts_for : i.actor.organization_id ≡ some a.order.supplier_organization_id
  pub found : find_order a.order.order_id w.orders ≡ some a.order
  pub is_new : a.order.status ≡ created

-- An order that is found has the identifier that it was found by.
pub find_order_self :
    (id : String) (w : World) (o : ProcurementOrder)
    → find_order id w.orders ≡ some o
    → find_order o.order_id w.orders ≡ some o
unfolding find_order
find_order_self id w o h =
    subst (λ k. Store.get order_key k w.orders ≡ some o)
      (sym (Store.get-key order_key id w.orders h)) h

-- A call that passes the tests is made by a supplier for its own organization, on a stored order
-- that has not been acknowledged.
pub check_acknowledge-Granted :
    (i : AcknowledgeInput) (w : World) (a : Acknowledgement)
    → check_acknowledge i w ≡ pass a
    → Granted i w a
unfolding check_acknowledge known_actor
check_acknowledge-Granted i w a h = record {
  is_supplier = ground arith;
  acts_for =
      ground (arith, eq_iff a.order.supplier_organization_id (get_or i.actor.organization_id ""));
  found = find_order_self (as_string (trim_optional i.order_id)) w a.order (ground arith);
  is_new = ground arith;
}
