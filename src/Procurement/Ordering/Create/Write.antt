-- ===== src/Procurement/Ordering/Create/Write.antt =====
-- application/create-procurement-order.ts: the writes, and the whole operation.
use mathlib.Core.Option
use blockchain_based_e_procu.Prelude.{String, List, [], ◌∷◌, ◌++◌, Option, none, some, or_else}
use blockchain_based_e_procu.Prelude.Text.{◌<>◌}
use blockchain_based_e_procu.Prelude.Effect.{pure, ◌>>=◌}
use blockchain_based_e_procu.Prelude.Guard.{decide}
use blockchain_based_e_procu.Json.{str, obj, end, field}
use blockchain_based_e_procu.Lifecycle.Event.{LifecycleEvent, success}
use blockchain_based_e_procu.Lifecycle.Source.{
  SourceEventInput, purchase_order_created, record_source_event,
}
use blockchain_based_e_procu.Procurement.Order.{ProcurementOrder, created}
use blockchain_based_e_procu.Procurement.Ordering.Create.{
  CreateOrderInput, CreateOrderResult, created_order, OrderDependencies, NewOrder,
  check_order_input,
}
use blockchain_based_e_procu.World.{App, Platform, read_clock, draw_id, save_order}

-- The record before the event.
unfoldable pub new_order : NewOrder → String → String → ProcurementOrder
new_order n now id = record {
  order_id = id;
  buyer_organization_id = n.buyer;
  supplier_organization_id = n.supplier;
  title = n.title;
  description = n.description;
  amount = n.amount;
  currency = n.currency;
  status = created;
  created_by = n.user;
  created_at = now;
  updated_at = now;
  accepted_by = none;
  accepted_at = none;
  rejected_by = none;
  rejected_at = none;
  lifecycle_event_ids = [];
  latest_lifecycle_payload_hash = none;
}

-- The input of the event `purchaseOrderCreated`.
unfoldable pub order_created_input : NewOrder → String → String → SourceEventInput
order_created_input n request id = record {
  request_id = request;
  actor_user_id = n.user;
  correlation_id = id;
  case_id = id;
  source_id = id;
  source_action = purchase_order_created;
  outcome = success;
  occurred_at = none;
  recorded_at = none;
  previous_event_hash = none;
  source_payload_ref = none;
  source_record_ref = none;
  anchor_ref = none;
  metadata = some (
      obj (
        field "buyerOrganizationId" (str n.buyer) (
          field "supplierOrganizationId" (str n.supplier)
            (field "amount" (str n.amount) (field "currency" (str n.currency) end)))));
}

-- `[...ids, event.eventId]` and `event.immutableReference.payloadHash`, where there is an event
unfoldable pub ids_after : Option LifecycleEvent → List String → List String
ids_after none ids = ids
ids_after (some e) ids = ids ++ e.event_id ∷ []

unfoldable pub hash_after : Option LifecycleEvent → Option String → Option String
hash_after event latest = or_else (Option.map (λ (e : LifecycleEvent). e.payload_hash) event) latest

unfoldable pub order_after : Option LifecycleEvent → ProcurementOrder → ProcurementOrder
unfolding ids_after hash_after
order_after event o = record o {
  lifecycle_event_ids = ids_after event o.lifecycle_event_ids;
  latest_lifecycle_payload_hash = hash_after event o.latest_lifecycle_payload_hash;
}

module _ (p : Platform) (d : OrderDependencies) where
  -- After the clock is read and the identifier is drawn.
  unfoldable pub issue_order : String → NewOrder → String → String → App CreateOrderResult
  issue_order request n now id = do
    event ← record_source_event p d.lifecycle (order_created_input n request id) none
    saved ← save_order (order_after event (new_order n now id))
    pure (created_order saved)

  -- The writes after the tests.
  unfoldable pub write_order : String → NewOrder → App CreateOrderResult
  unfolding read_clock draw_id issue_order
  write_order request n = do
    now ← read_clock p
    id ← draw_id p
    issue_order request n now ("order_" <> id)

  -- `createProcurementOrder`
  unfoldable pub create_order : CreateOrderInput → App CreateOrderResult
  unfolding check_order_input write_order
  create_order i w = decide (check_order_input d i w) (write_order i.request_id) w
