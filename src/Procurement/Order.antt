-- ===== src/Procurement/Order.antt =====
-- domain/procurement-order.ts and infrastructure/in-memory-procurement-order-repository.ts.
use blockchain_based_e_procu.Prelude.{String, List, Option}
use blockchain_based_e_procu.Prelude.Store

pub data OrderStatus : Type 0 where
  created accepted rejected : OrderStatus

pub record ProcurementOrder : Type 0 where
  pub order_id : String
  pub buyer_organization_id : String
  pub supplier_organization_id : String
  pub title : String
  pub description : Option String
  pub amount : String
  pub currency : String
  pub status : OrderStatus
  pub created_by : String
  pub created_at : String
  pub updated_at : String
  pub accepted_by : Option String
  pub accepted_at : Option String
  pub rejected_by : Option String
  pub rejected_at : Option String
  pub lifecycle_event_ids : List String
  pub latest_lifecycle_payload_hash : Option String

abbrev pub order_key : ProcurementOrder → String
order_key o = o.order_id

-- `findById`
unfoldable pub find_order : String → List ProcurementOrder → Option ProcurementOrder
find_order id orders = Store.get order_key id orders
