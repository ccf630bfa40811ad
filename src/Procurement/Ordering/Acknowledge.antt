-- ===== src/Procurement/Ordering/Acknowledge.antt =====
-- application/acknowledge-procurement-order.ts: the input and the tests before the first write.
pub mod Write
pub mod Granted
pub mod Effect
use blockchain_based_e_procu.Prelude.{
  String, Bool, true, false, not, List, [], ◌∷◌, ◌++◌, Option, none, some, is_empty, when,
}
use blockchain_based_e_procu.Prelude.Text.{trim_optional, ◌=s◌}
use blockchain_based_e_procu.Prelude.Guard.{Guard, pass, refuse_if, need, ◌>>=◌, ◌>>◌}
use blockchain_based_e_procu.Errors.{Issue, issue}
use blockchain_based_e_procu.Procurement.Actor.{Actor, known_actor, has_role, missing, as_string}
use blockchain_based_e_procu.Procurement.Order.{
  ProcurementOrder, OrderStatus, created, accepted, rejected, find_order,
}
use blockchain_based_e_procu.World.{World}

pub data AckDecision : Type 0 where
  accept reject : AckDecision

pub record AcknowledgeInput : Type 0 where
  pub order_id : Option String
  pub decision : Option AckDecision
  pub actor : Actor
  pub request_id : String

pub data AcknowledgeResult : Type 0 where
  acknowledged : ProcurementOrder → AcknowledgeResult
  invalid_input : List Issue → AcknowledgeResult
  unauthorized : AcknowledgeResult
  supplier_role_required supplier_organization_mismatch : AcknowledgeResult
  not_found : AcknowledgeResult
  order_already_acknowledged : AcknowledgeResult

-- `status === 'created'`
abbrev pub is_created : OrderStatus → Bool
is_created created = true
is_created accepted = false
is_created rejected = false

unfoldable pub acknowledge_issues : AcknowledgeInput → List Issue
unfolding trim_optional
acknowledge_issues i =
    missing (trim_optional i.order_id) "orderId" "Order is required"
    ++ missing i.decision "decision" "Decision must be accept or reject"

-- The values that the tests have established.
pub record Acknowledgement : Type 0 where
  pub user : String
  pub decision : AckDecision
  pub order : ProcurementOrder

-- The tests before the first write.
unfoldable pub check_acknowledge :
    AcknowledgeInput → World → Guard AcknowledgeResult Acknowledgement
unfolding known_actor has_role acknowledge_issues trim_optional find_order
check_acknowledge i w = do
  actor ← need (known_actor i.actor) unauthorized
  refuse_if (not (has_role i.actor "supplier")) supplier_role_required
  refuse_if (not (is_empty (acknowledge_issues i))) (invalid_input (acknowledge_issues i))
  decision ← need i.decision (invalid_input (acknowledge_issues i))
  order ← need (find_order (as_string (trim_optional i.order_id)) w.orders) not_found
  refuse_if (not (order.supplier_organization_id =s actor.organization))
      supplier_organization_mismatch
  refuse_if (not (is_created order.status)) order_already_acknowledged
  pass (record { user = actor.user; decision = decision; order = order })
