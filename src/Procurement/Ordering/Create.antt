-- ===== src/Procurement/Ordering/Create.antt =====
-- application/create-procurement-order.ts: the input and the tests before the first write.
pub mod Write
pub mod Values
use mathlib.Core.Option
use blockchain_based_e_procu.Prelude.{
  String, Bool, List, [], ◌∷◌, ◌++◌, Option, none, some, not, is_empty, get_or, or_else,
}
use blockchain_based_e_procu.Prelude.Text.{trim_optional, ◌<>◌}
use blockchain_based_e_procu.Prelude.Effect.{pure}
use blockchain_based_e_procu.Prelude.Effect
use blockchain_based_e_procu.Prelude.Guard.{
  Guard, refuse, pass, refuse_if, need, decide, ◌>>=◌, ◌>>◌,
}
use blockchain_based_e_procu.Errors.{Issue}
use blockchain_based_e_procu.Json.{str, obj, end, field}
use blockchain_based_e_procu.Lifecycle.Event.{LifecycleEvent, success}
use blockchain_based_e_procu.Lifecycle.Source.{
  SourceEventInput, purchase_order_created, record_source_event,
}
use blockchain_based_e_procu.Procurement.Actor.{
  Actor, known_actor, has_any_role, missing, as_string,
}
use blockchain_based_e_procu.Procurement.Eligibility.{
  EligibilityResult, can_perform_procurement_action,
}
use blockchain_based_e_procu.Procurement.Order.{ProcurementOrder, created}
use blockchain_based_e_procu.World.{World, App, Platform, read_clock, draw_id, save_order}

pub record CreateOrderInput : Type 0 where
  pub supplier_organization_id : Option String
  pub title : Option String
  pub description : Option String
  pub amount : Option String
  pub currency : Option String
  pub actor : Actor
  pub request_id : String

pub data CreateOrderResult : Type 0 where
  created_order : ProcurementOrder → CreateOrderResult
  invalid_input : List Issue → CreateOrderResult
  unauthorized : CreateOrderResult
  buyer_role_required : CreateOrderResult
  not_eligible : EligibilityResult → CreateOrderResult

-- What the caller passes beside the order repository.
pub record OrderDependencies : Type 0 where
  pub lifecycle : Bool
  pub eligibility_gateway : Option (World → String → EligibilityResult)

-- The values that the tests have established.
pub record NewOrder : Type 0 where
  pub user : String
  pub buyer : String
  pub supplier : String
  pub title : String
  pub description : Option String
  pub amount : String
  pub currency : String

unfoldable pub order_issues : CreateOrderInput → List Issue
unfolding trim_optional
order_issues i =
    missing (trim_optional i.supplier_organization_id) "supplierOrganizationId"
      "Supplier organization is required"
    ++ (missing (trim_optional i.title) "title" "Order title is required"
        ++ (missing (trim_optional i.amount) "amount" "Order amount is required"
            ++ missing (trim_optional i.currency) "currency" "Currency is required"))

-- `if (gateway) { … if (!canPerformProcurementAction(eligibility)) return … }`
check_eligible :
    Option (World → String → EligibilityResult)
    → World
    → String
    → Guard CreateOrderResult (Unit {0})
unfolding can_perform_procurement_action
check_eligible none w organization = pass tt
check_eligible (some check) w organization =
    refuse_if (not (can_perform_procurement_action (check w organization)))
      (not_eligible (check w organization))

-- The tests before the first write.
unfoldable pub check_order_input :
    OrderDependencies → CreateOrderInput → World → Guard CreateOrderResult NewOrder
unfolding known_actor has_any_role check_eligible order_issues trim_optional
check_order_input d i w = do
  actor ← need (known_actor i.actor) unauthorized
  refuse_if
      (not (has_any_role i.actor ("buyer" ∷ "procurementOfficer" ∷ "sourceToAwardManager" ∷ [])))
      buyer_role_required
  check_eligible d.eligibility_gateway w actor.organization
  refuse_if (not (is_empty (order_issues i))) (invalid_input (order_issues i))
  pass (record {
    user = actor.user;
    buyer = actor.organization;
    supplier = as_string (trim_optional i.supplier_organization_id);
    title = as_string (trim_optional i.title);
    description = trim_optional i.description;
    amount = as_string (trim_optional i.amount);
    currency = as_string (trim_optional i.currency);
  })
