-- ===== src/Escrow/Create.antt =====
-- application/create-escrow.ts: the input and the tests before the first write.
pub mod Write
use blockchain_based_e_procu.Prelude.{
  String, Bool, true, false, not, ◌&&◌, ◌||◌, List, [], ◌∷◌, ◌++◌, Option, none, some, get_or,
  or_else, if◌then◌else◌, when,
}
use mathlib.Core.Option
use blockchain_based_e_procu.Prelude.Text.{
  ◌=s◌, ◌<>◌, truthy, trim_optional, trimmed, is_blank, includes, starts_with, eq_optional,
}
use blockchain_based_e_procu.Prelude.Effect.{pure, ◌>>=◌}
use blockchain_based_e_procu.Json.{str, obj, end, field}
use blockchain_based_e_procu.Blockchain.Anchor.{BlockchainAnchorMetadata}
use blockchain_based_e_procu.Lifecycle.Event.{EventInput, LifecycleEvent, escrow, success}
use blockchain_based_e_procu.Lifecycle.Builder.{text_or_undefined}
use blockchain_based_e_procu.Lifecycle.Source.{record_event}
use blockchain_based_e_procu.Procurement.Order.{ProcurementOrder, OrderStatus, find_order}
use blockchain_based_e_procu.Procurement.Eligibility.{
  EligibilityResult, can_perform_procurement_action,
}
use blockchain_based_e_procu.Escrow.Record.{EscrowRecord, EscrowBlockchainAnchor, escrow_created}
use blockchain_based_e_procu.Escrow.Repository.{find_active_by_order_id, create, update}
use blockchain_based_e_procu.Errors.{Issue, issue}
use blockchain_based_e_procu.Escrow.Rules.{EscrowDependencies}
use blockchain_based_e_procu.Escrow.Transition.{anchor_recorded}
use blockchain_based_e_procu.World.{World, App, Platform, read_clock, draw_id, on_escrows}

pub record CreateEscrowInput : Type 0 where
  pub order_id : Option String
  pub buyer_organization_id : Option String
  pub supplier_organization_id : Option String
  pub financier_organization_id : Option String
  pub terms_hash : Option String
  pub accepted_order_reference : Option String
  pub actor_user_id : Option String
  pub actor_organization_id : Option String
  pub actor_role_codes : Option (List String)
  pub request_id : Option String

pub record NormalizedInput : Type 0 where
  pub order_id : String
  pub buyer_organization_id : String
  pub supplier_organization_id : String
  pub financier_organization_id : Option String
  pub terms_hash : String
  pub accepted_order_reference : Option String
  pub actor_user_id : String
  pub actor_organization_id : Option String
  pub request_id : String

pub data ForbiddenReason : Type 0 where
  buyer_role_required buyer_organization_mismatch order_organization_mismatch : ForbiddenReason

pub data Party : Type 0 where
  buyer supplier : Party

pub data CreateEscrowResult : Type 0 where
  created : EscrowRecord → CreateEscrowResult
  invalid_input : List Issue → CreateEscrowResult
  unauthorized : CreateEscrowResult
  forbidden : ForbiddenReason → CreateEscrowResult
  not_eligible : Party → EligibilityResult → CreateEscrowResult
  order_not_found : String → CreateEscrowResult
  order_not_accepted : String → OrderStatus → CreateEscrowResult
  duplicate_active_escrow : String → CreateEscrowResult

-- `requiredString`; the path is the label.
abbrev required_string : Option String → String → List Issue
required_string value label =
    when (is_blank value) (issue label (label <> " is required and cannot be blank"))

-- The issues of `normalizeCreateEscrowInput`.
unfoldable pub create_issues : CreateEscrowInput → List Issue
unfolding is_blank
create_issues i =
    required_string i.order_id "orderId"
    ++ (required_string i.buyer_organization_id "buyerOrganizationId"
        ++ (required_string i.supplier_organization_id "supplierOrganizationId"
            ++ (required_string i.terms_hash "termsHash"
                ++ (required_string i.actor_user_id "actorUserId"
                    ++ required_string i.request_id "requestId"))))

-- The `normalized` of `normalizeCreateEscrowInput`. The role codes are read no further.
unfoldable pub normalize : CreateEscrowInput → NormalizedInput
unfolding trimmed trim_optional
normalize i = record {
  order_id = trimmed i.order_id;
  buyer_organization_id = trimmed i.buyer_organization_id;
  supplier_organization_id = trimmed i.supplier_organization_id;
  financier_organization_id = trim_optional i.financier_organization_id;
  terms_hash = trimmed i.terms_hash;
  accepted_order_reference = trim_optional i.accepted_order_reference;
  actor_user_id = trimmed i.actor_user_id;
  actor_organization_id = trim_optional i.actor_organization_id;
  request_id = trimmed i.request_id;
}

-- `hasExplicitDemoAcceptedReference`
unfoldable pub has_explicit_demo_accepted_reference : NormalizedInput → Bool
unfolding starts_with
has_explicit_demo_accepted_reference n =
    starts_with (get_or n.accepted_order_reference "") "accepted-order-demo-"
    || starts_with n.order_id "demo-order-"

abbrev pub is_accepted : OrderStatus → Bool
is_accepted OrderStatus.accepted = true
is_accepted OrderStatus.created = false
is_accepted OrderStatus.rejected = false

check_order : NormalizedInput → Option ProcurementOrder → Option CreateEscrowResult
unfolding has_explicit_demo_accepted_reference
check_order n none =
    if has_explicit_demo_accepted_reference n then none else some (order_not_found n.order_id)
check_order n (some o) =
    if not (is_accepted o.status)
    then some (order_not_accepted o.order_id o.status)
    else if not (o.buyer_organization_id =s n.buyer_organization_id)
        || not (o.supplier_organization_id =s n.supplier_organization_id)
    then some (forbidden order_organization_mismatch)
    else none

check_parties :
    NormalizedInput
    → World
    → Option (World → String → EligibilityResult)
    → Option CreateEscrowResult
unfolding can_perform_procurement_action
check_parties n w none = none
check_parties n w (some check) =
    if not (can_perform_procurement_action (check w n.buyer_organization_id))
    then some (not_eligible buyer (check w n.buyer_organization_id))
    else if not (can_perform_procurement_action (check w n.supplier_organization_id))
    then some (not_eligible supplier (check w n.supplier_organization_id))
    else none

check_duplicate : Option EscrowRecord → Option CreateEscrowResult
check_duplicate none = none
check_duplicate (some e) = some (duplicate_active_escrow e.escrow_id)

-- The early returns after the normalization, in their order; none of these tests writes.
unfoldable pub refusal : EscrowDependencies → NormalizedInput → World → Option CreateEscrowResult
unfolding find_order find_active_by_order_id check_order check_parties check_duplicate
refusal d n w =
    or_else
      (if truthy n.actor_organization_id
          && not (eq_optional n.actor_organization_id (some n.buyer_organization_id))
        then some (forbidden buyer_organization_mismatch)
        else none)
      (or_else (if d.order_repository then check_order n (find_order n.order_id w.orders) else none)
        (or_else (check_parties n w d.eligibility_gateway)
          (check_duplicate (find_active_by_order_id n.order_id w.escrows))))
