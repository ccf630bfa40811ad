-- ===== src/Procurement/Sourcing.antt =====
-- application/source-to-award-service.ts: the inputs, the results, the roles, and the event of a case.
pub mod Checks
pub mod Writes
pub mod Awarding
pub mod Choosing
pub mod Generating
pub mod Reading
use blockchain_based_e_procu.Prelude.{ℕ, String, Bool, ◌||◌, List, [], ◌∷◌, Option, none, some}
use blockchain_based_e_procu.Prelude.Text.{eq_optional}
use blockchain_based_e_procu.Prelude.Effect.{pure, ◌>>=◌}
use blockchain_based_e_procu.Errors.{Issue}
use blockchain_based_e_procu.Json.{Json}
use blockchain_based_e_procu.Lifecycle.Event.{LifecycleEvent, success}
use blockchain_based_e_procu.Lifecycle.Source.{SourceAction, SourceEventInput, record_source_event}
use blockchain_based_e_procu.Procurement.Actor.{Actor, has_any_role}
use blockchain_based_e_procu.Procurement.Order.{ProcurementOrder}
use blockchain_based_e_procu.Procurement.Ordering.Create.Write.{ids_after, hash_after}
use blockchain_based_e_procu.Procurement.SourceCase.{SourceToAwardCase, invites}
use blockchain_based_e_procu.World.{App, Platform}

-- `SourceToAwardResult`; the order is there after an award only.
pub data SourceResult : Type 0 where
  source_ok : SourceToAwardCase → Option ProcurementOrder → SourceResult
  source_list : List SourceToAwardCase → SourceResult
  invalid_input : List Issue → SourceResult
  unauthorized : SourceResult
  forbidden not_found conflict : String → SourceResult

pub record RequisitionInput : Type 0 where
  pub title : Option String
  pub description : Option String
  pub estimated_amount : Option String
  pub currency : Option String
  pub actor : Actor
  pub request_id : String

pub record ApproveInput : Type 0 where
  pub requisition_id : Option String
  pub actor : Actor
  pub request_id : String

pub record RfqInput : Type 0 where
  pub requisition_id : Option String
  pub supplier_organization_ids : Option (List String)
  pub response_deadline : Option String
  pub actor : Actor
  pub request_id : String

-- A number of days: a whole number that is not negative, or any other number.
pub data Days : Type 0 where
  whole : ℕ → Days
  not_whole_or_negative : Days

pub record QuotationInput : Type 0 where
  pub rfq_id : Option String
  pub amount : Option String
  pub currency : Option String
  pub delivery_days : Option Days
  pub notes : Option String
  pub actor : Actor
  pub request_id : String

pub record AwardInput : Type 0 where
  pub rfq_id : Option String
  pub quotation_id : Option String
  pub rationale : Option String
  pub actor : Actor
  pub request_id : String

-- `canManageSourceToAward`
unfoldable pub can_manage : Actor → Bool
unfolding has_any_role
can_manage a = has_any_role a ("buyer" ∷ "procurementOfficer" ∷ "sourceToAwardManager" ∷ [])

-- `canSubmitSourceToAwardQuotation`
unfoldable pub can_quote : Actor → Bool
unfolding has_any_role
can_quote a = has_any_role a ("supplier" ∷ "quotationManager" ∷ [])

-- `isPrivilegedReader`
unfoldable pub is_privileged_reader : Actor → Bool
unfolding has_any_role
is_privileged_reader a =
    has_any_role a ("administrator" ∷ "auditor" ∷ "regulator" ∷ "securityOperator" ∷ [])

-- The input of an event of a case.
unfoldable pub source_event_input :
    SourceToAwardCase → SourceAction → String → String → String → Json → SourceEventInput
source_event_input c action target user request metadata = record {
  request_id = request;
  actor_user_id = user;
  correlation_id = c.case_id;
  case_id = c.case_id;
  source_id = target;
  source_action = action;
  outcome = success;
  occurred_at = none;
  recorded_at = none;
  previous_event_hash = c.latest_lifecycle_payload_hash;
  source_payload_ref = none;
  source_record_ref = some target;
  anchor_ref = none;
  metadata = some metadata;
}

unfoldable pub case_after : Option LifecycleEvent → SourceToAwardCase → SourceToAwardCase
unfolding ids_after hash_after
case_after event c = record c {
  lifecycle_event_ids = ids_after event c.lifecycle_event_ids;
  latest_lifecycle_payload_hash = hash_after event c.latest_lifecycle_payload_hash;
}

-- `appendSourceEvent`
unfoldable pub append_source_event :
    Platform
    → Bool
    → SourceToAwardCase
    → SourceAction
    → String
    → String
    → String
    → Json
    → App SourceToAwardCase
append_source_event p lifecycle c action target user request metadata = do
  event ←
      record_source_event p lifecycle (source_event_input c action target user request metadata)
        none
  pure (case_after event c)
