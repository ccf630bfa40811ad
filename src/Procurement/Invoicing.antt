-- ===== src/Procurement/Invoicing.antt =====
-- application/invoice-service.ts: the roles, the results, and the event of an invoice.
pub mod Submit
pub mod Submitting
pub mod Review
pub mod Reviewing
pub mod Matching
pub mod Reading
pub mod Visible
use blockchain_based_e_procu.Prelude.{
  String, Bool, true, ◌&&◌, ◌||◌, List, [], ◌∷◌, Option, none, some, if◌then◌else◌,
}
use blockchain_based_e_procu.Prelude.Text.{eq_optional}
use blockchain_based_e_procu.Prelude.Effect.{pure, ◌>>=◌}
use blockchain_based_e_procu.Errors.{Issue}
use blockchain_based_e_procu.Json.{Json}
use blockchain_based_e_procu.Lifecycle.Event.{LifecycleEvent, EventOutcome, success, failed}
use blockchain_based_e_procu.Lifecycle.Source.{
  SourceAction, SourceEventInput, invoice_match_failed, record_source_event,
}
use blockchain_based_e_procu.Procurement.Actor.{Actor, has_any_role, has_role}
use blockchain_based_e_procu.Procurement.Invoice.{ProcurementInvoice}
use blockchain_based_e_procu.Procurement.Ordering.Create.Write.{ids_after, hash_after}
use blockchain_based_e_procu.World.{App, Platform}

-- `InvoiceResult`, and the list of `listInvoicesForActor`
pub data InvoiceResult : Type 0 where
  invoice_ok : ProcurementInvoice → InvoiceResult
  invoice_list : List ProcurementInvoice → InvoiceResult
  invalid_input : List Issue → InvoiceResult
  unauthorized : InvoiceResult
  forbidden not_found conflict : String → InvoiceResult

-- `canSubmitInvoice`
unfoldable pub can_submit_invoice : Actor → Bool
unfolding has_any_role
can_submit_invoice a = has_any_role a ("supplier" ∷ "invoiceManager" ∷ [])

abbrev pub reviewer_roles : List String
reviewer_roles = "buyer" ∷ "invoiceManager" ∷ "paymentReadinessApprover" ∷ []

abbrev pub oversight_roles : List String
oversight_roles = "administrator" ∷ "auditor" ∷ "regulator" ∷ "securityOperator" ∷ "financier" ∷ []

-- `canReviewInvoice`
unfoldable pub can_review_invoice : Actor → ProcurementInvoice → Bool
unfolding has_any_role has_role
can_review_invoice a i =
    has_role a "financier"
    || (has_any_role a reviewer_roles
        && eq_optional a.organization_id (some i.buyer_organization_id))

-- `canReadInvoice`
unfoldable pub can_read_invoice : Actor → ProcurementInvoice → Bool
unfolding has_any_role has_role
can_read_invoice a i =
    has_any_role a oversight_roles
    || ((has_any_role a reviewer_roles
          && eq_optional a.organization_id (some i.buyer_organization_id))
        || (has_role a "supplier"
            && eq_optional a.organization_id (some i.supplier_organization_id)))

abbrev outcome_of : SourceAction → EventOutcome
outcome_of invoice_match_failed = failed
outcome_of _ = success

-- The input of an event of an invoice.
unfoldable pub invoice_event_input :
    ProcurementInvoice → SourceAction → String → String → Json → SourceEventInput
invoice_event_input i action user request metadata = record {
  request_id = request;
  actor_user_id = user;
  correlation_id = i.order_id;
  case_id = i.order_id;
  source_id = i.invoice_id;
  source_action = action;
  outcome = outcome_of action;
  occurred_at = none;
  recorded_at = none;
  previous_event_hash = i.latest_lifecycle_payload_hash;
  source_payload_ref = i.invoice_reference;
  source_record_ref = some i.invoice_id;
  anchor_ref = none;
  metadata = some metadata;
}

unfoldable pub invoice_after : Option LifecycleEvent → ProcurementInvoice → ProcurementInvoice
unfolding ids_after hash_after
invoice_after event i = record i {
  lifecycle_event_ids = ids_after event i.lifecycle_event_ids;
  latest_lifecycle_payload_hash = hash_after event i.latest_lifecycle_payload_hash;
}

-- `appendInvoiceEvent`
unfoldable pub append_invoice_event :
    Platform
    → Bool
    → ProcurementInvoice
    → SourceAction
    → String
    → String
    → Json
    → App ProcurementInvoice
append_invoice_event p lifecycle i action user request metadata = do
  event ← record_source_event p lifecycle (invoice_event_input i action user request metadata) none
  pure (invoice_after event i)
