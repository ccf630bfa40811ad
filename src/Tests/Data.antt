-- ===== src/Tests/Data.antt =====
-- A platform, an order with evidence, and an escrow for it.
use blockchain_based_e_procu.Prelude.{◌*◌, ◌/◌, String, Bool, true, [], ◌∷◌, none, some}
use blockchain_based_e_procu.Prelude.Decimal.{show}
use blockchain_based_e_procu.Blockchain.Anchor.{AnchorEventInput}
use blockchain_based_e_procu.Lifecycle.Event.{LifecycleEvent, delivery, success}
use blockchain_based_e_procu.Procurement.Order.{ProcurementOrder, OrderStatus}
use blockchain_based_e_procu.Procurement.Evidence.{DeliveryEvidenceRecord, delivery_note}
use blockchain_based_e_procu.Procurement.Eligibility.{EligibilityResult, eligible}
use blockchain_based_e_procu.Escrow.Record.{EscrowRecord, release_requested}
use blockchain_based_e_procu.Escrow.Rules.{EscrowDependencies, TransitionInput, approve_release}
use blockchain_based_e_procu.Escrow.Create.{CreateEscrowInput}
use blockchain_based_e_procu.World.{World, Platform}

-- A platform whose digest of a text is the text, and whose clock stands still.
abbrev pub platform : Platform
platform = record {
  clock = λ n. "2026-06-01T00:00:00.000Z";
  uuid = λ n. show n;
  sha256 = λ s. s;
  locale_le = λ a b. true;
  upper_case = λ s. s;
  text_le = λ a b. true;
  round_ratio = λ part whole scale. part * scale / whole;
  round_tenth = λ n. n / 10;
  stringify = λ j. "json";
}

abbrev pub order : ProcurementOrder
order = record {
  order_id = "o1";
  buyer_organization_id = "b";
  supplier_organization_id = "s";
  title = "paper";
  description = none;
  amount = "10.00";
  currency = "MYR";
  status = OrderStatus.accepted;
  created_by = "u1";
  created_at = "t0";
  updated_at = "t0";
  accepted_by = some "u2";
  accepted_at = some "t1";
  rejected_by = none;
  rejected_at = none;
  lifecycle_event_ids = [];
  latest_lifecycle_payload_hash = none;
}

abbrev pub evidence : DeliveryEvidenceRecord
evidence = record {
  evidence_id = "d1";
  order_id = "o1";
  buyer_organization_id = "b";
  supplier_organization_id = "s";
  submitted_by_user_id = "u2";
  evidence_type = delivery_note;
  evidence_reference = none;
  evidence_hash = "h";
  notes = none;
  submitted_at = "t2";
  lifecycle_event_id = none;
  lifecycle_event_hash = none;
  blockchain_anchor = none;
}

abbrev pub requested : EscrowRecord
requested = record {
  escrow_id = "e1";
  order_id = "o1";
  buyer_organization_id = "b";
  supplier_organization_id = "s";
  financier_organization_id = none;
  terms_hash = "terms";
  status = release_requested;
  accepted_order_reference = none;
  created_by = "u1";
  created_at = "t1";
  updated_at = "t3";
  lifecycle_event_id = none;
  lifecycle_event_hash = none;
  blockchain_anchor = none;
  status_reason = none;
  release_condition_summary = none;
}

abbrev pub empty_world : World
empty_world = record {
  ticks = 0;
  drawn = 0;
  events = [];
  chain = [];
  anchors = [];
  escrows = [];
  orders = order ∷ [];
  evidence = evidence ∷ [];
  invoices = [];
  cases = [];
  closeouts = [];
}

abbrev pub requested_world : World
requested_world = record empty_world { escrows = requested ∷ [] }

abbrev pub find_eligible : World → String → EligibilityResult
find_eligible w id = record {
  member_organization_id = id;
  eligibility = eligible;
  reason_codes = none;
  rationale = none;
}

-- Without a log of events, and with one.
abbrev pub dependencies : Bool → EscrowDependencies
dependencies log = record {
  lifecycle = log;
  anchoring = record { gateway = none; metadata_repository = none };
  order_repository = true;
  evidence_repository = true;
  eligibility_gateway = some find_eligible;
}

abbrev pub approval : TransitionInput
approval = record {
  escrow_id = some " e1 ";
  action = approve_release;
  actor_user_id = some "u1";
  actor_organization_id = some "b";
  actor_role_codes = some ("buyer" ∷ []);
  reason = none;
  arbitration_outcome = none;
  request_id = "r1";
}

abbrev pub creation : CreateEscrowInput
creation = record {
  order_id = some "o1";
  buyer_organization_id = some "b";
  supplier_organization_id = some "s";
  financier_organization_id = none;
  terms_hash = some "terms";
  accepted_order_reference = none;
  actor_user_id = some "u1";
  actor_organization_id = some "b";
  actor_role_codes = some ("buyer" ∷ []);
  request_id = some "r0";
}

abbrev pub event : LifecycleEvent
event = record {
  event_id = "v1";
  occurred_at = "t1";
  recorded_at = "t1";
  request_id = "r1";
  correlation_id = "o1";
  case_id = "o1";
  lifecycle_stage = delivery;
  event_type = "deliveryRecorded";
  actor_user_id = "u1";
  target_type = "delivery";
  target_id = "d1";
  outcome = success;
  reason = none;
  metadata = none;
  payload_hash = "p1";
  previous_event_hash = none;
  source_payload_ref = none;
  source_record_ref = none;
  anchor_ref = none;
}

abbrev pub next_event : LifecycleEvent
next_event = record event { event_id = "v2"; payload_hash = "p2"; previous_event_hash = some "p1" }

abbrev pub anchor_input : AnchorEventInput
anchor_input = record {
  event_id = "v1";
  case_id_hash = "sha256:o1";
  event_type = "deliveryRecorded";
  payload_hash = "p1";
  schema_version = "procure-to-pay-lifecycle-event.v1";
  canonicalization = "json-canonical-v1";
  occurred_at = "t1";
  previous_event_hash = none;
}
