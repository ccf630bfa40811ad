-- ===== src/Escrow/Create/Write.antt =====
-- application/create-escrow.ts: the writes, and the whole operation.
pub mod Soundness
use blockchain_based_e_procu.Prelude.{
  String, not, List, [], ◌∷◌, Option, none, some, get_or, if◌then◌else◌,
}
use mathlib.Core.Option
use blockchain_based_e_procu.Prelude.Text.{is_blank, includes}
use blockchain_based_e_procu.Prelude.Effect.{pure, ◌>>=◌}
use blockchain_based_e_procu.Json.{str, obj, end, field}
use blockchain_based_e_procu.Blockchain.Anchor.{BlockchainAnchorMetadata}
use blockchain_based_e_procu.Lifecycle.Event.{EventInput, LifecycleEvent, escrow, success}
use blockchain_based_e_procu.Lifecycle.Builder.{text_or_undefined}
use blockchain_based_e_procu.Lifecycle.Source.{record_event}
use blockchain_based_e_procu.Escrow.Record.{EscrowRecord, EscrowBlockchainAnchor, escrow_created}
use blockchain_based_e_procu.Escrow.Repository.{create, update}
use blockchain_based_e_procu.Errors.{Issue}
use blockchain_based_e_procu.Escrow.Rules.{EscrowDependencies}
use blockchain_based_e_procu.Escrow.Transition.{anchor_recorded}
use blockchain_based_e_procu.World.{App, Platform, read_clock, draw_id, on_escrows}
use blockchain_based_e_procu.Escrow.Create.{
  CreateEscrowInput, NormalizedInput, CreateEscrowResult, created, invalid_input, unauthorized,
  forbidden, buyer_role_required, create_issues, normalize, refusal,
}

-- The record of `createEscrow` before the event.
unfoldable pub new_escrow : NormalizedInput → String → String → EscrowRecord
new_escrow n now id = record {
  escrow_id = id;
  order_id = n.order_id;
  buyer_organization_id = n.buyer_organization_id;
  supplier_organization_id = n.supplier_organization_id;
  financier_organization_id = n.financier_organization_id;
  terms_hash = n.terms_hash;
  status = escrow_created;
  accepted_order_reference = n.accepted_order_reference;
  created_by = n.actor_user_id;
  created_at = now;
  updated_at = now;
  lifecycle_event_id = none;
  lifecycle_event_hash = none;
  blockchain_anchor = none;
  status_reason = none;
  release_condition_summary = none;
}

-- The input of the lifecycle event.
unfoldable pub created_event_input : NormalizedInput → String → EventInput
created_event_input n id = record {
  request_id = n.request_id;
  correlation_id = get_or n.accepted_order_reference n.order_id;
  case_id = n.order_id;
  lifecycle_stage = escrow;
  event_type = "escrowCreated";
  actor_user_id = n.actor_user_id;
  target_type = "escrow";
  target_id = id;
  outcome = success;
  reason = none;
  metadata = some (
      obj (
        field "orderId" (str n.order_id) (
          field "buyerOrganizationId" (str n.buyer_organization_id) (
            field "supplierOrganizationId" (str n.supplier_organization_id) (
              field "financierOrganizationId" (text_or_undefined n.financier_organization_id) (
                field "acceptedOrderReference" (text_or_undefined n.accepted_order_reference)
                  (field "termsHash" (str n.terms_hash) end)))))));
  occurred_at = none;
  recorded_at = none;
  event_id = none;
  previous_event_hash = none;
  source_payload_ref = none;
  source_record_ref = some id;
  anchor_ref = none;
}

-- `toEscrowBlockchainAnchor` of create-escrow.ts
unfoldable pub created_anchor :
    Option String → Option BlockchainAnchorMetadata → Option EscrowBlockchainAnchor
created_anchor id none = none
created_anchor id (some m) = some (record {
  event_id = id;
  payload_hash = some m.payload_hash;
  anchor_status = m.anchor_status;
  blockchain_network = m.blockchain_network;
  transaction_id = m.transaction_id;
  block_number = m.block_number;
  channel_name = m.channel_name;
  chaincode_name = m.chaincode_name;
  anchored_at = m.anchored_at;
  failure_reason = m.failure_reason;
})

-- `updatedEscrow`
unfoldable pub updated_escrow :
    EscrowRecord → String → Option LifecycleEvent → Option BlockchainAnchorMetadata → EscrowRecord
unfolding created_anchor
updated_escrow e now event metadata = record e {
  updated_at = now;
  lifecycle_event_id = Option.map (λ (v : LifecycleEvent). v.event_id) event;
  lifecycle_event_hash = Option.map (λ (v : LifecycleEvent). v.payload_hash) event;
  blockchain_anchor =
      created_anchor (Option.map (λ (v : LifecycleEvent). v.event_id) event) metadata;
}

module _ (p : Platform) (d : EscrowDependencies) where
  -- After the event: the anchoring and the second write.
  unfoldable pub finish : EscrowRecord → Option LifecycleEvent → App CreateEscrowResult
  unfolding read_clock
  finish e event = do
    metadata ← anchor_recorded p d.anchoring event
    now ← read_clock p
    updated ← on_escrows (update (updated_escrow e now event metadata))
    pure (created updated)

  -- After the first write.
  unfoldable pub announce : NormalizedInput → EscrowRecord → App CreateEscrowResult
  unfolding finish
  announce n e = do
    event ← record_event p d.lifecycle (created_event_input n e.escrow_id) none
    finish e event

  -- The writes after the tests.
  unfoldable pub commit_create : NormalizedInput → App CreateEscrowResult
  unfolding read_clock draw_id announce
  commit_create n = do
    now ← read_clock p
    id ← draw_id p
    e ← on_escrows (create (new_escrow n now id))
    announce n e

  unfoldable pub create_unless :
      NormalizedInput → Option CreateEscrowResult → App CreateEscrowResult
  create_unless n none = commit_create n
  create_unless n (some result) = pure result

  unfoldable pub create_valid : CreateEscrowInput → List Issue → App CreateEscrowResult
  unfolding normalize create_unless
  create_valid i [] w = create_unless (normalize i) (refusal d (normalize i) w) w
  create_valid i (x ∷ issues) w = pure (invalid_input (x ∷ issues)) w

  -- `createEscrow`
  unfoldable pub create_escrow : CreateEscrowInput → App CreateEscrowResult
  unfolding is_blank create_valid
  create_escrow i =
      if is_blank i.actor_user_id
      then pure unauthorized
      else if not (includes (get_or i.actor_role_codes []) "buyer")
      then pure (forbidden buyer_role_required)
      else create_valid i (create_issues i)
