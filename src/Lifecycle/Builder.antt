-- ===== src/Lifecycle/Builder.antt =====
-- application/procure-to-pay-lifecycle-event-builder.ts. The stage and the outcome of the input are
-- enumerations, so the two tests that they are known are always passed.
use blockchain_based_e_procu.Prelude.{String, Bool, Option, none, some, any, get_or, if◌then◌else◌}
use blockchain_based_e_procu.Prelude.Text.{◌=s◌, trim, includes}
use blockchain_based_e_procu.Prelude.Effect.{pure, throw, ◌>>=◌}
use blockchain_based_e_procu.Errors.{
  LifecycleFault, lifecycle_validation, blank_request, blank_actor, blank_correlation, blank_case,
  blank_event_type, unknown_event_type, event_type_not_of_stage, blank_target_type, blank_target_id,
}
use blockchain_based_e_procu.Json.{Json, undefined, str, obj, end, field, canonicalize}
use blockchain_based_e_procu.Lifecycle.Event.{
  EventInput, LifecycleEvent, allowed_event_types, stages, stage_name, outcome_name,
}
use blockchain_based_e_procu.World.{App, Platform, read_clock, draw_id}

-- `!value || value.trim() === ''`
abbrev blank : String → Bool
blank s = trim s =s ""

-- `validateInput`: the first fault, in the order of the tests.
unfoldable pub validate_input : EventInput → Option LifecycleFault
unfolding trim
validate_input i =
    if blank i.request_id
    then some blank_request
    else if blank i.actor_user_id
    then some blank_actor
    else if blank i.correlation_id
    then some blank_correlation
    else if blank i.case_id
    then some blank_case
    else if blank i.event_type
    then some blank_event_type
    else if any (λ stage. includes (allowed_event_types stage) i.event_type) stages
    then (if includes (allowed_event_types i.lifecycle_stage) i.event_type
        then (if blank i.target_type
            then some blank_target_type
            else if blank i.target_id
            then some blank_target_id
            else none)
        else some event_type_not_of_stage)
    else some unknown_event_type

abbrev pub text_or_undefined : Option String → Json
text_or_undefined none = undefined
text_or_undefined (some s) = str s

-- `eventForHashing`: the event without its identifier, its hash and its references.
unfoldable pub event_for_hashing : EventInput → String → String → Json
unfolding stage_name outcome_name
event_for_hashing i occurred recorded = obj (
    field "schemaVersion" (str "procure-to-pay-lifecycle-event.v1") (
      field "occurredAt" (str occurred) (
        field "recordedAt" (str recorded) (
          field "requestId" (str i.request_id) (
            field "correlationId" (str i.correlation_id) (
              field "caseId" (str i.case_id) (
                field "lifecycleStage" (str (stage_name i.lifecycle_stage)) (
                  field "eventType" (str i.event_type) (
                    field "actorUserId" (str i.actor_user_id) (
                      field "actorSource" (str "actorContext") (
                        field "targetType" (str i.target_type) (
                          field "targetId" (str i.target_id) (
                            field "outcome" (str (outcome_name i.outcome)) (
                              field "reason" (text_or_undefined i.reason) (
                                field "metadata" (get_or i.metadata undefined) (
                                  field "immutableReference"
                                    (obj (field "canonicalization" (str "json-stable-v1") end))
                                    end))))))))))))))))

-- `computePayloadHash`
unfoldable pub compute_payload_hash : Platform → Json → String
compute_payload_hash p event = p.sha256 (canonicalize event)

-- `value ?? fallback()`
or_else_run : Option String → App String → App String
or_else_run none m = m
or_else_run (some s) m = pure s

unfoldable pub build : Platform → EventInput → String → String → String → LifecycleEvent
unfolding compute_payload_hash event_for_hashing
build p i id occurred recorded = record {
  event_id = id;
  occurred_at = occurred;
  recorded_at = recorded;
  request_id = i.request_id;
  correlation_id = i.correlation_id;
  case_id = i.case_id;
  lifecycle_stage = i.lifecycle_stage;
  event_type = i.event_type;
  actor_user_id = i.actor_user_id;
  target_type = i.target_type;
  target_id = i.target_id;
  outcome = i.outcome;
  reason = i.reason;
  metadata = i.metadata;
  payload_hash = compute_payload_hash p (event_for_hashing i occurred recorded);
  previous_event_hash = i.previous_event_hash;
  source_payload_ref = i.source_payload_ref;
  source_record_ref = i.source_record_ref;
  anchor_ref = i.anchor_ref;
}

build_valid : Platform → EventInput → Option LifecycleFault → App LifecycleEvent
unfolding or_else_run read_clock draw_id
build_valid p i (some fault) = throw (lifecycle_validation fault)
build_valid p i none = do
  id ← or_else_run i.event_id (draw_id p)
  occurred ← or_else_run i.occurred_at (read_clock p)
  recorded ← or_else_run i.recorded_at (read_clock p)
  pure (build p i id occurred recorded)

-- `createProcureToPayLifecycleEvent`
unfoldable pub create_event : Platform → EventInput → App LifecycleEvent
unfolding build_valid
create_event p i = build_valid p i (validate_input i)
