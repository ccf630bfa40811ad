-- ===== src/Lifecycle/Stages.antt =====
-- The table of source actions (application/procure-to-pay-lifecycle-source-integration.ts) against
-- the event types that a stage allows (domain/procure-to-pay-lifecycle-event.ts).
use blockchain_based_e_procu.Prelude.{
  String, true, false, none, ◌≡◌, refl, any, ◌↔◌, arith, ◌≢◌, eq_iff,
}
use blockchain_based_e_procu.Prelude.Text.{◌=s◌, trim, includes}
use blockchain_based_e_procu.Lifecycle.Event.{
  EventInput, Stage, purchase_order, delivery, invoice, settlement, escrow, allowed_event_types,
  stages,
}
use blockchain_based_e_procu.Lifecycle.Builder.{validate_input}
use blockchain_based_e_procu.Lifecycle.Source.{
  SourceAction, SourceEventInput, action_name, source_of, stage_of, source_name, mapped_input,
}

-- The texts that the event must have.
pub record IsFilled (i : EventInput) : Type 0 where
  pub request : trim i.request_id ≢ ""
  pub actor : trim i.actor_user_id ≢ ""
  pub correlation : trim i.correlation_id ≢ ""
  pub case : trim i.case_id ≢ ""
  pub target_type : trim i.target_type ≢ ""
  pub target : trim i.target_id ≢ ""

allowed_somewhere :
    (stage : Stage) (type : String)
    → includes (allowed_event_types stage) type ≡ true
    → any (λ s. includes (allowed_event_types s) type) stages ≡ true
allowed_somewhere purchase_order type h = rw h refl
allowed_somewhere delivery type h = ground (arith, h)
allowed_somewhere invoice type h = ground (arith, h)
allowed_somewhere settlement type h = ground (arith, h)
allowed_somewhere escrow type h = ground (arith, h)

filled : (s : String) → (s =s "") ≡ false → s ≢ ""
filled s h q = ground (arith, eq_iff s "")

unfilled : (s : String) → s ≢ "" → (s =s "") ≡ false
unfilled s h = ground (arith, eq_iff s "")

-- An event whose type the stage allows is valid exactly when its texts are filled.
module _ (i : EventInput) (typed : trim i.event_type ≢ "")
    (allowed : includes (allowed_event_types i.lifecycle_stage) i.event_type ≡ true) where
  valid-IsFilled : validate_input i ≡ none → IsFilled i
  unfolding validate_input
  valid-IsFilled h = record {
    request = filled (trim i.request_id) (ground arith);
    actor = filled (trim i.actor_user_id) (ground arith);
    correlation = filled (trim i.correlation_id) (ground arith);
    case = filled (trim i.case_id) (ground arith);
    target_type = filled (trim i.target_type) (ground arith);
    target = filled (trim i.target_id) (ground arith);
  }

  IsFilled-valid : IsFilled i → validate_input i ≡ none
  unfolding validate_input
  IsFilled-valid f =
      rw
        (
          unfilled (trim i.request_id) f.request,
          unfilled (trim i.actor_user_id) f.actor,
          unfilled (trim i.correlation_id) f.correlation,
          unfilled (trim i.case_id) f.case,
          unfilled (trim i.event_type) typed,
          allowed_somewhere i.lifecycle_stage i.event_type allowed,
          allowed,
          unfilled (trim i.target_type) f.target_type,
          unfilled (trim i.target_id) f.target,
        )
        refl

-- The event type of an action is one that the stage of its source allows.
action-allowed :
    (a : SourceAction)
    → includes (allowed_event_types (stage_of (source_of a))) (action_name a) ≡ true
unfolding allowed_event_types stage_of source_of action_name
action-allowed SourceAction.requisition_created = refl
action-allowed a = refl

action-typed : (a : SourceAction) → (trim (action_name a) =s "") ≡ false
unfolding trim action_name
action-typed SourceAction.requisition_created = refl
action-typed a = refl

source-typed : (a : SourceAction) → (trim (source_name (source_of a)) =s "") ≡ false
unfolding trim source_of source_name
source-typed SourceAction.requisition_created = refl
source-typed a = refl

-- The event of a source action is never refused for its type or its stage: it is valid exactly when
-- the five texts that the caller gives are not blank.
pub mapped_input-valid :
    (i : SourceEventInput)
    → (validate_input (mapped_input i) ≡ none) ↔ (
        (trim i.request_id ≢ "")
        × (trim i.actor_user_id ≢ "")
        × (trim i.correlation_id ≢ "")
        × (trim i.case_id ≢ "")
        × (trim i.source_id ≢ ""))
unfolding mapped_input
mapped_input-valid i = (
  λ h.
      let f = valid-IsFilled (mapped_input i) typed allowed h in
      (f.request, f.actor, f.correlation, f.case, f.target),
  λ (r, a, c, k, t). IsFilled-valid (mapped_input i) typed allowed (record {
    request = r;
    actor = a;
    correlation = c;
    case = k;
    target_type =
        filled (trim (source_name (source_of i.source_action))) (source-typed i.source_action);
    target = t;
  }),
)
  where
    typed : trim (action_name i.source_action) ≢ ""
    typed = filled (trim (action_name i.source_action)) (action-typed i.source_action)

    allowed :
        includes
          (allowed_event_types (stage_of (source_of i.source_action)))
          (action_name i.source_action)
        ≡ true
    allowed = action-allowed i.source_action
