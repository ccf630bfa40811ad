-- ===== src/Tests/Escrows.antt =====
-- An approval of a release, and a creation followed by a transition.
use blockchain_based_e_procu.Prelude.{
  List, String, true, false, [], ◌∷◌, Option, none, some, get_or, ◌≡◌, refl, ◌⊎◌, Bool,
}
use blockchain_based_e_procu.Prelude.Text.{trim_optional}
use blockchain_based_e_procu.Prelude.Store
use blockchain_based_e_procu.Prelude.Effect.{ok, thrown}
use blockchain_based_e_procu.Escrow.Record.{EscrowRecord, ReleaseConditions}
use blockchain_based_e_procu.Escrow.Record
use blockchain_based_e_procu.Escrow.Repository.{escrow_key, find_by_id}
use blockchain_based_e_procu.Escrow.Rules.{
  TransitionInput, TransitionSpec, validate_input, can_actor_perform, transition_spec,
  evaluate_release_conditions, release_conditions_satisfied, fund,
}
use blockchain_based_e_procu.Escrow.Decision.{unauthorized, transitioned, decide}
use blockchain_based_e_procu.Escrow.Decision.Granted.{Granted, Granted-decide}
use blockchain_based_e_procu.Escrow.Diagram.Listed.{Listed}
use blockchain_based_e_procu.Escrow.Outcomes.{Because, Done, transition_escrow-outcomes}
use blockchain_based_e_procu.Errors.{Error}
use blockchain_based_e_procu.Lifecycle.Source.{record_event}
use blockchain_based_e_procu.Escrow.Transition.Effects.{update_found}
use blockchain_based_e_procu.Escrow.Invariant.{IsSound, transition_escrow-IsSound}
use blockchain_based_e_procu.Escrow.Release.{IsReleasable, transition_escrow-IsReleasable}
use blockchain_based_e_procu.Escrow.Session.{
  Call, session, creating, transitioning, session_from_empty-IsSound, session_logged-AreCurrent,
}
use blockchain_based_e_procu.Escrow.Current.{AreCurrent}
use blockchain_based_e_procu.Escrow.Create.Write.{create_escrow}
use blockchain_based_e_procu.Escrow.Create.Write.Soundness.{create_escrow-IsSound}
use blockchain_based_e_procu.Escrow.Soundness.{
  Moved, transition_escrow-Moved, transition_escrow-unchanged,
}
use blockchain_based_e_procu.Escrow.Transition.{
  next_escrow, carry_out, commit, anchor_recorded, transition_escrow,
}
use blockchain_based_e_procu.Tests.Data
use blockchain_based_e_procu.Tests.Data.{
  platform, dependencies, requested, requested_world, empty_world, creation,
}
use blockchain_based_e_procu.World.{World, read_clock}

abbrev met : ReleaseConditions
met = record {
  accepted_order = true;
  delivery_evidence_recorded = true;
  eligibility_satisfied = true;
  dispute_free = true;
}

abbrev approve_spec : TransitionSpec
approve_spec = record {
  next_status = Record.settlement_instruction_ready;
  event_type = "escrowReleaseApproved";
  require_release_conditions = true;
  require_reason = false;
}

approval-Granted :
    (log : Bool)
    → Granted platform
        (dependencies log)
        Data.approval
        requested_world
        requested
        approve_spec
        none
        met
unfolding validate_input trim_optional find_by_id Store.get can_actor_perform transition_spec
    evaluate_release_conditions release_conditions_satisfied
approval-Granted log = record {
  actor = refl;
  valid = refl;
  found = refl;
  may = refl;
  allowed = refl;
  given = refl;
  reasoned = λ h. absurd (cc h);
  evaluated = refl;
  met = λ h. refl;
}

-- The escrow and the state after the approval.
abbrev approved : EscrowRecord
approved = next_escrow requested approve_spec none met "2026-06-01T00:00:00.000Z" none none

abbrev approved_world : World
approved_world = record requested_world {
  ticks = 1;
  escrows = Store.put escrow_key approved (requested ∷ []);
}

approval_result :
    transition_escrow platform (dependencies false) Data.approval requested_world
    ≡ (ok (transitioned approved met), approved_world)
unfolding transition_escrow carry_out commit read_clock record_event anchor_recorded next_escrow
    find_by_id Store.get
approval_result =
    rw
      (Granted-decide platform (dependencies false) Data.approval requested_world requested
        approve_spec none met (approval-Granted false))
      (rw (update_found approved (requested ∷ []) refl) refl)

transition_escrow-outcomes_example :
    ((n : EscrowRecord) × (v : World) × (transition_escrow platform
          (dependencies true)
          Data.approval
          requested_world
        ≡ (ok (transitioned n met), v))
      × Done platform
          (dependencies true)
          Data.approval
          requested_world
          requested
          approve_spec
          none
          met
          (approval-Granted true)
          n
          v)
    ⊎ ((x : Error) × (v : World) × (transition_escrow platform
            (dependencies true)
            Data.approval
            requested_world
          ≡ (thrown x, v))
        × (v.escrows ≡ requested ∷ [])
        × (true ≡ true)
        × Because platform
            (dependencies true)
            Data.approval
            requested_world
            requested
            approve_spec
            none
            met
            (approval-Granted true)
            x
            v)
transition_escrow-outcomes_example =
    transition_escrow-outcomes platform (dependencies true) Data.approval requested_world requested
      approve_spec none met (approval-Granted true)

transition_escrow-Moved_example :
    (e : EscrowRecord) × (spec : TransitionSpec) × (reason : Option String) × Granted platform
      (dependencies false)
      Data.approval
      requested_world
      e
      spec
      reason
      met
    × Moved Data.approval (requested ∷ []) e approved approved_world.escrows
transition_escrow-Moved_example =
    transition_escrow-Moved platform (dependencies false) Data.approval requested_world approved met
      approved_world approval_result

transition_escrow-IsReleasable_example :
    (e : EscrowRecord) × (find_by_id (get_or (trim_optional (some " e1 ")) "") (requested ∷ [])
      ≡ some e)
    × IsReleasable (dependencies false) e requested_world
transition_escrow-IsReleasable_example =
    transition_escrow-IsReleasable platform (dependencies false) requested_world Data.approval
      approved met approved_world refl approval_result

-- The same call without an actor.
abbrev nobody : TransitionInput
nobody = record Data.approval { actor_user_id = none }

refused_result :
    transition_escrow platform (dependencies false) nobody requested_world
    ≡ (ok unauthorized, requested_world)
unfolding transition_escrow decide
refused_result = refl

transition_escrow-unchanged_example : requested_world ≡ requested_world
transition_escrow-unchanged_example =
    transition_escrow-unchanged platform (dependencies false) nobody requested_world unauthorized
      requested_world refused_result (λ next c. cc)

empty-IsSound : IsSound [] []
empty-IsSound = record {
  intact = record { unique_ids = tt; unique_hashes = tt; linked = tt };
  unique = tt;
  one_active = tt;
  linked = tt;
}

requested-IsSound : IsSound [] (requested ∷ [])
requested-IsSound = record {
  intact = record { unique_ids = tt; unique_hashes = tt; linked = tt };
  unique = (tt, tt);
  one_active = (tt, tt);
  linked = (λ hash named. absurd (cc named), tt);
}

create_escrow-IsSound_example :
    IsSound
      (create_escrow platform (dependencies true) creation empty_world).1.events
      (create_escrow platform (dependencies true) creation empty_world).1.escrows
create_escrow-IsSound_example =
    create_escrow-IsSound platform (dependencies true) creation empty_world empty-IsSound

transition_escrow-IsSound_example :
    IsSound
      (transition_escrow platform (dependencies true) Data.approval requested_world).1.events
      (transition_escrow platform (dependencies true) Data.approval requested_world).1.escrows
transition_escrow-IsSound_example =
    transition_escrow-IsSound platform (dependencies true) Data.approval requested_world
      requested-IsSound

session_from_empty-IsSound_example :
    IsSound
      (session platform
        (creating (dependencies true) creation
          ∷ transitioning (dependencies true) Data.approval
          ∷ [])
        empty_world).events
      (session platform
        (creating (dependencies true) creation
          ∷ transitioning (dependencies true) Data.approval
          ∷ [])
        empty_world).escrows
session_from_empty-IsSound_example =
    session_from_empty-IsSound platform
      (creating (dependencies true) creation ∷ transitioning (dependencies true) Data.approval ∷ [])
      empty_world refl refl

-- The escrow that is created, with the identifier that is drawn first, is funded.
abbrev funding_session : List Call
funding_session =
    creating (dependencies true) creation
    ∷ transitioning (dependencies true)
        (record Data.approval { escrow_id = some "0"; action = fund })
    ∷ []

session_logged-AreCurrent_example :
    AreCurrent
      (session platform funding_session empty_world).events
      (session platform funding_session empty_world).escrows
session_logged-AreCurrent_example =
    session_logged-AreCurrent platform funding_session empty_world refl refl (refl, (refl, tt))
