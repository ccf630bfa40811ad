-- ===== src/Lifecycle/Log.antt =====
-- infrastructure/in-memory-procure-to-pay-lifecycle-event-repository.ts: the append-only log.
use blockchain_based_e_procu.Prelude.{
  String, List, [], ◌∷◌, ◌++◌, Option, none, some, ◌&&◌, any, find, if◌then◌else◌,
}
use blockchain_based_e_procu.Prelude.Text.{◌=s◌}
use blockchain_based_e_procu.Prelude.Effect.{M, pure, throw}
use blockchain_based_e_procu.Errors.{
  Error, lifecycle_persistence, duplicate_event_id, duplicate_payload_hash,
  previous_event_hash_not_found, previous_event_hash_correlation_mismatch,
}
use blockchain_based_e_procu.Lifecycle.Event.{LifecycleEvent}

-- `this.events.push(event)`
push : LifecycleEvent → M (List LifecycleEvent) Error LifecycleEvent
push e log = pure e (log ++ e ∷ [])

-- The check of `previousEventHash` against the stored event that has it.
check_previous :
    LifecycleEvent → Option LifecycleEvent → M (List LifecycleEvent) Error LifecycleEvent
unfolding push
check_previous e none = throw (lifecycle_persistence previous_event_hash_not_found)
check_previous e (some previous) =
    if previous.case_id =s e.case_id && previous.correlation_id =s e.correlation_id
    then push e
    else throw (lifecycle_persistence previous_event_hash_correlation_mismatch)

link : LifecycleEvent → Option String → M (List LifecycleEvent) Error LifecycleEvent
unfolding check_previous
link e none log = push e log
link e (some hash) log = check_previous e (find (λ stored. stored.payload_hash =s hash) log) log

-- `save`
unfoldable pub save : LifecycleEvent → M (List LifecycleEvent) Error LifecycleEvent
unfolding link
save e log =
    if any (λ stored. stored.event_id =s e.event_id) log
    then throw (lifecycle_persistence duplicate_event_id) log
    else if any (λ stored. stored.payload_hash =s e.payload_hash) log
    then throw (lifecycle_persistence duplicate_payload_hash) log
    else link e e.previous_event_hash log
