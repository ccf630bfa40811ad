-- ===== src/Lifecycle/Recording.antt =====
-- What recording a lifecycle event does to the state (`recordProcureToPayLifecycleEvent` without
-- anchoring).
pub mod Appending
use blockchain_based_e_procu.Prelude.{
  String, true, [], ◌∷◌, ◌++◌, Option, none, some, ℕ, ◌+◌, get_or, Option-cases, ◌≡◌, refl, ◌⊎◌,
  inl, inr, arith, ap,
}
use blockchain_based_e_procu.Prelude.Effect.{Outcome, ok, thrown}
use blockchain_based_e_procu.Errors.{Error, LifecycleFault, lifecycle_validation}
use blockchain_based_e_procu.Lifecycle.Event.{EventInput, LifecycleEvent}
use blockchain_based_e_procu.Lifecycle.Builder.{build, create_event, validate_input}
use blockchain_based_e_procu.Lifecycle.Source.{record_event}
use blockchain_based_e_procu.Lifecycle.Integrity.{CanAppend, save_cases}
use blockchain_based_e_procu.World.{World, Platform}

-- Only the clock and the identifiers have moved on.
abbrev pub Ticked : World → World → Type 0
Ticked w v = v ≡ record w { ticks = v.ticks; drawn = v.drawn }

-- The same, part by part.
pub record IsQuiet (w v : World) : Type 0 where
  pub quiet_events : v.events ≡ w.events
  pub quiet_escrows : v.escrows ≡ w.escrows
  pub quiet_orders : v.orders ≡ w.orders
  pub quiet_evidence : v.evidence ≡ w.evidence
  pub quiet_rest : Ticked w v

IsQuiet-refl : (w : World) → IsQuiet w w
IsQuiet-refl w = record {
  quiet_events = refl;
  quiet_escrows = refl;
  quiet_orders = refl;
  quiet_evidence = refl;
  quiet_rest = refl;
}

module _ (p : Platform) (i : EventInput) (w : World) where
  abbrev Built : Outcome Error LifecycleEvent × World → Type 0
  Built q =
      (id : String) × (occurred : String) × (recorded : String) × (v : World) × (q
        ≡ (ok (build p i id occurred recorded), v))
      × IsQuiet w v

  -- the number of clock readings before `recordedAt`
  abbrev ticks_before : Option String → ℕ
  ticks_before none = w.ticks + 1
  ticks_before (some s) = w.ticks

  create_event_valid : validate_input i ≡ none → Built (create_event p i w)
  unfolding create_event
  create_event_valid valid = (
    get_or i.event_id (p.uuid w.drawn),
    get_or i.occurred_at (p.clock w.ticks),
    get_or i.recorded_at (p.clock (ticks_before i.occurred_at)),
    (create_event p i w).1,
    ground arith,
    ground arith,
  )

  create_event_cases :
      ((fault : LifecycleFault) × (validate_input i ≡ some fault)
        × (create_event p i w ≡ (thrown (lifecycle_validation fault), w)))
      ⊎ ((validate_input i ≡ none) × Built (create_event p i w))
  create_event_cases = elim (Option-cases (validate_input i)) [
    | inl valid ↦ inr (valid, create_event_valid valid)
    | inr (fault, invalid) ↦ inl (fault, invalid, unfold create_event in ground arith)
  ]

  -- The repository is there, and the write is refused, or the event is appended to the log.
  abbrev pub Refused : Outcome Error (Option LifecycleEvent) × World → Type 0
  Refused q = (x : Error) × (v : World) × (q ≡ (thrown x, v)) × IsQuiet w v

  pub record Stored (e : LifecycleEvent) (v : World) : Type 0 where
    pub may_append : CanAppend w.events e
    pub appended : v.events ≡ w.events ++ e ∷ []
    pub kept_escrows : v.escrows ≡ w.escrows
    pub kept_orders : v.orders ≡ w.orders
    pub kept_evidence : v.evidence ≡ w.evidence
    pub kept_rest : v ≡ record w { ticks = v.ticks; drawn = v.drawn; events = w.events ++ e ∷ [] }
    pub same_case : e.case_id ≡ i.case_id
    pub same_correlation : e.correlation_id ≡ i.correlation_id
    pub same_previous : e.previous_event_hash ≡ i.previous_event_hash
    pub same_type : e.event_type ≡ i.event_type
    pub same_target : e.target_id ≡ i.target_id
    pub same_actor : e.actor_user_id ≡ i.actor_user_id

  pub record_event_cases :
      Refused (record_event p true i none w)
      ⊎ ((e : LifecycleEvent) × (v : World) × (record_event p true i none w ≡ (ok (some e), v))
          × Stored e v)
  unfolding build
  record_event_cases = elim create_event_cases [
    | inl (fault, _, refused) ↦
        inl (lifecycle_validation fault, w, unfold record_event in rw refused, IsQuiet-refl w)
    | inr (_, (id, occurred, recorded, v, built, quiet)) ↦
        stored_or_refused (build p i id occurred recorded) v built quiet refl refl refl refl refl
          refl
  ]
    where
      stored_or_refused :
          (e : LifecycleEvent) (v : World)
          → create_event p i w ≡ (ok e, v)
          → IsQuiet w v
          → e.case_id ≡ i.case_id
          → e.correlation_id ≡ i.correlation_id
          → e.previous_event_hash ≡ i.previous_event_hash
          → e.event_type ≡ i.event_type
          → e.target_id ≡ i.target_id
          → e.actor_user_id ≡ i.actor_user_id
          → Refused (record_event p true i none w)
            ⊎ ((e : LifecycleEvent) × (v : World) × (record_event p true i none w
                  ≡ (ok (some e), v))
                × Stored e v)
      stored_or_refused e v built quiet c r h t g a = elim (save_cases v.events e) [
        | inl (done, can) ↦ inr (
          e,
          record v { events = v.events ++ e ∷ [] },
          unfold record_event in rw (built, done),
          record {
            may_append = rw quiet.quiet_events at can;
            appended = ap (λ log. log ++ e ∷ []) quiet.quiet_events;
            kept_escrows = quiet.quiet_escrows;
            kept_orders = quiet.quiet_orders;
            kept_evidence = quiet.quiet_evidence;
            kept_rest =
                ap (λ (u : World). record u { events = u.events ++ e ∷ [] }) quiet.quiet_rest;
            same_case = c;
            same_correlation = r;
            same_previous = h;
            same_type = t;
            same_target = g;
            same_actor = a;
          },
        )
        | inr (x, refused) ↦ inl (x, v, unfold record_event in rw (built, refused), quiet)
      ]
