-- ===== src/Lifecycle/Recording/Appending.antt =====
-- What recording an event of a source action does to the state (`recordProcureToPaySourceEvent`
-- without anchoring).
use blockchain_based_e_procu.Prelude.{
  String, Bool, true, false, [], ◌∷◌, ◌++◌, Option, none, some, ◌≡◌, refl, Bool-cases, inl, inr,
}
use blockchain_based_e_procu.Prelude.Text.{trim, ◌=s◌}
use blockchain_based_e_procu.Prelude.After.{After}
use blockchain_based_e_procu.Lifecycle.Event.{EventInput, LifecycleEvent}
use blockchain_based_e_procu.Lifecycle.Integrity.{CanAppend}
use blockchain_based_e_procu.Lifecycle.Source.{
  SourceEventInput, mapped_input, record_event, record_source_event,
}
use blockchain_based_e_procu.World.{World, Platform}
use blockchain_based_e_procu.Lifecycle.Recording.{Ticked, record_event_cases}

-- The event, where there is one, has been appended to the log, which it may; nothing else has
-- changed but the clock and the identifiers.
abbrev pub Appended : World → String → String → Option LifecycleEvent → World → Type 0
Appended w case correlation none v = Ticked w v
Appended w case correlation (some e) v =
    (v ≡ record w { ticks = v.ticks; drawn = v.drawn; events = w.events ++ e ∷ [] })
    × CanAppend w.events e
    × (e.case_id ≡ case)
    × (e.correlation_id ≡ correlation)

module _ (p : Platform) (w : World) where
  pub record_event-Appended :
      (lifecycle : Bool) (i : EventInput)
      → After (Appended w i.case_id i.correlation_id) (Ticked w) (record_event p lifecycle i none w)
  record_event-Appended false i = unfold record_event in refl
  record_event-Appended true i = elim (record_event_cases p i w) [
    | inl (x, v, same, quiet) ↦ rw same quiet.quiet_rest
    | inr (e, v, same, stored) ↦
        rw same (stored.kept_rest, stored.may_append, stored.same_case, stored.same_correlation)
  ]

  pub record_source_event-Appended :
      (lifecycle : Bool) (i : SourceEventInput)
      → After
          (Appended w i.case_id i.correlation_id)
          (Ticked w)
          (record_source_event p lifecycle i none w)
  unfolding record_source_event
  record_source_event-Appended lifecycle i = elim (Bool-cases (trim i.request_id =s "")) [
    | inl blank ↦ rw blank refl
    | inr request ↦ elim (Bool-cases (trim i.actor_user_id =s "")) [
      | inl blank ↦ rw (request, blank) refl
      | inr actor ↦ elim (Bool-cases (trim i.source_id =s "")) [
        | inl blank ↦ rw (request, actor, blank) refl
        | inr source ↦
            rw (request, actor, source)
              (unfold mapped_input in record_event-Appended lifecycle (mapped_input i))
      ]
    ]
  ]
