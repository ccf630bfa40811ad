-- ===== src/Consistency/Cases.antt =====
-- How the writes of source-to-award cases keep the state consistent.
pub mod Steps
pub mod Calls
pub mod Award
use blockchain_based_e_procu.Prelude.{
  String, Bool, List, Option, none, some, ◌≡◌, refl, sym, subst, All, All-mem,
}
use blockchain_based_e_procu.Prelude.Store
use blockchain_based_e_procu.Prelude.Effect.{pure, and_then, ◌>>=◌}
use blockchain_based_e_procu.Prelude.After.{After, After-bind}
use blockchain_based_e_procu.Json.{Json}
use blockchain_based_e_procu.Lifecycle.Event.{LifecycleEvent}
use blockchain_based_e_procu.Lifecycle.Source.{SourceAction}
use blockchain_based_e_procu.Procurement.Books.{Latest, IsCase, IsGenerated}
use blockchain_based_e_procu.Procurement.Order.{ProcurementOrder}
use blockchain_based_e_procu.Procurement.SourceCase.{SourceToAwardCase, case_key}
use blockchain_based_e_procu.Procurement.Sourcing.{
  SourceResult, source_ok, source_event_input, case_after, append_source_event,
}
use blockchain_based_e_procu.World.{World, App, Platform, save_case}
use blockchain_based_e_procu.Consistency.{
  IsConsistent, IsBeside, Recorded, record-Recorded, Kept, Kept-bind,
}

pub save_case-Kept :
    (c : SourceToAwardCase) (w : World)
    → IsCase w.events c
    → IsGenerated w.orders c
    → IsConsistent w
    → Kept (save_case c w)
unfolding save_case
save_case-Kept c w kept generated h = record {
  escrows_sound = h.escrows_sound;
  orders_kept = h.orders_kept;
  book_kept = h.book_kept;
  cases_kept = Store.All-put case_key (IsCase w.events) c w.cases kept h.cases_kept;
  generated = Store.All-put case_key (IsGenerated w.orders) c w.cases generated h.generated;
}

module _ (p : Platform) (lifecycle : Bool) (c : SourceToAwardCase) (action : SourceAction)
    (target user request : String) (metadata : Json) (w : World) (h : IsConsistent w)
    (linked : Latest w.events c.case_id c.latest_lifecycle_payload_hash) where
  -- After the event of a case: the case has it, and is linked to it.
  abbrev pub Announced : SourceToAwardCase → World → Type 0
  Announced c' v =
      IsConsistent v
      × ((event : Option LifecycleEvent) × (c' ≡ case_after event c))
      × Latest v.events c.case_id c'.latest_lifecycle_payload_hash
      × IsBeside w v

  pub append-Announced :
      After Announced IsConsistent
        (append_source_event p lifecycle c action target user request metadata w)
  unfolding append_source_event source_event_input case_after
  append-Announced =
      After-bind
        (Recorded p lifecycle (source_event_input c action target user request metadata) w c.case_id
          c.latest_lifecycle_payload_hash)
        Announced IsConsistent _ _
        (record-Recorded p lifecycle _ w c.case_id c.latest_lifecycle_payload_hash refl refl h
          linked)
        (λ event v (kept, named, beside). (kept, (event, refl), named, beside))

after-IsCase :
    (w : World) (c : SourceToAwardCase) (kept : IsCase w.events c) (event : Option LifecycleEvent)
    (c' : SourceToAwardCase) (log : List LifecycleEvent)
    → c' ≡ case_after event c
    → Latest log c.case_id c'.latest_lifecycle_payload_hash
    → IsCase log c'
unfolding case_after
after-IsCase w c kept event c' log same linked = subst (IsCase log) (sym same) (record {
  case_linked =
      subst (λ (d : SourceToAwardCase). Latest log c.case_id d.latest_lifecycle_payload_hash) same
        linked;
  parts = kept.parts;
  one_each = kept.one_each;
  invited = kept.invited;
})

after-IsGenerated :
    (w : World) (c : SourceToAwardCase) (generated : IsGenerated w.orders c)
    (event : Option LifecycleEvent) (c' : SourceToAwardCase) (orders : List ProcurementOrder)
    → c' ≡ case_after event c
    → orders ≡ w.orders
    → IsGenerated orders c'
unfolding case_after
after-IsGenerated w c generated event c' orders same stored =
    subst (IsGenerated orders) (sym same) (subst (λ os. IsGenerated os c) (sym stored) generated)

-- The event of a case that may be stored, and the write of the case with it.
pub append_and_save-Kept :
    (p : Platform) (lifecycle : Bool) (c : SourceToAwardCase) (action : SourceAction)
    (target user request : String) (metadata : Json) (order : Option ProcurementOrder) (w : World)
    → IsConsistent w
    → IsCase w.events c
    → IsGenerated w.orders c
    → Kept (
        and_then
          (append_source_event p lifecycle c action target user request metadata w)
          (λ c'. save_case c' >>= λ saved. pure (source_ok saved order)))
append_and_save-Kept p lifecycle c action target user request metadata order w h kept generated =
    After-bind (Announced p lifecycle c action target user request metadata w h kept.case_linked)
      (λ r v. IsConsistent v) IsConsistent _ _
      (append-Announced p lifecycle c action target user request metadata w h kept.case_linked)
      (λ c' v (k, (event, same), linked, beside).
        Kept-bind (save_case c' v) _
          (save_case-Kept c' v (after-IsCase w c kept event c' v.events same linked)
            (after-IsGenerated w c generated event c' v.orders same (beside.0)) k)
          λ saved u j. j)
