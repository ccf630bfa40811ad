-- ===== src/Consistency.antt =====
-- The invariant of the records and the log of lifecycle events, and how the single writes keep it.
pub mod Orders
pub mod Deliveries
pub mod Invoices
pub mod Cases
pub mod Escrows
pub mod Closings
use mathlib.Core.List.{Memᴰ}
use blockchain_based_e_procu.Prelude.{
  String, Bool, List, [], ◌∷◌, ◌++◌, Option, none, some, ◌≡◌, refl, ap, sym, subst, All, All-map, ℕ,
}
use blockchain_based_e_procu.Prelude.Store
use blockchain_based_e_procu.Prelude.Effect.{Outcome, and_then}
use blockchain_based_e_procu.Prelude.Guard.{Guard, pass, decide}
use blockchain_based_e_procu.Prelude.After.{After, After-bind, After-weaken, decide-After}
use blockchain_based_e_procu.Errors.{Error}
use blockchain_based_e_procu.Lifecycle.Source.{SourceEventInput, record_source_event}
use blockchain_based_e_procu.Lifecycle.Event.{LifecycleEvent}
use blockchain_based_e_procu.Lifecycle.Integrity.{CanAppend}
use blockchain_based_e_procu.Lifecycle.Recording.{Ticked}
use blockchain_based_e_procu.Lifecycle.Recording.Appending.{Appended, record_source_event-Appended}
use blockchain_based_e_procu.Procurement.Order.{ProcurementOrder, order_key}
use blockchain_based_e_procu.Procurement.Invoice.{ProcurementInvoice, invoice_key}
use blockchain_based_e_procu.Procurement.SourceCase.{SourceToAwardCase, case_key}
use blockchain_based_e_procu.Procurement.Ordering.Create.Write.{hash_after}
use blockchain_based_e_procu.Procurement.Books.{
  Latest-append, Latest, IsOrder, IsInvoiceBook, IsCase, IsGenerated, orders-grow, invoices-grow,
  cases-grow,
}
use blockchain_based_e_procu.Escrow.Invariant.{IsSound, Memᴰ-append, Memᴰ-last}
use blockchain_based_e_procu.Escrow.Upkeep.{append-IsSound}
use blockchain_based_e_procu.World.{World, App, Platform}

pub record IsConsistent (w : World) : Type 0 where
  pub escrows_sound : IsSound w.events w.escrows
  pub orders_kept : All (IsOrder w.events) w.orders
  pub book_kept : IsInvoiceBook w.events w.invoices
  pub cases_kept : All (IsCase w.events) w.cases
  pub generated : All (IsGenerated w.orders) w.cases

pub Ticked-IsConsistent : (w v : World) → Ticked w v → IsConsistent w → IsConsistent v
Ticked-IsConsistent w v same h = subst IsConsistent (sym same) (record {
  escrows_sound = h.escrows_sound;
  orders_kept = h.orders_kept;
  book_kept = h.book_kept;
  cases_kept = h.cases_kept;
  generated = h.generated;
})

append-IsConsistent :
    (w : World) (t d : ℕ) (e : LifecycleEvent)
    → CanAppend w.events e
    → IsConsistent w
    → IsConsistent (record w { ticks = t; drawn = d; events = w.events ++ e ∷ [] })
append-IsConsistent w t d e can h = record {
  escrows_sound = append-IsSound w.events w.escrows e h.escrows_sound can;
  orders_kept = orders-grow w.events _ (Latest-append w.events (e ∷ [])) w.orders h.orders_kept;
  book_kept = invoices-grow w.events _ (Latest-append w.events (e ∷ [])) w.invoices h.book_kept;
  cases_kept = cases-grow w.events _ (Latest-append w.events (e ∷ [])) w.cases h.cases_kept;
  generated = h.generated;
}

-- Recording an event keeps the state consistent, and links the record to the event.
pub Appended-IsConsistent :
    (w v : World) (case correlation : String) (event : Option LifecycleEvent)
    → Appended w case correlation event v
    → IsConsistent w
    → IsConsistent v
Appended-IsConsistent w v case correlation none same h = Ticked-IsConsistent w v same h
Appended-IsConsistent w v case correlation (some e) (same, can, c, r) h =
    subst IsConsistent (sym same) (append-IsConsistent w v.ticks v.drawn e can h)

pub Appended-Latest :
    (w v : World) (case : String) (event : Option LifecycleEvent) (latest : Option String)
    → Appended w case case event v
    → Latest w.events case latest
    → Latest v.events case (hash_after event latest)
unfolding hash_after
Appended-Latest w v case none latest same h hash named =
    subst (λ (u : World). Latest u.events case latest) (sym same) h hash named
Appended-Latest w v case (some e) latest (same, can, c, r) h hash named =
    (e, subst (λ (u : World). Memᴰ e u.events) (sym same) (Memᴰ-last e w.events), cc named, c, r)

pub Latest-none : (log : List LifecycleEvent) (case : String) → Latest log case none
Latest-none log case hash named = absurd (cc named)

-- The log has grown only: what was linked to it still is.
abbrev pub Grows : World → World → Type 0
Grows w v =
    (case : String) (latest : Option String)
    → Latest w.events case latest
    → Latest v.events case latest

pub Grows-trans : (u v w : World) → Grows u v → Grows v w → Grows u w
Grows-trans u v w f g case latest h = g case latest (f case latest h)

-- Recording an event writes no order, invoice or case, and the log grows only.
abbrev pub IsBeside : World → World → Type 0
IsBeside w v = (v.orders ≡ w.orders) × (v.invoices ≡ w.invoices) × (v.cases ≡ w.cases) × Grows w v

Appended-IsBeside :
    (w v : World) (case correlation : String) (event : Option LifecycleEvent)
    → Appended w case correlation event v
    → IsBeside w v
Appended-IsBeside w v case correlation none same = (
  ap (λ (u : World). u.orders) same,
  ap (λ (u : World). u.invoices) same,
  ap (λ (u : World). u.cases) same,
  λ c l h. subst (λ (u : World). Latest u.events c l) (sym same) h,
)
Appended-IsBeside w v case correlation (some e) (same, can, c, r) = (
  ap (λ (u : World). u.orders) same,
  ap (λ (u : World). u.invoices) same,
  ap (λ (u : World). u.cases) same,
  λ c l h.
      subst (λ (u : World). Latest u.events c l) (sym same) (Latest-append w.events (e ∷ []) c l h),
)

-- After an event of a record has been recorded: the state is consistent, and so is the record with
-- the event's hash.
module _ (p : Platform) (lifecycle : Bool) (i : SourceEventInput) (w : World) (case : String) where
  abbrev pub Recorded : Option String → Option LifecycleEvent → World → Type 0
  Recorded latest event v =
      IsConsistent v × Latest v.events case (hash_after event latest) × IsBeside w v

  pub record-Recorded :
      (latest : Option String)
      → i.case_id ≡ case
      → i.correlation_id ≡ case
      → IsConsistent w
      → Latest w.events case latest
      → After (Recorded latest) IsConsistent (record_source_event p lifecycle i none w)
  record-Recorded latest same_case same_correlation h linked =
      After-weaken (Appended w i.case_id i.correlation_id) (Recorded latest) (Ticked w) IsConsistent
        (record_source_event p lifecycle i none w) (record_source_event-Appended p w lifecycle i)
        (λ event v a. (
          Appended-IsConsistent w v i.case_id i.correlation_id event a h,
          Appended-Latest w v case event latest
              (subst (λ c. Appended w case c event v) same_correlation
                (subst (λ c. Appended w c i.correlation_id event v) same_case a))
              linked,
          Appended-IsBeside w v i.case_id i.correlation_id event a,
        ))
        (λ v q. Ticked-IsConsistent w v q h)

-- What a call leaves behind, however it ends.
abbrev pub Kept : {A : Type 0} → Outcome Error A × World → Type 0
Kept = After (λ r v. IsConsistent v) IsConsistent

pub Kept-bind :
    {A B : Type 0} (q : Outcome Error A × World) (f : A → App B)
    → Kept q
    → ((a : A) (w : World) → IsConsistent w → Kept (f a w))
    → Kept (and_then q f)
Kept-bind q f h k = After-bind (λ r v. IsConsistent v) (λ r v. IsConsistent v) IsConsistent q f h k

-- The tests of an operation write nothing.
pub Kept-decide :
    {R A : Type 0} (g : Guard R A) (f : A → App R) (w : World)
    → IsConsistent w
    → ((a : A) → g ≡ pass a → Kept (f a w))
    → Kept (decide g f w)
Kept-decide g f w h k = decide-After (λ r v. IsConsistent v) IsConsistent g f w (λ r same. h) k

-- The record of an event and the calls after it.
pub Kept-record :
    {B : Type 0} (p : Platform) (lifecycle : Bool) (i : SourceEventInput) (w : World)
    (case : String) (latest : Option String) (f : Option LifecycleEvent → App B)
    → i.case_id ≡ case
    → i.correlation_id ≡ case
    → IsConsistent w
    → Latest w.events case latest
    → ((event : Option LifecycleEvent) (v : World)
        → IsConsistent v
        → Latest v.events case (hash_after event latest)
        → IsBeside w v
        → Kept (f event v))
    → Kept (and_then (record_source_event p lifecycle i none w) f)
Kept-record p lifecycle i w case latest f c r h linked k =
    After-bind (Recorded p lifecycle i w case latest) (λ r v. IsConsistent v) IsConsistent _ f
      (record-Recorded p lifecycle i w case latest c r h linked)
      (λ event v (kept, l, b). k event v kept l b)
