-- ===== src/Consistency/Escrows.antt =====
-- Creating an escrow and its transitions keep the state consistent.
use blockchain_based_e_procu.Prelude.{
  Bool, List, [], ◌∷◌, Option, none, some, refl, ◌∙◌, Bool-cases, inl, inr,
}
use blockchain_based_e_procu.Prelude.Effect.{M, Outcome, and_then}
use blockchain_based_e_procu.Prelude.After.{
  After, After-weaken, After-world, world-After, After-bind,
}
use blockchain_based_e_procu.Errors.{Error, Issue}
use blockchain_based_e_procu.Blockchain.Anchor.{BlockchainAnchorMetadata}
use blockchain_based_e_procu.Blockchain.Anchoring.{AnchorDependencies}
use blockchain_based_e_procu.Lifecycle.Event.{EventInput, LifecycleEvent}
use blockchain_based_e_procu.Lifecycle.Recording.{Ticked}
use blockchain_based_e_procu.Lifecycle.Recording.Appending.{Appended, record_event-Appended}
use blockchain_based_e_procu.Lifecycle.Source.{record_event}
use blockchain_based_e_procu.Escrow.Repository.{create, update}
use blockchain_based_e_procu.Escrow.Create.{created, create_issues, normalize, refusal}
use blockchain_based_e_procu.Escrow.Create.Write.{
  new_escrow, updated_escrow, finish, announce, create_unless, create_valid,
}
use blockchain_based_e_procu.Escrow.Decision.{transitioned}
use blockchain_based_e_procu.Escrow.Transition.{next_escrow}
use blockchain_based_e_procu.Prelude.{◌+◌, get_or, Bool-cases, inl, inr, Bool}
use blockchain_based_e_procu.Prelude.Text.{is_blank, includes}
use blockchain_based_e_procu.Prelude.Effect.{pure}
use blockchain_based_e_procu.Escrow.Create.{CreateEscrowInput, CreateEscrowResult, NormalizedInput}
use blockchain_based_e_procu.Escrow.Create.Write.{commit_create, create_escrow}
use blockchain_based_e_procu.Escrow.Create.Write.Soundness.{create_escrow-IsSound}
use blockchain_based_e_procu.Escrow.Decision.{Decision, stop, go, decide}
use blockchain_based_e_procu.Escrow.Invariant.{IsSound, transition_escrow-IsSound}
use blockchain_based_e_procu.Escrow.Record.{EscrowRecord}
use blockchain_based_e_procu.Escrow.Rules.{EscrowDependencies, TransitionInput}
use blockchain_based_e_procu.Escrow.Transition.{
  anchor_recorded, commit, carry_out, transition_escrow,
}
use blockchain_based_e_procu.Escrow.Transition.Effects.{anchor_recorded-SameOutside}
use blockchain_based_e_procu.Procurement.Books.{orders-grow, invoices-grow, cases-grow}
use blockchain_based_e_procu.World.{World, App, Platform, read_clock, draw_id, on_escrows}
use blockchain_based_e_procu.Consistency.{IsConsistent, IsBeside, Grows-trans, Appended-IsBeside}

IsBeside-refl : (w : World) → IsBeside w w
IsBeside-refl w = (refl, refl, refl, λ c l h. h)

IsBeside-trans : (u v w : World) → IsBeside u v → IsBeside v w → IsBeside u w
IsBeside-trans u v w (o, i, c, g) (o', i', c', g') =
    (o' ∙ o, i' ∙ i, c' ∙ c, Grows-trans u v w g g')

-- What a call leaves alone, however it ends.
abbrev Beside : {A : Type 0} → World → Outcome Error A × World → Type 0
Beside w = After (λ r v. IsBeside w v) (IsBeside w)

Beside-bind :
    {A B : Type 0} (w : World) (q : Outcome Error A × World) (f : A → App B)
    → Beside w q
    → ((a : A) (v : World) → IsBeside w v → Beside w (f a v))
    → Beside w (and_then q f)
Beside-bind w q f h k = After-bind (λ r v. IsBeside w v) (λ r v. IsBeside w v) (IsBeside w) q f h k

-- A call after others.
later :
    {A : Type 0} (u w : World) (q : Outcome Error A × World)
    → IsBeside u w
    → IsBeside w q.1
    → Beside u q
later u w q h k = world-After (IsBeside u) q (IsBeside-trans u w q.1 h k)

record_event-IsBeside :
    (p : Platform) (lifecycle : Bool) (i : EventInput) (w : World)
    → IsBeside w (record_event p lifecycle i none w).1
record_event-IsBeside p lifecycle i w =
    After-world (IsBeside w) (record_event p lifecycle i none w) (
      After-weaken (Appended w i.case_id i.correlation_id) (λ r v. IsBeside w v) (Ticked w)
        (IsBeside w) _ (record_event-Appended p w lifecycle i)
        (λ event v a. Appended-IsBeside w v i.case_id i.correlation_id event a)
        (λ v same. Appended-IsBeside w v i.case_id i.correlation_id none same))

anchor_recorded-IsBeside :
    (p : Platform) (d : AnchorDependencies) (event : Option LifecycleEvent) (w : World)
    → IsBeside w (anchor_recorded p d event w).1
anchor_recorded-IsBeside p d event w =
    let same = anchor_recorded-SameOutside p d event w in
    (same.same_orders, same.same_invoices, same.same_cases, λ c l h. rw same.same_events h)

module _ (p : Platform) (d : EscrowDependencies) (w : World) where
  -- The event, the anchoring and the calls of the repository of escrows, one after the other.
  recorded :
      {B : Type 0} (i : EventInput) (v : World) (f : Option LifecycleEvent → App B)
      → IsBeside w v
      → ((event : Option LifecycleEvent) (u : World) → IsBeside w u → Beside w (f event u))
      → Beside w (and_then (record_event p d.lifecycle i none v) f)
  recorded i v f h k =
      Beside-bind w (record_event p d.lifecycle i none v) f
        (later w v _ h (record_event-IsBeside p d.lifecycle i v)) k

  anchored :
      {B : Type 0} (event : Option LifecycleEvent) (v : World)
      (f : Option BlockchainAnchorMetadata → App B)
      → IsBeside w v
      → ((m : Option BlockchainAnchorMetadata) (u : World) → IsBeside w u → Beside w (f m u))
      → Beside w (and_then (anchor_recorded p d.anchoring event v) f)
  anchored event v f h k =
      Beside-bind w (anchor_recorded p d.anchoring event v) f
        (later w v _ h (anchor_recorded-IsBeside p d.anchoring event v)) k

  kept :
      {A B : Type 0} (m : M (List EscrowRecord) Error A) (v : World) (f : A → App B)
      → IsBeside w v
      → ((a : A) (u : World) → IsBeside w u → Beside w (f a u))
      → Beside w (and_then (on_escrows m v) f)
  kept m v f h k =
      Beside-bind w (on_escrows m v) f (later w v (on_escrows m v) h (IsBeside-refl v)) k

  carry_out-Beside :
      (i : TransitionInput) (decision : Decision) → Beside w (carry_out p d i decision w)
  unfolding carry_out commit read_clock
  carry_out-Beside i (stop result) = IsBeside-refl w
  carry_out-Beside i (go e spec reason c) = recorded _ _ _ (IsBeside-refl w) λ event v h.
      anchored event v _ h λ metadata u k.
        kept (update (next_escrow e spec reason c (p.clock w.ticks) event metadata)) u
          (λ updated. pure (transitioned updated c)) k λ updated t j. j

  transition_escrow-Beside : (i : TransitionInput) → Beside w (transition_escrow p d i w)
  unfolding transition_escrow
  transition_escrow-Beside i = carry_out-Beside i (decide p d i w)

  finish-Beside :
      (e : EscrowRecord) (event : Option LifecycleEvent) (v : World)
      → IsBeside w v
      → Beside w (finish p d e event v)
  unfolding finish read_clock
  finish-Beside e event v h = anchored event v _ h λ metadata u k.
      kept (update (updated_escrow e (p.clock u.ticks) event metadata))
        (record u { ticks = u.ticks + 1 }) (λ updated. pure (created updated)) k λ updated t j. j

  commit_create-Beside : (n : NormalizedInput) → Beside w (commit_create p d n w)
  unfolding commit_create announce read_clock draw_id
  commit_create-Beside n =
      kept (create (new_escrow n (p.clock w.ticks) (p.uuid w.drawn)))
        (record w { ticks = w.ticks + 1; drawn = w.drawn + 1 }) (announce p d n) (IsBeside-refl w)
        λ e v h. recorded _ v _ h λ event u k. finish-Beside e event u k

  create_unless-Beside :
      (n : NormalizedInput) (r : Option CreateEscrowResult) → Beside w (create_unless p d n r w)
  unfolding create_unless
  create_unless-Beside n none = commit_create-Beside n
  create_unless-Beside n (some r) = IsBeside-refl w

  create_valid-Beside :
      (i : CreateEscrowInput) (issues : List Issue) → Beside w (create_valid p d i issues w)
  unfolding create_valid
  create_valid-Beside i [] = create_unless-Beside (normalize i) (refusal d (normalize i) w)
  create_valid-Beside i (x ∷ issues) = IsBeside-refl w

  create_escrow-Beside : (i : CreateEscrowInput) → Beside w (create_escrow p d i w)
  unfolding create_escrow
  create_escrow-Beside i = elim (Bool-cases (is_blank i.actor_user_id)) [
    | inl blank ↦ rw blank (IsBeside-refl w)
    | inr known ↦ elim (Bool-cases (includes (get_or i.actor_role_codes []) "buyer")) [
      | inl buyer ↦ rw (known, buyer) (create_valid-Beside i (create_issues i))
      | inr other ↦ rw (known, other) (IsBeside-refl w)
    ]
  ]

-- What the escrows, the log and the other records need for a consistent state.
IsBeside-IsConsistent :
    (w v : World) → IsBeside w v → IsConsistent w → IsSound v.events v.escrows → IsConsistent v
IsBeside-IsConsistent w v (orders, invoices, cases, grows) h sound = record {
  escrows_sound = sound;
  orders_kept = rw orders (orders-grow w.events v.events grows w.orders h.orders_kept);
  book_kept = rw invoices (invoices-grow w.events v.events grows w.invoices h.book_kept);
  cases_kept = rw cases (cases-grow w.events v.events grows w.cases h.cases_kept);
  generated = rw (orders, cases) h.generated;
}

module _ (p : Platform) (d : EscrowDependencies) (w : World) (h : IsConsistent w) where
  -- A transition of an escrow keeps the whole state consistent.
  pub transition_escrow-IsConsistent :
      (i : TransitionInput) → IsConsistent (transition_escrow p d i w).1
  transition_escrow-IsConsistent i =
      IsBeside-IsConsistent w _ (After-world (IsBeside w) _ (transition_escrow-Beside p d w i)) h
        (transition_escrow-IsSound p d i w h.escrows_sound)

  -- The creation of an escrow keeps the whole state consistent.
  pub create_escrow-IsConsistent : (i : CreateEscrowInput) → IsConsistent (create_escrow p d i w).1
  create_escrow-IsConsistent i =
      IsBeside-IsConsistent w _ (After-world (IsBeside w) _ (create_escrow-Beside p d w i)) h
        (create_escrow-IsSound p d i w h.escrows_sound)
