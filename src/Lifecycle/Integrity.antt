-- ===== src/Lifecycle/Integrity.antt =====
-- The log of lifecycle events: what holds of it after any number of writes, and when a write is
-- accepted (`InMemoryProcureToPayLifecycleEventRepository.save`).
use mathlib.Core.List.{Memᴰ, append-nil, append_assoc}
use blockchain_based_e_procu.Prelude.{
  String, List, [], ◌∷◌, ◌++◌, some, ◌≡◌, refl, sym, ◌∙◌, ◌≢◌, ◌⊎◌, inl, inr, ◌&&◌, ◌↔◌, false,
  arith, eq_iff, any, find, find-eq-none, find-mem, All, All-mem, Pairwise, Pairwise-append_one,
  All-map, any-eq-false, Bool-cases, Option-cases,
}
use blockchain_based_e_procu.Prelude.Text.{◌=s◌}
use blockchain_based_e_procu.Prelude.Effect.{ok, thrown}
use blockchain_based_e_procu.Errors.{
  Error, lifecycle_persistence, duplicate_event_id, duplicate_payload_hash,
  previous_event_hash_not_found, previous_event_hash_correlation_mismatch,
}
use blockchain_based_e_procu.Lifecycle.Event.{LifecycleEvent}
use blockchain_based_e_procu.Lifecycle.Log.{save}

-- An event of `before` has the hash that `e` names as its previous one, and belongs to the same
-- case and correlation.
abbrev pub Points : List LifecycleEvent → LifecycleEvent → Type 0
Points before e =
    (hash : String)
    → e.previous_event_hash ≡ some hash
    → (f : LifecycleEvent) × Memᴰ f before
      × (f.payload_hash ≡ hash)
      × (f.case_id ≡ e.case_id)
      × (f.correlation_id ≡ e.correlation_id)

abbrev pub LinkedFrom : List LifecycleEvent → List LifecycleEvent → Type 0
LinkedFrom before [] = Unit
LinkedFrom before (e ∷ log) = Points before e × LinkedFrom (before ++ e ∷ []) log

-- Identifiers and payload hashes are unique, and each previous hash is that of an earlier event of
-- the same case and correlation.
pub record IsIntact (log : List LifecycleEvent) : Type 0 where
  pub unique_ids : Pairwise (λ e f. e.event_id ≢ f.event_id) log
  pub unique_hashes : Pairwise (λ e f. e.payload_hash ≢ f.payload_hash) log
  pub linked : LinkedFrom [] log

-- What a write needs, as a statement about the log and the event.
pub record CanAppend (log : List LifecycleEvent) (e : LifecycleEvent) : Type 0 where
  pub fresh_id : All (λ f. f.event_id ≢ e.event_id) log
  pub fresh_hash : All (λ f. f.payload_hash ≢ e.payload_hash) log
  pub points : Points log e

any-absent :
    (f : LifecycleEvent → String) (s : String) (log : List LifecycleEvent)
    → any (λ e. f e =s s) log ≡ false
    → All (λ e. f e ≢ s) log
any-absent f s log h =
    All-map (λ e. (f e =s s) ≡ false) (λ e. f e ≢ s) (λ e n q. ground (arith, eq_iff (f e) s)) log
      (any-eq-false (λ e. f e =s s) log h)

absent-any :
    (f : LifecycleEvent → String) (s : String) (log : List LifecycleEvent)
    → All (λ e. f e ≢ s) log
    → any (λ e. f e =s s) log ≡ false
absent-any f s [] h = refl
absent-any f s (e ∷ log) (n, h) = ground (arith, eq_iff (f e) s, absent-any f s log h)

LinkedFrom-append_one :
    (before log : List LifecycleEvent) (e : LifecycleEvent)
    → LinkedFrom before log
    → Points (before ++ log) e
    → LinkedFrom before (log ++ e ∷ [])
LinkedFrom-append_one before [] e h p = (rw append-nil at p, tt)
LinkedFrom-append_one before (f ∷ log) e (q, h) p =
    let moved : Points ((before ++ f ∷ []) ++ log) e = rw append_assoc p in
    (q, LinkedFrom-append_one (before ++ f ∷ []) log e h moved)

-- Of the events with one hash there is one.
same_of_hash :
    (log : List LifecycleEvent) {f g : LifecycleEvent}
    → Pairwise (λ e e'. e.payload_hash ≢ e'.payload_hash) log
    → Memᴰ f log
    → Memᴰ g log
    → f.payload_hash ≡ g.payload_hash
    → f ≡ g
same_of_hash [] u m k h = elim m [ ]
same_of_hash (e ∷ log) (n, u) (Memᴰ.head p) (Memᴰ.head q) h = p ∙ sym q
same_of_hash (e ∷ log) {f} {g} (n, u) (Memᴰ.head p) (Memᴰ.tail m) h =
    absurd (All-mem (λ e'. e.payload_hash ≢ e'.payload_hash) log n m (rw (← p) h))
same_of_hash (e ∷ log) {f} {g} (n, u) (Memᴰ.tail m) (Memᴰ.head q) h =
    absurd (All-mem (λ e'. e.payload_hash ≢ e'.payload_hash) log n m (rw (← q) (sym h)))
same_of_hash (e ∷ log) (n, u) (Memᴰ.tail m) (Memᴰ.tail k) h = same_of_hash log u m k h

-- The part of `save` after the two tests for duplicates.
module _ (log : List LifecycleEvent) (e : LifecycleEvent) where
  abbrev Appended : Type 0
  Appended = save e log ≡ (ok e, log ++ e ∷ [])

  abbrev Refused : Type 0
  Refused = (x : Error) × (save e log ≡ (thrown x, log))

  save_linked :
      any (λ f. f.event_id =s e.event_id) log ≡ false
      → any (λ f. f.payload_hash =s e.payload_hash) log ≡ false
      → (Appended × Points log e) ⊎ Refused
  unfolding save
  save_linked no_id no_hash = elim (Option-cases e.previous_event_hash) [
    | inl first ↦ inl (ground arith, λ hash q. absurd (ground arith))
    | inr (hash, named) ↦ elim (Option-cases (find (λ f. f.payload_hash =s hash) log)) [
      | inl missing ↦ inr (lifecycle_persistence previous_event_hash_not_found, ground arith)
      | inr (f, found) ↦
          let (m, h) = find-mem (λ f. f.payload_hash =s hash) log f found in
          elim (Bool-cases (f.case_id =s e.case_id && f.correlation_id =s e.correlation_id)) [
            | inl same ↦ inl (
              ground arith,
              λ other q. (
                f,
                m,
                ground (arith, eq_iff f.payload_hash hash),
                ground (arith, eq_iff f.case_id e.case_id),
                ground (arith, eq_iff f.correlation_id e.correlation_id),
              ),
            )
            | inr differ ↦
                inr (lifecycle_persistence previous_event_hash_correlation_mismatch, ground arith)
          ]
    ]
  ]

  -- A write either appends the event, which it may, or throws and leaves the log alone.
  pub save_cases : (Appended × CanAppend log e) ⊎ Refused
  unfolding save
  save_cases = elim (Bool-cases (any (λ f. f.event_id =s e.event_id) log)) [
    | inl id ↦ inr (lifecycle_persistence duplicate_event_id, ground arith)
    | inr no_id ↦ elim (Bool-cases (any (λ f. f.payload_hash =s e.payload_hash) log)) [
      | inl hash ↦ inr (lifecycle_persistence duplicate_payload_hash, ground arith)
      | inr no_hash ↦ elim (save_linked no_id no_hash) [
        | inl (done, points) ↦ inl (
          done,
          record {
            fresh_id = any-absent (λ f. f.event_id) e.event_id log no_id;
            fresh_hash = any-absent (λ f. f.payload_hash) e.payload_hash log no_hash;
            points = points;
          },
        )
        | inr r ↦ inr r
      ]
    ]
  ]

  save_of_CanAppend : IsIntact log → CanAppend log e → Appended
  unfolding save
  save_of_CanAppend intact can = elim (Option-cases e.previous_event_hash) [
    | inl first ↦ ground (arith, no_id, no_hash)
    | inr (hash, named) ↦
        let (f, m, h, same_case, same_correlation) = can.points hash named in
        elim (Option-cases (find (λ f. f.payload_hash =s hash) log)) [
          | inl missing ↦
              let not_f : (f.payload_hash =s hash) ≡ false =
                All-mem (λ f. (f.payload_hash =s hash) ≡ false) log
                  (find-eq-none (λ f. f.payload_hash =s hash) log missing) m in
              absurd (ground (arith, not_f, eq_iff f.payload_hash hash))
          | inr (g, found) ↦
              let (k, q) = find-mem (λ f. f.payload_hash =s hash) log g found in
              let one : f ≡ g =
                same_of_hash log intact.unique_hashes m k
                  (h ∙ sym ((eq_iff g.payload_hash hash).0 q)) in
              ground (
                arith,
                no_id,
                no_hash,
                one,
                eq_iff g.case_id e.case_id,
                eq_iff g.correlation_id e.correlation_id,
              )
        ]
  ]
    where
      no_id : any (λ f. f.event_id =s e.event_id) log ≡ false
      no_id = absent-any (λ f. f.event_id) e.event_id log can.fresh_id

      no_hash : any (λ f. f.payload_hash =s e.payload_hash) log ≡ false
      no_hash = absent-any (λ f. f.payload_hash) e.payload_hash log can.fresh_hash

-- In an intact log an event is written exactly when its identifier and its hash are new and the
-- hash that it names as its previous one is that of a stored event of its case and correlation.
pub save_iff :
    (log : List LifecycleEvent) (e : LifecycleEvent)
    → IsIntact log
    → (save e log ≡ (ok e, log ++ e ∷ [])) ↔ CanAppend log e
save_iff log e intact = (to, save_of_CanAppend log e intact)
  where
    to : save e log ≡ (ok e, log ++ e ∷ []) → CanAppend log e
    to h = elim (save_cases log e) [ inl (_, can) ↦ can | inr (x, r) ↦ absurd (cc (sym h ∙ r)) ]

pub append-IsIntact :
    (log : List LifecycleEvent) (e : LifecycleEvent)
    → IsIntact log
    → CanAppend log e
    → IsIntact (log ++ e ∷ [])
append-IsIntact log e intact can = record {
  unique_ids =
      Pairwise-append_one (λ e f. e.event_id ≢ f.event_id) log e intact.unique_ids can.fresh_id;
  unique_hashes =
      Pairwise-append_one (λ e f. e.payload_hash ≢ f.payload_hash) log e intact.unique_hashes
        can.fresh_hash;
  linked = LinkedFrom-append_one [] log e intact.linked can.points;
}

-- A write keeps the log intact, whether it is accepted or refused.
pub save-IsIntact :
    (log : List LifecycleEvent) (e : LifecycleEvent) → IsIntact log → IsIntact (save e log).1
save-IsIntact log e intact = elim (save_cases log e) [
  | inl (done, can) ↦ rw done (append-IsIntact log e intact can)
  | inr (x, r) ↦ rw r intact
]
