-- ===== src/Chaincode/Listing.antt =====
-- The listing of a case: its loop ends, and what it finds.
use mathlib.Core.List.{Memᴰ}
use blockchain_based_e_procu.Prelude.{
  ℕ, zero, suc, String, true, false, List, [], ◌∷◌, Option, none, some, ◌≡◌, refl, sym, subst, ◌∙◌,
  ◌<◌, ◌↔◌, ◌⊎◌, arith, Bool-cases, inl, inr,
}
use blockchain_based_e_procu.Prelude.Guard.{pass}
use blockchain_based_e_procu.Chaincode.{Anchor, Stub, Host}
use blockchain_based_e_procu.Chaincode.Contract.{
  anchor_key, comes_before, insert, sort_anchors, sorted, entry, collect, list_anchors_by_case,
}
use blockchain_based_e_procu.Chaincode.Input.{required_text, is_anchor_hash, validate_hash}

-- What an iterator promises: a number of entries that are left, which each entry makes smaller.
pub record Ends {S I B : Type 0} (stub : Stub S I B) : Type 0 where
  pub left : I → ℕ
  pub one_less : (it : I) → (stub.next it).0.done ≡ false → left ((stub.next it).1) < left it

cons-mem : {x a : Anchor} {l : List Anchor} → Memᴰ x (a ∷ l) → (x ≡ a) ⊎ Memᴰ x l
cons-mem (Memᴰ.head same) = inl same
cons-mem (Memᴰ.tail m) = inr m

module _ {S I B : Type 0} (stub : Stub S I B) (host : Host B) where
  -- The iterator gives the bytes, now or later, before it is done.
  pub data Yields : I → B → Type 0 where
    yields_now :
        (it : I) (b : B)
        → (stub.next it).0.done ≡ false
        → (stub.next it).0.value ≡ some b
        → Yields it b
    yields_later :
        (it : I) (b : B) → (stub.next it).0.done ≡ false → Yields ((stub.next it).1) b → Yields it b

  -- The anchor is what the ledger holds for the event that the bytes name.
  abbrev pub Holds : S → B → Anchor → Type 0
  Holds s b a =
      (host.is_empty_buffer (stub.get_state s (anchor_key stub host (host.of_bytes b))) ≡ false)
      × (host.decode (stub.get_state s (anchor_key stub host (host.of_bytes b))) ≡ a)

  abbrev pub Listed : S → I → Anchor → Type 0
  Listed s it a = (b : B) × Yields it b × Holds s b a

  done-Listed : (s : S) (it : I) (a : Anchor) → (stub.next it).0.done ≡ true → ¬ Listed s it a
  done-Listed s it a done (b, Yields.yields_now _ _ more _, h) = cc (sym done ∙ more)
  done-Listed s it a done (b, Yields.yields_later _ _ more _, h) = cc (sym done ∙ more)

  held_now : (s : S) (b c : B) (a : Anchor) → b ≡ c → Holds s c a → Holds s b a
  held_now s b c a same h = subst (λ x. Holds s x a) (sym same) h

  -- What one entry adds to the list.
  entry-mem_iff :
      (s : S) (value : Option B) (rest : List Anchor) (a : Anchor)
      → Memᴰ a (entry stub host s value rest)
        ↔ (((b : B) × (value ≡ some b) × Holds s b a) ⊎ Memᴰ a rest)
  entry-mem_iff s none rest a =
      (λ m. inr m, λ h. elim h [ inl (b, q, _) ↦ absurd (cc q) | inr m ↦ m ])
  entry-mem_iff s (some b) rest a =
      elim (Bool-cases
        (host.is_empty_buffer (stub.get_state s (anchor_key stub host (host.of_bytes b))))) [
          | inl empty ↦
              rw (empty, entry)
                (
                  λ m. inr m,
                  λ h. elim h [
                    | inl (c, q, held) ↦ absurd (cc (sym empty ∙ (held_now s b c a (cc q) held).0))
                    | inr m ↦ m
                  ],
                )
          | inr full ↦
              rw (full, entry)
                (
                  λ m. elim (cons-mem m) [
                    | inl same ↦ inl (b, refl, (full, sym same))
                    | inr old ↦ inr old
                  ],
                  λ h. elim h [
                    | inl (c, q, held) ↦ Memᴰ.head (sym ((held_now s b c a (cc q) held).1))
                    | inr m ↦ Memᴰ.tail m
                  ],
                )
        ]

  step-Listed :
      (s : S) (it : I) (a : Anchor)
      → (stub.next it).0.done ≡ false
      → Listed s it a ↔ (
          ((b : B) × ((stub.next it).0.value ≡ some b) × Holds s b a)
          ⊎ Listed s ((stub.next it).1) a)
  step-Listed s it a more = (
    λ (b, y, h). elim y [
      | Yields.yields_now _ _ _ q ↦ inl (b, q, h)
      | Yields.yields_later _ _ _ z ↦ inr (b, z, h)
    ],
    λ l. elim l [
      | inl (b, q, h) ↦ (b, Yields.yields_now it b more q, h)
      | inr (b, y, h) ↦ (b, Yields.yields_later it b more y, h)
    ],
  )

  -- Inserting an anchor adds it, and nothing else.
  insert-mem_iff :
      (x : Anchor) (l : List Anchor) (a : Anchor)
      → Memᴰ a (insert stub host x l) ↔ ((a ≡ x) ⊎ Memᴰ a l)
  unfolding insert
  insert-mem_iff x [] a = (cons-mem, λ h. elim h [ inl same ↦ Memᴰ.head same | inr m ↦ elim m [ ] ])
  insert-mem_iff x (y ∷ l) a = elim (Bool-cases (comes_before stub host x y)) [
    | inl first ↦
        rw first (cons-mem, λ h. elim h [ inl same ↦ Memᴰ.head same | inr m ↦ Memᴰ.tail m ])
    | inr later ↦ rw later (
      λ m. elim (cons-mem m) [
        | inl same ↦ inr (Memᴰ.head same)
        | inr rest ↦ elim ((insert-mem_iff x l a).0 rest) [
          | inl same ↦ inl same
          | inr old ↦ inr (Memᴰ.tail old)
        ]
      ],
      λ h. elim h [
        | inl same ↦ Memᴰ.tail ((insert-mem_iff x l a).1 (inl same))
        | inr m ↦ elim (cons-mem m) [
          | inl same ↦ Memᴰ.head same
          | inr old ↦ Memᴰ.tail ((insert-mem_iff x l a).1 (inr old))
        ]
      ],
    )
  ]

  sort_anchors-mem_iff :
      (l : List Anchor) (a : Anchor) → Memᴰ a (sort_anchors stub host l) ↔ Memᴰ a l
  unfolding sort_anchors
  sort_anchors-mem_iff [] a = (λ m. m, λ m. m)
  sort_anchors-mem_iff (x ∷ l) a = (
    λ m. elim ((insert-mem_iff x (sort_anchors stub host l) a).0 m) [
      | inl same ↦ Memᴰ.head same
      | inr old ↦ Memᴰ.tail ((sort_anchors-mem_iff l a).0 old)
    ],
    λ m. (insert-mem_iff x (sort_anchors stub host l) a).1 (elim (cons-mem m) [
      | inl same ↦ inl same
      | inr old ↦ inr ((sort_anchors-mem_iff l a).1 old)
    ]),
  )

  module _ (ends : Ends stub) where
    -- With more rounds than there are entries left, the loop ends by its test, with the listed anchors.
    collect-Listed :
        (rounds : ℕ) (s : S) (it : I)
        → ends.left it < rounds
        → (anchors : List Anchor) × (collect stub host rounds s it ≡ some anchors)
          × ((a : Anchor) → Memᴰ a anchors ↔ Listed s it a)
    unfolding collect
    collect-Listed zero s it h = absurd (omega arith)
    collect-Listed (suc rounds) s it h = elim (Bool-cases (stub.next it).0.done) [
      | inl done ↦
          ([], rw done refl, λ a. (λ m. elim m [ ], λ l. absurd (done-Listed s it a done l)))
      | inr more ↦
          let less = ends.one_less it more in
          let (anchors, found, each) = collect-Listed rounds s ((stub.next it).1) (omega arith) in
          (
            entry stub host s (stub.next it).0.value anchors,
            rw (more, found) refl,
            λ a. (
              λ m.
                  (step-Listed s it a more).1
                    (elim ((entry-mem_iff s (stub.next it).0.value anchors a).0 m) [
                      | inl held ↦ inl held
                      | inr old ↦ inr ((each a).0 old)
                    ]),
              λ l.
                  (entry-mem_iff s (stub.next it).0.value anchors a).1
                    (elim ((step-Listed s it a more).0 l) [
                      | inl held ↦ inl held
                      | inr old ↦ inr ((each a).1 old)
                    ]),
            ),
          )
    ]

    -- Where the iterator of a case has fewer entries left than the loop has rounds, the listing of a
    -- case by its hash ends with a list, and that list holds exactly the anchors that are stored
    -- under the events which the iterator gives before it is done.
    pub list_anchors_by_case-Listed :
        (rounds : ℕ) (hash : String) (s : S)
        → required_text hash "caseIdHash" ≡ pass hash
        → is_anchor_hash hash ≡ true
        → ends.left (stub.get_state_by_partial_composite_key s "auditAnchorByCase" (hash ∷ []))
          < rounds
        → (anchors : List Anchor) × (list_anchors_by_case stub host rounds hash s
            ≡ pass (some anchors))
          × ((a : Anchor)
              → Memᴰ a anchors
                ↔ Listed s
                    (stub.get_state_by_partial_composite_key s "auditAnchorByCase" (hash ∷ []))
                    a)
    unfolding list_anchors_by_case validate_hash sorted
    list_anchors_by_case-Listed rounds hash s given formed enough =
        let (anchors, found, each) =
          collect-Listed rounds s
            (stub.get_state_by_partial_composite_key s "auditAnchorByCase" (hash ∷ [])) enough in
        (
          sort_anchors stub host anchors,
          rw (given, formed, found) refl,
          λ a. (
            λ m. (each a).0 ((sort_anchors-mem_iff anchors a).0 m),
            λ l. (sort_anchors-mem_iff anchors a).1 ((each a).1 l),
          ),
        )
