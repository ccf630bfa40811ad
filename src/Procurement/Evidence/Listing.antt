-- ===== src/Procurement/Evidence/Listing.antt =====
-- What the list of the evidence of an order holds (in-memory-delivery-evidence-repository.ts).
use mathlib.Core.List.{Memᴰ}
use blockchain_based_e_procu.Prelude.{
  String, Bool, true, not, List, [], ◌∷◌, ◌≡◌, refl, ◌⊎◌, inl, inr, arith, eq_iff, filter, is_empty,
  Bool-cases, sym, subst, ◌∙◌, ◌↔◌,
}
use blockchain_based_e_procu.Prelude.Text.{◌=s◌}
use blockchain_based_e_procu.Procurement.Evidence.{
  DeliveryEvidenceRecord, insert, sort, list_evidence,
}

filter-first :
    (f : DeliveryEvidenceRecord → Bool) (l : List DeliveryEvidenceRecord)
    → (filter f l ≡ []) ⊎ ((r : DeliveryEvidenceRecord) × Memᴰ r l × (f r ≡ true))
filter-first f [] = inl refl
filter-first f (r ∷ l) = elim (Bool-cases (f r)) [
  | inl found ↦ inr (r, Memᴰ.head refl, found)
  | inr other ↦ elim (filter-first f l) [
    | inl none_left ↦ inl (rw other none_left)
    | inr (s, m, q) ↦ inr (s, Memᴰ.tail m, q)
  ]
]

pub list_evidence-first :
    (le : String → String → Bool) (order_id : String) (l : List DeliveryEvidenceRecord)
    → not (is_empty (list_evidence le order_id l)) ≡ true
    → (r : DeliveryEvidenceRecord) × Memᴰ r l × (r.order_id ≡ order_id)
unfolding list_evidence
list_evidence-first le order_id l h = elim (filter-first (λ r. r.order_id =s order_id) l) [
  | inl nothing ↦ absurd (ground (arith, nothing, sort))
  | inr (r, m, q) ↦ (r, m, (eq_iff r.order_id order_id).0 q)
]

abbrev Record : Type 0
Record = DeliveryEvidenceRecord

cons-mem : {x r : Record} {l : List Record} → Memᴰ x (r ∷ l) → (x ≡ r) ⊎ Memᴰ x l
cons-mem (Memᴰ.head same) = inl same
cons-mem (Memᴰ.tail m) = inr m

-- Inserting a record adds it, and nothing else.
insert-mem_iff :
    (le : String → String → Bool) (r : Record) (l : List Record) (x : Record)
    → Memᴰ x (insert le r l) ↔ ((x ≡ r) ⊎ Memᴰ x l)
unfolding insert
insert-mem_iff le r [] x =
    (cons-mem, λ h. elim h [ inl same ↦ Memᴰ.head same | inr m ↦ elim m [ ] ])
insert-mem_iff le r (s ∷ l) x = elim (Bool-cases (le r.submitted_at s.submitted_at)) [
  | inl first ↦ rw first (cons-mem, λ h. elim h [ inl same ↦ Memᴰ.head same | inr m ↦ Memᴰ.tail m ])
  | inr later ↦ rw later (
    λ m. elim (cons-mem m) [
      | inl same ↦ inr (Memᴰ.head same)
      | inr rest ↦ elim ((insert-mem_iff le r l x).0 rest) [
        | inl same ↦ inl same
        | inr old ↦ inr (Memᴰ.tail old)
      ]
    ],
    λ h. elim h [
      | inl same ↦ Memᴰ.tail ((insert-mem_iff le r l x).1 (inl same))
      | inr m ↦ elim (cons-mem m) [
        | inl same ↦ Memᴰ.head same
        | inr old ↦ Memᴰ.tail ((insert-mem_iff le r l x).1 (inr old))
      ]
    ],
  )
]

sort-mem_iff :
    (le : String → String → Bool) (l : List Record) (x : Record) → Memᴰ x (sort le l) ↔ Memᴰ x l
unfolding sort
sort-mem_iff le [] x = (λ m. m, λ m. m)
sort-mem_iff le (r ∷ l) x = (
  λ m. elim ((insert-mem_iff le r (sort le l) x).0 m) [
    | inl same ↦ Memᴰ.head same
    | inr old ↦ Memᴰ.tail ((sort-mem_iff le l x).0 old)
  ],
  λ m.
      (insert-mem_iff le r (sort le l) x).1
        (elim (cons-mem m) [ inl same ↦ inl same | inr old ↦ inr ((sort-mem_iff le l x).1 old) ]),
)

filter-mem_iff :
    (f : Record → Bool) (l : List Record) (x : Record)
    → Memᴰ x (filter f l) ↔ (Memᴰ x l × (f x ≡ true))
filter-mem_iff f [] x = (λ m. elim m [ ], λ (m, h). elim m [ ])
filter-mem_iff f (r ∷ l) x = elim (Bool-cases (f r)) [
  | inl kept ↦ rw kept (
    λ m. elim (cons-mem m) [
      | inl same ↦ (Memᴰ.head same, subst (λ s. f s ≡ true) (sym same) kept)
      | inr old ↦ let (n, h) = (filter-mem_iff f l x).0 old in (Memᴰ.tail n, h)
    ],
    λ (m, h). elim (cons-mem m) [
      | inl same ↦ Memᴰ.head same
      | inr old ↦ Memᴰ.tail ((filter-mem_iff f l x).1 (old, h))
    ],
  )
  | inr left ↦ rw left (
    λ m. let (n, h) = (filter-mem_iff f l x).0 m in (Memᴰ.tail n, h),
    λ (m, h). elim (cons-mem m) [
      | inl same ↦ absurd (cc (sym (subst (λ s. f s ≡ true) same h) ∙ left))
      | inr old ↦ (filter-mem_iff f l x).1 (old, h)
    ],
  )
]

-- The evidence of an order is that of the stored evidence which names the order.
pub list_evidence-mem_iff :
    (le : String → String → Bool) (order_id : String) (l : List Record) (x : Record)
    → Memᴰ x (list_evidence le order_id l) ↔ (Memᴰ x l × (x.order_id ≡ order_id))
unfolding list_evidence
list_evidence-mem_iff le order_id l x =
    let sorted = sort-mem_iff le (filter (λ (r : Record). r.order_id =s order_id) l) x in
    let filtered = filter-mem_iff (λ (r : Record). r.order_id =s order_id) l x in
    (
      λ m. let (n, h) = filtered.0 (sorted.0 m) in (n, (eq_iff x.order_id order_id).0 h),
      λ (m, h). sorted.1 (filtered.1 (m, (eq_iff x.order_id order_id).1 h)),
    )
