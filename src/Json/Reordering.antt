-- ===== src/Json/Reordering.antt =====
-- Canonical JSON forgets the order of the fields of an object and its undefined fields.
use blockchain_based_e_procu.Json.{
  Json, undefined, null, arr, obj, Items, nil, cons, Fields, end, field, units, insert, sort,
  join_entries, canonicalize, canonical_items, entries,
}
use blockchain_based_e_procu.Json.Sorting.{insert_comm}
use blockchain_based_e_procu.Prelude.{String, ◌≡◌, refl, ◌∙◌, ◌≢◌, ap, ap₂}
use blockchain_based_e_procu.Prelude.Text.{◌<>◌}

mutual
  -- Two values that differ only in the order of fields under different keys, and in fields that
  -- are undefined.
  pub data Alike : Json → Json → Type 0 where
    same : {v : Json} → Alike v v
    arrays : {xs ys : Items} → AlikeItems xs ys → Alike (arr xs) (arr ys)
    objects : {fs gs : Fields} → Reordered fs gs → Alike (obj fs) (obj gs)

  pub data AlikeItems : Items → Items → Type 0 where
    no_items : AlikeItems nil nil
    item :
        {x y : Json} {xs ys : Items}
        → Alike x y
        → AlikeItems xs ys
        → AlikeItems (cons x xs) (cons y ys)

  pub data Reordered : Fields → Fields → Type 0 where
    no_fields : Reordered end end
    keep :
        {k : String} {v w : Json} {fs gs : Fields}
        → Alike v w
        → Reordered fs gs
        → Reordered (field k v fs) (field k w gs)
    swap :
        {k j : String} {v w : Json} {fs : Fields}
        → units k ≢ units j
        → Reordered (field k v (field j w fs)) (field j w (field k v fs))
    drop : {k : String} {fs : Fields} → Reordered (field k undefined fs) fs
    chain : {fs gs hs : Fields} → Reordered fs gs → Reordered gs hs → Reordered fs hs

-- The entries after one more field, sorted.
sorted_field-cong :
    (k : String) (v : Json) (fs gs : Fields)
    → sort (entries fs) ≡ sort (entries gs)
    → sort (entries (field k v fs)) ≡ sort (entries (field k v gs))
unfolding canonicalize
sorted_field-cong k undefined fs gs h = h
sorted_field-cong k null fs gs h = ap (insert (k, canonicalize null)) h
sorted_field-cong k v fs gs h = ap (insert (k, canonicalize v)) h

sorted_field-swap :
    (k j : String) (v w : Json) (fs : Fields)
    → units k ≢ units j
    → sort (entries (field k v (field j w fs))) ≡ sort (entries (field j w (field k v fs)))
unfolding canonicalize
sorted_field-swap k j undefined undefined fs n = refl
sorted_field-swap k j undefined w fs n = refl
sorted_field-swap k j v undefined fs n = refl
sorted_field-swap k j v w fs n =
    insert_comm (k, canonicalize v) (j, canonicalize w) (sort (entries fs)) n

mutual
  unfolding canonicalize

  canonical_cong : {v w : Json} → Alike v w → canonicalize v ≡ canonicalize w
  canonical_cong same = refl
  canonical_cong (arrays h) = ap (λ s. "[" <> s <> "]") (canonical_items_cong h)
  canonical_cong (objects r) = ap (λ s. "{" <> join_entries s <> "}") (sorted_reordered r)

  canonical_items_cong :
      {xs ys : Items} → AlikeItems xs ys → canonical_items xs ≡ canonical_items ys
  canonical_items_cong no_items = refl
  canonical_items_cong (item h no_items) = canonical_cong h
  canonical_items_cong (item h (item k r)) =
      ap₂ (λ s t. s <> "," <> t) (canonical_cong h) (canonical_items_cong (item k r))

  sorted_reordered : {fs gs : Fields} → Reordered fs gs → sort (entries fs) ≡ sort (entries gs)
  sorted_reordered no_fields = refl
  sorted_reordered (keep {k} {v} {fs} {gs} same r) =
      sorted_field-cong k v fs gs (sorted_reordered r)
  sorted_reordered (keep {k} (arrays h) r) =
      ap₂ (λ t. insert (k, t)) (ap (λ s. "[" <> s <> "]") (canonical_items_cong h))
        (sorted_reordered r)
  sorted_reordered (keep {k} (objects h) r) =
      ap₂ (λ t. insert (k, t)) (ap (λ s. "{" <> join_entries s <> "}") (sorted_reordered h))
        (sorted_reordered r)
  sorted_reordered (swap {k} {j} {v} {w} {fs} n) = sorted_field-swap k j v w fs n
  sorted_reordered drop = refl
  sorted_reordered (chain r s) = sorted_reordered r ∙ sorted_reordered s

-- Two values that differ only in the order of fields under different keys, at any depth, and in
-- undefined fields have the same canonical text.
pub canonicalize-Alike : (v w : Json) → Alike v w → canonicalize v ≡ canonicalize w
canonicalize-Alike v w h = canonical_cong h
