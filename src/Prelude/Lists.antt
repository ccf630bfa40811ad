-- ===== src/Prelude/Lists.antt =====
-- Lists: the array methods that the code calls, and predicates by recursion.
use Prim.Native.Nat.{ℕ, suc}
use mathlib.Core.Path.{◌≡◌, sym}
use mathlib.Core.Logic.{inl, inr}
use mathlib.Core.Bool.{Bool, true, false, ◌||◌}
use mathlib.Core.Option.{Option, none, some}
use mathlib.Core.List.{List, [], ◌∷◌, ◌++◌, Memᴰ}
use native.Mathlib.Omega.{arith}
use blockchain_based_e_procu.Prelude.Tests.{Bool-cases, if◌then◌else◌}

module _ {ℓ} {A : Type ℓ} where
  abbrev pub length : List A → ℕ
  length [] = 0
  length (x ∷ xs) = suc (length xs)

  -- `xs.some(p)`
  abbrev pub any : (A → Bool) → List A → Bool
  any p [] = false
  any p (x ∷ xs) = p x || any p xs

  -- `xs.find(p)`
  abbrev pub find : (A → Bool) → List A → Option A
  find p [] = none
  find p (x ∷ xs) = if p x then some x else find p xs

  -- `xs.filter(p)`
  abbrev pub filter : (A → Bool) → List A → List A
  filter p [] = []
  filter p (x ∷ xs) = if p x then x ∷ filter p xs else filter p xs

  abbrev pub is_empty : List A → Bool
  is_empty [] = true
  is_empty (x ∷ xs) = false

  -- the values that are present
  abbrev pub present : List (Option A) → List A
  present [] = []
  present (none ∷ os) = present os
  present (some a ∷ os) = a ∷ present os

  -- `...(test ? [a] : [])`
  abbrev pub when : Bool → A → List A
  when true a = a ∷ []
  when false a = []

module _ {ℓ κ} {A : Type ℓ} (P : A → Type κ) where
  abbrev pub All : List A → Type κ
  All [] = Unit
  All (x ∷ xs) = P x × All xs

  pub All-append : (xs ys : List A) → All xs → All ys → All (xs ++ ys)
  All-append [] ys hx hy = hy
  All-append (x ∷ xs) ys (p, hx) hy = (p, All-append xs ys hx hy)

  pub All-find :
      (p : A → Bool) (xs : List A) {a : A} → All xs → find p xs ≡ some a → P a × (p a ≡ true)
  All-find p [] h e = absurd (ground arith)
  All-find p (x ∷ xs) {a} (q, h) e = elim (Bool-cases (p x)) [
    | inl found ↦ let same : x ≡ a = ground arith in rw (← same) (q, found)
    | inr other ↦ All-find p xs h (rw other at e)
  ]

pub All-mem {ℓ κ} : {A : Type ℓ} (P : A → Type κ) (xs : List A) {a : A} → All P xs → Memᴰ a xs → P a
All-mem P [] h m = elim m [ ]
All-mem P (x ∷ xs) (p, h) (Memᴰ.head same) = rw same p
All-mem P (x ∷ xs) (p, h) (Memᴰ.tail m) = All-mem P xs h m

pub All-map {ℓ κ μ} :
    {A : Type ℓ} (P : A → Type κ) (Q : A → Type μ)
    → ((a : A) → P a → Q a)
    → (xs : List A) → All P xs
    → All Q xs
All-map P Q f [] h = tt
All-map P Q f (x ∷ xs) (p, h) = (f x p, All-map P Q f xs h)

pub All-both {ℓ κ μ} :
    {A : Type ℓ} (P : A → Type κ) (Q : A → Type μ) (xs : List A)
    → All P xs
    → All Q xs
    → All (λ a. P a × Q a) xs
All-both P Q [] h k = tt
All-both P Q (x ∷ xs) (p, h) (q, k) = ((p, q), All-both P Q xs h k)

pub find-eq-none {ℓ} :
    {A : Type ℓ} (p : A → Bool) (xs : List A) → find p xs ≡ none → All (λ a. p a ≡ false) xs
find-eq-none p [] h = tt
find-eq-none p (x ∷ xs) h = ground (arith, find-eq-none p xs)

pub any-eq-false {ℓ} :
    {A : Type ℓ} (p : A → Bool) (xs : List A) → any p xs ≡ false → All (λ a. p a ≡ false) xs
any-eq-false p [] h = tt
any-eq-false p (x ∷ xs) h = ground (arith, any-eq-false p xs)

pub find-mem {ℓ} :
    {A : Type ℓ} (p : A → Bool) (xs : List A) (a : A)
    → find p xs ≡ some a
    → Memᴰ a xs × (p a ≡ true)
find-mem p [] a h = absurd (ground arith)
find-mem p (x ∷ xs) a h = elim (Bool-cases (p x)) [
  | inl found ↦ let same : x ≡ a = ground arith in (Memᴰ.head (sym same), rw (← same) found)
  | inr other ↦ let (m, q) = find-mem p xs a (ground arith) in (Memᴰ.tail m, q)
]

pub All-filter {ℓ κ} :
    {A : Type ℓ} (P : A → Type κ) (p : A → Bool) (xs : List A) → All P xs → All P (filter p xs)
All-filter P p [] h = tt
All-filter P p (x ∷ xs) (q, h) = elim (Bool-cases (p x)) [
  | inl kept ↦ rw kept (q, All-filter P p xs h)
  | inr left ↦ rw left (All-filter P p xs h)
]

pub filter-All {ℓ} : {A : Type ℓ} (p : A → Bool) (xs : List A) → All (λ a. p a ≡ true) (filter p xs)
filter-All p [] = tt
filter-All p (x ∷ xs) = elim (Bool-cases (p x)) [
  | inl kept ↦ rw kept (kept, filter-All p xs)
  | inr left ↦ rw left (filter-All p xs)
]

-- Every element is related to every later one.
module _ {ℓ κ} {A : Type ℓ} (R : A → A → Type κ) where
  abbrev pub Pairwise : List A → Type κ
  Pairwise [] = Unit
  Pairwise (x ∷ xs) = All (R x) xs × Pairwise xs

  pub Pairwise-append_one :
      (xs : List A) (a : A) → Pairwise xs → All (λ x. R x a) xs → Pairwise (xs ++ a ∷ [])
  Pairwise-append_one [] a h k = (tt, tt)
  Pairwise-append_one (x ∷ xs) a (hx, h) (r, k) =
      (All-append (R x) xs (a ∷ []) hx (r, tt), Pairwise-append_one xs a h k)

  pub Pairwise-filter : (p : A → Bool) (xs : List A) → Pairwise xs → Pairwise (filter p xs)
  Pairwise-filter p [] h = tt
  Pairwise-filter p (x ∷ xs) (r, h) = elim (Bool-cases (p x)) [
    | inl kept ↦ rw kept (All-filter (R x) p xs r, Pairwise-filter p xs h)
    | inr left ↦ rw left (Pairwise-filter p xs h)
  ]
