-- ===== src/Prelude/Store.antt =====
-- A JavaScript `Map` from a text, in insertion order, where each value holds its key.
use Prim.Native.String.{String}
use mathlib.Core.Path.{◌≡◌, refl, sym, ◌∙◌}
use mathlib.Core.Logic.{◌≢◌, inl, inr}
use mathlib.Core.Option.{Option, none, some}
use mathlib.Core.List.{List, [], ◌∷◌}
use native.Mathlib.Omega.{arith}
use text.Mathlib.Text.{◌==◌}
use text.Mathlib.TextEquality.{eq_iff}
use blockchain_based_e_procu.Prelude.Tests.{Bool-cases, if◌then◌else◌}
use blockchain_based_e_procu.Prelude.Lists.{All, All-map, Pairwise}

module _ {V : Type 0} (key : V → String) where
  -- `map.get(k)`
  unfoldable pub get : String → List V → Option V
  get k [] = none
  get k (v ∷ m) = if key v == k then some v else get k m

  -- `map.set(key(v), v)`: in place where the key is there, else at the end
  unfoldable pub put : V → List V → List V
  put v [] = v ∷ []
  put v (w ∷ m) = if key w == key v then v ∷ m else w ∷ put v m

  abbrev pub HasUniqueKeys : List V → Type 0
  HasUniqueKeys = Pairwise (λ v w. key v ≢ key w)

  pub get-put :
      (k : String) (v : V) (m : List V) → get k (put v m) ≡ (if key v == k then some v else get k m)
  unfolding get put
  get-put k v [] = refl
  get-put k v (w ∷ m) =
      ground (arith, eq_iff (key w) (key v), eq_iff (key w) k, eq_iff (key v) k, get-put k v m)

  -- What has been put is found under its own key.
  pub get-put-key : (v : V) (m : List V) → get (key v) (put v m) ≡ some v
  get-put-key v m = rw (get-put (key v) v m, (eq_iff (key v) (key v)).1 refl) refl

  pub get-key : (k : String) (m : List V) {v : V} → get k m ≡ some v → key v ≡ k
  unfolding get
  get-key k [] h = absurd (ground arith)
  get-key k (w ∷ m) {v} h = elim (Bool-cases (key w == k)) [
    | inl found ↦ let same : w ≡ v = ground arith in rw (← same) ((eq_iff (key w) k).0 found)
    | inr other ↦ get-key k m (ground arith)
  ]

  module _ {κ} (P : V → Type κ) where
    pub All-get : (k : String) (m : List V) {v : V} → All P m → get k m ≡ some v → P v
    unfolding get
    All-get k [] a h = absurd (ground arith)
    All-get k (w ∷ m) {v} (p, a) h = elim (Bool-cases (key w == k)) [
      | inl found ↦ let same : w ≡ v = ground arith in rw (← same) p
      | inr other ↦ All-get k m a (ground arith)
    ]

    pub All-put : (v : V) (m : List V) → P v → All P m → All P (put v m)
    unfolding put
    All-put v [] p a = (p, tt)
    All-put v (w ∷ m) p (q, a) = elim (Bool-cases (key w == key v)) [
      | inl same ↦ rw same (p, a)
      | inr other ↦ rw other (q, All-put v m p a)
    ]

  -- What holds between any two entries holds after a write, if it holds between the new entry
  -- and each entry under another key.
  module _ {κ} (R : V → V → Type κ) (swap : (a b : V) → R a b → R b a) where
    All-others :
        (v w : V) (m : List V)
        → key w ≡ key v
        → All (λ x. key w ≢ key x) m
        → All (λ x. key x ≢ key v → R v x) m
        → All (R v) m
    All-others v w [] e u h = tt
    All-others v w (x ∷ m) e (n, u) (r, h) = (r (λ d. n (e ∙ sym d)), All-others v w m e u h)

    pub Pairwise-put :
        (v : V) (m : List V)
        → HasUniqueKeys m
        → Pairwise R m
        → All (λ w. key w ≢ key v → R v w) m
        → Pairwise R (put v m)
    unfolding put
    Pairwise-put v [] u r h = (tt, tt)
    Pairwise-put v (w ∷ m) (n, u) (q, r) (f, h) = elim (Bool-cases (key w == key v)) [
      | inl same ↦ rw same (All-others v w m ((eq_iff _ _).0 same) n h, r)
      | inr other ↦
          let apart : key w ≢ key v = λ e. cc (sym other ∙ (eq_iff _ _).1 e) in
          rw other (All-put (R w) v m (swap v w (f apart)) q, Pairwise-put v m u r h)
    ]

    -- An entry that is found is related to the entries under the other keys.
    pub Pairwise-get :
        (k : String) (m : List V) {v : V}
        → Pairwise R m
        → get k m ≡ some v
        → All (λ w. key w ≢ k → R v w) m
    unfolding get
    Pairwise-get k [] r h = tt
    Pairwise-get k (w ∷ m) {v} (q, r) h = elim (Bool-cases (key w == k)) [
      | inl found ↦
          let same : w ≡ v = ground arith in
          (
            λ n. absurd (n ((eq_iff (key w) k).0 found)),
            All-map (R w) (λ x. key x ≢ k → R v x) (λ x p n. rw (← same) p) m q,
          )
      | inr other ↦
          let rest : get k m ≡ some v = rw other at h in
          (λ n. swap w v (All-get (R w) k m q rest), Pairwise-get k m r rest)
    ]

  pub HasUniqueKeys-put : (v : V) (m : List V) → HasUniqueKeys m → HasUniqueKeys (put v m)
  HasUniqueKeys-put v m u =
      Pairwise-put (λ a b. key a ≢ key b) (λ a b n e. n (sym e)) v m u u (others m)
    where
      others : (m : List V) → All (λ w. key w ≢ key v → key v ≢ key w) m
      others [] = tt
      others (w ∷ m) = ((λ n e. n (sym e)), others m)
