-- ===== src/Prelude/Guard.antt =====
-- The early returns at the start of an operation: the first test that fails gives the result, and
-- otherwise the values that the tests have established are passed on.
use mathlib.Core.Path.{◌≡◌, refl}
use mathlib.Core.Bool.{Bool, true, false}
use mathlib.Core.Option.{Option, none, some}
use blockchain_based_e_procu.Prelude.Effect.{M, ok}

pub data Guard (R A : Type 0) : Type 0 where
  refuse : R → Guard R A
  pass : A → Guard R A

module _ {R : Type 0} where
  infixl 5 ◌>>=◌ ◌>>◌
  abbrev pub ◌>>=◌ : {A B : Type 0} → Guard R A → (A → Guard R B) → Guard R B
  refuse r >>= f = refuse r
  pass a >>= f = f a

  abbrev pub ◌>>◌ : {B : Type 0} → Guard R (Unit {0}) → Guard R B → Guard R B
  refuse r >> g = refuse r
  pass u >> g = g

  -- `if (test) return r`
  abbrev pub refuse_if : Bool → R → Guard R (Unit {0})
  refuse_if true r = refuse r
  refuse_if false r = pass tt

  -- `if (!value) return r`
  abbrev pub need : {A : Type 0} → Option A → R → Guard R A
  need none r = refuse r
  need (some a) r = pass a

  -- What an operation returns and does once its tests are made.
  abbrev pub decide : {W E A : Type 0} → Guard R A → (A → M W E R) → M W E R
  decide (refuse r) f w = (ok r, w)
  decide (pass a) f w = f a w

  pub bind-pass :
      {A B : Type 0} (g : Guard R A) (f : A → Guard R B) (b : B)
      → (g >>= f) ≡ pass b
      → (a : A) × (g ≡ pass a) × (f a ≡ pass b)
  bind-pass (refuse r) f b h = absurd cc
  bind-pass (pass a) f b h = (a, refl, h)

  pub next-pass :
      {B : Type 0} (g : Guard R (Unit {0})) (k : Guard R B) (b : B)
      → (g >> k) ≡ pass b
      → (g ≡ pass tt) × (k ≡ pass b)
  next-pass (refuse r) k b h = absurd cc
  next-pass (pass tt) k b h = (refl, h)

  pub refuse_if-pass : (t : Bool) (r : R) → refuse_if t r ≡ pass tt → t ≡ false
  refuse_if-pass true r h = absurd cc
  refuse_if-pass false r h = refl

  pub need-pass : {A : Type 0} (o : Option A) (r : R) (a : A) → need o r ≡ pass a → o ≡ some a
  need-pass none r a h = absurd cc
  need-pass (some b) r a h = cc
