-- ===== src/Prelude/After.antt =====
-- Reasoning about an operation by what holds after it: `Q` of the value and the world where it
-- returns, `P` of the world where it throws.
use mathlib.Core.Path.{◌≡◌, refl}
use blockchain_based_e_procu.Prelude.Effect.{M, Outcome, ok, thrown, and_then}
use blockchain_based_e_procu.Prelude.Guard.{Guard, refuse, pass, decide}

module _ {W E : Type 0} where
  abbrev pub After : {A : Type 0} → (A → W → Type 0) → (W → Type 0) → Outcome E A × W → Type 0
  After Q P (ok a, w) = Q a w
  After Q P (thrown e, w) = P w

  pub After-bind :
      {A B : Type 0} (Q : A → W → Type 0) (S : B → W → Type 0) (P : W → Type 0)
      (q : Outcome E A × W) (f : A → M W E B)
      → After Q P q
      → ((a : A) (w : W) → Q a w → After S P (f a w))
      → After S P (and_then q f)
  After-bind Q S P (ok a, w) f h k = k a w h
  After-bind Q S P (thrown e, w) f h k = h

  -- What holds of the world however the operation ends.
  pub After-world :
      {A : Type 0} (P : W → Type 0) (q : Outcome E A × W) → After (λ a w. P w) P q → P q.1
  After-world P (ok a, w) h = h
  After-world P (thrown e, w) h = h

  pub world-After :
      {A : Type 0} (P : W → Type 0) (q : Outcome E A × W) → P q.1 → After (λ a w. P w) P q
  world-After P (ok a, w) h = h
  world-After P (thrown e, w) h = h

  pub After-any : {A : Type 0} (q : Outcome E A × W) → After (λ a w. Unit {0}) (λ w. Unit {0}) q
  After-any (ok a, w) = tt
  After-any (thrown e, w) = tt

  pub After-weaken :
      {A : Type 0} (Q Q' : A → W → Type 0) (P P' : W → Type 0) (q : Outcome E A × W)
      → After Q P q
      → ((a : A) (w : W) → Q a w → Q' a w)
      → ((w : W) → P w → P' w)
      → After Q' P' q
  After-weaken Q Q' P P' (ok a, w) h f g = f a w h
  After-weaken Q Q' P P' (thrown e, w) h f g = g w h

  -- A refusal leaves the world alone; after the tests are passed, what they establish is known.
  pub decide-After :
      {R A : Type 0} (S : R → W → Type 0) (P : W → Type 0) (g : Guard R A) (f : A → M W E R) (w : W)
      → ((r : R) → g ≡ refuse r → S r w)
      → ((a : A) → g ≡ pass a → After S P (f a w))
      → After S P (decide g f w)
  decide-After S P (refuse r) f w h k = h r refl
  decide-After S P (pass a) f w h k = k a refl
