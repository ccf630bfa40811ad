-- ===== src/Prelude/Effect.antt =====
-- An `async` function over a mutable world: it returns a value or throws, and the world keeps what
-- was written before the throw.

pub data Outcome (E : Type 0) (A : Type 0) : Type 0 where
  ok : A → Outcome E A
  thrown : E → Outcome E A

abbrev pub M : Type 0 → Type 0 → Type 0 → Type 0
M W E A = W → Outcome E A × W

module _ {W E : Type 0} where
  abbrev pub pure : {A : Type 0} → A → M W E A
  pure a w = (ok a, w)

  abbrev pub throw : {A : Type 0} → E → M W E A
  throw e w = (thrown e, w)

  abbrev pub and_then : {A B : Type 0} → Outcome E A × W → (A → M W E B) → Outcome E B × W
  and_then (ok a, w) f = f a w
  and_then (thrown e, w) f = (thrown e, w)

  infixl 5 ◌>>=◌ ◌>>◌
  abbrev pub ◌>>=◌ : {A B : Type 0} → M W E A → (A → M W E B) → M W E B
  ◌>>=◌ m f w = and_then (m w) f

  abbrev pub ◌>>◌ : {B : Type 0} → M W E (Unit {0}) → M W E B → M W E B
  m >> k = m >>= λ _. k
