-- ===== src/Json/Sorting.antt =====
-- The order of keys that canonical JSON sorts by: a total order, so that sorting does not depend on
-- the order of insertion (`keys.sort()` in `canonicalizeProcureToPayValue`).
use blockchain_based_e_procu.Json.{Entry, units, le_units, insert}
use blockchain_based_e_procu.Prelude.{ℕ, List, [], ◌∷◌, ◌≡◌, refl, ◌≢◌, true, false, arith}

le_units_total : (xs ys : List ℕ) → le_units xs ys ≡ false → le_units ys xs ≡ true
unfolding le_units
le_units_total [] ys h = absurd (ground arith)
le_units_total (x ∷ xs) [] h = refl
le_units_total (x ∷ xs) (y ∷ ys) h = ground (arith, le_units_total xs ys)

le_units_antisymm : (xs ys : List ℕ) → le_units xs ys ≡ true → le_units ys xs ≡ true → xs ≡ ys
unfolding le_units
le_units_antisymm [] [] h k = refl
le_units_antisymm [] (y ∷ ys) h k = absurd (ground arith)
le_units_antisymm (x ∷ xs) [] h k = absurd (ground arith)
le_units_antisymm (x ∷ xs) (y ∷ ys) h k = ground (arith, le_units_antisymm xs ys)

le_units_trans :
    (xs ys zs : List ℕ) → le_units xs ys ≡ true → le_units ys zs ≡ true → le_units xs zs ≡ true
unfolding le_units
le_units_trans [] ys zs h k = refl
le_units_trans (x ∷ xs) [] zs h k = absurd (ground arith)
le_units_trans (x ∷ xs) (y ∷ ys) [] h k = absurd (ground arith)
le_units_trans (x ∷ xs) (y ∷ ys) (z ∷ zs) h k = ground (arith, le_units_trans xs ys zs)

-- Entries under different keys are inserted in either order.
pub insert_comm :
    (a b : Entry) (l : List Entry)
    → units a.0 ≢ units b.0
    → insert a (insert b l) ≡ insert b (insert a l)
unfolding insert
insert_comm a b [] n =
    ground
      (arith, le_units_total (units a.0) (units b.0), le_units_antisymm (units a.0) (units b.0))
insert_comm a b (x ∷ l) n = ground (
  arith,
  le_units_total (units a.0) (units b.0),
  le_units_antisymm (units a.0) (units b.0),
  le_units_trans (units a.0) (units b.0) (units x.0),
  le_units_trans (units b.0) (units a.0) (units x.0),
  insert_comm a b l n,
)
