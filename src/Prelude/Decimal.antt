-- ===== src/Prelude/Decimal.antt =====
-- `toString` of a whole number that is not negative.
use Prim.Native.Nat.{ℕ, zero, suc, ◌/◌, ◌%◌}
use Prim.Native.Char.{Char}
use Prim.Native.String.{String, [], ◌∷◌}
use mathlib.Core.Path.{◌≡◌, refl}
use blockchain_based_e_procu.Prelude.Tests.{ltb, if◌then◌else◌}

-- The digit character of a number below ten.
unfoldable pub digit : ℕ → Char
digit zero = "0"
digit (suc zero) = "1"
digit (suc (suc zero)) = "2"
digit (suc (suc (suc zero))) = "3"
digit (suc (suc (suc (suc zero)))) = "4"
digit (suc (suc (suc (suc (suc zero))))) = "5"
digit (suc (suc (suc (suc (suc (suc zero)))))) = "6"
digit (suc (suc (suc (suc (suc (suc (suc zero))))))) = "7"
digit (suc (suc (suc (suc (suc (suc (suc (suc zero)))))))) = "8"
digit (suc (suc (suc (suc (suc (suc (suc (suc (suc n))))))))) = "9"

-- The digits of `n`, in front of `rest`.
unfoldable pub digits : ℕ → ℕ → String → String
unfolding digit
digits zero n rest = rest
digits (suc fuel) n rest =
    let more = digits fuel (n / 10) (digit (n % 10) ∷ rest) in
    if ltb n 10 then digit n ∷ rest else more

-- `n` rounds are more than enough: each one divides the number by ten.
unfoldable pub show : ℕ → String
unfolding digits
show n = digits (suc n) n []

show_tests : (show 0 ≡ "0") × (show 7 ≡ "7") × (show 1050 ≡ "1050")
unfolding show
show_tests = (refl, refl, refl)
