-- ===== src/Financing/Money.antt =====
-- Money in minor units: `parseMoneyToMinorUnits` and `formatMinorUnits` of
-- application/pls-contract-service.ts. A `bigint` is an integer of any size.
pub mod RoundTrip
use Prim.Native.Char.{Char, code}
use Prim.Native.String.{String, [], ◌∷◌}
use blockchain_based_e_procu.Prelude.{
  ◌≡◌, refl, ℕ, zero, suc, Bool, Option, none, some, ◌&&◌, ◌+◌, ◌-◌, ◌*◌, ◌/◌, ◌%◌, ltb, leb, ◌==◌,
  if◌then◌else◌,
}
use mathlib.Core.Option
use blockchain_based_e_procu.Prelude.Text.{◌<>◌, trim}
use blockchain_based_e_procu.Prelude.Decimal.{show}

pub data ℤ : Type 0 where
  pos negsuc : ℕ → ℤ

unfoldable pub neg_of : ℕ → ℤ
neg_of zero = pos 0
neg_of (suc n) = negsuc n

-- `value < 0n ? -value : value`
unfoldable pub magnitude : ℤ → ℕ
magnitude (pos n) = n
magnitude (negsuc n) = suc n

-- `a - b` on amounts that are not negative
unfoldable pub minus : ℕ → ℕ → ℤ
unfolding neg_of
minus a b = if ltb a b then neg_of (b - a) else pos (a - b)

abbrev is_digit : Char → Bool
is_digit c = leb 48 (code c) && leb (code c) 57

abbrev value : Char → ℕ
value c = code c - 48

-- `\.(\d{1,2})$` after the dot, padded to two digits
fraction : String → Option ℕ
fraction [] = none
fraction (c ∷ []) = if is_digit c then some (value c * 10) else none
fraction (c ∷ d ∷ []) = if is_digit c && is_digit d then some (value c * 10 + value d) else none
fraction (c ∷ d ∷ e ∷ s) = none

abbrev add_whole : ℕ → Option ℕ → Option ℕ
add_whole w f = Option.map (λ n. w * 100 + n) f

-- `(\d+)(?:\.(\d{1,2}))?$`, where `w` is the value of the digits read, if there are any
amount : Option ℕ → String → Option ℕ
unfolding fraction
amount none [] = none
amount (some w) [] = some (w * 100)
amount none (c ∷ s) = if is_digit c then amount (some (value c)) s else none
amount (some w) (c ∷ s) =
    if is_digit c
    then amount (some (w * 10 + value c)) s
    else if code c == 46
    then add_whole w (fraction s)
    else none

signed : String → Option ℤ
unfolding amount neg_of
signed [] = none
signed (c ∷ s) =
    if code c == 45 then Option.map neg_of (amount none s) else Option.map pos (amount none (c ∷ s))

-- `parseMoneyToMinorUnits`, without a value where it throws
unfoldable pub parse_money : String → Option ℤ
unfolding signed trim
parse_money s = signed (trim s)

-- `fraction.toString().padStart(2, '0')`
abbrev two_digits : ℕ → String
two_digits n = if ltb n 10 then "0" <> show n else show n

units_text : ℕ → String
units_text n = show (n / 100) <> ("." <> two_digits (n % 100))

-- `formatMinorUnits`
unfoldable pub format_minor_units : ℤ → String
unfolding units_text show
format_minor_units (pos n) = units_text n
format_minor_units (negsuc n) = "-" <> units_text (suc n)

money_tests :
    (parse_money " -12.5 " ≡ some (negsuc 1249))
    × (parse_money "7" ≡ some (pos 700))
    × (parse_money "1.234" ≡ none)
    × (format_minor_units (negsuc 1249) ≡ "-12.50")
unfolding parse_money format_minor_units
money_tests = (refl, refl, refl, refl)
