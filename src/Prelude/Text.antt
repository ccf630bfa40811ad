-- ===== src/Prelude/Text.antt =====
-- Text as the code treats it: `trim`, blank and missing values, and membership in a list of words.
use Prim.Native.Char.{Char, code}
use Prim.Native.String
use Prim.Native.String.{String, [], ◌∷◌}
use Prim.Native.Nat.{ℕ}
use mathlib.Core.Path.{◌≡◌, refl}
use mathlib.Core.Bool.{Bool, true, false, not, ◌&&◌, ◌||◌}
use mathlib.Core.Option.{Option, none, some}
use mathlib.Core.List.{List}
use text.Mathlib.Text.{◌==◌}
use blockchain_based_e_procu.Prelude.Tests.{leb, if◌then◌else◌}
use blockchain_based_e_procu.Prelude.Tests
use blockchain_based_e_procu.Prelude.Lists.{any}

infix 50 ◌=s◌
-- `a === b` on strings
abbrev pub ◌=s◌ : String → String → Bool
a =s b = a == b

-- The white space and line terminators that `String.prototype.trim` removes.
unfoldable pub is_space : ℕ → Bool
is_space c =
    (leb 9 c && leb c 13)
    || Tests.◌==◌ c 32
    || Tests.◌==◌ c 0xA0
    || Tests.◌==◌ c 0x1680
    || (leb 0x2000 c && leb c 0x200A)
    || Tests.◌==◌ c 0x2028
    || Tests.◌==◌ c 0x2029
    || Tests.◌==◌ c 0x202F
    || Tests.◌==◌ c 0x205F
    || Tests.◌==◌ c 0x3000
    || Tests.◌==◌ c 0xFEFF

unfoldable pub trim_start : String → String
unfolding is_space
trim_start [] = []
trim_start (c ∷ s) = if is_space (code c) then trim_start s else c ∷ s

-- `c ∷ s` with the white space at the end dropped, where `s` has been treated already
abbrev keep : Char → String → String
keep c [] = if is_space (code c) then [] else c ∷ []
keep c (d ∷ s) = c ∷ d ∷ s

unfoldable pub trim_end : String → String
unfolding is_space
trim_end [] = []
trim_end (c ∷ s) = keep c (trim_end s)

unfoldable pub trim : String → String
unfolding trim_start trim_end
trim s = trim_end (trim_start s)

-- `!s` is false on a string that is not empty
abbrev pub truthy : Option String → Bool
truthy none = false
truthy (some s) = not (s == "")

-- `value?.trim()`, and undefined where that leaves nothing
unfoldable pub trim_optional : Option String → Option String
unfolding trim
trim_optional none = none
trim_optional (some s) = if trim s == "" then none else some (trim s)

-- `value?.trim() ?? ''`
unfoldable pub trimmed : Option String → String
unfolding trim
trimmed none = ""
trimmed (some s) = trim s

-- `!value || value.trim() === ''`
unfoldable pub is_blank : Option String → Bool
unfolding trim
is_blank none = true
is_blank (some s) = trim s == ""

-- `s.startsWith(prefix)`
unfoldable pub starts_with : String → String → Bool
starts_with s [] = true
starts_with [] (c ∷ prefix) = false
starts_with (d ∷ s) (c ∷ prefix) = Tests.◌==◌ (code d) (code c) && starts_with s prefix

-- `words.includes(s)`
abbrev pub includes : List String → String → Bool
includes words s = any (λ w. w == s) words

-- `a === b` on values that may be undefined
abbrev pub eq_optional : Option String → Option String → Bool
eq_optional none none = true
eq_optional (some a) (some b) = a == b
eq_optional none (some b) = false
eq_optional (some a) none = false

infixr 65 ◌<>◌
abbrev pub ◌<>◌ : String → String → String
a <> b = String.◌++◌ a b

trim_tests : (trim " ab c " ≡ "ab c") × (trim "  " ≡ "")
unfolding trim
trim_tests = (refl, refl)
