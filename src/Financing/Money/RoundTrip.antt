-- ===== src/Financing/Money/RoundTrip.antt =====
-- That `parseMoneyToMinorUnits` reads what `formatMinorUnits` writes
-- (application/pls-contract-service.ts).
use Prim.Native.Char.{Char, code}
use Prim.Native.String.{String, [], ◌∷◌}
use mathlib.Core.Option
use text.Mathlib.TextLemmas.{cons-append, nil-append}
use blockchain_based_e_procu.Prelude.{
  ℕ, zero, suc, true, false, none, some, ◌+◌, ◌*◌, ◌/◌, ◌%◌, ◌<◌, ltb, ◌==◌, ◌≡◌, refl, sym, ◌∙◌,
  ap, arith, Bool-cases, inl, inr,
}
use blockchain_based_e_procu.Prelude.Text.{◌<>◌, trim, trim_start, trim_end, is_space}
use blockchain_based_e_procu.Prelude.Decimal.{digit, digits, show}
use blockchain_based_e_procu.Financing.Money.{
  ℤ, pos, negsuc, neg_of, is_digit, value, fraction, add_whole, amount, signed, parse_money,
  two_digits, units_text, format_minor_units,
}

record IsDigit (c : Char) (d : ℕ) : Type 0 where
  pub shown : is_digit c ≡ true
  pub valued : value c ≡ d
  pub unsigned : (code c == 45) ≡ false
  pub solid : is_space (code c) ≡ false

digit-IsDigit : (d : ℕ) → d < 10 → IsDigit (digit d) d
unfolding digit is_space
digit-IsDigit zero h = record { shown = refl; valued = refl; unsigned = refl; solid = refl }
digit-IsDigit (suc zero) h = record { shown = refl; valued = refl; unsigned = refl; solid = refl }
digit-IsDigit (suc (suc zero)) h = record {
  shown = refl;
  valued = refl;
  unsigned = refl;
  solid = refl;
}
digit-IsDigit (suc (suc (suc zero))) h = record {
  shown = refl;
  valued = refl;
  unsigned = refl;
  solid = refl;
}
digit-IsDigit (suc (suc (suc (suc zero)))) h = record {
  shown = refl;
  valued = refl;
  unsigned = refl;
  solid = refl;
}
digit-IsDigit (suc (suc (suc (suc (suc zero))))) h = record {
  shown = refl;
  valued = refl;
  unsigned = refl;
  solid = refl;
}
digit-IsDigit (suc (suc (suc (suc (suc (suc zero)))))) h = record {
  shown = refl;
  valued = refl;
  unsigned = refl;
  solid = refl;
}
digit-IsDigit (suc (suc (suc (suc (suc (suc (suc zero))))))) h = record {
  shown = refl;
  valued = refl;
  unsigned = refl;
  solid = refl;
}
digit-IsDigit (suc (suc (suc (suc (suc (suc (suc (suc zero)))))))) h = record {
  shown = refl;
  valued = refl;
  unsigned = refl;
  solid = refl;
}
digit-IsDigit (suc (suc (suc (suc (suc (suc (suc (suc (suc n))))))))) h = record {
  shown = refl;
  valued = omega arith;
  unsigned = refl;
  solid = refl;
}

-- Writing the digits, then reading on.
amount-digits :
    (f n : ℕ) (rest : String) → n < f → amount none (digits f n rest) ≡ amount (some n) rest
unfolding digits
amount-digits zero n rest h = absurd (omega arith)
amount-digits (suc f) n rest h = elim (Bool-cases (ltb n 10)) [
  | inl small ↦
      let d = digit-IsDigit n (ground arith) in
      rw small (unfold amount in rw (d.shown, d.valued) refl)
  | inr large ↦
      let d = digit-IsDigit (n % 10) (omega arith) in
      let whole : n / 10 * 10 + n % 10 ≡ n = omega arith in
      let big : 10 < suc n = ground arith in
      rw large (
        amount-digits f (n / 10) (digit (n % 10) ∷ rest) (omega arith)
        ∙ (unfold amount in rw (d.shown, d.valued, whole) refl))
]

signed-digits :
    (f n : ℕ) (rest : String)
    → n < f
    → signed (digits f n rest) ≡ Option.map pos (amount none (digits f n rest))
unfolding digits
signed-digits zero n rest h = absurd (omega arith)
signed-digits (suc f) n rest h = elim (Bool-cases (ltb n 10)) [
  | inl small ↦
      let d = digit-IsDigit n (ground arith) in rw small (unfold signed in rw d.unsigned refl)
  | inr large ↦
      let big : 10 < suc n = ground arith in
      rw large (signed-digits f (n / 10) (digit (n % 10) ∷ rest) (omega arith))
]

digits-append : (f n : ℕ) (a s : String) → digits f n a <> s ≡ digits f n (a <> s)
unfolding digits
digits-append zero n a s = refl
digits-append (suc f) n a s = elim (Bool-cases (ltb n 10)) [
  | inl small ↦ rw small (cons-append (digit n) a s)
  | inr large ↦ rw large (
      digits-append f (n / 10) (digit (n % 10) ∷ a) s
      ∙ ap (digits f (n / 10)) (cons-append (digit (n % 10)) a s))
]

one_digit : (f n : ℕ) (rest : String) → n < 10 → 0 < f → digits f n rest ≡ digit n ∷ rest
unfolding digits
one_digit zero n rest h k = absurd (omega arith)
one_digit (suc f) n rest h k = let small : ltb n 10 ≡ true = ground arith in rw small refl

-- The two digits of the minor units are read back.
fraction-two_digits : (r : ℕ) → r < 100 → fraction (two_digits r) ≡ some r
unfolding fraction show
fraction-two_digits r h = elim (Bool-cases (ltb r 10)) [
  | inl small ↦
      let below : r < 10 = ground arith in
      let d = digit-IsDigit r below in
      rw (small, cons-append "0" [] (digit r ∷ []), nil-append (digit r ∷ []))
        (rw (d.shown, d.valued) (ap some zero_tens))
  | inr large ↦
      let above : 9 < r = ground arith in
      let tens = digit-IsDigit (r / 10) (omega arith) in
      let ones = digit-IsDigit (r % 10) (omega arith) in
      let whole : r / 10 * 10 + r % 10 ≡ r = omega arith in
      rw large (
        ap fraction (one_digit r (r / 10) (digit (r % 10) ∷ []) (omega arith) (omega arith))
        ∙ rw (tens.shown, ones.shown, tens.valued, ones.valued, whole) refl)
]
  where
    zero_tens : 0 * 10 + r ≡ r
    zero_tens = omega arith

abbrev IsSolid : String → Type 0
IsSolid [] = Unit
IsSolid (c ∷ s) = (is_space (code c) ≡ false) × IsSolid s

digits-IsSolid : (f n : ℕ) (rest : String) → IsSolid rest → IsSolid (digits f n rest)
unfolding digits
digits-IsSolid zero n rest h = h
digits-IsSolid (suc f) n rest h = elim (Bool-cases (ltb n 10)) [
  | inl small ↦ rw small ((digit-IsDigit n (ground arith)).solid, h)
  | inr large ↦ rw large (
      digits-IsSolid f (n / 10) (digit (n % 10) ∷ rest)
        ((digit-IsDigit (n % 10) (omega arith)).solid, h))
]

trim_start-IsSolid : (s : String) → IsSolid s → trim_start s ≡ s
unfolding trim_start
trim_start-IsSolid [] h = refl
trim_start-IsSolid (c ∷ s) (solid, h) = rw solid refl

trim_end-IsSolid : (s : String) → IsSolid s → trim_end s ≡ s
unfolding trim_end
trim_end-IsSolid [] h = refl
trim_end-IsSolid (c ∷ []) (solid, h) = rw solid refl
trim_end-IsSolid (c ∷ d ∷ s) (solid, h) = rw (trim_end-IsSolid (d ∷ s) h) refl

trim-IsSolid : (s : String) → IsSolid s → trim s ≡ s
unfolding trim
trim-IsSolid s h = rw (trim_start-IsSolid s h) (trim_end-IsSolid s h)

two_digits-IsSolid : (r : ℕ) → IsSolid (two_digits r)
unfolding show is_space
two_digits-IsSolid r = elim (Bool-cases (ltb r 10)) [
  | inl small ↦
      let d = digit-IsDigit r (ground arith) in
      rw (small, cons-append "0" [] (digit r ∷ []), nil-append (digit r ∷ [])) (refl, (d.solid, tt))
  | inr large ↦ rw large (
      digits-IsSolid r (r / 10) (digit (r % 10) ∷ [])
        ((digit-IsDigit (r % 10) (omega arith)).solid, tt))
]

-- The text of an amount that is not negative, as one run of digits before the dot.
units-digits :
    (n : ℕ) → units_text n ≡ digits (suc (n / 100)) (n / 100) ("." ∷ two_digits (n % 100))
unfolding units_text show
units-digits n =
    digits-append (suc (n / 100)) (n / 100) [] ("." <> two_digits (n % 100))
    ∙ ap (digits (suc (n / 100)) (n / 100)) (
        nil-append ("." <> two_digits (n % 100))
        ∙ cons-append "." [] (two_digits (n % 100))
        ∙ ap (λ t. "." ∷ t) (nil-append (two_digits (n % 100))))

units-IsSolid : (n : ℕ) → IsSolid (units_text n)
unfolding is_space
units-IsSolid n = rw (units-digits n) (
    digits-IsSolid (suc (n / 100)) (n / 100) ("." ∷ two_digits (n % 100))
      (refl, two_digits-IsSolid (n % 100)))

amount-units : (n : ℕ) → amount none (units_text n) ≡ some n
unfolding amount
amount-units n =
    let whole : n / 100 * 100 + n % 100 ≡ n = omega arith in
    ap (amount none) (units-digits n)
    ∙ amount-digits (suc (n / 100)) (n / 100) ("." ∷ two_digits (n % 100)) (omega arith)
    ∙ ap (add_whole (n / 100)) (fraction-two_digits (n % 100) (omega arith))
    ∙ ap some whole

signed-units : (n : ℕ) → signed (units_text n) ≡ some (pos n)
signed-units n =
    rw (units-digits n)
      (signed-digits (suc (n / 100)) (n / 100) ("." ∷ two_digits (n % 100)) (omega arith))
    ∙ ap (λ t. Option.map pos (amount none t)) (sym (units-digits n))
    ∙ ap (Option.map pos) (amount-units n)

minus-units : (n : ℕ) → "-" <> units_text n ≡ "-" ∷ units_text n
minus-units n = cons-append "-" [] (units_text n) ∙ ap (λ t. "-" ∷ t) (nil-append (units_text n))

-- The text that an amount in minor units is written as is read as the same amount.
pub parse-format_minor_units : (z : ℤ) → parse_money (format_minor_units z) ≡ some z
unfolding parse_money format_minor_units signed is_space
parse-format_minor_units (pos n) =
    ap signed (trim-IsSolid (units_text n) (units-IsSolid n)) ∙ signed-units n
parse-format_minor_units (negsuc n) =
    ap (λ t. signed (trim t)) (minus-units (suc n))
    ∙ ap signed (trim-IsSolid ("-" ∷ units_text (suc n)) (refl, units-IsSolid (suc n)))
    ∙ ap (Option.map neg_of) (amount-units (suc n))
