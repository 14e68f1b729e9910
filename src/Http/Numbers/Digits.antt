-- ===== src/Http/Numbers/Digits.antt =====
-- A number that is written in decimal is read back.
use Prim.Native.Char.{Char, code}
use Prim.Native.String.{String, [], ◌∷◌}
use enterprise_platform.Common.{
  ℕ, zero, suc, ◌+◌, ◌*◌, ◌-◌, ◌/◌, ◌%◌, ◌<◌, ◌≤◌, true, Option, none, some, ◌≡◌, refl, ap, ◌∙◌,
  arith, Bool-cases, inl, inr, ltb, digit, digits_onto, text_of_nat,
}
use enterprise_platform.Http.Numbers.{
  natural, is_digit, shift, digits_from, positive, signed, parse_int,
}

-- A digit is read as itself.
IsDigitOf : Char → ℕ → Type 0
IsDigitOf c d = (is_digit c ≡ true) × (code c ≡ 48 + d)

digit-IsDigitOf : (d : ℕ) → d < 10 → IsDigitOf (digit d) d
unfolding IsDigitOf
digit-IsDigitOf zero h = (refl, refl)
digit-IsDigitOf (suc zero) h = (refl, refl)
digit-IsDigitOf (suc (suc zero)) h = (refl, refl)
digit-IsDigitOf (suc (suc (suc zero))) h = (refl, refl)
digit-IsDigitOf (suc (suc (suc (suc zero)))) h = (refl, refl)
digit-IsDigitOf (suc (suc (suc (suc (suc zero))))) h = (refl, refl)
digit-IsDigitOf (suc (suc (suc (suc (suc (suc zero)))))) h = (refl, refl)
digit-IsDigitOf (suc (suc (suc (suc (suc (suc (suc zero))))))) h = (refl, refl)
digit-IsDigitOf (suc (suc (suc (suc (suc (suc (suc (suc zero)))))))) h = (refl, refl)
digit-IsDigitOf (suc (suc (suc (suc (suc (suc (suc (suc (suc zero))))))))) h = (refl, refl)
digit-IsDigitOf (suc (suc (suc (suc (suc (suc (suc (suc (suc (suc d)))))))))) h =
    absurd (omega (arith, h))

digits_from-cons :
    (acc : Option ℕ) (d : ℕ) (rest : String)
    → d < 10
    → digits_from acc (digit d ∷ rest) ≡ digits_from (some (shift acc + d)) rest
unfolding digits_from IsDigitOf
digits_from-cons acc d rest h =
    let is_d : IsDigitOf (digit d) d = digit-IsDigitOf d h in
    let value : code (digit d) - 48 ≡ d = omega (arith, is_d.1) in
    rw (is_d.0) (ap (λ k. digits_from (some (shift acc + k)) rest) value)

ltb-lt : (n : ℕ) → ltb n 10 ≡ true → n < 10
ltb-lt n e = ground arith

remainder-lt : (n : ℕ) → n % 10 < 10
remainder-lt n = omega arith

digits_from-digits_onto :
    (fuel n : ℕ) (rest : String)
    → n < fuel
    → digits_from none (digits_onto fuel n rest) ≡ digits_from (some n) rest
unfolding digits_onto
digits_from-digits_onto zero n rest h = absurd (omega (arith, h))
digits_from-digits_onto (suc fuel) n rest h = elim (Bool-cases (ltb n 10)) [
  | inl e ↦
      let small : n < 10 = ltb-lt n e in
      let whole : n % 10 ≡ n = omega (arith, small) in
      let none_before : 0 + n % 10 ≡ n = omega (arith, small) in
      rw e (
        digits_from-cons none (n % 10) rest (remainder-lt n)
        ∙ ap (λ k. digits_from (some k) rest) none_before)
  | inr e ↦
      let large : 10 ≤ n = ground (arith, e) in
      let fewer : n / 10 < fuel = omega (arith, large, h) in
      let together : n / 10 * 10 + n % 10 ≡ n = omega arith in
      rw e (
        digits_from-digits_onto fuel (n / 10) (digit (n % 10) ∷ rest) fewer
        ∙ digits_from-cons (some (n / 10)) (n % 10) rest (remainder-lt n)
        ∙ ap (λ k. digits_from (some k) rest) together)
]

-- A text begins with a digit.
StartsWithDigit : String → Type 0
StartsWithDigit [] = ⊥
StartsWithDigit (c ∷ s) = is_digit c ≡ true

digits_onto-StartsWithDigit :
    (fuel n : ℕ) (rest : String) → n < fuel → StartsWithDigit (digits_onto fuel n rest)
unfolding digits_onto StartsWithDigit IsDigitOf
digits_onto-StartsWithDigit zero n rest h = absurd (omega (arith, h))
digits_onto-StartsWithDigit (suc fuel) n rest h = elim (Bool-cases (ltb n 10)) [
  | inl e ↦ rw e (digit-IsDigitOf (n % 10) (remainder-lt n)).0
  | inr e ↦
      let large : 10 ≤ n = ground (arith, e) in
      let fewer : n / 10 < fuel = omega (arith, large, h) in
      rw e (digits_onto-StartsWithDigit fuel (n / 10) (digit (n % 10) ∷ rest) fewer)
]

parse_int-digits : (s : String) → StartsWithDigit s → parse_int s ≡ positive (digits_from none s)
unfolding parse_int signed StartsWithDigit
parse_int-digits [] h = absurd h
parse_int-digits (c ∷ s) h = ground (arith, h)

-- `Number.parseInt(String(n), 10)` is n.
pub parse_int-text_of_nat : (n : ℕ) → parse_int (text_of_nat n) ≡ natural n
unfolding text_of_nat digits_from
parse_int-text_of_nat n =
    parse_int-digits (digits_onto (suc n) n "")
      (digits_onto-StartsWithDigit (suc n) n "" (omega arith))
    ∙ ap positive (digits_from-digits_onto (suc n) n "" (omega arith))
