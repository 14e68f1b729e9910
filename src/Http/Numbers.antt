-- ===== src/Http/Numbers.antt =====
-- `Number.parseInt(text, 10)`: white space, a sign, and the longest run of digits. The numbers are
-- exact, as they are in the source below 2 ^ 53.
pub mod Digits
use Prim.Native.Char.{Char, code}
use Prim.Native.String.{String, [], ◌∷◌}
use enterprise_platform.Common.{
  ℕ, ◌+◌, ◌*◌, ◌-◌, Bool, ◌&&◌, Option, none, some, if◌then◌else◌, is_space, leb, nat_eq,
}

pub data Parsed : Type 0 where
  not_a_number : Parsed
  natural negative : ℕ → Parsed

abbrev is_digit : Char → Bool
is_digit c = leb b'0' (code c) && leb (code c) b'9'

abbrev shift : Option ℕ → ℕ
shift none = 0
shift (some n) = n * 10

-- The digits read so far, `none` before the first.
digits_from : Option ℕ → String → Option ℕ
digits_from acc [] = acc
digits_from acc (c ∷ s) =
    let rest = digits_from (some (shift acc + (code c - b'0'))) s in
    if is_digit c then rest else acc

abbrev positive : Option ℕ → Parsed
positive none = not_a_number
positive (some n) = natural n

abbrev negated : Option ℕ → Parsed
negated none = not_a_number
negated (some n) = negative n

-- Behind the white space: an optional sign.
signed : String → Parsed
unfolding digits_from
signed [] = not_a_number
signed (c ∷ s) =
    if nat_eq (code c) b'-'
    then negated (digits_from none s)
    else if nat_eq (code c) b'+'
    then positive (digits_from none s)
    else positive (digits_from none (c ∷ s))

unfoldable pub parse_int : String → Parsed
unfolding signed
parse_int [] = not_a_number
parse_int (c ∷ s) = let rest = parse_int s in if is_space c then rest else signed (c ∷ s)
