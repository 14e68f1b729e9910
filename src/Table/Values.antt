-- ===== src/Table/Values.antt =====
-- JavaScript values as the data table of app/shared/components/dph meets them: `unknown` cells,
-- `String(x)`, `Number(x)`, `===`, and `readNested` of data-table/data-source.ts.
-- Numbers are integers or NaN. An object, an array and a Date carry their identity, a number.
-- `in` sees an object's own properties, and an array's indices and `length`.
use enterprise_platform.Common.{
  ℕ, suc, String, Bool, true, false, ◌&&◌, Option, none, some, List, [], ◌∷◌, if◌then◌else◌, ◌≡◌,
  refl, ◌==◌, nat_eq, ℤ, pos, pos_part, neg_part, text_of_nat, text_of_int, split_on, join_with,
}

mutual
  pub data Value : Type 0 where
    undefined null nan : Value
    text : String → Value
    number : ℤ → Value
    flag : Bool → Value
    date : ℕ → Option ℤ → Value
    array : ℕ → Items → Value
    object : ℕ → Fields → Value

  pub data Items : Type 0 where
    nil : Items
    cons : Value → Items → Items

  pub data Fields : Type 0 where
    end : Fields
    prop : String → Value → Fields → Fields

-- The browser's part of the conversions: what a text denotes as a number and as a date, how a date
-- is written and which local day it falls on, and the collation of
-- `localeCompare(b, undefined, { numeric: true, sensitivity: 'base' })`.
pub record Host : Type 0 where
  pub number_of : String → Option ℤ
  pub time_of : String → Option ℤ
  pub date_text : Option ℤ → String
  pub year_of : ℤ → ℤ
  pub month_of : ℤ → ℕ
  pub date_of : ℤ → ℕ
  pub locale_compare : String → String → ℤ

-- `x == null`
abbrev pub is_nullish : Value → Bool
is_nullish undefined = true
is_nullish null = true
is_nullish _ = false

-- `String(x)`; inside an array, `undefined` and `null` are written as nothing.
unfoldable mutual
  unfolding text_of_int

  pub to_text : Host → Value → String
  to_text host undefined = "undefined"
  to_text host null = "null"
  to_text host nan = "NaN"
  to_text host (text s) = s
  to_text host (number n) = text_of_int n
  to_text host (flag true) = "true"
  to_text host (flag false) = "false"
  to_text host (date ref time) = Host.date_text host time
  to_text host (array ref xs) = join_with "," (item_texts host xs)
  to_text host (object ref fields) = "[object Object]"

  pub item_texts : Host → Items → List String
  item_texts host nil = []
  item_texts host (cons undefined xs) = "" ∷ item_texts host xs
  item_texts host (cons null xs) = "" ∷ item_texts host xs
  item_texts host (cons x xs) = to_text host x ∷ item_texts host xs

-- `Number(x)`, none for NaN.
unfoldable pub to_number : Host → Value → Option ℤ
unfolding to_text
to_number host null = some (pos 0)
to_number host (text s) = Host.number_of host s
to_number host (number n) = some n
to_number host (flag true) = some (pos 1)
to_number host (flag false) = some (pos 0)
to_number host (date ref time) = time
to_number host (array ref xs) = Host.number_of host (to_text host (array ref xs))
to_number host _ = none

abbrev pub int_eq : ℤ → ℤ → Bool
int_eq a b = nat_eq (pos_part a) (pos_part b) && nat_eq (neg_part a) (neg_part b)

abbrev flag_eq : Bool → Bool → Bool
flag_eq true b = b
flag_eq false true = false
flag_eq false false = true

-- `x === y`
abbrev pub strict_eq : Value → Value → Bool
strict_eq undefined undefined = true
strict_eq null null = true
strict_eq (text s) (text t) = s == t
strict_eq (number m) (number n) = int_eq m n
strict_eq (flag a) (flag b) = flag_eq a b
strict_eq (date r _) (date q _) = nat_eq r q
strict_eq (array r _) (array q _) = nat_eq r q
strict_eq (object r _) (object q _) = nat_eq r q
strict_eq _ _ = false

-- `Object.values(x)`
unfoldable pub field_values : Fields → List Value
field_values end = []
field_values (prop k v fields) = v ∷ field_values fields

unfoldable pub item_list : Items → List Value
item_list nil = []
item_list (cons x xs) = x ∷ item_list xs

unfoldable pub field_at : String → Fields → Option Value
field_at part end = none
field_at part (prop k v fields) = if k == part then some v else field_at part fields

-- The item behind an index, the first of the items having the index `i`.
unfoldable pub item_at : ℕ → String → Items → Option Value
unfolding text_of_nat
item_at i part nil = if part == "length" then some (number (pos i)) else none
item_at i part (cons x xs) = if text_of_nat i == part then some x else item_at (suc i) part xs

-- `acc && typeof acc === 'object' && part in acc ? acc[part] : undefined`
unfoldable pub member : Value → String → Value
unfolding field_at item_at
member (array ref xs) part = elim (item_at 0 part xs) [ none ↦ undefined | some v ↦ v ]
member (object ref fields) part = elim (field_at part fields) [ none ↦ undefined | some v ↦ v ]
member _ part = undefined

-- `parts.reduce(…, obj)`
unfoldable pub member_path : Value → List String → Value
unfolding member
member_path acc [] = acc
member_path acc (part ∷ parts) = member_path (member acc part) parts

unfoldable pub read_nested : Value → String → Value
unfolding member_path split_on
read_nested obj path = member_path obj (split_on b'.' path)

nested : Value
nested =
    object 0
      (prop "a" (array 1 (cons null (cons (object 2 (prop "b" (number (pos 7)) end)) nil))) end)

nested_b : read_nested nested "a.1.b" ≡ number (pos 7)
unfolding nested read_nested
nested_b = refl
