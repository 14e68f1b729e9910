-- ===== src/Table/Source/Columns.antt =====
-- Sorting by one column that holds integers and missing values.
use mathlib.Core.List.{Perm}
use enterprise_platform.Common.{
  Bool, true, false, Option, none, some, List, [], ◌∷◌, ◌≡◌, refl, arith, if◌then◌else◌, String,
  ◌==◌, ◌&&◌, ◌⊎◌, inl, inr, filter, ℤ, pos, negsuc, le_int, ◌-ℤ◌,
}
use enterprise_platform.Table.Values.{
  Value, undefined, null, nan, text, number, flag, date, array, object, Host, is_nullish, int_eq,
  read_nested,
}
use enterprise_platform.Table.Types.{Direction, asc, desc, SortState}
use enterprise_platform.Table.Source.{
  stays, directed, is_zero, compare_unknown, compare_rows, apply_sort,
}
use enterprise_platform.Table.Source.Sorting.{
  AllTrue, IsSortedBy, sort_by-Perm, filter-sort_by, sort_by-IsSortedBy,
}

-- The integer in a cell.
abbrev pub key_of : Value → Option ℤ
key_of (number n) = some n
key_of _ = none

abbrev pub is_numeric : Value → Bool
is_numeric (number n) = true
is_numeric v = is_nullish v

-- A missing value stands before every number.
abbrev pub key_le : Option ℤ → Option ℤ → Bool
key_le none k = true
key_le (some m) none = false
key_le (some m) (some n) = le_int m n

abbrev pub key_eq : Option ℤ → Option ℤ → Bool
key_eq none none = true
key_eq (some m) (some n) = int_eq m n
key_eq _ _ = false

abbrev pub ordered : Direction → Option ℤ → Option ℤ → Bool
ordered asc j k = key_le j k
ordered desc j k = key_le k j

abbrev difference : Option ℤ → Option ℤ → ℤ
difference none none = pos 0
difference none (some n) = negsuc 0
difference (some m) none = pos 1
difference (some m) (some n) = m -ℤ n

numeric_form :
    (v : Value)
    → is_numeric v ≡ true
    → ((is_nullish v ≡ true) × (key_of v ≡ none)) ⊎ ((n : ℤ) × (v ≡ number n))
numeric_form undefined h = inl (refl, refl)
numeric_form null h = inl (refl, refl)
numeric_form nan h = cc
numeric_form (text s) h = cc
numeric_form (number n) h = inr (n, refl)
numeric_form (flag b) h = cc
numeric_form (date ref time) h = cc
numeric_form (array ref xs) h = cc
numeric_form (object ref fields) h = cc

compare_numbers :
    (host : Host) (v w : Value)
    → is_numeric v ≡ true
    → is_numeric w ≡ true
    → compare_unknown host v w ≡ some (difference (key_of v) (key_of w))
unfolding compare_unknown
compare_numbers host v w hv hw = elim (numeric_form v hv) [
  | inl (a, k) ↦ elim (numeric_form w hw) [
    | inl (b, l) ↦ rw (a, b, k, l) refl
    | inr (n, e) ↦ rw (a, k, e) refl
  ]
  | inr (m, e) ↦ elim (numeric_form w hw) [
    | inl (b, l) ↦ rw (e, b, l) refl
    | inr (n, e') ↦ rw (e, e') refl
  ]
]

stays-difference :
    (dir : Direction) (j k : Option ℤ)
    → stays (
        if is_zero (some (difference j k))
        then some (pos 0)
        else directed dir (some (difference j k)))
      ≡ ordered dir j k
stays-difference asc none none = refl
stays-difference asc none (some n) = refl
stays-difference asc (some n) none = refl
stays-difference asc (some (pos m)) (some (pos n)) = ground arith
stays-difference asc (some (pos m)) (some (negsuc n)) = ground arith
stays-difference asc (some (negsuc m)) (some (pos n)) = ground arith
stays-difference asc (some (negsuc m)) (some (negsuc n)) = ground arith
stays-difference desc none none = refl
stays-difference desc none (some n) = refl
stays-difference desc (some n) none = refl
stays-difference desc (some (pos m)) (some (pos n)) = ground arith
stays-difference desc (some (pos m)) (some (negsuc n)) = ground arith
stays-difference desc (some (negsuc m)) (some (pos n)) = ground arith
stays-difference desc (some (negsuc m)) (some (negsuc n)) = ground arith

le_int_total : (m n : ℤ) → le_int m n ≡ false → le_int n m ≡ true
le_int_total m n h = ground arith

le_int_trans : (a b c : ℤ) → le_int a b ≡ true → le_int b c ≡ true → le_int a c ≡ true
le_int_trans a b c h k = ground arith

ordered_total :
    (dir : Direction) (j k : Option ℤ) → ordered dir j k ≡ false → ordered dir k j ≡ true
ordered_total asc none none h = cc
ordered_total asc none (some n) h = cc
ordered_total asc (some m) none h = refl
ordered_total asc (some m) (some n) h = le_int_total m n h
ordered_total desc none none h = cc
ordered_total desc none (some n) h = refl
ordered_total desc (some m) none h = cc
ordered_total desc (some m) (some n) h = le_int_total n m h

key_le_trans : (i j k : Option ℤ) → key_le i j ≡ true → key_le j k ≡ true → key_le i k ≡ true
key_le_trans none j k h h' = refl
key_le_trans (some a) none k h h' = cc
key_le_trans (some a) (some b) none h h' = cc
key_le_trans (some a) (some b) (some c) h h' = le_int_trans a b c h h'

ordered_trans :
    (dir : Direction) (i j k : Option ℤ)
    → ordered dir i j ≡ true
    → ordered dir j k ≡ true
    → ordered dir i k ≡ true
ordered_trans asc i j k h h' = key_le_trans i j k h h'
ordered_trans desc i j k h h' = key_le_trans k j i h' h

key_eq-ordered :
    (dir : Direction) (i j k : Option ℤ)
    → key_eq i k ≡ true
    → key_eq j k ≡ true
    → ordered dir i j ≡ true
key_eq-ordered asc none none none h h' = refl
key_eq-ordered asc none (some b) none h h' = refl
key_eq-ordered asc none j (some c) h h' = cc
key_eq-ordered asc (some a) j none h h' = cc
key_eq-ordered asc (some a) none (some c) h h' = cc
key_eq-ordered asc (some a) (some b) (some c) h h' = ground arith
key_eq-ordered desc none none none h h' = refl
key_eq-ordered desc none (some b) none h h' = cc
key_eq-ordered desc none j (some c) h h' = cc
key_eq-ordered desc (some a) j none h h' = cc
key_eq-ordered desc (some a) none (some c) h h' = cc
key_eq-ordered desc (some a) (some b) (some c) h h' = ground arith

abbrev pub by_column : String → Direction → List SortState
by_column name dir = record { field = name; direction = some dir } ∷ []

abbrev pub cell_key : String → Value → Option ℤ
cell_key name row = key_of (read_nested row name)

module _ (host : Host) (name : String) (dir : Direction) (named : (name == "") ≡ false) where
  compare_rows-ordered :
      (a b : Value)
      → is_numeric (read_nested a name) ≡ true
      → is_numeric (read_nested b name) ≡ true
      → stays (compare_rows host (by_column name dir) a b)
        ≡ ordered dir (cell_key name a) (cell_key name b)
  unfolding compare_rows
  compare_rows-ordered a b ha hb =
      rw (named, compare_numbers host (read_nested a name) (read_nested b name) ha hb)
        (stays-difference dir (cell_key name a) (cell_key name b))

  -- Sorting by one column whose cells all hold an integer or nothing, in either direction, gives
  -- the same rows in the order of that direction, an empty cell counting as less than every
  -- integer, and the rows whose cells hold the same keep the order that they had.
  pub apply_sort-column :
      (rows : List Value)
      → AllTrue (λ row. is_numeric (read_nested row name)) rows
      → Perm (apply_sort host rows (by_column name dir)) rows
        × (IsSortedBy
              (λ a b. ordered dir (cell_key name a) (cell_key name b))
              (apply_sort host rows (by_column name dir))
            × ((k : Option ℤ)
                → filter
                    (λ row. is_numeric (read_nested row name) && key_eq (cell_key name row) k)
                    (apply_sort host rows (by_column name dir))
                  ≡ filter
                      (λ row. is_numeric (read_nested row name) && key_eq (cell_key name row) k)
                      rows))
  unfolding apply_sort
  apply_sort-column rows fit = (
    sort_by-Perm (compare_rows host (by_column name dir)) rows,
    (
      sort_by-IsSortedBy (compare_rows host (by_column name dir))
          (λ a b. ordered dir (cell_key name a) (cell_key name b))
          (λ row. is_numeric (read_nested row name)) compare_rows-ordered
          (λ a b. ordered_total dir (cell_key name a) (cell_key name b))
          (λ a b c. ordered_trans dir (cell_key name a) (cell_key name b) (cell_key name c)) rows
          fit,
      λ k.
          filter-sort_by (compare_rows host (by_column name dir))
            (λ row. is_numeric (read_nested row name) && key_eq (cell_key name row) k)
            (λ a b ha hb. ground (
              arith,
              compare_rows-ordered a b,
              key_eq-ordered dir (cell_key name a) (cell_key name b) k,
            ))
            rows,
    ),
  )
