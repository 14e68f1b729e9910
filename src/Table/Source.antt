-- ===== src/Table/Source.antt =====
-- The in-memory source of app/shared/components/dph/data-table/data-source.ts: the filters, the
-- global search, the sort, the page that `load` returns, and the totals of the footer.
-- `Array.prototype.sort` is a stable insertion sort, which takes a comparison of NaN for zero, as
-- the language does. `now` is the time that `Date.now()` gives, in milliseconds.
pub mod Sorting
pub mod Columns
pub mod Pages
use enterprise_platform.Common.{
  ℕ, zero, suc, ◌+◌, ◌-◌, ◌*◌, String, Bool, true, false, not, ◌&&◌, ◌||◌, Option, none, some, List,
  [], ◌∷◌, map, if◌then◌else◌, ◌==◌, length, filter, any, all, get_or, nat_eq, leb, ℤ, pos, negsuc,
  pos_part, neg_part, sub_ℕ, ◌+ℤ◌, ◌-ℤ◌, lt_int, le_int, lower, trim, has_prefix, has_infix,
  has_suffix,
}
use enterprise_platform.Table.Values.{
  Value, Items, Fields, undefined, null, nan, text, number, flag, date, array, object, nil, cons,
  Host, is_nullish, to_text, to_number, int_eq, strict_eq, field_values, item_list, read_nested,
}
use enterprise_platform.Table.Types.{
  Direction, asc, desc, SortState, FilterOp, contains, not_contains, equals, not_equals,
  starts_with, ends_with, lt, lte, gt, gte, between, before, after, on, date_range, in_last, is,
  is_not, is_in, not_in, is_empty, is_not_empty, FilterValue, ColumnFilter, Aggregator, sum, avg,
  count, min, max, TableQuery, TablePage,
}

-- The helpers `s`, `n` and `d` of `matchOp`.
unfoldable pub searchable : Host → Value → String
unfolding to_text lower
searchable host x = if is_nullish x then "" else lower (to_text host x)

-- `new Date(n).getTime()` for a number: NaN further than 8.64e15 from the epoch.
abbrev time_value : ℤ → Option ℤ
time_value n = if leb (pos_part n + neg_part n) 8640000000000000 then some n else none

unfoldable pub time_of : Host → Value → Option ℤ
time_of host (date ref time) = time
time_of host (text s) = Host.time_of host s
time_of host (number n) = time_value n
time_of host _ = none

-- `a < b`, `a <= b`: false when one of them is NaN.
abbrev pub num_lt : Option ℤ → Option ℤ → Bool
num_lt (some a) (some b) = lt_int a b
num_lt _ _ = false

abbrev pub num_le : Option ℤ → Option ℤ → Bool
num_le (some a) (some b) = le_int a b
num_le _ _ = false

unfoldable pub same_day : Host → Option ℤ → Option ℤ → Bool
same_day host (some a) (some b) =
    (int_eq (Host.year_of host a) (Host.year_of host b)
      && nat_eq (Host.month_of host a) (Host.month_of host b))
    && nat_eq (Host.date_of host a) (Host.date_of host b)
same_day host _ _ = false

-- `Date.now() - days * 86_400_000`
unfoldable pub cutoff : ℤ → Option ℤ → Option ℤ
cutoff now none = none
cutoff now (some days) = some (now -ℤ sub_ℕ (pos_part days * 86400000) (neg_part days * 86400000))

-- `raw == null || raw === '' || (Array.isArray(raw) && raw.length === 0)`
abbrev pub blank : Value → Bool
blank undefined = true
blank null = true
blank (text s) = s == ""
blank (array ref nil) = true
blank _ = false

-- `Array.isArray(value) && value.some((v) => s(raw) === s(v))`, and the negated `some`.
unfoldable pub in_list : Host → Value → Value → Bool
unfolding item_list searchable
in_list host raw (array ref xs) = any (λ v. searchable host raw == searchable host v) (item_list xs)
in_list host raw _ = false

unfoldable pub not_in_list : Host → Value → Value → Bool
unfolding in_list
not_in_list host raw (array ref xs) = not (in_list host raw (array ref xs))
not_in_list host raw _ = false

unfoldable pub match_by : Host → ℤ → FilterOp → Value → Value → Value → Bool
unfolding searchable to_number time_of same_day cutoff in_list not_in_list has_prefix has_infix
    has_suffix
match_by host now contains raw value value2 =
    has_infix (searchable host value) (searchable host raw)
match_by host now not_contains raw value value2 =
    not (has_infix (searchable host value) (searchable host raw))
match_by host now equals raw value value2 = searchable host raw == searchable host value
match_by host now not_equals raw value value2 = not (searchable host raw == searchable host value)
match_by host now starts_with raw value value2 =
    has_prefix (searchable host value) (searchable host raw)
match_by host now ends_with raw value value2 =
    has_suffix (searchable host value) (searchable host raw)
match_by host now lt raw value value2 = num_lt (to_number host raw) (to_number host value)
match_by host now lte raw value value2 = num_le (to_number host raw) (to_number host value)
match_by host now gt raw value value2 = num_lt (to_number host value) (to_number host raw)
match_by host now gte raw value value2 = num_le (to_number host value) (to_number host raw)
match_by host now between raw value value2 =
    num_le (to_number host value) (to_number host raw)
    && num_le (to_number host raw) (to_number host value2)
match_by host now before raw value value2 = num_lt (time_of host raw) (time_of host value)
match_by host now after raw value value2 = num_lt (time_of host value) (time_of host raw)
match_by host now on raw value value2 = same_day host (time_of host raw) (time_of host value)
match_by host now date_range raw value value2 =
    num_le (time_of host value) (time_of host raw)
    && num_le (time_of host raw) (time_of host value2)
match_by host now in_last raw value value2 =
    num_le (cutoff now (to_number host value)) (time_of host raw)
match_by host now is raw value value2 = strict_eq raw value
match_by host now is_not raw value value2 = not (strict_eq raw value)
match_by host now is_in raw value value2 = in_list host raw value
match_by host now not_in raw value value2 = not_in_list host raw value
match_by host now is_empty raw value value2 = blank raw
match_by host now is_not_empty raw value value2 = not (blank raw)

unfoldable pub match_op : Host → ℤ → Value → FilterValue → Bool
unfolding match_by
match_op host now raw fv = match_by host now fv.op raw fv.value fv.value2

unfoldable pub match_filter : Host → ℤ → Value → ColumnFilter → Bool
unfolding match_op read_nested
match_filter host now row f = elim f.value [
  | none ↦ true
  | some fv ↦ match_op host now (read_nested row f.field) fv
]

-- `Object.values(row)`
unfoldable pub row_values : Value → List Value
unfolding field_values item_list
row_values (object ref fields) = field_values fields
row_values (array ref xs) = item_list xs
row_values _ = []

abbrev mentions : Host → String → Value → Bool
mentions host needle v = not (is_nullish v) && has_infix needle (lower (to_text host v))

unfoldable pub search_rows : Host → Option String → List Value → List Value
unfolding row_values has_infix lower to_text trim
search_rows host none rows = rows
search_rows host (some global) rows =
    if trim global == ""
    then rows
    else filter (λ row. any (mentions host (lower (trim global))) (row_values row)) rows

unfoldable pub filter_rows : Host → ℤ → List ColumnFilter → List Value → List Value
unfolding match_filter
filter_rows host now [] rows = rows
filter_rows host now (f ∷ fs) rows = filter (λ row. all (match_filter host now row) (f ∷ fs)) rows

unfoldable pub apply_filters_and_global : Host → ℤ → List Value → TableQuery → List Value
unfolding filter_rows search_rows
apply_filters_and_global host now rows query =
    search_rows host query.global_filter (filter_rows host now query.filters rows)

-- `compareUnknown` behind its tests for null; none is NaN.
unfoldable pub compare_present : Host → Value → Value → Option ℤ
unfolding to_text
compare_present host (number m) (number n) = some (m -ℤ n)
compare_present host (number m) nan = none
compare_present host nan (number n) = none
compare_present host nan nan = none
compare_present host (date r (some s)) (date q (some t)) = some (s -ℤ t)
compare_present host (date r none) (date q t) = none
compare_present host (date r s) (date q none) = none
compare_present host a b = some (Host.locale_compare host (to_text host a) (to_text host b))

unfoldable pub compare_unknown : Host → Value → Value → Option ℤ
unfolding compare_present
compare_unknown host a b =
    if is_nullish a && is_nullish b
    then some (pos 0)
    else if is_nullish a
    then some (negsuc 0)
    else if is_nullish b
    then some (pos 1)
    else compare_present host a b

-- `cmp === 0`, which NaN is not.
abbrev pub is_zero : Option ℤ → Bool
is_zero none = false
is_zero (some n) = int_eq n (pos 0)

-- `s.direction === 'asc' ? cmp : -cmp`
abbrev pub directed : Direction → Option ℤ → Option ℤ
directed asc cmp = cmp
directed desc none = none
directed desc (some n) = some (pos 0 -ℤ n)

-- The comparison by one sort state, and by the rest of them where it decides nothing.
abbrev pub decide_by : Host → SortState → Value → Value → Option ℤ → Option ℤ
decide_by host s a b rest = elim s.direction [
  | none ↦ rest
  | some dir ↦
      (let cmp = compare_unknown host (read_nested a s.field) (read_nested b s.field) in
        if s.field == "" then rest else if is_zero cmp then rest else directed dir cmp)
]

unfoldable pub compare_rows : Host → List SortState → Value → Value → Option ℤ
unfolding compare_unknown read_nested
compare_rows host [] a b = some (pos 0)
compare_rows host (s ∷ sort) a b = decide_by host s a b (compare_rows host sort a b)

-- The comparison lets the first stand before the second: it is at most zero, or NaN.
abbrev pub stays : Option ℤ → Bool
stays none = true
stays (some n) = le_int n (pos 0)

-- `[...rows].sort(compare)`
module _ {ℓ} {A : Type ℓ} where
  unfoldable pub insert_sorted : (A → A → Option ℤ) → A → List A → List A
  insert_sorted compare x [] = x ∷ []
  insert_sorted compare x (y ∷ ys) =
      if stays (compare x y) then x ∷ y ∷ ys else y ∷ insert_sorted compare x ys

  unfoldable pub sort_by : (A → A → Option ℤ) → List A → List A
  unfolding insert_sorted
  sort_by compare [] = []
  sort_by compare (x ∷ xs) = insert_sorted compare x (sort_by compare xs)

  unfoldable pub take : ℕ → List A → List A
  take zero xs = []
  take (suc n) [] = []
  take (suc n) (x ∷ xs) = x ∷ take n xs

  unfoldable pub drop : ℕ → List A → List A
  drop zero xs = xs
  drop (suc n) [] = []
  drop (suc n) (x ∷ xs) = drop n xs

unfoldable pub apply_sort : Host → List Value → List SortState → List Value
unfolding sort_by compare_rows
apply_sort host rows [] = rows
apply_sort host rows (s ∷ sort) = sort_by (compare_rows host (s ∷ sort)) rows

-- `sorted.slice(start, start + pageSize)`; before the first page it is empty.
unfoldable pub page_rows : ℕ → ℕ → List Value → List Value
unfolding take drop
page_rows zero page_size rows = []
page_rows (suc n) page_size rows = take page_size (drop (n * page_size) rows)

-- `LocalDataSource.load`
unfoldable pub load : Host → ℤ → List Value → TableQuery → TablePage
unfolding apply_filters_and_global apply_sort page_rows
load host now rows query =
    let sorted = apply_sort host (apply_filters_and_global host now rows query) query.sort in
    record { rows = page_rows query.page query.page_size sorted; total = length sorted }

-- A total of the footer: an integer, or a sum over the number of its terms.
pub data Total : Type 0 where
  whole : ℤ → Total
  quotient : ℤ → ℕ → Total

unfoldable pub numbers_of : String → List Value → List ℤ
unfolding read_nested
numbers_of name [] = []
numbers_of name (row ∷ rows) =
    let rest = numbers_of name rows in
    elim (read_nested row name) as (λ _. List ℤ) [ number n ↦ n ∷ rest | _ ↦ rest ]

unfoldable pub total_of : List ℤ → ℤ
total_of [] = pos 0
total_of (n ∷ ns) = n +ℤ total_of ns

unfoldable pub least : ℤ → List ℤ → ℤ
least n [] = n
least n (m ∷ ms) = let rest = least m ms in if lt_int rest n then rest else n

unfoldable pub greatest : ℤ → List ℤ → ℤ
greatest n [] = n
greatest n (m ∷ ms) = let rest = greatest m ms in if lt_int n rest then rest else n

-- The aggregates that read the numbers of the column.
abbrev aggregate_numbers : Aggregator → List ℤ → Total
aggregate_numbers kind [] = whole (pos 0)
aggregate_numbers sum (n ∷ ns) = whole (total_of (n ∷ ns))
aggregate_numbers avg (n ∷ ns) = quotient (total_of (n ∷ ns)) (length (n ∷ ns))
aggregate_numbers min (n ∷ ns) = whole (least n ns)
aggregate_numbers max (n ∷ ns) = whole (greatest n ns)
aggregate_numbers count (n ∷ ns) = whole (pos 0)

unfoldable pub aggregate : List Value → String → Aggregator → Total
unfolding numbers_of total_of least greatest
aggregate [] name kind = whole (pos 0)
aggregate (row ∷ rows) name count = whole (pos (length (row ∷ rows)))
aggregate (row ∷ rows) name kind = aggregate_numbers kind (numbers_of name (row ∷ rows))
