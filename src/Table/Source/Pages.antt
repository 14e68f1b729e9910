-- ===== src/Table/Source/Pages.antt =====
-- The pages of `LocalDataSource.load` together, and what stands on one of them.
use enterprise_platform.Common.{
  ℕ, zero, suc, ◌+◌, ◌*◌, ◌≤◌, Bool, true, ◌&&◌, Option, none, some, List, [], ◌∷◌, ◌++◌, ◌≡◌, refl,
  sym, ap, ◌∙◌, arith, length, all, filter, any, if◌then◌else◌, Bool-cases, inl, inr, ℤ, String,
  ◌==◌, trim, lower,
}
use native.Mathlib.Numerals.{unary_clauses}
use enterprise_platform.Table.Values.{Value, Host}
use enterprise_platform.Table.Types.{TableQuery, ColumnFilter}
use enterprise_platform.Table.Source.{
  take, drop, load, page_rows, apply_sort, apply_filters_and_global, filter_rows, search_rows,
  match_filter, mentions, row_values,
}

module _ {ℓ} {A : Type ℓ} where
  take-append-drop : (m n : ℕ) (xs : List A) → take m xs ++ take n (drop m xs) ≡ take (m + n) xs
  unfolding take drop
  take-append-drop zero n xs =
      let none_first : n ≡ 0 + n = omega arith in ap (λ k. take k xs) none_first
  take-append-drop (suc m) zero [] = simp unary_clauses refl
  take-append-drop (suc m) (suc n) [] = simp unary_clauses refl
  take-append-drop (suc m) n (x ∷ xs) =
      let shifted : suc (m + n) ≡ suc m + n = omega arith in
      ap (λ ys. x ∷ ys) (take-append-drop m n xs) ∙ ap (λ k. take k (x ∷ xs)) shifted

  take_whole : (n : ℕ) (xs : List A) → length xs ≤ n → take n xs ≡ xs
  unfolding take
  take_whole zero [] h = refl
  take_whole zero (x ∷ xs) h = ground arith
  take_whole (suc n) [] h = refl
  take_whole (suc n) (x ∷ xs) h = ap (λ ys. x ∷ ys) (take_whole n xs (omega (arith, h)))

  length-take-le : (n : ℕ) (xs : List A) → length (take n xs) ≤ n
  unfolding take
  length-take-le zero xs = omega arith
  length-take-le (suc n) [] = omega arith
  length-take-le (suc n) (x ∷ xs) = omega (arith, length-take-le n xs)

  filter-true : (xs : List A) → filter (λ x. true) xs ≡ xs
  filter-true [] = refl
  filter-true (x ∷ xs) = ap (λ ys. x ∷ ys) (filter-true xs)

  filter-filter :
      (p q : A → Bool) (xs : List A) → filter q (filter p xs) ≡ filter (λ x. p x && q x) xs
  filter-filter p q [] = refl
  filter-filter p q (x ∷ xs) = ground (arith, filter-filter p q xs)

  filter-ext : (p q : A → Bool) → ((x : A) → p x ≡ q x) → (xs : List A) → filter p xs ≡ filter q xs
  filter-ext p q h [] = refl
  filter-ext p q h (x ∷ xs) = ground (arith, filter-ext p q h xs, h x)

-- One of the row's values holds the search text.
abbrev pub found_by : Host → Option String → Value → Bool
found_by host none row = true
found_by host (some global) row =
    if trim global == "" then true else any (mentions host (lower (trim global))) (row_values row)

-- A row passes every column filter, and the search finds it.
abbrev pub passes : Host → ℤ → TableQuery → Value → Bool
passes host now query row =
    all (match_filter host now row) query.filters && found_by host query.global_filter row

-- The rows of the pages 1 to n, one page behind the other.
abbrev pub first_pages : Host → ℤ → List Value → TableQuery → ℕ → List Value
first_pages host now rows query zero = []
first_pages host now rows query (suc n) =
    first_pages host now rows query n ++ (load host now rows (record query { page = suc n })).rows

abbrev pub all_rows : Host → ℤ → List Value → TableQuery → List Value
all_rows host now rows query = apply_sort host (filter (passes host now query) rows) query.sort

module _ (host : Host) (now : ℤ) (rows : List Value) (query : TableQuery) where
  filter_rows_lem :
      (fs : List ColumnFilter)
      → filter_rows host now fs rows ≡ filter (λ row. all (match_filter host now row) fs) rows
  unfolding filter_rows
  filter_rows_lem [] = sym (filter-true rows)
  filter_rows_lem (f ∷ fs) = refl

  search_rows_lem :
      (global : Option String) (xs : List Value)
      → search_rows host global xs ≡ filter (found_by host global) xs
  unfolding search_rows
  search_rows_lem none xs = sym (filter-true xs)
  search_rows_lem (some global) xs = elim (Bool-cases (trim global == "")) [
    | inl e ↦ rw e (
        sym (
          filter-ext (found_by host (some global)) (λ row. true) (λ row. rw e refl) xs
          ∙ filter-true xs))
    | inr e ↦ rw e (
        filter-ext (λ row. any (mentions host (lower (trim global))) (row_values row))
          (found_by host (some global)) (λ row. rw e refl) xs)
  ]

  apply_filters_and_global_lem :
      apply_filters_and_global host now rows query ≡ filter (passes host now query) rows
  unfolding apply_filters_and_global
  apply_filters_and_global_lem = rw (filter_rows_lem query.filters) (
      search_rows_lem query.global_filter
        (filter (λ row. all (match_filter host now row) query.filters) rows)
      ∙ filter-filter (λ row. all (match_filter host now row) query.filters)
          (found_by host query.global_filter) rows)

  first_pages-take :
      (n : ℕ)
      → first_pages host now rows query n
        ≡ take (n * query.page_size) (all_rows host now rows query)
  unfolding load page_rows take
  first_pages-take zero =
      let nothing : 0 ≡ 0 * query.page_size = omega arith in
      ap (λ k. take k (all_rows host now rows query)) nothing
  first_pages-take (suc n) =
      let more : n * query.page_size + query.page_size ≡ suc n * query.page_size = omega arith in
      rw (first_pages-take n, apply_filters_and_global_lem)
        (take-append-drop (n * query.page_size) query.page_size (all_rows host now rows query)
          ∙ ap (λ k. take k (all_rows host now rows query)) more)

  -- The pages from the first to any page behind which no row is left give together, in order,
  -- exactly the rows that pass the filters and the search, sorted; each page says the same total,
  -- which is their number, and no page holds more rows than the page size.
  pub first_pages-all_rows :
      (n : ℕ)
      → length (all_rows host now rows query) ≤ n * query.page_size
      → (first_pages host now rows query n ≡ (all_rows host now rows query))
        × ((k : ℕ)
            → ((load host now rows (record query { page = suc k })).total
                ≡ length (first_pages host now rows query n))
              × (length (load host now rows (record query { page = suc k })).rows
                  ≤ query.page_size))
  unfolding load page_rows
  first_pages-all_rows n h = rw apply_filters_and_global_lem (
      let whole : first_pages host now rows query n ≡ (all_rows host now rows query) =
        first_pages-take n ∙ take_whole (n * query.page_size) (all_rows host now rows query) h in
      (
        whole,
        λ k. (
          ap length (sym whole),
          length-take-le query.page_size
              (drop (k * query.page_size) (all_rows host now rows query)),
        ),
      ))
