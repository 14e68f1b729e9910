-- ===== src/Table/Source/Sorting.antt =====
-- Laws of the stable insertion sort: it keeps the rows, orders them, and leaves equal rows where
-- they stand to one another.
use mathlib.Core.List.Perm
use mathlib.Core.List.{Perm}
use enterprise_platform.Common.{
  Bool, true, false, Option, List, [], ◌∷◌, ◌≡◌, refl, arith, filter, ℤ, Bool-cases, inl, inr,
}
use enterprise_platform.Table.Source.{stays, insert_sorted, sort_by}

module _ {ℓ} {A : Type ℓ} (compare : A → A → Option ℤ) where
  insert_sorted-Perm : (x : A) (ys : List A) → Perm (insert_sorted compare x ys) (x ∷ ys)
  unfolding insert_sorted
  insert_sorted-Perm x [] = Perm.refl (x ∷ [])
  insert_sorted-Perm x (y ∷ ys) = elim (Bool-cases (stays (compare x y))) [
    | inl e ↦ rw e (Perm.refl (x ∷ y ∷ ys))
    | inr e ↦ rw e (Perm.trans (Perm.cons y (insert_sorted-Perm x ys)) (Perm.swap x y ys))
  ]

  pub sort_by-Perm : (xs : List A) → Perm (sort_by compare xs) xs
  unfolding sort_by
  sort_by-Perm [] = Perm.refl []
  sort_by-Perm (x ∷ xs) =
      Perm.trans (insert_sorted-Perm x (sort_by compare xs)) (Perm.cons x (sort_by-Perm xs))

  -- Rows that the comparison lets stand in any order.
  module _ (p : A → Bool)
      (tied : (x y : A) → p x ≡ true → p y ≡ true → stays (compare x y) ≡ true) where
    filter-insert_sorted :
        (x : A) (ys : List A) → filter p (insert_sorted compare x ys) ≡ filter p (x ∷ ys)
    unfolding insert_sorted
    filter-insert_sorted x [] = refl
    filter-insert_sorted x (y ∷ ys) = ground (arith, filter-insert_sorted x ys, tied x y)

    pub filter-sort_by : (xs : List A) → filter p (sort_by compare xs) ≡ filter p xs
    unfolding sort_by
    filter-sort_by [] = refl
    filter-sort_by (x ∷ xs) =
        ground (arith, filter-sort_by xs, filter-insert_sorted x (sort_by compare xs))

abbrev pub AllTrue {ℓ} : {A : Type ℓ} → (A → Bool) → List A → Type 0
AllTrue p [] = Unit
AllTrue p (x ∷ xs) = (p x ≡ true) × AllTrue p xs

-- Each row is at most every later one.
abbrev pub IsSortedBy {ℓ} : {A : Type ℓ} → (A → A → Bool) → List A → Type 0
IsSortedBy le [] = Unit
IsSortedBy le (x ∷ xs) = AllTrue (le x) xs × IsSortedBy le xs

pub AllTrue-imp {ℓ} :
    {A : Type ℓ} (p q : A → Bool)
    → ((x : A) → p x ≡ true → q x ≡ true)
    → (xs : List A) → AllTrue p xs
    → AllTrue q xs
AllTrue-imp p q h [] all = tt
AllTrue-imp p q h (x ∷ xs) (first, all) = (h x first, AllTrue-imp p q h xs all)

module _ {ℓ} {A : Type ℓ} (compare : A → A → Option ℤ) (le : A → A → Bool) (fits : A → Bool)
    (agree : (x y : A) → fits x ≡ true → fits y ≡ true → stays (compare x y) ≡ le x y)
    (total : (x y : A) → le x y ≡ false → le y x ≡ true)
    (le_trans : (x y z : A) → le x y ≡ true → le y z ≡ true → le x z ≡ true) where
  insert_sorted-AllTrue :
      (p : A → Bool) (x : A) (ys : List A)
      → p x ≡ true
      → AllTrue p ys
      → AllTrue p (insert_sorted compare x ys)
  unfolding insert_sorted
  insert_sorted-AllTrue p x [] h all = (h, tt)
  insert_sorted-AllTrue p x (y ∷ ys) h (first, all) = elim (Bool-cases (stays (compare x y))) [
    | inl e ↦ rw e (h, (first, all))
    | inr e ↦ rw e (first, insert_sorted-AllTrue p x ys h all)
  ]

  pub sort_by-AllTrue : (p : A → Bool) (xs : List A) → AllTrue p xs → AllTrue p (sort_by compare xs)
  unfolding sort_by
  sort_by-AllTrue p [] all = tt
  sort_by-AllTrue p (x ∷ xs) (first, all) =
      insert_sorted-AllTrue p x (sort_by compare xs) first (sort_by-AllTrue p xs all)

  insert_sorted-IsSortedBy :
      (x : A) (ys : List A)
      → fits x ≡ true
      → AllTrue fits ys
      → IsSortedBy le ys
      → IsSortedBy le (insert_sorted compare x ys)
  unfolding insert_sorted
  insert_sorted-IsSortedBy x [] h fit sorted = (tt, tt)
  insert_sorted-IsSortedBy x (y ∷ ys) h (fit, fits_ys) (first, sorted) =
      elim (Bool-cases (stays (compare x y))) [
        | inl e ↦ rw e (
            let x_le : le x y ≡ true = ground (arith, agree x y) in
            (
              (x_le, AllTrue-imp (le y) (le x) (λ z. le_trans x y z x_le) ys first),
              (first, sorted),
            ))
        | inr e ↦ rw e (
          insert_sorted-AllTrue (le y) x ys (ground (arith, agree x y, total x y)) first,
          insert_sorted-IsSortedBy x ys h fits_ys sorted,
        )
      ]

  pub sort_by-IsSortedBy : (xs : List A) → AllTrue fits xs → IsSortedBy le (sort_by compare xs)
  unfolding sort_by
  sort_by-IsSortedBy [] fit = tt
  sort_by-IsSortedBy (x ∷ xs) (first, fit) =
      insert_sorted-IsSortedBy x (sort_by compare xs) first (sort_by-AllTrue fits xs fit)
        (sort_by-IsSortedBy xs fit)
