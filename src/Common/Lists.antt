-- ===== src/Common/Lists.antt =====
-- Lists of ids as the stores use them: membership, exclusion, and lists with no repetition.
use Prim.Native.Nat.{ℕ, suc, ◌+◌}
use Prim.Native.String.{String}
use mathlib.Core.Path.{◌≡◌, refl, sym, ◌∙◌}
use mathlib.Core.Logic.{◌≢◌}
use mathlib.Core.Bool.{Bool, true, false, ◌||◌, ◌&&◌}
use mathlib.Core.List.{List, [], ◌∷◌, ◌++◌}
use native.Mathlib.Omega.{arith}
use text.Mathlib.Text.{◌==◌}
use text.Mathlib.TextEquality.{eq_iff}
use enterprise_platform.Common.Tests.{if◌then◌else◌}

module _ {ℓ} {A : Type ℓ} where
  abbrev pub length : List A → ℕ
  length [] = 0
  length (x ∷ xs) = suc (length xs)

  -- `xs.filter(p)`
  abbrev pub filter : (A → Bool) → List A → List A
  filter p [] = []
  filter p (x ∷ xs) = if p x then x ∷ filter p xs else filter p xs

  -- `xs.some(p)`, `xs.every(p)`
  abbrev pub any : (A → Bool) → List A → Bool
  any p [] = false
  any p (x ∷ xs) = p x || any p xs

  abbrev pub all : (A → Bool) → List A → Bool
  all p [] = true
  all p (x ∷ xs) = p x && all p xs

  pub length-append : (xs ys : List A) → length (xs ++ ys) ≡ length xs + length ys
  length-append [] ys = omega arith
  length-append (x ∷ xs) ys = omega (arith, length-append xs ys)

-- Two texts that the comparison tells apart.
pub differ : (j k : String) → (j == k) ≡ false → j ≢ k
differ j k h e = let clash : false ≡ true = sym h ∙ (eq_iff j k).1 e in cc

-- `ids.includes(id)`
abbrev pub includes : String → List String → Bool
includes k [] = false
includes k (x ∷ xs) = x == k || includes k xs

-- `ids.filter((x) => x !== id)`
abbrev pub exclude : String → List String → List String
exclude k [] = []
exclude k (x ∷ xs) = if x == k then exclude k xs else x ∷ exclude k xs

-- `ids.filter((x) => !ks.has(x))`
abbrev pub exclude_all : List String → List String → List String
exclude_all ks [] = []
exclude_all ks (x ∷ xs) = if includes x ks then exclude_all ks xs else x ∷ exclude_all ks xs

-- No id stands twice.
abbrev pub IsDistinct : List String → Type 0
IsDistinct [] = Unit
IsDistinct (x ∷ xs) = (includes x xs ≡ false) × IsDistinct xs

pub includes-append :
    (k : String) (xs ys : List String) → includes k (xs ++ ys) ≡ (includes k xs || includes k ys)
includes-append k [] ys = refl
includes-append k (x ∷ xs) ys = ground (arith, includes-append k xs ys)

pub includes-exclude :
    (j k : String) (xs : List String)
    → includes j (exclude k xs) ≡ (if k == j then false else includes j xs)
includes-exclude j k [] = ground arith
includes-exclude j k (x ∷ xs) =
    ground (arith, includes-exclude j k xs, eq_iff x k, eq_iff k j, eq_iff x j)

pub includes-exclude_all :
    (j : String) (ks xs : List String)
    → includes j (exclude_all ks xs) ≡ (if includes j ks then false else includes j xs)
includes-exclude_all j ks [] = ground arith
includes-exclude_all j ks (x ∷ xs) = ground (arith, includes-exclude_all j ks xs, eq_iff x j)

pub exclude-IsDistinct : (k : String) (xs : List String) → IsDistinct xs → IsDistinct (exclude k xs)
exclude-IsDistinct k [] d = tt
exclude-IsDistinct k (x ∷ xs) (fresh, d) =
    ground (arith, exclude-IsDistinct k xs d, includes-exclude x k xs)

pub exclude_all-IsDistinct : (ks xs : List String) → IsDistinct xs → IsDistinct (exclude_all ks xs)
exclude_all-IsDistinct ks [] d = tt
exclude_all-IsDistinct ks (x ∷ xs) (fresh, d) =
    ground (arith, exclude_all-IsDistinct ks xs d, includes-exclude_all x ks xs)

pub concat-IsDistinct :
    (k : String) (xs : List String)
    → IsDistinct xs
    → includes k xs ≡ false
    → IsDistinct (xs ++ k ∷ [])
concat-IsDistinct k [] d h = (refl, tt)
concat-IsDistinct k (x ∷ xs) (fresh, d) h =
    ground (arith, concat-IsDistinct k xs d, includes-append x xs (k ∷ []), eq_iff x k, eq_iff k x)
