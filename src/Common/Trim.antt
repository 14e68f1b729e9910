-- ===== src/Common/Trim.antt =====
-- Parts of texts: white space at the ends, prefixes, suffixes and infixes, splitting and joining.
use Prim.Native.Nat.{ℕ}
use Prim.Native.Char.{Char, code}
use Prim.Native.String
use Prim.Native.String.{String}
use mathlib.Core.Path.{◌≡◌, refl}
use mathlib.Core.Bool.{Bool, true, false, ◌&&◌, ◌||◌, not}
use mathlib.Core.Logic.{inl, inr}
use mathlib.Core.List.{List, [], ◌∷◌}
use native.Mathlib.Omega.{arith}
use enterprise_platform.Common.Tests.{Bool-cases, leb, nat_eq, if◌then◌else◌}

infixr 65 ◌⊕◌
abbrev pub ◌⊕◌ : String → String → String
a ⊕ b = String.◌++◌ a b

-- Tab, line feed, vertical tab, form feed, carriage return, space and no-break space.
abbrev pub is_space : Char → Bool
is_space c = (leb 9 (code c) && leb (code c) 13) || (nat_eq (code c) 32 || nat_eq (code c) 160)

unfoldable pub trim_start : String → String
trim_start String.[] = String.[]
trim_start (String.◌∷◌ c s) = if is_space c then trim_start s else String.◌∷◌ c s

-- A character in front of a text that has no space at its end.
abbrev cons_trimmed : Char → String → String
cons_trimmed c String.[] = if is_space c then String.[] else String.◌∷◌ c String.[]
cons_trimmed c (String.◌∷◌ d s) = String.◌∷◌ c (String.◌∷◌ d s)

unfoldable pub trim_end : String → String
trim_end String.[] = String.[]
trim_end (String.◌∷◌ c s) = cons_trimmed c (trim_end s)

-- `s.trim()`
unfoldable pub trim : String → String
unfolding trim_start trim_end
trim s = trim_end (trim_start s)

-- `s.startsWith(t)`
unfoldable pub has_prefix : String → String → Bool
has_prefix String.[] s = true
has_prefix (String.◌∷◌ d t) String.[] = false
has_prefix (String.◌∷◌ d t) (String.◌∷◌ c s) = nat_eq (code d) (code c) && has_prefix t s

-- `s.includes(t)`
unfoldable pub has_infix : String → String → Bool
unfolding has_prefix
has_infix t String.[] = has_prefix t String.[]
has_infix t (String.◌∷◌ c s) = has_prefix t (String.◌∷◌ c s) || has_infix t s

unfoldable pub reverse_onto : String → String → String
reverse_onto String.[] acc = acc
reverse_onto (String.◌∷◌ c s) acc = reverse_onto s (String.◌∷◌ c acc)

-- `s.endsWith(t)`
unfoldable pub has_suffix : String → String → Bool
unfolding has_prefix reverse_onto
has_suffix t s = has_prefix (reverse_onto t "") (reverse_onto s "")

-- A character in front of the first part.
abbrev onto_first : Char → List String → List String
onto_first c [] = String.◌∷◌ c String.[] ∷ []
onto_first c (p ∷ ps) = String.◌∷◌ c p ∷ ps

-- `s.split(c)` for a separator of one character
unfoldable pub split_on : ℕ → String → List String
split_on sep String.[] = String.[] ∷ []
split_on sep (String.◌∷◌ c s) =
    if nat_eq (code c) sep then String.[] ∷ split_on sep s else onto_first c (split_on sep s)

-- `parts.join(sep)`
unfoldable pub join_with : String → List String → String
join_with sep [] = ""
join_with sep (p ∷ []) = p
join_with sep (p ∷ q ∷ ps) = p ⊕ sep ⊕ join_with sep (q ∷ ps)

starts_trimmed : String → Bool
starts_trimmed String.[] = true
starts_trimmed (String.◌∷◌ c s) = not (is_space c)

trim_start_idem : (s : String) → trim_start (trim_start s) ≡ trim_start s
unfolding trim_start
trim_start_idem String.[] = refl
trim_start_idem (String.◌∷◌ c s) = ground (arith, trim_start_idem s)

cons_trimmed_idem :
    (c : Char) (s : String) → trim_end s ≡ s → trim_end (cons_trimmed c s) ≡ cons_trimmed c s
unfolding trim_end
cons_trimmed_idem c String.[] h = elim (Bool-cases (is_space c)) [
  | inl e ↦ rw (e) refl
  | inr e ↦ rw (e, e) refl
]
cons_trimmed_idem c (String.◌∷◌ d s) h = ground arith

trim_end_idem : (s : String) → trim_end (trim_end s) ≡ trim_end s
unfolding trim_end
trim_end_idem String.[] = refl
trim_end_idem (String.◌∷◌ c s) = cons_trimmed_idem c (trim_end s) (trim_end_idem s)

starts-trim_start : (s : String) → starts_trimmed (trim_start s) ≡ true
unfolding trim_start starts_trimmed
starts-trim_start String.[] = refl
starts-trim_start (String.◌∷◌ c s) = ground (arith, starts-trim_start s)

starts-cons_trimmed :
    (c : Char) (s : String) → is_space c ≡ false → starts_trimmed (cons_trimmed c s) ≡ true
unfolding starts_trimmed
starts-cons_trimmed c String.[] h = ground arith
starts-cons_trimmed c (String.◌∷◌ d s) h = ground arith

starts-trim_end : (s : String) → starts_trimmed s ≡ true → starts_trimmed (trim_end s) ≡ true
unfolding trim_end starts_trimmed
starts-trim_end String.[] h = refl
starts-trim_end (String.◌∷◌ c s) h = starts-cons_trimmed c (trim_end s) (ground arith)

trim_start_stays : (s : String) → starts_trimmed s ≡ true → trim_start s ≡ s
unfolding trim_start starts_trimmed
trim_start_stays String.[] h = refl
trim_start_stays (String.◌∷◌ c s) h = ground arith

pub trim_idem : (s : String) → trim (trim s) ≡ trim s
unfolding trim
trim_idem s = ground (
  arith,
  trim_start_stays (trim_end (trim_start s)),
  starts-trim_end (trim_start s),
  starts-trim_start s,
  trim_end_idem (trim_start s),
)
