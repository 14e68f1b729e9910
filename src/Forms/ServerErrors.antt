-- ===== src/Forms/ServerErrors.antt =====
-- app/core/forms/server-error-mapper.service.ts: the errors of a 422 response put onto the controls
-- of a form. The controls are numbers; `get` is AbstractControl.get for one name or index.
pub mod Applied
use Prim.Native.Char.{Char, code}
use Prim.Native.String
use enterprise_platform.Common.{
  ℕ, String, Bool, true, false, not, ◌&&◌, Option, none, some, List, [], ◌∷◌, ◌++◌, if◌then◌else◌,
  ◌==◌, nat_eq, leb, is_some, filter, Dict, lookup, insert, remove, split_on, ◌⊕◌,
}

-- What stands under a key of `control.errors`.
pub data ErrorEntry : Type 0 where
  server : String → List String → ErrorEntry
  other : String → ErrorEntry

pub record MapResult : Type 0 where
  pub matched : List String
  pub unmatched : List String

-- `control.errors` of every control, and the controls with a subscription that clears them.
pub record Mapped : Type 0 where
  pub errors_at : ℕ → Dict ErrorEntry
  pub subscriptions : List ℕ
  pub result : MapResult

abbrev is_digit : Char → Bool
is_digit c = leb b'0' (code c) && leb (code c) b'9'

-- Between brackets: the digits read so far.
abbrev next_bracket : Option String → Char → Option String
next_bracket none c = if nat_eq (code c) b'[' then some "" else none
next_bracket (some digits) c =
    if is_digit c
    then some (digits ⊕ String.◌∷◌ c "")
    else if nat_eq (code c) b'['
    then some ""
    else none

-- What is written when a character is read: a closed index becomes `.` and its digits, and an
-- opening bracket that turns out to open none is written as it stands.
abbrev written : Option String → Char → String → String
written none c rest = if nat_eq (code c) b'[' then rest else String.◌∷◌ c rest
written (some digits) c rest =
    if is_digit c
    then rest
    else if nat_eq (code c) b']' && not (digits == "")
    then "." ⊕ digits ⊕ rest
    else if nat_eq (code c) b'['
    then "[" ⊕ digits ⊕ rest
    else "[" ⊕ digits ⊕ String.◌∷◌ c rest

-- `path.replace(/\[(\d+)\]/g, '.$1')`
unfoldable pub to_dots : Option String → String → String
to_dots none String.[] = ""
to_dots (some digits) String.[] = "[" ⊕ digits
to_dots bracket (String.◌∷◌ c s) = written bracket c (to_dots (next_bracket bracket c) s)

unfoldable pub segments_of : String → List String
unfolding to_dots split_on
segments_of path = filter (λ s. not (s == "")) (split_on b'.' (to_dots none path))

module _ (get : ℕ → String → Option ℕ) where
  unfoldable pub descend : ℕ → List String → Option ℕ
  descend current [] = some current
  descend current (segment ∷ segments) = elim (get current segment) [
    | none ↦ none
    | some child ↦ descend child segments
  ]

  unfoldable pub resolve : ℕ → String → Option ℕ
  unfolding descend segments_of
  resolve root path = descend root (segments_of path)

  abbrev pub set_server : ℕ → String → List String → (ℕ → Dict ErrorEntry) → ℕ → Dict ErrorEntry
  set_server control first rest errors_at j =
      if nat_eq control j
      then insert "server" (server first (first ∷ rest)) (errors_at j)
      else errors_at j

  abbrev unmatch : String → Mapped → Mapped
  unmatch path s = record s {
    result = record (s.result) { unmatched = s.result.unmatched ++ path ∷ [] };
  }

  -- One entry of the response.
  unfoldable pub apply_entry : Option ℕ → String → List String → Mapped → Mapped
  apply_entry none path messages s = unmatch path s
  apply_entry (some control) path [] s = unmatch path s
  apply_entry (some control) path (first ∷ rest) s = record {
    errors_at = set_server control first rest s.errors_at;
    subscriptions = s.subscriptions ++ control ∷ [];
    result = record (s.result) { matched = s.result.matched ++ path ∷ [] };
  }

  unfoldable pub apply_all : ℕ → Dict (List String) → Mapped → Mapped
  unfolding apply_entry resolve
  apply_all root [] s = s
  apply_all root ((path, messages) ∷ errors) s =
      apply_all root errors (apply_entry (resolve root path) path messages s)

  -- `apply`, from the errors that the controls have.
  unfoldable pub apply : ℕ → Option (Dict (List String)) → (ℕ → Dict ErrorEntry) → List ℕ → Mapped
  unfolding apply_all
  apply root none errors_at subscriptions = record {
    errors_at = errors_at;
    subscriptions = subscriptions;
    result = record { matched = []; unmatched = [] };
  }
  apply root (some errors) errors_at subscriptions = apply_all root errors (record {
    errors_at = errors_at;
    subscriptions = subscriptions;
    result = record { matched = []; unmatched = [] };
  })

abbrev is_subscribed : ℕ → List ℕ → Bool
is_subscribed control [] = false
is_subscribed control (j ∷ js) = if nat_eq j control then true else is_subscribed control js

-- A control's value changes: Angular puts the errors of its validators in the place of all that
-- it had, and then the subscriptions run. They end only when an error is left.
unfoldable pub value_changed : ℕ → Dict ErrorEntry → Mapped → Mapped
unfolding remove
value_changed control validated s =
    let errors : ℕ → Dict ErrorEntry =
      λ j. if nat_eq control j then remove "server" validated else s.errors_at j in
    let kept = filter (λ j. not (nat_eq j control)) s.subscriptions in
    elim validated [
      | [] ↦ record s { errors_at = errors }
      | e ∷ es ↦ record s { errors_at = errors; subscriptions = kept }
    ]
