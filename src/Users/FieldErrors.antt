-- ===== src/Users/FieldErrors.antt =====
-- features/users/state/users.store.ts: `fieldErrorMessage`.
use enterprise_platform.Common.{
  String, Option, none, some, List, [], ◌∷◌, Dict, lookup, if◌then◌else◌, ◌==◌, title_case, ◌≡◌,
  ◌≢◌, ◌↔◌, ◌⊎◌, inl, inr, Option-cases, refl, arith, eq_iff,
}
use enterprise_platform.Models.{ApiError}

-- `messages && messages.length > 0 && messages[0]`: the empty text is falsy.
unfoldable pub first_message : Option (List String) → Option String
first_message none = none
first_message (some []) = none
first_message (some (x ∷ xs)) = if x == "" then none else some x

unfoldable pub message_in : Dict (List String) → String → Option String
unfolding first_message
message_in errors field = elim (first_message (lookup field errors)) [
  | some direct ↦ some direct
  | none ↦ first_message (lookup (title_case field) errors)
]

unfoldable pub field_error_message : Option ApiError → String → Option String
unfolding message_in
field_error_message none field = none
field_error_message (some e) field = elim e.errors [
  | none ↦ none
  | some errors ↦ message_in errors field
]

-- The server's first message of the key.
abbrev pub Leads : Dict (List String) → String → String → Type 0
Leads errors key text =
    (rest : List String) × (lookup key errors ≡ some (text ∷ rest)) × (text ≢ "")

first_message-Leads :
    (errors : Dict (List String)) (key text : String) (found : Option (List String))
    → lookup key errors ≡ found
    → first_message found ≡ some text
    → Leads errors key text
unfolding first_message
first_message-Leads errors key text none e h = cc
first_message-Leads errors key text (some []) e h = cc
first_message-Leads errors key text (some (x ∷ xs)) e h =
    (xs, ground (arith, eq_iff x ""), ground (arith, eq_iff x ""))

Leads-first_message :
    (errors : Dict (List String)) (key text : String)
    → Leads errors key text
    → first_message (lookup key errors) ≡ some text
unfolding first_message
Leads-first_message errors key text (rest, e, h) = ground (arith, eq_iff text "")

-- A field's message is the server's first message under the field's own key, if that is not empty,
-- and otherwise the first one under the key with its first letter in upper case; it is never empty.
-- There is no message exactly when neither key leads with one.
pub message_in_iff :
    (errors : Dict (List String)) (field text : String)
    → (message_in errors field ≡ some text) ↔ (
        Leads errors field text
        ⊎ ((first_message (lookup field errors) ≡ none) × Leads errors (title_case field) text))
unfolding message_in
message_in_iff errors field text = (
  λ h. elim (Option-cases (first_message (lookup field errors))) [
    | inr (direct, e) ↦ inl (first_message-Leads errors field text _ refl (ground arith))
    | inl e ↦ inr (e, first_message-Leads errors (title_case field) text _ refl (ground arith))
  ],
  λ h. elim h [
    | inl direct ↦ rw (Leads-first_message errors field text direct, message_in)
    | inr (e, titled) ↦
        rw (e, Leads-first_message errors (title_case field) text titled, message_in)
  ],
)
