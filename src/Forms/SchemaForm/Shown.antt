-- ===== src/Forms/SchemaForm/Shown.antt =====
-- app/shared/components/dph/schema-form.component.ts: the messages of a field, from the validators
-- and from the server's answer.
use enterprise_platform.Common.{
  ℕ, String, Bool, true, false, not, ◌&&◌, ◌||◌, Option, none, some, List, [], ◌∷◌, ◌++◌,
  if◌then◌else◌, ◌==◌, nat_eq, includes, Dict, lookup, lower, title_case, text_of_nat, text_of_int,
  ◌⊕◌,
}
use enterprise_platform.Models.{ApiError}
use enterprise_platform.Users.FieldErrors.{first_message}
use enterprise_platform.Forms.Schema.{
  SchemaField, flag_message, value_message, server_error_index, default_conflict_field,
}
use enterprise_platform.Forms.SchemaForm.{ControlErrors, Control, Inputs, Form, Validate, errors_of}

abbrev pub message_if : Bool → String → List String
message_if true m = m ∷ []
message_if false m = []

abbrev pub message_for {ℓ} : {A : Type ℓ} → Option A → (A → String) → List String
message_for none m = []
message_for (some a) m = m a ∷ []

unfoldable pub local_messages : SchemaField → ControlErrors → List String
unfolding text_of_nat text_of_int
local_messages f e =
    message_if e.required (flag_message f.validators.required (f.label ⊕ " is required."))
    ++ message_if e.email (flag_message f.validators.email "Enter a valid email address.")
    ++ message_for e.min_length
        (λ n. value_message f.validators.min_length ("Minimum " ⊕ text_of_nat n ⊕ " characters."))
    ++ message_for e.max_length
        (λ n. value_message f.validators.max_length ("Maximum " ⊕ text_of_nat n ⊕ " characters."))
    ++ message_if e.pattern (value_message f.validators.pattern (f.label ⊕ " format is invalid."))
    ++ message_for e.min
        (λ n. value_message f.validators.min ("Must be at least " ⊕ text_of_int n ⊕ "."))
    ++ message_for e.max
        (λ n. value_message f.validators.max ("Must be at most " ⊕ text_of_int n ⊕ "."))

-- A candidate key as it is, and with its first letter in upper case.
unfoldable pub candidate_message : Dict (List String) → List String → Option String
unfolding lookup first_message title_case
candidate_message errors [] = none
candidate_message errors (cand ∷ cands) =
    let rest = candidate_message errors cands in
    elim (first_message (lookup cand errors)) [
      | some m ↦ some m
      | none ↦ elim (first_message (lookup (title_case cand) errors)) [
        | some m ↦ some m
        | none ↦ rest
      ]
    ]

abbrev pub belongs : Dict String → String → String → Bool
belongs index api_key key = elim (lookup (lower api_key) index) [ none ↦ false | some k ↦ k == key ]

unfoldable pub indexed_message : Dict String → String → Dict (List String) → Option String
unfolding lookup first_message lower
indexed_message index key [] = none
indexed_message index key ((api_key, messages) ∷ errors) =
    let rest = indexed_message index key errors in
    if belongs index api_key key
    then elim (first_message (some messages)) [ some m ↦ some m | none ↦ rest ]
    else rest

unfoldable pub server_field_message : ApiError → SchemaField → Dict String → Option String
unfolding candidate_message indexed_message
server_field_message err f index = elim err.errors [
  | none ↦ none
  | some errors ↦ elim (candidate_message errors (f.key ∷ f.server_error_keys)) [
    | some m ↦ some m
    | none ↦ indexed_message index f.key errors
  ]
]

abbrev status_message : ℕ → List (ℕ × String) → Option String
status_message status [] = none
status_message status ((n, m) ∷ ms) = if nat_eq n status then some m else status_message status ms

abbrev is_key : Option String → String → Bool
is_key none key = false
is_key (some k) key = k == key

-- `a ?? b`
abbrev or_key : Option String → Option String → Option String
or_key none b = b
or_key (some a) b = some a

abbrev pub conflict_text : Inputs → ApiError → SchemaField → List String
conflict_text inputs err f = elim inputs.conflict_message [
  | none ↦ []
  | some m ↦
      (let target = or_key inputs.conflict_field (default_conflict_field inputs.schema.fields) in
        message_if ((nat_eq err.status_code 409 && not (m == "")) && is_key target f.key) m)
]

-- `statusErrorMessages` adds its text unless it is empty or already there.
abbrev pub status_text : ApiError → SchemaField → List String → List String
status_text err f messages = elim (status_message err.status_code f.status_error_messages) [
  | none ↦ []
  | some m ↦ message_if (not (m == "") && not (includes m messages)) m
]

-- The messages of the local validators, from the first blur, change or submit on.
unfoldable pub shown_locally : Validate → Form → SchemaField → Control → List String
unfolding local_messages
shown_locally validate form f c =
    if form.submit_attempted || (c.touched || c.dirty)
    then local_messages f (errors_of validate c)
    else []

unfoldable pub known_messages : Inputs → ApiError → SchemaField → List String → List String
unfolding server_field_message server_error_index default_conflict_field
known_messages inputs err f shown =
    shown
    ++ (conflict_text inputs err f
        ++ message_for (server_field_message err f (server_error_index inputs.schema.fields []))
            (λ m. m))

-- The messages with those of the server behind them.
unfoldable pub with_server : Inputs → SchemaField → List String → Option ApiError → List String
unfolding known_messages
with_server inputs f shown none = shown
with_server inputs f shown (some err) =
    let known = known_messages inputs err f shown in known ++ status_text err f known

unfoldable pub errors_for : Validate → Inputs → Form → SchemaField → List String
unfolding lookup shown_locally with_server
errors_for validate inputs form f = elim (lookup f.key form.controls) [
  | none ↦ []
  | some c ↦ with_server inputs f (shown_locally validate form f c) inputs.api_error
]
