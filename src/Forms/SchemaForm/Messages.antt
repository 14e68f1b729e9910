-- ===== src/Forms/SchemaForm/Messages.antt =====
-- Which messages a field shows.
use enterprise_platform.Common.{
  String, Bool, true, false, not, ◌||◌, Option, none, some, List, [], ◌∷◌, ◌++◌, ◌≡◌, ◌≢◌, ◌⊎◌,
  refl, ap, sym, subst, ◌∙◌, arith, if◌then◌else◌, ◌==◌, Bool-cases, inl, inr, is_some, eq_iff,
  eq_refl, Dict, lookup,
}
use mathlib.Core.Option.{some-injective}
use enterprise_platform.Models.{ApiError}
use enterprise_platform.Users.FieldErrors.{first_message}
use enterprise_platform.Forms.Schema.{SchemaField, server_error_index}
use enterprise_platform.Forms.SchemaForm.{
  Handled, Control, ControlErrors, Inputs, Form, Validate, all_valid, on_submit, touch_all,
  errors_of, has_errors,
}
use enterprise_platform.Forms.SchemaForm.Naming.{means, HasField, MeansOnly, index_finds}
use enterprise_platform.Forms.SchemaForm.Shown.{
  errors_for, local_messages, server_field_message, candidate_message, indexed_message, belongs,
  status_text, conflict_text, message_if, known_messages, message_for, shown_locally, with_server,
}

-- The server says something of a key.
abbrev pub IsSaid : String → String → Dict (List String) → Type 0
IsSaid key message [] = ⊥
IsSaid key message ((k, []) ∷ errors) = IsSaid key message errors
IsSaid key message ((k, m ∷ ms) ∷ errors) = ((k ≡ key) × (m ≡ message)) ⊎ IsSaid key message errors

first_message_kept :
    (m : String) (ms : List String) → m ≢ "" → first_message (some (m ∷ ms)) ≡ some m
unfolding first_message
first_message_kept m ms n = ground (arith, n, eq_iff m "")

or_rest : Option String → Option String → Option String
or_rest first rest = elim first [ some m ↦ some m | none ↦ rest ]

is_some-or_rest :
    (first rest : Option String) → is_some rest ≡ true → is_some (or_rest first rest) ≡ true
unfolding or_rest
is_some-or_rest none rest h = h
is_some-or_rest (some m) rest h = refl

indexed_message_found :
    (index : Dict String) (key api_key message : String) (errors : Dict (List String))
    → belongs index api_key key ≡ true
    → message ≢ ""
    → IsSaid api_key message errors
    → is_some (indexed_message index key errors) ≡ true
unfolding indexed_message or_rest
indexed_message_found index key api_key message [] b n said = absurd said
indexed_message_found index key api_key message ((k, []) ∷ errors) b n said =
    let found : is_some (indexed_message index key errors) ≡ true =
      indexed_message_found index key api_key message errors b n said in
    elim (Bool-cases (belongs index k key)) [ inl e ↦ rw e found | inr e ↦ rw e found ]
indexed_message_found index key api_key message ((k, m ∷ ms) ∷ errors) b n (inl (e, e')) =
    rw (e, b, e', first_message_kept message ms n) refl
indexed_message_found index key api_key message ((k, m ∷ ms) ∷ errors) b n (inr said) =
    let found : is_some (indexed_message index key errors) ≡ true =
      indexed_message_found index key api_key message errors b n said in
    elim (Bool-cases (belongs index k key)) [
      | inl e ↦
          rw e (
            is_some-or_rest (first_message (some (m ∷ ms))) (indexed_message index key errors)
              found)
      | inr e ↦ rw e found
    ]

server_message_found :
    (err : ApiError) (errors : Dict (List String)) (f : SchemaField) (index : Dict String)
    (api_key message : String)
    → err.errors ≡ some errors
    → belongs index api_key f.key ≡ true
    → message ≢ ""
    → IsSaid api_key message errors
    → is_some (server_field_message err f index) ≡ true
unfolding server_field_message or_rest
server_message_found err errors f index api_key message e b n said =
    subst
      (λ o.
        is_some (elim o [
          | none ↦ none
          | some errors ↦
              or_rest (candidate_message errors (f.key ∷ f.server_error_keys))
                (indexed_message index f.key errors)
        ])
        ≡ true)
      (sym e)
      (is_some-or_rest (candidate_message errors (f.key ∷ f.server_error_keys))
        (indexed_message index f.key errors)
        (indexed_message_found index f.key api_key message errors b n said))

abbrev pub shows : List String → Bool
shows [] = false
shows (m ∷ ms) = true

shows-append_left : (xs ys : List String) → shows xs ≡ true → shows (xs ++ ys) ≡ true
shows-append_left [] ys h = cc
shows-append_left (x ∷ xs) ys h = refl

shows-append_right : (xs ys : List String) → shows ys ≡ true → shows (xs ++ ys) ≡ true
shows-append_right [] ys h = h
shows-append_right (x ∷ xs) ys h = refl

shows-message_for : (o : Option String) → is_some o ≡ true → shows (message_for o (λ m. m)) ≡ true
shows-message_for none h = cc
shows-message_for (some m) h = refl

errors_for_lem :
    (validate : Validate) (inputs : Inputs) (form : Form) (f : SchemaField) (c : Control)
    → lookup f.key form.controls ≡ some c
    → errors_for validate inputs form f
      ≡ with_server inputs f (shown_locally validate form f c) inputs.api_error
unfolding errors_for
errors_for_lem validate inputs form f c h =
    ap
      (λ (o : Option Control). elim o as (λ _. List String) [
        | none ↦ []
        | some c ↦ with_server inputs f (shown_locally validate form f c) inputs.api_error
      ])
      h

shows-with_server :
    (inputs : Inputs) (f : SchemaField) (shown : List String) (o : Option ApiError)
    → shows shown ≡ true
    → shows (with_server inputs f shown o) ≡ true
unfolding with_server known_messages
shows-with_server inputs f shown none h = h
shows-with_server inputs f shown (some err) h =
    shows-append_left (known_messages inputs err f shown)
      (status_text err f (known_messages inputs err f shown)) (shows-append_left shown _ h)

-- What the server says of a field of the schema reaches the user: when the response names a key
-- that, but for the case of its letters, is the field's key or one of its aliases, and no key or
-- alias of a field with another key, and its first message is not empty, the field shows at least
-- one message, before the user has touched the form as well as after.
pub server_message_shown :
    (validate : Validate) (inputs : Inputs) (form : Form) (f : SchemaField) (c : Control)
    (err : ApiError) (errors : Dict (List String)) (api_key message : String)
    → lookup f.key form.controls ≡ some c
    → inputs.api_error ≡ some err
    → err.errors ≡ some errors
    → HasField f inputs.schema.fields
    → means api_key f ≡ true
    → MeansOnly api_key f.key inputs.schema.fields
    → IsSaid api_key message errors
    → message ≢ ""
    → shows (errors_for validate inputs form f) ≡ true
unfolding with_server known_messages
server_message_shown validate inputs form f c err errors api_key message here failed named listed
      meant only said n =
    let index = index_finds api_key f inputs.schema.fields [] listed meant only in
    let index_of = server_error_index inputs.schema.fields [] in
    let belongs_here : belongs index_of api_key f.key ≡ true =
      ap (λ (o : Option String). elim o as (λ _. Bool) [ none ↦ false | some k ↦ k == f.key ]) index
      ∙ eq_refl f.key in
    let shown = shown_locally validate form f c in
    ap shows (errors_for_lem validate inputs form f c here)
    ∙ ap (λ o. shows (with_server inputs f (shown_locally validate form f c) o)) failed
    ∙ shows-append_left (known_messages inputs err f shown)
        (status_text err f (known_messages inputs err f shown))
        (shows-append_right shown _ (
          shows-append_right (conflict_text inputs err f) _ (
            shows-message_for (server_field_message err f index_of) (
              server_message_found err errors f index_of api_key message named belongs_here n
                said))))

touched_of : Option Control → Option Control
touched_of none = none
touched_of (some c) = some (record c { touched = true })

lookup-touch_all :
    (k : String) (cs : Dict Control) → lookup k (touch_all cs) ≡ touched_of (lookup k cs)
unfolding lookup touch_all touched_of
lookup-touch_all k [] = refl
lookup-touch_all k ((j, d) ∷ cs) = elim (Bool-cases (j == k)) [
  | inl e ↦ rw e refl
  | inr e ↦ rw e (lookup-touch_all k cs)
]

shows-append : (xs ys : List String) → shows (xs ++ ys) ≡ (shows xs || shows ys)
shows-append [] ys = refl
shows-append (x ∷ xs) ys = refl

shows-message_if : (b : Bool) (m : String) → shows (message_if b m) ≡ b
shows-message_if true m = refl
shows-message_if false m = refl

shows-messages_for {ℓ} :
    {A : Type ℓ} (o : Option A) (m : A → String) → shows (message_for o m) ≡ is_some o
shows-messages_for none m = refl
shows-messages_for (some a) m = refl

any_of_seven :
    (a b c d e f g : Bool)
    → (((a || b) || (c || d)) || (e || (f || g))) ≡ true
    → (((((a || b) || c) || d) || e) || f) || g ≡ true
any_of_seven a b c d e f g h = ground arith

local_messages-shows :
    (f : SchemaField) (e : ControlErrors) → has_errors e ≡ true → shows (local_messages f e) ≡ true
unfolding local_messages
local_messages-shows f e h =
    simp (shows-append, shows-message_if, shows-messages_for)
      (any_of_seven e.required e.email (is_some e.min_length) (is_some e.max_length) e.pattern
        (is_some e.min) (is_some e.max) h)

invalid_control :
    (validate : Validate) (k : String) (c : Control) (cs : Dict Control)
    → lookup k cs ≡ some c
    → has_errors (errors_of validate c) ≡ true
    → all_valid validate cs ≡ false
unfolding lookup all_valid
invalid_control validate k c [] h wrong = cc
invalid_control validate k c ((j, d) ∷ cs) h wrong = elim (Bool-cases (j == k)) [
  | inl e ↦
      let same : some d ≡ some c = ap (λ b. if b then some d else lookup k cs) (sym e) ∙ h in
      rw (ap (λ x. has_errors (errors_of validate x)) (some-injective d c same), wrong) refl
  | inr e ↦
      let later : lookup k cs ≡ some c = ap (λ b. if b then some d else lookup k cs) (sym e) ∙ h in
      ground (arith, invalid_control validate k c cs later wrong)
]

refused :
    (P : Handled → Type 0) (valid : Bool) (touched rest : Handled)
    → valid ≡ false
    → P touched
    → P (if not valid then touched else rest)
refused P true touched rest h p = cc
refused P false touched rest h p = p

-- A submit of a form with an invalid control emits nothing, and every field whose control is
-- invalid then shows at least one message.
pub invalid_submit_shows :
    (validate : Validate) (inputs : Inputs) (form : Form) (f : SchemaField) (c : Control)
    → lookup f.key form.controls ≡ some c
    → has_errors (errors_of validate c) ≡ true
    → ((on_submit validate inputs form).1 ≡ [])
      × (shows (errors_for validate inputs (on_submit validate inputs form).0 f) ≡ true)
unfolding on_submit touched_of shown_locally
invalid_submit_shows validate inputs form f c here wrong =
    let touched : Form = record form {
      submit_attempted = true;
      controls = touch_all form.controls;
    } in
    let marked : Control = record c { touched = true } in
    let found : lookup f.key (touch_all form.controls) ≡ some marked =
      lookup-touch_all f.key form.controls ∙ ap touched_of here in
    refused (λ h. (h.1 ≡ []) × (shows (errors_for validate inputs h.0 f) ≡ true))
      (all_valid validate form.controls) (touched, []) _
      (invalid_control validate f.key c form.controls here wrong)
      (
        refl,
        ap shows (errors_for_lem validate inputs touched f marked found)
            ∙ shows-with_server inputs f (shown_locally validate touched f marked) inputs.api_error
                (local_messages-shows f (errors_of validate c) wrong),
      )
