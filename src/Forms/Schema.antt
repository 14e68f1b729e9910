-- ===== src/Forms/Schema.antt =====
-- app/shared/components/dph/schema-form.types.ts, and the helpers of schema-form.component.ts that
-- read a schema. Fields that only choose labels of controls, icons and layout are left out.
use enterprise_platform.Common.{
  ℕ, String, Bool, true, false, not, ◌||◌, Option, none, some, List, [], ◌∷◌, ◌++◌, if◌then◌else◌,
  ◌==◌, ℤ, Dict, insert, lower,
}

pub data FieldType : Type 0 where
  text email password tel url search textarea number : FieldType

-- The value of a control.
pub data FieldValue : Type 0 where
  undefined null : FieldValue
  txt : String → FieldValue
  num : ℤ → FieldValue

-- `boolean | string`, and a value alone or with its message; the pattern is its source text.
pub data FlagSpec : Type 0 where
  no_flag : FlagSpec
  flag : Bool → FlagSpec
  worded_flag : String → FlagSpec

pub data ValueSpec {ℓ} (A : Type ℓ) : Type ℓ where
  no_value : ValueSpec A
  value : A → ValueSpec A
  worded : A → String → ValueSpec A

pub record FieldValidatorSpec : Type 0 where
  pub required : FlagSpec
  pub min_length : ValueSpec ℕ
  pub max_length : ValueSpec ℕ
  pub pattern : ValueSpec String
  pub email : FlagSpec
  pub min : ValueSpec ℤ
  pub max : ValueSpec ℤ

pub record SchemaField : Type 0 where
  pub key : String
  pub label : String
  pub type : FieldType
  pub required : Bool
  pub max_length : Option ℕ
  pub min_length : Option ℕ
  pub validators : FieldValidatorSpec
  pub trim : Option Bool
  pub null_if_empty : Bool
  pub default_value : FieldValue
  pub server_error_keys : List String
  pub status_error_messages : List (ℕ × String)

pub record FormSchema : Type 0 where
  pub fields : List SchemaField
  pub trim : Option Bool
  pub disable_submit_when_pristine : Bool

-- `a ?? b`
abbrev pub or_value : FieldValue → FieldValue → FieldValue
or_value undefined b = b
or_value null b = b
or_value a b = a

abbrev is_number : FieldType → Bool
is_number number = true
is_number _ = false

abbrev is_email : FieldType → Bool
is_email email = true
is_email _ = false

abbrev pub default_value_for : SchemaField → FieldValue
default_value_for f = if is_number f.type then null else txt ""

-- The validators of Angular that a field gets.
pub data Validator : Type 0 where
  required email : Validator
  min_length max_length : ℕ → Validator
  pattern : String → Validator
  min max : ℤ → Validator

-- `!!spec`
abbrev is_set : FlagSpec → Bool
is_set no_flag = false
is_set (flag b) = b
is_set (worded_flag message) = not (message == "")

abbrev pub unwrap_value {ℓ} : {A : Type ℓ} → ValueSpec A → Option A
unwrap_value no_value = none
unwrap_value (value a) = some a
unwrap_value (worded a message) = some a

abbrev pub flag_message : FlagSpec → String → String
flag_message (worded_flag message) fallback = message
flag_message _ fallback = fallback

abbrev pub value_message {ℓ} : {A : Type ℓ} → ValueSpec A → String → String
value_message (worded a message) fallback = message
value_message _ fallback = fallback

abbrev when : Bool → Validator → List Validator
when true v = v ∷ []
when false v = []

abbrev given {ℓ} : {A : Type ℓ} → (A → Validator) → Option A → List Validator
given v none = []
given v (some a) = v a ∷ []

abbrev first_of {ℓ} : {A : Type ℓ} → Option A → Option A → Option A
first_of none b = b
first_of (some a) b = some a

unfoldable pub collect_validators : SchemaField → List Validator
collect_validators f =
    when (f.required || is_set f.validators.required) required
    ++ when (is_set f.validators.email || is_email f.type) email
    ++ given min_length (first_of (unwrap_value f.validators.min_length) f.min_length)
    ++ given max_length (first_of (unwrap_value f.validators.max_length) f.max_length)
    ++ given pattern (unwrap_value f.validators.pattern)
    ++ given min (unwrap_value f.validators.min)
    ++ given max (unwrap_value f.validators.max)

unfoldable pub index_aliases : String → List String → Dict String → Dict String
unfolding insert lower
index_aliases key [] out = out
index_aliases key (alt ∷ alts) out = index_aliases key alts (insert (lower alt) key out)

-- `serverErrorIndex`
unfoldable pub server_error_index : List SchemaField → Dict String → Dict String
unfolding insert lower index_aliases
server_error_index [] out = out
server_error_index (f ∷ fs) out =
    server_error_index fs (index_aliases f.key f.server_error_keys (insert (lower f.key) f.key out))

-- The key of the first field called `email`.
unfoldable pub default_conflict_field : List SchemaField → Option String
default_conflict_field [] = none
default_conflict_field (f ∷ fs) = if f.key == "email" then some f.key else default_conflict_field fs
