-- ===== src/Forms/SchemaForm.antt =====
-- app/shared/components/dph/schema-form.component.ts: the form group with its handlers, and the
-- value that is submitted. Angular's validators are an argument: `validate` gives what they find in
-- a value. The counter that only makes the template render again is left out.
pub mod Shown
pub mod Naming
pub mod Submission
pub mod Messages
use enterprise_platform.Common.{
  ℕ, String, Bool, true, false, not, ◌&&◌, ◌||◌, Option, none, some, List, [], ◌∷◌, ◌++◌, map,
  if◌then◌else◌, ◌==◌, nat_eq, get_or, is_some, includes, ℤ, Dict, lookup, insert, lower, trim,
  title_case, text_of_nat, text_of_int, ◌⊕◌, any,
}
use enterprise_platform.Models.{ApiError}
use enterprise_platform.Table.Values.{int_eq}
use enterprise_platform.Forms.Schema.{
  FieldValue, undefined, null, txt, num, SchemaField, FormSchema, FieldValidatorSpec, Validator,
  or_value, default_value_for, collect_validators, flag_message, value_message, server_error_index,
  default_conflict_field,
}

-- `control.errors`, by the keys that Angular's validators set.
pub record ControlErrors : Type 0 where
  pub required : Bool
  pub email : Bool
  pub min_length : Option ℕ
  pub max_length : Option ℕ
  pub pattern : Bool
  pub min : Option ℤ
  pub max : Option ℤ

abbrev pub has_errors : ControlErrors → Bool
has_errors e =
    ((e.required || e.email) || (is_some e.min_length || is_some e.max_length))
    || (e.pattern || (is_some e.min || is_some e.max))

pub record Control : Type 0 where
  pub value : FieldValue
  pub touched : Bool
  pub dirty : Bool
  pub validators : List Validator

pub record Inputs : Type 0 where
  pub schema : FormSchema
  pub initial_value : Option (Dict FieldValue)
  pub api_error : Option ApiError
  pub submitting : Bool
  pub conflict_message : Option String
  pub conflict_field : Option String

pub record Form : Type 0 where
  pub controls : Dict Control
  pub pristine : Bool
  pub submit_attempted : Bool

pub data Output : Type 0 where
  submit : Dict FieldValue → Output
  value_change : Dict FieldValue → Output
  form_submit form_patch : Dict FieldValue → Output
  cancel form_cancel form_reset : Output
  field_change : String → FieldValue → Dict FieldValue → Output
  field_blur : String → Dict FieldValue → Output

abbrev pub Validate : Type 0
Validate = List Validator → FieldValue → ControlErrors

abbrev pub errors_of : Validate → Control → ControlErrors
errors_of validate c = validate c.validators c.value

-- `form.valid`
unfoldable pub all_valid : Validate → Dict Control → Bool
all_valid validate [] = true
all_valid validate ((k, c) ∷ cs) = not (has_errors (errors_of validate c)) && all_valid validate cs

-- `form.getRawValue()`
unfoldable pub raw_value : Dict Control → Dict FieldValue
raw_value [] = []
raw_value ((k, c) ∷ cs) = (k, c.value) ∷ raw_value cs

abbrev fresh_control : FieldValue → List Validator → Control
fresh_control v validators = record {
  value = v;
  touched = false;
  dirty = false;
  validators = validators;
}

unfoldable pub build_controls : List SchemaField → Dict Control → Dict Control
unfolding insert collect_validators
build_controls [] out = out
build_controls (f ∷ fs) out = build_controls fs (
    insert f.key
      (fresh_control (or_value f.default_value (default_value_for f)) (collect_validators f)) out)

unfoldable pub build_form_group : FormSchema → Form
unfolding build_controls
build_form_group schema = record {
  controls = build_controls schema.fields [];
  pristine = true;
  submit_attempted = false;
}

-- `init?.[field.key] ?? field.defaultValue ?? (field.type === 'number' ? null : '')`
unfoldable pub seed_value : Option (Dict FieldValue) → SchemaField → FieldValue
unfolding lookup
seed_value none f = or_value f.default_value (default_value_for f)
seed_value (some init) f =
    or_value (get_or (lookup f.key init) undefined) (or_value f.default_value (default_value_for f))

unfoldable pub seed_values :
    Option (Dict FieldValue) → List SchemaField → Dict FieldValue → Dict FieldValue
unfolding insert seed_value
seed_values init [] out = out
seed_values init (f ∷ fs) out = seed_values init fs (insert f.key (seed_value init f) out)

-- `form.reset(next, { emitEvent: false })`
unfoldable pub reset_controls : Dict FieldValue → Dict Control → Dict Control
unfolding lookup
reset_controls next [] = []
reset_controls next ((k, c) ∷ cs) =
    (k, fresh_control (get_or (lookup k next) c.value) c.validators) ∷ reset_controls next cs

-- The effect that seeds the form.
unfoldable pub seed : Inputs → Form → Form
unfolding reset_controls seed_values
seed inputs form = record {
  controls =
      reset_controls (seed_values inputs.initial_value inputs.schema.fields []) form.controls;
  pristine = true;
  submit_attempted = false;
}

abbrev pub Handled : Type 0
Handled = Form × List Output

unfoldable pub reset : Inputs → Form → Handled
unfolding seed
reset inputs form = (seed inputs form, form_reset ∷ [])

abbrev pub submit_disabled : Inputs → Form → Bool
submit_disabled inputs form =
    inputs.submitting || (inputs.schema.disable_submit_when_pristine && form.pristine)

-- The submitted value of one field; a control's own value where it is not a text.
unfoldable pub clean : FormSchema → SchemaField → FieldValue → FieldValue
unfolding trim
clean schema f (txt v) =
    let trimmed = (if get_or f.trim (get_or schema.trim true) then trim v else v) in
    if f.null_if_empty && (trimmed == "") then null else txt trimmed
clean schema f v = v

unfoldable pub clean_fields :
    FormSchema → List SchemaField → Dict FieldValue → Dict FieldValue → Dict FieldValue
unfolding insert lookup clean
clean_fields schema [] raw out = out
clean_fields schema (f ∷ fs) raw out =
    clean_fields schema fs raw
      (insert f.key (clean schema f (get_or (lookup f.key raw) undefined)) out)

unfoldable pub cleaned_value : FormSchema → Form → Dict FieldValue
unfolding clean_fields raw_value
cleaned_value schema form = clean_fields schema schema.fields (raw_value form.controls) []

-- `form.markAllAsTouched()`
unfoldable pub touch_all : Dict Control → Dict Control
touch_all [] = []
touch_all ((k, c) ∷ cs) = (k, record c { touched = true }) ∷ touch_all cs

unfoldable pub clear_dirty : Dict Control → Dict Control
clear_dirty [] = []
clear_dirty ((k, c) ∷ cs) = (k, record c { dirty = false }) ∷ clear_dirty cs

unfoldable pub on_submit : Validate → Inputs → Form → Handled
unfolding all_valid touch_all cleaned_value
on_submit validate inputs form =
    let attempted : Form = record form { submit_attempted = true } in
    let touched : Form = record form {
      submit_attempted = true;
      controls = touch_all form.controls;
    } in
    let v = cleaned_value inputs.schema form in
    if not (all_valid validate form.controls)
    then (touched, [])
    else if inputs.submitting
    then (attempted, [])
    else if submit_disabled inputs form
    then (attempted, [])
    else (attempted, submit v ∷ form_submit v ∷ [])

unfoldable pub resubmit : Validate → Inputs → Form → Handled
unfolding all_valid cleaned_value
resubmit validate inputs form =
    if all_valid validate form.controls
    then (form, submit (cleaned_value inputs.schema form) ∷ [])
    else (form, [])

abbrev pub on_cancel : Form → Handled
on_cancel form = (form, cancel ∷ form_cancel ∷ [])

unfoldable pub mark_pristine : Form → Handled
unfolding clear_dirty
mark_pristine form =
    let marked : Form = record form { pristine = true; controls = clear_dirty form.controls } in
    (marked, [])

abbrev pub same_value : FieldValue → FieldValue → Bool
same_value undefined undefined = true
same_value null null = true
same_value (txt s) (txt t) = s == t
same_value (num m) (num n) = int_eq m n
same_value _ _ = false

-- `setValue` emits the value of the form before the control is marked dirty.
unfoldable pub on_field_change : String → FieldValue → Form → Handled
unfolding lookup insert raw_value
on_field_change key v form = elim (lookup key form.controls) [
  | none ↦ (form, [])
  | some c ↦
      (let controls = insert key (record c { value = v; dirty = true }) form.controls in
        let changed : Form = record form { controls = controls; pristine = false } in
        let raw = raw_value controls in
        if same_value c.value v
        then (form, [])
        else (changed, value_change raw ∷ form_patch raw ∷ field_change key v raw ∷ []))
]

unfoldable pub on_field_blur : String → Form → Handled
unfolding lookup insert raw_value
on_field_blur key form = elim (lookup key form.controls) [
  | none ↦ (form, field_blur key (raw_value form.controls) ∷ [])
  | some c ↦
      (let blurred : Form = record form {
        controls = insert key (record c { touched = true }) form.controls;
      } in
        (blurred, field_blur key (raw_value form.controls) ∷ []))
]
