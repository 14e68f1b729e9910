-- ===== src/Tests/Forms.antt =====
-- A form with a name and an email field.
use enterprise_platform.Common.{
  if◌then◌else◌, Dict, lookup, lower, inr, String, ◌≡◌, refl, inl, true, false, none, some, List,
  [], ◌∷◌,
}
use enterprise_platform.Forms.Schema.{
  FieldType, text, email, FieldValue, txt, no_flag, no_value, FieldValidatorSpec, SchemaField,
  FormSchema, Validator,
}
use enterprise_platform.Models.{ApiError}
use enterprise_platform.Forms.SchemaForm
use enterprise_platform.Forms.SchemaForm.{
  Control, ControlErrors, Inputs, Form, Validate, errors_of, has_errors, on_submit,
}
use enterprise_platform.Forms.SchemaForm.Shown.{errors_for}
use enterprise_platform.Forms.SchemaForm.Submission.{AllClean, accepted, on_submit_lem}
use enterprise_platform.Forms.SchemaForm.Messages.{
  shows, server_message_shown, invalid_submit_shows,
}

abbrev no_specs : FieldValidatorSpec
no_specs = record {
  required = no_flag;
  min_length = no_value;
  max_length = no_value;
  pattern = no_value;
  email = no_flag;
  min = no_value;
  max = no_value;
}

abbrev field : String → FieldType → SchemaField
field name kind = record {
  key = name;
  label = name;
  type = kind;
  required = true;
  max_length = none;
  min_length = none;
  validators = no_specs;
  trim = none;
  null_if_empty = true;
  default_value = FieldValue.undefined;
  server_error_keys = [];
  status_error_messages = [];
}

abbrev email_field : SchemaField
email_field = record (field "email" email) { server_error_keys = "mail" ∷ [] }

abbrev schema : FormSchema
schema = record {
  fields = field "name" text ∷ email_field ∷ [];
  trim = none;
  disable_submit_when_pristine = false;
}

abbrev only_required : Validate
only_required vs v = record {
  required = SchemaForm.same_value v (txt "");
  email = false;
  min_length = none;
  max_length = none;
  pattern = false;
  min = none;
  max = none;
}

abbrev control : String → Control
control v = record {
  value = txt v;
  touched = false;
  dirty = false;
  validators = Validator.required ∷ [];
}

abbrev taken_email : Dict (List String)
taken_email = ("Mail", "Taken" ∷ []) ∷ []

abbrev rejected : ApiError
rejected = record {
  message = "Invalid";
  status_code = 422;
  code = none;
  errors = some taken_email;
  correlation_id = none;
  timestamp = none;
}

abbrev inputs : Inputs
inputs = record {
  schema = schema;
  initial_value = none;
  api_error = some rejected;
  submitting = false;
  conflict_message = none;
  conflict_field = none;
}

abbrev form : Form
form = record {
  controls = ("name", control "") ∷ ("email", control " a@b.c ") ∷ [];
  pristine = false;
  submit_attempted = false;
}

abbrev filled : Form
filled = record form { controls = ("name", control " Ann ") ∷ ("email", control " a@b.c ") ∷ [] }

on_submit_lem_example :
    (v : Dict FieldValue) × (((on_submit only_required inputs filled).1 ≡ (
        if accepted only_required inputs filled
        then SchemaForm.submit v ∷ SchemaForm.form_submit v ∷ []
        else []))
      × AllClean inputs.schema inputs.schema.fields v)
on_submit_lem_example = on_submit_lem only_required inputs filled (refl, (refl, tt))

server_message_shown_example : shows (errors_for only_required inputs form email_field) ≡ true
unfolding lookup lower
server_message_shown_example =
    server_message_shown only_required inputs form email_field (control " a@b.c ") rejected
      taken_email "Mail" "Taken" refl refl refl (inr (inl refl)) refl ((λ e. cc), ((λ e. refl), tt))
      (inl (refl, refl)) (λ e. cc)

invalid_submit_shows_example :
    ((on_submit only_required inputs form).1 ≡ [])
    × (shows (
          errors_for only_required inputs
            (on_submit only_required inputs form).0
            (field "name" text))
        ≡ true)
unfolding lookup
invalid_submit_shows_example =
    invalid_submit_shows only_required inputs form (field "name" text) (control "") refl refl
