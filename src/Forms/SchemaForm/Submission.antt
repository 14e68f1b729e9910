-- ===== src/Forms/SchemaForm/Submission.antt =====
-- What is submitted, and when.
use enterprise_platform.Common.{
  String, Bool, true, false, not, ◌&&◌, ◌||◌, some, List, [], ◌∷◌, ◌≡◌, ◌≢◌, refl, ◌∙◌, arith,
  if◌then◌else◌, ◌==◌, Bool-cases, inl, inr, get_or, includes, IsDistinct, eq_iff, Dict, lookup,
  insert, lookup-insert, trim, trim_idem,
}
use enterprise_platform.Forms.Schema.{
  FieldValue, undefined, null, txt, num, SchemaField, FormSchema,
}
use enterprise_platform.Forms.SchemaForm.{
  Inputs, Form, Output, submit, form_submit, Validate, all_valid, raw_value, clean, clean_fields,
  cleaned_value, on_submit, touch_all, Handled,
}

abbrev pub field_keys : List SchemaField → List String
field_keys [] = []
field_keys (f ∷ fs) = f.key ∷ field_keys fs

lookup-clean_fields_other :
    (schema : FormSchema) (j : String) (fs : List SchemaField) (raw out : Dict FieldValue)
    → includes j (field_keys fs) ≡ false
    → lookup j (clean_fields schema fs raw out) ≡ lookup j out
unfolding clean_fields
lookup-clean_fields_other schema j [] raw out h = refl
lookup-clean_fields_other schema j (f ∷ fs) raw out h =
    let value = clean schema f (get_or (lookup f.key raw) undefined) in
    lookup-clean_fields_other schema j fs raw (insert f.key value out) (ground (arith, h))
    ∙ ground (arith, h, lookup-insert f.key j value out)

-- Every field of the list stands in the result under its key, cleaned.
abbrev AllCleaned : FormSchema → List SchemaField → Dict FieldValue → Dict FieldValue → Type 0
AllCleaned schema [] raw result = Unit
AllCleaned schema (f ∷ fs) raw result =
    (lookup f.key result ≡ some (clean schema f (get_or (lookup f.key raw) undefined)))
    × AllCleaned schema fs raw result

clean_fields-AllCleaned :
    (schema : FormSchema) (fs : List SchemaField) (raw out : Dict FieldValue)
    → IsDistinct (field_keys fs)
    → AllCleaned schema fs raw (clean_fields schema fs raw out)
unfolding clean_fields
clean_fields-AllCleaned schema [] raw out d = tt
clean_fields-AllCleaned schema (f ∷ fs) raw out (fresh, d) =
    let value = clean schema f (get_or (lookup f.key raw) undefined) in
    (
      lookup-clean_fields_other schema f.key fs raw (insert f.key value out) fresh
          ∙ ground (arith, lookup-insert f.key f.key value out, eq_iff f.key f.key),
      clean_fields-AllCleaned schema fs raw (insert f.key value out) d,
    )

-- No white space is left at the ends of a text that is to be trimmed, and an empty text is not
-- left where it is to be null.
abbrev pub IsCleanText : FormSchema → SchemaField → String → Type 0
IsCleanText schema f t =
    (get_or f.trim (get_or schema.trim true) ≡ true → trim t ≡ t)
    × (f.null_if_empty ≡ true → t ≢ "")

abbrev pub IsCleanValue : FormSchema → SchemaField → FieldValue → Type 0
IsCleanValue schema f (txt t) = IsCleanText schema f t
IsCleanValue schema f v = Unit

nulled-IsCleanValue :
    (schema : FormSchema) (f : SchemaField) (t : String)
    → (get_or f.trim (get_or schema.trim true) ≡ true → trim t ≡ t)
    → IsCleanValue schema f (if f.null_if_empty && (t == "") then null else txt t)
nulled-IsCleanValue schema f t trimmed = elim (Bool-cases (f.null_if_empty && (t == ""))) [
  | inl e ↦ rw e tt
  | inr e ↦ rw e (trimmed, λ on q. ground (arith, e, on, q, eq_iff t ""))
]

trimmed_if :
    (on : Bool) (v : String)
    → on ≡ true
    → trim (if on then trim v else v) ≡ (if on then trim v else v)
trimmed_if on v h = rw h (trim_idem v)

clean-IsCleanValue :
    (schema : FormSchema) (f : SchemaField) (v : FieldValue)
    → IsCleanValue schema f (clean schema f v)
unfolding clean
clean-IsCleanValue schema f undefined = tt
clean-IsCleanValue schema f null = tt
clean-IsCleanValue schema f (num n) = tt
clean-IsCleanValue schema f (txt v) =
    let on = get_or f.trim (get_or schema.trim true) in
    nulled-IsCleanValue schema f (if on then trim v else v) (trimmed_if on v)

-- Every field has a value in the submission, cleaned.
abbrev pub AllClean : FormSchema → List SchemaField → Dict FieldValue → Type 0
AllClean schema [] result = Unit
AllClean schema (f ∷ fs) result =
    ((v : FieldValue) × ((lookup f.key result ≡ some v) × IsCleanValue schema f v))
    × AllClean schema fs result

AllCleaned-AllClean :
    (schema : FormSchema) (fs : List SchemaField) (raw result : Dict FieldValue)
    → AllCleaned schema fs raw result
    → AllClean schema fs result
AllCleaned-AllClean schema [] raw result h = tt
AllCleaned-AllClean schema (f ∷ fs) raw result (first, h) =
    let v = clean schema f (get_or (lookup f.key raw) undefined) in
    (
      (v, (first, clean-IsCleanValue schema f (get_or (lookup f.key raw) undefined))),
      AllCleaned-AllClean schema fs raw result h,
    )

abbrev pub accepted : Validate → Inputs → Form → Bool
accepted validate inputs form =
    all_valid validate form.controls
    && not (inputs.submitting || (inputs.schema.disable_submit_when_pristine && form.pristine))

abbrev gated : Bool → Bool → Bool → Handled → Handled → Handled → Handled
gated valid submitting held touched attempted sent =
    if not valid
    then touched
    else if submitting
    then attempted
    else if submitting || held
    then attempted
    else sent

gated_outputs :
    (valid submitting held : Bool) (touched attempted sent : Form) (xs : List Output)
    → (gated valid submitting held (touched, []) (attempted, []) (sent, xs)).1
      ≡ (if valid && not (submitting || held) then xs else [])
gated_outputs false submitting held touched attempted sent xs = refl
gated_outputs true true held touched attempted sent xs = refl
gated_outputs true false true touched attempted sent xs = refl
gated_outputs true false false touched attempted sent xs = refl

-- A submit is emitted exactly when every control is valid, no submit is running and the form has
-- changed or need not have; the same value goes out on both channels. When no two fields have one
-- key, the value holds every field, no text in it that is to be trimmed has white space at its
-- ends, and none that is to be null is empty.
pub on_submit_lem :
    (validate : Validate) (inputs : Inputs) (form : Form)
    → IsDistinct (field_keys inputs.schema.fields)
    → (v : Dict FieldValue) × (((on_submit validate inputs form).1
          ≡ (if accepted validate inputs form then submit v ∷ form_submit v ∷ [] else []))
        × AllClean inputs.schema inputs.schema.fields v)
unfolding on_submit cleaned_value
on_submit_lem validate inputs form d =
    let v = cleaned_value inputs.schema form in
    (
      v,
      (
        gated_outputs (all_valid validate form.controls) inputs.submitting
            (inputs.schema.disable_submit_when_pristine && form.pristine)
            (record form { submit_attempted = true; controls = touch_all form.controls })
            (record form { submit_attempted = true }) (record form { submit_attempted = true })
            (submit v ∷ form_submit v ∷ []),
        AllCleaned-AllClean inputs.schema inputs.schema.fields (raw_value form.controls) v (
            clean_fields-AllCleaned inputs.schema inputs.schema.fields (raw_value form.controls) []
              d),
      ),
    )
