-- ===== src/Notice/Template/Form.antt =====
-- Validate of notice/template.go: what the analyst entered against the template's form. A message is
-- kept as its format string. A map is a list of pairs of which the first with a key counts.
pub mod Accepted
use Prim.Native.String.{len}
use Prim.Native.String.{◌++◌ as str_append}
use thesis_dispute_engine.Prelude.{
  String, Bool, false, not, ◌||◌, Option, none, some, List, [], ◌∷◌, ◌++◌, str_eq, ltb,
  if◌then◌else◌,
}
use thesis_dispute_engine.Prelude.Dates.{is_date}
use thesis_dispute_engine.Prelude.Int.{ℤ, ltb_ℤ}
use thesis_dispute_engine.Prelude.Strings.{trim_space, split, join, atoi, itoa}
use thesis_dispute_engine.Result.{Result, ok, err}
use thesis_dispute_engine.Errs.{
  Error, FieldError, unprocessable, invalid, new, classified, with_fields,
}
use thesis_dispute_engine.Domain.QuestionSets.{contains_text}
use thesis_dispute_engine.Domain.Questionnaire.{answer_or_empty, sort_fields}
use thesis_dispute_engine.Notice.Template.{
  FieldType, text, textarea, number, date, select, multiselect, FieldOption, Field, Template,
  field_ids,
}

abbrev pub err_invalid_fields : Error
err_invalid_fields = new unprocessable "invalid-fields" "the email form is incomplete or malformed"

abbrev pub err_unknown_template : Error
err_unknown_template = new invalid "unknown-template" "unknown email template"

abbrev pub Inputs : Type 0
Inputs = List (String × String)

pub missing_field : FieldType → String
missing_field select = "Please select one of the options"
missing_field multiselect = "Please select at least one option"
missing_field date = "Please select a date"
missing_field number = "Please enter a number"
missing_field _ = "Please fill in %q"

abbrev pub is_below : Option ℤ → ℤ → Bool
is_below none n = false
is_below (some m) n = ltb_ℤ n m

abbrev pub is_beyond : Option ℤ → ℤ → Bool
is_beyond none n = false
is_beyond (some m) n = ltb_ℤ m n

abbrev pub number_value : Option ℤ → Option ℤ → Option ℤ → String × String
number_value min max none = ("", "Please enter a whole number")
number_value min max (some n) =
    if is_below min n || is_beyond max n
    then ("", "Please enter a number between %d and %d")
    else (itoa n, "")

-- The text of the first option with the key.
abbrev pub text_of : List FieldOption → String → Option String
text_of [] key = none
text_of (o ∷ os) key = let rest = text_of os key in if str_eq o.key key then some o.text_ else rest

abbrev pub select_value : Option String → String × String
select_value none = ("", "Please select one of the options")
select_value (some s) = (s, "")

-- The loop over the keys of a multiselect, on the texts so far.
abbrev pub texts_value : List String → String × String
texts_value [] = ("", "Please select at least one option")
texts_value (s ∷ ss) = (join (s ∷ ss) "\n", "")

abbrev pub one_more :
    Option String → (List String → String × String) → List String → String × String
one_more none rest texts = ("", "%q is not one of the options; please select only from the list")
one_more (some s) rest texts = rest (texts ++ s ∷ [])

unfoldable pub keys_value : List FieldOption → List String → List String → String × String
unfolding trim_space
keys_value os [] texts = texts_value texts
keys_value os (raw ∷ raws) texts =
    let rest = keys_value os raws in
    let key = trim_space raw in
    if str_eq key "" then rest texts else one_more (text_of os key) rest texts

-- What was entered for a field, or its default.
abbrev pub entered : Inputs → Field → String
entered inputs f =
    let raw = trim_space (answer_or_empty inputs f.id) in if str_eq raw "" then f.default else raw

abbrev pub refuse : String → String → FieldError
refuse id msg = record { field = str_append "body.fields." id; message = msg }

-- The second loop.
unfoldable pub unknown_fields : List String → Inputs → List FieldError
unknown_fields known [] = []
unknown_fields known ((id, v) ∷ m) =
    let rest = unknown_fields known m in
    if not (contains_text known id)
    then refuse id "this template has no such field" ∷ rest
    else rest

abbrev pub form_verdict : List FieldError → Inputs → Result Inputs
form_verdict [] values = ok values
form_verdict (p ∷ ps) values =
    err (classified (with_fields err_invalid_fields (sort_fields (p ∷ ps))))

module _ (print_date : String → String) where
  -- The cases of displayValue. `print_date` is what time.Parse reads of a date, in the layout
  -- "2 January 2006".
  unfoldable pub display_as : FieldType → Field → String → String × String
  unfolding keys_value
  display_as text f raw =
      if ltb 200 (len raw) then ("", "Please keep this under 200 characters") else (raw, "")
  display_as textarea f raw =
      if ltb 4000 (len raw) then ("", "Please keep this under 4000 characters") else (raw, "")
  display_as number f raw = number_value f.min f.max (atoi raw)
  display_as date f raw =
      if not (is_date raw) then ("", "Please enter a date as YYYY-MM-DD") else (print_date raw, "")
  display_as select f raw = select_value (text_of f.options raw)
  display_as multiselect f raw = keys_value f.options (split raw b',') []
  display_as (FieldType.other _) f raw = (raw, "")

  unfoldable pub display_value : Field → String → String × String
  unfolding display_as
  display_value f raw = display_as f.type_ f raw

  -- What the body of the first loop refuses.
  unfoldable pub field_problems : Inputs → Field → List FieldError
  unfolding display_value missing_field
  field_problems inputs f =
      let raw = entered inputs f in
      if str_eq raw ""
      then if f.required then refuse f.id (missing_field f.type_) ∷ [] else []
      else let msg = (display_value f raw).1 in
        if not (str_eq msg "") then refuse f.id msg ∷ [] else []

  -- What the body of the first loop puts into `values`.
  unfoldable pub field_values : Inputs → Field → Inputs
  unfolding display_value
  field_values inputs f =
      let raw = entered inputs f in
      let (v, msg) = display_value f raw in
      if str_eq raw "" || not (str_eq msg "") then [] else (f.id, v) ∷ []

  unfoldable pub form_problems : Inputs → List Field → List FieldError
  unfolding field_problems
  form_problems inputs [] = []
  form_problems inputs (f ∷ fs) = field_problems inputs f ++ form_problems inputs fs

  -- A later field with the same key replaces an earlier.
  unfoldable pub form_values : Inputs → List Field → Inputs
  unfolding field_values
  form_values inputs [] = []
  form_values inputs (f ∷ fs) = form_values inputs fs ++ field_values inputs f

  unfoldable pub validate : Template → Inputs → Result Inputs
  unfolding form_problems form_values unknown_fields
  validate t inputs =
      form_verdict (form_problems inputs t.fields ++ unknown_fields (field_ids t.fields) inputs)
        (form_values inputs t.fields)
