-- ===== src/Notice/Template/Override.antt =====
-- Apply of notice/template.go: a tenant's words laid over a template. A map is a list of pairs.
use Prim.Native.String.{◌++◌ as str_append}
use thesis_dispute_engine.Prelude.{
  String, Bool, true, false, not, Option, none, some, List, [], ◌∷◌, ◌++◌, str_eq, if◌then◌else◌,
}
use thesis_dispute_engine.Prelude.Strings.{trim_space, cut}
use thesis_dispute_engine.Result.{Result, ok, err}
use thesis_dispute_engine.Errs.{
  Error, FieldError, GoError, unprocessable, new, classified, wrapped, opaque, with_fields,
}
use thesis_dispute_engine.Domain.Questionnaire.{sort_fields}
use thesis_dispute_engine.Notice.Template.{
  FieldOption, Field, Template, check_template, is_none_left,
}

pub record Override : Type 0 where
  pub label : String
  pub description : String
  pub subject : String
  pub paragraphs : List String
  pub option_texts : List (String × String)

abbrev pub err_invalid_override : Error
err_invalid_override =
    new unprocessable "invalid-template-override" "the template wording is not valid for its form"

-- slices.IndexFunc by key, as a test
abbrev pub has_option : List FieldOption → String → Bool
has_option [] key = false
has_option (o ∷ os) key = let rest = has_option os key in if str_eq o.key key then true else rest

abbrev pub options_of : List Field → String → Option (List FieldOption)
options_of [] id = none
options_of (f ∷ fs) id =
    let rest = options_of fs id in if str_eq f.id id then some f.options else rest

abbrev pub set_text : String → String → List FieldOption → List FieldOption
set_text key new_text [] = []
set_text key new_text (o ∷ os) =
    let rest = set_text key new_text os in
    if str_eq o.key key then record o { text_ = new_text } ∷ os else o ∷ rest

abbrev pub set_field : String → String → String → List Field → List Field
set_field id key new_text [] = []
set_field id key new_text (f ∷ fs) =
    let rest = set_field id key new_text fs in
    if str_eq f.id id then record f { options = set_text key new_text f.options } ∷ fs else f ∷ rest

abbrev pub option_problem : Option (List FieldOption) → String → String → Option String
option_problem none key new_text = some "no such field"
option_problem (some os) key new_text =
    if not (has_option os key)
    then some "no such option"
    else if str_eq (trim_space new_text) ""
    then some "text must not be empty"
    else none

abbrev pub text_problem : List Field → Option (String × String) → String → Option String
text_problem fs none new_text = some "no such field"
text_problem fs (some (id, key)) new_text = option_problem (options_of fs id) key new_text

abbrev pub with_text : List Field → Option (String × String) → String → List Field
with_text fs none new_text = fs
with_text fs (some (id, key)) new_text = elim (option_problem (options_of fs id) key new_text) [
  | none ↦ set_field id key new_text fs
  | some _ ↦ fs
]

abbrev pub noted : String → Option String → List FieldError
noted key none = []
noted key (some msg) = record { field = str_append "body.optionTexts." key; message = msg } ∷ []

-- The loop over the texts of options: the fields, and what is refused.
unfoldable pub set_texts : List (String × String) → List Field → List Field × List FieldError
unfolding cut
set_texts [] fs = (fs, [])
set_texts ((key, new_text) ∷ texts) fs =
    let at = cut key b'.' in
    let (gs, problems) = set_texts texts (with_text fs at new_text) in
    (gs, noted key (text_problem fs at new_text) ++ problems)

abbrev pub or_base : String → String → String
or_base s base = if str_eq s "" then base else s

abbrev pub laid_over : Template → Override → List Field → Template
laid_over base o fields = record base {
  label = or_base o.label base.label;
  description = or_base o.description base.description;
  subject = or_base o.subject base.subject;
  paragraphs = if is_none_left o.paragraphs then base.paragraphs else o.paragraphs;
  fields = fields;
}

-- err.Error(), with format strings for messages
abbrev pub error_text : GoError → String
error_text (opaque s) = s
error_text (classified e) = e.msg
error_text (wrapped context e) = str_append context (str_append ": " (error_text e))

abbrev pub check_problems : Result (Unit {0}) → List FieldError
check_problems (ok _) = []
check_problems (err e) = record { field = "body"; message = error_text e } ∷ []

abbrev pub apply_verdict : List FieldError → Template → Result Template
apply_verdict [] t = ok t
apply_verdict (p ∷ ps) t =
    err (classified (with_fields err_invalid_override (sort_fields (p ∷ ps))))

unfoldable pub apply : Template → Override → Result Template
unfolding set_texts check_template
apply base o =
    let (fields, problems) = set_texts o.option_texts base.fields in
    let t = laid_over base o fields in
    apply_verdict (problems ++ check_problems (check_template t)) t
