-- ===== src/Notice/Template.antt =====
-- notice/template.go: a template, and the checks of a file of templates. Decoding a file is left to
-- encoding/json; the regular expression of a placeholder is in Template.Pieces.
pub mod Filling
pub mod Form
pub mod Override
pub mod Pieces
pub mod SameForm
use thesis_dispute_engine.Prelude.{
  String, Bool, true, false, not, ◌&&◌, ◌||◌, Option, none, some, List, [], ◌∷◌, ◌++◌, map, str_eq,
  if◌then◌else◌,
}
use thesis_dispute_engine.Prelude.Int.{ℤ}
use thesis_dispute_engine.Prelude.Strings.{contains_char}
use thesis_dispute_engine.Result.{Result, ok, err}
use thesis_dispute_engine.Errs.{wrap, opaque}
use thesis_dispute_engine.Domain.Vocabulary.{NoticeKind}
use thesis_dispute_engine.Domain.QuestionSets.{contains_text}
use thesis_dispute_engine.Notice.Template.Pieces.{placeholder_names}

pub data FieldType : Type 0 where
  text textarea number date select multiselect : FieldType
  other : String → FieldType

pub record FieldOption : Type 0 where
  pub key : String
  pub label : String
  pub text_ : String

pub record Field : Type 0 where
  pub id : String
  pub label : String
  pub type_ : FieldType
  pub required : Bool
  pub options : List FieldOption
  pub list : Bool
  pub default : String
  pub min : Option ℤ
  pub max : Option ℤ

pub record Template : Type 0 where
  pub kind : NoticeKind
  pub label : String
  pub description : String
  pub letter : Bool
  pub fields : List Field
  pub subject : String
  pub paragraphs : List String

abbrev pub fact_names : List String
fact_names = "customer" ∷ "bank" ∷ "amount" ∷ "merchant" ∷ "dispute" ∷ "today" ∷ "dueDate" ∷ []

-- slices.Contains(ManualNoticeKinds(), kind)
abbrev is_manual : NoticeKind → Bool
is_manual NoticeKind.request_for_information = true
is_manual NoticeKind.status_update = true
is_manual NoticeKind.documents_received = true
is_manual NoticeKind.custom = true
is_manual _ = false

abbrev is_known_field : FieldType → Bool
is_known_field (FieldType.other _) = false
is_known_field _ = true

abbrev is_choice : FieldType → Bool
is_choice FieldType.select = true
is_choice FieldType.multiselect = true
is_choice _ = false

abbrev pub is_none_left : {A : Type 0} → List A → Bool
is_none_left [] = true
is_none_left (_ ∷ _) = false

abbrev is_bad_option : FieldOption → Bool
is_bad_option o =
    str_eq o.key "" || str_eq o.label "" || str_eq o.text_ "" || contains_char b',' o.key

unfoldable pub check_options : List FieldOption → Result (Unit {0})
check_options [] = ok tt
check_options (o ∷ os) =
    let rest = check_options os in
    if is_bad_option o
    then err (opaque "field %q: option %+v needs key, label and text, and no comma in the key")
    else rest

abbrev pub bind : {A B : Type 0} → Result A → Result B → Result B
bind (ok _) rest = rest
bind (err e) rest = err e

-- The body of the loop over the fields; `ids` are those seen so far.
unfoldable pub check_field : List String → Field → Result (Unit {0})
unfolding check_options
check_field ids f =
    if str_eq f.id "" || str_eq f.label ""
    then err (opaque "field %+v needs an id and a label")
    else if contains_text ids f.id || contains_text fact_names f.id
    then err (opaque "field id %q repeated or shadows a fact")
    else if not (is_known_field f.type_)
    then err (opaque "field %q: unknown type %q")
    else if is_choice f.type_ && is_none_left f.options
    then err (opaque "field %q: a select needs options")
    else check_options f.options

unfoldable pub check_fields : List String → List Field → Result (Unit {0})
unfolding check_field
check_fields ids [] = ok tt
check_fields ids (f ∷ fs) = bind (check_field ids f) (check_fields (f.id ∷ ids) fs)

abbrev pub field_ids : List Field → List String
field_ids fs = map (λ (f : Field). f.id) fs

unfoldable pub check_names : List String → List String → Result (Unit {0})
check_names ids [] = ok tt
check_names ids (name ∷ names) =
    let rest = check_names ids names in
    if not (contains_text ids name) && not (contains_text fact_names name)
    then err (opaque "placeholder %q is neither a field nor a fact")
    else rest

unfoldable pub check_texts : List String → List String → Result (Unit {0})
unfolding check_names placeholder_names
check_texts ids [] = ok tt
check_texts ids (s ∷ ss) = bind (check_names ids (placeholder_names s)) (check_texts ids ss)

unfoldable pub check_template : Template → Result (Unit {0})
unfolding check_fields check_texts
check_template t =
    if not (is_manual t.kind)
    then err (opaque "kind %q is not a manual notice kind")
    else if str_eq t.label "" || str_eq t.subject "" || is_none_left t.paragraphs
    then err (opaque "needs a label, a subject and paragraphs")
    else bind (check_fields [] t.fields)
        (check_texts (field_ids t.fields) (t.subject ∷ t.paragraphs))
