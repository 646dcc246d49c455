-- ===== src/Tests/Templates.antt =====
-- Runs of the templates of notice/template.go: a tenant's words on a template, and a form.
use thesis_dispute_engine.Prelude.{
  String, ◌≡◌, refl, ◌↔◌, inl, inr, true, false, none, [], ◌∷◌, arith, eq_iff, All,
}
use thesis_dispute_engine.Prelude.Strings.{trim_space, split, join, cut, atoi, contains_char}
use thesis_dispute_engine.Result.{ok, err}
use thesis_dispute_engine.Errs.{GoError, classified, with_fields}
use thesis_dispute_engine.Domain.Vocabulary.{NoticeKind}
use thesis_dispute_engine.Domain.Questionnaire.{answer}
use thesis_dispute_engine.Notice.Template.{
  text, multiselect, FieldOption, Field, Template, check_options, check_field, check_fields,
  check_names, check_texts, check_template,
}
use thesis_dispute_engine.Notice.Template.Form.{
  Inputs, err_invalid_fields, keys_value, display_as, display_value, field_problems, field_values,
  form_problems, form_values, unknown_fields, validate,
}
use thesis_dispute_engine.Notice.Template.Form.Accepted.{IsFilled, IsKnown, validate_iff}
use thesis_dispute_engine.Notice.Template.Override.{Override, set_texts, apply}
use thesis_dispute_engine.Notice.Template.Pieces.{
  plain, words, place, pieces_from, pieces, placeholder_names,
}
use thesis_dispute_engine.Notice.Template.SameForm.{Overrides, apply-Overrides}
use thesis_dispute_engine.Notice.Template.SameForm.Verdicts.{apply-validate}
use thesis_dispute_engine.Notice.Template.Filling.{
  FactValues, Times, fact_map, all_values, sections, substitute, fill,
}
use thesis_dispute_engine.Notice.Template.Filling.Facts.{validated-facts}

abbrev field_named : String → Field
field_named id = record {
  id = id;
  label = "A label";
  type_ = text;
  required = true;
  options = [];
  list = false;
  default = "";
  min = none;
  max = none;
}

abbrev choice : String → String → FieldOption
choice key text_ = record { key = key; label = key; text_ = text_ }

abbrev reply_field : String → Field
reply_field first = record (field_named "reply") {
  type_ = multiselect;
  options = choice "post" first ∷ choice "visit" "come to a branch" ∷ [];
}

abbrev base_template : Template
base_template = record {
  kind = NoticeKind.status_update;
  label = "Status";
  description = "What happens next.";
  letter = false;
  fields = field_named "body" ∷ reply_field "write to us" ∷ [];
  subject = "Dispute {{dispute}}";
  paragraphs = "{{body}}" ∷ "You may {{reply}}." ∷ [];
}

abbrev wording : Override
wording = record {
  label = "";
  description = "";
  subject = "Your dispute {{dispute}}";
  paragraphs = [];
  option_texts = ("reply.post", "send a letter") ∷ [];
}

abbrev worded : Template
worded = record base_template {
  subject = "Your dispute {{dispute}}";
  fields = field_named "body" ∷ reply_field "send a letter" ∷ [];
}

apply_run : apply base_template wording ≡ ok worded
unfolding apply set_texts cut trim_space check_template check_fields check_field check_options
    contains_char check_texts check_names placeholder_names pieces_from pieces
apply_run = refl

worded_checked : check_template worded ≡ ok tt
unfolding check_template check_fields check_field check_options contains_char check_texts
    check_names placeholder_names pieces_from pieces
worded_checked = refl

abbrev print_date : String → String
print_date s = s

abbrev form_entries : Inputs
form_entries = ("body", " We are waiting. ") ∷ ("reply", "post, visit") ∷ []

abbrev shown_entries : Inputs
shown_entries = ("reply", "send a letter\ncome to a branch") ∷ ("body", "We are waiting.") ∷ []

validate_run : validate print_date worded form_entries ≡ ok shown_entries
unfolding validate form_problems field_problems form_values field_values unknown_fields
    display_value display_as keys_value trim_space split join answer
validate_run = refl

abbrev times : Times
times = record { format_day = λ _. "1 January 2026"; add_days = λ t _. t }

abbrev known : FactValues
known = record {
  customer = "Ada";
  bank = "Bank";
  amount = "12.00 EUR";
  merchant = "ACME";
  dispute = "d1";
  today = 0;
}

apply-Overrides_example : Overrides base_template wording worded
apply-Overrides_example = apply-Overrides base_template worded wording apply_run

abbrev refusal : GoError
refusal = classified (
    with_fields err_invalid_fields
      (record { field = "body.fields.body"; message = "Please fill in %q" } ∷ []))

apply-validate_example :
    (validate print_date worded [] ≡ err refusal)
    ↔ (validate print_date base_template [] ≡ err refusal)
apply-validate_example = apply-validate print_date base_template worded wording [] refusal apply_run

validate_iff_example :
    ((values : Inputs) × (validate print_date worded form_entries ≡ ok values))
    ↔ (All (IsFilled print_date form_entries) worded.fields × All (IsKnown worded) form_entries)
validate_iff_example = validate_iff print_date worded form_entries

validated-facts_example :
    answer (all_values times known shown_entries) "amount" ≡ answer (fact_map times known) "amount"
validated-facts_example =
    validated-facts print_date times worded form_entries shown_entries known "amount" worded_checked
      validate_run (inr (inr (inl refl))) (ground (arith, eq_iff "amount" "dueDate"))

pieces_run :
    pieces "a {{b}} {{{c}} {{#d"
    ≡ words "a " ∷ place plain "b" ∷ words " {" ∷ place plain "c" ∷ words " {{#d" ∷ []
unfolding pieces pieces_from
pieces_run = refl

filled_run :
    (fill times worded known shown_entries).paragraphs
    ≡ "We are waiting." ∷ "You may send a letter\ncome to a branch." ∷ []
unfolding fill all_values substitute sections pieces pieces_from trim_space split join answer atoi
filled_run = refl
