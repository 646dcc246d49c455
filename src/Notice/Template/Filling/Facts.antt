-- ===== src/Notice/Template/Filling/Facts.antt =====
-- What the engine says of a dispute is not what an analyst types (LoadTemplates, Validate and Fill of
-- notice/template.go).
use thesis_dispute_engine.Prelude.{
  String, ◌≡◌, refl, ap, ◌∙◌, ◌≢◌, ◌⊎◌, inl, inr, false, Option, none, some, List, [], ◌∷◌, ◌++◌,
  str_eq, eq_iff, Bool-cases, In, All, arith,
}
use thesis_dispute_engine.Prelude.Int.{ℤ}
use thesis_dispute_engine.Prelude.Strings.{atoi}
use mathlib.Core.Path.{subst}
use thesis_dispute_engine.Result.{Result, ok, err, ok-injective}
use thesis_dispute_engine.Errs.{FieldError, GoError}
use thesis_dispute_engine.Application.Money.Laws.{append_assoc}
use thesis_dispute_engine.Domain.QuestionSets.{contains_text}
use thesis_dispute_engine.Domain.Questionnaire.{answer, answer_or_empty}
use thesis_dispute_engine.Domain.Questionnaire.Validation.{contains_text_iff}
use thesis_dispute_engine.Notice.Template.{
  Field, Template, fact_names, bind, check_field, check_fields, field_ids, check_template,
}
use thesis_dispute_engine.Notice.Template.Form.{
  Inputs, field_values, form_values, form_problems, unknown_fields, form_verdict, validate,
}
use thesis_dispute_engine.Notice.Template.Filling.{
  FactValues, Times, fact_map, with_due_date, all_values,
}

bind-ok :
    {A B : Type 0} (r : Result A) (s : Result B) (b : B)
    → bind r s ≡ ok b
    → ((a : A) × (r ≡ ok a)) × (s ≡ ok b)
bind-ok (ok a) s b h = ((a, refl), h)
bind-ok (err e) s b h = absurd (cc)

-- The field's identifier is no fact's name.
abbrev IsOwn : Field → Type 0
IsOwn f = contains_text fact_names f.id ≡ false

check_field-IsOwn :
    (ids : List String) (f : Field) (u : Unit {0}) → check_field ids f ≡ ok u → IsOwn f
unfolding check_field
check_field-IsOwn ids f u h = ground arith

check_fields-IsOwn :
    (ids : List String) (fs : List Field) → check_fields ids fs ≡ ok tt → All IsOwn fs
unfolding check_fields
check_fields-IsOwn ids [] h = tt
check_fields-IsOwn ids (f ∷ fs) h =
    let ((u, here), there) = bind-ok (check_field ids f) (check_fields (f.id ∷ ids) fs) tt h in
    (check_field-IsOwn ids f u here, check_fields-IsOwn (f.id ∷ ids) fs there)

Result-cases : {A : Type 0} (r : Result A) → ((a : A) × (r ≡ ok a)) ⊎ ((e : GoError) × (r ≡ err e))
Result-cases (ok a) = inl (a, refl)
Result-cases (err e) = inr (e, refl)

check_template-fields : (t : Template) → check_template t ≡ ok tt → check_fields [] t.fields ≡ ok tt
unfolding check_template
check_template-fields t h = elim (Result-cases (check_fields [] t.fields)) [
  | inl (tt, fine) ↦ fine
  | inr (e, bad) ↦ let k = rw bad at h in absurd (ground arith)
]

-- Looking the name up passes over the pairs.
abbrev Skips : String → Inputs → Type 0
Skips name vs = (m : Inputs) → answer (vs ++ m) name ≡ answer m name

append-Skips :
    (name : String) (vs ws : Inputs) → Skips name vs → Skips name ws → Skips name (vs ++ ws)
append-Skips name vs ws a b m =
    ap (λ (l : Inputs). answer l name) (append_assoc vs ws m) ∙ a (ws ++ m) ∙ b m

own-other : (f : Field) (name : String) → IsOwn f → In name fact_names → str_eq f.id name ≡ false
own-other f name own fact = elim (Bool-cases (str_eq f.id name)) [
  | inl same ↦
      let inside = (contains_text_iff fact_names name).1 fact in
      let is = (eq_iff f.id name).0 same in absurd (ground (arith))
  | inr other ↦ other
]

module _ (print_date : String → String) where
  field_values-Skips :
      (inputs : Inputs) (f : Field) (name : String)
      → str_eq f.id name ≡ false
      → Skips name (field_values print_date inputs f)
  unfolding field_values answer
  field_values-Skips inputs f name other m = ground arith

  form_values-Skips :
      (inputs : Inputs) (fs : List Field) (name : String)
      → All IsOwn fs
      → In name fact_names
      → Skips name (form_values print_date inputs fs)
  unfolding form_values
  form_values-Skips inputs [] name own fact = λ m. refl
  form_values-Skips inputs (f ∷ fs) name own fact =
      append-Skips name (form_values print_date inputs fs) (field_values print_date inputs f)
        (form_values-Skips inputs fs name own.1 fact)
        (field_values-Skips inputs f name (own-other f name own.0 fact))

form_verdict-ok :
    (ps : List FieldError) (vs ws : Inputs) → form_verdict ps vs ≡ ok ws → (ps ≡ []) × (vs ≡ ws)
form_verdict-ok [] vs ws h = (refl, ok-injective h)
form_verdict-ok (p ∷ ps) vs ws h = absurd (cc)

pub validate-ok :
    (print_date : String → String) (t : Template) (inputs values : Inputs)
    → validate print_date t inputs ≡ ok values
    → (form_problems print_date inputs t.fields ++ unknown_fields (field_ids t.fields) inputs ≡ [])
      × (form_values print_date inputs t.fields ≡ values)
unfolding validate
validate-ok print_date t inputs values h = form_verdict-ok _ _ _ h

due_date-other :
    (times : Times) (f : FactValues) (days : Option ℤ) (all : Inputs) (name : String)
    → name ≢ "dueDate"
    → answer (with_due_date times f days all) name ≡ answer all name
unfolding answer
due_date-other times f none all name h = refl
due_date-other times f (some days) all name h = ground (arith, eq_iff "dueDate" name)

-- When a template passes the checks of a template file and its form accepts what was entered, the
-- values from which a notice is filled give each fact, the due date apart, the value that the engine
-- gives it.
pub validated-facts :
    (print_date : String → String) (times : Times) (t : Template) (inputs values : Inputs)
    (f : FactValues) (name : String)
    → check_template t ≡ ok tt
    → validate print_date t inputs ≡ ok values
    → In name fact_names
    → name ≢ "dueDate"
    → answer (all_values times f values) name ≡ answer (fact_map times f) name
unfolding all_values
validated-facts print_date times t inputs values f name checked valid fact other =
    let own = check_fields-IsOwn [] t.fields (check_template-fields t checked) in
    let is = (validate-ok print_date t inputs values valid).1 in
    due_date-other times f (atoi (answer_or_empty values "days")) (values ++ fact_map times f) name
      other
    ∙ subst (Skips name) is (form_values-Skips print_date inputs t.fields name own fact)
        (fact_map times f)
