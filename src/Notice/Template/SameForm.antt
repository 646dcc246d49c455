-- ===== src/Notice/Template/SameForm.antt =====
-- What an override leaves alone (Apply and Validate of notice/template.go).
pub mod Verdicts
use thesis_dispute_engine.Prelude.{
  String, ◌≡◌, refl, sym, ap, ◌∙◌, inl, inr, Bool, true, false, Option, none, some, List, [], ◌∷◌,
  ◌++◌, map, str_eq, Bool-cases, ◌⊎◌, ◌≢◌, arith, eq_iff, if◌then◌else◌,
}
use mathlib.Core.Path.{subst}
use thesis_dispute_engine.Prelude.Strings.{trim_space, cut}
use thesis_dispute_engine.Result.{Result, ok, err, ok-injective}
use thesis_dispute_engine.Errs.{FieldError}
use thesis_dispute_engine.Domain.Questionnaire.Validation.{append-eq-nil}
use thesis_dispute_engine.Notice.Template.{
  FieldType, FieldOption, Field, Template, check_template, is_none_left, field_ids,
}
use thesis_dispute_engine.Notice.Template.Override.{
  Override, set_text, set_field, text_problem, with_text, noted, set_texts, or_base, laid_over,
  check_problems, apply_verdict, apply, options_of, option_problem,
}

-- A field without the words of its options.
abbrev pub bare_option : FieldOption → FieldOption
bare_option o = record o { text_ = "" }

abbrev pub bare : Field → Field
bare f = record f { options = map bare_option f.options }

set_text-bare :
    (key s : String) (os : List FieldOption)
    → map bare_option (set_text key s os) ≡ map bare_option os
set_text-bare key s [] = refl
set_text-bare key s (o ∷ os) = elim (Bool-cases (str_eq o.key key)) [
  | inl same ↦ rw same refl
  | inr other ↦ rw other (ap (λ xs. bare_option o ∷ xs) (set_text-bare key s os))
]

set_field-bare :
    (id key s : String) (fs : List Field) → map bare (set_field id key s fs) ≡ map bare fs
set_field-bare id key s [] = refl
set_field-bare id key s (f ∷ fs) = elim (Bool-cases (str_eq f.id id)) [
  | inl same ↦
      rw same (ap (λ os. record f { options = os } ∷ map bare fs) (set_text-bare key s f.options))
  | inr other ↦ rw other (ap (λ xs. bare f ∷ xs) (set_field-bare id key s fs))
]

with_text-bare :
    (fs : List Field) (at : Option (String × String)) (s : String)
    → map bare (with_text fs at s) ≡ map bare fs
with_text-bare fs none s = refl
with_text-bare fs (some (id, key)) s = go (option_problem (options_of fs id) key s)
  where
    go :
        (p : Option String)
        → map bare (elim p [ none ↦ set_field id key s fs | some _ ↦ fs ]) ≡ map bare fs
    go none = set_field-bare id key s fs
    go (some _) = refl

set_texts-bare :
    (texts : List (String × String)) (fs : List Field)
    → map bare (set_texts texts fs).0 ≡ map bare fs
unfolding set_texts
set_texts-bare [] fs = refl
set_texts-bare ((key, s) ∷ texts) fs =
    set_texts-bare texts (with_text fs (cut key b'.') s) ∙ with_text-bare fs (cut key b'.') s

-- What the second template asks of an analyst is what the first asks.
pub record SameForm (base t : Template) : Type 0 where
  pub kind : t.kind ≡ base.kind
  pub letter : t.letter ≡ base.letter
  pub fields : map bare t.fields ≡ map bare base.fields

-- The words that an override leaves empty are the template's.
abbrev pub IsLaid : String → String → String → Type 0
IsLaid base new_text result =
    ((new_text ≡ "") × (result ≡ base)) ⊎ ((new_text ≢ "") × (result ≡ new_text))

or_base-IsLaid : (base s : String) → IsLaid base s (or_base s base)
or_base-IsLaid base s = ground (arith, eq_iff s "")

abbrev pub AreLaid : List String → List String → List String → Type 0
AreLaid base [] result = result ≡ base
AreLaid base (s ∷ ss) result = result ≡ s ∷ ss

are_laid :
    (base new_texts : List String)
    → AreLaid base new_texts (if is_none_left new_texts then base else new_texts)
are_laid base [] = refl
are_laid base (s ∷ ss) = refl

pub record Overrides (base : Template) (o : Override) (t : Template) : Type 0 where
  pub same_form : SameForm base t
  pub checked : check_template t ≡ ok tt
  pub label : IsLaid base.label o.label t.label
  pub description : IsLaid base.description o.description t.description
  pub subject : IsLaid base.subject o.subject t.subject
  pub paragraphs : AreLaid base.paragraphs o.paragraphs t.paragraphs
  pub fitting : (set_texts o.option_texts base.fields).1 ≡ []

laid_over-Overrides :
    (base : Template) (o : Override)
    → check_template (laid_over base o (set_texts o.option_texts base.fields).0) ≡ ok tt
    → (set_texts o.option_texts base.fields).1 ≡ []
    → Overrides base o (laid_over base o (set_texts o.option_texts base.fields).0)
laid_over-Overrides base o checked fitting = record {
  same_form = record {
    kind = refl;
    letter = refl;
    fields = set_texts-bare o.option_texts base.fields;
  };
  checked = checked;
  label = or_base-IsLaid base.label o.label;
  description = or_base-IsLaid base.description o.description;
  subject = or_base-IsLaid base.subject o.subject;
  paragraphs = are_laid base.paragraphs o.paragraphs;
  fitting = fitting;
}

apply_verdict-ok :
    (ps : List FieldError) (t u : Template) → apply_verdict ps t ≡ ok u → (ps ≡ []) × (t ≡ u)
apply_verdict-ok [] t u h = (refl, ok-injective h)
apply_verdict-ok (p ∷ ps) t u h = absurd (cc)

check_problems-nil : (r : Result (Unit {0})) → check_problems r ≡ [] → r ≡ ok tt
check_problems-nil (ok tt) h = refl
check_problems-nil (err e) h = absurd (cc)

-- An override that is accepted makes a template of the base's kind with the base's form: the fields
-- agree but for the texts of their options. The template passes the checks of a template file. Its
-- label, description, subject and paragraphs are the override's where it has them and the base's
-- where it does not, and no text that the override has for an option was refused.
pub apply-Overrides : (base t : Template) (o : Override) → apply base o ≡ ok t → Overrides base o t
unfolding apply
apply-Overrides base t o h =
    let fields = (set_texts o.option_texts base.fields).0 in
    let problems = (set_texts o.option_texts base.fields).1 in
    let made = laid_over base o fields in
    let (clean, result) =
      apply_verdict-ok (problems ++ check_problems (check_template made)) made t h in
    let (fitting, checked) = append-eq-nil problems (check_problems (check_template made)) clean in
    subst (Overrides base o) result
      (laid_over-Overrides base o (check_problems-nil (check_template made) checked) fitting)
