-- ===== src/Notice/Template/SameForm/Verdicts.antt =====
-- The form of a template with a tenant's words refuses what the template's form refuses (Apply and
-- Validate of notice/template.go).
use thesis_dispute_engine.Prelude.{
  String, ◌≡◌, refl, sym, ap, ◌∙◌, ◌↔◌, inl, inr, Option, none, some, List, [], ◌∷◌, ◌++◌, map,
  str_eq, Bool-cases,
}
use thesis_dispute_engine.Prelude.Strings.{trim_space, split}
use thesis_dispute_engine.Result.{ok, err}
use thesis_dispute_engine.Errs.{FieldError, GoError}
use thesis_dispute_engine.Notice.Template.{
  FieldType, text, textarea, number, date, select, multiselect, FieldOption, Field, Template,
  field_ids, is_none_left,
}
use thesis_dispute_engine.Notice.Template.Form.{
  Inputs, text_of, select_value, texts_value, one_more, keys_value, display_as, display_value,
  entered, field_problems, form_problems, form_values, unknown_fields, form_verdict, validate,
}
use thesis_dispute_engine.Notice.Template.Form.Accepted.{is_none_left-snoc}
use thesis_dispute_engine.Notice.Template.Override.{Override, apply}
use thesis_dispute_engine.Notice.Template.SameForm.{bare_option, bare, apply-Overrides}

-- Whether an option has the key, in both forms.
data Alike : Option String → Option String → Type 0 where
  neither : Alike none none
  either : (s t : String) → Alike (some s) (some t)

text_of-Alike :
    (os : List FieldOption) (key : String)
    → Alike (text_of (map bare_option os) key) (text_of os key)
text_of-Alike [] key = neither
text_of-Alike (o ∷ os) key = elim (Bool-cases (str_eq o.key key)) [
  | inl same ↦ rw same (either "" o.text_)
  | inr other ↦ rw other (text_of-Alike os key)
]

select_value-Alike : (a b : Option String) → Alike a b → (select_value a).1 ≡ (select_value b).1
select_value-Alike a b neither = refl
select_value-Alike a b (either s t) = refl

texts_value-same :
    (ss ts : List String)
    → is_none_left ss ≡ is_none_left ts
    → (texts_value ss).1 ≡ (texts_value ts).1
texts_value-same [] [] h = refl
texts_value-same [] (t ∷ ts) h = absurd (cc)
texts_value-same (s ∷ ss) [] h = absurd (cc)
texts_value-same (s ∷ ss) (t ∷ ts) h = refl

one_more-same :
    (f g : List String → String × String) (ss ts : List String) (a b : Option String)
    → ((us vs : List String) → is_none_left us ≡ is_none_left vs → (f us).1 ≡ (g vs).1)
    → Alike a b
    → (one_more a f ss).1 ≡ (one_more b g ts).1
one_more-same f g ss ts a b h neither = refl
one_more-same f g ss ts a b h (either s t) =
    h (ss ++ s ∷ []) (ts ++ t ∷ []) (is_none_left-snoc ss s ∙ sym (is_none_left-snoc ts t))

-- The loop over the keys: both forms find a key or neither does.
keys_value-same :
    (os : List FieldOption) (raws ss ts : List String)
    → is_none_left ss ≡ is_none_left ts
    → (keys_value (map bare_option os) raws ss).1 ≡ (keys_value os raws ts).1
unfolding keys_value
keys_value-same os [] ss ts h = texts_value-same ss ts h
keys_value-same os (raw ∷ raws) ss ts h =
    let rest = keys_value-same os raws in
    elim (Bool-cases (str_eq (trim_space raw) "")) [
      | inl blank ↦ rw blank (rest ss ts h)
      | inr some_ ↦ rw some_ (
          one_more-same (keys_value (map bare_option os) raws) (keys_value os raws) ss ts
            (text_of (map bare_option os) (trim_space raw)) (text_of os (trim_space raw)) rest
            (text_of-Alike os (trim_space raw)))
    ]

form_verdict-err :
    (ps : List FieldError) (vs ws : Inputs) (e : GoError)
    → form_verdict ps vs ≡ err e
    → form_verdict ps ws ≡ err e
form_verdict-err [] vs ws e h = absurd (cc)
form_verdict-err (p ∷ ps) vs ws e h = h

field_ids-bare : (fs : List Field) → field_ids (map bare fs) ≡ field_ids fs
field_ids-bare [] = refl
field_ids-bare (f ∷ fs) = ap (λ ids. f.id ∷ ids) (field_ids-bare fs)

module _ (print_date : String → String) where
  display_as-bare :
      (t : FieldType) (f : Field) (raw : String)
      → (display_as print_date t (bare f) raw).1 ≡ (display_as print_date t f raw).1
  unfolding display_as
  display_as-bare text f raw = refl
  display_as-bare textarea f raw = refl
  display_as-bare number f raw = refl
  display_as-bare date f raw = refl
  display_as-bare select f raw = select_value-Alike _ _ (text_of-Alike f.options raw)
  display_as-bare multiselect f raw = keys_value-same f.options (split raw b',') [] [] refl
  display_as-bare (FieldType.other _) f raw = refl

  field_problems-bare :
      (inputs : Inputs) (f : Field)
      → field_problems print_date inputs (bare f) ≡ field_problems print_date inputs f
  unfolding field_problems display_value
  field_problems-bare inputs f = rw (display_as-bare f.type_ f (entered inputs f)) refl

  form_problems-bare :
      (inputs : Inputs) (fs : List Field)
      → form_problems print_date inputs (map bare fs) ≡ form_problems print_date inputs fs
  unfolding form_problems
  form_problems-bare inputs [] = refl
  form_problems-bare inputs (f ∷ fs) =
      rw (field_problems-bare inputs f, form_problems-bare inputs fs) refl

  -- Forms that agree but for the texts of options.
  form_problems-same :
      (inputs : Inputs) (fs gs : List Field)
      → map bare fs ≡ map bare gs
      → form_problems print_date inputs fs ++ unknown_fields (field_ids fs) inputs
        ≡ form_problems print_date inputs gs ++ unknown_fields (field_ids gs) inputs
  form_problems-same inputs fs gs h =
      rw
        (
          ← form_problems-bare inputs fs,
          ← form_problems-bare inputs gs,
          ← field_ids-bare fs,
          ← field_ids-bare gs,
          h,
        )
        refl

  validate-err :
      (s t : Template) (inputs : Inputs) (e : GoError)
      → map bare s.fields ≡ map bare t.fields
      → validate print_date s inputs ≡ err e
      → validate print_date t inputs ≡ err e
  unfolding validate
  validate-err s t inputs e same h =
      form_verdict-err _ (form_values print_date inputs s.fields) _ e
        (rw (← form_problems-same inputs s.fields t.fields same) h)

  -- An override that is accepted changes nothing of what an analyst may enter: the form of the
  -- template that it makes refuses the inputs that the form of its base refuses, with the same error.
  pub apply-validate :
      (base t : Template) (o : Override) (inputs : Inputs) (e : GoError)
      → apply base o ≡ ok t
      → (validate print_date t inputs ≡ err e) ↔ (validate print_date base inputs ≡ err e)
  apply-validate base t o inputs e h =
      let same = (apply-Overrides base t o h).same_form.fields in
      (validate-err t base inputs e same, validate-err base t inputs e (sym same))
