-- ===== src/Notice/Template/Form/Accepted.antt =====
-- What a template's form accepts (Validate of notice/template.go).
use Prim.Native.String.{len}
use thesis_dispute_engine.Prelude.{
  ◌≤◌, String, ◌≡◌, refl, sym, ap, ◌∙◌, ◌≢◌, ◌↔◌, ◌⊎◌, inl, inr, true, false, ◌&&◌, Option, none,
  some, List, [], ◌∷◌, ◌++◌, some_inj, str_eq, eq_iff, Bool-cases, In, All, arith, if◌then◌else◌,
}
use thesis_dispute_engine.Prelude.Dates.{is_date}
use thesis_dispute_engine.Prelude.Int.{ℤ}
use thesis_dispute_engine.Prelude.Strings.{trim_space, split, atoi}
use thesis_dispute_engine.Result.{ok}
use thesis_dispute_engine.Errs.{FieldError}
use thesis_dispute_engine.Domain.Questionnaire.Validation.{contains_text_iff, append-eq-nil}
use thesis_dispute_engine.Notice.Template.{
  FieldType, text, textarea, number, date, select, multiselect, FieldOption, Field, Template,
  field_ids, is_none_left,
}
use thesis_dispute_engine.Notice.Template.Form.{
  Inputs, text_of, select_value, keys_value, one_more, number_value, is_below, is_beyond,
  display_as, display_value, entered, field_problems, form_problems, form_values, unknown_fields,
  form_verdict, validate,
}

-- The key of an option.
abbrev pub Named : List FieldOption → String → Type 0
Named os key = (o : FieldOption) × In o os × (o.key ≡ key)

-- The keys of a multiselect that are not blank.
abbrev pub chosen : List String → List String
unfolding trim_space
chosen [] = []
chosen (raw ∷ raws) =
    let rest = chosen raws in if str_eq (trim_space raw) "" then rest else trim_space raw ∷ rest

-- What each type of field asks of a text that is not empty.
abbrev pub IsWellFilled : FieldType → Field → String → Type 0
IsWellFilled text f raw = len raw ≤ 200
IsWellFilled textarea f raw = len raw ≤ 4000
IsWellFilled number f raw =
    (n : ℤ) × (atoi raw ≡ some n) × (is_below f.min n ≡ false) × (is_beyond f.max n ≡ false)
IsWellFilled date f raw = is_date raw ≡ true
IsWellFilled select f raw = Named f.options raw
IsWellFilled multiselect f raw =
    All (Named f.options) (chosen (split raw b',')) × (chosen (split raw b',') ≢ [])
IsWellFilled (FieldType.other _) f raw = Unit

text_of-Named : (os : List FieldOption) (key s : String) → text_of os key ≡ some s → Named os key
text_of-Named [] key s h = absurd (cc)
text_of-Named (o ∷ os) key s h = elim (Bool-cases (str_eq o.key key)) [
  | inl same ↦ (o, inl refl, (eq_iff o.key key).0 same)
  | inr other ↦ let (p, inside, is) = text_of-Named os key s (rw other at h) in (p, inr inside, is)
]

Named-text_of : (os : List FieldOption) (key : String) → text_of os key ≡ none → Named os key → ⊥
Named-text_of [] key h (o, inside, is) = inside
Named-text_of (p ∷ os) key h (o, inside, is) = elim (Bool-cases (str_eq p.key key)) [
  | inl same ↦ let k = rw same at h in absurd (cc)
  | inr other ↦ elim inside [
    | inl e ↦
        let k = (eq_iff p.key key).1 (ap (λ (x : FieldOption). x.key) (sym e) ∙ is) in absurd (cc)
    | inr there ↦ Named-text_of os key (rw other at h) (o, there, is)
  ]
]

select_value_iff :
    (os : List FieldOption) (raw : String) → ((select_value (text_of os raw)).1 ≡ "") ↔ Named os raw
select_value_iff os raw = go (text_of os raw) refl
  where
    go : (r : Option String) → text_of os raw ≡ r → ((select_value r).1 ≡ "") ↔ Named os raw
    go none e = (
      λ h. absurd (ground (arith, eq_iff "Please select one of the options" "")),
      λ n. absurd (Named-text_of os raw e n),
    )
    go (some s) e = (λ h. text_of-Named os raw s e, λ n. refl)

pub is_none_left-snoc : (ss : List String) (s : String) → is_none_left (ss ++ s ∷ []) ≡ false
is_none_left-snoc [] s = refl
is_none_left-snoc (t ∷ ss) s = refl

one_more_iff :
    (os : List FieldOption) (key : String) (keys ss : List String)
    (rest : List String → String × String) (o : Option String)
    → text_of os key ≡ o
    → ((s : String)
        → ((rest (ss ++ s ∷ [])).1 ≡ "")
          ↔ (All (Named os) keys × ((is_none_left (ss ++ s ∷ []) && is_none_left keys) ≡ false)))
    → ((one_more o rest ss).1 ≡ "")
      ↔ ((Named os key × All (Named os) keys) × ((is_none_left ss && false) ≡ false))
one_more_iff os key keys ss rest none e h = (
  λ k.
      absurd (
        ground (arith, eq_iff "%q is not one of the options; please select only from the list" "")),
  λ k. absurd (Named-text_of os key e k.0.0),
)
one_more_iff os key keys ss rest (some s) e h = (
  λ k. ((text_of-Named os key s e, ((h s).0 k).0), ground arith),
  λ k. (h s).1 (k.0.1, rw (is_none_left-snoc ss s) refl),
)

-- The loop over the keys, on the texts so far.
keys_value_iff :
    (os : List FieldOption) (raws ss : List String)
    → ((keys_value os raws ss).1 ≡ "")
      ↔ (All (Named os) (chosen raws) × ((is_none_left ss && is_none_left (chosen raws)) ≡ false))
unfolding keys_value
keys_value_iff os [] [] =
    (λ h. absurd (ground (arith, eq_iff "Please select at least one option" "")), λ h. absurd (cc))
keys_value_iff os [] (s ∷ ss) = (λ h. (tt, refl), λ h. refl)
keys_value_iff os (raw ∷ raws) ss = elim (Bool-cases (str_eq (trim_space raw) "")) [
  | inl blank ↦ rw blank (keys_value_iff os raws ss)
  | inr some_ ↦ rw some_ (
      one_more_iff os (trim_space raw) (chosen raws) ss (keys_value os raws)
        (text_of os (trim_space raw)) refl (λ s. keys_value_iff os raws (ss ++ s ∷ [])))
]

none_left-false : (ss : List String) → is_none_left ss ≡ false → ss ≢ []
none_left-false [] h e = absurd (cc)
none_left-false (s ∷ ss) h e = absurd (cc)

false-none_left : (ss : List String) → ss ≢ [] → is_none_left ss ≡ false
false-none_left [] h = absurd (h refl)
false-none_left (s ∷ ss) h = refl

number_fits :
    (f : Field) (n : ℤ)
    → ((number_value f.min f.max (some n)).1 ≡ "")
      ↔ ((is_below f.min n ≡ false) × (is_beyond f.max n ≡ false))
number_fits f n = ground (arith, eq_iff "Please enter a number between %d and %d" "")

number_value_iff :
    (f : Field) (o : Option ℤ)
    → ((number_value f.min f.max o).1 ≡ "")
      ↔ ((n : ℤ) × (o ≡ some n) × (is_below f.min n ≡ false) × (is_beyond f.max n ≡ false))
number_value_iff f none = (
  λ h. absurd (ground (arith, eq_iff "Please enter a whole number" "")),
  λ (n, e, a, b). absurd (cc),
)
number_value_iff f (some n) = (
  λ h. let (a, b) = (number_fits f n).0 h in (n, refl, a, b),
  λ (m, e, a, b).
      let same : m ≡ n = sym (some_inj e) in (number_fits f n).1 (rw (← same) a, rw (← same) b),
)

module _ (print_date : String → String) where
  display_as_iff :
      (t : FieldType) (f : Field) (raw : String)
      → ((display_as print_date t f raw).1 ≡ "") ↔ IsWellFilled t f raw
  unfolding display_as
  display_as_iff text f raw = ground (arith, eq_iff "Please keep this under 200 characters" "")
  display_as_iff textarea f raw = ground (arith, eq_iff "Please keep this under 4000 characters" "")
  display_as_iff number f raw = number_value_iff f (atoi raw)
  display_as_iff date f raw = ground (arith, eq_iff "Please enter a date as YYYY-MM-DD" "")
  display_as_iff select f raw = select_value_iff f.options raw
  display_as_iff multiselect f raw =
      let (a, b) = keys_value_iff f.options (split raw b',') [] in
      (
        λ h. let (n, k) = a h in (n, none_left-false (chosen (split raw b',')) k),
        λ h. b (h.0, false-none_left (chosen (split raw b',')) h.1),
      )
  display_as_iff (FieldType.other _) f raw = (λ h. tt, λ h. refl)

  -- The field was filled in well, or is optional and was left empty.
  abbrev pub IsFilled : Inputs → Field → Type 0
  IsFilled inputs f =
      let raw = entered inputs f in
      ((raw ≡ "") × (f.required ≡ false)) ⊎ ((raw ≢ "") × IsWellFilled f.type_ f raw)

  field_problems_iff :
      (inputs : Inputs) (f : Field) → (field_problems print_date inputs f ≡ []) ↔ IsFilled inputs f
  unfolding field_problems display_value
  field_problems_iff inputs f =
      let raw = entered inputs f in
      ground (
        arith,
        eq_iff raw "",
        display_as_iff f.type_ f raw,
        eq_iff (display_as print_date f.type_ f raw).1 "",
      )

  form_problems_iff :
      (inputs : Inputs) (fs : List Field)
      → (form_problems print_date inputs fs ≡ []) ↔ All (IsFilled inputs) fs
  unfolding form_problems
  form_problems_iff inputs [] = (λ h. tt, λ h. refl)
  form_problems_iff inputs (f ∷ fs) =
      let here = field_problems_iff inputs f in
      let there = form_problems_iff inputs fs in
      (
        λ h.
            let (a, b) =
              append-eq-nil (field_problems print_date inputs f)
                (form_problems print_date inputs fs) h in
            (here.0 a, there.0 b),
        λ h. rw (here.1 h.0) (there.1 h.1),
      )

-- The entry is for a field of the form.
abbrev pub IsKnown : Template → String × String → Type 0
IsKnown t p = In p.0 (field_ids t.fields)

unknown_fields_iff :
    (t : Template) (m : Inputs) → (unknown_fields (field_ids t.fields) m ≡ []) ↔ All (IsKnown t) m
unfolding unknown_fields
unknown_fields_iff t [] = ground arith
unknown_fields_iff t ((id, v) ∷ m) =
    ground (arith, contains_text_iff (field_ids t.fields) id, unknown_fields_iff t m)

form_verdict-ok :
    (ps : List FieldError) (vs : Inputs)
    → ((ws : Inputs) × (form_verdict ps vs ≡ ok ws)) ↔ (ps ≡ [])
form_verdict-ok [] vs = (λ h. refl, λ h. (vs, refl))
form_verdict-ok (p ∷ ps) vs = (λ (ws, h). absurd (cc), λ h. absurd (cc))

-- A form is accepted exactly when each of its fields has a value of its type, entered or by default,
-- or is optional and has none, and nothing is entered for a field that it does not have.
pub validate_iff :
    (print_date : String → String) (t : Template) (inputs : Inputs)
    → ((values : Inputs) × (validate print_date t inputs ≡ ok values))
      ↔ (All (IsFilled print_date inputs) t.fields × All (IsKnown t) inputs)
unfolding validate
validate_iff print_date t inputs =
    let problems = form_problems print_date inputs t.fields in
    let unknown = unknown_fields (field_ids t.fields) inputs in
    let verdict = form_verdict-ok (problems ++ unknown) (form_values print_date inputs t.fields) in
    let filled = form_problems_iff print_date inputs t.fields in
    let known = unknown_fields_iff t inputs in
    (
      λ h. let (a, b) = append-eq-nil problems unknown (verdict.0 h) in (filled.0 a, known.0 b),
      λ h. verdict.1 (rw (filled.1 h.0) (known.1 h.1)),
    )
