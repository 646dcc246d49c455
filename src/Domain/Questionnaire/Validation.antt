-- ===== src/Domain/Questionnaire/Validation.antt =====
-- What answers are accepted (ValidateAnswers of domain/questionnaire.go).
use Prim.Native.String.{len}
use thesis_dispute_engine.Prelude.{
  ◌≤◌, String, ◌≡◌, refl, ◌≢◌, ◌↔◌, ◌⊎◌, true, false, some, List, [], ◌∷◌, ◌++◌, map, arith, eq_iff,
  In, All,
}
use thesis_dispute_engine.Prelude.Decimal.{Decimals}
use thesis_dispute_engine.Prelude.Dates.{is_date}
use thesis_dispute_engine.Result.{ok}
use thesis_dispute_engine.Errs.{FieldError}
use thesis_dispute_engine.Domain.Questionnaire.{
  answer_or_empty, check_answer, question_fields, asked_fields, unasked_fields, answers_verdict,
  validate_answers,
}
use thesis_dispute_engine.Domain.QuestionSets.{AnswerType, Question, Answers, contains_text}
use thesis_dispute_engine.Domain.QuestionSets.{yes_no, date, text, amount}

pub contains_text_iff : (ts : List String) (s : String) → (contains_text ts s ≡ true) ↔ In s ts
contains_text_iff [] s = ground arith
contains_text_iff (t ∷ ts) s = ground (arith, eq_iff t s, contains_text_iff ts s)

abbrev pub ids : List Question → List String
ids qs = map (λ (q : Question). q.id) qs

-- The answer is to a question that was asked.
abbrev pub Asked : List Question → String × String → Type 0
Asked qs p = In p.0 (ids qs)

unasked_fields_iff :
    (qs : List Question) (m : Answers) → (unasked_fields qs m ≡ []) ↔ All (Asked qs) m
unfolding unasked_fields
unasked_fields_iff qs [] = ground arith
unasked_fields_iff qs ((id, v) ∷ m) =
    ground (arith, contains_text_iff (ids qs) id, unasked_fields_iff qs m)

pub append-eq-nil {ℓ} : {A : Type ℓ} (xs ys : List A) → xs ++ ys ≡ [] → (xs ≡ []) × (ys ≡ [])
append-eq-nil [] ys h = (refl, h)
append-eq-nil (x ∷ xs) ys h = absurd (cc)

module _ (dec : Decimals) where
  open dec use {Num, zero_num, less_than, new_from_string}

  -- What each type of answer asks of a text that is not empty.
  abbrev pub WellTyped : AnswerType → String → Type 0
  WellTyped yes_no v = (v ≡ "yes") ⊎ (v ≡ "no")
  WellTyped date v = is_date v ≡ true
  WellTyped amount v = (d : Num) × (new_from_string v ≡ some d) × (less_than d zero_num ≡ false)
  WellTyped text v = len v ≤ 2000
  WellTyped (AnswerType.other _) v = Unit

  check_answer_iff : (t : AnswerType) (v : String) → (check_answer dec t v ≡ "") ↔ WellTyped t v
  unfolding check_answer
  check_answer_iff yes_no v =
      ground (arith, eq_iff v "yes", eq_iff v "no", eq_iff "Please choose yes or no" "")
  check_answer_iff date v = ground (arith, eq_iff "Please enter a date as YYYY-MM-DD" "")
  check_answer_iff amount v =
      ground (arith, eq_iff "Please enter an amount of zero or more, such as 12.50" "")
  check_answer_iff text v =
      ground (arith, eq_iff "Please keep the answer under 2000 characters (%d given)" "")
  check_answer_iff (AnswerType.other _) v = (λ h. tt, λ h. refl)

  -- The question was answered with a text of its type, or is optional and was left empty.
  abbrev pub IsAnswered : Answers → Question → Type 0
  IsAnswered m q =
      let v = answer_or_empty m q.id in
      ((v ≡ "") × (q.required ≡ false)) ⊎ ((v ≢ "") × WellTyped q.type_ v)

  question_fields_iff :
      (m : Answers) (q : Question) → (question_fields dec m q ≡ []) ↔ IsAnswered m q
  unfolding question_fields
  question_fields_iff m q =
      let v = answer_or_empty m q.id in
      ground
        (arith, eq_iff v "", check_answer_iff q.type_ v, eq_iff (check_answer dec q.type_ v) "")

  asked_fields_iff :
      (m : Answers) (qs : List Question) → (asked_fields dec m qs ≡ []) ↔ All (IsAnswered m) qs
  unfolding asked_fields
  asked_fields_iff m [] = ground arith
  asked_fields_iff m (q ∷ qs) =
      let here = question_fields_iff m q in
      let there = asked_fields_iff m qs in
      (
        λ h.
            let (a, b) = append-eq-nil (question_fields dec m q) (asked_fields dec m qs) h in
            (here.0 a, there.0 b),
        λ h. rw (here.1 h.0) (there.1 h.1),
      )

  answers_verdict_iff : (fs : List FieldError) → (answers_verdict dec fs ≡ ok tt) ↔ (fs ≡ [])
  answers_verdict_iff [] = (λ h. refl, λ h. refl)
  answers_verdict_iff (f ∷ fs) = (λ h. absurd (cc), λ h. absurd (cc))

  -- Answers are accepted exactly when every question asked has an answer of its type, or is optional
  -- and has none, and nothing was answered that was not asked; the answer to a question of type TEXT
  -- is one of at most 2000 bytes.
  pub validate_answers_iff :
      (qs : List Question) (m : Answers)
      → (validate_answers dec qs m ≡ ok tt) ↔ (All (IsAnswered m) qs × All (Asked qs) m)
  unfolding validate_answers
  validate_answers_iff qs m =
      let asked = asked_fields_iff m qs in
      let unasked = unasked_fields_iff qs m in
      (
        λ h.
            let (a, b) =
              append-eq-nil (asked_fields dec m qs) (unasked_fields qs m)
                ((answers_verdict_iff (asked_fields dec m qs ++ unasked_fields qs m)).0 h) in
            (asked.0 a, unasked.0 b),
        λ h. rw (asked.1 h.0, unasked.1 h.1) refl,
      )
