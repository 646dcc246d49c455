-- ===== src/Domain/Questionnaire.antt =====
-- domain/questionnaire.go: the answers' validation and the contradictions between answers. Parsing
-- a date is in Prelude.Dates, and parsing a decimal is a parameter. A message is kept as its format string.
pub mod Validation
use Prim.Native.String.{len}
use Prim.Native.String.{◌++◌ as str_append}
use thesis_dispute_engine.Prelude.{
  ℕ, ◌<◌, String, Bool, true, false, not, ◌&&◌, ◌||◌, Option, none, some, List, [], ◌∷◌, ◌++◌, map,
  str_eq, ltb, if◌then◌else◌,
}
use Prim.Native.String.{compare}
use package.text.Mathlib.Text.{is_lt}
use thesis_dispute_engine.Prelude.Decimal.{Decimals, is_negative}
use thesis_dispute_engine.Prelude.Dates.{is_date}
use thesis_dispute_engine.Result.{Result, ok, err}
use thesis_dispute_engine.Errs.{
  Error, FieldError, invalid, unprocessable, new, classified, wrap, with_fields, opaque,
}
use thesis_dispute_engine.Domain.Vocabulary.{
  Reason, unauthorised, not_received, duplicate, amount_differs,
}
use thesis_dispute_engine.Domain.QuestionSets.{
  AnswerType, yes_no, date, text, amount, Question, QuestionnaireFile, Answers, err_unknown_reason,
  err_invalid_answers, amount_differs_questions, duplicate_questions, not_received_questions,
  unauthorised_questions, all_reasons, reason_eq, reason_of, is_known_reason, is_known_type,
  contains_text, check_questions, check_question_set, QuestionSets, questions_of, has_reason,
  load_files, missing_reason, load_question_sets, questionnaire_files, question_sets, parse_reason,
  question_set,
}

-- Messages of the validation.
pub missing_answer : AnswerType → String
missing_answer yes_no = "Please choose yes or no"
missing_answer date = "Please select a date"
missing_answer amount = "Please enter an amount"
missing_answer _ = "Please enter an answer"

-- answers[id]
unfoldable pub answer : Answers → String → Option String
answer [] id = none
answer ((k, v) ∷ m) id = if str_eq k id then some v else answer m id

-- answers[id] where a missing key reads as the empty string
abbrev pub answer_or_empty : Answers → String → String
answer_or_empty m id = elim (answer m id) [ none ↦ "" | some v ↦ v ]

abbrev pub answered : Answers → String → String → Bool
answered m id v = str_eq (answer_or_empty m id) v

abbrev pub note : Bool → String → List String → List String
note test s rest = if test then s ∷ rest else rest

unfoldable pub inconsistencies : Reason → Answers → List String
unfolding answer
inconsistencies unauthorised m =
    note
      (answered m "recognise_merchant" "yes"
        && answered m "card_in_possession" "yes"
        && answered m "shared_credentials" "no")
      "the customer recognises the merchant, held the card and shared it with nobody, yet claims the payment was unauthorised"
      (note (answered m "police_report" "yes" && answered m "card_in_possession" "yes")
        "a card reported lost or stolen was said to be in the customer's possession" [])
inconsistencies not_received m =
    note (answered m "contacted_merchant" "no" && not (answered m "merchant_response" ""))
      "a merchant response was given although the merchant was not contacted" []
inconsistencies duplicate m =
    note (answered m "same_merchant" "no") "a duplicate is claimed against a different merchant" []
inconsistencies amount_differs m = []
inconsistencies (Reason.other _) m = []

abbrev pub field_of : String → String → FieldError
field_of id message = record { field = str_append "body.payload.answers." id; message = message }

-- sort.Slice by Field
abbrev pub insert_field : FieldError → List FieldError → List FieldError
insert_field f [] = f ∷ []
insert_field f (g ∷ gs) =
    let rest = g ∷ insert_field f gs in if is_lt (compare g.field f.field) then rest else f ∷ g ∷ gs

pub sort_fields : List FieldError → List FieldError
sort_fields [] = []
sort_fields (f ∷ fs) = insert_field f (sort_fields fs)

-- The second loop of `ValidateAnswers`.
pub unasked_fields : List Question → Answers → List FieldError
unasked_fields qs [] = []
unasked_fields qs ((id, v) ∷ m) =
    let rest = unasked_fields qs m in
    if not (contains_text (map (λ (q : Question). q.id) qs) id)
    then field_of id "this question was not asked" ∷ rest
    else rest

module _ (dec : Decimals) where
  open dec use {Num, new_from_string}

  abbrev pub is_amount : String → Bool
  is_amount v = elim (new_from_string v) [ none ↦ false | some d ↦ not (is_negative dec d) ]

  unfoldable pub check_answer : AnswerType → String → String
  check_answer yes_no v =
      if not (str_eq v "yes") && not (str_eq v "no") then "Please choose yes or no" else ""
  check_answer date v = if not (is_date v) then "Please enter a date as YYYY-MM-DD" else ""
  check_answer amount v =
      if not (is_amount v) then "Please enter an amount of zero or more, such as 12.50" else ""
  check_answer text v =
      if ltb 2000 (len v) then "Please keep the answer under 2000 characters (%d given)" else ""
  check_answer (AnswerType.other _) v = ""

  -- The body of the first loop of `ValidateAnswers`.
  pub question_fields : Answers → Question → List FieldError
  unfolding check_answer missing_answer answer
  question_fields m q =
      let v = answer_or_empty m q.id in
      if str_eq v ""
      then if q.required then field_of q.id (missing_answer q.type_) ∷ [] else []
      else let msg = check_answer q.type_ v in
        if not (str_eq msg "") then field_of q.id msg ∷ [] else []

  pub asked_fields : Answers → List Question → List FieldError
  unfolding question_fields
  asked_fields m [] = []
  asked_fields m (q ∷ qs) = question_fields m q ++ asked_fields m qs

  abbrev pub answers_verdict : List FieldError → Result (Unit {0})
  answers_verdict [] = ok tt
  answers_verdict (f ∷ fs) =
      err (classified (with_fields err_invalid_answers (sort_fields (f ∷ fs))))

  unfoldable pub validate_answers : List Question → Answers → Result (Unit {0})
  unfolding asked_fields unasked_fields sort_fields
  validate_answers qs m = answers_verdict (asked_fields m qs ++ unasked_fields qs m)
