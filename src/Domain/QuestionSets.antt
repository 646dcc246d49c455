-- ===== src/Domain/QuestionSets.antt =====
-- The question sets of domain/questionnaire.go: the embedded files, their checks and ParseReason.
-- An embedded file is the list that it holds. A map of answers is a list of pairs without repeated
-- keys.
pub mod Reasons
use thesis_dispute_engine.Prelude.{
  String, Bool, true, false, not, ◌||◌, Option, none, some, List, [], ◌∷◌, str_eq, if◌then◌else◌,
}
use thesis_dispute_engine.Result.{Result, ok, err}
use thesis_dispute_engine.Errs.{Error, invalid, unprocessable, new, classified, wrap, opaque}
use thesis_dispute_engine.Domain.Vocabulary.{
  Reason, unauthorised, not_received, duplicate, amount_differs,
}

pub data AnswerType : Type 0 where
  yes_no date text amount : AnswerType
  other : String → AnswerType

pub record Question : Type 0 where
  pub id : String
  pub text_ : String
  pub type_ : AnswerType
  pub required : Bool

abbrev pub Answers : Type 0
Answers = List (String × String)

abbrev pub err_unknown_reason : Error
err_unknown_reason = new invalid "unknown-reason" "unknown dispute reason"

abbrev pub err_invalid_answers : Error
err_invalid_answers =
    new unprocessable "invalid-answers" "the questionnaire answers are incomplete or malformed"

abbrev question : String → String → AnswerType → Bool → Question
question id text_ type_ required = record {
  id = id;
  text_ = text_;
  type_ = type_;
  required = required;
}

-- questionnaires/AMOUNT_DIFFERS.json
abbrev pub amount_differs_questions : List Question
amount_differs_questions =
    question "amount_agreed" "What amount did you agree to?" amount true
    ∷ question "receipt_available" "Do you have a receipt showing that amount?" yes_no true
    ∷ question "details" "Describe the difference." text true
    ∷ []

-- questionnaires/DUPLICATE.json
abbrev pub duplicate_questions : List Question
duplicate_questions =
    question "original_on" "When was the transaction you did authorise?" date true
    ∷ question "same_merchant" "Was it with the same merchant?" yes_no true
    ∷ question "details" "Anything else we should know?" text false
    ∷ []

-- questionnaires/NOT_RECEIVED.json
abbrev pub not_received_questions : List Question
not_received_questions =
    question "expected_on" "When were the goods or services due?" date true
    ∷ question "contacted_merchant" "Have you contacted the merchant?" yes_no true
    ∷ question "merchant_response" "What did the merchant say?" text false
    ∷ question "partial_delivery" "Did you receive part of the order?" yes_no true
    ∷ []

-- questionnaires/UNAUTHORISED.json
abbrev pub unauthorised_questions : List Question
unauthorised_questions =
    question "recognise_merchant" "Do you recognise the merchant?" yes_no true
    ∷ question "card_in_possession"
        "Do you still have the card, rather than having lost it or had it stolen?" yes_no true
    ∷ question "shared_credentials" "Has anyone else had access to your card or its details?" yes_no
        true
    ∷ question "prior_disputes_merchant"
        "Have you disputed a transaction with this merchant before?" yes_no true
    ∷ question "noticed_on" "When did you notice the transaction?" date true
    ∷ question "police_report"
        "Have you reported the card lost or stolen, or filed a police report?" yes_no true
    ∷ question "details" "Anything else we should know?" text false
    ∷ []

abbrev pub all_reasons : List Reason
all_reasons = unauthorised ∷ not_received ∷ duplicate ∷ amount_differs ∷ []

abbrev pub reason_eq : Reason → Reason → Bool
reason_eq unauthorised unauthorised = true
reason_eq not_received not_received = true
reason_eq duplicate duplicate = true
reason_eq amount_differs amount_differs = true
reason_eq (Reason.other s) (Reason.other t) = str_eq s t
reason_eq _ _ = false

-- Reason(raw)
unfoldable pub reason_of : String → Reason
reason_of raw =
    if str_eq raw "UNAUTHORISED"
    then unauthorised
    else if str_eq raw "NOT_RECEIVED"
    then not_received
    else if str_eq raw "DUPLICATE"
    then duplicate
    else if str_eq raw "AMOUNT_DIFFERS"
    then amount_differs
    else Reason.other raw

pub record QuestionnaireFile : Type 0 where
  pub reason : Reason
  pub questions : List Question

abbrev pub is_known_reason : Reason → Bool
is_known_reason (Reason.other _) = false
is_known_reason _ = true

abbrev pub is_known_type : AnswerType → Bool
is_known_type (AnswerType.other _) = false
is_known_type _ = true

abbrev pub contains_text : List String → String → Bool
contains_text [] s = false
contains_text (t ∷ ts) s = str_eq t s || contains_text ts s

-- The loop of `checkQuestionSet` on the ids seen and whether a required question was.
unfoldable pub check_questions : List Question → List String → Bool → Result (Unit {0})
check_questions [] seen required =
    if not required then err (opaque "no required question") else ok tt
check_questions (q ∷ qs) seen required =
    let rest = check_questions qs (q.id ∷ seen) (required || q.required) in
    if str_eq q.id "" || str_eq q.text_ ""
    then err (opaque "question %+v needs an id and text")
    else if contains_text seen q.id
    then err (opaque "question id %q repeated")
    else if not (is_known_type q.type_)
    then err (opaque "question %q: unknown type %q")
    else rest

unfoldable pub check_question_set : QuestionnaireFile → Result (Unit {0})
unfolding check_questions
check_question_set f =
    if not (is_known_reason f.reason)
    then err (opaque "unknown reason %q")
    else check_questions f.questions [] false

-- The map from reasons to questions that `LoadQuestionSets` builds.
abbrev pub QuestionSets : Type 0
QuestionSets = List (Reason × List Question)

unfoldable pub questions_of : QuestionSets → Reason → Option (List Question)
questions_of [] r = none
questions_of ((k, qs) ∷ sets) r = if reason_eq k r then some qs else questions_of sets r

abbrev pub has_reason : QuestionSets → Reason → Bool
has_reason sets r = elim (questions_of sets r) [ none ↦ false | some _ ↦ true ]

-- The first loop of `LoadQuestionSets`, over the files as they were decoded.
unfoldable pub load_files : List QuestionnaireFile → QuestionSets → Result QuestionSets
unfolding questions_of
load_files [] sets = ok sets
load_files (f ∷ fs) sets = elim (check_question_set f) [
  | err e ↦ err (wrap e "questionnaire %s")
  | ok _ ↦ elim (has_reason sets f.reason) [
    | true ↦ err (opaque "questionnaire %s: reason %s defined twice")
    | false ↦ load_files fs ((f.reason, f.questions) ∷ sets)
  ]
]

-- The second loop: every reason has its file.
unfoldable pub missing_reason : List Reason → QuestionSets → Result QuestionSets
unfolding questions_of
missing_reason [] sets = ok sets
missing_reason (r ∷ rs) sets =
    let rest = missing_reason rs sets in
    if not (has_reason sets r) then err (opaque "questionnaire for %s missing") else rest

unfoldable pub load_question_sets : List QuestionnaireFile → Result QuestionSets
unfolding load_files missing_reason check_question_set
load_question_sets fs = elim (load_files fs []) [
  | err e ↦ err e
  | ok sets ↦ missing_reason all_reasons sets
]

abbrev pub questionnaire_files : List QuestionnaireFile
questionnaire_files =
    record { reason = amount_differs; questions = amount_differs_questions }
    ∷ record { reason = duplicate; questions = duplicate_questions }
    ∷ record { reason = not_received; questions = not_received_questions }
    ∷ record { reason = unauthorised; questions = unauthorised_questions }
    ∷ []

-- `questionSets`, as the process has it after it started: a load that fails ends the process.
unfoldable pub question_sets : QuestionSets
unfolding load_question_sets
question_sets = elim (load_question_sets questionnaire_files) [ ok sets ↦ sets | err _ ↦ [] ]

unfoldable pub parse_reason : String → Result Reason
unfolding question_sets reason_of
parse_reason raw =
    if str_eq raw ""
    then ok unauthorised
    else if not (has_reason question_sets (reason_of raw))
    then err (wrap (classified err_unknown_reason) "%q")
    else ok (reason_of raw)

unfoldable pub question_set : Reason → List Question
unfolding question_sets
question_set r = elim (questions_of question_sets r) [ none ↦ [] | some qs ↦ qs ]
