-- ===== src/Tests/Questionnaire.antt =====
-- Runs of the questionnaire (domain/questionnaire.go).
use thesis_dispute_engine.Prelude.{◌≡◌, ◌↔◌, [], ◌∷◌, All}
use thesis_dispute_engine.Prelude.Int.{cents}
use thesis_dispute_engine.Result.{ok}
use thesis_dispute_engine.Domain.Questionnaire.{validate_answers}
use thesis_dispute_engine.Domain.QuestionSets.{Answers, amount_differs_questions}
use thesis_dispute_engine.Domain.Questionnaire.Validation.{IsAnswered, Asked, validate_answers_iff}

abbrev given : Answers
given =
    ("amount_agreed", "12.50")
    ∷ ("receipt_available", "yes")
    ∷ ("details", "charged twice the price")
    ∷ []

validate_answers_iff_example : (validate_answers cents amount_differs_questions given ≡ ok tt) ↔ (
    All (IsAnswered cents given) amount_differs_questions
    × All (Asked amount_differs_questions) given)
validate_answers_iff_example = validate_answers_iff cents amount_differs_questions given
