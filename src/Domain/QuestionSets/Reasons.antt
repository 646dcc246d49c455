-- ===== src/Domain/QuestionSets/Reasons.antt =====
-- The question sets (LoadQuestionSets, ParseReason and QuestionSet of domain/questionnaire.go).
use thesis_dispute_engine.Prelude.{true, String, ◌≡◌, ◌≢◌, ◌↔◌, ◌⊎◌, [], ◌∷◌, arith, eq_iff, All}
use thesis_dispute_engine.Result.{ok}
use thesis_dispute_engine.Domain.Vocabulary.{
  Reason, unauthorised, not_received, duplicate, amount_differs,
}
use thesis_dispute_engine.Domain.QuestionSets.{parse_reason, reason_eq}

-- The names are different texts.
names_differ :
    All
      (λ (s : String). s ≢ "")
      ("UNAUTHORISED" ∷ "NOT_RECEIVED" ∷ "DUPLICATE" ∷ "AMOUNT_DIFFERS" ∷ [])
    × All
        (λ (s : String). s ≢ "UNAUTHORISED")
        ("NOT_RECEIVED" ∷ "DUPLICATE" ∷ "AMOUNT_DIFFERS" ∷ [])
    × All (λ (s : String). s ≢ "NOT_RECEIVED") ("DUPLICATE" ∷ "AMOUNT_DIFFERS" ∷ [])
    × All (λ (s : String). s ≢ "DUPLICATE") ("AMOUNT_DIFFERS" ∷ [])
names_differ = (
  (
    ground (arith, eq_iff "UNAUTHORISED" ""),
    (
      ground (arith, eq_iff "NOT_RECEIVED" ""),
      (ground (arith, eq_iff "DUPLICATE" ""), (ground (arith, eq_iff "AMOUNT_DIFFERS" ""), tt)),
    ),
  ),
  (
    ground (arith, eq_iff "NOT_RECEIVED" "UNAUTHORISED"),
    (
      ground (arith, eq_iff "DUPLICATE" "UNAUTHORISED"),
      (ground (arith, eq_iff "AMOUNT_DIFFERS" "UNAUTHORISED"), tt),
    ),
  ),
  (
    ground (arith, eq_iff "DUPLICATE" "NOT_RECEIVED"),
    (ground (arith, eq_iff "AMOUNT_DIFFERS" "NOT_RECEIVED"), tt),
  ),
  (ground (arith, eq_iff "AMOUNT_DIFFERS" "DUPLICATE"), tt),
)

-- A reason is accepted exactly when it is left empty, for an unauthorised payment, or is the name of
-- one of the four reasons, for that one.
pub parse_reason_iff :
    (raw : String) (r : Reason)
    → (parse_reason raw ≡ ok r) ↔ (
        ((raw ≡ "") × (r ≡ unauthorised))
        ⊎ ((raw ≡ "UNAUTHORISED") × (r ≡ unauthorised))
        ⊎ ((raw ≡ "NOT_RECEIVED") × (r ≡ not_received))
        ⊎ ((raw ≡ "DUPLICATE") × (r ≡ duplicate))
        ⊎ ((raw ≡ "AMOUNT_DIFFERS") × (r ≡ amount_differs)))
unfolding parse_reason
parse_reason_iff raw r = ground (
  arith,
  eq_iff raw "",
  eq_iff raw "UNAUTHORISED",
  eq_iff raw "NOT_RECEIVED",
  eq_iff raw "DUPLICATE",
  eq_iff raw "AMOUNT_DIFFERS",
  names_differ,
)

pub reason_eq_iff : (a b : Reason) → (reason_eq a b ≡ true) ↔ (a ≡ b)
reason_eq_iff (Reason.other s) (Reason.other t) = ground (arith, eq_iff s t)
reason_eq_iff a b = ground arith
