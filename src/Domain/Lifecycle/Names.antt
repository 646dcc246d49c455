-- ===== src/Domain/Lifecycle/Names.antt =====
-- The names of the states, and ParseState (domain/state.go).
use thesis_dispute_engine.Prelude.{
  String, ◌≡◌, refl, ◌↔◌, inl, inr, List, [], ◌∷◌, arith, str_eq, eq_iff, In, Bool-cases,
  if◌then◌else◌,
}
use thesis_dispute_engine.Result.{Result, ok, err}
use thesis_dispute_engine.Errs.{opaque}
use thesis_dispute_engine.Domain.Vocabulary.{
  State, initiated, investigating, questionnaire_sent, questionnaire_received,
  provisional_credit_issued, fast_refund_issued, sepa_nqa_refund_issued, chargeback_filed,
  chargeback_acknowledged, evidence_submitted, chargeback_won, chargeback_lost, final_credit_issued,
  provisional_credit_reversed, closed,
}

abbrev pub all_states : List State
all_states =
    initiated ∷ investigating ∷ questionnaire_sent ∷ questionnaire_received
    ∷ provisional_credit_issued ∷ fast_refund_issued ∷ sepa_nqa_refund_issued ∷ chargeback_filed
    ∷ chargeback_acknowledged ∷ evidence_submitted ∷ chargeback_won ∷ chargeback_lost
    ∷ final_credit_issued ∷ provisional_credit_reversed ∷ closed ∷ []

-- string(s): the constant behind each name
unfoldable pub state_name : State → String
state_name initiated = "INITIATED"
state_name investigating = "INVESTIGATING"
state_name questionnaire_sent = "QUESTIONNAIRE_SENT"
state_name questionnaire_received = "QUESTIONNAIRE_RECEIVED"
state_name provisional_credit_issued = "PROVISIONAL_CREDIT_ISSUED"
state_name fast_refund_issued = "FAST_REFUND_ISSUED"
state_name sepa_nqa_refund_issued = "SEPA_NQA_REFUND_ISSUED"
state_name chargeback_filed = "CHARGEBACK_FILED"
state_name chargeback_acknowledged = "CHARGEBACK_ACKNOWLEDGED"
state_name evidence_submitted = "EVIDENCE_SUBMITTED"
state_name chargeback_won = "CHARGEBACK_WON"
state_name chargeback_lost = "CHARGEBACK_LOST"
state_name final_credit_issued = "FINAL_CREDIT_ISSUED"
state_name provisional_credit_reversed = "PROVISIONAL_CREDIT_REVERSED"
state_name closed = "CLOSED"
state_name (State.other s) = s

-- the loop of `ParseState` over the states that are left
parse_from : List State → String → Result State
unfolding state_name
parse_from [] raw = err (opaque "unknown state %q")
parse_from (s ∷ ss) raw =
    let rest = parse_from ss raw in if str_eq (state_name s) raw then ok s else rest

unfoldable pub parse_state : String → Result State
unfolding parse_from
parse_state raw = parse_from all_states raw

parse_from_sound :
    (ss : List State) (raw : String) (s : State)
    → parse_from ss raw ≡ ok s
    → In s ss × (state_name s ≡ raw)
unfolding parse_from
parse_from_sound [] raw s h = absurd (cc)
parse_from_sound (x ∷ ss) raw s h = elim (Bool-cases (str_eq (state_name x) raw)) [
  | inl found ↦ ground (arith, eq_iff (state_name x) raw)
  | inr missed ↦ ground (arith, parse_from_sound ss raw s)
]

parse_state-state_name : (s : State) → In s all_states → parse_state (state_name s) ≡ ok s
unfolding parse_state
parse_state-state_name initiated h = refl
parse_state-state_name investigating h = refl
parse_state-state_name questionnaire_sent h = refl
parse_state-state_name questionnaire_received h = refl
parse_state-state_name provisional_credit_issued h = refl
parse_state-state_name fast_refund_issued h = refl
parse_state-state_name sepa_nqa_refund_issued h = refl
parse_state-state_name chargeback_filed h = refl
parse_state-state_name chargeback_acknowledged h = refl
parse_state-state_name evidence_submitted h = refl
parse_state-state_name chargeback_won h = refl
parse_state-state_name chargeback_lost h = refl
parse_state-state_name final_credit_issued h = refl
parse_state-state_name provisional_credit_reversed h = refl
parse_state-state_name closed h = refl
parse_state-state_name (State.other s) h = absurd (ground arith)

-- `ParseState` accepts exactly the names of the lifecycle's states, each as the state that it names.
parse_state_iff :
    (raw : String) (s : State) → (parse_state raw ≡ ok s) ↔ (In s all_states × (state_name s ≡ raw))
unfolding parse_state
parse_state_iff raw s =
    (parse_from_sound all_states raw s, λ h. rw (← h.1) (parse_state-state_name s h.0))
