-- ===== src/Domain/Lifecycle.antt =====
-- domain/state.go: the lifecycle of a dispute, a state machine that the rules of a regime gate.
pub mod Names
pub mod Spec
pub mod Bounds
pub mod Reach
pub mod Allowed
use thesis_dispute_engine.Prelude.{
  ℕ, suc, ◌+◌, Bool, true, false, not, ◌&&◌, Option, none, some, List, [], ◌∷◌, leb, if◌then◌else◌,
}
use thesis_dispute_engine.Result.{Result, ok, err, ◌>>=◌, ◌>>◌}
use thesis_dispute_engine.Errs.{GoError, Error, conflict, new, classified, wrap}
use thesis_dispute_engine.Domain.Vocabulary.{
  Regime, RefundPath, State, initiated, investigating, questionnaire_sent, questionnaire_received,
  provisional_credit_issued, fast_refund_issued, sepa_nqa_refund_issued, chargeback_filed,
  chargeback_acknowledged, evidence_submitted, chargeback_won, chargeback_lost, final_credit_issued,
  provisional_credit_reversed, closed, Event, open_investigation, send_questionnaire,
  receive_questionnaire, issue_refund, file_chargeback, acknowledge_chargeback, submit_evidence,
  win_chargeback, lose_chargeback, issue_final_credit, reverse_provisional_credit, close, appeal,
  refund_path_eq, state_is_closed, event_is_appeal,
}
use thesis_dispute_engine.Domain.Regime.{
  Rules, rules_for, has_provisional_credit, has_refund_step, refund_state,
}

abbrev pub all_events : List Event
all_events =
    open_investigation ∷ send_questionnaire ∷ receive_questionnaire ∷ issue_refund ∷ file_chargeback
    ∷ acknowledge_chargeback ∷ submit_evidence ∷ win_chargeback ∷ lose_chargeback
    ∷ issue_final_credit ∷ reverse_provisional_credit ∷ close ∷ appeal ∷ []

abbrev pub err_invalid_transition : Error
err_invalid_transition =
    new conflict "invalid-transition" "this action is not allowed in the dispute's current state"

abbrev pub err_appeals_exhausted : Error
err_appeals_exhausted = new conflict "appeals-exhausted" "this dispute has used all of its appeals"

-- `Appeals` starts at 0 and only grows, so it is a natural number.
pub record Dispute : Type 0 where
  pub regime : Regime
  pub state : State
  pub appeals : ℕ

unfoldable pub new_dispute : Regime → Result Dispute
new_dispute regime = do
  rules_for regime
  ok (record { regime = regime; state = initiated; appeals = 0 })

-- A transition that a property of the rules gates.
abbrev gated : Bool → State → Option State
gated test to = if test then some to else none

-- The refund's destination, and the direct way to the network of a regime without a refund.
abbrev refund_next : Rules → Option State
refund_next r = gated (has_refund_step r) (refund_state r)

abbrev direct_chargeback : Rules → Option State
direct_chargeback r = gated (r.has_adjudication && not (has_refund_step r)) chargeback_filed

-- The last clause is every `switch` that falls through to `return "", false`.
unfoldable pub next : Rules → State → Event → Option State
next r initiated open_investigation = some investigating
next r initiated issue_refund =
    gated (refund_path_eq r.refund RefundPath.no_questions_asked) sepa_nqa_refund_issued
next r investigating send_questionnaire = some questionnaire_sent
next r investigating issue_refund = refund_next r
next r investigating file_chargeback = direct_chargeback r
next r investigating close = some closed
next r questionnaire_sent receive_questionnaire = some questionnaire_received
next r questionnaire_sent close = some closed
next r questionnaire_received issue_refund = refund_next r
next r questionnaire_received file_chargeback = direct_chargeback r
next r questionnaire_received close = some closed
next r provisional_credit_issued file_chargeback = gated r.has_adjudication chargeback_filed
next r provisional_credit_issued close = some closed
next r fast_refund_issued file_chargeback = gated r.has_adjudication chargeback_filed
next r fast_refund_issued close = some closed
next r sepa_nqa_refund_issued file_chargeback = gated r.has_adjudication chargeback_filed
next r sepa_nqa_refund_issued close = some closed
next r chargeback_filed acknowledge_chargeback = some chargeback_acknowledged
next r chargeback_acknowledged submit_evidence = gated r.merchant_may_contest evidence_submitted
next r chargeback_acknowledged win_chargeback = some chargeback_won
next r chargeback_acknowledged lose_chargeback = some chargeback_lost
next r evidence_submitted win_chargeback = some chargeback_won
next r evidence_submitted lose_chargeback = some chargeback_lost
next r chargeback_won issue_final_credit = gated (has_provisional_credit r) final_credit_issued
next r chargeback_won close = gated (not (has_provisional_credit r)) closed
next r chargeback_lost reverse_provisional_credit =
    gated (has_provisional_credit r) provisional_credit_reversed
next r chargeback_lost close = gated (not (has_provisional_credit r)) closed
next r final_credit_issued close = some closed
next r provisional_credit_reversed close = some closed
next _ _ _ = none

abbrev pub invalid : GoError
invalid = wrap (classified err_invalid_transition) "%s from %s under %s"

abbrev pub exhausted : GoError
exhausted = wrap (classified err_appeals_exhausted) "%d of %d used under %s"

-- The branch of `Apply` for an appeal, which needs the counter.
pub apply_appeal : Rules → Dispute → Result Dispute
apply_appeal r d =
    if not (state_is_closed d.state)
    then err invalid
    else if leb r.max_appeals d.appeals
    then err exhausted
    else ok (record { regime = d.regime; state = investigating; appeals = d.appeals + 1 })

-- The branch of `Apply` for every other event.
pub apply_next : Rules → Dispute → Event → Result Dispute
apply_next r d event = elim (next r d.state event) [
  | none ↦ err invalid
  | some to ↦ ok (record { regime = d.regime; state = to; appeals = d.appeals })
]

unfoldable pub apply : Dispute → Event → Result Dispute
unfolding apply_appeal apply_next
apply d event = do
  r ← rules_for d.regime
  if event_is_appeal event then apply_appeal r d else apply_next r d event

unfoldable pub accepts : Dispute → Event → Bool
accepts d event = elim (apply d event) [ ok _ ↦ true | err _ ↦ false ]

allowed_from : Dispute → List Event → List Event
allowed_from d [] = []
allowed_from d (e ∷ es) = let out = allowed_from d es in if accepts d e then e ∷ out else out

unfoldable pub allowed : Dispute → List Event
unfolding allowed_from accepts
allowed d = allowed_from d all_events

unfoldable pub is_terminal : Dispute → Bool
is_terminal d = state_is_closed d.state
