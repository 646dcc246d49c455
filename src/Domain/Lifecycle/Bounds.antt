-- ===== src/Domain/Lifecycle/Bounds.antt =====
-- Histories of a dispute: what holds after any sequence of events (domain/state.go).
use thesis_dispute_engine.Prelude.{
  ℕ, ◌+◌, ◌-◌, ◌*◌, ◌≤◌, ◌<◌, ◌≡◌, refl, some, List, [], ◌∷◌, arith, length,
}
use thesis_dispute_engine.Result.{Result, ok, ◌>>=◌, >>=-eq-ok}
use thesis_dispute_engine.Domain.Vocabulary.{
  Regime, State, initiated, investigating, questionnaire_sent, questionnaire_received,
  provisional_credit_issued, fast_refund_issued, sepa_nqa_refund_issued, chargeback_filed,
  chargeback_acknowledged, evidence_submitted, chargeback_won, chargeback_lost, final_credit_issued,
  provisional_credit_reversed, closed, Event,
}
use thesis_dispute_engine.Domain.Regime.{
  Rules, rules_for, sepa_rules, psd2_card_rules, reg_e_rules, reg_z_rules,
}
use thesis_dispute_engine.Domain.Lifecycle.{Dispute, next, apply, new_dispute}
use thesis_dispute_engine.Domain.Lifecycle.Spec.{Edge-next, Step, move, reopen, apply_iff}

-- The events of a history in order; the first that is refused ends it with its error.
unfoldable pub apply_all : Dispute → List Event → Result Dispute
apply_all d [] = ok d
apply_all d (e ∷ es) = apply d e >>= λ d'. apply_all d' es

-- How many steps at most lead from a state to `closed`.
abbrev pub rank : State → ℕ
rank initiated = 10
rank investigating = 9
rank questionnaire_sent = 8
rank questionnaire_received = 7
rank provisional_credit_issued = 6
rank fast_refund_issued = 6
rank sepa_nqa_refund_issued = 6
rank chargeback_filed = 5
rank chargeback_acknowledged = 4
rank evidence_submitted = 3
rank chargeback_won = 2
rank chargeback_lost = 2
rank final_credit_issued = 1
rank provisional_credit_reversed = 1
rank closed = 0
rank (State.other _) = 0

next-rank : (r : Rules) (s : State) (e : Event) (t : State) → next r s e ≡ some t → rank t < rank s
unfolding next
next-rank r s e t h = ground arith

-- How many events a dispute can still take: its way to `closed`, and a round for each appeal left.
abbrev pub budget : Rules → Dispute → ℕ
budget r d = rank d.state + 10 * (r.max_appeals - d.appeals)

apply-budget :
    (r : Rules) (d d' : Dispute) (e : Event)
    → rules_for d.regime ≡ ok r
    → apply d e ≡ ok d'
    → budget r d' < budget r d
apply-budget r d d' e known h = Step-budget ((apply_iff r d d' e known).0 h)
  where
    Step-budget : Step r d e d' → budget r d' < budget r d
    Step-budget (move edge g n) =
        let lower = next-rank r d.state e d'.state (Edge-next edge) in rw n (omega arith)
    Step-budget (reopen a c l s g n) = rw (c, s, n) (omega arith)

pub apply-regime : (d d' : Dispute) (e : Event) → apply d e ≡ ok d' → d'.regime ≡ d.regime
unfolding apply
apply-regime d d' e h = ground arith

apply_all-budget :
    (r : Rules) (d d' : Dispute) (es : List Event)
    → rules_for d.regime ≡ ok r
    → apply_all d es ≡ ok d'
    → length es + budget r d' ≤ budget r d
unfolding apply_all
apply_all-budget r d d' [] known h = ground arith
apply_all-budget r d d' (e ∷ es) known h =
    let (m, step, rest) = >>=-eq-ok (apply d e) (λ m. apply_all m es) h in
    let known' : rules_for m.regime ≡ ok r = rw (apply-regime d m e step) known in
    omega (arith, apply-budget r d m e known step, apply_all-budget r m d' es known' rest)

pub new_dispute_lem :
    (regime : Regime) (d : Dispute)
    → new_dispute regime ≡ ok d
    → (r : Rules) × (rules_for d.regime ≡ ok r)
      × (d.regime ≡ regime)
      × (d.state ≡ initiated)
      × (d.appeals ≡ 0)
      × (r.max_appeals ≡ 1)
unfolding new_dispute rules_for
new_dispute_lem Regime.eu_sepa_direct_debit d h =
    (sepa_rules, ground arith, ground arith, ground arith, ground arith, refl)
new_dispute_lem Regime.eu_psd2_card d h =
    (psd2_card_rules, ground arith, ground arith, ground arith, ground arith, refl)
new_dispute_lem Regime.us_reg_e d h =
    (reg_e_rules, ground arith, ground arith, ground arith, ground arith, refl)
new_dispute_lem Regime.us_reg_z d h =
    (reg_z_rules, ground arith, ground arith, ground arith, ground arith, refl)
new_dispute_lem (Regime.other s) d h = absurd (ground arith)

-- Whatever its regime, a dispute takes at most twenty events after it is opened: no history goes on
-- for ever.
pub history_bounded :
    (regime : Regime) (d d' : Dispute) (es : List Event)
    → new_dispute regime ≡ ok d
    → apply_all d es ≡ ok d'
    → length es ≤ 20
history_bounded regime d d' es h run =
    let (r, known, g, s, a, m) = new_dispute_lem regime d h in
    let b : length es + budget r d' ≤ budget r d = apply_all-budget r d d' es known run in
    ground (arith, b)
