-- ===== src/Domain/Lifecycle/Allowed.antt =====
-- The list of events that an analyst is offered: `Allowed` and `IsTerminal` (domain/state.go).
use thesis_dispute_engine.Prelude.{
  String, ◌≡◌, refl, ◌≢◌, ◌↔◌, inl, inr, Bool, true, false, List, [], ◌∷◌, arith, In, Bool-cases,
  if◌then◌else◌,
}
use thesis_dispute_engine.Result.{Result, ok, err}
use thesis_dispute_engine.Domain.Vocabulary.{
  State, Event, closed, initiated, chargeback_filed, chargeback_acknowledged, evidence_submitted,
  chargeback_won, chargeback_lost, open_investigation, acknowledge_chargeback, win_chargeback,
  issue_final_credit, reverse_provisional_credit, close, appeal, state_is_closed,
}
use thesis_dispute_engine.Domain.Regime.{Rules, rules_for, has_provisional_credit}
use thesis_dispute_engine.Domain.Lifecycle.{
  Dispute, next, apply, apply_next, accepts, allowed, allowed_from, all_events, is_terminal,
}
use thesis_dispute_engine.Domain.Lifecycle.Spec.{apply_of_rules}
use thesis_dispute_engine.Domain.Lifecycle.Reach.{IsValid, Enables}

allowed_from_iff :
    (d : Dispute) (e : Event) (es : List Event)
    → In e (allowed_from d es) ↔ (In e es × (accepts d e ≡ true))
unfolding allowed_from
allowed_from_iff d e [] = (λ h. absurd h, λ h. h.0)
allowed_from_iff d e (x ∷ es) = elim (Bool-cases (accepts d x)) [
  | inl taken ↦ rw taken (ground (arith, allowed_from_iff d e es))
  | inr refused ↦ rw refused (ground (arith, allowed_from_iff d e es))
]

accepts_iff :
    (d : Dispute) (e : Event) → (accepts d e ≡ true) ↔ ((d' : Dispute) × (apply d e ≡ ok d'))
unfolding accepts
accepts_iff d e = go (apply d e)
  where
    go :
        (m : Result Dispute)
        → ◌≡◌ {A = Bool} (elim m [ ok _ ↦ true | err _ ↦ false ]) true
          ↔ ((d' : Dispute) × (m ≡ ok d'))
    go (ok d') = (λ h. (d', refl), λ h. refl)
    go (err x) = (λ h. absurd (cc), λ h. absurd (ground arith))

not-accepts-other : (d : Dispute) (s : String) → accepts d (Event.other s) ≢ true
unfolding accepts apply apply_next next
not-accepts-other d s h = ground arith

pub not-apply-other : (d d' : Dispute) (s : String) → apply d (Event.other s) ≢ ok d'
not-apply-other d d' s h = not-accepts-other d s ((accepts_iff d (Event.other s)).1 (d', h))

all_events_lem : (d : Dispute) (e : Event) → accepts d e ≡ true → In e all_events
all_events_lem d (Event.other s) h = absurd (not-accepts-other d s h)
all_events_lem d appeal h = ground arith
all_events_lem d e h = ground arith

-- `Allowed` lists exactly the events that `Apply` would accept.
pub allowed_iff :
    (d : Dispute) (e : Event) → In e (allowed d) ↔ ((d' : Dispute) × (apply d e ≡ ok d'))
unfolding allowed
allowed_iff d e = (
  λ h. (accepts_iff d e).0 ((allowed_from_iff d e all_events).0 h).1,
  λ h.
      let a = (accepts_iff d e).1 h in
      (allowed_from_iff d e all_events).1 (all_events_lem d e a, a),
)

-- An event other than an appeal that moves a dispute on from each state that is not closed.
abbrev move_on : Rules → State → Event
move_on r initiated = open_investigation
move_on r chargeback_filed = acknowledge_chargeback
move_on r chargeback_acknowledged = win_chargeback
move_on r evidence_submitted = win_chargeback
move_on r chargeback_won = if has_provisional_credit r then issue_final_credit else close
move_on r chargeback_lost = if has_provisional_credit r then reverse_provisional_credit else close
move_on r _ = close

move_on_ne : (r : Rules) (s : State) → move_on r s ≢ appeal
move_on_ne r s h = ground arith

move_on_accepted :
    (r : Rules) (d : Dispute)
    → rules_for d.regime ≡ ok r
    → Enables r d.state
    → d.state ≢ closed
    → accepts d (move_on r d.state) ≡ true
unfolding accepts apply_next next
move_on_accepted r d known fits open_ = ground (arith, apply_of_rules r d (move_on r d.state) known)

closed_only_appeal : (d : Dispute) (e : Event) → d.state ≡ closed → accepts d e ≡ true → e ≡ appeal
unfolding accepts apply apply_next next
closed_only_appeal d e c h = ground arith

-- `IsTerminal` holds of a valid dispute exactly when nothing but an appeal can move it.
is_terminal_iff :
    (r : Rules) (d : Dispute)
    → IsValid r d
    → (is_terminal d ≡ true) ↔ ((e : Event) → In e (allowed d) → e ≡ appeal)
unfolding is_terminal allowed
is_terminal_iff r d v = (
  λ t e h. closed_only_appeal d e (ground arith) ((allowed_from_iff d e all_events).0 h).1,
  λ only. elim (Bool-cases (state_is_closed d.state)) [
    | inl c ↦ c
    | inr o ↦
        let a = move_on_accepted r d v.known v.enabled (λ c. ground arith) in
        let e = move_on r d.state in
        let i = (allowed_from_iff d e all_events).1 (all_events_lem d e a, a) in
        absurd (move_on_ne r d.state (only e i))
  ],
)
