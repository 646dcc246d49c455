-- ===== src/Domain/Lifecycle/Reach.antt =====
-- The states that a dispute can be in under each regime, and that it can always be closed
-- (domain/state.go).
use thesis_dispute_engine.Prelude.{ℕ, ◌≤◌, ◌≡◌, true, some, List, [], ◌∷◌, arith, if◌then◌else◌}
use thesis_dispute_engine.Result.{ok, >>=-eq-ok, ok-injective}
use thesis_dispute_engine.Domain.Vocabulary.{
  Regime, RefundPath, State, initiated, provisional_credit_issued, fast_refund_issued,
  sepa_nqa_refund_issued, chargeback_filed, chargeback_acknowledged, evidence_submitted,
  chargeback_won, chargeback_lost, final_credit_issued, provisional_credit_reversed, closed, Event,
  open_investigation, acknowledge_chargeback, win_chargeback, issue_final_credit,
  reverse_provisional_credit, close,
}
use thesis_dispute_engine.Domain.Regime.{Rules, rules_for, has_provisional_credit}
use thesis_dispute_engine.Domain.Lifecycle.{Dispute, next, apply, apply_next, new_dispute}
use thesis_dispute_engine.Domain.Lifecycle.Spec.{Step, move, reopen, apply_iff, Edge-next}
use thesis_dispute_engine.Domain.Lifecycle.Bounds.{apply_all, new_dispute_lem}

-- The states that a regime enables: each refund under its own path, the network only with
-- adjudication, evidence only where the merchant may contest, settlement only after a provisional
-- credit, and nothing outside the lifecycle.
abbrev pub Enables : Rules → State → Type 0
Enables r provisional_credit_issued = r.refund ≡ RefundPath.provisional_credit
Enables r fast_refund_issued = r.refund ≡ RefundPath.fast
Enables r sepa_nqa_refund_issued = r.refund ≡ RefundPath.no_questions_asked
Enables r chargeback_filed = r.has_adjudication ≡ true
Enables r chargeback_acknowledged = r.has_adjudication ≡ true
Enables r evidence_submitted = (r.has_adjudication ≡ true) × (r.merchant_may_contest ≡ true)
Enables r chargeback_won = r.has_adjudication ≡ true
Enables r chargeback_lost = r.has_adjudication ≡ true
Enables r final_credit_issued =
    (r.has_adjudication ≡ true) × (r.refund ≡ RefundPath.provisional_credit)
Enables r provisional_credit_reversed =
    (r.has_adjudication ≡ true) × (r.refund ≡ RefundPath.provisional_credit)
Enables r (State.other _) = ⊥
Enables r _ = Unit

pub next-Enables :
    (r : Rules) (s : State) (e : Event) (t : State)
    → next r s e ≡ some t
    → Enables r s
    → Enables r t
unfolding next
next-Enables r s e t h fits = ground arith

-- A dispute under its rules, in a state that they enable, with no more appeals than they allow.
pub record IsValid (r : Rules) (d : Dispute) : Type 0 where
  pub known : rules_for d.regime ≡ ok r
  pub enabled : Enables r d.state
  pub appeals_capped : d.appeals ≤ r.max_appeals

Step-IsValid : (r : Rules) (d d' : Dispute) (e : Event) → IsValid r d → Step r d e d' → IsValid r d'
Step-IsValid r d d' e v (move edge g n) = record {
  known = rw g v.known;
  enabled = next-Enables r d.state e d'.state (Edge-next edge) v.enabled;
  appeals_capped = rw n v.appeals_capped;
}
Step-IsValid r d d' e v (reopen a c l s g n) = record {
  known = rw g v.known;
  enabled = rw s tt;
  appeals_capped = rw n (omega arith);
}

-- Every event that is accepted keeps a dispute valid.
pub apply-IsValid :
    (r : Rules) (d d' : Dispute) (e : Event) → IsValid r d → apply d e ≡ ok d' → IsValid r d'
apply-IsValid r d d' e v h = Step-IsValid r d d' e v ((apply_iff r d d' e v.known).0 h)

pub apply_all-IsValid :
    (r : Rules) (d d' : Dispute) (es : List Event)
    → IsValid r d
    → apply_all d es ≡ ok d'
    → IsValid r d'
unfolding apply_all
apply_all-IsValid r d d' [] v h = rw (← ok-injective h) v
apply_all-IsValid r d d' (e ∷ es) v h =
    let (m, step, rest) = >>=-eq-ok (apply d e) (λ m. apply_all m es) h in
    apply_all-IsValid r m d' es (apply-IsValid r d m e v step) rest

-- Whatever events it has taken, a dispute is under the rules of the regime that it was opened with,
-- in a state that they enable, with no more appeals than they allow.
pub history-IsValid :
    (regime : Regime) (d d' : Dispute) (es : List Event)
    → new_dispute regime ≡ ok d
    → apply_all d es ≡ ok d'
    → (r : Rules) × (rules_for regime ≡ ok r) × IsValid r d'
history-IsValid regime d d' es h run =
    let (r, known, g, s, a, m) = new_dispute_lem regime d h in
    let enabled : Enables r d.state = rw s tt in
    let v : IsValid r d = record {
      known = known;
      enabled = enabled;
      appeals_capped = omega arith;
    } in
    (r, (rw g at known), apply_all-IsValid r d d' es v run)

-- The ways out of the decided states.
abbrev settle_events : Rules → Event → List Event
settle_events r e = if has_provisional_credit r then e ∷ close ∷ [] else close ∷ []

-- A way from each state to `closed`.
abbrev way_out : Rules → State → List Event
way_out r initiated = open_investigation ∷ close ∷ []
way_out r chargeback_filed =
    acknowledge_chargeback ∷ win_chargeback ∷ settle_events r issue_final_credit
way_out r chargeback_acknowledged = win_chargeback ∷ settle_events r issue_final_credit
way_out r evidence_submitted = win_chargeback ∷ settle_events r issue_final_credit
way_out r chargeback_won = settle_events r issue_final_credit
way_out r chargeback_lost = settle_events r reverse_provisional_credit
way_out r closed = []
way_out r _ = close ∷ []

apply_all-way_out :
    (r : Rules) (regime : Regime) (s : State) (n : ℕ)
    → rules_for regime ≡ ok r
    → Enables r s
    → apply_all (record { regime = regime; state = s; appeals = n }) (way_out r s)
      ≡ ok (record { regime = regime; state = closed; appeals = n })
unfolding apply_all apply apply_next next
apply_all-way_out r regime s n known fits = ground arith

-- A valid dispute is never stuck: some events lead from where it stands to `closed`, and use no
-- appeal up.
pub IsValid-closable :
    (r : Rules) (d : Dispute)
    → IsValid r d
    → (es : List Event) × (apply_all d es
        ≡ ok (record { regime = d.regime; state = closed; appeals = d.appeals }))
IsValid-closable r d v =
    (way_out r d.state, apply_all-way_out r d.regime d.state d.appeals v.known v.enabled)
