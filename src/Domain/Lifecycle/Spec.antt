-- ===== src/Domain/Lifecycle/Spec.antt =====
-- The lifecycle as a diagram (docs/adr/0002, domain/testdata), and that domain/state.go follows it.
use thesis_dispute_engine.Prelude.{
  ◌+◌, ◌<◌, ◌≡◌, refl, ◌≢◌, ◌↔◌, inl, inr, true, none, some, arith, Bool-cases, if◌then◌else◌,
}
use thesis_dispute_engine.Result.{ok}
use thesis_dispute_engine.Domain.Vocabulary.{
  RefundPath, State, initiated, investigating, questionnaire_sent, questionnaire_received,
  provisional_credit_issued, fast_refund_issued, sepa_nqa_refund_issued, chargeback_filed,
  chargeback_acknowledged, evidence_submitted, chargeback_won, chargeback_lost, final_credit_issued,
  provisional_credit_reversed, closed, Event, open_investigation, send_questionnaire,
  receive_questionnaire, issue_refund, file_chargeback, acknowledge_chargeback, submit_evidence,
  win_chargeback, lose_chargeback, issue_final_credit, reverse_provisional_credit, close, appeal,
  event_is_appeal,
}
use thesis_dispute_engine.Domain.Regime.{Rules, rules_for}
use thesis_dispute_engine.Domain.Lifecycle.{
  Dispute, next, refund_next, apply_appeal, apply_next, apply,
}

-- Where an investigation may end: in money to the customer, in a chargeback, or in nothing.
pub data IsInvestigated : State → Type 0 where
  at_once : IsInvestigated investigating
  answered : IsInvestigated questionnaire_received

-- The three ways in which money reaches the customer, each under its refund path.
pub data Refunds : RefundPath → State → Type 0 where
  provisionally : Refunds RefundPath.provisional_credit provisional_credit_issued
  fast : Refunds RefundPath.fast fast_refund_issued
  unquestioned : Refunds RefundPath.no_questions_asked sepa_nqa_refund_issued

-- The states that follow a refund of any kind.
pub data IsRefunded : State → Type 0 where
  with_provisional : IsRefunded provisional_credit_issued
  with_fast : IsRefunded fast_refund_issued
  with_unquestioned : IsRefunded sepa_nqa_refund_issued

-- The states in which a chargeback may be decided.
pub data IsContested : State → Type 0 where
  acknowledged : IsContested chargeback_acknowledged
  with_evidence : IsContested evidence_submitted

-- The states in which a chargeback has been decided.
pub data IsDecided : State → Type 0 where
  won : IsDecided chargeback_won
  lost : IsDecided chargeback_lost

-- The states that a dispute may be closed from, whatever the regime.
pub data IsClosable : State → Type 0 where
  investigated : {s : State} → IsInvestigated s → IsClosable s
  unanswered : IsClosable questionnaire_sent
  refunded : {s : State} → IsRefunded s → IsClosable s
  credited : IsClosable final_credit_issued
  reversed : IsClosable provisional_credit_reversed

pub data Edge (r : Rules) : State → Event → State → Type 0 where
  investigate : Edge r initiated open_investigation investigating
  refund_at_once :
      r.refund ≡ RefundPath.no_questions_asked
      → Edge r initiated issue_refund sepa_nqa_refund_issued
  ask : Edge r investigating send_questionnaire questionnaire_sent
  answer : Edge r questionnaire_sent receive_questionnaire questionnaire_received
  refund : {s t : State} → IsInvestigated s → Refunds r.refund t → Edge r s issue_refund t
  file_first :
      {s : State}
      → IsInvestigated s
      → r.refund ≡ RefundPath.none
      → r.has_adjudication ≡ true
      → Edge r s file_chargeback chargeback_filed
  file :
      {s : State}
      → IsRefunded s
      → r.has_adjudication ≡ true
      → Edge r s file_chargeback chargeback_filed
  confirm : Edge r chargeback_filed acknowledge_chargeback chargeback_acknowledged
  contest :
      r.merchant_may_contest ≡ true
      → Edge r chargeback_acknowledged submit_evidence evidence_submitted
  win : {s : State} → IsContested s → Edge r s win_chargeback chargeback_won
  lose : {s : State} → IsContested s → Edge r s lose_chargeback chargeback_lost
  credit :
      r.refund ≡ RefundPath.provisional_credit
      → Edge r chargeback_won issue_final_credit final_credit_issued
  reverse :
      r.refund ≡ RefundPath.provisional_credit
      → Edge r chargeback_lost reverse_provisional_credit provisional_credit_reversed
  close_decided :
      {s : State} → IsDecided s → r.refund ≢ RefundPath.provisional_credit → Edge r s close closed
  close_early : {s : State} → IsClosable s → Edge r s close closed

ruleset parts = (
  at_once, answered, with_provisional, with_fast, with_unquestioned, provisionally, fast,
  unquestioned, acknowledged, with_evidence, won, lost, investigated, unanswered, refunded,
  credited, reversed,
)

ruleset edges = (
  investigate, refund_at_once, ask, answer, refund, file_first, file, confirm, contest, win, lose,
  credit, reverse, close_decided, close_early,
)

pub next-Edge : (r : Rules) (s : State) (e : Event) (t : State) → next r s e ≡ some t → Edge r s e t
unfolding next
next-Edge r s e t h = grind (arith, parts, edges)

Refunds-refund_next :
    (r : Rules) {p : RefundPath} {t : State} → Refunds p t → r.refund ≡ p → refund_next r ≡ some t
Refunds-refund_next r provisionally e = ground arith
Refunds-refund_next r fast e = ground arith
Refunds-refund_next r unquestioned e = ground arith

IsClosable-next : (r : Rules) {s : State} → IsClosable s → next r s close ≡ some closed
unfolding next
IsClosable-next r (investigated at_once) = refl
IsClosable-next r (investigated answered) = refl
IsClosable-next r unanswered = refl
IsClosable-next r (refunded with_provisional) = refl
IsClosable-next r (refunded with_fast) = refl
IsClosable-next r (refunded with_unquestioned) = refl
IsClosable-next r credited = refl
IsClosable-next r reversed = refl

pub Edge-next : {r : Rules} {s t : State} {e : Event} → Edge r s e t → next r s e ≡ some t
unfolding next
Edge-next investigate = refl
Edge-next (refund_at_once h) = ground arith
Edge-next ask = refl
Edge-next answer = refl
Edge-next {r} (refund at_once h) = Refunds-refund_next r h refl
Edge-next {r} (refund answered h) = Refunds-refund_next r h refl
Edge-next (file_first at_once h a) = ground arith
Edge-next (file_first answered h a) = ground arith
Edge-next (file with_provisional a) = ground arith
Edge-next (file with_fast a) = ground arith
Edge-next (file with_unquestioned a) = ground arith
Edge-next confirm = refl
Edge-next (contest h) = ground arith
Edge-next (win acknowledged) = refl
Edge-next (win with_evidence) = refl
Edge-next (lose acknowledged) = refl
Edge-next (lose with_evidence) = refl
Edge-next (credit h) = ground arith
Edge-next (reverse h) = ground arith
Edge-next (close_decided won h) = ground arith
Edge-next (close_decided lost h) = ground arith
Edge-next {r} (close_early h) = IsClosable-next r h

-- What an event may do to a dispute: follow an edge, or reopen a closed dispute that has appeals
-- left.
pub data Step (r : Rules) (d : Dispute) (e : Event) (d' : Dispute) : Type 0 where
  move : Edge r d.state e d'.state → d'.regime ≡ d.regime → d'.appeals ≡ d.appeals → Step r d e d'
  reopen :
      e ≡ appeal
      → d.state ≡ closed
      → d.appeals < r.max_appeals
      → d'.state ≡ investigating
      → d'.regime ≡ d.regime
      → d'.appeals ≡ d.appeals + 1
      → Step r d e d'

next-appeal : (r : Rules) (s : State) → next r s appeal ≡ none
unfolding next
next-appeal r initiated = refl
next-appeal r _ = refl

pub apply_of_rules :
    (r : Rules) (d : Dispute) (e : Event)
    → rules_for d.regime ≡ ok r
    → apply d e ≡ (if event_is_appeal e then apply_appeal r d else apply_next r d e)
unfolding apply
apply_of_rules r d e known = rw known refl

event_is_appeal-eq : (e : Event) → event_is_appeal e ≡ true → e ≡ appeal
event_is_appeal-eq e h = ground arith

pub apply_next_lem :
    (r : Rules) (d d' : Dispute) (e : Event)
    → apply_next r d e ≡ ok d'
    → (next r d.state e ≡ some d'.state) × (d'.regime ≡ d.regime) × (d'.appeals ≡ d.appeals)
unfolding apply_next
apply_next_lem r d d' e h = ground arith

pub apply_appeal_lem :
    (r : Rules) (d d' : Dispute)
    → apply_appeal r d ≡ ok d'
    → (d.state ≡ closed)
      × (d.appeals < r.max_appeals)
      × (d'.state ≡ investigating)
      × (d'.regime ≡ d.regime)
      × (d'.appeals ≡ d.appeals + 1)
unfolding apply_appeal
apply_appeal_lem r d d' h = ground arith

apply_sound :
    (r : Rules) (d d' : Dispute) (e : Event)
    → rules_for d.regime ≡ ok r
    → apply d e ≡ ok d'
    → Step r d e d'
apply_sound r d d' e known h = elim (Bool-cases (event_is_appeal e)) [
  | inl a ↦
      let ha : apply_appeal r d ≡ ok d' = rw (apply_of_rules r d e known, a) at h in
      let (c, l, s, g, n) = apply_appeal_lem r d d' ha in reopen (event_is_appeal-eq e a) c l s g n
  | inr a ↦
      let hn : apply_next r d e ≡ ok d' = rw (apply_of_rules r d e known, a) at h in
      let (t, g, n) = apply_next_lem r d d' e hn in move (next-Edge r d.state e d'.state t) g n
]

apply_complete :
    (r : Rules) (d d' : Dispute) (e : Event)
    → rules_for d.regime ≡ ok r
    → Step r d e d'
    → apply d e ≡ ok d'
unfolding apply_next apply_appeal
apply_complete r d d' e known (move edge g n) =
    let t = Edge-next edge in ground (arith, apply_of_rules r d e known, next-appeal r d.state)
apply_complete r d d' e known (reopen a c l s g n) = ground (arith, apply_of_rules r d e known)

-- Under the rules of its regime, `Apply` accepts an event exactly when the diagram has a step for
-- it, and moves to where the step leads.
pub apply_iff :
    (r : Rules) (d d' : Dispute) (e : Event)
    → rules_for d.regime ≡ ok r
    → (apply d e ≡ ok d') ↔ Step r d e d'
apply_iff r d d' e known = (apply_sound r d d' e known, apply_complete r d d' e known)
