-- ===== src/Application/Log.antt =====
-- The log of a dispute as its history: the events that CreateDispute, ApplyEvent and Reassign write
-- (application/service.go, routing.go), taken again by the lifecycle (domain/state.go).
use thesis_dispute_engine.Prelude.{
  ℕ, ◌+◌, String, ◌≡◌, refl, ap, ◌∙◌, Bool, true, false, ◌&&◌, List, [], ◌∷◌, ◌++◌, str_eq, eq_iff,
  arith, if◌then◌else◌,
}
use thesis_dispute_engine.Result.{Result, ok, err, ◌>>=◌, >>=-eq-ok}
use thesis_dispute_engine.Errs.{opaque}
use thesis_dispute_engine.Domain.Vocabulary.{Regime, State, initiated, Event}
use thesis_dispute_engine.Domain.Lifecycle.{Dispute, new_dispute, apply}
use thesis_dispute_engine.Domain.Lifecycle.Names.{state_name}
use thesis_dispute_engine.Domain.Lifecycle.Allowed.{not-apply-other}
use thesis_dispute_engine.Application.Records.{EventRecord}

abbrev is_event : String → Event → Bool
is_event name (Event.other s) = str_eq s name
is_event name _ = false

abbrev state_eq : State → State → Bool
state_eq s t = str_eq (state_name s) (state_name t)

state_eq_refl : (s : State) → state_eq s s ≡ true
state_eq_refl s = (eq_iff (state_name s) (state_name s)).1 refl

-- Where an entry of the log takes a dispute: a reassignment leaves it where it is.
abbrev destination : Dispute → EventRecord → Result Dispute
destination d e = if is_event "REASSIGNED" e.event then ok d else apply d e.event

-- The entry names the state that it left and the state that it entered.
abbrev named : Dispute → EventRecord → Dispute → Result Dispute
named d e d' =
    if state_eq e.from_state d.state && state_eq e.to_state d'.state
    then ok d'
    else err (opaque "the entry names another state")

abbrev pub take_entry : Dispute → EventRecord → Result Dispute
take_entry d e = destination d e >>= λ d'. named d e d'

unfoldable pub replay_from : Dispute → List EventRecord → Result Dispute
replay_from d [] = ok d
replay_from d (e ∷ es) = take_entry d e >>= λ d'. replay_from d' es

-- A log begins with the opening of the dispute.
abbrev pub opening : Regime → EventRecord → Result Dispute
opening regime e =
    if is_event "OPENED" e.event && state_eq e.to_state initiated
    then new_dispute regime
    else err (opaque "the dispute was not opened")

unfoldable pub replay : Regime → List EventRecord → Result Dispute
unfolding replay_from
replay regime [] = err (opaque "no entry")
replay regime (e ∷ es) = opening regime e >>= λ d. replay_from d es

-- The entries are numbered from `n + 1` to `v`.
abbrev pub Numbered : ℕ → List EventRecord → ℕ → Type 0
Numbered n [] v = v ≡ n
Numbered n (e ∷ es) v = (e.seq ≡ n + 1) × Numbered (n + 1) es v

pub Numbered-append :
    (n : ℕ) (es : List EventRecord) (e : EventRecord) (v : ℕ)
    → Numbered n es v
    → e.seq ≡ v + 1
    → Numbered n (es ++ e ∷ []) (v + 1)
Numbered-append n [] e v h k = (omega arith, omega arith)
Numbered-append n (x ∷ es) e v h k = (h.0, Numbered-append (n + 1) es e v h.1 k)

replay_from-append :
    (d d1 d2 : Dispute) (es : List EventRecord) (e : EventRecord)
    → replay_from d es ≡ ok d1
    → take_entry d1 e ≡ ok d2
    → replay_from d (es ++ e ∷ []) ≡ ok d2
unfolding replay_from
replay_from-append d d1 d2 [] e h k = let s : d ≡ d1 = cc in rw (s, k) refl
replay_from-append d d1 d2 (x ∷ es) e h k =
    let (d', first, rest) = >>=-eq-ok (take_entry d x) (λ d'. replay_from d' es) h in
    ap (λ r. r >>= λ d'. replay_from d' (es ++ e ∷ [])) first
    ∙ replay_from-append d' d1 d2 es e rest k

replay-append :
    (regime : Regime) (es : List EventRecord) (e : EventRecord) (d d' : Dispute)
    → replay regime es ≡ ok d
    → take_entry d e ≡ ok d'
    → replay regime (es ++ e ∷ []) ≡ ok d'
unfolding replay
replay-append regime [] e d d' h k = absurd (cc)
replay-append regime (x ∷ es) e d d' h k =
    let (d0, new, rest) = >>=-eq-ok (opening regime x) (λ d. replay_from d es) h in
    ap (λ r. r >>= λ d. replay_from d (es ++ e ∷ [])) new ∙ replay_from-append d0 d d' es e rest k

not_reassignment :
    (d d' : Dispute) (event : Event) → apply d event ≡ ok d' → is_event "REASSIGNED" event ≡ false
not_reassignment d d' (Event.other s) h = absurd (not-apply-other d d' s h)
not_reassignment d d' event h = ground arith

-- An entry that was written as the lifecycle took the event.
pub replay-applied :
    (regime : Regime) (es : List EventRecord) (e : EventRecord) (d d' : Dispute)
    → replay regime es ≡ ok d
    → apply d e.event ≡ ok d'
    → e.from_state ≡ d.state
    → e.to_state ≡ d'.state
    → replay regime (es ++ e ∷ []) ≡ ok d'
replay-applied regime es e d d' h k from to = replay-append regime es e d d' h (
    rw (not_reassignment d d' e.event k, k, from, to, state_eq_refl d.state, state_eq_refl d'.state)
      refl)

-- An entry that was written as the dispute moved to another team.
pub replay-reassigned :
    (regime : Regime) (es : List EventRecord) (e : EventRecord) (d : Dispute)
    → replay regime es ≡ ok d
    → e.event ≡ Event.other "REASSIGNED"
    → e.from_state ≡ d.state
    → e.to_state ≡ d.state
    → replay regime (es ++ e ∷ []) ≡ ok d
replay-reassigned regime es e d h event from to =
    replay-append regime es e d d h (rw (event, from, to, state_eq_refl d.state) refl)
