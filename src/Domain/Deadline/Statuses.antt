-- ===== src/Domain/Deadline/Statuses.antt =====
-- Where a clock stands, and what settles it (Status, Open, Settle, OpeningDeadlines and
-- AppealDeadlines of domain/deadline.go).
use thesis_dispute_engine.Prelude.{
  ℕ, ◌+◌, ◌-◌, inl, inr, if◌then◌else◌, ◌≤◌, ◌≡◌, refl, ◌≢◌, ◌↔◌, ◌⊎◌, true, some, List, [], ◌∷◌,
  arith, Bool-cases,
}
use thesis_dispute_engine.Domain.Vocabulary.{State, issue_refund, closed, DeadlineKind}
use thesis_dispute_engine.Domain.Regime.{Clock, Rules}
use thesis_dispute_engine.Domain.Lifecycle.{next}
use thesis_dispute_engine.Domain.Deadline.{
  Deadline, running, met, breached, status, is_open, Settlement, settle, Calendar, start_clock,
  deadline_of, opening_deadlines, opening_from, appeal_deadlines, appeal_from, is_resolution,
}
use thesis_dispute_engine.Domain.Deadline.Due.{due_lem, due-le}

-- A clock is open exactly while it runs or is breached; a breach is not undone by time passing, and
-- what is settled keeps its status for good.
pub status_over_time :
    (d : Deadline) (t t' : ℕ)
    → t ≤ t'
    → ((is_open d ≡ true) ↔ ((status d t ≡ running) ⊎ (status d t ≡ breached)))
      × ((status d t' ≡ status d t) ⊎ ((status d t ≡ running) × (status d t' ≡ breached)))
unfolding status is_open
status_over_time d t t' h = ground arith

-- A clock that was met was met in time exactly when it reads so, whatever the time is now.
pub status_met_iff :
    (d : Deadline) (m now : ℕ) → d.met_at ≡ some m → ((status d now ≡ met) ↔ (m ≤ d.due_at))
unfolding status
status_met_iff d m now h = ground arith

-- Closing settles every clock: only the resolution clock is met by it, and nothing but closing meets
-- that one or voids any.
pub settle_closed :
    (k : DeadlineKind) (s : State)
    → (settle k closed ≢ Settlement.untouched)
      × ((settle DeadlineKind.resolution s ≡ Settlement.met) ↔ (s ≡ closed))
      × ((settle k s ≡ Settlement.void) ↔ ((s ≡ closed) × (k ≢ DeadlineKind.resolution)))
unfolding settle
settle_closed k s = ground arith

-- Whenever the lifecycle issues a refund, the state that it enters meets the refund clock and no
-- other.
pub settle_refund :
    (r : Rules) (s t : State) (k : DeadlineKind)
    → next r s issue_refund ≡ some t
    → (settle k t ≡ Settlement.met) ↔ (k ≡ DeadlineKind.refund)
unfolding next settle
settle_refund r s t k h = ground arith

-- A clock that has just been started: open, of its kind and cycle, and not due before it starts.
abbrev pub Started : ℕ → ℕ → Clock → Deadline → Type 0
Started cycle at c d =
    (d.kind ≡ c.kind)
    × (d.cycle ≡ cycle)
    × (d.started_at ≡ at)
    × (is_open d ≡ true)
    × (status d at ≡ running)

deadline_of-Started :
    (cal : Calendar) (cycle at : ℕ) (c : Clock)
    → (d : Deadline) × (deadline_of cal cycle at c ≡ some d) × Started cycle at c d
unfolding deadline_of is_open status
deadline_of-Started cal cycle at c =
    let (k, e, total, last) = due_lem cal at c in
    let t = cal.location.midnight (cal.location.day_of at + k + 1) - 1 in
    let l = due-le cal at t c e in
    (start_clock cycle at c t, rw (e, deadline_of), (refl, refl, refl, refl, ground arith))

-- The deadlines, one for each clock and in the clocks' order.
abbrev pub AllStarted : ℕ → ℕ → List Clock → List Deadline → Type 0
AllStarted cycle at [] [] = Unit
AllStarted cycle at (c ∷ cs) (d ∷ ds) = Started cycle at c d × AllStarted cycle at cs ds
AllStarted cycle at _ _ = ⊥

opening_from-AllStarted :
    (cs : List Clock) (at : ℕ) (cal : Calendar)
    → (ds : List Deadline) × (opening_from cs at cal ≡ some ds) × AllStarted 0 at cs ds
unfolding opening_from
opening_from-AllStarted [] at cal = ([], refl, tt)
opening_from-AllStarted (c ∷ cs) at cal =
    let (d, e, s) = deadline_of-Started cal 0 at c in
    let (ds, es, ss) = opening_from-AllStarted cs at cal in (d ∷ ds, rw (e, es), (s, ss))

-- Opening a dispute starts every clock of its regime, in order and in cycle 0: each is open and
-- running at the moment that it starts.
opening_deadlines-AllStarted :
    (r : Rules) (at : ℕ) (cal : Calendar)
    → (ds : List Deadline) × (opening_deadlines r at cal ≡ some ds) × AllStarted 0 at r.clocks ds
unfolding opening_deadlines
opening_deadlines-AllStarted r at cal = opening_from-AllStarted r.clocks at cal

abbrev pub resolution_clocks : List Clock → List Clock
resolution_clocks [] = []
resolution_clocks (c ∷ cs) =
    let rest = resolution_clocks cs in if is_resolution c.kind then c ∷ rest else rest

appeal_from-AllStarted :
    (cs : List Clock) (n at : ℕ) (cal : Calendar)
    → (ds : List Deadline) × (appeal_from cs n at cal ≡ some ds)
      × AllStarted n at (resolution_clocks cs) ds
unfolding appeal_from
appeal_from-AllStarted [] n at cal = ([], refl, tt)
appeal_from-AllStarted (c ∷ cs) n at cal =
    let (d, e, s) = deadline_of-Started cal n at c in
    let (ds, es, ss) = appeal_from-AllStarted cs n at cal in
    elim (Bool-cases (is_resolution c.kind)) [
      | inl yes_ ↦ (d ∷ ds, rw (yes_, e, es), rw yes_ (s, ss))
      | inr no_ ↦ (ds, rw (no_, es), rw no_ ss)
    ]

-- An appeal starts the regime's resolution clocks again and no other, numbered by the appeal: each
-- is open and running at the moment that it starts.
pub appeal_deadlines-AllStarted :
    (r : Rules) (n at : ℕ) (cal : Calendar)
    → (ds : List Deadline) × (appeal_deadlines r n at cal ≡ some ds)
      × AllStarted n at (resolution_clocks r.clocks) ds
unfolding appeal_deadlines
appeal_deadlines-AllStarted r n at cal = appeal_from-AllStarted r.clocks n at cal
