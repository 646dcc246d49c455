-- ===== src/Domain/Deadline.antt =====
-- domain/deadline.go: regulatory clocks, the business-day calendar, and what a state settles.
-- An instant is a count of nanoseconds and a day a count of days since 1970-01-01, from 0. A zone's
-- days come from the time zone database, which is not in the repository: `Location` is a parameter.
-- Its days are those that begin at a midnight of the zone; every day is taken to have one.
pub mod Statuses
pub mod Due
use thesis_dispute_engine.Prelude.{
  ℕ, zero, suc, ◌+◌, ◌-◌, ◌*◌, ◌%◌, ◌≤◌, ◌<◌, ◌≡◌, String, Bool, true, false, not, ◌&&◌, ◌||◌,
  Option, none, some, List, [], ◌∷◌, ltb, leb, ◌==◌, if◌then◌else◌,
}
use thesis_dispute_engine.Domain.Vocabulary.{
  State, provisional_credit_issued, fast_refund_issued, sepa_nqa_refund_issued, final_credit_issued,
  closed, DeadlineKind, DayUnit,
}
use thesis_dispute_engine.Domain.Regime.{Clock, Rules}

pub data DeadlineStatus : Type 0 where
  running met late breached void : DeadlineStatus

pub record Deadline : Type 0 where
  pub kind : DeadlineKind
  pub cycle : ℕ
  pub started_at : ℕ
  pub due_at : ℕ
  pub met_at : Option ℕ
  pub voided_at : Option ℕ
  pub basis : String

-- t.After(u)
abbrev pub after : ℕ → ℕ → Bool
after t u = ltb u t

abbrev status_unmet : Option ℕ → ℕ → ℕ → DeadlineStatus
status_unmet (some _) due_at now = void
status_unmet none due_at now = if after now due_at then breached else running

abbrev status_of : Option ℕ → Option ℕ → ℕ → ℕ → DeadlineStatus
status_of (some m) voided_at due_at now = if not (after m due_at) then met else late
status_of none voided_at due_at now = status_unmet voided_at due_at now

unfoldable pub status : Deadline → ℕ → DeadlineStatus
status d now = status_of d.met_at d.voided_at d.due_at now

abbrev both_absent : Option ℕ → Option ℕ → Bool
both_absent none none = true
both_absent _ _ = false

unfoldable pub is_open : Deadline → Bool
is_open d = both_absent d.met_at d.voided_at

-- A time zone: the day that an instant falls on, and the midnight that a day begins at.
pub record Location : Type 0 where
  pub day_of : ℕ → ℕ
  pub midnight : ℕ → ℕ
  pub midnight_le : (t : ℕ) → midnight (day_of t) ≤ t
  pub lt-midnight : (t : ℕ) → t < midnight (suc (day_of t))
  pub midnight_mono : (d : ℕ) → midnight d < midnight (suc d)

-- The holidays are the days that the calendar's texts name.
pub record Calendar : Type 0 where
  pub location : Location
  pub holidays : List ℕ

abbrev pub contains : List ℕ → ℕ → Bool
contains [] d = false
contains (h ∷ hs) d = h == d || contains hs d

-- 1970-01-01 was a Thursday: Sunday is 0, as in the package time.
abbrev pub weekday : ℕ → ℕ
weekday d = (d + 4) % 7

abbrev pub is_weekend : ℕ → Bool
is_weekend d = weekday d == 6 || weekday d == 0

-- `IsBusinessDay` of an instant on the day `d`.
unfoldable pub is_business_day : Calendar → ℕ → Bool
is_business_day c d = if is_weekend d then false else not (contains c.holidays d)

abbrev pub unit_is_calendar_days : DayUnit → Bool
unit_is_calendar_days DayUnit.calendar_days = true
unit_is_calendar_days DayUnit.business_days = false

-- Whether the clock counts the day.
unfoldable pub counts : Calendar → DayUnit → ℕ → Bool
unfolding is_business_day
counts c unit d = unit_is_calendar_days unit || is_business_day c d

-- The loop of `Due` on the day and on how many days are still to be counted; `none` is out of fuel.
unfoldable pub due_day : ℕ → Calendar → DayUnit → ℕ → ℕ → Option ℕ
due_day fuel c unit zero day = some day
due_day zero c unit (suc n) day = none
due_day (suc fuel) c unit (suc n) day =
    due_day fuel c unit (if counts c unit (day + 1) then n else suc n) (day + 1)

-- A bound on the days that the loop walks: three for each day up to the last holiday and for each
-- day to be counted, since no three days in a row are at a weekend.
unfoldable pub latest : List ℕ → ℕ
latest [] = 0
latest (h ∷ hs) = let m = latest hs in if ltb m h then h else m

unfoldable pub due_fuel : Calendar → ℕ → ℕ → ℕ
unfolding latest
due_fuel c n day = 3 * (latest c.holidays - day) + 3 * n + 2

unfoldable pub due_instant : Calendar → Option ℕ → Option ℕ
due_instant c none = none
due_instant c (some day) = some (c.location.midnight (day + 1) - 1)

unfoldable pub due : Calendar → ℕ → Clock → Option ℕ
unfolding due_day due_fuel due_instant
due c start clock =
    let day = c.location.day_of start in
    due_instant c (due_day (due_fuel c clock.count day) c clock.unit clock.count day)

-- The literal that starts a clock with its due time.
abbrev pub start_clock : ℕ → ℕ → Clock → ℕ → Deadline
start_clock cycle at c due_at = record {
  kind = c.kind;
  cycle = cycle;
  started_at = at;
  due_at = due_at;
  met_at = none;
  voided_at = none;
  basis = c.basis;
}

-- The deadline of one clock; `none` only if `due` is.
pub deadline_of : Calendar → ℕ → ℕ → Clock → Option Deadline
unfolding due
deadline_of cal cycle at c = elim (due cal at c) [
  | none ↦ none
  | some due_at ↦ some (start_clock cycle at c due_at)
]

abbrev pub push : Option Deadline → Option (List Deadline) → Option (List Deadline)
push (some d) (some ds) = some (d ∷ ds)
push _ _ = none

pub opening_from : List Clock → ℕ → Calendar → Option (List Deadline)
unfolding deadline_of
opening_from [] at cal = some []
opening_from (c ∷ cs) at cal = push (deadline_of cal 0 at c) (opening_from cs at cal)

unfoldable pub opening_deadlines : Rules → ℕ → Calendar → Option (List Deadline)
unfolding opening_from
opening_deadlines r opened_at cal = opening_from r.clocks opened_at cal

abbrev pub is_resolution : DeadlineKind → Bool
is_resolution DeadlineKind.resolution = true
is_resolution _ = false

pub appeal_from : List Clock → ℕ → ℕ → Calendar → Option (List Deadline)
unfolding deadline_of
appeal_from [] n at cal = some []
appeal_from (c ∷ cs) n at cal =
    let rest = appeal_from cs n at cal in
    if is_resolution c.kind then push (deadline_of cal n at c) rest else rest

unfoldable pub appeal_deadlines : Rules → ℕ → ℕ → Calendar → Option (List Deadline)
unfolding appeal_from
appeal_deadlines r n at cal = appeal_from r.clocks n at cal

pub data Settlement : Type 0 where
  untouched met void : Settlement

unfoldable pub settle : DeadlineKind → State → Settlement
settle DeadlineKind.refund provisional_credit_issued = Settlement.met
settle DeadlineKind.refund fast_refund_issued = Settlement.met
settle DeadlineKind.refund sepa_nqa_refund_issued = Settlement.met
settle DeadlineKind.refund final_credit_issued = Settlement.met
settle DeadlineKind.refund closed = Settlement.void
settle DeadlineKind.acknowledge closed = Settlement.void
settle DeadlineKind.resolution closed = Settlement.met
settle _ _ = Settlement.untouched
