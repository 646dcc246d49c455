-- ===== src/Tests/Deadline.antt =====
-- Runs of the deadlines (domain/deadline.go).
use thesis_dispute_engine.Prelude.{
  ℕ, ◌+◌, ◌-◌, ◌*◌, ◌/◌, ◌≡◌, refl, ◌⊎◌, true, none, some, [], ◌∷◌, arith,
}
use thesis_dispute_engine.Domain.Vocabulary.{DeadlineKind, DayUnit}
use thesis_dispute_engine.Domain.Regime.{Clock}
use thesis_dispute_engine.Domain.Deadline.{
  Deadline, Calendar, Location, is_business_day, counts, due_day, latest, due_fuel, due_instant,
  due,
}
use thesis_dispute_engine.Domain.Deadline.Due.{counted, due_lem}

-- A zone whose days are ten instants long.
abbrev ten : Location
ten = record {
  day_of = λ t. t / 10;
  midnight = λ d. 10 * d;
  midnight_le = λ t. omega arith;
  lt-midnight = λ t. omega arith;
  midnight_mono = λ d. omega arith;
}

-- Monday, 5 January 1970 is a holiday.
abbrev calendar : Calendar
calendar = record { location = ten; holidays = 4 ∷ [] }

abbrev one_business_day : Clock
one_business_day = record {
  kind = DeadlineKind.refund;
  count = 1;
  unit = DayUnit.business_days;
  basis = "";
}

abbrev two_days : Clock
two_days = record {
  kind = DeadlineKind.resolution;
  count = 2;
  unit = DayUnit.calendar_days;
  basis = "";
}

abbrev clock_met : Deadline
clock_met = record {
  kind = DeadlineKind.refund;
  cycle = 0;
  started_at = 0;
  due_at = 59;
  met_at = some 30;
  voided_at = none;
  basis = "";
}

abbrev clock_open : Deadline
clock_open = record {
  kind = DeadlineKind.refund;
  cycle = 0;
  started_at = 0;
  due_at = 59;
  met_at = none;
  voided_at = none;
  basis = "";
}

-- From Friday, 2 January over the weekend and the holiday to Tuesday, 6 January.
due_example : due calendar 13 one_business_day ≡ some 59
unfolding due due_day due_fuel latest due_instant counts is_business_day
due_example = refl

due_lem_example :
    (k : ℕ) × (due calendar 13 one_business_day ≡ some (10 * (1 + k + 1) - 1))
    × (counted calendar DayUnit.business_days 1 k ≡ 1)
    × ((k ≡ 0) ⊎ (counts calendar DayUnit.business_days (1 + k) ≡ true))
due_lem_example = due_lem calendar 13 one_business_day
