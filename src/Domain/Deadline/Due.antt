-- ===== src/Domain/Deadline/Due.antt =====
-- When a clock runs out (Calendar.Due of domain/deadline.go).
use thesis_dispute_engine.Prelude.{
  ℕ, zero, suc, ◌+◌, ◌-◌, ◌*◌, ◌≤◌, ◌<◌, ◌≡◌, refl, sym, ◌∙◌, ◌⊎◌, inl, inr, true, some, List, [],
  ◌∷◌, arith, some_inj, ◌==◌, if◌then◌else◌,
}
use native.Mathlib.Nat.{add-zero}
use thesis_dispute_engine.Domain.Vocabulary.{DayUnit}
use thesis_dispute_engine.Domain.Regime.{Clock}
use thesis_dispute_engine.Domain.Deadline.{
  Location, Calendar, contains, weekday, is_weekend, counts, due_day, latest, due_fuel, due_instant,
  due,
}

-- How many of the `k` days after `day` the clock counts.
abbrev pub counted : Calendar → DayUnit → ℕ → ℕ → ℕ
counted c unit day zero = 0
counted c unit day (suc k) = (if counts c unit (day + 1) then 1 else 0) + counted c unit (day + 1) k

contains-le-latest : (hs : List ℕ) (d : ℕ) → contains hs d ≡ true → d ≤ latest hs
unfolding latest
contains-le-latest [] d h = cc
contains-le-latest (x ∷ hs) d h = ground (arith, contains-le-latest hs d)

-- How many days off are left before the next Monday to Friday.
abbrev weekend_left : ℕ → ℕ
weekend_left day = if weekday day == 5 then 2 else if weekday day == 6 then 1 else 0

weekend_falls :
    (day : ℕ) → is_weekend (day + 1) ≡ true → suc (weekend_left (day + 1)) ≤ weekend_left day
weekend_falls day h = ground arith

measure : Calendar → ℕ → ℕ → ℕ
measure c n day = 3 * (latest c.holidays - day) + 3 * n + weekend_left day

-- Each day that is walked brings the loop closer to its end.
measure_falls :
    (c : Calendar) (unit : DayUnit) (n day : ℕ)
    → measure c (if counts c unit (day + 1) then n else suc n) (day + 1) < measure c (suc n) day
unfolding measure counts
measure_falls c unit n day =
    ground (arith, weekend_falls day, contains-le-latest c.holidays (day + 1))

measure_pos : (c : Calendar) (n day : ℕ) → 0 < measure c (suc n) day
unfolding measure
measure_pos c n day = omega arith

due_day_total :
    (fuel : ℕ) (c : Calendar) (unit : DayUnit) (n day : ℕ)
    → measure c n day ≤ fuel
    → (d : ℕ) × (due_day fuel c unit n day ≡ some d)
unfolding due_day
due_day_total fuel c unit zero day h = (day, refl)
due_day_total zero c unit (suc n) day h = absurd (omega (arith, measure_pos c n day))
due_day_total (suc fuel) c unit (suc n) day h =
    due_day_total fuel c unit (if counts c unit (day + 1) then n else suc n) (day + 1)
      (omega (arith, measure_falls c unit n day))

due_fuel_enough : (c : Calendar) (n day : ℕ) → measure c n day ≤ due_fuel c n day
unfolding measure due_fuel
due_fuel_enough c n day = ground arith

-- Where the loop stops: `k` days on, with `n` of them counted, the last one among them.
abbrev StopsAt : Calendar → DayUnit → ℕ → ℕ → ℕ → Type 0
StopsAt c unit n day d =
    (k : ℕ) × (d ≡ day + k) × (counted c unit day k ≡ n) × ((k ≡ 0) ⊎ (counts c unit d ≡ true))

StopsAt-step :
    (c : Calendar) (unit : DayUnit) (n day d : ℕ)
    → StopsAt c unit (if counts c unit (day + 1) then n else suc n) (day + 1) d
    → StopsAt c unit (suc n) day d
StopsAt-step c unit n day d (k, at, total, last) = (suc k, omega arith, stepped, inr ended)
  where
    stepped : counted c unit day (suc k) ≡ suc n
    stepped = ground arith

    ended : counts c unit d ≡ true
    ended = elim last [
      | inl z ↦
          let total' : 0 ≡ (if counts c unit (day + 1) then n else suc n) = rw z at total in
          let at' : d ≡ day + 1 = omega arith in ground arith
      | inr e ↦ e
    ]

due_day-StopsAt :
    (fuel : ℕ) (c : Calendar) (unit : DayUnit) (n day d : ℕ)
    → due_day fuel c unit n day ≡ some d
    → StopsAt c unit n day d
unfolding due_day
due_day-StopsAt fuel c unit zero day d h = (0, ground arith, refl, inl refl)
due_day-StopsAt zero c unit (suc n) day d h = absurd (cc)
due_day-StopsAt (suc fuel) c unit (suc n) day d h =
    StopsAt-step c unit n day d
      (due_day-StopsAt fuel c unit (if counts c unit (day + 1) then n else suc n) (day + 1) d h)

-- A clock always runs out, at the last instant of a day: the one that makes the count full, with
-- just the clock's number of counted days from the day after the start up to it, and itself counted
-- unless the clock counts no day.
pub due_lem :
    (c : Calendar) (start : ℕ) (clock : Clock)
    → let day = c.location.day_of start in
      (k : ℕ) × (due c start clock ≡ some (c.location.midnight (day + k + 1) - 1))
      × (counted c clock.unit day k ≡ clock.count)
      × ((k ≡ 0) ⊎ (counts c clock.unit (day + k) ≡ true))
unfolding due due_instant
due_lem c start clock =
    let day = c.location.day_of start in
    let (d, runs) =
      due_day_total (due_fuel c clock.count day) c clock.unit clock.count day
        (due_fuel_enough c clock.count day) in
    let (k, at, total, last) =
      due_day-StopsAt (due_fuel c clock.count day) c clock.unit clock.count day d runs in
    (k, rw (runs, at), total, rw at at last)

counted-calendar :
    (c : Calendar) (unit : DayUnit) (day k : ℕ)
    → unit ≡ DayUnit.calendar_days
    → counted c unit day k ≡ k
unfolding counts
counted-calendar c unit day zero u = refl
counted-calendar c unit day (suc k) u = ground (arith, counted-calendar c unit (day + 1) k u)

-- A clock of calendar days runs out at the end of the day that lies just that many days after the
-- day of the start.
pub due_calendar :
    (c : Calendar) (start : ℕ) (clock : Clock)
    → clock.unit ≡ DayUnit.calendar_days
    → due c start clock ≡ some (c.location.midnight (c.location.day_of start + clock.count + 1) - 1)
due_calendar c start clock u =
    let (k, at, total, last) = due_lem c start clock in
    let e : k ≡ clock.count =
      sym (counted-calendar c clock.unit (c.location.day_of start) k u) ∙ total in
    rw (at, e)

midnight-le-add : (l : Location) (d k : ℕ) → l.midnight d ≤ l.midnight (d + k)
midnight-le-add l d zero = rw add-zero (omega arith)
midnight-le-add l d (suc k) =
    let e : d + suc k ≡ suc (d + k) = omega arith in
    rw e (omega (arith, midnight-le-add l d k, l.midnight_mono (d + k)))

-- No clock runs out before it starts.
pub due-le : (c : Calendar) (start t : ℕ) (clock : Clock) → due c start clock ≡ some t → start ≤ t
due-le c start t clock h =
    let (k, at, total, last) = due_lem c start clock in
    let day = c.location.day_of start in
    let e : t ≡ c.location.midnight (day + k + 1) - 1 = some_inj (sym h ∙ at) in
    let e' : day + k + 1 ≡ suc day + k = omega arith in
    rw (e, e') (omega (arith, midnight-le-add c.location (suc day) k, c.location.lt-midnight start))
