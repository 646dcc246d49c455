-- ===== src/Application/Clocks.antt =====
-- settleDeadlines of application/service.go: which clocks of a dispute an entered state closes, and
-- the clock that an appeal starts.
pub mod Laws
use thesis_dispute_engine.Prelude.{
  ℕ, ◌≡◌, refl, ◌⊎◌, inl, inr, Bool, true, false, not, Option, none, some, List, [], ◌∷◌, ◌++◌,
  String, ltb, if◌then◌else◌, arith, All, ◌&&◌, ◌==◌, ==_iff, Bool-cases,
}
use thesis_dispute_engine.Result.{Result, ok, err}
use thesis_dispute_engine.Errs.{opaque}
use thesis_dispute_engine.Domain.Vocabulary.{State, DeadlineKind, closed}
use thesis_dispute_engine.Domain.Regime.{rules_for}
use thesis_dispute_engine.Domain.Lifecycle.{Dispute}
use thesis_dispute_engine.Domain.Deadline.{
  Deadline, is_open, Calendar, Settlement, settle, appeal_deadlines,
}
use thesis_dispute_engine.Domain.Deadline.Statuses.{settle_closed}
use thesis_dispute_engine.Application.Records.{DisputeRecord}
use thesis_dispute_engine.Application.Store.{
  Db, put, Caller, Tx, pure, fail, lift, gets, modify, ◌>>=◌, ◌>>◌, get_dispute,
}
use thesis_dispute_engine.Application.Rows.{
  deadline_kind_eq, settle_clock, settle_clocks, settle_deadline, list_deadlines, insert_deadlines,
  set_deadlines,
}

module _ {N : Type 0} where
  -- The `switch` in the loop's body.
  abbrev pub settle_as : Caller N → String → Deadline → Settlement → ℕ → Tx N (Unit {0})
  settle_as c id d Settlement.met now = settle_deadline c id d.kind d.cycle true now
  settle_as c id d Settlement.void now = settle_deadline c id d.kind d.cycle false now
  settle_as c id d Settlement.untouched now = pure tt

  unfoldable pub settle_each : Caller N → String → State → ℕ → List Deadline → Tx N (Unit {0})
  unfolding settle_deadline settle_clocks
  settle_each c id entered now [] = pure tt
  settle_each c id entered now (d ∷ ds) =
      (if not (is_open d) then pure tt else settle_as c id d (settle d.kind entered) now)
      >> settle_each c id entered now ds

  -- The deadlines of an appeal. `none` is a calendar's loop out of fuel, which does not happen.
  abbrev pub inserted : Caller N → String → Option (List Deadline) → Tx N (Unit {0})
  inserted c id none = fail (opaque "out of fuel")
  inserted c id (some ds) = insert_deadlines c id ds

  unfoldable pub settle_deadlines :
      Caller N → Calendar → DisputeRecord N → Dispute → ℕ → Tx N (Unit {0})
  unfolding settle_each
  settle_deadlines c cal rec next now = do
    open_ ← list_deadlines c rec.id
    settle_each c rec.id next.state now open_
    if ltb rec.appeals next.appeals
        then (do
          r ← lift (rules_for rec.regime)
          inserted c rec.id (appeal_deadlines r next.appeals now cal))
        else pure tt
