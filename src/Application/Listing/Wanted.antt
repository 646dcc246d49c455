-- ===== src/Application/Listing/Wanted.antt =====
-- What a list query asks for, apart from how the store tests it (application/ports.go).
use thesis_dispute_engine.Prelude.{
  ℕ, ◌<◌, ◌≡◌, refl, sym, ap, ◌∙◌, ◌↔◌, inl, inr, Bool, true, false, not, ◌&&◌, ◌||◌, Option, none,
  some, List, [], ◌∷◌, arith, In, eq_iff, ltb, lt→ltb, some_inj, Bool-cases,
}
use thesis_dispute_engine.Domain.Vocabulary.{State, Reason}
use thesis_dispute_engine.Domain.Lifecycle.Names.{state_name}
use thesis_dispute_engine.Domain.Deadline.{Deadline, is_open}
use thesis_dispute_engine.Domain.QuestionSets.Reasons.{reason_eq_iff}
use thesis_dispute_engine.Application.Records.{DisputeRecord}
use thesis_dispute_engine.Application.Store.{Db, Caller, visible}
use thesis_dispute_engine.Application.Listing.{ListQuery, is_overdue, other_state, other_reason}
use thesis_dispute_engine.Application.Listing.Rows.{Matches}

-- Some open clock ran out before the instant.
abbrev pub Overdue : List Deadline → ℕ → Type 0
Overdue ds now = (k : Deadline) × In k ds × (is_open k ≡ true) × (k.due_at < now)

-- A dispute of the tenant's that the caller may see, in the state, for the reason and past due, where
-- the query says so.
pub record Wanted {N : Type 0} (c : Caller N) (q : ListQuery) (now : ℕ) (db : Db N)
    (d : DisputeRecord N) : Type 0 where
  pub listed : In d.id db.dispute_ids
  pub held : db.disputes d.id ≡ some d
  pub tenant : d.tenant_id ≡ c.tenant
  pub seen : visible c d ≡ true
  pub state : (s : State) → q.state ≡ some s → state_name d.state ≡ state_name s
  pub reason : (r : Reason) → q.reason ≡ some r → d.reason ≡ r
  pub overdue : q.overdue ≡ true → Overdue (db.deadlines d.id) now

or_right : (a b : Bool) → b ≡ true → (a || b) ≡ true
or_right a b h = ground arith

is_overdue_iff : (ds : List Deadline) (now : ℕ) → (is_overdue ds now ≡ true) ↔ Overdue ds now
unfolding is_overdue
is_overdue_iff [] now = (λ h. absurd (cc), λ (k, m, o, l). absurd m)
is_overdue_iff (d ∷ ds) now = (
  λ h. elim (Bool-cases (is_open d && ltb d.due_at now)) [
    | inl late ↦ (d, inl refl, ground arith, ground arith)
    | inr fine ↦
        let (k, m, o, l) = (is_overdue_iff ds now).0 (let z = h in rw fine at z) in (k, inr m, o, l)
  ],
  λ (k, m, o, l). elim m [
    | inl e ↦ rw (sym e) (rw (o, lt→ltb k.due_at now l) refl)
    | inr n ↦ or_right _ _ ((is_overdue_iff ds now).1 (k, n, o, l))
  ],
)

true_of_not : (b : Bool) → not b ≡ false → b ≡ true
true_of_not b h = ground arith

other_state_iff :
    (o : Option State) (t : State)
    → (other_state o t ≡ false) ↔ ((s : State) → o ≡ some s → state_name t ≡ state_name s)
other_state_iff none t = (λ h s e. absurd (cc), λ h. refl)
other_state_iff (some s) t = (
  λ h s' e. (eq_iff (state_name t) (state_name s)).0 (true_of_not _ h) ∙ ap state_name (some_inj e),
  λ h. rw ((eq_iff (state_name t) (state_name s)).1 (h s refl)) refl,
)

other_reason_iff :
    (o : Option Reason) (t : Reason)
    → (other_reason o t ≡ false) ↔ ((r : Reason) → o ≡ some r → t ≡ r)
other_reason_iff none t = (λ h s e. absurd (cc), λ h. refl)
other_reason_iff (some r) t = (
  λ h r' e. (reason_eq_iff t r).0 (ground arith) ∙ some_inj e,
  λ h. rw ((reason_eq_iff t r).1 (h r refl)) refl,
)

-- The five tests at once.
tests_iff :
    (tenant seen state reason overdue late : Bool)
    → ((tenant && (seen && (not state && (not reason && not (overdue && not late))))) ≡ true) ↔ (
        (tenant ≡ true)
        × (seen ≡ true)
        × (state ≡ false)
        × (reason ≡ false)
        × (overdue ≡ true → late ≡ true))
tests_iff true true false false overdue late = ground arith
tests_iff true true false true overdue late = (λ h. absurd (cc), λ h. absurd (cc (h.3)))
tests_iff true true true reason overdue late = (λ h. absurd (cc), λ h. absurd (cc (h.2)))
tests_iff true false state reason overdue late = (λ h. absurd (cc), λ h. absurd (cc (h.1)))
tests_iff false seen state reason overdue late = (λ h. absurd (cc), λ h. absurd (cc (h.0)))

module _ {N : Type 0} (c : Caller N) (q : ListQuery) (now : ℕ) (db : Db N)
    (d : DisputeRecord N) where
  -- The store's test asks for just these.
  pub Matches-Wanted : Matches c (record q { now = now }) db d ↔ Wanted c q now db d
  Matches-Wanted = (
    λ m.
        let (tenant, seen, state, reason, overdue) = (tests_iff _ _ _ _ _ _).0 m.asked in
        record {
          listed = m.listed;
          held = m.held;
          tenant = (eq_iff d.tenant_id c.tenant).0 tenant;
          seen = seen;
          state = (other_state_iff q.state d.state).0 state;
          reason = (other_reason_iff q.reason d.reason).0 reason;
          overdue = λ h. (is_overdue_iff (db.deadlines d.id) now).0 (overdue h);
        },
    λ w. record {
      listed = w.listed;
      held = w.held;
      asked = (tests_iff _ _ _ _ _ _).1 (
        (eq_iff d.tenant_id c.tenant).1 w.tenant,
        w.seen,
        (other_state_iff q.state d.state).1 w.state,
        (other_reason_iff q.reason d.reason).1 w.reason,
        λ h. (is_overdue_iff (db.deadlines d.id) now).1 (w.overdue h),
      );
    },
  )
