-- ===== src/Application/Clocks/Laws.antt =====
-- What settleDeadlines leaves open (application/service.go).
use thesis_dispute_engine.Prelude.{
  ℕ, ◌≤◌, ◌≡◌, refl, ap, ◌⊎◌, inl, inr, Bool, true, false, List, [], ◌∷◌, String, ltb, arith, All,
  ==_iff, Bool-cases,
}
use thesis_dispute_engine.Result.{ok}
use thesis_dispute_engine.Domain.Vocabulary.{DeadlineKind, closed}
use thesis_dispute_engine.Domain.Lifecycle.{Dispute}
use thesis_dispute_engine.Domain.Deadline.{Deadline, is_open, Calendar, Settlement, settle}
use thesis_dispute_engine.Domain.Deadline.Statuses.{settle_closed}
use thesis_dispute_engine.Application.Records.{DisputeRecord}
use thesis_dispute_engine.Application.Store.{
  Db, put, put-same, Caller, found, get_dispute, modify, ◌>>◌, >>=-runs,
}
use thesis_dispute_engine.Application.Rows.{
  deadline_kind_eq, settle_clock, settle_clocks, settle_deadline, list_deadlines, set_deadlines,
}
use thesis_dispute_engine.Application.Clocks.{settle_each, settle_deadlines}

-- An open clock of the kind and the cycle of `x` is in the list.
abbrev Covered : List Deadline → Deadline → Type 0
Covered [] x = ⊥
Covered (d ∷ ds) x = ((is_open d ≡ true) × (d.kind ≡ x.kind) × (d.cycle ≡ x.cycle)) ⊎ Covered ds x

-- The clock is settled, or is one that the loop has still to reach.
abbrev Pending : List Deadline → Deadline → Type 0
Pending ds x = (is_open x ≡ false) ⊎ Covered ds x

abbrev pub IsSettled : Deadline → Type 0
IsSettled x = is_open x ≡ false

All-map :
    {A : Type 0} {P Q : A → Type 0} → ((x : A) → P x → Q x) → (xs : List A) → All P xs → All Q xs
All-map f [] h = tt
All-map f (x ∷ xs) h = (f x h.0, All-map f xs h.1)

Pending-start : (ds : List Deadline) → All (Pending ds) ds
Pending-start [] = tt
Pending-start (d ∷ ds) = (here, All-map widen ds (Pending-start ds))
  where
    here : Pending (d ∷ ds) d
    here = elim (Bool-cases (is_open d)) [ inl e ↦ inr (inl (e, refl, refl)) | inr e ↦ inl e ]

    widen : (x : Deadline) → Pending ds x → Pending (d ∷ ds) x
    widen x (inl h) = inl h
    widen x (inr h) = inr (inr h)

Pending-skip :
    (d : Deadline) (ds cur : List Deadline)
    → is_open d ≡ false
    → All (Pending (d ∷ ds)) cur
    → All (Pending ds) cur
Pending-skip d ds cur e = All-map narrow cur
  where
    narrow : (x : Deadline) → Pending (d ∷ ds) x → Pending ds x
    narrow x (inl h) = inl h
    narrow x (inr (inl h)) = absurd (let k = h.0 in cc)
    narrow x (inr (inr h)) = inr h

deadline_kind_eq_refl : (k : DeadlineKind) → deadline_kind_eq k k ≡ true
deadline_kind_eq_refl k = ground arith

settle_clock-Pending :
    (d x : Deadline) (ds : List Deadline) (met : Bool) (at : ℕ)
    → Pending (d ∷ ds) x
    → Pending ds (settle_clock d.kind d.cycle met at x)
unfolding settle_clock is_open
settle_clock-Pending d x ds true at h =
    ground (arith, deadline_kind_eq_refl x.kind, ==_iff x.cycle d.cycle)
settle_clock-Pending d x ds false at h =
    ground (arith, deadline_kind_eq_refl x.kind, ==_iff x.cycle d.cycle)

settle_clocks-Pending :
    (d : Deadline) (ds cur : List Deadline) (met : Bool) (at : ℕ)
    → All (Pending (d ∷ ds)) cur
    → All (Pending ds) (settle_clocks d.kind d.cycle met at cur)
unfolding settle_clocks
settle_clocks-Pending d ds [] met at h = tt
settle_clocks-Pending d ds (x ∷ cur) met at h =
    (settle_clock-Pending d x ds met at h.0, settle_clocks-Pending d ds cur met at h.1)

Settlement-cases :
    (s : Settlement) → (s ≡ Settlement.met) ⊎ (s ≡ Settlement.void) ⊎ (s ≡ Settlement.untouched)
Settlement-cases s = ground arith

module _ {N : Type 0} where
  -- The dispute can be read in the transaction.
  abbrev pub Readable : Caller N → String → Db N → Type 0
  Readable c id db = (r : DisputeRecord N) × (found c (db.disputes id) ≡ ok r)

  settle_deadline-runs :
      (c : Caller N) (id : String) (k : DeadlineKind) (cycle : ℕ) (met : Bool) (at : ℕ) (db : Db N)
      → Readable c id db
      → settle_deadline c id k cycle met at db ≡ (
        ok tt,
        set_deadlines (put id (settle_clocks k cycle met at (db.deadlines id)) db.deadlines) db,
      )
  unfolding settle_deadline get_dispute
  settle_deadline-runs c id k cycle met at db (r, h) =
      >>=-runs (get_dispute c id)
        (λ _. modify (λ db.
          set_deadlines (put id (settle_clocks k cycle met at (db.deadlines id)) db.deadlines) db))
        (ap (λ x. (x, db)) h)

  -- The loop ends, changes no dispute and leaves no clock open that it was to settle.
  abbrev Settles : Caller N → String → ℕ → List Deadline → Db N → Type 0
  Settles c id now ds db =
      (db' : Db N) × (settle_each c id closed now ds db ≡ (ok tt, db'))
      × (db'.disputes ≡ db.disputes)
      × All IsSettled (db'.deadlines id)

  settle_each-Settles :
      (c : Caller N) (id : String) (now : ℕ) (ds : List Deadline) (db : Db N)
      → Readable c id db
      → All (Pending ds) (db.deadlines id)
      → Settles c id now ds db
  unfolding settle_each
  settle_each-Settles c id now [] db readable h =
      (db, refl, refl, All-map settled (db.deadlines id) h)
    where
      settled : (x : Deadline) → Pending [] x → IsSettled x
      settled x (inl e) = e
      settled x (inr e) = absurd e
  settle_each-Settles c id now (d ∷ ds) db readable h = elim (Bool-cases (is_open d)) [
    | inr e ↦
        let rest =
          settle_each-Settles c id now ds db readable (Pending-skip d ds (db.deadlines id) e h) in
        rw e rest
    | inl e ↦ elim (Settlement-cases (settle d.kind closed)) [
      | inl s ↦ rw (e, s) (after true (settle_each-Settles c id now ds))
      | inr (inl s) ↦ rw (e, s) (after false (settle_each-Settles c id now ds))
      | inr (inr s) ↦ absurd ((settle_closed d.kind closed).0 s)
    ]
  ]
    where
      after :
          (met : Bool)
          → ((db1 : Db N)
              → Readable c id db1
              → All (Pending ds) (db1.deadlines id)
              → Settles c id now ds db1)
          → (db' : Db N) × ((settle_deadline c id d.kind d.cycle met now
                  >> settle_each c id closed now ds)
                db
              ≡ (ok tt, db'))
            × (db'.disputes ≡ db.disputes)
            × All IsSettled (db'.deadlines id)
      after met rest =
          let v = settle_clocks d.kind d.cycle met now (db.deadlines id) in
          let db1 = set_deadlines (put id v db.deadlines) db in
          let runs =
            >>=-runs (settle_deadline c id d.kind d.cycle met now)
              (λ _. settle_each c id closed now ds)
              (settle_deadline-runs c id d.kind d.cycle met now db readable) in
          rw runs (
            rest db1 readable (
              rw (put-same id v db.deadlines)
                (settle_clocks-Pending d ds (db.deadlines id) met now h)))

  -- When a dispute that can be read enters `closed`, and that is no appeal, settling its clocks
  -- succeeds, leaves none of its clocks open and changes no dispute.
  settle_deadlines-closed :
      (c : Caller N) (cal : Calendar) (rec : DisputeRecord N) (next : Dispute) (now : ℕ) (db : Db N)
      → Readable c rec.id db
      → next.state ≡ closed
      → next.appeals ≤ rec.appeals
      → (db' : Db N) × (settle_deadlines c cal rec next now db ≡ (ok tt, db'))
        × (db'.disputes ≡ db.disputes)
        × All IsSettled (db'.deadlines rec.id)
  unfolding settle_deadlines list_deadlines get_dispute
  settle_deadlines-closed c cal rec next now db readable s le =
      let (db', runs, same, all) =
        settle_each-Settles c rec.id now (db.deadlines rec.id) db readable
          (Pending-start (db.deadlines rec.id)) in
      let no_appeal : ltb rec.appeals next.appeals ≡ false = ground arith in
      (db', rw (readable.1, s, runs, no_appeal) refl, same, all)
