-- ===== src/Application/Listing/Described.antt =====
-- What NextDeadlines and LatestRisk of apptest/memstore.go look up for a dispute.
use thesis_dispute_engine.Prelude.{
  ℕ, ◌≤◌, ◌≡◌, refl, ap, ◌⊎◌, inl, inr, true, false, Option, none, some, List, [], ◌∷◌, ◌++◌, map,
  arith, In, Bool-cases, ltb, ltb→lt,
}
use thesis_dispute_engine.Domain.Deadline.{Deadline, is_open}
use thesis_dispute_engine.Domain.Risk.{Assessment}
use thesis_dispute_engine.Application.Records.{DisputeRecord, RiskRecord}
use thesis_dispute_engine.Application.Store.{Db}
use thesis_dispute_engine.Application.Hold.{latest}
use thesis_dispute_engine.Application.Listing.{
  DisputeSummary, first_open, or_latest, clock_view, sooner, summary,
}

-- The clock still runs: it was neither met nor voided.
abbrev pub Runs : Deadline → Type 0
Runs d = (d.met_at ≡ none) × (d.voided_at ≡ none)

-- A clock that runs and runs out no later than any other that runs, or nothing if none runs.
abbrev pub IsNext : List Deadline → Option Deadline → Type 0
IsNext ds none = (d : Deadline) → In d ds → Runs d → ⊥
IsNext ds (some n) = In n ds × Runs n × ((d : Deadline) → In d ds → Runs d → n.due_at ≤ d.due_at)

-- The assessment that was appended last, or nothing if none was made.
abbrev pub IsLatest : List RiskRecord → Option Assessment → Type 0
IsLatest rs none = rs ≡ []
IsLatest rs (some a) =
    (before : List RiskRecord) × (r : RiskRecord) × (rs ≡ before ++ r ∷ []) × (r.assessment ≡ a)

is_open_iff : (d : Deadline) → (is_open d ≡ true) → Runs d
unfolding is_open
is_open_iff d h = ground arith

Runs-is_open : (d : Deadline) → Runs d → is_open d ≡ true
unfolding is_open
Runs-is_open d (a, b) = rw (a, b) refl

sooner-some :
    (cur d : Deadline)
    → (sooner (some cur) d ≡ some d) × (d.due_at ≤ cur.due_at)
      ⊎ (sooner (some cur) d ≡ some cur) × (cur.due_at ≤ d.due_at)
sooner-some cur d = elim (Bool-cases (ltb d.due_at cur.due_at)) [
  | inl less ↦ let l = ltb→lt d.due_at cur.due_at less in inl (rw less refl, omega (arith, l))
  | inr more ↦ let l : cur.due_at ≤ d.due_at = ground arith in inr (rw more refl, l)
]

-- Started with a clock, the search ends with that one or with one of the list, no later than both.
first_open-some :
    (cur : Deadline) (ds : List Deadline)
    → (n : Deadline) × (first_open (some cur) ds ≡ some n)
      × ((n ≡ cur) ⊎ (In n ds × Runs n))
      × (n.due_at ≤ cur.due_at)
      × ((d : Deadline) → In d ds → Runs d → n.due_at ≤ d.due_at)
unfolding first_open
first_open-some cur [] = (cur, refl, inl refl, omega arith, λ d m _. absurd m)
first_open-some cur (x ∷ ds) = elim (Bool-cases (is_open x)) [
  | inr shut ↦
      let (n, e, from, le, least) = first_open-some cur ds in
      (
        n,
        rw shut e,
        widened from,
        le,
        λ d m runs. elim m [
          | inl same ↦ absurd (let z = Runs-is_open d runs in let y = rw same at z in cc)
          | inr there ↦ least d there runs
        ],
      )
  | inl runs ↦ elim (sooner-some cur x) [
    | inl (taken, le) ↦
        let (n, e, from, le', least) = first_open-some x ds in
        (
          n,
          rw (runs, taken) e,
          inr (found runs from),
          omega (arith, le, le'),
          λ d m r. elim m [ inl same ↦ rw same le' | inr there ↦ least d there r ],
        )
    | inr (kept, le) ↦
        let (n, e, from, le', least) = first_open-some cur ds in
        (
          n,
          rw (runs, kept) e,
          widened from,
          le',
          λ d m r. elim m [
            | inl same ↦ rw same (omega (arith, le, le'))
            | inr there ↦ least d there r
          ],
        )
  ]
]
  where
    widened : {n : Deadline} → (n ≡ cur) ⊎ (In n ds × Runs n) → (n ≡ cur) ⊎ (In n (x ∷ ds) × Runs n)
    widened (inl e) = inl e
    widened (inr (m, r)) = inr (inr m, r)

    found :
        {n : Deadline} → is_open x ≡ true → (n ≡ x) ⊎ (In n ds × Runs n) → In n (x ∷ ds) × Runs n
    found running (inl e) = rw e (inl refl, is_open_iff x running)
    found running (inr (m, r)) = (inr m, r)

first_open-IsNext : (ds : List Deadline) → IsNext ds (first_open none ds)
unfolding first_open
first_open-IsNext [] = λ d m _. m
first_open-IsNext (x ∷ ds) = elim (Bool-cases (is_open x)) [
  | inl runs ↦
      let (n, e, from, le, least) = first_open-some x ds in
      rw (runs, e)
        (
          (here runs from).0,
          (here runs from).1,
          λ d m r. elim m [ inl same ↦ rw same le | inr there ↦ least d there r ],
        )
  | inr shut ↦ rw shut (later shut (first_open none ds) (first_open-IsNext ds))
]
  where
    here : {n : Deadline} → is_open x ≡ true → (n ≡ x) ⊎ (In n ds × Runs n) → In n (x ∷ ds) × Runs n
    here running (inl e) = rw e (inl refl, is_open_iff x running)
    here running (inr (m, r)) = (inr m, r)

    later : is_open x ≡ false → (o : Option Deadline) → IsNext ds o → IsNext (x ∷ ds) o
    later shut none h = λ d m r. elim m [
      | inl same ↦ absurd (let z = Runs-is_open d r in let y = rw same at z in cc)
      | inr there ↦ h d there r
    ]
    later shut (some n) (m, r, least) = (
      inr m,
      r,
      λ d m' r'. elim m' [
        | inl same ↦ absurd (let z = Runs-is_open d r' in let y = rw same at z in cc)
        | inr there ↦ least d there r'
      ],
    )

or_latest-IsLatest : (rs : List RiskRecord) → IsLatest rs (or_latest none (latest rs))
or_latest-IsLatest [] = refl
or_latest-IsLatest (r ∷ []) = ([], r, refl, refl)
or_latest-IsLatest (r ∷ s ∷ rs) =
    further (or_latest none (latest (s ∷ rs))) (or_latest-IsLatest (s ∷ rs))
  where
    further : (o : Option Assessment) → IsLatest (s ∷ rs) o → IsLatest (r ∷ s ∷ rs) o
    further none h = absurd (cc)
    further (some a) (before, l, e, same) = (r ∷ before, l, ap (λ xs. r ∷ xs) e, same)

module _ {N : Type 0} where
  -- The summary is of the dispute, with the clock that runs out first and the latest assessment.
  pub record Tells (now : ℕ) (db : Db N) (r : DisputeRecord N) (s : DisputeSummary N) : Type 0 where
    pub id : s.id ≡ r.id
    pub state : s.state ≡ r.state
    pub disputed_amount : s.disputed_amount ≡ r.disputed_amount
    pub currency : s.currency ≡ r.currency
    pub opened_at : s.opened_at ≡ r.opened_at
    pub clock :
        (next : Option Deadline) × IsNext (db.deadlines r.id) next
        × (s.next_deadline ≡ clock_view now next)
    pub risk : IsLatest (db.risk r.id) s.risk

  -- What is shown of a dispute.
  abbrev pub described : ℕ → Db N → DisputeRecord N → DisputeSummary N
  described now db r =
      summary now (first_open none (db.deadlines r.id)) (or_latest none (latest (db.risk r.id))) r

  -- Each dispute has its summary, in order.
  abbrev pub TellsEach : ℕ → Db N → List (DisputeRecord N) → List (DisputeSummary N) → Type 0
  TellsEach now db [] [] = Unit
  TellsEach now db (r ∷ rs) (s ∷ ss) = Tells now db r s × TellsEach now db rs ss
  TellsEach now db _ _ = ⊥

  described-Tells :
      (now : ℕ) (db : Db N) (r : DisputeRecord N) → Tells now db r (described now db r)
  described-Tells now db r = record {
    id = refl;
    state = refl;
    disputed_amount = refl;
    currency = refl;
    opened_at = refl;
    clock = (first_open none (db.deadlines r.id), first_open-IsNext (db.deadlines r.id), refl);
    risk = or_latest-IsLatest (db.risk r.id);
  }

  pub described-TellsEach :
      (now : ℕ) (db : Db N) (rs : List (DisputeRecord N))
      → TellsEach now db rs (map (described now db) rs)
  described-TellsEach now db [] = tt
  described-TellsEach now db (r ∷ rs) = (described-Tells now db r, described-TellsEach now db rs)
