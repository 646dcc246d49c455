-- ===== src/Platform/Failures/Reference.antt =====
-- The limiter against one that forgets nothing (platform/auth/failures.go).
use thesis_dispute_engine.Prelude.{
  ℕ, ◌+◌, ◌-◌, ◌≤◌, ◌<◌, ◌&&◌, length-append, String, ◌≡◌, refl, ap, sym, ◌∙◌, inl, inr, Bool, true,
  false, not, List, [], ◌∷◌, ◌++◌, length, ltb, leb, str_eq, eq_iff, arith, Bool-cases,
  if◌then◌else◌,
}
use thesis_dispute_engine.Platform.Failures.{
  FailureLimiter, new_failure_limiter, minute, drop_before, recent, kept, sweep, record_hit,
  blocked, Request, Verdict, served, refused, decide, middleware, serve,
}

-- A failure that was counted.
pub record Failure : Type 0 where
  pub peer : String
  pub at : ℕ

-- The failures of a peer that are not before the cutoff.
unfoldable pub count_since : String → ℕ → List Failure → ℕ
count_since peer cutoff [] = 0
count_since peer cutoff (x ∷ xs) =
    let rest = count_since peer cutoff xs in
    if str_eq peer x.peer && not (ltb x.at cutoff) then rest + 1 else rest

-- The reference: every failure is kept for ever, newest first, and counted anew.
abbrev pub refuses : ℕ → List Failure → Request → Bool
refuses per_minute log r = leb per_minute (count_since r.peer (r.at - minute) log)

abbrev pub decide_by_log : List Failure → Request → Bool → Verdict × List Failure
decide_by_log log r true = (refused, log)
decide_by_log log r false =
    (served, if r.presented then record { peer = r.peer; at = r.at } ∷ log else log)

abbrev pub by_log : ℕ → List Failure → Request → Verdict × List Failure
by_log per_minute log r =
    if leb per_minute 0
    then (served, log)
    else if not r.authorization
    then (served, log)
    else decide_by_log log r (refuses per_minute log r)

unfoldable pub serve_by_log : ℕ → List Failure → List Request → List Verdict
unfolding count_since
serve_by_log per_minute log [] = []
serve_by_log per_minute log (r ∷ rs) =
    let (v, log') = by_log per_minute log r in v ∷ serve_by_log per_minute log' rs

-- The requests come in the order of time, none before `now`.
abbrev pub InOrder : ℕ → List Request → Type 0
InOrder now [] = Unit
InOrder now (r ∷ rs) = (now ≤ r.at) × InOrder r.at rs

-- Dropping what is older than one cutoff does not change what is left under a later one.
drop_before-append :
    (s t : ℕ) (xs ys : List ℕ)
    → s ≤ t
    → drop_before t (drop_before s xs ++ ys) ≡ drop_before t (xs ++ ys)
unfolding drop_before
drop_before-append s t [] ys h = refl
drop_before-append s t (x ∷ xs) ys h = elim (Bool-cases (ltb x s)) [
  | inl old ↦
      let older : ltb x t ≡ true = ground arith in rw (old, older) (drop_before-append s t xs ys h)
  | inr new_ ↦ rw new_ refl
]

drop_before-drop_before :
    (s t : ℕ) (xs : List ℕ) → s ≤ t → drop_before t (drop_before s xs) ≡ drop_before t xs
unfolding drop_before
drop_before-drop_before s t [] h = refl
drop_before-drop_before s t (x ∷ xs) h = elim (Bool-cases (ltb x s)) [
  | inl old ↦
      let older : ltb x t ≡ true = ground arith in
      rw (old, older) (drop_before-drop_before s t xs h)
  | inr new_ ↦ rw new_ refl
]

-- A hit at or after the cutoff is left at the end.
drop_before-new :
    (t now : ℕ) (xs : List ℕ)
    → t ≤ now
    → length (drop_before t (xs ++ now ∷ [])) ≡ length (drop_before t xs) + 1
unfolding drop_before
drop_before-new t now [] h = ground arith
drop_before-new t now (x ∷ xs) h = elim (Bool-cases (ltb x t)) [
  | inl old ↦ rw old (drop_before-new t now xs h)
  | inr new_ ↦ rw new_ (length-append (x ∷ xs) (now ∷ []))
]

-- Where no hit is left, an older one is not left either.
drop_before-old :
    (t now : ℕ) (xs : List ℕ)
    → now < t
    → length (drop_before t xs) ≡ 0
    → length (drop_before t (xs ++ now ∷ [])) ≡ 0
unfolding drop_before
drop_before-old t now [] h e = ground arith
drop_before-old t now (x ∷ xs) h e = elim (Bool-cases (ltb x t)) [
  | inl old ↦ rw old (drop_before-old t now xs h (rw old at e))
  | inr new_ ↦ absurd (let k = rw new_ at e in omega arith)
]

-- The limiter and the log agree on every cutoff that is still to come, and the log has no failure
-- after `now`.
record Agrees (f : FailureLimiter) (log : List Failure) (now : ℕ) : Type 0 where
  counts :
      (p : String) (t : ℕ)
      → now - minute ≤ t
      → length (drop_before t (f.hits p)) ≡ count_since p t log
  bounded : (p : String) (t : ℕ) → now < t → count_since p t log ≡ 0

Agrees-later :
    (f : FailureLimiter) (log : List Failure) (now now' : ℕ)
    → now ≤ now'
    → Agrees f log now
    → Agrees f log now'
Agrees-later f log now now' h a = record {
  counts = λ p t le. a.counts p t (omega arith);
  bounded = λ p t lt. a.bounded p t (omega arith);
}

kept_lem :
    (s t : ℕ) (xs ys : List ℕ)
    → s ≤ t
    → drop_before s xs ≡ ys
    → drop_before t (kept ys xs) ≡ drop_before t xs
unfolding drop_before
kept_lem s t xs [] h e = sym (ap (drop_before t) e) ∙ drop_before-drop_before s t xs h
kept_lem s t xs (y ∷ ys) h e = refl

sweep-Agrees :
    (f : FailureLimiter) (log : List Failure) (now : ℕ)
    → Agrees f log now
    → Agrees (sweep f now) log now
unfolding sweep recent
sweep-Agrees f log now a = elim (Bool-cases (ltb (now - f.last_sweep) minute)) [
  | inl soon ↦ rw soon a
  | inr due ↦ rw due (record {
    counts = λ p t le.
        ap length
          (kept_lem (now - minute) t (f.hits p) (drop_before (now - minute) (f.hits p)) le refl)
        ∙ a.counts p t le;
    bounded = a.bounded;
  })
]

sweep-per_minute : (f : FailureLimiter) (now : ℕ) → (sweep f now).per_minute ≡ f.per_minute
unfolding sweep
sweep-per_minute f now = ground arith

record_hit-counts :
    (f : FailureLimiter) (log : List Failure) (now : ℕ) (peer p : String) (t : ℕ)
    → Agrees f log now
    → now - minute ≤ t
    → length (drop_before t ((record_hit f peer now).hits p))
      ≡ count_since p t (record { peer = peer; at = now } ∷ log)
unfolding record_hit recent count_since
record_hit-counts f log now peer p t a le = elim (Bool-cases (str_eq p peer)) [
  | inr other ↦ rw other (a.counts p t le)
  | inl same ↦
      let e : p ≡ peer = (eq_iff p peer).0 same in
      let hits = a.counts peer t le in
      let appended = drop_before-append (now - minute) t (f.hits peer) (now ∷ []) le in
      elim (Bool-cases (ltb now t)) [
        | inl past ↦
            let gone = a.bounded peer t (ground arith) in
            rw (same, past)
              (ap length appended
                ∙ drop_before-old t now (f.hits peer) (ground arith) (hits ∙ gone)
                ∙ sym (ap (λ q. count_since q t log) e ∙ gone))
        | inr new_ ↦
            rw (same, new_)
              (ap length appended
                ∙ drop_before-new t now (f.hits peer) (ground arith)
                ∙ ap (λ n. n + 1) (hits ∙ ap (λ q. count_since q t log) (sym e)))
      ]
]

record_hit-Agrees :
    (f : FailureLimiter) (log : List Failure) (now : ℕ) (peer : String)
    → Agrees f log now
    → Agrees (record_hit f peer now) (record { peer = peer; at = now } ∷ log) now
unfolding count_since
record_hit-Agrees f log now peer a = record {
  counts = λ p t le. record_hit-counts f log now peer p t a le;
  bounded = λ p t lt. ground (arith, a.bounded p t lt);
}

blocked-refuses :
    (f : FailureLimiter) (log : List Failure) (r : Request)
    → Agrees f log r.at
    → blocked f r.peer r.at ≡ refuses f.per_minute log r
unfolding blocked recent
blocked-refuses f log r a = ap (leb f.per_minute) (a.counts r.peer (r.at - minute) (omega arith))

-- One request: the same verdict, and agreement afterwards.
record Same (pm : ℕ) (now : ℕ) (x : Verdict × FailureLimiter) (y : Verdict × List Failure)
    : Type 0 where
  verdict : x.0 ≡ y.0
  agrees : Agrees x.1 y.1 now
  limit : x.1.per_minute ≡ pm

decide-Same :
    (f : FailureLimiter) (log : List Failure) (r : Request) (b : Bool)
    → Agrees f log r.at
    → Same f.per_minute r.at (decide f r b) (decide_by_log log r b)
unfolding record_hit
decide-Same f log r true a = record { verdict = refl; agrees = a; limit = refl }
decide-Same f log r false a = elim (Bool-cases r.presented) [
  | inl e ↦
      rw e (record { verdict = refl; agrees = record_hit-Agrees f log r.at r.peer a; limit = refl })
  | inr e ↦ rw e (record { verdict = refl; agrees = a; limit = refl })
]

middleware-Same :
    (f : FailureLimiter) (log : List Failure) (r : Request)
    → Agrees f log r.at
    → Same f.per_minute r.at (middleware f r) (by_log f.per_minute log r)
unfolding middleware
middleware-Same f log r a = elim (Bool-cases (leb f.per_minute 0)) [
  | inl off ↦ rw off (record { verdict = refl; agrees = a; limit = refl })
  | inr on_ ↦ elim (Bool-cases r.authorization) [
    | inr anonymous ↦ rw (on_, anonymous) (record { verdict = refl; agrees = a; limit = refl })
    | inl bearer ↦
        let swept = sweep-Agrees f log r.at a in
        let same : blocked (sweep f r.at) r.peer r.at ≡ refuses f.per_minute log r =
          blocked-refuses (sweep f r.at) log r swept
          ∙ ap (λ pm. refuses pm log r) (sweep-per_minute f r.at) in
        let d = decide-Same (sweep f r.at) log r (refuses f.per_minute log r) swept in
        rw (on_, bearer, same)
          (record {
            verdict = d.verdict;
            agrees = d.agrees;
            limit = d.limit ∙ sweep-per_minute f r.at;
          })
  ]
]

serve-serve_by_log :
    (f : FailureLimiter) (log : List Failure) (now : ℕ) (rs : List Request)
    → Agrees f log now
    → InOrder now rs
    → serve f rs ≡ serve_by_log f.per_minute log rs
unfolding serve serve_by_log
serve-serve_by_log f log now [] a order = refl
serve-serve_by_log f log now (r ∷ rs) a order =
    let s = middleware-Same f log r (Agrees-later f log now r.at order.0 a) in
    let f' = (middleware f r).1 in
    let log' = (by_log f.per_minute log r).1 in
    ap (λ v. v ∷ serve f' rs) s.verdict
    ∙ ap (λ vs. (by_log f.per_minute log r).0 ∷ vs)
        (serve-serve_by_log f' log' r.at rs s.agrees order.1
          ∙ ap (λ pm. serve_by_log pm log' rs) s.limit)

-- Whatever requests come to a new limiter, in the order of time, it serves and refuses just those
-- that the reference does, which keeps every failure for ever and refuses a request with a credential
-- if its peer has had at least `per_minute` counted failures within the last minute.
pub new_failure_limiter-serve_by_log :
    (per_minute now : ℕ) (rs : List Request)
    → InOrder now rs
    → serve (new_failure_limiter per_minute now) rs ≡ serve_by_log per_minute [] rs
unfolding drop_before count_since
new_failure_limiter-serve_by_log per_minute now rs order =
    serve-serve_by_log (new_failure_limiter per_minute now) [] now rs
      (record { counts = λ p t le. refl; bounded = λ p t lt. refl }) order
