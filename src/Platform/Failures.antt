-- ===== src/Platform/Failures.antt =====
-- platform/auth/failures.go: the limiter of failed authentications, per peer and minute. The clock of a
-- request is read once; a peer is the text of its address. A peer that is not in the map has no hits.
pub mod Reference
use thesis_dispute_engine.Prelude.{
  ℕ, ◌-◌, String, Bool, true, false, not, ◌&&◌, List, [], ◌∷◌, ◌++◌, length, ltb, leb, str_eq,
  if◌then◌else◌,
}
use thesis_dispute_engine.Errs.{Error, rate_limited, new}

abbrev pub err_too_many_failures : Error
err_too_many_failures =
    new rate_limited "rate-limited" "too many failed authentication attempts from this address"

-- time.Minute, in nanoseconds
abbrev pub minute : ℕ
minute = 60_000_000_000

pub record FailureLimiter : Type 0 where
  pub per_minute : ℕ
  pub hits : String → List ℕ
  pub last_sweep : ℕ

abbrev pub new_failure_limiter : ℕ → ℕ → FailureLimiter
new_failure_limiter per_minute now = record {
  per_minute = per_minute;
  hits = λ _. [];
  last_sweep = now;
}

-- The loop of recentLocked: the hits before the cutoff are passed over.
unfoldable pub drop_before : ℕ → List ℕ → List ℕ
drop_before cutoff [] = []
drop_before cutoff (t ∷ ts) =
    let rest = drop_before cutoff ts in if ltb t cutoff then rest else t ∷ ts

unfoldable pub recent : FailureLimiter → String → ℕ → List ℕ
unfolding drop_before
recent f peer now = drop_before (now - minute) (f.hits peer)

abbrev pub kept : List ℕ → List ℕ → List ℕ
kept [] hits = []
kept (t ∷ ts) hits = hits

-- sweepLocked
unfoldable pub sweep : FailureLimiter → ℕ → FailureLimiter
unfolding recent
sweep f now =
    if ltb (now - f.last_sweep) minute
    then f
    else record f { last_sweep = now; hits = λ peer. kept (recent f peer now) (f.hits peer) }

-- The body of `record`.
unfoldable pub record_hit : FailureLimiter → String → ℕ → FailureLimiter
unfolding recent
record_hit f peer now = record f {
  hits = λ p. if str_eq p peer then recent f peer now ++ now ∷ [] else f.hits p;
}

-- `blocked`, on the limiter that the sweep leaves.
unfoldable pub blocked : FailureLimiter → String → ℕ → Bool
unfolding recent
blocked f peer now = leb f.per_minute (length (recent f peer now))

-- A request: when it comes, from where, whether it bears a credential, and whether that is invalid.
pub record Request : Type 0 where
  pub at : ℕ
  pub peer : String
  pub authorization : Bool
  pub presented : Bool

-- What the middleware does with it.
pub data Verdict : Type 0 where
  served refused : Verdict

abbrev pub decide : FailureLimiter → Request → Bool → Verdict × FailureLimiter
decide f r true = (refused, f)
decide f r false = (served, if r.presented then record_hit f r.peer r.at else f)

unfoldable pub middleware : FailureLimiter → Request → Verdict × FailureLimiter
unfolding blocked sweep record_hit
middleware f r =
    if leb f.per_minute 0
    then (served, f)
    else if not r.authorization
    then (served, f)
    else decide (sweep f r.at) r (blocked (sweep f r.at) r.peer r.at)

unfoldable pub serve : FailureLimiter → List Request → List Verdict
unfolding middleware
serve f [] = []
serve f (r ∷ rs) = let (v, f') = middleware f r in v ∷ serve f' rs
