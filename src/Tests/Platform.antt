-- ===== src/Tests/Platform.antt =====
-- Runs of the failure limiter (platform/auth/failures.go).
use thesis_dispute_engine.Prelude.{◌≡◌, refl, true, [], ◌∷◌, List, arith, ℕ}
use thesis_dispute_engine.Platform.Failures.{
  new_failure_limiter, Request, served, refused, serve, middleware, blocked, sweep, recent,
  drop_before, record_hit,
}
use thesis_dispute_engine.Platform.Failures.Reference.{
  serve_by_log, new_failure_limiter-serve_by_log,
}

abbrev guess : ℕ → Request
guess at = record { at = at; peer = "10.0.0.1"; authorization = true; presented = true }

abbrev guesses : List Request
guesses = guess 5 ∷ guess 6 ∷ guess 7 ∷ guess 70_000_000_000 ∷ []

guesses_run : serve (new_failure_limiter 2 0) guesses ≡ served ∷ served ∷ refused ∷ served ∷ []
unfolding serve middleware blocked sweep recent drop_before record_hit
guesses_run = refl

new_failure_limiter-serve_by_log_example :
    serve (new_failure_limiter 2 0) guesses ≡ serve_by_log 2 [] guesses
new_failure_limiter-serve_by_log_example =
    new_failure_limiter-serve_by_log 2 0 guesses
      (omega arith, (omega arith, (omega arith, (omega arith, tt))))
