-- ===== src/Errs/Laws.antt =====
-- What classification keeps when an error is wrapped or given detail (platform/errs/errs.go).
use thesis_dispute_engine.Prelude.{String, ◌≡◌, refl, ◌↔◌, true, ◌⊎◌, List, arith, eq_iff}
use thesis_dispute_engine.Errs.{
  Error, FieldError, GoError, classified, unavailable, rate_limited, conflict, wrap, with_fields,
  with_detail, error_is, is, kind_of, code_of, retryable,
}

-- An error made of the first by context, fields and detail, any number of times in any order.
pub data Dressed (e : Error) : GoError → Type 0 where
  as_is : Dressed e (classified e)
  in_context : (err : GoError) (context : String) → Dressed e err → Dressed e (wrap err context)
  with_more :
      (x : Error) (fields : List FieldError)
      → Dressed e (classified x)
      → Dressed e (classified (with_fields x fields))
  in_detail :
      (x : Error) (detail : String)
      → Dressed e (classified x)
      → Dressed e (classified (with_detail x detail))

-- However often context, fields and detail are added to a classified error, it keeps its kind, its
-- code and whether it may be retried, and it matches just the sentinels that it matched before.
pub classification_kept :
    (e : Error) (err : GoError)
    → Dressed e err
    → (kind_of err ≡ e.kind)
      × (code_of err ≡ e.code)
      × (retryable err ≡ retryable (classified e))
      × ((sentinel : Error) → is err sentinel ≡ error_is e sentinel)
unfolding is kind_of code_of retryable
classification_kept e err as_is = (refl, refl, refl, λ s. refl)
classification_kept e err (in_context x context d) = classification_kept e x d
classification_kept e err (with_more x fields d) = classification_kept e (classified x) d
classification_kept e err (in_detail x detail d) = classification_kept e (classified x) d

-- A request may be retried exactly when a dependency is unavailable, the caller is rate limited, or
-- the dispute changed under it.
pub retryable_iff :
    (err : GoError)
    → (retryable err ≡ true) ↔ (
        (kind_of err ≡ unavailable)
        ⊎ (kind_of err ≡ rate_limited)
        ⊎ ((kind_of err ≡ conflict) × (code_of err ≡ "concurrent-update")))
unfolding retryable
retryable_iff err = ground (arith, eq_iff (code_of err) "concurrent-update")
