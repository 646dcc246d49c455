-- ===== src/Application/Frame/Yields.antt =====
-- Calls of application/service.go, and what whatever they return is.
use thesis_dispute_engine.Prelude.{◌≡◌, ap}
use mathlib.Core.Path.{subst}
use thesis_dispute_engine.Result.{Result, ok, ok-injective}
use thesis_dispute_engine.Application.Store.{Db, Tx, pure, ◌>>=◌, >>=-returns}

-- Whatever the call returns is `P`.
pub record Yields {N A : Type 0} (P : A → Type 0) (call : Tx N A) : Type 0 where
  pub holds : (a : A) (db db' : Db N) → call db ≡ (ok a, db') → P a

pub pure-Yields : {N A : Type 0} {P : A → Type 0} {a : A} → P a → Yields {N = N} P (pure a)
pure-Yields {N} {A} {P} p = record {
  holds = λ b db db' h. subst P (ok-injective (ap (λ (x : Result A × Db N). x.0) h)) p;
}

pub >>=-Yields :
    {N A B : Type 0} {P : B → Type 0} (call : Tx N A) {rest : A → Tx N B}
    → ((a : A) → Yields P (rest a))
    → Yields P (call >>= rest)
>>=-Yields {N} {A} {B} {P} call {rest} y = record {
  holds = λ b db db' h. let (a, db1, ran, k) = >>=-returns call rest h in (y a).holds b db1 db' k;
}

pub Yields-returns :
    {N A : Type 0} {P : A → Type 0} {call : Tx N A} {db db' : Db N} {a : A}
    → Yields P call
    → call db ≡ (ok a, db')
    → P a
Yields-returns {N} {A} {P} {call} {db} {db'} {a} y h = y.holds a db db' h
