-- ===== src/Application/Frame.antt =====
-- Calls of application/service.go that leave the disputes, their events and their ledgers alone,
-- however they end.
pub mod Calls
pub mod Reads
pub mod Yields
use thesis_dispute_engine.Prelude.{
  ℕ, ◌≡◌, refl, ap, sym, ◌∙◌, Bool, true, false, Option, none, some, List, [], ◌∷◌, String,
  if◌then◌else◌,
}
use thesis_dispute_engine.Result.{Result, ok, err}
use thesis_dispute_engine.Errs.{GoError}
use thesis_dispute_engine.Application.Store.{
  Db, Tx, pure, fail, lift, gets, modify, attempt, continue, ◌>>=◌,
}

module _ {N : Type 0} where
  pub record Aside (db db' : Db N) : Type 0 where
    pub disputes : db'.disputes ≡ db.disputes
    pub events : db'.events ≡ db.events
    pub ledger : db'.ledger ≡ db.ledger

  pub Aside-refl : (db : Db N) → Aside db db
  Aside-refl db = record { disputes = refl; events = refl; ledger = refl }

  pub Aside-trans : {db db1 db2 : Db N} → Aside db db1 → Aside db1 db2 → Aside db db2
  Aside-trans a b = record {
    disputes = b.disputes ∙ a.disputes;
    events = b.events ∙ a.events;
    ledger = b.ledger ∙ a.ledger;
  }

  pub record Keeps {A : Type 0} (call : Tx N A) : Type 0 where
    pub kept : (db : Db N) → Aside db (call db).1

  pub Keeps-returns :
      {A : Type 0} {call : Tx N A} {a : A} {db db' : Db N}
      → Keeps call
      → call db ≡ (ok a, db')
      → Aside db db'
  Keeps-returns {A} {call} {a} {db} {db'} k h = rw (← ap (λ x. x.1) h) (k.kept db)

  pub pure-Keeps : {A : Type 0} {a : A} → Keeps (pure a)
  pure-Keeps = record { kept = Aside-refl }

  pub fail-Keeps : {A : Type 0} {e : GoError} → Keeps {A = A} (fail e)
  fail-Keeps = record { kept = Aside-refl }

  pub lift-Keeps : {A : Type 0} {r : Result A} → Keeps (lift r)
  lift-Keeps = record { kept = Aside-refl }

  pub gets-Keeps : {A : Type 0} {f : Db N → A} → Keeps (gets f)
  gets-Keeps = record { kept = Aside-refl }

  pub attempt-Keeps : {A : Type 0} {call : Tx N A} → Keeps call → Keeps (attempt call)
  attempt-Keeps k = record { kept = λ db. k.kept db }

  pub modify-Keeps : {f : Db N → Db N} → ((db : Db N) → Aside db (f db)) → Keeps (modify f)
  modify-Keeps h = record { kept = h }

  continue-Aside :
      {A B : Type 0} (rest : A → Tx N B) (db : Db N) (x : Result A × Db N)
      → ((a : A) → Keeps (rest a))
      → Aside db x.1
      → Aside db (continue rest x).1
  continue-Aside rest db (ok a, db1) k h = Aside-trans h ((k a).kept db1)
  continue-Aside rest db (err e, db1) k h = h

  pub >>=-Keeps :
      {A B : Type 0} {call : Tx N A} {rest : A → Tx N B}
      → Keeps call
      → ((a : A) → Keeps (rest a))
      → Keeps (call >>= rest)
  >>=-Keeps {A} {B} {call} {rest} k l = record {
    kept = λ db. continue-Aside rest db (call db) l (k.kept db);
  }

  pub if-Keeps :
      {A : Type 0} {x y : Tx N A} (b : Bool) → Keeps x → Keeps y → Keeps (if b then x else y)
  if-Keeps true h k = h
  if-Keeps false h k = k
