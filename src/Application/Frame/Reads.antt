-- ===== src/Application/Frame/Reads.antt =====
-- Calls of application/service.go that only read.
use thesis_dispute_engine.Prelude.{◌≡◌, refl, sym, ap, ◌∙◌, Option, none, some, String, ℕ}
use thesis_dispute_engine.Prelude.Decimal.{Decimals}
use thesis_dispute_engine.Result.{Result, ok, err}
use thesis_dispute_engine.Errs.{GoError}
use thesis_dispute_engine.Application.Records.{
  DisputeRecord, DisputeFacts, NoticeRecord, AccountRecord,
}
use thesis_dispute_engine.Application.Store.{
  Db, Caller, Tx, pure, fail, lift, gets, attempt, continue, ◌>>=◌, get_dispute, get_transaction,
  list_events, >>=-returns, lift-returns, found,
}
use thesis_dispute_engine.Application.Rows.{
  list_deadlines, list_ledger, list_risk, get_questionnaire, or_not_found,
}
use thesis_dispute_engine.Application.Notices.{notice_facts}
use thesis_dispute_engine.Application.NoticeRows.{
  get_account, tenant_name, list_notices, get_notice, notice_with, notices_of,
}
use thesis_dispute_engine.Application.Reassign.{Policy, facts}
use thesis_dispute_engine.Application.Views.{known_facts, view_with}
use thesis_dispute_engine.Application.Resend.{authorize_dispute}
use mathlib.Core.Path.{subst}

module _ {N : Type 0} where
  pub record Reads {A : Type 0} (call : Tx N A) : Type 0 where
    pub same : (db : Db N) → (call db).1 ≡ db

  pure-Reads : {A : Type 0} {a : A} → Reads (pure a)
  pure-Reads = record { same = λ db. refl }

  fail-Reads : {A : Type 0} {e : GoError} → Reads {A = A} (fail e)
  fail-Reads = record { same = λ db. refl }

  lift-Reads : {A : Type 0} {r : Result A} → Reads (lift r)
  lift-Reads = record { same = λ db. refl }

  gets-Reads : {A : Type 0} {f : Db N → A} → Reads (gets f)
  gets-Reads = record { same = λ db. refl }

  attempt-Reads : {A : Type 0} {call : Tx N A} → Reads call → Reads (attempt call)
  attempt-Reads r = record { same = λ db. r.same db }

  continue-same :
      {A B : Type 0} (rest : A → Tx N B) (db : Db N) (x : Result A × Db N)
      → ((a : A) → Reads (rest a))
      → x.1 ≡ db
      → (continue rest x).1 ≡ db
  continue-same rest db (ok a, db1) r h = (r a).same db1 ∙ h
  continue-same rest db (err e, db1) r h = h

  >>=-Reads :
      {A B : Type 0} {call : Tx N A} {rest : A → Tx N B}
      → Reads call
      → ((a : A) → Reads (rest a))
      → Reads (call >>= rest)
  >>=-Reads {A} {B} {call} {rest} r s = record {
    same = λ db. continue-same rest db (call db) s (r.same db);
  }

  pub get_dispute-Reads : (c : Caller N) (id : String) → Reads (get_dispute c id)
  unfolding get_dispute
  get_dispute-Reads c id = record { same = λ db. refl }

  get_transaction-Reads : (c : Caller N) (id : String) → Reads (get_transaction c id)
  unfolding get_transaction
  get_transaction-Reads c id = record { same = λ db. refl }

  or_not_found-Reads : {A : Type 0} (o : Option A) → Reads (or_not_found {N = N} o)
  or_not_found-Reads none = fail-Reads
  or_not_found-Reads (some a) = pure-Reads

  ruleset reading = (
    pure-Reads, fail-Reads, lift-Reads, gets-Reads, >>=-Reads, attempt-Reads, get_dispute-Reads,
    get_transaction-Reads, or_not_found-Reads,
  )

  list_deadlines-Reads : (c : Caller N) (id : String) → Reads (list_deadlines c id)
  unfolding list_deadlines
  list_deadlines-Reads c id = search reading

  list_ledger-Reads : (c : Caller N) (id : String) → Reads (list_ledger c id)
  unfolding list_ledger
  list_ledger-Reads c id = search reading

  get_questionnaire-Reads : (c : Caller N) (id : String) → Reads (get_questionnaire c id)
  unfolding get_questionnaire
  get_questionnaire-Reads c id = search reading

  pub get_account-Reads : (id : String) → Reads (get_account {N = N} id)
  unfolding get_account
  get_account-Reads id = search reading

  tenant_name-Reads : (c : Caller N) → Reads (tenant_name c)
  unfolding tenant_name
  tenant_name-Reads c = gets-Reads

pub notice_facts-Reads :
    (dec : Decimals) (c : Caller dec.Num) (rec : DisputeRecord dec.Num) (now : ℕ)
    → Reads (notice_facts dec c rec now)
unfolding notice_facts
notice_facts-Reads dec c rec now =
    search
      (
        reading, list_deadlines-Reads, list_ledger-Reads, get_questionnaire-Reads,
        get_account-Reads, tenant_name-Reads,
      )
      depth 12

module _ (dec : Decimals) where
  open dec use {Num}

  facts-Reads : (c : Caller Num) (rec : DisputeRecord Num) → Reads (facts c rec)
  unfolding facts list_events
  facts-Reads c rec = search reading

  known_facts-Reads :
      (c : Caller Num) (rec : DisputeRecord Num) (o : Option (DisputeFacts Num))
      → Reads (known_facts dec c rec o)
  known_facts-Reads c rec none = facts-Reads c rec
  known_facts-Reads c rec (some f) = pure-Reads

  pub get_notice-Reads :
      (c : Caller Num) (dispute_id : String) (id : ℕ) → Reads (get_notice c dispute_id id)
  unfolding get_notice list_notices
  get_notice-Reads c dispute_id id = search reading

  pub view_with-Reads :
      (c : Caller Num) (policy : Policy Num) (now : ℕ) (rec : DisputeRecord Num)
      (known : Option (DisputeFacts Num))
      → Reads (view_with dec c policy now rec known)
  unfolding view_with list_events list_notices list_risk
  view_with-Reads c policy now rec known =
      search
        (
          reading, known_facts-Reads, list_deadlines-Reads, list_ledger-Reads,
          get_questionnaire-Reads,
        )
        depth 12

  pub authorize_dispute-Reads :
      (c : Caller Num) (policy : Policy Num) (action id : String)
      → Reads (authorize_dispute dec c policy action id)
  unfolding authorize_dispute
  authorize_dispute-Reads c policy action id = search (reading, facts-Reads)

-- A chain of calls that returned, begun by one that only reads.
pub Reads-returns :
    {N A B : Type 0} {call : Tx N A} (r : Reads call) (rest : A → Tx N B) {b : B} {db db' : Db N}
    → (call >>= rest) db ≡ (ok b, db')
    → (a : A) × (call db ≡ (ok a, db)) × (rest a db ≡ (ok b, db'))
Reads-returns {call = call} r rest {b} {db} {db'} h =
    let (a, db1, e, k) = >>=-returns call rest h in
    let same : db1 ≡ db = sym (ap (λ x. x.1) e) ∙ r.same db in
    (a, subst (λ d. call db ≡ (ok a, d)) same e, subst (λ d. rest a d ≡ (ok b, db')) same k)

or_not_found-returns :
    {N A : Type 0} (o : Option A) (a : A) (db db' : Db N)
    → or_not_found o db ≡ (ok a, db')
    → o ≡ some a
or_not_found-returns none a db db' h = absurd (cc)
or_not_found-returns (some x) a db db' h = cc

-- A notice that was read is one of the dispute's.
pub get_notice-returns :
    {N : Type 0} (c : Caller N) (dispute_id : String) (id : ℕ) (n : NoticeRecord) (db db' : Db N)
    → get_notice c dispute_id id db ≡ (ok n, db')
    → notice_with (notices_of db.notices dispute_id) id ≡ some n
unfolding get_notice list_notices get_dispute
get_notice-returns c dispute_id id n db db' h =
    let (ns, db1, read, h1) =
      >>=-returns (list_notices c dispute_id) (λ ns. or_not_found (notice_with ns id)) {db = db}
        h in
    let (r, e, k) =
      lift-returns (found c (db.disputes dispute_id))
        (λ _. gets (λ db. notices_of db.notices dispute_id)) {db = db} read in
    let same : ns ≡ notices_of db.notices dispute_id = cc in
    or_not_found-returns (notice_with (notices_of db.notices dispute_id) id) n db1 db'
      (subst (λ x. or_not_found (notice_with x id) db1 ≡ (ok n, db')) same h1)

pub get_account-returns :
    {N : Type 0} (id : String) (a : AccountRecord) (db db' : Db N)
    → get_account id db ≡ (ok a, db')
    → db.accounts id ≡ some a
unfolding get_account
get_account-returns id a db db' h = or_not_found-returns (db.accounts id) a db db' h
