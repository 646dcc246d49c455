-- ===== src/Application/Rows.antt =====
-- The rows of a dispute in a transaction (application/ports.go, apptest/memstore.go): clocks, ledger,
-- questionnaire, assessments and stored responses.
use thesis_dispute_engine.Prelude.{
  ℕ, String, Bool, true, false, ◌&&◌, ◌||◌, Option, none, some, List, [], ◌∷◌, ◌++◌, str_eq, ◌==◌,
  if◌then◌else◌,
}
use thesis_dispute_engine.Result.{ok, err}
use thesis_dispute_engine.Errs.{classified}
use thesis_dispute_engine.Domain.Vocabulary.{DeadlineKind}
use thesis_dispute_engine.Domain.Deadline.{Deadline, is_open}
use thesis_dispute_engine.Domain.QuestionSets.{Answers}
use thesis_dispute_engine.Application.Records.{
  RiskRecord, StoredResponse, Questionnaire, LedgerEntry, err_not_found, err_conflict,
}
use thesis_dispute_engine.Application.Store.{
  Db, put, Caller, Tx, pure, fail, gets, modify, ◌>>=◌, ◌>>◌, get_dispute,
}

abbrev pub deadline_kind_eq : DeadlineKind → DeadlineKind → Bool
deadline_kind_eq DeadlineKind.refund DeadlineKind.refund = true
deadline_kind_eq DeadlineKind.acknowledge DeadlineKind.acknowledge = true
deadline_kind_eq DeadlineKind.resolution DeadlineKind.resolution = true
deadline_kind_eq _ _ = false

-- The body of the loop of SettleDeadline, on one clock.
unfoldable pub settle_clock : DeadlineKind → ℕ → Bool → ℕ → Deadline → Deadline
settle_clock kind cycle met at d =
    if deadline_kind_eq d.kind kind && d.cycle == cycle && is_open d
    then record {
      kind = d.kind;
      cycle = d.cycle;
      started_at = d.started_at;
      due_at = d.due_at;
      met_at = if met then some at else d.met_at;
      voided_at = if met then d.voided_at else some at;
      basis = d.basis;
    }
    else d

unfoldable pub settle_clocks : DeadlineKind → ℕ → Bool → ℕ → List Deadline → List Deadline
unfolding settle_clock
settle_clocks kind cycle met at [] = []
settle_clocks kind cycle met at (d ∷ ds) =
    settle_clock kind cycle met at d ∷ settle_clocks kind cycle met at ds

module _ {N : Type 0} where
  abbrev pub set_deadlines : (String → List Deadline) → Db N → Db N
  set_deadlines m db = record db { deadlines = m }

  abbrev pub set_ledger : (String → List (LedgerEntry N)) → Db N → Db N
  set_ledger m db = record db { ledger = m }

  abbrev set_questions : (String → Option Questionnaire) → Db N → Db N
  set_questions m db = record db { questions = m }

  abbrev set_risk : (String → List RiskRecord) → Db N → Db N
  set_risk m db = record db { risk = m }

  abbrev set_idempotent : (String → String → String → Option StoredResponse) → Db N → Db N
  set_idempotent m db = record db { idempotent = m }

  unfoldable pub insert_deadlines : Caller N → String → List Deadline → Tx N (Unit {0})
  insert_deadlines c id ds = do
    get_dispute c id
    modify (λ db. set_deadlines (put id (db.deadlines id ++ ds) db.deadlines) db)

  unfoldable pub list_deadlines : Caller N → String → Tx N (List Deadline)
  list_deadlines c id = do get_dispute c id; gets (λ db. db.deadlines id)

  unfoldable pub settle_deadline : Caller N → String → DeadlineKind → ℕ → Bool → ℕ → Tx N (Unit {0})
  unfolding settle_clocks
  settle_deadline c id kind cycle met at = do
    get_dispute c id
    modify (λ db.
        set_deadlines (put id (settle_clocks kind cycle met at (db.deadlines id)) db.deadlines) db)

  abbrev pub has_reference : List (LedgerEntry N) → String → Bool
  has_reference [] reference = false
  has_reference (e ∷ es) reference = str_eq e.reference reference || has_reference es reference

  abbrev pub append_entry : String → LedgerEntry N → Tx N (Unit {0})
  append_entry id e db =
      if has_reference (db.ledger id) e.reference
      then (err (classified err_conflict), db)
      else (ok tt, set_ledger (put id (db.ledger id ++ e ∷ []) db.ledger) db)

  -- The loop of AppendLedger.
  unfoldable pub append_entries : String → List (LedgerEntry N) → Tx N (Unit {0})
  append_entries id [] = pure tt
  append_entries id (e ∷ es) = append_entry id e >> append_entries id es

  unfoldable pub append_ledger : Caller N → String → List (LedgerEntry N) → Tx N (Unit {0})
  unfolding append_entries
  append_ledger c id es = get_dispute c id >> append_entries id es

  unfoldable pub list_ledger : Caller N → String → Tx N (List (LedgerEntry N))
  list_ledger c id = do get_dispute c id; gets (λ db. db.ledger id)

  unfoldable pub send_questionnaire : Caller N → String → Questionnaire → Tx N (Unit {0})
  send_questionnaire c id q = do
    get_dispute c id
    modify (λ db.
        set_questions
          (put id
            (some (record {
              reason = q.reason;
              questions = q.questions;
              answers = none;
              sent_at = q.sent_at;
              received_at = none;
            }))
            db.questions)
          db)

  abbrev pub or_not_found : {A : Type 0} → Option A → Tx N A
  or_not_found none = fail (classified err_not_found)
  or_not_found (some a) = pure a

  unfoldable pub get_questionnaire : Caller N → String → Tx N Questionnaire
  get_questionnaire c id = do get_dispute c id; q ← gets (λ db. db.questions id); or_not_found q

  abbrev pub answer_once : String → Answers → ℕ → Questionnaire → Option ℕ → Tx N (Unit {0})
  answer_once id answers at q (some _) = fail (classified err_not_found)
  answer_once id answers at q none = modify (λ db.
      set_questions
        (put id
          (some (record {
            reason = q.reason;
            questions = q.questions;
            answers = some answers;
            sent_at = q.sent_at;
            received_at = some at;
          }))
          db.questions)
        db)

  unfoldable pub answer_questionnaire : Caller N → String → Answers → ℕ → Tx N (Unit {0})
  unfolding get_questionnaire
  answer_questionnaire c id answers at = do
    q ← get_questionnaire c id
    answer_once id answers at q q.received_at

  unfoldable pub insert_risk : Caller N → String → RiskRecord → Tx N (Unit {0})
  insert_risk c id r = do
    get_dispute c id
    modify (λ db. set_risk (put id (db.risk id ++ r ∷ []) db.risk) db)

  unfoldable pub list_risk : Caller N → String → Tx N (List RiskRecord)
  list_risk c id = do get_dispute c id; gets (λ db. db.risk id)

  -- The key of a stored response joins the tenant, the scope and the key: here three arguments.
  unfoldable pub get_idempotent : Caller N → String → String → Tx N StoredResponse
  get_idempotent c scope key = do r ← gets (λ db. db.idempotent c.tenant scope key); or_not_found r

  unfoldable pub put_idempotent : Caller N → String → String → StoredResponse → Tx N (Unit {0})
  put_idempotent c scope key r = modify (λ db.
      let mine = db.idempotent c.tenant in
      set_idempotent (put c.tenant (put scope (put key (some r) (mine scope)) mine) db.idempotent)
        db)
