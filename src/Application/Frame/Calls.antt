-- ===== src/Application/Frame/Calls.antt =====
-- The calls of application/service.go on clocks, questionnaires, notices and assessments, and the
-- view, leave disputes, events and ledgers alone.
use thesis_dispute_engine.Prelude.{
  ℕ, refl, Bool, true, false, not, Option, none, some, List, [], ◌∷◌, String, str_eq,
}
use thesis_dispute_engine.Prelude.Decimal.{Decimals}
use thesis_dispute_engine.Domain.Vocabulary.{State, Event, DeadlineKind, NoticeKind, Channel}
use thesis_dispute_engine.Domain.Lifecycle.{Dispute}
use thesis_dispute_engine.Domain.Deadline.{Deadline, Calendar, Settlement, settle, is_open}
use thesis_dispute_engine.Domain.QuestionSets.{Answers}
use thesis_dispute_engine.Application.Records.{
  DisputeRecord, Questionnaire, RiskRecord, TransactionRecord, NoticeRecord, DisputeFacts,
}
use thesis_dispute_engine.Application.Store.{Caller, get_dispute, get_transaction, list_events}
use thesis_dispute_engine.Application.Rows.{
  settle_deadline, list_deadlines, insert_deadlines, list_ledger, send_questionnaire,
  get_questionnaire, answer_questionnaire, insert_risk, list_risk, or_not_found, answer_once,
}
use thesis_dispute_engine.Application.Clocks.{settle_as, settle_each, settle_deadlines, inserted}
use thesis_dispute_engine.Application.Money.{EventFacts}
use thesis_dispute_engine.Application.Hold.{Texts, hold_check}
use thesis_dispute_engine.Application.Reassign.{Policy, facts}
use thesis_dispute_engine.Application.Notices.{
  NoticeFacts, Writer, recipient_of, is_acknowledgement, notice_facts, send_each, notify_each,
  notify_kinds, notify,
}
use thesis_dispute_engine.Application.NoticeRows.{
  get_account, tenant_name, insert_notice, with_notice, list_notices,
}
use thesis_dispute_engine.Application.Assess.{Times, account_history, assess, questionnaire}
use thesis_dispute_engine.Application.Views.{known_facts, view_with}
use thesis_dispute_engine.Application.Frame.{
  Aside-refl, Keeps, pure-Keeps, fail-Keeps, lift-Keeps, gets-Keeps, attempt-Keeps, modify-Keeps,
  >>=-Keeps, if-Keeps,
}

module _ {N : Type 0} where
  get_dispute-Keeps : (c : Caller N) (id : String) → Keeps (get_dispute c id)
  unfolding get_dispute
  get_dispute-Keeps c id = record { kept = Aside-refl }

  pub get_transaction-Keeps : (c : Caller N) (id : String) → Keeps (get_transaction c id)
  unfolding get_transaction
  get_transaction-Keeps c id = record { kept = Aside-refl }

  list_events-Keeps : (id : String) → Keeps (list_events {N = N} id)
  unfolding list_events
  list_events-Keeps id = gets-Keeps

  or_not_found-Keeps : {A : Type 0} (o : Option A) → Keeps (or_not_found {N = N} o)
  or_not_found-Keeps none = fail-Keeps
  or_not_found-Keeps (some a) = pure-Keeps

  ruleset steps = (
    pure-Keeps, fail-Keeps, lift-Keeps, gets-Keeps, >>=-Keeps, attempt-Keeps, if-Keeps,
    get_dispute-Keeps, get_transaction-Keeps, list_events-Keeps, or_not_found-Keeps,
  )

  list_deadlines-Keeps : (c : Caller N) (id : String) → Keeps (list_deadlines c id)
  unfolding list_deadlines
  list_deadlines-Keeps c id = search steps

  list_ledger-Keeps : (c : Caller N) (id : String) → Keeps (list_ledger c id)
  unfolding list_ledger
  list_ledger-Keeps c id = search steps

  list_risk-Keeps : (c : Caller N) (id : String) → Keeps (list_risk c id)
  unfolding list_risk
  list_risk-Keeps c id = search steps

  list_notices-Keeps : (c : Caller N) (id : String) → Keeps (list_notices c id)
  unfolding list_notices
  list_notices-Keeps c id = search steps

  get_questionnaire-Keeps : (c : Caller N) (id : String) → Keeps (get_questionnaire c id)
  unfolding get_questionnaire
  get_questionnaire-Keeps c id = search steps

  get_account-Keeps : (id : String) → Keeps (get_account {N = N} id)
  unfolding get_account
  get_account-Keeps id = search steps

  tenant_name-Keeps : (c : Caller N) → Keeps (tenant_name c)
  unfolding tenant_name
  tenant_name-Keeps c = gets-Keeps

  account_history-Keeps :
      (c : Caller N) (account exclude : String) (since : ℕ)
      → Keeps (account_history c account exclude since)
  unfolding account_history
  account_history-Keeps c account exclude since = gets-Keeps

  ruleset reads = (
    steps, list_deadlines-Keeps, list_ledger-Keeps, list_risk-Keeps, list_notices-Keeps,
    get_questionnaire-Keeps, get_account-Keeps, tenant_name-Keeps, account_history-Keeps,
  )

  insert_deadlines-Keeps :
      (c : Caller N) (id : String) (ds : List Deadline) → Keeps (insert_deadlines c id ds)
  unfolding insert_deadlines
  insert_deadlines-Keeps c id ds =
      >>=-Keeps (get_dispute-Keeps c id)
        (λ _. modify-Keeps (λ db. record { disputes = refl; events = refl; ledger = refl }))

  settle_deadline-Keeps :
      (c : Caller N) (id : String) (k : DeadlineKind) (cycle : ℕ) (met : Bool) (at : ℕ)
      → Keeps (settle_deadline c id k cycle met at)
  unfolding settle_deadline
  settle_deadline-Keeps c id k cycle met at =
      >>=-Keeps (get_dispute-Keeps c id)
        (λ _. modify-Keeps (λ db. record { disputes = refl; events = refl; ledger = refl }))

  insert_risk-Keeps : (c : Caller N) (id : String) (r : RiskRecord) → Keeps (insert_risk c id r)
  unfolding insert_risk
  insert_risk-Keeps c id r =
      >>=-Keeps (get_dispute-Keeps c id)
        (λ _. modify-Keeps (λ db. record { disputes = refl; events = refl; ledger = refl }))

  send_questionnaire-Keeps :
      (c : Caller N) (id : String) (q : Questionnaire) → Keeps (send_questionnaire c id q)
  unfolding send_questionnaire
  send_questionnaire-Keeps c id q =
      >>=-Keeps (get_dispute-Keeps c id)
        (λ _. modify-Keeps (λ db. record { disputes = refl; events = refl; ledger = refl }))

  answer_once-Keeps :
      (id : String) (m : Answers) (at : ℕ) (q : Questionnaire) (o : Option ℕ)
      → Keeps (answer_once {N = N} id m at q o)
  answer_once-Keeps id m at q none =
      modify-Keeps (λ db. record { disputes = refl; events = refl; ledger = refl })
  answer_once-Keeps id m at q (some _) = fail-Keeps

  answer_questionnaire-Keeps :
      (c : Caller N) (id : String) (m : Answers) (at : ℕ) → Keeps (answer_questionnaire c id m at)
  unfolding answer_questionnaire
  answer_questionnaire-Keeps c id m at = search (reads, answer_once-Keeps)

  insert_notice-Keeps : (c : Caller N) (n : NoticeRecord) → Keeps (insert_notice c n)
  unfolding insert_notice
  insert_notice-Keeps c n = >>=-Keeps (get_dispute-Keeps c n.dispute_id) (λ _.
      >>=-Keeps
        (modify-Keeps {f = with_notice c n}
          (λ db. record { disputes = refl; events = refl; ledger = refl }))
        (λ _. gets-Keeps {f = λ db. db.next_notice}))

  settle_as-Keeps :
      (c : Caller N) (id : String) (d : Deadline) (s : Settlement) (now : ℕ)
      → Keeps (settle_as c id d s now)
  settle_as-Keeps c id d Settlement.met now = settle_deadline-Keeps c id d.kind d.cycle true now
  settle_as-Keeps c id d Settlement.void now = settle_deadline-Keeps c id d.kind d.cycle false now
  settle_as-Keeps c id d Settlement.untouched now = pure-Keeps

  settle_each-Keeps :
      (c : Caller N) (id : String) (entered : State) (now : ℕ) (ds : List Deadline)
      → Keeps (settle_each c id entered now ds)
  unfolding settle_each
  settle_each-Keeps c id entered now [] = pure-Keeps
  settle_each-Keeps c id entered now (d ∷ ds) =
      >>=-Keeps
        (if-Keeps (not (is_open d)) pure-Keeps (settle_as-Keeps c id d (settle d.kind entered) now))
        (λ _. settle_each-Keeps c id entered now ds)

  pub inserted-Keeps :
      (c : Caller N) (id : String) (o : Option (List Deadline)) → Keeps (inserted c id o)
  inserted-Keeps c id none = fail-Keeps
  inserted-Keeps c id (some ds) = insert_deadlines-Keeps c id ds

  pub settle_deadlines-Keeps :
      (c : Caller N) (cal : Calendar) (rec : DisputeRecord N) (next : Dispute) (now : ℕ)
      → Keeps (settle_deadlines c cal rec next now)
  unfolding settle_deadlines
  settle_deadlines-Keeps c cal rec next now = search (reads, settle_each-Keeps, inserted-Keeps)

  pub facts-Keeps : (c : Caller N) (rec : DisputeRecord N) → Keeps (facts c rec)
  unfolding facts
  facts-Keeps c rec = search reads

  pub hold_check-Keeps :
      (c : Caller N) (texts : Texts) (rec : DisputeRecord N) (payload : String)
      → Keeps (hold_check c texts rec payload)
  unfolding hold_check
  hold_check-Keeps c texts rec payload = search reads

module _ (dec : Decimals) where
  open dec use {Num}

  send_each-Keeps :
      (c : Caller Num) (rec : DisputeRecord Num) (seq now : ℕ) (f : NoticeFacts Num)
      (kind : NoticeKind) (subject body : String) (chs : List Channel)
      → Keeps (send_each dec c rec seq now f kind subject body chs)
  unfolding send_each
  send_each-Keeps c rec seq now f kind subject body [] = pure-Keeps
  send_each-Keeps c rec seq now f kind subject body (ch ∷ chs) =
      >>=-Keeps
        (if-Keeps (str_eq (recipient_of ch f) "") pure-Keeps (search (steps, insert_notice-Keeps)))
        (λ _. send_each-Keeps c rec seq now f kind subject body chs)

  notify_each-Keeps :
      (c : Caller Num) (w : Writer Num) (rec : DisputeRecord Num) (seq now : ℕ)
      (f : NoticeFacts Num) (channels : NoticeKind → List Channel) (kinds : List NoticeKind)
      → Keeps (notify_each dec c w rec seq now f channels kinds)
  unfolding notify_each
  notify_each-Keeps c w rec seq now f channels [] = pure-Keeps
  notify_each-Keeps c w rec seq now f channels (kind ∷ kinds) =
      >>=-Keeps
        (>>=-Keeps lift-Keeps (λ body.
          >>=-Keeps
            (send_each-Keeps c rec seq now f kind (w.compose kind f.facts).subject body
              (channels kind))
            (λ _.
              if-Keeps (is_acknowledgement kind)
                (settle_deadline-Keeps c rec.id DeadlineKind.acknowledge 0 true now) pure-Keeps)))
        (λ _. notify_each-Keeps c w rec seq now f channels kinds)

  notice_facts-Keeps :
      (c : Caller Num) (rec : DisputeRecord Num) (now : ℕ) → Keeps (notice_facts dec c rec now)
  unfolding notice_facts
  notice_facts-Keeps c rec now = search reads depth 12

  notify_kinds-Keeps :
      (c : Caller Num) (w : Writer Num) (rec : DisputeRecord Num) (seq now : ℕ)
      (channels : NoticeKind → List Channel) (kinds : List NoticeKind)
      → Keeps (notify_kinds dec c w rec seq now channels kinds)
  notify_kinds-Keeps c w rec seq now channels [] = pure-Keeps
  notify_kinds-Keeps c w rec seq now channels (k ∷ ks) =
      search (steps, notice_facts-Keeps, notify_each-Keeps)

  pub notify-Keeps :
      (c : Caller Num) (w : Writer Num) (rec : DisputeRecord Num) (entered : State) (seq now : ℕ)
      → Keeps (notify dec c w rec entered seq now)
  unfolding notify
  notify-Keeps c w rec entered seq now = search (steps, notify_kinds-Keeps)

  pub assess-Keeps :
      (c : Caller Num) (times : Times) (rec : DisputeRecord Num) (txn : TransactionRecord Num)
      (seq now : ℕ)
      → Keeps (assess dec c times rec txn seq now)
  unfolding assess
  assess-Keeps c times rec txn seq now = search (reads, insert_risk-Keeps)

  pub questionnaire-Keeps :
      (c : Caller Num) (unmarshal : String → Option EventFacts) (rec : DisputeRecord Num)
      (event : Event) (payload : String) (now : ℕ)
      → Keeps (questionnaire dec c unmarshal rec event payload now)
  unfolding questionnaire
  questionnaire-Keeps c unmarshal rec Event.send_questionnaire payload now =
      send_questionnaire-Keeps c rec.id _
  questionnaire-Keeps c unmarshal rec Event.receive_questionnaire payload now =
      search (reads, answer_questionnaire-Keeps)
  questionnaire-Keeps c unmarshal rec event payload now = search steps

  known_facts-Keeps :
      (c : Caller Num) (rec : DisputeRecord Num) (o : Option (DisputeFacts Num))
      → Keeps (known_facts dec c rec o)
  known_facts-Keeps c rec none = facts-Keeps c rec
  known_facts-Keeps c rec (some f) = pure-Keeps

  pub view_with-Keeps :
      (c : Caller Num) (policy : Policy Num) (now : ℕ) (rec : DisputeRecord Num)
      (known : Option (DisputeFacts Num))
      → Keeps (view_with dec c policy now rec known)
  unfolding view_with
  view_with-Keeps c policy now rec known = search (reads, known_facts-Keeps) depth 12
