-- ===== src/Application/Views.antt =====
-- The view of a dispute (view, viewWith and deadlineView of application/service.go, permitted of
-- application/authorize.go, ListAttachmentMeta of apptest/memstore.go). Attachments of one instant are
-- listed in the order in which they are kept, which Go leaves open.
pub mod Laws
use thesis_dispute_engine.Prelude.{
  ℕ, ◌/◌, String, Bool, true, false, ◌&&◌, ◌||◌, Option, none, some, List, [], ◌∷◌, map, str_eq,
  ltb, ◌==◌, if◌then◌else◌,
}
use thesis_dispute_engine.Prelude.Decimal.{Decimals}
use thesis_dispute_engine.Result.{Result, ok, err}
use thesis_dispute_engine.Errs.{is}
use thesis_dispute_engine.Domain.Vocabulary.{
  Regime, State, Event, Reason, RiskTier, NoticeKind, Channel, DeadlineKind, PostingKind, Account,
}
use thesis_dispute_engine.Domain.Lifecycle.{allowed}
use thesis_dispute_engine.Domain.Deadline.{Deadline, DeadlineStatus, status}
use thesis_dispute_engine.Domain.Risk.{Signal}
use thesis_dispute_engine.Domain.Questionnaire.{inconsistencies}
use thesis_dispute_engine.Domain.QuestionSets.{Question, Answers}
use thesis_dispute_engine.Application.Records.{
  DisputeRecord, EventRecord, LedgerEntry, CoreReceipt, NoticeRecord, Attachment, RiskRecord,
  Questionnaire, DisputeFacts, Decision, lifecycle, err_not_found, event_action,
}
use thesis_dispute_engine.Application.Store.{
  Db, Caller, Tx, pure, lift, gets, attempt, ◌>>=◌, list_events,
}
use thesis_dispute_engine.Application.Rows.{
  list_deadlines, list_ledger, list_risk, get_questionnaire,
}
use thesis_dispute_engine.Application.Money.{postings_of}
use thesis_dispute_engine.Application.Balances.{Balances, totals}
use thesis_dispute_engine.Application.Hold.{latest}
use thesis_dispute_engine.Application.NoticeRows.{list_notices}
use thesis_dispute_engine.Application.Assess.{or_none}
use thesis_dispute_engine.Application.Reassign.{Policy, facts}
use thesis_dispute_engine.Application.ViewRecords.{
  EventView, DeadlineView, CoreReceiptView, LedgerView, AttachmentView, NoticeView, RiskHistoryView,
  RiskView, QuestionnaireView, DisputeView,
}

abbrev pub event_view : EventRecord → EventView
event_view e = record {
  seq = e.seq;
  event = e.event;
  from_state = e.from_state;
  to_state = e.to_state;
  actor = e.actor;
  payload = e.payload;
  trace_id = e.trace_id;
  occurred_at = e.occurred_at;
}

abbrev pub deadline_view : ℕ → Deadline → DeadlineView
deadline_view now d = record {
  kind = d.kind;
  cycle = d.cycle;
  started_at = d.started_at;
  due_at = d.due_at;
  met_at = d.met_at;
  status = status d now;
  basis = d.basis;
}

abbrev receipt_view : Option CoreReceipt → Option CoreReceiptView
receipt_view none = none
receipt_view (some r) =
    some
      (record { rrn = r.rrn; response_code = r.response_code; latency_ms = r.latency / 1_000_000 })

abbrev pub ledger_view : {N : Type 0} → LedgerEntry N → LedgerView N
ledger_view e = record {
  seq = e.seq;
  kind = e.posting.kind;
  debit = e.posting.debit;
  credit = e.posting.credit;
  amount = e.posting.amount;
  currency = e.posting.currency;
  reference = e.reference;
  posted_at = e.posted_at;
  core = receipt_view e.core;
}

abbrev history_view : RiskRecord → RiskHistoryView
history_view r = record {
  seq = r.seq;
  score = r.assessment.score;
  tier = r.assessment.tier;
  assessed_at = r.assessed_at;
}

-- risk[:len(risk)-1]
abbrev all_but_last : List RiskRecord → List RiskRecord
all_but_last [] = []
all_but_last (r ∷ []) = []
all_but_last (r ∷ s ∷ rs) = r ∷ all_but_last (s ∷ rs)

abbrev pub risk_view : List RiskRecord → Option RiskRecord → Option RiskView
risk_view rs none = none
risk_view rs (some r) = some (record {
  score = r.assessment.score;
  tier = r.assessment.tier;
  signals = r.assessment.signals;
  assessed_at = r.assessed_at;
  history = map history_view (all_but_last rs);
})

abbrev pub questionnaire_view : Result Questionnaire → Result (Option QuestionnaireView)
questionnaire_view (ok q) = ok (
    some (record {
      reason = q.reason;
      questions = q.questions;
      answers = q.answers;
      inconsistencies = inconsistencies q.reason (or_none q.answers);
      sent_at = q.sent_at;
      received_at = q.received_at;
    }))
questionnaire_view (err e) = if is e err_not_found then ok none else err e

-- The draft, or a file of one of the notices.
abbrev listed : Option ℕ → List NoticeRecord → Bool
listed none ns = true
listed (some id) [] = false
listed (some id) (n ∷ ns) = n.id == id || listed (some id) ns

abbrev pub insert_by_upload : Attachment → List Attachment → List Attachment
insert_by_upload a [] = a ∷ []
insert_by_upload a (b ∷ bs) =
    let rest = insert_by_upload a bs in
    if ltb b.uploaded_at a.uploaded_at then b ∷ rest else a ∷ b ∷ bs

-- The filter, and the sort, of ListAttachmentMeta.
unfoldable pub attachment_meta : String → List NoticeRecord → List Attachment → List Attachment
attachment_meta id ns [] = []
attachment_meta id ns (a ∷ more) =
    let rest = attachment_meta id ns more in
    if str_eq a.dispute_id id && listed a.notice_id ns
    then insert_by_upload (record a { content = "" }) rest
    else rest

abbrev pub is_notice : ℕ → Option ℕ → Bool
is_notice id none = false
is_notice id (some n) = n == id

-- byNotice[id]
abbrev files_of : ℕ → List Attachment → List AttachmentView
files_of id [] = []
files_of id (a ∷ more) =
    let rest = files_of id more in
    if is_notice id a.notice_id
    then record { id = a.id; filename = a.filename; content_type = a.content_type; size = a.size }
      ∷ rest
    else rest

-- A resend shows the files of the notice that it repeats.
abbrev pub source_of : NoticeRecord → Option ℕ → ℕ
source_of n none = n.id
source_of n (some id) = id

abbrev pub notice_view : List Attachment → NoticeRecord → NoticeView
notice_view files n = record {
  id = n.id;
  seq = n.seq;
  kind = n.kind;
  channel = n.channel;
  recipient = n.recipient;
  subject = n.subject;
  created_at = n.created_at;
  sent_at = n.sent_at;
  error = n.last_error;
  actor = n.actor;
  resend_of = n.resend_of;
  attachments = files_of (source_of n n.resend_of) files;
}

abbrev pub is_allowed : Result Decision → Bool
is_allowed (ok d) = d.allowed
is_allowed (err e) = false

module _ (dec : Decimals) where
  open dec use {Num}

  -- The loop of `permitted`.
  unfoldable pub permitted_from :
      Caller Num → Policy Num → DisputeFacts Num → List Event → List Event
  permitted_from c policy f [] = []
  permitted_from c policy f (e ∷ es) =
      let rest = permitted_from c policy f es in
      if is_allowed (policy.decide c.tenant c.principal c.access (event_action e) f)
      then e ∷ rest
      else rest

  abbrev pub known_facts :
      Caller Num → DisputeRecord Num → Option (DisputeFacts Num) → Tx Num (DisputeFacts Num)
  known_facts c rec none = facts c rec
  known_facts c rec (some f) = pure f

  -- What `viewWith` returns of what it read.
  abbrev pub dispute_view :
      Caller Num
      → Policy Num
      → ℕ
      → DisputeRecord Num
      → DisputeFacts Num
      → List EventRecord
      → List Deadline
      → List (LedgerEntry Num)
      → List NoticeRecord
      → List Attachment
      → List RiskRecord
      → Option QuestionnaireView
      → DisputeView Num
  dispute_view c policy now rec f events deadlines ledger notices files risk asked = record {
    id = rec.id;
    regime = rec.regime;
    reason = rec.reason;
    state = rec.state;
    appeals = rec.appeals;
    version = rec.version;
    transaction_id = rec.transaction_id;
    account_id = rec.account_id;
    disputed_amount = rec.disputed_amount;
    currency = rec.currency;
    opened_at = rec.opened_at;
    updated_at = rec.updated_at;
    allowed_events = permitted_from c policy f (allowed (lifecycle rec));
    events = map event_view events;
    deadlines = map (deadline_view now) deadlines;
    ledger = map ledger_view ledger;
    balances = totals dec (postings_of ledger);
    questionnaire = asked;
    notices = map (notice_view files) notices;
    risk = risk_view risk (latest risk);
  }

  unfoldable pub view_with :
      Caller Num
      → Policy Num
      → ℕ
      → DisputeRecord Num
      → Option (DisputeFacts Num)
      → Tx Num (DisputeView Num)
  unfolding permitted_from attachment_meta
  view_with c policy now rec known = do
    events ← list_events rec.id
    f ← known_facts c rec known
    deadlines ← list_deadlines c rec.id
    ledger ← list_ledger c rec.id
    notices ← list_notices c rec.id
    files ← gets (λ db. attachment_meta rec.id notices db.attachments)
    risk ← list_risk c rec.id
    q ← attempt (get_questionnaire c rec.id)
    asked ← lift (questionnaire_view q)
    pure (dispute_view c policy now rec f events deadlines ledger notices files risk asked)
