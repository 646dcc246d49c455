-- ===== src/Application/ViewRecords.antt =====
-- The views that the use cases answer with (application/service.go).
use thesis_dispute_engine.Prelude.{ℕ, String, Option, List}
use thesis_dispute_engine.Domain.Vocabulary.{
  Regime, State, Event, Reason, RiskTier, NoticeKind, Channel, DeadlineKind, PostingKind, Account,
}
use thesis_dispute_engine.Domain.Deadline.{DeadlineStatus}
use thesis_dispute_engine.Domain.Risk.{Signal}
use thesis_dispute_engine.Domain.QuestionSets.{Question, Answers}
use thesis_dispute_engine.Application.Balances.{Balances}

pub record EventView : Type 0 where
  pub seq : ℕ
  pub event : Event
  pub from_state : State
  pub to_state : State
  pub actor : String
  pub payload : String
  pub trace_id : Option String
  pub occurred_at : ℕ

pub record DeadlineView : Type 0 where
  pub kind : DeadlineKind
  pub cycle : ℕ
  pub started_at : ℕ
  pub due_at : ℕ
  pub met_at : Option ℕ
  pub status : DeadlineStatus
  pub basis : String

pub record CoreReceiptView : Type 0 where
  pub rrn : String
  pub response_code : String
  pub latency_ms : ℕ

pub record LedgerView (N : Type 0) : Type 0 where
  pub seq : ℕ
  pub kind : PostingKind
  pub debit : Account
  pub credit : Account
  pub amount : N
  pub currency : String
  pub reference : String
  pub posted_at : ℕ
  pub core : Option CoreReceiptView

pub record AttachmentView : Type 0 where
  pub id : String
  pub filename : String
  pub content_type : String
  pub size : ℕ

pub record NoticeView : Type 0 where
  pub id : ℕ
  pub seq : ℕ
  pub kind : NoticeKind
  pub channel : Channel
  pub recipient : String
  pub subject : String
  pub created_at : ℕ
  pub sent_at : Option ℕ
  pub error : Option String
  pub actor : String
  pub resend_of : Option ℕ
  pub attachments : List AttachmentView

pub record RiskHistoryView : Type 0 where
  pub seq : ℕ
  pub score : ℕ
  pub tier : RiskTier
  pub assessed_at : ℕ

pub record RiskView : Type 0 where
  pub score : ℕ
  pub tier : RiskTier
  pub signals : List Signal
  pub assessed_at : ℕ
  pub history : List RiskHistoryView

pub record QuestionnaireView : Type 0 where
  pub reason : Reason
  pub questions : List Question
  pub answers : Option Answers
  pub inconsistencies : List String
  pub sent_at : ℕ
  pub received_at : Option ℕ

pub record DisputeView (N : Type 0) : Type 0 where
  pub id : String
  pub regime : Regime
  pub reason : Reason
  pub state : State
  pub appeals : ℕ
  pub version : ℕ
  pub transaction_id : String
  pub account_id : String
  pub disputed_amount : N
  pub currency : String
  pub opened_at : ℕ
  pub updated_at : ℕ
  pub allowed_events : List Event
  pub events : List EventView
  pub deadlines : List DeadlineView
  pub ledger : List (LedgerView N)
  pub balances : Balances N
  pub questionnaire : Option QuestionnaireView
  pub notices : List NoticeView
  pub risk : Option RiskView
