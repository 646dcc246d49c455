-- ===== src/Application/Records.antt =====
-- application/ports.go, access.go, core.go and platform/principal: what the use cases read and
-- write. `N` is the type of amounts, an identifier is a text, an instant a count of nanoseconds,
-- and bytes are a text.
use thesis_dispute_engine.Prelude.{ℕ, String, Bool, Option, List}
use thesis_dispute_engine.Errs.{
  Error, not_found, conflict, unprocessable, unavailable, forbidden, new,
}
use thesis_dispute_engine.Domain.Vocabulary.{
  Regime, State, Event, Rail, PostingKind, Reason, NoticeKind, Channel, event_name,
}
use thesis_dispute_engine.Domain.Lifecycle.{Dispute}
use thesis_dispute_engine.Domain.Ledger.{Posting}
use thesis_dispute_engine.Domain.Risk.{Assessment}
use thesis_dispute_engine.Domain.QuestionSets.{Question, Answers}

abbrev pub err_not_found : Error
err_not_found = new not_found "not-found" "the requested resource does not exist"

abbrev pub err_conflict : Error
err_conflict =
    new conflict "concurrent-update"
      "the dispute changed while this request was in flight; reload and try again"

abbrev pub err_idempotency_reuse : Error
err_idempotency_reuse =
    new unprocessable "idempotency-key-reuse"
      "this Idempotency-Key was already used with a different request"

abbrev pub err_unavailable : Error
err_unavailable = new unavailable "unavailable" "a dependency is temporarily unavailable"

abbrev pub err_core_declined : Error
err_core_declined = new unprocessable "core-declined" "the banking core declined the posting"

abbrev pub err_forbidden : Error
err_forbidden = new forbidden "forbidden" "your role does not allow this operation"

pub data PrincipalKind : Type 0 where
  analyst key : PrincipalKind

pub record Principal : Type 0 where
  pub kind : PrincipalKind
  pub id : String
  pub display : String
  pub tenant_admin : Bool

pub record DisputeRecord (N : Type 0) : Type 0 where
  pub id : String
  pub tenant_id : String
  pub team : String
  pub regime : Regime
  pub state : State
  pub appeals : ℕ
  pub version : ℕ
  pub transaction_id : String
  pub account_id : String
  pub disputed_amount : N
  pub currency : String
  pub opened_at : ℕ
  pub updated_at : ℕ
  pub reason : Reason

abbrev pub lifecycle : {N : Type 0} → DisputeRecord N → Dispute
lifecycle r = record { regime = r.regime; state = r.state; appeals = r.appeals }

pub record EventRecord : Type 0 where
  pub seq : ℕ
  pub event : Event
  pub from_state : State
  pub to_state : State
  pub actor : String
  pub actor_id : String
  pub payload : String
  pub idempotency_key : Option String
  pub trace_id : Option String
  pub occurred_at : ℕ

pub record TransactionRecord (N : Type 0) : Type 0 where
  pub id : String
  pub tenant_id : String
  pub account_id : String
  pub rail : Rail
  pub amount : N
  pub currency : String
  pub account_currency : String
  pub account_opened_at : ℕ
  pub merchant : String
  pub mcc : String
  pub occurred_at : ℕ

pub record RiskRecord : Type 0 where
  pub seq : ℕ
  pub assessment : Assessment
  pub assessed_at : ℕ

-- The time of storing, which only the purge reads, is left out.
pub record StoredResponse : Type 0 where
  pub request_hash : String
  pub status_code : ℕ
  pub body : String

pub record Questionnaire : Type 0 where
  pub reason : Reason
  pub questions : List Question
  pub answers : Option Answers
  pub sent_at : ℕ
  pub received_at : Option ℕ

pub record AccountRecord : Type 0 where
  pub id : String
  pub holder : String
  pub currency : String
  pub email : String
  pub postal_address : String
  pub opened_at : ℕ

-- A notice's identifier is a number. The trace context, which only the dispatcher reads, is left out.
pub record NoticeRecord : Type 0 where
  pub id : ℕ
  pub tenant_id : String
  pub dispute_id : String
  pub seq : ℕ
  pub kind : NoticeKind
  pub channel : Channel
  pub recipient : String
  pub subject : String
  pub document : String
  pub created_at : ℕ
  pub sent_at : Option ℕ
  pub attempts : ℕ
  pub last_error : Option String
  pub actor : String
  pub resend_of : Option ℕ

pub record Attachment : Type 0 where
  pub id : String
  pub dispute_id : String
  pub notice_id : Option ℕ
  pub filename : String
  pub content_type : String
  pub size : ℕ
  pub content : String
  pub uploaded_by : String
  pub uploaded_at : ℕ

pub record CoreConfig : Type 0 where
  pub kind : String
  pub settings : String

pub record CoreInstruction (N : Type 0) : Type 0 where
  pub reference : String
  pub dispute_id : String
  pub account_id : String
  pub transaction_id : String
  pub kind : PostingKind
  pub credit_account : Bool
  pub amount : N
  pub currency : String
  pub requested_at : ℕ

pub record CoreReceipt : Type 0 where
  pub rrn : String
  pub response_code : String
  pub response_text : String
  pub approved : Bool
  pub duplicate : Bool
  pub auth_code : String
  pub processed_at : ℕ
  pub latency : ℕ

pub record LedgerEntry (N : Type 0) : Type 0 where
  pub seq : ℕ
  pub posting : Posting N
  pub reference : String
  pub posted_at : ℕ
  pub core : Option CoreReceipt

pub data Role : Type 0 where
  junior senior lead : Role
  other : String → Role

-- An action is its text.
pub record Grant (N : Type 0) : Type 0 where
  pub team : String
  pub role : Role
  pub action : String
  pub amount_limit : Option N

pub record Membership : Type 0 where
  pub team : String
  pub role : Role

pub record RoutingRule (N : Type 0) : Type 0 where
  pub rail : Option Rail
  pub reason : Option Reason
  pub risk_tier : Option String
  pub min_amount : Option N
  pub team : String

pub record Access (N : Type 0) : Type 0 where
  pub version : ℕ
  pub default_team : String
  pub teams : List String
  pub grants : List (Grant N)
  pub routing : List (RoutingRule N)
  pub members : List Membership

pub record DisputeFacts (N : Type 0) : Type 0 where
  pub id : String
  pub team : String
  pub amount : N
  pub currency : String
  pub rail : Rail
  pub state : State
  pub investigation_opened_by : String

pub record Decision : Type 0 where
  pub allowed : Bool
  pub policies : List String

-- EventAction
unfoldable pub event_action : Event → String
unfolding event_name
event_action e = event_name e
