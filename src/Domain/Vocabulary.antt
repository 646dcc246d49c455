-- ===== src/Domain/Vocabulary.antt =====
-- The string types of the domain package: regimes and refund paths (regime.go), states and events
-- (state.go), rails (rail.go), deadline kinds and day units (deadline.go), ledger words (ledger.go),
-- notice kinds and channels (notice.go), risk tiers (risk.go), dispute reasons (questionnaire.go).
-- Each named constant is a constructor; `other` is any other value of the underlying string.
use thesis_dispute_engine.Prelude.{String, Bool, true, false}

pub data Regime : Type 0 where
  eu_sepa_direct_debit eu_psd2_card us_reg_e us_reg_z : Regime
  other : String → Regime

pub data RefundPath : Type 0 where
  none provisional_credit fast no_questions_asked : RefundPath

pub data State : Type 0 where
  initiated investigating questionnaire_sent questionnaire_received : State
  provisional_credit_issued fast_refund_issued sepa_nqa_refund_issued : State
  chargeback_filed chargeback_acknowledged evidence_submitted chargeback_won chargeback_lost : State
  final_credit_issued provisional_credit_reversed closed : State
  other : String → State

pub data Event : Type 0 where
  open_investigation send_questionnaire receive_questionnaire issue_refund file_chargeback : Event
  acknowledge_chargeback submit_evidence win_chargeback lose_chargeback : Event
  issue_final_credit reverse_provisional_credit close appeal : Event
  other : String → Event

pub data Rail : Type 0 where
  card credit_card sepa_dd : Rail
  other : String → Rail

pub data DeadlineKind : Type 0 where
  refund acknowledge resolution : DeadlineKind

pub data DayUnit : Type 0 where
  business_days calendar_days : DayUnit

pub data Account : Type 0 where
  customer suspense recovery loss : Account

pub data PostingKind : Type 0 where
  provisional_credit fast_refund nqa_refund provisional_credit_reversal recovery write_off :
      PostingKind

pub data SuspenseSettlement : Type 0 where
  recovered written_off : SuspenseSettlement

pub data NoticeKind : Type 0 where
  acknowledgement questionnaire provisional_credit refund reversal resolution : NoticeKind
  request_for_information status_update documents_received custom : NoticeKind

pub data Channel : Type 0 where
  email letter : Channel

pub data RiskTier : Type 0 where
  low medium high : RiskTier

pub data Reason : Type 0 where
  unauthorised not_received duplicate amount_differs : Reason
  other : String → Reason

abbrev pub refund_path_eq : RefundPath → RefundPath → Bool
refund_path_eq RefundPath.none RefundPath.none = true
refund_path_eq RefundPath.provisional_credit RefundPath.provisional_credit = true
refund_path_eq RefundPath.fast RefundPath.fast = true
refund_path_eq RefundPath.no_questions_asked RefundPath.no_questions_asked = true
refund_path_eq _ _ = false

abbrev pub state_is_closed : State → Bool
state_is_closed State.closed = true
state_is_closed _ = false

abbrev pub event_is_appeal : Event → Bool
event_is_appeal Event.appeal = true
event_is_appeal _ = false

-- string(e): the constant behind each name
unfoldable pub event_name : Event → String
event_name Event.open_investigation = "OPEN_INVESTIGATION"
event_name Event.send_questionnaire = "SEND_QUESTIONNAIRE"
event_name Event.receive_questionnaire = "RECEIVE_QUESTIONNAIRE"
event_name Event.issue_refund = "ISSUE_REFUND"
event_name Event.file_chargeback = "FILE_CHARGEBACK"
event_name Event.acknowledge_chargeback = "ACKNOWLEDGE_CHARGEBACK"
event_name Event.submit_evidence = "SUBMIT_EVIDENCE"
event_name Event.win_chargeback = "WIN_CHARGEBACK"
event_name Event.lose_chargeback = "LOSE_CHARGEBACK"
event_name Event.issue_final_credit = "ISSUE_FINAL_CREDIT"
event_name Event.reverse_provisional_credit = "REVERSE_PROVISIONAL_CREDIT"
event_name Event.close = "CLOSE"
event_name Event.appeal = "APPEAL"
event_name (Event.other s) = s
