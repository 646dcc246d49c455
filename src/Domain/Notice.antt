-- ===== src/Domain/Notice.antt =====
-- domain/notice.go: which notices entering a state owes the customer, and how each goes out.
pub mod Laws
use thesis_dispute_engine.Prelude.{Bool, true, false, not, ◌&&◌, List, [], ◌∷◌, if◌then◌else◌}
use thesis_dispute_engine.Domain.Vocabulary.{
  State, initiated, questionnaire_sent, provisional_credit_issued, fast_refund_issued,
  sepa_nqa_refund_issued, provisional_credit_reversed, closed, NoticeKind, Channel, email, letter,
}
use thesis_dispute_engine.Domain.Regime.{Rules}

abbrev pub manual_notice_kinds : List NoticeKind
manual_notice_kinds =
    NoticeKind.request_for_information ∷ NoticeKind.status_update ∷ NoticeKind.documents_received
    ∷ NoticeKind.custom ∷ []

unfoldable pub notices_for : Rules → State → List NoticeKind
notices_for r initiated = NoticeKind.acknowledgement ∷ []
notices_for r questionnaire_sent = NoticeKind.questionnaire ∷ []
notices_for r provisional_credit_issued = NoticeKind.provisional_credit ∷ []
notices_for r fast_refund_issued = NoticeKind.refund ∷ []
notices_for r sepa_nqa_refund_issued = NoticeKind.refund ∷ []
notices_for r provisional_credit_reversed = NoticeKind.reversal ∷ []
notices_for r closed = NoticeKind.resolution ∷ []
notices_for r _ = []

abbrev pub is_questionnaire : NoticeKind → Bool
is_questionnaire NoticeKind.questionnaire = true
is_questionnaire _ = false

unfoldable pub channels_for : Rules → NoticeKind → List Channel
channels_for r kind =
    if r.written_notices && not (is_questionnaire kind) then email ∷ letter ∷ [] else email ∷ []
