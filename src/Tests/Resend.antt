-- ===== src/Tests/Resend.antt =====
-- A run of Resend (application/compose.go), in whole cents: an email that was sent again is sent once
-- more.
use thesis_dispute_engine.Prelude.{
  ℕ, ◌≡◌, refl, sym, ap, ◌∙◌, inl, inr, Option, none, some, [], ◌∷◌, some_inj,
}
use thesis_dispute_engine.Prelude.Int.{ℤ, cents}
use thesis_dispute_engine.Result.{ok}
use thesis_dispute_engine.Errs.{is}
use thesis_dispute_engine.Domain.Vocabulary.{NoticeKind, Channel}
use thesis_dispute_engine.Application.Records.{NoticeRecord}
use thesis_dispute_engine.Application.Store.{Db, get_dispute, get_transaction, list_events, with_tx}
use thesis_dispute_engine.Application.Rows.{
  list_deadlines, list_ledger, list_risk, get_questionnaire,
}
use thesis_dispute_engine.Application.NoticeRows.{
  get_account, get_notice, list_notices, insert_notice,
}
use thesis_dispute_engine.Application.Reassign.{authorize, facts}
use thesis_dispute_engine.Application.ViewRecords.{DisputeView}
use thesis_dispute_engine.Application.Views.{view_with}
use thesis_dispute_engine.Application.Resend.{ResendInput, authorize_dispute, resend_tx, resend}
use thesis_dispute_engine.Application.Resend.Laws.{Queued, resend-Queued}
use thesis_dispute_engine.Application.Resend.Chain.{IsRooted, resend-IsRooted}
use thesis_dispute_engine.Tests.Application.{caller}
use thesis_dispute_engine.Tests.Reassign.{policy}
use thesis_dispute_engine.Tests.Views.{holding}

abbrev email_of : ℕ → Option ℕ → NoticeRecord
email_of id root = record {
  id = id;
  tenant_id = "bank";
  dispute_id = "d1";
  seq = 1;
  kind = NoticeKind.acknowledgement;
  channel = Channel.email;
  recipient = "old@example.com";
  subject = "Your dispute";
  document = "{}";
  created_at = 5;
  sent_at = some 7;
  attempts = 1;
  last_error = none;
  actor = "";
  resend_of = root;
}

abbrev mailed : Db ℤ
mailed = record holding { notices = email_of 1 none ∷ email_of 2 (some 1) ∷ []; next_notice = 2 }

abbrev again : ResendInput
again = record { dispute_id = "d1"; notice_id = 2; actor = "ana" }

abbrev sent_again : Db ℤ
sent_again = (resend cents caller policy 91 again mailed).1

resend_run : (v : DisputeView ℤ) × (resend cents caller policy 91 again mailed ≡ (ok v, sent_again))
unfolding resend resend_tx authorize_dispute authorize facts get_dispute get_transaction list_events
    with_tx list_deadlines list_ledger list_risk get_questionnaire get_account get_notice
    list_notices insert_notice view_with is
resend_run = (_, refl)

mailed-IsRooted : IsRooted mailed.notices
mailed-IsRooted n r mem points = elim mem [
  | inl first ↦ let unlinked : n.resend_of ≡ none = ap (λ x. x.resend_of) first in absurd (cc)
  | inr (inl later) ↦
      let linked : n.resend_of ≡ some 1 = ap (λ x. x.resend_of) later in
      (
        email_of 1 none,
        inl refl,
        some_inj (sym linked ∙ points),
        refl,
        record {
          dispute_id = ap (λ x. x.dispute_id) later;
          seq = ap (λ x. x.seq) later;
          kind = ap (λ x. x.kind) later;
          subject = ap (λ x. x.subject) later;
          document = ap (λ x. x.document) later;
        },
      )
  | inr (inr none_) ↦ absurd none_
]

resend-Queued_example : Queued cents caller policy again mailed sent_again
resend-Queued_example =
    resend-Queued cents caller policy 91 again mailed sent_again resend_run.0 resend_run.1

resend-IsRooted_example : IsRooted sent_again.notices
resend-IsRooted_example =
    resend-IsRooted cents caller policy 91 again mailed sent_again resend_run.0 mailed-IsRooted
      resend_run.1
