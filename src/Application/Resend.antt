-- ===== src/Application/Resend.antt =====
-- Resend of application/compose.go, with authorizeDispute of application/authorize.go. The callback
-- after the commit wakes the dispatcher and is left out, with the metrics.
pub mod Chain
pub mod Laws
use thesis_dispute_engine.Prelude.{
  ℕ, String, Bool, true, false, not, ◌&&◌, Option, none, some, str_eq, if◌then◌else◌,
}
use thesis_dispute_engine.Prelude.Decimal.{Decimals}
use thesis_dispute_engine.Result.{Result}
use thesis_dispute_engine.Errs.{Error, GoError, conflict, classified, new, with_detail}
use thesis_dispute_engine.Domain.Vocabulary.{Channel}
use thesis_dispute_engine.Application.Records.{NoticeRecord, AccountRecord, DisputeRecord, Decision}
use thesis_dispute_engine.Application.Store.{
  Db, Caller, Tx, pure, fail, lift, ◌>>=◌, ◌>>◌, get_dispute, with_tx,
}
use thesis_dispute_engine.Application.NoticeRows.{get_account, get_notice, insert_notice}
use thesis_dispute_engine.Application.Reassign.{Policy, authorize, facts}
use thesis_dispute_engine.Application.ViewRecords.{DisputeView}
use thesis_dispute_engine.Application.Views.{source_of, view_with}

abbrev pub err_not_resendable : Error
err_not_resendable =
    new conflict "not-resendable" "only an email that has been sent can be sent again"

pub record ResendInput : Type 0 where
  pub dispute_id : String
  pub notice_id : ℕ
  pub actor : String

abbrev pub is_email : Channel → Bool
is_email Channel.email = true
is_email Channel.letter = false

abbrev pub is_set : Option ℕ → Bool
is_set none = false
is_set (some _) = true

abbrev pub is_resendable : NoticeRecord → Bool
is_resendable n = is_email n.channel && is_set n.sent_at

-- The new email. It points at the root of the chain.
abbrev pub resent : ResendInput → ℕ → NoticeRecord → AccountRecord → String → NoticeRecord
resent inp now orig account id = record {
  id = 0;
  tenant_id = "";
  dispute_id = id;
  seq = orig.seq;
  kind = orig.kind;
  channel = Channel.email;
  recipient = account.email;
  subject = orig.subject;
  document = orig.document;
  created_at = now;
  sent_at = none;
  attempts = 0;
  last_error = none;
  actor = inp.actor;
  resend_of = some (source_of orig orig.resend_of);
}

module _ (dec : Decimals) where
  open dec use {Num}

  unfoldable pub authorize_dispute : Caller Num → Policy Num → String → String → Tx Num Decision
  unfolding authorize facts
  authorize_dispute c policy action id = do
    rec ← get_dispute c id
    f ← facts c rec
    lift (authorize c policy action f)

  -- From the checks on the account on.
  abbrev pub queue_resend :
      Caller Num
      → Policy Num
      → ℕ
      → ResendInput
      → DisputeRecord Num
      → NoticeRecord
      → AccountRecord
      → Tx Num (DisputeView Num)
  queue_resend c policy view_now inp rec orig account =
      if str_eq account.email ""
      then fail (classified (with_detail err_not_resendable "the account has no email address"))
      else insert_notice c (resent inp policy.now orig account rec.id)
        >> view_with dec c policy view_now rec none

  abbrev pub resend_checked :
      Caller Num
      → Policy Num
      → ℕ
      → ResendInput
      → DisputeRecord Num
      → NoticeRecord
      → Tx Num (DisputeView Num)
  resend_checked c policy view_now inp rec orig =
      if not (is_resendable orig)
      then fail (classified err_not_resendable)
      else get_account rec.account_id >>= queue_resend c policy view_now inp rec orig

  -- The body of the transaction for a dispute that can be read.
  abbrev pub resend_found :
      Caller Num → Policy Num → ℕ → ResendInput → DisputeRecord Num → Tx Num (DisputeView Num)
  resend_found c policy view_now inp rec = do
    authorize_dispute c policy "resend-notice" rec.id
    get_notice c rec.id inp.notice_id >>= resend_checked c policy view_now inp rec

  unfoldable pub resend_tx : Caller Num → Policy Num → ℕ → ResendInput → Tx Num (DisputeView Num)
  unfolding authorize_dispute get_notice get_account insert_notice
  resend_tx c policy view_now inp =
      get_dispute c inp.dispute_id >>= resend_found c policy view_now inp

  unfoldable pub resend :
      Caller Num → Policy Num → ℕ → ResendInput → Db Num → Result (DisputeView Num) × Db Num
  unfolding resend_tx
  resend c policy view_now inp = with_tx (resend_tx c policy view_now inp)
