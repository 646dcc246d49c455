-- ===== src/Tests/Outbox.antt =====
-- Runs of the dispatcher (application/mail.go): one of two emails that waits is delivered.
use thesis_dispute_engine.Prelude.{
  ◌+◌, ◌≡◌, ◌≢◌, refl, ◌≤◌, ◌↔◌, ℕ, eq_iff, Option, none, some, [], ◌∷◌, arith,
}
use thesis_dispute_engine.Prelude.Int.{ℤ}
use thesis_dispute_engine.Result.{ok}
use thesis_dispute_engine.Errs.{GoError}
use thesis_dispute_engine.Domain.Vocabulary.{NoticeKind, Channel}
use thesis_dispute_engine.Application.Records.{NoticeRecord}
use thesis_dispute_engine.Application.Store.{Db}
use thesis_dispute_engine.Application.Outbox.{
  Mailer, pass, outbox_backlog, claimed, after_claim, deliver_each, deliver, failure_of,
  finish_notice, notice_attachments, render_mail,
}
use thesis_dispute_engine.Application.Outbox.Laws.{Kept, Distinct, pass-Kept}
use thesis_dispute_engine.Application.Outbox.Drain.{GoOut, pass-backlog}
use thesis_dispute_engine.Tests.Transition.{empty_store}

abbrev mailer : Mailer
mailer = record {
  unmarshal = λ _. ok (record {
    bank = "Bank";
    subject = "Your dispute";
    greeting = "Hello";
    paragraphs = [];
    closing = "Bye";
    basis = "";
  });
  text_of = λ _. "text";
  html_of = λ _ _. "html";
  send = λ _. ok tt;
  message = λ _. "failed";
  print_number = λ _. "1";
  now = 90;
}

abbrev email_to : ℕ → Option ℕ → NoticeRecord
email_to id sent = record {
  id = id;
  tenant_id = "t1";
  dispute_id = "d1";
  seq = 1;
  kind = NoticeKind.acknowledgement;
  channel = Channel.email;
  recipient = "a@example.com";
  subject = "Your dispute";
  document = "{}";
  created_at = 5;
  sent_at = sent;
  attempts = 0;
  last_error = none;
  actor = "ana";
  resend_of = none;
}

abbrev queue : Db ℤ
queue = record empty_store { notices = email_to 1 (some 7) ∷ email_to 2 none ∷ [] }

pass_run :
    (pass mailer queue).1.notices
    ≡ email_to 1 (some 7) ∷ record (email_to 2 (some 90)) { attempts = 1 } ∷ []
unfolding pass claimed after_claim deliver_each deliver failure_of finish_notice notice_attachments
    render_mail
pass_run = refl

queue-Distinct : Distinct queue.notices
queue-Distinct = ((omega arith, tt), (tt, tt))

pass-Kept_example :
    Kept queue.notices (pass mailer queue).1.notices
    × ((pass mailer queue).0 ≤ 20)
    × (((pass mailer queue).0 ≡ 0) ↔ (outbox_backlog queue.notices ≡ 0))
pass-Kept_example = pass-Kept mailer queue queue-Distinct

mailer-says : (e : GoError) → mailer.message e ≢ ""
mailer-says e h = ground (arith, eq_iff "failed" "")

pass-backlog_example :
    (k : ℕ) × GoOut mailer queue.attachments (claimed 20 queue.notices) k
    × (outbox_backlog (pass mailer queue).1.notices + k ≡ outbox_backlog queue.notices)
pass-backlog_example = pass-backlog mailer queue queue-Distinct mailer-says
