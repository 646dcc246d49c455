-- ===== src/Application/Outbox.antt =====
-- The dispatcher of application/mail.go over the outbox of apptest/memstore.go, with RenderMail of
-- application/service.go. The mailer, the rendering of a document, encoding/json and the text of an
-- error are parameters; the in-memory store has no backoff. Metrics, traces and logs are left out.
pub mod Laws
pub mod Drain
use thesis_dispute_engine.Prelude.{
  ℕ, suc, ◌+◌, ◌-◌, String, Bool, true, false, not, ◌&&◌, Option, none, some, List, [], ◌∷◌, ◌++◌,
  map, length, str_eq, ltb, ◌==◌, if◌then◌else◌,
}
use Prim.Native.String.{◌++◌ as str_append}
use thesis_dispute_engine.Result.{Result, ok, err}
use thesis_dispute_engine.Errs.{GoError, wrap}
use thesis_dispute_engine.Domain.Vocabulary.{Channel}
use thesis_dispute_engine.Application.Records.{NoticeRecord, Attachment}
use thesis_dispute_engine.Application.Store.{Db}
use thesis_dispute_engine.Application.Notices.{Document}
use thesis_dispute_engine.Application.Views.{insert_by_upload, is_notice, source_of}

pub record MailFile : Type 0 where
  pub name : String
  pub content_type : String
  pub content : String

pub record Mail : Type 0 where
  pub to : String
  pub subject : String
  pub text_ : String
  pub html : String
  pub files : List MailFile

-- What the dispatcher is given: the decoder and the rendering of a document, the mailer, the texts of
-- an error and of a number, and the time at which an attempt ends.
pub record Mailer : Type 0 where
  pub unmarshal : String → Result Document
  pub text_of : Document → String
  pub html_of : Document → ℕ → String
  pub send : Mail → Result (Unit {0})
  pub message : GoError → String
  pub print_number : ℕ → String
  pub now : ℕ

abbrev is_absent : Option ℕ → Bool
is_absent none = true
is_absent (some _) = false

abbrev is_email : Channel → Bool
is_email Channel.email = true
is_email Channel.letter = false

abbrev pub is_waiting : NoticeRecord → Bool
is_waiting n = is_absent n.sent_at && is_email n.channel

abbrev pub attempted : NoticeRecord → NoticeRecord
attempted n = record n { attempts = suc n.attempts }

-- The loop of ClaimNotices, on how many more it may take: what it takes.
unfoldable pub claimed : ℕ → List NoticeRecord → List NoticeRecord
claimed left [] = []
claimed left (n ∷ ns) =
    let skip = claimed left ns in
    let take = claimed (left - 1) ns in
    if is_waiting n && ltb 0 left then attempted n ∷ take else skip

-- The same loop: the outbox that it leaves.
unfoldable pub after_claim : ℕ → List NoticeRecord → List NoticeRecord
after_claim left [] = []
after_claim left (n ∷ ns) =
    let skip = after_claim left ns in
    let take = after_claim (left - 1) ns in
    if is_waiting n && ltb 0 left then attempted n ∷ take else n ∷ skip

-- OutboxBacklog
unfoldable pub outbox_backlog : List NoticeRecord → ℕ
outbox_backlog [] = 0
outbox_backlog (n ∷ ns) = let rest = outbox_backlog ns in if is_waiting n then rest + 1 else rest

-- The body of the loop of FinishNotice.
abbrev pub finished : ℕ → String → ℕ → NoticeRecord → NoticeRecord
finished id failure now n =
    if n.id == id
    then if str_eq failure ""
      then record n { sent_at = some now; last_error = none }
      else record n { last_error = some failure }
    else n

unfoldable pub finish_notice : ℕ → String → ℕ → List NoticeRecord → List NoticeRecord
finish_notice id failure now [] = []
finish_notice id failure now (n ∷ ns) = finished id failure now n ∷ finish_notice id failure now ns

unfoldable pub notice_attachments : ℕ → List Attachment → List Attachment
notice_attachments id [] = []
notice_attachments id (a ∷ more) =
    let rest = notice_attachments id more in
    if is_notice id a.notice_id then insert_by_upload a rest else rest

abbrev pub rendered : Mailer → NoticeRecord → Result Document → Result Mail
rendered m n (err e) = err (wrap e (str_append "notice " (m.print_number n.id)))
rendered m n (ok doc) = ok (record {
  to = n.recipient;
  subject = doc.subject;
  text_ = m.text_of doc;
  html = m.html_of doc n.created_at;
  files = [];
})

unfoldable pub render_mail : Mailer → NoticeRecord → Result Mail
render_mail m n = rendered m n (m.unmarshal n.document)

abbrev pub mail_file : Attachment → MailFile
mail_file a = record { name = a.filename; content_type = a.content_type; content = a.content }

abbrev pub sending : Mailer → Result (Unit {0}) → String
sending m (ok u) = ""
sending m (err e) = m.message e

abbrev pub attempt_mail : Mailer → List Attachment → Result Mail → String
attempt_mail m files (err e) = str_append "render: " (m.message e)
attempt_mail m files (ok mail) =
    sending m (m.send (record mail { files = mail.files ++ map mail_file files }))

-- The failure of one attempt at one notice; empty if it was delivered.
unfoldable pub failure_of : Mailer → List Attachment → NoticeRecord → String
unfolding notice_attachments render_mail
failure_of m attachments n =
    attempt_mail m (notice_attachments (source_of n n.resend_of) attachments) (render_mail m n)

module _ {N : Type 0} where
  unfoldable pub deliver : Mailer → NoticeRecord → Db N → Db N
  unfolding failure_of finish_notice
  deliver m n db = record db {
    notices = finish_notice n.id (failure_of m db.attachments n) m.now db.notices;
  }

  -- The loop of `pass` over the batch.
  unfoldable pub deliver_each : Mailer → List NoticeRecord → Db N → Db N
  unfolding deliver
  deliver_each m [] db = db
  deliver_each m (n ∷ ns) db = deliver_each m ns (deliver m n db)

  abbrev pub claim_notices : ℕ → Db N → List NoticeRecord × Db N
  claim_notices batch db =
      (claimed batch db.notices, record db { notices = after_claim batch db.notices })

  unfoldable pub pass : Mailer → Db N → ℕ × Db N
  unfolding claimed after_claim deliver_each
  pass m db = let (batch, db') = claim_notices 20 db in (length batch, deliver_each m batch db')
