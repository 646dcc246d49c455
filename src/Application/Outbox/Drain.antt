-- ===== src/Application/Outbox/Drain.antt =====
-- How far a pass of the dispatcher takes the backlog down (application/mail.go).
use thesis_dispute_engine.Prelude.{
  ℕ, ◌+◌, ◌-◌, String, ◌≡◌, refl, ap, sym, ◌∙◌, ◌≢◌, inl, inr, true, false, List, [], ◌∷◌, ◌&&◌,
  ltb, str_eq, ◌==◌, ==_iff, arith, Bool-cases, if◌then◌else◌, eq_iff, ◌↔◌, ◌⊎◌, map,
}
use Prim.Native.String.{◌++◌ as str_append}
use text.Mathlib.TextLemmas.{append-ne-nil_of_right_ne-nil}
use thesis_dispute_engine.Result.{Result, ok, err, ok-injective}
use thesis_dispute_engine.Errs.{GoError, wrap}
use thesis_dispute_engine.Application.Notices.{Document}
use thesis_dispute_engine.Application.Views.{source_of}
use thesis_dispute_engine.Application.Records.{NoticeRecord, Attachment}
use thesis_dispute_engine.Application.Store.{Db}
use thesis_dispute_engine.Application.Outbox.{
  Mailer, Mail, mail_file, notice_attachments, render_mail, rendered, sending, attempt_mail,
  is_waiting, attempted, claimed, after_claim, outbox_backlog, finished, finish_notice, failure_of,
  deliver, deliver_each, pass,
}
use thesis_dispute_engine.Application.Outbox.Laws.{
  Unused, Distinct, claimed-Unused, finished-fields,
}

-- The email of a notice: what its document says, to its recipient, with the files of the notice that
-- it repeats or of its own.
abbrev mail_of : Mailer → List Attachment → NoticeRecord → Document → Mail
mail_of m files n doc = record {
  to = n.recipient;
  subject = doc.subject;
  text_ = m.text_of doc;
  html = m.html_of doc n.created_at;
  files = map mail_file (notice_attachments (source_of n n.resend_of) files);
}

-- The document of the notice is readable and the mailer accepts the email of it.
abbrev pub Goes : Mailer → List Attachment → NoticeRecord → Type 0
Goes m files n =
    (doc : Document) × (m.unmarshal n.document ≡ ok doc) × (m.send (mail_of m files n doc) ≡ ok tt)

-- Of the notices, this many go out.
abbrev pub GoOut : Mailer → List Attachment → List NoticeRecord → ℕ → Type 0
GoOut m files [] k = k ≡ 0
GoOut m files (n ∷ ns) k =
    (Goes m files n × (j : ℕ) × (k ≡ j + 1) × GoOut m files ns j)
    ⊎ ((Goes m files n → ⊥) × GoOut m files ns k)

failure_of_iff :
    (m : Mailer) (files : List Attachment) (n : NoticeRecord)
    → ((e : GoError) → m.message e ≢ "")
    → (failure_of m files n ≡ "") ↔ Goes m files n
unfolding failure_of render_mail
failure_of_iff m files n says = go (m.unmarshal n.document) refl
  where
    sent :
        (doc : Document)
        → m.unmarshal n.document ≡ ok doc
        → (y : Result (Unit {0})) → m.send (mail_of m files n doc) ≡ y
        → (sending m y ≡ "") ↔ Goes m files n
    sent doc read (ok tt) e = (λ _. (doc, read, e), λ _. refl)
    sent doc read (err x) e = (
      λ h. absurd (says x h),
      λ (g : Goes m files n). absurd (
          let same : g.0 ≡ doc = ok-injective (sym g.1 ∙ read) in
          let again : m.send (mail_of m files n doc) ≡ ok tt = rw (← same) g.2 in
          let z = sym e ∙ again in cc),
    )

    go :
        (x : Result Document)
        → m.unmarshal n.document ≡ x
        → (attempt_mail m (notice_attachments (source_of n n.resend_of) files) (rendered m n x)
            ≡ "")
          ↔ Goes m files n
    go (ok doc) read = sent doc read (m.send (mail_of m files n doc)) refl
    go (err e) read = (
      λ h. absurd (
          append-ne-nil_of_right_ne-nil "render: "
            (says (wrap e (str_append "notice " (m.print_number n.id)))) h),
      λ (g : Goes m files n). absurd (let z = sym read ∙ g.1 in cc),
    )

-- How many of a batch the mailer accepts.
unfoldable accepted : Mailer → List Attachment → List NoticeRecord → ℕ
accepted m files [] = 0
accepted m files (n ∷ ns) =
    let rest = accepted m files ns in if str_eq (failure_of m files n) "" then rest + 1 else rest

accepted-GoOut :
    (m : Mailer) (files : List Attachment) (ns : List NoticeRecord)
    → ((e : GoError) → m.message e ≢ "")
    → GoOut m files ns (accepted m files ns)
unfolding accepted
accepted-GoOut m files [] says = refl
accepted-GoOut m files (n ∷ ns) says =
    let rest = accepted-GoOut m files ns says in
    let (to, from) = failure_of_iff m files n says in
    elim (Bool-cases (str_eq (failure_of m files n) "")) [
      | inl yes_ ↦
          rw yes_
            (inl (to ((eq_iff (failure_of m files n) "").0 yes_), accepted m files ns, refl, rest))
      | inr no_ ↦ rw no_ (
          inr (
            λ g. absurd (let z = sym no_ ∙ (eq_iff (failure_of m files n) "").1 (from g) in cc),
            rest,
          ))
    ]

-- What a batch does to the outbox alone.
unfoldable finish_each :
    Mailer → List Attachment → List NoticeRecord → List NoticeRecord → List NoticeRecord
finish_each m files [] ns = ns
finish_each m files (b ∷ bs) ns =
    finish_each m files bs (finish_notice b.id (failure_of m files b) m.now ns)

module _ {N : Type 0} where
  deliver_each-notices :
      (m : Mailer) (batch : List NoticeRecord) (db : Db N)
      → (deliver_each m batch db).notices ≡ finish_each m db.attachments batch db.notices
  unfolding deliver_each deliver finish_each
  deliver_each-notices m [] db = refl
  deliver_each-notices m (b ∷ bs) db = deliver_each-notices m bs (deliver m b db)

==-differs : (a b : ℕ) → a ≢ b → (a == b) ≡ false
==-differs a b h = elim (Bool-cases (a == b)) [
  | inl same ↦ absurd (h ((==_iff a b).0 same))
  | inr differs ↦ differs
]

finish_notice-Unused :
    (id : ℕ) (failure : String) (now : ℕ) (ns : List NoticeRecord)
    → Unused id ns
    → finish_notice id failure now ns ≡ ns
unfolding finish_notice
finish_notice-Unused id failure now [] h = refl
finish_notice-Unused id failure now (n ∷ ns) h =
    rw (==-differs n.id id h.0, finish_notice-Unused id failure now ns h.1) refl

after_claim-Unused :
    (left id : ℕ) (ns : List NoticeRecord) → Unused id ns → Unused id (after_claim left ns)
unfolding after_claim
after_claim-Unused left id [] h = tt
after_claim-Unused left id (n ∷ ns) h = elim (Bool-cases (is_waiting n && ltb 0 left)) [
  | inl yes_ ↦ rw yes_ (h.0, after_claim-Unused (left - 1) id ns h.1)
  | inr no_ ↦ rw no_ (h.0, after_claim-Unused left id ns h.1)
]

-- A notice in front that is not of the batch stays as it is.
finish_each-front :
    (m : Mailer) (files : List Attachment) (n : NoticeRecord) (bs ns : List NoticeRecord)
    → Unused n.id bs
    → finish_each m files bs (n ∷ ns) ≡ n ∷ finish_each m files bs ns
unfolding finish_each finish_notice
finish_each-front m files n [] ns h = refl
finish_each-front m files n (b ∷ bs) ns h =
    rw (==-differs n.id b.id (λ e. h.0 (sym e)))
      (finish_each-front m files n bs (finish_notice b.id (failure_of m files b) m.now ns) h.1)

finished-backlog :
    (failure : String) (now : ℕ) (n : NoticeRecord) (ns : List NoticeRecord)
    → is_waiting n ≡ true
    → outbox_backlog (finished n.id failure now n ∷ ns)
      ≡ (if str_eq failure "" then outbox_backlog ns else outbox_backlog ns + 1)
unfolding outbox_backlog
finished-backlog failure now n ns waits =
    rw ((==_iff n.id n.id).1 refl) (elim (Bool-cases (str_eq failure "")) [
      | inl done ↦ rw done refl
      | inr failed ↦ rw (failed, waits) refl
    ])

taken-backlog :
    (m : Mailer) (files : List Attachment) (n : NoticeRecord) (bs ns : List NoticeRecord)
    → is_waiting n ≡ true
    → Unused n.id bs
    → Unused n.id ns
    → outbox_backlog (finish_each m files (n ∷ bs) (n ∷ ns)) + accepted m files (n ∷ bs)
      ≡ outbox_backlog (finish_each m files bs ns) + accepted m files bs + 1
unfolding accepted finish_each finish_notice
taken-backlog m files n bs ns waits hb hn =
    let f = failure_of m files n in
    let done = finished n.id f m.now n in
    let front : finish_each m files bs (done ∷ ns) ≡ done ∷ finish_each m files bs ns =
      finish_each-front m files done bs ns (rw ((finished-fields n.id f m.now n).0) hb) in
    rw
      (
        finish_notice-Unused n.id f m.now ns hn,
        front,
        finished-backlog f m.now n (finish_each m files bs ns) waits,
      )
      (elim (Bool-cases (str_eq f "")) [
        | inl sent ↦ rw sent (omega arith)
        | inr failed ↦ rw failed (omega arith)
      ])

finish_each-backlog :
    (m : Mailer) (files : List Attachment) (left : ℕ) (ns : List NoticeRecord)
    → Distinct ns
    → outbox_backlog (finish_each m files (claimed left ns) (after_claim left ns))
        + accepted m files (claimed left ns)
      ≡ outbox_backlog ns
unfolding claimed after_claim outbox_backlog accepted finish_each
finish_each-backlog m files left [] d = refl
finish_each-backlog m files left (n ∷ ns) d = elim (Bool-cases (is_waiting n && ltb 0 left)) [
  | inl yes_ ↦
      let waits : is_waiting n ≡ true = ground arith in
      rw (yes_, waits)
        (taken-backlog m files (attempted n) (claimed (left - 1) ns) (after_claim (left - 1) ns)
            waits (claimed-Unused (left - 1) n.id ns d.0)
            (after_claim-Unused (left - 1) n.id ns d.0)
          ∙ ap (λ k. k + 1) (finish_each-backlog m files (left - 1) ns d.1))
  | inr no_ ↦ rw no_ (
      rw
        (finish_each-front m files n (claimed left ns) (after_claim left ns)
          (claimed-Unused left n.id ns d.0))
        (let rest = finish_each-backlog m files left ns d.1 in
          elim (Bool-cases (is_waiting n)) [
            | inl waits ↦ rw waits (omega (arith, rest))
            | inr idle ↦ rw idle rest
          ]))
]

-- In an outbox of distinct notices, if no error has an empty text, a pass takes the backlog down by as
-- many as those notices of its batch whose document is readable and whose email, to the recipient and
-- with the notice's files, the mailer accepts, and by no others.
pub pass-backlog :
    {N : Type 0} (m : Mailer) (db : Db N)
    → Distinct db.notices
    → ((e : GoError) → m.message e ≢ "")
    → (k : ℕ) × GoOut m db.attachments (claimed 20 db.notices) k
      × (outbox_backlog (pass m db).1.notices + k ≡ outbox_backlog db.notices)
unfolding pass
pass-backlog m db d says = (
  accepted m db.attachments (claimed 20 db.notices),
  accepted-GoOut m db.attachments (claimed 20 db.notices) says,
  rw
      (deliver_each-notices m (claimed 20 db.notices)
        (record db { notices = after_claim 20 db.notices }))
      (finish_each-backlog m db.attachments 20 db.notices d),
)
