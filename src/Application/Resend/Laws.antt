-- ===== src/Application/Resend/Laws.antt =====
-- What sending a notice again puts in the outbox (application/compose.go).
use thesis_dispute_engine.Prelude.{
  String, suc, ℕ, ◌⊎◌, [], ◌∷◌, ◌++◌, Option-cases, both, ◌≡◌, refl, sym, ap, ◌∙◌, ◌≢◌, inl, inr,
  true, Option, none, some, arith, str_eq, eq_iff, Bool-cases,
}
use thesis_dispute_engine.Prelude.Decimal.{Decimals}
use thesis_dispute_engine.Result.{ok}
use thesis_dispute_engine.Domain.Vocabulary.{Channel}
use thesis_dispute_engine.Application.Records.{NoticeRecord, AccountRecord, DisputeRecord, Decision}
use thesis_dispute_engine.Application.Store.{
  Db, Caller, gets, modify, ◌>>◌, lift-returns, ◌>>=◌, found, found-eq-ok, get_dispute,
  with_tx-eq-ok, >>=-returns,
}
use thesis_dispute_engine.Application.NoticeRows.{
  get_account, get_notice, insert_notice, notice_with, notices_of, with_notice,
}
use thesis_dispute_engine.Application.Frame.Reads.{
  Reads-returns, authorize_dispute-Reads, view_with-Reads, get_account-Reads, get_notice-Reads,
  get_notice-returns, get_account-returns,
}
use thesis_dispute_engine.Application.Reassign.{Policy}
use thesis_dispute_engine.Application.ViewRecords.{DisputeView}
use thesis_dispute_engine.Application.Views.{view_with}
use thesis_dispute_engine.Application.Views.{source_of}
use thesis_dispute_engine.Application.Resend.{
  ResendInput, is_resendable, resent, authorize_dispute, queue_resend, resend_tx, resend, is_email,
  is_set, resend_checked, resend_found,
}

is_email-eq : (ch : Channel) → is_email ch ≡ true → ch ≡ Channel.email
is_email-eq Channel.email h = refl
is_email-eq Channel.letter h = absurd (cc)

is_set-some : (o : Option ℕ) → is_set o ≡ true → (t : ℕ) × (o ≡ some t)
is_set-some none h = absurd (cc)
is_set-some (some t) h = (t, refl)

-- The first of the chain that a notice is of.
abbrev pub Leads : NoticeRecord → NoticeRecord → Type 0
Leads orig n =
    ((orig.resend_of ≡ none) × (n.resend_of ≡ some orig.id))
    ⊎ ((r : ℕ) × (orig.resend_of ≡ some r) × (n.resend_of ≡ some r))

-- An email of now, still to be sent, with the words of the first to the address that the account has.
pub record SendsAgain (inp : ResendInput) (now : ℕ) (orig : NoticeRecord) (account : AccountRecord)
    (of_dispute : String) (n : NoticeRecord) : Type 0 where
  pub dispute_id : n.dispute_id ≡ of_dispute
  pub recipient : n.recipient ≡ account.email
  pub channel : n.channel ≡ Channel.email
  pub sent_at : n.sent_at ≡ none
  pub attempts : n.attempts ≡ 0
  pub created_at : n.created_at ≡ now
  pub actor : n.actor ≡ inp.actor
  pub seq : n.seq ≡ orig.seq
  pub kind : n.kind ≡ orig.kind
  pub subject : n.subject ≡ orig.subject
  pub document : n.document ≡ orig.document
  pub leads : Leads orig n

resent-SendsAgain :
    (inp : ResendInput) (now : ℕ) (orig : NoticeRecord) (account : AccountRecord)
    (dispute_id tenant : String) (k : ℕ)
    → SendsAgain inp now orig account dispute_id
        (record (resent inp now orig account dispute_id) { id = k; tenant_id = tenant })
resent-SendsAgain inp now orig account dispute_id tenant k = record {
  dispute_id = refl;
  recipient = refl;
  channel = refl;
  sent_at = refl;
  attempts = refl;
  created_at = refl;
  actor = refl;
  seq = refl;
  kind = refl;
  subject = refl;
  document = refl;
  leads = elim (Option-cases orig.resend_of) [
    | inl e ↦ inl (e, ap (λ o. some (source_of orig o)) e)
    | inr (r, e) ↦ inr (r, e, ap (λ o. some (source_of orig o)) e)
  ];
}

module _ (dec : Decimals) where
  open dec use {Num}

  insert_notice-returns :
      (c : Caller Num) (n : NoticeRecord) (id : ℕ) (db db' : Db Num)
      → insert_notice c n db ≡ (ok id, db')
      → db' ≡ with_notice c n db
  unfolding insert_notice get_dispute
  insert_notice-returns c n id db db' h =
      let (r, f, k) =
        lift-returns (found c (db.disputes n.dispute_id))
          (λ _. modify (with_notice c n) >> gets (λ db. db.next_notice)) {db = db} h in
      sym (ap (λ x. x.1) k)

  queue_resend-returns :
      (c : Caller Num) (policy : Policy Num) (view_now : ℕ) (inp : ResendInput)
      (rec : DisputeRecord Num) (orig : NoticeRecord) (account : AccountRecord) (db db' : Db Num)
      (v : DisputeView Num)
      → queue_resend dec c policy view_now inp rec orig account db ≡ (ok v, db')
      → (account.email ≢ "") × (db' ≡ with_notice c (resent inp policy.now orig account rec.id) db)
  queue_resend-returns c policy view_now inp rec orig account db db' v h =
      elim (Bool-cases (str_eq account.email "")) [
        | inl none_ ↦ let k = rw none_ at h in absurd (cc)
        | inr some_ ↦
            let (id, db1, put_, k) =
              >>=-returns (insert_notice c (resent inp policy.now orig account rec.id))
                (λ _. view_with dec c policy view_now rec none) {db = db} (rw some_ at h) in
            (
              ground (arith, eq_iff account.email ""),
              sym (ap (λ x. x.1) k)
                  ∙ (view_with-Reads dec c policy view_now rec none).same db1
                  ∙ insert_notice-returns c (resent inp policy.now orig account rec.id) id db db1
                      put_,
            )
      ]

  resend_checked-returns :
      (c : Caller Num) (policy : Policy Num) (view_now : ℕ) (inp : ResendInput)
      (rec : DisputeRecord Num) (orig : NoticeRecord) (db db' : Db Num) (v : DisputeView Num)
      → resend_checked dec c policy view_now inp rec orig db ≡ (ok v, db')
      → (is_resendable orig ≡ true)
        × ((get_account rec.account_id >>= queue_resend dec c policy view_now inp rec orig) db
            ≡ (ok v, db'))
  resend_checked-returns c policy view_now inp rec orig db db' v h =
      elim (Bool-cases (is_resendable orig)) [
        | inl fits ↦ (fits, rw fits at h)
        | inr refused ↦ let k = rw refused at h in absurd (cc)
      ]

  pub record Queued (c : Caller Num) (policy : Policy Num) (inp : ResendInput) (db db' : Db Num)
      : Type 0 where
    pub rec : DisputeRecord Num
    pub orig : NoticeRecord
    pub account : AccountRecord
    pub held : db.disputes inp.dispute_id ≡ some rec
    pub tenant : rec.tenant_id ≡ c.tenant
    pub allowed :
        (d : Decision) × (authorize_dispute dec c policy "resend-notice" rec.id db ≡ (ok d, db))
    pub kept : notice_with (notices_of db.notices rec.id) inp.notice_id ≡ some orig
    pub email : orig.channel ≡ Channel.email
    pub sent : (t : ℕ) × (orig.sent_at ≡ some t)
    pub owner : db.accounts rec.account_id ≡ some account
    pub address : account.email ≢ ""
    pub again :
        (n : NoticeRecord) × (db'.notices ≡ db.notices ++ n ∷ [])
        × SendsAgain inp policy.now orig account rec.id n
    pub added : db' ≡ with_notice c (resent inp policy.now orig account rec.id) db

  -- A resend that returned was asked for a dispute of the caller's tenant that is stored, was allowed
  -- by the policies, and named one of the dispute's notices, which is an email that was sent. The
  -- account has an address. The store has one more notice, an email to that address with the words of
  -- the one that was named, which points at the first of its chain, and nothing else is different.
  pub resend-Queued :
      (c : Caller Num) (policy : Policy Num) (view_now : ℕ) (inp : ResendInput) (db db' : Db Num)
      (v : DisputeView Num)
      → resend dec c policy view_now inp db ≡ (ok v, db')
      → Queued c policy inp db db'
  unfolding resend resend_tx get_dispute
  resend-Queued c policy view_now inp db db' v h =
      let run = with_tx-eq-ok (resend_tx dec c policy view_now inp) v db db' h in
      let (rec, read, h1) =
        lift-returns (found c (db.disputes inp.dispute_id)) (resend_found dec c policy view_now inp)
          {db = db} run in
      let (held, tenant) = found-eq-ok c (db.disputes inp.dispute_id) rec read in
      let (d, allowed, h2) =
        Reads-returns (authorize_dispute-Reads dec c policy "resend-notice" rec.id)
          (λ _. get_notice c rec.id inp.notice_id >>= resend_checked dec c policy view_now inp rec)
          {db = db} h1 in
      let (orig, mine, h3) =
        Reads-returns (get_notice-Reads dec c rec.id inp.notice_id)
          (resend_checked dec c policy view_now inp rec) {db = db} h2 in
      let (fits, h4) = resend_checked-returns c policy view_now inp rec orig db db' v h3 in
      let (account, owner, h5) =
        Reads-returns (get_account-Reads rec.account_id)
          (queue_resend dec c policy view_now inp rec orig) {db = db} h4 in
      let (address, added) =
        queue_resend-returns c policy view_now inp rec orig account db db' v h5 in
      let (email, sent) = both (is_email orig.channel) (is_set orig.sent_at) fits in
      record {
        rec = rec;
        orig = orig;
        account = account;
        held = held;
        tenant = (eq_iff rec.tenant_id c.tenant).0 tenant;
        allowed = (d, allowed);
        kept = get_notice-returns c rec.id inp.notice_id orig db db mine;
        email = is_email-eq orig.channel email;
        sent = is_set-some orig.sent_at sent;
        owner = get_account-returns rec.account_id account db db owner;
        address = address;
        again = (
          _,
          ap (λ (d : Db Num). d.notices) added,
          resent-SendsAgain inp policy.now orig account rec.id c.tenant (suc db.next_notice),
        );
        added = added;
      }
