-- ===== src/Application/Notices/Laws.antt =====
-- Which notices a transition sends (application/service.go).
use thesis_dispute_engine.Prelude.{
  ℕ, suc, String, ◌≡◌, refl, ap, sym, ◌∙◌, ◌≢◌, ◌⊎◌, inl, inr, none, some, Option-cases, List, [],
  ◌∷◌, ◌++◌, str_eq, eq_iff, arith, All, In, Bool-cases,
}
use thesis_dispute_engine.Prelude.Decimal.{Decimals}
use thesis_dispute_engine.Result.{Result, ok, ok-injective}
use thesis_dispute_engine.Domain.Vocabulary.{State, NoticeKind, Channel, email, letter}
use thesis_dispute_engine.Domain.Regime.{Rules, rules_for}
use thesis_dispute_engine.Domain.Notice.{notices_for, channels_for}
use thesis_dispute_engine.Application.Records.{DisputeRecord, NoticeRecord, AccountRecord}
use thesis_dispute_engine.Application.Store.{
  Db, Caller, lift, found, get_dispute, get_transaction, attempt, gets, modify, ◌>>◌, >>=-returns,
  lift-returns,
}
use thesis_dispute_engine.Application.Rows.{
  settle_deadline, list_deadlines, list_ledger, get_questionnaire,
}
use thesis_dispute_engine.Application.Money.Laws.{append_assoc, append-nil}
use thesis_dispute_engine.Application.Frame.Reads.{notice_facts-Reads}
use thesis_dispute_engine.Application.Frame.Yields.{pure-Yields, >>=-Yields, Yields-returns}
use thesis_dispute_engine.Application.Notices.{
  gathered, NoticeFacts, Writer, asked, notice_of, notice_facts, recipient_of, send_one, notify_one,
  send_each, notify_each, notify_kinds, notify, is_acknowledgement,
}
use thesis_dispute_engine.Application.NoticeRows.{
  get_account, tenant_name, insert_notice, with_notice,
}

All-map :
    {A : Type 0} {P Q : A → Type 0} → ((x : A) → P x → Q x) → (xs : List A) → All P xs → All Q xs
All-map f [] h = tt
All-map f (x ∷ xs) h = (f x h.0, All-map f xs h.1)

All-append : {A : Type 0} (P : A → Type 0) (xs ys : List A) → All P xs → All P ys → All P (xs ++ ys)
All-append P [] ys h k = k
All-append P (x ∷ xs) ys h k = (h.0, All-append P xs ys h.1 k)

-- The rows that a call added, each of which is `P`.
pub record Adds {N : Type 0} (P : NoticeRecord → Type 0) (db db' : Db N) : Type 0 where
  pub added : List NoticeRecord
  pub written : db'.notices ≡ db.notices ++ added
  pub each : All P added

Adds-none :
    {N : Type 0} {P : NoticeRecord → Type 0} (db db' : Db N)
    → db'.notices ≡ db.notices
    → Adds P db db'
Adds-none db db' h = record { added = []; written = h ∙ sym (append-nil db.notices); each = tt }

Adds-trans :
    {N : Type 0} {P : NoticeRecord → Type 0} {db db1 db2 : Db N}
    → Adds P db db1
    → Adds P db1 db2
    → Adds P db db2
Adds-trans {N} {P} {db} {db1} {db2} a b = record {
  added = a.added ++ b.added;
  written =
      b.written ∙ ap (λ ns. ns ++ b.added) a.written ∙ append_assoc db.notices a.added b.added;
  each = All-append P a.added b.added a.each b.each;
}

module _ (dec : Decimals) where
  open dec use {Num}

  -- An email to the first address, still to be sent, or a letter to the second, complete at once.
  abbrev pub GoesTo : String → String → ℕ → NoticeRecord → Type 0
  GoesTo mailbox post_box now n =
      ((n.channel ≡ email) × (n.recipient ≡ mailbox) × (n.sent_at ≡ none))
      ⊎ ((n.channel ≡ letter) × (n.recipient ≡ post_box) × (n.sent_at ≡ some now))

  -- A notice of one of the kinds, on a channel that the kind goes out on, with an address there.
  abbrev pub IsOwed :
      String
      → ℕ
      → ℕ
      → String
      → String
      → (NoticeKind → List Channel)
      → List NoticeKind
      → NoticeRecord
      → Type 0
  IsOwed id seq now mailbox post_box channels kinds n =
      (n.dispute_id ≡ id)
      × (n.seq ≡ seq)
      × In n.kind kinds
      × In n.channel (channels n.kind)
      × (n.recipient ≢ "")
      × GoesTo mailbox post_box now n

  goes :
      (f : NoticeFacts Num) (rec : DisputeRecord Num) (seq now : ℕ) (kind : NoticeKind)
      (subject body : String) (ch : Channel)
      → GoesTo f.email f.postal_address now (notice_of dec rec seq now f kind subject body ch)
  goes f rec seq now kind subject body email = inl (refl, refl, refl)
  goes f rec seq now kind subject body letter = inr (refl, refl, refl)

  -- The account of the dispute, as the store has it.
  abbrev pub IsAccount : Db Num → DisputeRecord Num → AccountRecord → Type 0
  IsAccount db rec account = db.accounts rec.account_id ≡ some account

  tenant_name-returns :
      (c : Caller Num) (bank : String) (db db' : Db Num)
      → tenant_name c db ≡ (ok bank, db')
      → db ≡ db'
  unfolding tenant_name
  tenant_name-returns c bank db db' h = ap (λ (x : Result String × Db Num). x.1) h

  get_account-returns :
      (id : String) (account : AccountRecord) (db db' : Db Num)
      → get_account id db ≡ (ok account, db')
      → db.accounts id ≡ some account
  unfolding get_account
  get_account-returns id account db db' h = elim (Option-cases (db.accounts id)) [
    | inl missing ↦ absurd (let k = rw missing at h in cc)
    | inr (a, there) ↦
        there
        ∙ ap some (ok-injective (ap (λ (x : Result AccountRecord × Db Num). x.0) (rw there at h)))
  ]

  notice_facts-returns :
      (c : Caller Num) (rec : DisputeRecord Num) (now : ℕ) (f : NoticeFacts Num) (db db' : Db Num)
      → notice_facts dec c rec now db ≡ (ok f, db')
      → (account : AccountRecord) × IsAccount db rec account
        × (f.email ≡ account.email)
        × (f.postal_address ≡ account.postal_address)
  unfolding notice_facts
  notice_facts-returns c rec now f db db' h =
      let (bank, db1, named, h1) = >>=-returns (tenant_name c) _ h in
      let (account, db2, got, h2) = >>=-returns (get_account rec.account_id) _ h1 in
      let here = tenant_name-returns c bank db db1 named in
      let (mail, post) =
        Yields-returns
          (>>=-Yields (get_transaction c rec.transaction_id) (λ txn.
            >>=-Yields (list_deadlines c rec.id) (λ clocks.
              >>=-Yields (list_ledger c rec.id) (λ ledger.
                >>=-Yields (attempt (get_questionnaire c rec.id)) (λ q.
                  >>=-Yields (lift (asked q)) (λ questions.
                    pure-Yields
                      {P = λ (x : NoticeFacts Num).
                        (x.email ≡ account.email) × (x.postal_address ≡ account.postal_address)}
                      {a = gathered dec rec now bank account txn clocks ledger questions}
                      (refl, refl)))))))
          h2 in
      (
        account,
        ap (λ (x : Db Num). x.accounts rec.account_id) here
            ∙ get_account-returns rec.account_id account db1 db2 got,
        mail,
        post,
      )

  insert_notice-Adds :
      (c : Caller Num) (P : NoticeRecord → Type 0) (n : NoticeRecord) (id : ℕ) (db db' : Db Num)
      → ((k : ℕ) (t : String) → P (record n { id = k; tenant_id = t }))
      → insert_notice c n db ≡ (ok id, db')
      → Adds P db db'
  unfolding insert_notice get_dispute
  insert_notice-Adds c P n id db db' p h =
      let (r, f, k) =
        lift-returns (found c (db.disputes n.dispute_id))
          (λ _. modify (with_notice c n) >> gets (λ db. db.next_notice)) h in
      rw (← ap (λ x. x.1) k) (record {
        added = record n { id = suc db.next_notice; tenant_id = c.tenant } ∷ [];
        written = refl;
        each = (p _ _, tt);
      })

  -- The channels of one kind.
  send_each-Adds :
      (c : Caller Num) (rec : DisputeRecord Num) (seq now : ℕ) (f : NoticeFacts Num)
      (kind : NoticeKind) (subject body : String) (P : NoticeRecord → Type 0) (chs : List Channel)
      (db db' : Db Num)
      → ((ch : Channel) (k : ℕ) (t : String)
          → In ch chs
          → recipient_of ch f ≢ ""
          → P (record (notice_of dec rec seq now f kind subject body ch) { id = k; tenant_id = t }))
      → send_each dec c rec seq now f kind subject body chs db ≡ (ok tt, db')
      → Adds P db db'
  unfolding send_each
  send_each-Adds c rec seq now f kind subject body P [] db db' p h =
      Adds-none db db' (ap (λ (x : Result (Unit {0}) × Db Num). x.1.notices) (sym h))
  send_each-Adds c rec seq now f kind subject body P (ch ∷ chs) db db' p h =
      let (u, db1, sent, h1) =
        >>=-returns (send_one dec c rec seq now f kind subject body ch) _ h in
      let rest =
        send_each-Adds c rec seq now f kind subject body P chs db1 db'
          (λ ch' k t i. p ch' k t (inr i)) h1 in
      elim (Bool-cases (str_eq (recipient_of ch f) "")) [
        | inl none_ ↦
            Adds-trans
              (Adds-none db db1
                (ap (λ (x : Result (Unit {0}) × Db Num). x.1.notices) (sym (rw none_ at sent))))
              rest
        | inr some_ ↦
            let (id, db2, put_, h2) =
              >>=-returns (insert_notice c (notice_of dec rec seq now f kind subject body ch)) _
                (rw some_ at sent) in
            let addressed : recipient_of ch f ≢ "" =
              ground (arith, eq_iff (recipient_of ch f) "") in
            let one =
              insert_notice-Adds c P (notice_of dec rec seq now f kind subject body ch) id db db2
                (λ k t. p ch k t (inl refl) addressed) put_ in
            Adds-trans
              (Adds-trans one
                (Adds-none db2 db1 (ap (λ (x : Result (Unit {0}) × Db Num). x.1.notices) (sym h2))))
              rest
      ]

  -- The body of the outer loop.
  notify_one-Adds :
      (c : Caller Num) (w : Writer Num) (rec : DisputeRecord Num) (seq now : ℕ)
      (f : NoticeFacts Num) (channels : NoticeKind → List Channel) (kinds : List NoticeKind)
      (kind : NoticeKind) (db db' : Db Num)
      → In kind kinds
      → notify_one dec c w rec seq now f channels kind db ≡ (ok tt, db')
      → Adds (IsOwed rec.id seq now f.email f.postal_address channels kinds) db db'
  unfolding settle_deadline get_dispute
  notify_one-Adds c w rec seq now f channels kinds kind db db' here h =
      let doc = w.compose kind f.facts in
      let (body, made, h1) = lift-returns (w.marshal doc) _ h in
      let (u, db1, sent, h2) =
        >>=-returns (send_each dec c rec seq now f kind doc.subject body (channels kind)) _ h1 in
      let sends =
        send_each-Adds c rec seq now f kind doc.subject body
          (IsOwed rec.id seq now f.email f.postal_address channels kinds) (channels kind) db db1
          (λ ch k t there addressed.
            (refl, refl, here, there, addressed, goes f rec seq now kind doc.subject body ch))
          sent in
      elim (Bool-cases (is_acknowledgement kind)) [
        | inl ack ↦
            let (r, read, settled) =
              lift-returns (found c (db1.disputes rec.id)) _ (rw ack at h2) in
            Adds-trans sends (
              Adds-none db1 db'
                (ap (λ (x : Result (Unit {0}) × Db Num). x.1.notices) (sym settled)))
        | inr other ↦ Adds-trans sends (
            Adds-none db1 db'
              (ap (λ (x : Result (Unit {0}) × Db Num). x.1.notices) (sym (rw other at h2))))
      ]

  notify_each-Adds :
      (c : Caller Num) (w : Writer Num) (rec : DisputeRecord Num) (seq now : ℕ)
      (f : NoticeFacts Num) (channels : NoticeKind → List Channel) (kinds : List NoticeKind)
      (left : List NoticeKind) (db db' : Db Num)
      → ((k : NoticeKind) → In k left → In k kinds)
      → notify_each dec c w rec seq now f channels left db ≡ (ok tt, db')
      → Adds (IsOwed rec.id seq now f.email f.postal_address channels kinds) db db'
  unfolding notify_each
  notify_each-Adds c w rec seq now f channels kinds [] db db' sub h =
      Adds-none db db' (ap (λ (x : Result (Unit {0}) × Db Num). x.1.notices) (sym h))
  notify_each-Adds c w rec seq now f channels kinds (k ∷ ks) db db' sub h =
      let (u, db1, one, h1) = >>=-returns (notify_one dec c w rec seq now f channels k) _ h in
      Adds-trans (notify_one-Adds c w rec seq now f channels kinds k db db1 (sub k (inl refl)) one)
        (notify_each-Adds c w rec seq now f channels kinds ks db1 db' (λ x i. sub x (inr i)) h1)

  -- What is owed goes to the addresses that the account of the dispute has.
  abbrev pub IsOwedTo :
      Db Num
      → DisputeRecord Num
      → ℕ
      → ℕ
      → (NoticeKind → List Channel)
      → List NoticeKind
      → NoticeRecord
      → Type 0
  IsOwedTo db rec seq now channels kinds n =
      (account : AccountRecord) × IsAccount db rec account
      × IsOwed rec.id seq now account.email account.postal_address channels kinds n

  notify_kinds-Adds :
      (c : Caller Num) (w : Writer Num) (rec : DisputeRecord Num) (seq now : ℕ)
      (channels : NoticeKind → List Channel) (kinds : List NoticeKind) (db db' : Db Num)
      → notify_kinds dec c w rec seq now channels kinds db ≡ (ok tt, db')
      → Adds (IsOwedTo db rec seq now channels kinds) db db'
  notify_kinds-Adds c w rec seq now channels [] db db' h =
      Adds-none db db' (ap (λ (x : Result (Unit {0}) × Db Num). x.1.notices) (sym h))
  notify_kinds-Adds c w rec seq now channels (k ∷ ks) db db' h =
      let (f, db1, gathered, h1) = >>=-returns (notice_facts dec c rec now) _ h in
      let (account, there, mail, post) = notice_facts-returns c rec now f db db1 gathered in
      let same : db1.notices ≡ db.notices =
        ap (λ (x : Result (NoticeFacts Num) × Db Num). x.1.notices) (sym gathered)
        ∙ ap (λ (d : Db Num). d.notices) ((notice_facts-Reads dec c rec now).same db) in
      let adds : Adds (IsOwed rec.id seq now account.email account.postal_address channels (k ∷ ks))
          db1 db' =
        rw (← mail, ← post)
          (notify_each-Adds c w rec seq now f channels (k ∷ ks) (k ∷ ks) db1 db' (λ x i. i) h1) in
      Adds-trans (Adds-none db db1 same) (record {
        added = adds.added;
        written = adds.written;
        each = All-map (λ n o. (account, there, o)) adds.added adds.each;
      })

  -- Whenever the notices of a transition go out, what is added to the outbox is only notices of the
  -- dispute, under the number of the event, of kinds that the entered state owes under the rules of
  -- the regime, each on a channel that the regime requires for its kind: an email to the address that
  -- the dispute's account has, still to be sent, or a letter to its postal address, complete at once;
  -- and none goes to an empty address.
  pub notify-Adds :
      (c : Caller Num) (w : Writer Num) (rec : DisputeRecord Num) (entered : State) (seq now : ℕ)
      (db db' : Db Num)
      → notify dec c w rec entered seq now db ≡ (ok tt, db')
      → (r : Rules) × (rules_for rec.regime ≡ ok r)
        × Adds (IsOwedTo db rec seq now (channels_for r) (notices_for r entered)) db db'
  unfolding notify
  notify-Adds c w rec entered seq now db db' h =
      let (r, known, h1) = lift-returns (rules_for rec.regime) _ h in
      (
        r,
        known,
        notify_kinds-Adds c w rec seq now (channels_for r) (notices_for r entered) db db' h1,
      )
