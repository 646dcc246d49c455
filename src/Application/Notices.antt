-- ===== src/Application/Notices.antt =====
-- The notices of a dispute (application/service.go, application/ports.go, apptest/memstore.go): what a
-- notice may say, and what entering a state sends. The words (package notice) and encoding/json are
-- parameters.
pub mod Laws
use thesis_dispute_engine.Prelude.{
  ℕ, suc, String, Bool, true, false, ◌&&◌, Option, none, some, List, [], ◌∷◌, ◌++◌, str_eq, ◌==◌,
  if◌then◌else◌,
}
use thesis_dispute_engine.Prelude.Decimal.{Decimals, is_positive}
use thesis_dispute_engine.Result.{Result, ok, err}
use thesis_dispute_engine.Errs.{GoError, classified, is}
use thesis_dispute_engine.Domain.Vocabulary.{
  Regime, State, Reason, NoticeKind, Channel, email, letter, DeadlineKind, PostingKind,
}
use thesis_dispute_engine.Domain.Regime.{rules_for}
use thesis_dispute_engine.Domain.Deadline.{Deadline, is_open, is_resolution}
use thesis_dispute_engine.Domain.Ledger.{Posting}
use thesis_dispute_engine.Domain.QuestionSets.{Question}
use thesis_dispute_engine.Domain.Notice.{notices_for, channels_for}
use thesis_dispute_engine.Application.Records.{
  DisputeRecord, TransactionRecord, AccountRecord, NoticeRecord, LedgerEntry, Questionnaire,
  err_not_found,
}
use thesis_dispute_engine.Application.Store.{
  Db, Caller, Tx, pure, fail, lift, gets, modify, attempt, ◌>>=◌, ◌>>◌, get_dispute,
  get_transaction,
}
use thesis_dispute_engine.Application.Rows.{
  list_deadlines, list_ledger, get_questionnaire, settle_deadline, or_not_found,
}
use thesis_dispute_engine.Application.Money.{postings_of}
use thesis_dispute_engine.Application.Balances.{Balances, totals}
use thesis_dispute_engine.Application.NoticeRows.{
  get_account, tenant_name, with_notice, insert_notice, notices_of, notice_with, list_notices,
  get_notice,
}

pub data Outcome : Type 0 where
  credited denied reversed recovered : Outcome

-- notice.Facts
pub record Facts (N : Type 0) : Type 0 where
  pub bank : String
  pub customer : String
  pub dispute_id : String
  pub reason : Reason
  pub regime : Regime
  pub merchant : String
  pub amount : N
  pub currency : String
  pub credited : N
  pub occurred_at : ℕ
  pub opened_at : ℕ
  pub now : ℕ
  pub resolution_due : Option ℕ
  pub questions : List Question
  pub outcome : Outcome
  pub reversal_amount : N

pub record NoticeFacts (N : Type 0) : Type 0 where
  pub facts : Facts N
  pub email : String
  pub postal_address : String

-- notice.Document
pub record Document : Type 0 where
  pub bank : String
  pub subject : String
  pub greeting : String
  pub paragraphs : List String
  pub closing : String
  pub basis : String

-- notice.Compose and json.Marshal
pub record Writer (N : Type 0) : Type 0 where
  pub compose : NoticeKind → Facts N → Document
  pub marshal : Document → Result String

abbrev is_reversal : PostingKind → Bool
is_reversal PostingKind.provisional_credit_reversal = true
is_reversal _ = false

abbrev pub is_acknowledgement : NoticeKind → Bool
is_acknowledgement NoticeKind.acknowledgement = true
is_acknowledgement _ = false

-- The loop of `facts` over the clocks: the last open resolution clock's due time.
unfoldable pub resolution_due_from : Option ℕ → List Deadline → Option ℕ
resolution_due_from due [] = due
resolution_due_from due (d ∷ ds) =
    resolution_due_from (if is_resolution d.kind && is_open d then some d.due_at else due) ds

-- The loop of `facts` over the ledger: the last reversal.
unfoldable pub reversal_from : {N : Type 0} → N → List (Posting N) → N
reversal_from amount [] = amount
reversal_from amount (p ∷ ps) = reversal_from (if is_reversal p.kind then p.amount else amount) ps

-- A questionnaire that was not sent asks nothing.
abbrev pub asked : Result Questionnaire → Result (List Question)
asked (ok q) = ok q.questions
asked (err e) = if is e err_not_found then ok [] else err e

abbrev pub recipient_of : {N : Type 0} → Channel → NoticeFacts N → String
recipient_of email f = f.email
recipient_of letter f = f.postal_address

-- A letter exists the moment it is composed.
abbrev pub sent_of : Channel → ℕ → Option ℕ
sent_of email now = none
sent_of letter now = some now

module _ (dec : Decimals) where
  open dec use {Num, zero_num}

  abbrev pub outcome_of : Num → Balances Num → Outcome
  outcome_of reversal bal =
      if is_positive dec reversal
      then Outcome.reversed
      else if is_positive dec bal.customer && is_positive dec bal.recovery
      then Outcome.recovered
      else if is_positive dec bal.customer
      then Outcome.credited
      else Outcome.denied

  -- What `facts` returns of what it read.
  abbrev pub gathered :
      DisputeRecord Num
      → ℕ
      → String
      → AccountRecord
      → TransactionRecord Num
      → List Deadline
      → List (LedgerEntry Num)
      → List Question
      → NoticeFacts Num
  gathered rec now bank account txn deadlines ledger questions =
      let ps = postings_of ledger in
      let bal = totals dec ps in
      let reversal = reversal_from zero_num ps in
      record {
        facts = record {
          bank = bank;
          customer = account.holder;
          dispute_id = rec.id;
          reason = rec.reason;
          regime = rec.regime;
          merchant = txn.merchant;
          amount = rec.disputed_amount;
          currency = rec.currency;
          credited = bal.customer;
          occurred_at = txn.occurred_at;
          opened_at = rec.opened_at;
          now = now;
          resolution_due = resolution_due_from none deadlines;
          questions = questions;
          outcome = outcome_of reversal bal;
          reversal_amount = reversal;
        };
        email = account.email;
        postal_address = account.postal_address;
      }

  unfoldable pub notice_facts : Caller Num → DisputeRecord Num → ℕ → Tx Num (NoticeFacts Num)
  unfolding resolution_due_from reversal_from
  notice_facts c rec now = do
    bank ← tenant_name c
    account ← get_account rec.account_id
    txn ← get_transaction c rec.transaction_id
    deadlines ← list_deadlines c rec.id
    ledger ← list_ledger c rec.id
    q ← attempt (get_questionnaire c rec.id)
    questions ← lift (asked q)
    pure (gathered rec now bank account txn deadlines ledger questions)

  abbrev pub notice_of :
      DisputeRecord Num
      → ℕ
      → ℕ
      → NoticeFacts Num
      → NoticeKind
      → String
      → String
      → Channel
      → NoticeRecord
  notice_of rec seq now f kind subject body ch = record {
    id = 0;
    tenant_id = "";
    dispute_id = rec.id;
    seq = seq;
    kind = kind;
    channel = ch;
    recipient = recipient_of ch f;
    subject = subject;
    document = body;
    created_at = now;
    sent_at = sent_of ch now;
    attempts = 0;
    last_error = none;
    actor = "";
    resend_of = none;
  }

  -- The body of the inner loop of `notify`; a channel without an address is passed over.
  abbrev pub send_one :
      Caller Num
      → DisputeRecord Num
      → ℕ
      → ℕ
      → NoticeFacts Num
      → NoticeKind
      → String
      → String
      → Channel
      → Tx Num (Unit {0})
  send_one c rec seq now f kind subject body ch =
      if str_eq (recipient_of ch f) ""
      then pure tt
      else (insert_notice c (notice_of rec seq now f kind subject body ch) >>= λ _. pure tt)

  unfoldable pub send_each :
      Caller Num
      → DisputeRecord Num
      → ℕ
      → ℕ
      → NoticeFacts Num
      → NoticeKind
      → String
      → String
      → List Channel
      → Tx Num (Unit {0})
  unfolding insert_notice
  send_each c rec seq now f kind subject body [] = pure tt
  send_each c rec seq now f kind subject body (ch ∷ chs) =
      send_one c rec seq now f kind subject body ch
      >> send_each c rec seq now f kind subject body chs

  -- The outer loop of `notify`, and its body.
  abbrev pub notify_one :
      Caller Num
      → Writer Num
      → DisputeRecord Num
      → ℕ
      → ℕ
      → NoticeFacts Num
      → (NoticeKind → List Channel)
      → NoticeKind
      → Tx Num (Unit {0})
  notify_one c w rec seq now f channels kind =
      let doc = w.compose kind f.facts in
      lift (w.marshal doc) >>= λ body.
      send_each c rec seq now f kind doc.subject body (channels kind)
      >> (if is_acknowledgement kind
          then settle_deadline c rec.id DeadlineKind.acknowledge 0 true now
          else pure tt)

  unfoldable pub notify_each :
      Caller Num
      → Writer Num
      → DisputeRecord Num
      → ℕ
      → ℕ
      → NoticeFacts Num
      → (NoticeKind → List Channel)
      → List NoticeKind
      → Tx Num (Unit {0})
  unfolding send_each
  notify_each c w rec seq now f channels [] = pure tt
  notify_each c w rec seq now f channels (kind ∷ kinds) =
      notify_one c w rec seq now f channels kind >> notify_each c w rec seq now f channels kinds

  -- `if len(kinds) == 0 { return nil }`
  abbrev pub notify_kinds :
      Caller Num
      → Writer Num
      → DisputeRecord Num
      → ℕ
      → ℕ
      → (NoticeKind → List Channel)
      → List NoticeKind
      → Tx Num (Unit {0})
  notify_kinds c w rec seq now channels [] = pure tt
  notify_kinds c w rec seq now channels (k ∷ ks) =
      notice_facts c rec now >>= λ f. notify_each c w rec seq now f channels (k ∷ ks)

  unfoldable pub notify :
      Caller Num → Writer Num → DisputeRecord Num → State → ℕ → ℕ → Tx Num (Unit {0})
  unfolding notice_facts notify_each
  notify c w rec entered seq now = do
    r ← lift (rules_for rec.regime)
    notify_kinds c w rec seq now (channels_for r) (notices_for r entered)
