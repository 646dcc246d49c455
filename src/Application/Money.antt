-- ===== src/Application/Money.antt =====
-- post, instructCore and postingsOf of application/service.go, and the router of application/core.go:
-- the movements of an entered state, each on the customer's account carried out by the banking core
-- first. The adapters are parameters: one answers with a receipt, or with an error if it got no
-- answer in time.
pub mod Laws
use thesis_dispute_engine.Prelude.{
  ℕ, String, Bool, true, false, not, ◌||◌, Option, none, some, List, [], ◌∷◌, map, str_eq,
  if◌then◌else◌,
}
use thesis_dispute_engine.Prelude.Decimal.{Decimals}
use thesis_dispute_engine.Result.{Result, ok, err}
use thesis_dispute_engine.Errs.{
  GoError, Error, classified, wrap, with_detail, with_fields, invalid, new,
}
use thesis_dispute_engine.Domain.Vocabulary.{
  Account, customer, PostingKind, SuspenseSettlement, State,
}
use thesis_dispute_engine.Domain.Regime.{Rules, rules_for}
use thesis_dispute_engine.Domain.Lifecycle.{Dispute}
use thesis_dispute_engine.Domain.Ledger.{
  Posting, PostingInput, credit_amount, parse_settlement, postings, suspense_balance,
  err_invalid_liability,
}
use thesis_dispute_engine.Domain.QuestionSets.{Answers}
use thesis_dispute_engine.Application.Records.{
  DisputeRecord, CoreConfig, CoreInstruction, CoreReceipt, LedgerEntry, err_unavailable,
  err_core_declined,
}
use thesis_dispute_engine.Application.Store.{Db, Caller, Tx, pure, lift, ◌>>=◌, ◌>>◌}
use thesis_dispute_engine.Application.Rows.{list_ledger, append_ledger}

-- What an event's payload may say. A model's suggestions are only counted, and are left out.
pub record EventFacts : Type 0 where
  pub liability : Option String
  pub settlement : String
  pub answers : Option Answers
  pub risk_override : String

abbrev pub malformed : GoError
malformed = classified (
    with_fields (new invalid "malformed-request" "the event payload is not an object")
      (record { field = "body.payload"; message = "%s" } ∷ []))

abbrev pub Adapter : Type 0 → Type 0
Adapter N = CoreConfig → CoreInstruction N → Result CoreReceipt

-- What the service is given: the clock's time, the tenant's core, the adapters, the decoder of
-- encoding/json (`none` is its error) and the text of a reference.
pub record Env (N : Type 0) : Type 0 where
  pub now : ℕ
  pub tenant_core : CoreConfig
  pub adapters : String → Option (Adapter N)
  pub unmarshal : String → Option EventFacts
  pub reference : String → ℕ → PostingKind → String

abbrev pub is_customer : Account → Bool
is_customer customer = true
is_customer _ = false

abbrev pub moves_customer : {N : Type 0} → Posting N → Bool
moves_customer p = is_customer p.debit || is_customer p.credit

abbrev pub postings_of : {N : Type 0} → List (LedgerEntry N) → List (Posting N)
postings_of [] = []
postings_of (e ∷ es) = e.posting ∷ postings_of es

-- (CoreRouter).Post, with bookOnly
abbrev pub book_only : {N : Type 0} → CoreInstruction N → CoreReceipt
book_only ins = record {
  rrn = "";
  response_code = "00";
  response_text = "booked without a core";
  approved = true;
  duplicate = false;
  auth_code = "";
  processed_at = ins.requested_at;
  latency = 0;
}

abbrev adapter_post :
    {N : Type 0} → Option (Adapter N) → CoreConfig → CoreInstruction N → Result CoreReceipt
adapter_post none cfg ins =
    err (wrap (classified err_unavailable) "no banking core adapter of kind %q")
adapter_post (some adapter) cfg ins = adapter cfg ins

unfoldable pub route_post : {N : Type 0} → Env N → CoreInstruction N → Result CoreReceipt
route_post env ins =
    let cfg = env.tenant_core in
    if str_eq cfg.kind "" then ok (book_only ins) else adapter_post (env.adapters cfg.kind) cfg ins

-- The end of instructCore: no answer, a decline, or a receipt.
abbrev pub core_outcome : Result CoreReceipt → Result CoreReceipt
core_outcome (err e) = err (wrap (classified err_unavailable) "banking core: %v")
core_outcome (ok receipt) =
    if not receipt.approved
    then err (classified (with_detail err_core_declined "%s (%s)"))
    else ok receipt

module _ {N : Type 0} where
  abbrev pub instruction_of : DisputeRecord N → LedgerEntry N → CoreInstruction N
  instruction_of rec e = record {
    reference = e.reference;
    dispute_id = rec.id;
    account_id = rec.account_id;
    transaction_id = rec.transaction_id;
    kind = e.posting.kind;
    credit_account = is_customer e.posting.credit;
    amount = e.posting.amount;
    currency = e.posting.currency;
    requested_at = e.posted_at;
  }

  unfoldable pub instruct_core : Env N → DisputeRecord N → LedgerEntry N → Result CoreReceipt
  unfolding route_post
  instruct_core env rec e = core_outcome (route_post env (instruction_of rec e))

  abbrev pub entry_of : Env N → DisputeRecord N → ℕ → Posting N → Option CoreReceipt → LedgerEntry N
  entry_of env rec seq p core = record {
    seq = seq;
    posting = p;
    reference = env.reference rec.id seq p.kind;
    posted_at = env.now;
    core = core;
  }

  abbrev pub with_receipt :
      Env N → DisputeRecord N → ℕ → Posting N → Result CoreReceipt → Result (LedgerEntry N)
  with_receipt env rec seq p (ok receipt) = ok (entry_of env rec seq p (some receipt))
  with_receipt env rec seq p (err e) = err e

  -- The body of the loop of `post`: only movements on the customer's account leave the building.
  unfoldable pub entry : Env N → DisputeRecord N → ℕ → Posting N → Result (LedgerEntry N)
  unfolding instruct_core
  entry env rec seq p =
      if moves_customer p
      then with_receipt env rec seq p (instruct_core env rec (entry_of env rec seq p none))
      else ok (entry_of env rec seq p none)

  abbrev pub joined :
      Result (LedgerEntry N) → Result (List (LedgerEntry N)) → Result (List (LedgerEntry N))
  joined (err e) _ = err e
  joined (ok x) (err e) = err e
  joined (ok x) (ok xs) = ok (x ∷ xs)

  unfoldable pub entries :
      Env N → DisputeRecord N → ℕ → List (Posting N) → Result (List (LedgerEntry N))
  unfolding entry
  entries env rec seq [] = ok []
  entries env rec seq (p ∷ ps) = joined (entry env rec seq p) (entries env rec seq ps)

abbrev pub or_malformed : Option EventFacts → Result EventFacts
or_malformed none = err malformed
or_malformed (some facts) = ok facts

module _ (dec : Decimals) where
  open dec use {Num, zero_num, new_from_string}

  abbrev checked_liability : Num → Result Num → Result Num
  checked_liability liability (ok _) = ok liability
  checked_liability liability (err e) = err e

  abbrev parsed_liability : Rules → Num → Option Num → Result Num
  parsed_liability r disputed none = err (
      classified (
        with_fields err_invalid_liability (
          record {
            field = "body.payload.liability";
            message = "must be a decimal string such as \"50.00\"";
          }
          ∷ [])))
  parsed_liability r disputed (some liability) =
      checked_liability liability (credit_amount dec r disputed liability)

  abbrev pub liability_of : Rules → Num → Option String → Result Num
  liability_of r disputed none = ok zero_num
  liability_of r disputed (some text) = parsed_liability r disputed (new_from_string text)

  abbrev pub input_of :
      DisputeRecord Num
      → State
      → Num
      → SuspenseSettlement
      → List (LedgerEntry Num)
      → PostingInput Num
  input_of rec entered liability settlement have = record {
    entered = entered;
    disputed = rec.disputed_amount;
    currency = rec.currency;
    liability = liability;
    outstanding = suspense_balance dec (postings_of have);
    settlement = settlement;
  }

  -- `if len(movements) == 0 { return nil }`
  abbrev pub append_movements :
      Caller Num → Env Num → DisputeRecord Num → ℕ → List (Posting Num) → Tx Num (Unit {0})
  append_movements c env rec seq [] = pure tt
  append_movements c env rec seq (p ∷ ps) =
      lift (entries env rec seq (p ∷ ps)) >>= λ es. append_ledger c rec.id es

  unfoldable pub post :
      Caller Num → Env Num → DisputeRecord Num → State → ℕ → String → Tx Num (Unit {0})
  unfolding entries
  post c env rec entered seq payload = do
    r ← lift (rules_for rec.regime)
    facts ← lift (or_malformed (env.unmarshal payload))
    liability ← lift (liability_of r rec.disputed_amount facts.liability)
    settlement ← lift (parse_settlement r facts.settlement)
    have ← list_ledger c rec.id
    append_movements c env rec seq (postings dec r (input_of rec entered liability settlement have))
