-- ===== src/Infrastructure/MockCore.antt =====
-- The simulated core of dispute/infrastructure/mockcore/mockcore.go. encoding/json, crypto/sha256 and
-- the texts of fmt and time are parameters; a call says when its clock was read and whether its
-- request was cancelled while it waited. The log that the switch keeps is part of the state. Calls
-- take the mutex one after another. The clock does not go back.
pub mod Paid
pub mod Repeats
use thesis_dispute_engine.Prelude.{
  ℕ, ◌+◌, ◌-◌, ◌%◌, String, Bool, true, false, not, ◌&&◌, ◌||◌, Option, none, some, List, [], ◌∷◌,
  ◌++◌, str_eq, ltb, if◌then◌else◌,
}
use thesis_dispute_engine.Prelude.Decimal.{Decimals, greater_than}
use thesis_dispute_engine.Result.{Result, ok, err}
use thesis_dispute_engine.Errs.{GoError, classified, wrap}
use thesis_dispute_engine.Application.Records.{
  CoreConfig, CoreInstruction, CoreReceipt, err_unavailable,
}
use thesis_dispute_engine.Application.Store.{put}

pub record Settings (N : Type 0) : Type 0 where
  pub decline_above : Option N
  pub insufficient_funds_accounts : List String
  pub latency_ms : ℕ
  pub outage : Bool

pub record Message : Type 0 where
  pub mti : String
  pub processing_code : String
  pub amount : String
  pub transmission : String
  pub stan : String
  pub rrn : String
  pub auth_code : String
  pub response_code : String
  pub currency : String
  pub account : String

-- The request and the response of one exchange, as the switch logs them.
pub record Exchange : Type 0 where
  pub request_ : Message
  pub response : Message

pub record Core : Type 0 where
  pub stan : ℕ
  pub seen : String → Option CoreReceipt
  pub log : List Exchange

-- What the packages give: the decoder, the retrieval reference of a reference and its first six
-- characters in capitals, and the texts of an amount, an instant and a trace number.
pub record Formats (N : Type 0) : Type 0 where
  pub unmarshal : String → Result (Settings N)
  pub retrieval_reference : String → String
  pub auth_code_of : String → String
  pub amount_text : N → String
  pub time_text : ℕ → String
  pub stan_text : ℕ → String

-- One call of Post with what happens around it.
pub record Call (N : Type 0) : Type 0 where
  pub cfg : CoreConfig
  pub ins : CoreInstruction N
  pub started : ℕ
  pub processed : ℕ
  pub answered : ℕ
  pub cancelled : Bool

abbrev pub new_core : Core
new_core = record { stan = 0; seen = λ rrn. none; log = [] }

abbrev currency_codes : String → String
currency_codes c =
    if str_eq c "EUR"
    then "978"
    else if str_eq c "USD"
    then "840"
    else if str_eq c "HUF"
    then "348"
    else if str_eq c "GBP"
    then "826"
    else ""

abbrev response_texts : String → String
response_texts c =
    if str_eq c "00"
    then "approved"
    else if str_eq c "51"
    then "insufficient funds"
    else if str_eq c "61"
    then "exceeds amount limit"
    else if str_eq c "94"
    then "duplicate transmission"
    else if str_eq c "96"
    then "system malfunction"
    else ""

abbrev pub contains : List String → String → Bool
contains [] id = false
contains (x ∷ ids) id = str_eq x id || contains ids id

abbrev no_settings : {N : Type 0} → Settings N
no_settings = record {
  decline_above = none;
  insufficient_funds_accounts = [];
  latency_ms = 0;
  outage = false;
}

abbrev refused : {A : Type 0} → String → Result A
refused text = err (wrap (classified err_unavailable) text)

abbrev or_unavailable : {A : Type 0} → Result A → Result A
or_unavailable (ok s) = ok s
or_unavailable (err e) = refused "mockcore: tenant core settings: %v"

abbrev pub settings_of : {N : Type 0} → Formats N → String → Result (Settings N)
settings_of f text = if str_eq text "" then ok no_settings else or_unavailable (f.unmarshal text)

-- The trace number is a uint32.
unfoldable pub request : {N : Type 0} → Formats N → CoreInstruction N → Core → Message × Core
request f ins c =
    let stan = (c.stan + 1) % 4294967296 in
    (
      record {
        mti = "0200";
        processing_code = if ins.credit_account then "200000" else "010000";
        amount = f.amount_text ins.amount;
        transmission = f.time_text ins.requested_at;
        stan = f.stan_text (stan % 1_000_000);
        rrn = f.retrieval_reference ins.reference;
        auth_code = "";
        response_code = "";
        currency = currency_codes ins.currency;
        account = ins.account_id;
      },
      record c { stan = stan },
    )

abbrev pub exchanged : Message → CoreReceipt → Exchange
exchanged req rcpt = record {
  request_ = req;
  response = record req {
    mti = "0210";
    response_code = rcpt.response_code;
    auth_code = rcpt.auth_code;
  };
}

abbrev pub exchange : Message → CoreReceipt → Core → Core
exchange req rcpt c = record c { log = c.log ++ exchanged req rcpt ∷ [] }

-- The same instruction again.
abbrev pub duplicate_of : CoreReceipt → ℕ → CoreReceipt
duplicate_of first latency = record first {
  duplicate = true;
  response_code = "94";
  response_text = response_texts "94";
  latency = latency;
}

abbrev pub remembered : String → CoreReceipt → Core → Core
remembered rrn rcpt c = if rcpt.approved then record c { seen = put rrn (some rcpt) c.seen } else c

abbrev exceeds : (dec : Decimals) → Option dec.Num → dec.Num → Bool
exceeds dec none a = false
exceeds dec (some limit) a = greater_than dec a limit

module _ (dec : Decimals) where
  open dec use {Num}

  -- The response code of an instruction that is new.
  abbrev pub response_code_of : Settings Num → CoreInstruction Num → String
  response_code_of s ins =
      if ins.credit_account && exceeds dec s.decline_above ins.amount
      then "61"
      else if not ins.credit_account && contains s.insufficient_funds_accounts ins.account_id
      then "51"
      else "00"

  abbrev pub first_receipt : Formats Num → Call Num → Message → String → CoreReceipt
  first_receipt f call req code = record {
    rrn = req.rrn;
    response_code = code;
    response_text = response_texts code;
    approved = str_eq code "00";
    duplicate = false;
    auth_code = if str_eq code "00" then f.auth_code_of req.rrn else "";
    processed_at = call.processed;
    latency = call.answered - call.started;
  }

  -- From the mutex on.
  abbrev pub answer_call :
      Formats Num
      → Call Num
      → Settings Num
      → Message
      → Option CoreReceipt
      → Core
      → Result CoreReceipt × Core
  answer_call f call s req (some first) c =
      let dup = duplicate_of first (call.answered - call.started) in (ok dup, exchange req dup c)
  answer_call f call s req none c =
      let rcpt = first_receipt f call req (response_code_of s call.ins) in
      (ok rcpt, exchange req rcpt (remembered req.rrn rcpt c))

  abbrev pub unless_down :
      Formats Num → Call Num → Settings Num → Bool → Message × Core → Result CoreReceipt × Core
  unless_down f call s down (req, c) =
      if down
      then (refused "mockcore: outage configured for tenant", c)
      else answer_call f call s req (c.seen req.rrn) c

  abbrev pub unless_late :
      Formats Num → Call Num → Settings Num → Bool → Message × Core → Result CoreReceipt × Core
  unless_late f call s late (req, c) =
      if late then (refused "mockcore: %v", c) else unless_down f call s s.outage (req, c)

  abbrev pub with_settings :
      Formats Num → Call Num → Result (Settings Num) → Core → Result CoreReceipt × Core
  with_settings f call (err e) c = (err e, c)
  with_settings f call (ok s) c =
      unless_late f call s (ltb 0 s.latency_ms && call.cancelled) (request f call.ins c)

  unfoldable pub core_post : Formats Num → Call Num → Core → Result CoreReceipt × Core
  unfolding request
  core_post f call c = with_settings f call (settings_of f call.cfg.settings) c

  -- Calls one after another.
  unfoldable pub run : Formats Num → List (Call Num) → Core → Core
  unfolding core_post
  run f [] c = c
  run f (call ∷ calls) c = run f calls (core_post f call c).1
