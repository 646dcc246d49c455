-- ===== src/Tests/Application.antt =====
-- Runs of the use cases (application/service.go, routing.go), in whole cents.
use thesis_dispute_engine.Prelude.{
  ◌≡◌, refl, sym, ◌≢◌, true, false, none, some, [], ◌∷◌, String, arith, eq_iff,
}
use thesis_dispute_engine.Prelude.Int.{ℤ, pos, cents, ◌-ℤ◌}
use thesis_dispute_engine.Result.{ok, err}
use thesis_dispute_engine.Errs.{classified, is}
use thesis_dispute_engine.Domain.Vocabulary.{
  Regime, Rail, investigating, provisional_credit_issued, closed, unauthorised, PostingKind,
  customer, suspense, SuspenseSettlement, DeadlineKind,
}
use thesis_dispute_engine.Domain.Regime.{Rules, rules_for}
use thesis_dispute_engine.Domain.Lifecycle.{Dispute}
use thesis_dispute_engine.Domain.Ledger.{
  Posting, postings, postings_on, suspense_balance, suspense_from, parse_settlement,
}
use thesis_dispute_engine.Domain.Deadline.{Deadline, Calendar, Location}
use thesis_dispute_engine.Application.Records.{
  PrincipalKind, lead, DisputeRecord, Access, LedgerEntry, err_idempotency_reuse,
}
use thesis_dispute_engine.Application.Store.{Db, Caller, Tx, pure, get_dispute, with_tx, put}
use thesis_dispute_engine.Application.Rows.{
  list_ledger, append_ledger, append_entries, get_idempotent, put_idempotent,
}
use thesis_dispute_engine.Application.Routing.{route, Decides, route-Decides}
use thesis_dispute_engine.Application.Idempotent.{
  Codec, Idempotency, idempotent, keyed, first_time, store_view, store_scope,
}
use thesis_dispute_engine.Application.Idempotent.Laws.{idempotent_replays}
use thesis_dispute_engine.Application.Money.{
  Env, EventFacts, post, entries, entry, instruct_core, route_post, input_of, liability_of,
}
use thesis_dispute_engine.Application.Money.Laws.{Posted, post-Posted}

abbrev pub access : Access ℤ
access = record {
  version = 1;
  default_team = "general";
  teams = "general" ∷ "cards" ∷ [];
  grants = [];
  routing =
      record {
        rail = some Rail.card;
        reason = none;
        risk_tier = none;
        min_amount = some (pos 50000);
        team = "cards";
      }
      ∷ [];
  members = record { team = "cards"; role = lead } ∷ [];
}

abbrev pub caller : Caller ℤ
caller = record {
  tenant = "bank";
  principal = record { kind = PrincipalKind.key; id = "k1"; display = "key"; tenant_admin = false };
  access = access;
}

abbrev pub dispute : DisputeRecord ℤ
dispute = record {
  id = "d1";
  tenant_id = "bank";
  team = "cards";
  regime = Regime.us_reg_e;
  state = investigating;
  appeals = 0;
  version = 2;
  transaction_id = "t1";
  account_id = "a1";
  disputed_amount = pos 12000;
  currency = "USD";
  opened_at = 10;
  updated_at = 10;
  reason = unauthorised;
}

abbrev clock : Deadline
clock = record {
  kind = DeadlineKind.resolution;
  cycle = 0;
  started_at = 10;
  due_at = 500;
  met_at = none;
  voided_at = none;
  basis = "";
}

abbrev pub stored : Db ℤ
stored = record {
  transactions = λ _. none;
  disputes = put "d1" (some dispute) (λ _. none);
  events = λ _. [];
  idempotent = λ _ _ _. none;
  deadlines = put "d1" (clock ∷ []) (λ _. []);
  ledger = λ _. [];
  questions = λ _. none;
  risk = λ _. [];
  dispute_ids = "d1" ∷ [];
  accounts = λ _. none;
  names = λ _. none;
  notices = [];
  next_notice = 0;
  attachments = [];
}

abbrev credit : Posting ℤ
credit = record {
  kind = PostingKind.provisional_credit;
  debit = suspense;
  credit = customer;
  amount = pos 12000;
  currency = "USD";
}

route-Decides_example :
    Decides cents access.routing Rail.card unauthorised ""
      (pos 75000)
      "general"
      (route cents access Rail.card unauthorised "" (pos 75000))
route-Decides_example = route-Decides cents access Rail.card unauthorised "" (pos 75000)

abbrev zone : Location
zone = record {
  day_of = λ t. t;
  midnight = λ d. d;
  midnight_le = λ t. omega arith;
  lt-midnight = λ t. omega arith;
  midnight_mono = λ d. omega arith;
}

abbrev pub no_holidays : Calendar
no_holidays = record { location = zone; holidays = [] }

abbrev ended : Dispute
ended = record { regime = Regime.us_reg_e; state = closed; appeals = 0 }

abbrev plain : Codec String
plain = record { sum256 = λ s. s; marshal = ok; unmarshal = ok }

abbrev request : Idempotency
request = record { key = "k"; request_body = "{}" }

abbrev opens : Tx ℤ String
opens = pure "opened"

abbrev closes : Tx ℤ String
closes = pure "closed"

abbrev written : Db ℤ
written = record stored {
  idempotent =
      put "bank"
        (put "create@key:k1"
          (put "k" (some (record { request_hash = "{}"; status_code = 0; body = "opened" }))
            (λ _. none))
          (λ _ _. none))
        (λ _ _ _. none);
}

first_answer :
    idempotent plain caller "create" request opens stored
    ≡ (ok (record { view = "opened"; replayed = false }), written)
unfolding idempotent keyed get_idempotent first_time store_view put_idempotent with_tx store_scope
    is
first_answer = refl

idempotent_replays_example :
    (idempotent plain caller "create" request closes written
      ≡ (ok (record { view = "opened"; replayed = true }), written))
    × ((body : String)
        → ◌≢◌ {A = String} body "{}"
        → idempotent plain caller "create"
            (record { key = "k"; request_body = body })
            closes
            written
          ≡ (err (classified err_idempotency_reuse), written))
idempotent_replays_example =
    idempotent_replays plain caller "create" request opens closes stored written
      (record { view = "opened"; replayed = false }) (λ v body e. sym e)
      (ground (arith, eq_iff "k" "")) first_answer

abbrev env : Env ℤ
env = record {
  now = 90;
  tenant_core = record { kind = ""; settings = "" };
  adapters = λ _. none;
  unmarshal =
      λ _. some (record { liability = none; settlement = ""; answers = none; risk_override = "" });
  reference = λ id seq kind. id;
}

abbrev credited : LedgerEntry ℤ
credited = record {
  seq = 3;
  posting = credit;
  reference = "d1";
  posted_at = 90;
  core = some (record {
    rrn = "";
    response_code = "00";
    response_text = "booked without a core";
    approved = true;
    duplicate = false;
    auth_code = "";
    processed_at = 90;
    latency = 0;
  });
}

abbrev posted : Db ℤ
posted = record stored { ledger = put "d1" (credited ∷ []) (λ _. []) }

post_run : post cents caller env dispute provisional_credit_issued 3 "{}" stored ≡ (ok tt, posted)
unfolding post entries entry instruct_core route_post rules_for parse_settlement postings
    postings_on suspense_balance suspense_from list_ledger append_ledger append_entries get_dispute
    ◌-ℤ◌
post_run = refl

post-Posted_example :
    (r : Rules) × (facts : EventFacts) × (liability : ℤ) × (settlement : SuspenseSettlement)
    × (rules_for Regime.us_reg_e ≡ ok r)
    × (env.unmarshal "{}" ≡ some facts)
    × (liability_of cents r (pos 12000) facts.liability ≡ ok liability)
    × (parse_settlement r facts.settlement ≡ ok settlement)
    × Posted env dispute
        (postings cents r
          (input_of cents dispute provisional_credit_issued liability settlement []))
        stored
        posted
post-Posted_example =
    post-Posted cents caller env dispute provisional_credit_issued 3 "{}" stored posted post_run
