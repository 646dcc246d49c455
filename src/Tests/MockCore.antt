-- ===== src/Tests/MockCore.antt =====
-- Runs of the simulated core (infrastructure/mockcore/mockcore.go).
use thesis_dispute_engine.Prelude.{
  ℕ, String, ◌≡◌, refl, ◌↔◌, true, false, some, [], ◌∷◌, In, Distinct,
}
use thesis_dispute_engine.Prelude.Int.{ℤ, pos, cents}
use thesis_dispute_engine.Result.{ok}
use thesis_dispute_engine.Domain.Vocabulary.{PostingKind}
use thesis_dispute_engine.Application.Records.{CoreInstruction, CoreReceipt}
use thesis_dispute_engine.Infrastructure.MockCore.{Core, Formats, Call, new_core, core_post, run}
use thesis_dispute_engine.Infrastructure.MockCore.Paid.{paid, run-PaysOnce}
use thesis_dispute_engine.Infrastructure.MockCore.Repeats.{core_post-repeats}

abbrev formats : Formats ℤ
formats = record {
  unmarshal = λ _. ok (record {
    decline_above = some (pos 50000);
    insufficient_funds_accounts = [];
    latency_ms = 0;
    outage = false;
  });
  retrieval_reference = λ s. s;
  auth_code_of = λ s. s;
  amount_text = λ _. "000000012000";
  time_text = λ _. "0102150405";
  stan_text = λ _. "000001";
}

abbrev credit : CoreInstruction ℤ
credit = record {
  reference = "d1-2";
  dispute_id = "d1";
  account_id = "a1";
  transaction_id = "t1";
  kind = PostingKind.provisional_credit;
  credit_account = true;
  amount = pos 12000;
  currency = "EUR";
  requested_at = 10;
}

abbrev call_at : ℕ → ℕ → Call ℤ
call_at t amount = record {
  cfg = record { kind = "mock"; settings = "{}" };
  ins = record credit { amount = pos amount };
  started = t;
  processed = t;
  answered = t;
  cancelled = false;
}

abbrev after_first : Core
after_first = (core_post cents formats (call_at 10 12000) new_core).1

abbrev receipt : CoreReceipt
receipt = record {
  rrn = "d1-2";
  response_code = "00";
  response_text = "approved";
  approved = true;
  duplicate = false;
  auth_code = "d1-2";
  processed_at = 10;
  latency = 0;
}

first_run : core_post cents formats (call_at 10 12000) new_core ≡ (ok receipt, after_first)
unfolding core_post
first_run = refl

-- A credit above the limit is declined and may be tried again.
declined_run :
    paid
      (run cents formats (call_at 10 60000 ∷ call_at 20 12000 ∷ call_at 30 12000 ∷ []) new_core).log
    ≡ "d1-2" ∷ []
unfolding paid run
declined_run = refl

run-PaysOnce_example :
    Distinct (paid (run cents formats (call_at 10 12000 ∷ call_at 20 12000 ∷ []) new_core).log)
    × ((rrn : String)
        → In rrn (paid (run cents formats (call_at 10 12000 ∷ call_at 20 12000 ∷ []) new_core).log)
          ↔ ((r : CoreReceipt) × ((run cents formats
                    (call_at 10 12000 ∷ call_at 20 12000 ∷ [])
                    new_core).seen
                  rrn
                ≡ some r)))
run-PaysOnce_example = run-PaysOnce cents formats (call_at 10 12000 ∷ call_at 20 12000 ∷ [])

core_post-repeats_example :
    (r' : CoreReceipt) × ((core_post cents formats
        (call_at 40 12000)
        (run cents formats (call_at 30 12000 ∷ []) after_first)).0
      ≡ ok r')
    × (r'.approved ≡ true)
    × (r'.duplicate ≡ true)
    × (r'.response_code ≡ "94")
    × (r'.auth_code ≡ receipt.auth_code)
    × (r'.processed_at ≡ receipt.processed_at)
    × ((core_post cents formats
          (call_at 40 12000)
          (run cents formats (call_at 30 12000 ∷ []) after_first)).1.seen
        ≡ (run cents formats (call_at 30 12000 ∷ []) after_first).seen)
core_post-repeats_example =
    core_post-repeats cents formats (call_at 10 12000) (call_at 40 12000) (call_at 30 12000 ∷ [])
      new_core after_first receipt first_run refl refl
      (record { settings = _; read = refl; waited = refl; up = refl })
