-- ===== src/Application/Assess.antt =====
-- `assess` and `questionnaire` of application/service.go, AccountHistory of apptest/memstore.go and
-- DaysBetween of domain/risk.go. Calendar years and hours in floating point (package time) are
-- parameters.
use thesis_dispute_engine.Prelude.{
  ℕ, suc, ◌-◌, String, Bool, true, false, not, ◌||◌, Option, none, some, List, [], ◌∷◌, length,
  str_eq, ltb, if◌then◌else◌,
}
use thesis_dispute_engine.Prelude.Decimal.{Decimals}
use thesis_dispute_engine.Result.{Result, ok, err}
use thesis_dispute_engine.Errs.{is}
use thesis_dispute_engine.Domain.Vocabulary.{State, chargeback_lost, Event}
use thesis_dispute_engine.Domain.Risk.{RiskInput, high_risk_mcc, assess as assess_risk}
use thesis_dispute_engine.Domain.Questionnaire.{inconsistencies, validate_answers}
use thesis_dispute_engine.Domain.QuestionSets.{Answers, question_set}
use thesis_dispute_engine.Application.Records.{
  DisputeRecord, EventRecord, TransactionRecord, Questionnaire, err_not_found,
}
use thesis_dispute_engine.Application.Store.{Db, Caller, Tx, pure, lift, gets, attempt, ◌>>=◌, ◌>>◌}
use thesis_dispute_engine.Application.Rows.{
  get_questionnaire, answer_questionnaire, send_questionnaire as send_questions, insert_risk,
}
use thesis_dispute_engine.Application.Money.{EventFacts, or_malformed}

-- The package time: `whole_days d` is int(b.Sub(a).Hours() / 24) for a `b` that is `d` after `a`, and
-- `year_before t` is t.AddDate(-1, 0, 0).
pub record Times : Type 0 where
  pub whole_days : ℕ → ℕ
  pub year_before : ℕ → ℕ

-- An instant that is not after the other is no day away.
unfoldable pub days_between : Times → ℕ → ℕ → ℕ
days_between times a b = if ltb a b then times.whole_days (b - a) else 0

abbrev pub is_lost : State → Bool
is_lost chargeback_lost = true
is_lost _ = false

-- The inner loop of AccountHistory.
unfoldable pub was_lost : List EventRecord → Bool
was_lost [] = false
was_lost (e ∷ es) = is_lost e.to_state || was_lost es

-- Other disputes of an account, and how many of its disputes were lost at the network.
pub record History : Type 0 where
  pub disputes : ℕ
  pub lost : ℕ

abbrev pub add_if : Bool → ℕ → ℕ
add_if true n = suc n
add_if false n = n

module _ {N : Type 0} where
  abbrev pub counted :
      Caller N
      → String
      → String
      → ℕ
      → String
      → List EventRecord
      → History
      → Option (DisputeRecord N)
      → History
  counted c account exclude since id log h none = h
  counted c account exclude since id log h (some d) =
      if not (str_eq d.tenant_id c.tenant) || not (str_eq d.account_id account) || str_eq id exclude
      then h
      else record {
        disputes = add_if (not (ltb d.opened_at since)) h.disputes;
        lost = add_if (was_lost log) h.lost;
      }

  -- The loop of AccountHistory over the keys of the map of disputes.
  unfoldable pub history_from :
      Caller N → String → String → ℕ → Db N → List String → History → History
  unfolding was_lost
  history_from c account exclude since db [] h = h
  history_from c account exclude since db (id ∷ ids) h =
      history_from c account exclude since db ids
        (counted c account exclude since id (db.events id) h (db.disputes id))

  unfoldable pub account_history : Caller N → String → String → ℕ → Tx N History
  unfolding history_from
  account_history c account exclude since = gets (λ db.
      history_from c account exclude since db db.dispute_ids (record { disputes = 0; lost = 0 }))

-- What the questionnaire tells the score: whether it is known, and its contradictions.
pub record Known : Type 0 where
  pub known : Bool
  pub contradictions : ℕ

abbrev pub or_none : Option Answers → Answers
or_none none = []
or_none (some m) = m

abbrev known_from : Questionnaire → Option ℕ → Known
known_from q none = record { known = false; contradictions = 0 }
known_from q (some at) = record {
  known = true;
  contradictions = length (inconsistencies q.reason (or_none q.answers));
}

abbrev pub known_of : Result Questionnaire → Result Known
known_of (ok q) = ok (known_from q q.received_at)
known_of (err e) =
    if not (is e err_not_found) then err e else ok (record { known = false; contradictions = 0 })

abbrev has_label : Option String → Bool
has_label none = false
has_label (some _) = true

module _ (dec : Decimals) where
  open dec use {Num}

  unfoldable pub risk_input :
      Times → DisputeRecord Num → TransactionRecord Num → History → Known → RiskInput Num
  unfolding days_between
  risk_input times rec txn h k = record {
    disputes_last12_months = h.disputes;
    lost_chargebacks = h.lost;
    transaction_age_days = days_between times txn.occurred_at rec.opened_at;
    high_risk_merchant = has_label (high_risk_mcc txn.mcc);
    amount = rec.disputed_amount;
    account_age_days = days_between times txn.account_opened_at rec.opened_at;
    inconsistencies = k.contradictions;
    questionnaire_known = k.known;
  }

  unfoldable pub assess :
      Caller Num → Times → DisputeRecord Num → TransactionRecord Num → ℕ → ℕ → Tx Num (Unit {0})
  unfolding risk_input
  assess c times rec txn seq now = do
    h ← account_history c rec.account_id rec.id (times.year_before now)
    q ← attempt (get_questionnaire c rec.id)
    k ← lift (known_of q)
    insert_risk c rec.id (record {
      seq = seq;
      assessment = assess_risk dec (risk_input times rec txn h k);
      assessed_at = now;
    })

  abbrev receive :
      Caller Num → (String → Option EventFacts) → DisputeRecord Num → String → ℕ → Tx Num (Unit {0})
  receive c unmarshal rec payload now = do
    facts ← lift (or_malformed (unmarshal payload))
    q ← get_questionnaire c rec.id
    lift (validate_answers dec q.questions (or_none facts.answers))
    answer_questionnaire c rec.id (or_none facts.answers) now

  unfoldable pub questionnaire :
      Caller Num
      → (String → Option EventFacts)
      → DisputeRecord Num
      → Event
      → String
      → ℕ
      → Tx Num (Unit {0})
  questionnaire c unmarshal rec Event.send_questionnaire payload now =
      send_questions c rec.id (record {
        reason = rec.reason;
        questions = question_set rec.reason;
        answers = none;
        sent_at = now;
        received_at = none;
      })
  questionnaire c unmarshal rec Event.receive_questionnaire payload now =
      receive c unmarshal rec payload now
  questionnaire c unmarshal rec _ payload now = pure tt
