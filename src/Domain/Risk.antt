-- ===== src/Domain/Risk.antt =====
-- domain/risk.go: the fraud score, its tier, and the hold on credits. Counts and ages are never
-- negative, so they are natural numbers. A detail is kept as its format string. DaysBetween, which
-- goes through floating-point hours, is not modelled.
pub mod Score
use thesis_dispute_engine.Prelude.{
  ℕ, ◌+◌, String, Bool, true, false, not, ◌||◌, Option, none, some, List, [], ◌∷◌, str_eq, ltb, leb,
  ◌==◌, if◌then◌else◌,
}
use thesis_dispute_engine.Prelude.Decimal.{Decimals, greater_than_or_equal}
use thesis_dispute_engine.Result.{Result, ok, err}
use thesis_dispute_engine.Errs.{Error, unprocessable, new, classified, with_fields}
use thesis_dispute_engine.Domain.Vocabulary.{RiskTier, low, medium, high}

abbrev pub medium_from : ℕ
medium_from = 20

abbrev pub high_from : ℕ
high_from = 45

pub record Signal : Type 0 where
  pub name : String
  pub weight : ℕ
  pub points : ℕ
  pub detail : String

pub record RiskInput (N : Type 0) : Type 0 where
  pub disputes_last12_months : ℕ
  pub lost_chargebacks : ℕ
  pub transaction_age_days : ℕ
  pub high_risk_merchant : Bool
  pub amount : N
  pub account_age_days : ℕ
  pub inconsistencies : ℕ
  pub questionnaire_known : Bool

pub record Assessment : Type 0 where
  pub score : ℕ
  pub tier : RiskTier
  pub signals : List Signal

-- The local function `add` of `Assess`, on one signal.
abbrev signal : String → ℕ → ℕ → String → Signal
signal name weight points detail = record {
  name = name;
  weight = weight;
  points = points;
  detail = detail;
}

unfoldable pub frequency_signal : ℕ → Signal
frequency_signal n =
    if leb 3 n
    then signal "dispute frequency" 25 25
        "%d other disputes on this account in the last twelve months"
    else if n == 2
    then signal "dispute frequency" 25 18
        "two other disputes on this account in the last twelve months"
    else if n == 1
    then signal "dispute frequency" 25 10
        "one other dispute on this account in the last twelve months"
    else signal "dispute frequency" 25 0
        "no other dispute on this account in the last twelve months"

unfoldable pub consistency_signal : Bool → ℕ → Signal
consistency_signal known n =
    if not known
    then signal "questionnaire consistency" 25 0 "questionnaire not yet received"
    else if leb 2 n
    then signal "questionnaire consistency" 25 25 "%d contradictions between the answers"
    else if n == 1
    then signal "questionnaire consistency" 25 15 "one contradiction between the answers"
    else signal "questionnaire consistency" 25 0 "answers are consistent"

unfoldable pub chargeback_signal : ℕ → Signal
chargeback_signal n =
    if leb 2 n
    then signal "chargeback history" 25 25
        "%d earlier disputes on this account were lost at the network"
    else if n == 1
    then signal "chargeback history" 25 15
        "one earlier dispute on this account was lost at the network"
    else signal "chargeback history" 25 0
        "no earlier dispute on this account was lost at the network"

unfoldable pub transaction_age_signal : ℕ → Signal
transaction_age_signal d =
    if ltb 60 d
    then signal "transaction age" 10 10 "disputed %d days after the transaction"
    else if ltb 30 d
    then signal "transaction age" 10 5 "disputed %d days after the transaction"
    else signal "transaction age" 10 0 "disputed %d days after the transaction"

unfoldable pub merchant_signal : Bool → Signal
merchant_signal risky =
    if risky
    then signal "merchant category" 10 10 "merchant category is one where disputes concentrate"
    else signal "merchant category" 10 0 "merchant category is not on the watch list"

unfoldable pub account_age_signal : ℕ → Signal
account_age_signal d =
    if ltb d 90
    then signal "account age" 5 5 "account is %d days old"
    else if ltb d 365
    then signal "account age" 5 2 "account is %d days old"
    else signal "account age" 5 0 "account is more than a year old"

abbrev pub total_points : List Signal → ℕ
total_points [] = 0
total_points (s ∷ ss) = s.points + total_points ss

unfoldable pub tier_of : ℕ → RiskTier
tier_of score = if leb high_from score then high else if leb medium_from score then medium else low

-- The merchant categories of `highRiskMCCs`, with their labels.
unfoldable pub high_risk_mcc : String → Option String
high_risk_mcc mcc =
    if str_eq mcc "5815"
    then some "digital goods: media"
    else if str_eq mcc "5816"
    then some "digital goods: games"
    else if str_eq mcc "5817"
    then some "digital goods: software"
    else if str_eq mcc "5818"
    then some "digital goods: large merchant"
    else if str_eq mcc "7995"
    then some "gambling"
    else if str_eq mcc "6051"
    then some "quasi cash"
    else if str_eq mcc "4829"
    then some "money transfer"
    else none

abbrev pub err_risk_hold : Error
err_risk_hold =
    new unprocessable "risk-hold"
      "this dispute is on hold for fraud review; a credit needs a recorded justification"

abbrev pub tier_is_high : RiskTier → Bool
tier_is_high high = true
tier_is_high _ = false

unfoldable pub credit_allowed : Option Assessment → String → Result (Unit {0})
credit_allowed none override = ok tt
credit_allowed (some a) override =
    if not (tier_is_high a.tier) || not (str_eq override "")
    then ok tt
    else err (
        classified (
          with_fields err_risk_hold (
            record {
              field = "body.payload.riskOverride";
              message = "risk score %d (HIGH): explain why the credit should go out anyway";
            }
            ∷ [])))

module _ (dec : Decimals) where
  open dec use {Num, from_int}

  unfoldable pub amount_signal : Num → Signal
  amount_signal a =
      if greater_than_or_equal dec a (from_int 1000)
      then signal "amount" 10 10 "amount is 1000 or more"
      else if greater_than_or_equal dec a (from_int 500)
      then signal "amount" 10 5 "amount is 500 or more"
      else signal "amount" 10 0 "amount is under 500"

  unfoldable pub signals_of : RiskInput Num → List Signal
  unfolding frequency_signal consistency_signal chargeback_signal transaction_age_signal
      merchant_signal amount_signal account_age_signal
  signals_of inp =
      frequency_signal inp.disputes_last12_months
      ∷ consistency_signal inp.questionnaire_known inp.inconsistencies
      ∷ chargeback_signal inp.lost_chargebacks
      ∷ transaction_age_signal inp.transaction_age_days
      ∷ merchant_signal inp.high_risk_merchant
      ∷ amount_signal inp.amount
      ∷ account_age_signal inp.account_age_days
      ∷ []

  unfoldable pub assess : RiskInput Num → Assessment
  unfolding signals_of tier_of
  assess inp =
      let signals = signals_of inp in
      let score = total_points signals in
      record { score = score; tier = tier_of score; signals = signals }
