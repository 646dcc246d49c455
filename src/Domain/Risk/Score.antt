-- ===== src/Domain/Risk/Score.antt =====
-- What the fraud score may be and how it moves (domain/risk.go).
use thesis_dispute_engine.Prelude.{
  ℕ, ◌≤◌, ◌<◌, ◌≡◌, refl, ◌≢◌, ◌↔◌, ◌⊎◌, inl, inr, String, Bool, true, false, some, arith, eq_iff,
  All, length,
}
use thesis_dispute_engine.Prelude.Decimal.{Decimals, IsLe}
use thesis_dispute_engine.Result.{ok}
use thesis_dispute_engine.Domain.Vocabulary.{low, medium, high}
use thesis_dispute_engine.Domain.Risk.{
  Signal, RiskInput, Assessment, frequency_signal, consistency_signal, chargeback_signal,
  transaction_age_signal, merchant_signal, amount_signal, account_age_signal, total_points, tier_of,
  signals_of, assess, credit_allowed,
}

tier_of_iff :
    (n : ℕ)
    → ((tier_of n ≡ high) ↔ (45 ≤ n))
      × ((tier_of n ≡ medium) ↔ ((20 ≤ n) × (n < 45)))
      × ((tier_of n ≡ low) ↔ (n < 20))
unfolding tier_of
tier_of_iff n = ground arith

-- A signal that adds no more than its weight, which is what it may weigh.
abbrev Within : Signal → ℕ → Type 0
Within s w = (s.weight ≡ w) × (s.points ≤ w)

frequency_bounds : (n : ℕ) → Within (frequency_signal n) 25
unfolding frequency_signal
frequency_bounds n = ground arith

consistency_bounds : (k : Bool) (n : ℕ) → Within (consistency_signal k n) 25
unfolding consistency_signal
consistency_bounds k n = ground arith

chargeback_bounds : (n : ℕ) → Within (chargeback_signal n) 25
unfolding chargeback_signal
chargeback_bounds n = ground arith

transaction_age_bounds : (n : ℕ) → Within (transaction_age_signal n) 10
unfolding transaction_age_signal
transaction_age_bounds n = ground arith

merchant_bounds : (b : Bool) → Within (merchant_signal b) 10
unfolding merchant_signal
merchant_bounds b = ground arith

account_age_bounds : (n : ℕ) → Within (account_age_signal n) 5
unfolding account_age_signal
account_age_bounds n = ground arith

frequency_mono : (m n : ℕ) → m ≤ n → (frequency_signal m).points ≤ (frequency_signal n).points
unfolding frequency_signal
frequency_mono m n h = ground arith

consistency_mono :
    (m n : ℕ) → m ≤ n → (consistency_signal true m).points ≤ (consistency_signal true n).points
unfolding consistency_signal
consistency_mono m n h = ground arith

consistency_unknown :
    (k : Bool) (m n : ℕ) → (consistency_signal false m).points ≤ (consistency_signal k n).points
unfolding consistency_signal
consistency_unknown k m n = ground arith

chargeback_mono : (m n : ℕ) → m ≤ n → (chargeback_signal m).points ≤ (chargeback_signal n).points
unfolding chargeback_signal
chargeback_mono m n h = ground arith

transaction_age_mono :
    (m n : ℕ) → m ≤ n → (transaction_age_signal m).points ≤ (transaction_age_signal n).points
unfolding transaction_age_signal
transaction_age_mono m n h = ground arith

merchant_mono :
    (a b : Bool) → (a ≡ b) ⊎ (b ≡ true) → (merchant_signal a).points ≤ (merchant_signal b).points
unfolding merchant_signal
merchant_mono a b h = ground arith

account_age_mono : (m n : ℕ) → n ≤ m → (account_age_signal m).points ≤ (account_age_signal n).points
unfolding account_age_signal
account_age_mono m n h = ground arith

module _ (dec : Decimals) where
  open dec use {Num, from_int, less_than, less_trans}

  amount_bounds : (a : Num) → Within (amount_signal dec a) 10
  unfolding amount_signal
  amount_bounds a = ground arith

  amount_mono :
      (a b : Num) → IsLe dec a b → (amount_signal dec a).points ≤ (amount_signal dec b).points
  unfolding amount_signal
  amount_mono a b h = ground (arith, less_trans b a (from_int 1000), less_trans b a (from_int 500))

  -- Every one of the seven signals reports and adds at most its weight; the score is their sum, at
  -- most 110; and the tier is HIGH from 45, MEDIUM from 20 and LOW below.
  pub assess_bounds :
      (inp : RiskInput Num)
      → let a = assess dec inp in
        (length a.signals ≡ 7)
        × All (λ (s : Signal). s.points ≤ s.weight) a.signals
        × (a.score ≡ total_points a.signals)
        × (a.score ≤ 110)
        × ((a.tier ≡ high) ↔ (45 ≤ a.score))
        × ((a.tier ≡ medium) ↔ ((20 ≤ a.score) × (a.score < 45)))
        × ((a.tier ≡ low) ↔ (a.score < 20))
  unfolding assess signals_of
  assess_bounds inp =
      let f = frequency_bounds inp.disputes_last12_months in
      let q = consistency_bounds inp.questionnaire_known inp.inconsistencies in
      let c = chargeback_bounds inp.lost_chargebacks in
      let t = transaction_age_bounds inp.transaction_age_days in
      let m = merchant_bounds inp.high_risk_merchant in
      let x = amount_bounds inp.amount in
      let g = account_age_bounds inp.account_age_days in
      let (h, d, l) = tier_of_iff (total_points (signals_of dec inp)) in
      (refl, omega arith, refl, omega arith, h, d, l)

  -- An input that is at least as suspicious in every respect.
  pub record Riskier (a b : RiskInput Num) : Type 0 where
    pub frequency : a.disputes_last12_months ≤ b.disputes_last12_months
    pub chargebacks : a.lost_chargebacks ≤ b.lost_chargebacks
    pub age : a.transaction_age_days ≤ b.transaction_age_days
    pub merchant : (a.high_risk_merchant ≡ b.high_risk_merchant) ⊎ (b.high_risk_merchant ≡ true)
    pub larger : IsLe dec a.amount b.amount
    pub account : b.account_age_days ≤ a.account_age_days
    pub answers :
        (a.questionnaire_known ≡ false)
        ⊎ ((a.questionnaire_known ≡ true)
            × (b.questionnaire_known ≡ true)
            × (a.inconsistencies ≤ b.inconsistencies))

  answers_mono :
      (k l : Bool) (m n : ℕ)
      → (k ≡ false) ⊎ ((k ≡ true) × (l ≡ true) × (m ≤ n))
      → (consistency_signal k m).points ≤ (consistency_signal l n).points
  answers_mono k l m n (inl e) = rw e (consistency_unknown l m n)
  answers_mono k l m n (inr (e, f, h)) = rw (e, f) (consistency_mono m n h)

  -- An input that is at least as suspicious in every respect scores at least as much.
  pub assess_mono :
      (a b : RiskInput Num) → Riskier a b → (assess dec a).score ≤ (assess dec b).score
  unfolding assess signals_of
  assess_mono a b h =
      let q =
        answers_mono a.questionnaire_known b.questionnaire_known a.inconsistencies b.inconsistencies
          h.answers in
      let f = frequency_mono a.disputes_last12_months b.disputes_last12_months h.frequency in
      let c = chargeback_mono a.lost_chargebacks b.lost_chargebacks h.chargebacks in
      let t = transaction_age_mono a.transaction_age_days b.transaction_age_days h.age in
      let m = merchant_mono a.high_risk_merchant b.high_risk_merchant h.merchant in
      let x = amount_mono a.amount b.amount h.larger in
      let g = account_age_mono a.account_age_days b.account_age_days h.account in omega arith

  hold_iff :
      (a : Assessment) (override : String)
      → (credit_allowed (some a) override ≢ ok tt) ↔ ((a.tier ≡ high) × (override ≡ ""))
  unfolding credit_allowed
  hold_iff a override = ground (arith, eq_iff override "")

  -- A credit is held back exactly when the assessed score reaches 45 and the analyst has written no
  -- justification.
  pub risk_hold_iff :
      (inp : RiskInput Num) (override : String)
      → (credit_allowed (some (assess dec inp)) override ≢ ok tt)
        ↔ ((45 ≤ (assess dec inp).score) × (override ≡ ""))
  risk_hold_iff inp override =
      let h = hold_iff (assess dec inp) override in
      let t = (assess_bounds inp).4 in (λ r. (t.0 (h.0 r).0, (h.0 r).1), λ r. h.1 (t.1 r.0, r.1))
