-- ===== src/Tests/Risk.antt =====
-- Runs of the risk score (domain/risk.go), in whole cents.
use thesis_dispute_engine.Prelude.{
  ◌≤◌, ◌<◌, ◌≡◌, refl, ◌↔◌, inl, inr, true, false, All, length, arith,
}
use thesis_dispute_engine.Prelude.Int.{ℤ, pos, cents}
use thesis_dispute_engine.Domain.Vocabulary.{low, medium, high}
use thesis_dispute_engine.Domain.Risk.{Signal, RiskInput, total_points, assess}
use thesis_dispute_engine.Domain.Risk.Score.{assess_bounds, Riskier}

abbrev quiet : RiskInput ℤ
quiet = record {
  disputes_last12_months = 0;
  lost_chargebacks = 0;
  transaction_age_days = 3;
  high_risk_merchant = false;
  amount = pos 4000;
  account_age_days = 900;
  inconsistencies = 0;
  questionnaire_known = false;
}

abbrev loud : RiskInput ℤ
loud = record {
  disputes_last12_months = 4;
  lost_chargebacks = 1;
  transaction_age_days = 45;
  high_risk_merchant = true;
  amount = pos 75000;
  account_age_days = 30;
  inconsistencies = 2;
  questionnaire_known = true;
}

quiet-Riskier : Riskier cents quiet loud
quiet-Riskier = record {
  frequency = omega arith;
  chargebacks = omega arith;
  age = omega arith;
  merchant = inr refl;
  larger = refl;
  account = omega arith;
  answers = inl refl;
}

assess_bounds_example :
    let a = assess cents loud in
    (length a.signals ≡ 7)
    × All (λ (s : Signal). s.points ≤ s.weight) a.signals
    × (a.score ≡ total_points a.signals)
    × (a.score ≤ 110)
    × ((a.tier ≡ high) ↔ (45 ≤ a.score))
    × ((a.tier ≡ medium) ↔ ((20 ≤ a.score) × (a.score < 45)))
    × ((a.tier ≡ low) ↔ (a.score < 20))
assess_bounds_example = assess_bounds cents loud
