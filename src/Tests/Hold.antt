-- ===== src/Tests/Hold.antt =====
-- A run of holdCheck (application/service.go).
use thesis_dispute_engine.Prelude.{◌≡◌, refl, none, some, [], ◌∷◌}
use thesis_dispute_engine.Prelude.Int.{ℤ}
use thesis_dispute_engine.Result.{ok}
use thesis_dispute_engine.Domain.Vocabulary.{high}
use thesis_dispute_engine.Domain.Risk.{credit_allowed}
use thesis_dispute_engine.Application.Records.{RiskRecord}
use thesis_dispute_engine.Application.Store.{Db, get_dispute, put}
use thesis_dispute_engine.Application.Rows.{list_risk}
use thesis_dispute_engine.Application.Hold.{Texts, latest, hold_check}
use thesis_dispute_engine.Application.Hold.Laws.{Justified, hold_check-Justified}
use thesis_dispute_engine.Tests.Application.{caller, dispute, stored}

abbrev assessed : RiskRecord
assessed = record {
  seq = 1;
  assessment = record { score = 60; tier = high; signals = [] };
  assessed_at = 20;
}

abbrev risky : Db ℤ
risky = record stored { risk = put "d1" (assessed ∷ []) (λ _. []) }

abbrev texts : Texts
texts = record {
  unmarshal = λ _. some (record {
    liability = none;
    settlement = "";
    answers = none;
    risk_override = "the card was stolen";
  });
  trim_space = λ s. s;
}

hold_run : hold_check caller texts dispute "{}" risky ≡ (ok tt, risky)
unfolding hold_check list_risk get_dispute credit_allowed
hold_run = refl

hold_check-Justified_example :
    (risky ≡ risky)
    × ((r : RiskRecord)
        → latest (risky.risk "d1") ≡ some r
        → r.assessment.tier ≡ high
        → Justified texts "{}")
hold_check-Justified_example = hold_check-Justified caller texts dispute "{}" risky risky hold_run
