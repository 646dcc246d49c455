-- ===== src/Application/Hold.antt =====
-- holdCheck of application/service.go: a refund is refused while the latest assessment is high,
-- unless the payload justifies it. encoding/json and strings.TrimSpace are parameters.
pub mod Laws
use thesis_dispute_engine.Prelude.{String, Option, none, some, List, [], ◌∷◌, str_eq, if◌then◌else◌}
use thesis_dispute_engine.Result.{Result, ok, err}
use thesis_dispute_engine.Domain.Risk.{credit_allowed}
use thesis_dispute_engine.Application.Records.{DisputeRecord, RiskRecord}
use thesis_dispute_engine.Application.Store.{Caller, Tx, lift, ◌>>=◌, ◌>>◌}
use thesis_dispute_engine.Application.Rows.{list_risk}
use thesis_dispute_engine.Application.Money.{EventFacts, or_malformed}

pub record Texts : Type 0 where
  pub unmarshal : String → Option EventFacts
  pub trim_space : String → String

-- history[len(history)-1]
abbrev pub latest : List RiskRecord → Option RiskRecord
latest [] = none
latest (r ∷ []) = some r
latest (r ∷ s ∷ rs) = latest (s ∷ rs)

-- The facts of a payload, which may be empty.
abbrev pub facts_of : Texts → String → Result EventFacts
facts_of texts payload =
    if str_eq payload ""
    then ok (record { liability = none; settlement = ""; answers = none; risk_override = "" })
    else or_malformed (texts.unmarshal payload)

abbrev pub judged : Texts → RiskRecord → Result EventFacts → Result (Unit {0})
judged texts r (err e) = err e
judged texts r (ok facts) =
    credit_allowed (some r.assessment) (texts.trim_space facts.risk_override)

abbrev pub checked : Texts → String → Option RiskRecord → Result (Unit {0})
checked texts payload none = ok tt
checked texts payload (some r) = judged texts r (facts_of texts payload)

unfoldable pub hold_check :
    {N : Type 0} → Caller N → Texts → DisputeRecord N → String → Tx N (Unit {0})
hold_check c texts rec payload = do
  history ← list_risk c rec.id
  lift (checked texts payload (latest history))
