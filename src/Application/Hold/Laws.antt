-- ===== src/Application/Hold/Laws.antt =====
-- What the hold lets through (application/service.go).
use thesis_dispute_engine.Prelude.{String, ◌≡◌, refl, ap, sym, ◌≢◌, some, arith, eq_iff}
use thesis_dispute_engine.Result.{Result, ok, err}
use thesis_dispute_engine.Domain.Vocabulary.{high}
use thesis_dispute_engine.Domain.Risk.{credit_allowed}
use thesis_dispute_engine.Application.Records.{DisputeRecord, RiskRecord}
use thesis_dispute_engine.Application.Store.{Db, Caller, found, get_dispute, continue}
use thesis_dispute_engine.Application.Rows.{list_risk}
use thesis_dispute_engine.Application.Money.{EventFacts}
use thesis_dispute_engine.Application.Hold.{Texts, latest, facts_of, judged, checked, hold_check}

-- The payload gives a justification.
abbrev pub Justified : Texts → String → Type 0
Justified texts payload =
    (facts : EventFacts) × (facts_of texts payload ≡ ok facts)
    × (texts.trim_space facts.risk_override ≢ "")

allowed-high :
    (r : RiskRecord) (override : String)
    → credit_allowed (some r.assessment) override ≡ ok tt
    → r.assessment.tier ≡ high
    → override ≢ ""
unfolding credit_allowed
allowed-high r override h t = ground (arith, eq_iff override "")

checked-Justified :
    (texts : Texts) (payload : String) (r : RiskRecord)
    → checked texts payload (some r) ≡ ok tt
    → r.assessment.tier ≡ high
    → Justified texts payload
checked-Justified texts payload r h t = go (facts_of texts payload) refl h
  where
    go :
        (x : Result EventFacts)
        → facts_of texts payload ≡ x
        → judged texts r x ≡ ok tt
        → Justified texts payload
    go (err e) e' k = absurd (cc)
    go (ok facts) e' k = (facts, e', allowed-high r (texts.trim_space facts.risk_override) k t)

module _ {N : Type 0} where
  -- A refund that gets past the hold writes nothing there, and if the dispute's latest assessment is
  -- high, its payload can be read and justifies it by more than blanks.
  pub hold_check-Justified :
      (c : Caller N) (texts : Texts) (rec : DisputeRecord N) (payload : String) (db db' : Db N)
      → hold_check c texts rec payload db ≡ (ok tt, db')
      → (db' ≡ db)
        × ((r : RiskRecord)
            → latest (db.risk rec.id) ≡ some r
            → r.assessment.tier ≡ high
            → Justified texts payload)
  unfolding hold_check list_risk get_dispute
  hold_check-Justified c texts rec payload db db' h = go (found c (db.disputes rec.id)) h
    where
      go :
          (x : Result (DisputeRecord N))
          → continue
              (λ history db. (checked texts payload (latest history), db))
              (continue (λ _ db. (ok (db.risk rec.id), db)) (x, db))
            ≡ (ok tt, db')
          → (db' ≡ db)
            × ((r : RiskRecord)
                → latest (db.risk rec.id) ≡ some r
                → r.assessment.tier ≡ high
                → Justified texts payload)
      go (err e) k = absurd (cc)
      go (ok d) k = (
        sym (ap (λ x. x.1) k),
        λ r e. checked-Justified texts payload r (rw e at (ap (λ x. x.0) k)),
      )
