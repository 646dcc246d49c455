-- ===== src/Domain/Regime/Laws.antt =====
-- What the tables of domain/regime.go and domain/rail.go promise.
use thesis_dispute_engine.Prelude.{String, ◌≡◌, refl, arith, eq_iff}
use thesis_dispute_engine.Result.{ok}
use thesis_dispute_engine.Domain.Vocabulary.{Regime, Rail}
use thesis_dispute_engine.Domain.Regime.{
  Rules, sepa_rules, psd2_card_rules, reg_e_rules, reg_z_rules, rules_for, regime_for,
}

-- A regime that is derived for a transaction is one with rules, which carry the regime's name and
-- the currency that it was derived from.
pub regime_for-rules_for :
    (rail : Rail) (currency : String) (regime : Regime)
    → regime_for rail currency ≡ ok regime
    → (r : Rules) × (rules_for regime ≡ ok r) × (r.regime ≡ regime) × (r.currency ≡ currency)
unfolding regime_for rules_for
regime_for-rules_for rail currency Regime.eu_sepa_direct_debit h =
    (sepa_rules, refl, refl, ground (arith, eq_iff currency "EUR", eq_iff currency "USD"))
regime_for-rules_for rail currency Regime.eu_psd2_card h =
    (psd2_card_rules, refl, refl, ground (arith, eq_iff currency "EUR", eq_iff currency "USD"))
regime_for-rules_for rail currency Regime.us_reg_e h =
    (reg_e_rules, refl, refl, ground (arith, eq_iff currency "EUR", eq_iff currency "USD"))
regime_for-rules_for rail currency Regime.us_reg_z h =
    (reg_z_rules, refl, refl, ground (arith, eq_iff currency "EUR", eq_iff currency "USD"))
regime_for-rules_for rail currency (Regime.other s) h = absurd (ground arith)
