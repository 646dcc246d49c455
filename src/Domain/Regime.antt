-- ===== src/Domain/Regime.antt =====
-- domain/regime.go and domain/rail.go: what each regime contributes, and which regime governs a
-- transaction. The map `rules` is a function by cases; its miss is the regime `other`.
pub mod Laws
use thesis_dispute_engine.Prelude.{
  ℕ, String, Bool, true, false, not, List, [], ◌∷◌, str_eq, ◌&&◌, if◌then◌else◌,
}
use thesis_dispute_engine.Result.{Result, ok, err}
use thesis_dispute_engine.Errs.{Error, invalid, unprocessable, new, classified, wrap}
use thesis_dispute_engine.Domain.Vocabulary.{
  Regime, RefundPath, State, Rail, DeadlineKind, DayUnit, SuspenseSettlement, refund_path_eq,
}

pub record Clock : Type 0 where
  pub kind : DeadlineKind
  pub count : ℕ
  pub unit : DayUnit
  pub basis : String

pub record Rules : Type 0 where
  pub regime : Regime
  pub refund : RefundPath
  pub clocks : List Clock
  pub has_adjudication : Bool
  pub merchant_may_contest : Bool
  pub liability_cap_minor : ℕ
  pub currency : String
  pub max_appeals : ℕ
  pub close_settlement : SuspenseSettlement
  pub written_notices : Bool

abbrev pub has_provisional_credit : Rules → Bool
has_provisional_credit r = refund_path_eq r.refund RefundPath.provisional_credit

abbrev pub has_refund_step : Rules → Bool
has_refund_step r = not (refund_path_eq r.refund RefundPath.none)

abbrev refund_state_of : RefundPath → State
refund_state_of RefundPath.provisional_credit = State.provisional_credit_issued
refund_state_of RefundPath.fast = State.fast_refund_issued
refund_state_of RefundPath.no_questions_asked = State.sepa_nqa_refund_issued
refund_state_of RefundPath.none = State.other ""

abbrev pub refund_state : Rules → State
refund_state r = refund_state_of r.refund

abbrev pub default_appeals : ℕ
default_appeals = 1

abbrev pub sepa_rules : Rules
sepa_rules = record {
  regime = Regime.eu_sepa_direct_debit;
  refund = RefundPath.no_questions_asked;
  clocks =
      record {
        kind = DeadlineKind.refund;
        count = 10;
        unit = DayUnit.business_days;
        basis = "PSD2 art. 77(2): refund or justification within 10 business days of the request";
      }
      ∷ record {
        kind = DeadlineKind.resolution;
        count = 15;
        unit = DayUnit.business_days;
        basis = "PSD2 art. 101(2): final reply to a complaint within 15 business days";
      }
      ∷ [];
  has_adjudication = false;
  merchant_may_contest = false;
  liability_cap_minor = 0;
  currency = "EUR";
  max_appeals = default_appeals;
  close_settlement = SuspenseSettlement.recovered;
  written_notices = false;
}

abbrev pub psd2_card_rules : Rules
psd2_card_rules = record {
  regime = Regime.eu_psd2_card;
  refund = RefundPath.fast;
  clocks =
      record {
        kind = DeadlineKind.refund;
        count = 1;
        unit = DayUnit.business_days;
        basis = "PSD2 art. 73(1): refund by the end of the following business day";
      }
      ∷ record {
        kind = DeadlineKind.resolution;
        count = 15;
        unit = DayUnit.business_days;
        basis = "PSD2 art. 101(2): final reply to a complaint within 15 business days";
      }
      ∷ [];
  has_adjudication = true;
  merchant_may_contest = true;
  liability_cap_minor = 5000;
  currency = "EUR";
  max_appeals = default_appeals;
  close_settlement = SuspenseSettlement.written_off;
  written_notices = false;
}

abbrev pub reg_e_rules : Rules
reg_e_rules = record {
  regime = Regime.us_reg_e;
  refund = RefundPath.provisional_credit;
  clocks =
      record {
        kind = DeadlineKind.refund;
        count = 10;
        unit = DayUnit.business_days;
        basis = "12 CFR 1005.11(c)(2)(i): provisional credit within 10 business days";
      }
      ∷ record {
        kind = DeadlineKind.resolution;
        count = 45;
        unit = DayUnit.calendar_days;
        basis = "12 CFR 1005.11(c)(2): investigation complete within 45 days";
      }
      ∷ [];
  has_adjudication = true;
  merchant_may_contest = true;
  liability_cap_minor = 5000;
  currency = "USD";
  max_appeals = default_appeals;
  close_settlement = SuspenseSettlement.written_off;
  written_notices = true;
}

abbrev pub reg_z_rules : Rules
reg_z_rules = record {
  regime = Regime.us_reg_z;
  refund = RefundPath.none;
  clocks =
      record {
        kind = DeadlineKind.acknowledge;
        count = 30;
        unit = DayUnit.calendar_days;
        basis = "12 CFR 1026.13(c)(1): written acknowledgement within 30 days";
      }
      ∷ record {
        kind = DeadlineKind.resolution;
        count = 90;
        unit = DayUnit.calendar_days;
        basis = "12 CFR 1026.13(c)(2): resolution within two billing cycles, at most 90 days";
      }
      ∷ [];
  has_adjudication = true;
  merchant_may_contest = true;
  liability_cap_minor = 0;
  currency = "USD";
  max_appeals = default_appeals;
  close_settlement = SuspenseSettlement.written_off;
  written_notices = true;
}

abbrev pub err_unknown_regime : Error
err_unknown_regime = new invalid "unknown-regime" "unknown regulatory regime"

unfoldable pub rules_for : Regime → Result Rules
rules_for Regime.eu_sepa_direct_debit = ok sepa_rules
rules_for Regime.eu_psd2_card = ok psd2_card_rules
rules_for Regime.us_reg_e = ok reg_e_rules
rules_for Regime.us_reg_z = ok reg_z_rules
rules_for (Regime.other _) = err (wrap (classified err_unknown_regime) "%q")

abbrev pub err_no_regime : Error
err_no_regime =
    new unprocessable "no-regime" "no regulatory regime covers this transaction's rail and currency"

abbrev pub rail_is_sepa_dd : Rail → Bool
rail_is_sepa_dd Rail.sepa_dd = true
rail_is_sepa_dd _ = false

abbrev pub rail_is_card : Rail → Bool
rail_is_card Rail.card = true
rail_is_card _ = false

abbrev pub rail_is_credit_card : Rail → Bool
rail_is_credit_card Rail.credit_card = true
rail_is_credit_card _ = false

unfoldable pub regime_for : Rail → String → Result Regime
regime_for rail currency =
    if rail_is_sepa_dd rail && str_eq currency "EUR"
    then ok Regime.eu_sepa_direct_debit
    else if rail_is_card rail && str_eq currency "EUR"
    then ok Regime.eu_psd2_card
    else if rail_is_card rail && str_eq currency "USD"
    then ok Regime.us_reg_e
    else if rail_is_credit_card rail && str_eq currency "USD"
    then ok Regime.us_reg_z
    else err (wrap (classified err_no_regime) "%s/%s")
