-- ===== src/Domain/Ledger/Amounts.antt =====
-- The amounts that an analyst supplies (CreditAmount and ParseSettlement of domain/ledger.go).
use thesis_dispute_engine.Prelude.{String, ◌≡◌, ◌≢◌, ◌↔◌, ◌⊎◌, true, false, arith, eq_iff}
use thesis_dispute_engine.Prelude.Decimal.{Decimals, less-zero-sub, less-self-sub}
use thesis_dispute_engine.Result.{ok}
use thesis_dispute_engine.Domain.Vocabulary.{SuspenseSettlement, recovered, written_off}
use thesis_dispute_engine.Domain.Regime.{Rules}
use thesis_dispute_engine.Domain.Ledger.{credit_amount, parse_settlement}

words_differ :
    (◌≢◌ {A = String} "" "RECOVERED")
    × (◌≢◌ {A = String} "" "WRITTEN_OFF")
    × (◌≢◌ {A = String} "RECOVERED" "WRITTEN_OFF")
words_differ = (
  (ground (arith, eq_iff "" "RECOVERED")),
  (ground (arith, eq_iff "" "WRITTEN_OFF")),
  (ground (arith, eq_iff "RECOVERED" "WRITTEN_OFF")),
)

-- A settlement is accepted exactly when it is left empty, for the regime's own, or is one of the two
-- words, for itself.
pub parse_settlement_iff :
    (r : Rules) (raw : String) (s : SuspenseSettlement)
    → (parse_settlement r raw ≡ ok s) ↔ (
        ((raw ≡ "") × (s ≡ r.close_settlement))
        ⊎ ((raw ≡ "RECOVERED") × (s ≡ recovered))
        ⊎ ((raw ≡ "WRITTEN_OFF") × (s ≡ written_off)))
unfolding parse_settlement
parse_settlement_iff r raw s =
    ground (arith, eq_iff raw "", eq_iff raw "RECOVERED", eq_iff raw "WRITTEN_OFF", words_differ)

module _ (dec : Decimals) where
  open dec use {Num, zero_num, sub, from_minor, less_than, less_asymm}

  -- A liability is accepted exactly when it is not negative, is within the regime's cap and is less
  -- than a positive claim; the credit is then the claim less the liability.
  credit_amount_iff :
      (r : Rules) (disputed liability credit : Num)
      → (credit_amount dec r disputed liability ≡ ok credit) ↔ (
          (less_than liability zero_num ≡ false)
          × (less_than (from_minor r.liability_cap_minor) liability ≡ false)
          × ((less_than liability disputed ≡ true) ⊎ (less_than zero_num disputed ≡ false))
          × (credit ≡ sub disputed liability))
  unfolding credit_amount
  credit_amount_iff r disputed liability credit = ground arith

  -- The credit on a positive claim is positive and no more than the claim.
  credit_amount_bounds :
      (r : Rules) (disputed liability credit : Num)
      → less_than zero_num disputed ≡ true
      → credit_amount dec r disputed liability ≡ ok credit
      → (less_than zero_num credit ≡ true) × (less_than disputed credit ≡ false)
  unfolding credit_amount
  credit_amount_bounds r disputed liability credit pos h = ground (
    arith,
    less-zero-sub dec disputed liability,
    less-self-sub dec disputed liability,
    less_asymm liability disputed,
  )
