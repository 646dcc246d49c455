-- ===== src/Domain/Ledger.antt =====
-- domain/ledger.go: the double-entry movements that entering a state causes. Amounts are numbers of
-- the decimal package, a parameter.
pub mod Amounts
pub mod Suspense
pub mod History
use thesis_dispute_engine.Prelude.{
  String, Bool, true, false, ◌&&◌, List, [], ◌∷◌, str_eq, if◌then◌else◌,
}
use thesis_dispute_engine.Prelude.Decimal.{
  Decimals, is_positive, is_negative, greater_than, greater_than_or_equal,
}
use thesis_dispute_engine.Result.{Result, ok, err}
use thesis_dispute_engine.Errs.{GoError, Error, unprocessable, new, classified, with_fields}
use thesis_dispute_engine.Domain.Vocabulary.{
  State, provisional_credit_issued, fast_refund_issued, sepa_nqa_refund_issued, chargeback_won,
  chargeback_lost, provisional_credit_reversed, closed, Account, customer, suspense, recovery, loss,
  PostingKind, SuspenseSettlement, recovered, written_off,
}
use thesis_dispute_engine.Domain.Regime.{Rules, has_provisional_credit}

-- `N` is the type of amounts.
pub record Posting (N : Type 0) : Type 0 where
  pub kind : PostingKind
  pub debit : Account
  pub credit : Account
  pub amount : N
  pub currency : String

abbrev pub err_invalid_liability : Error
err_invalid_liability =
    new unprocessable "invalid-liability" "the customer liability is not allowed under this regime"

abbrev pub err_invalid_settlement : Error
err_invalid_settlement =
    new unprocessable "invalid-settlement" "the settlement is not one of RECOVERED or WRITTEN_OFF"

-- The local function `refuse` of `CreditAmount`.
abbrev pub refuse_liability : String → GoError
refuse_liability message = classified (
    with_fields err_invalid_liability
      (record { field = "body.payload.liability"; message = message } ∷ []))

unfoldable pub parse_settlement : Rules → String → Result SuspenseSettlement
parse_settlement r raw =
    if str_eq raw ""
    then ok r.close_settlement
    else if str_eq raw "RECOVERED"
    then ok recovered
    else if str_eq raw "WRITTEN_OFF"
    then ok written_off
    else err (
        classified (
          with_fields err_invalid_settlement (
            record {
              field = "body.payload.settlement";
              message = "%q is not RECOVERED or WRITTEN_OFF";
            }
            ∷ [])))

pub record PostingInput (N : Type 0) : Type 0 where
  pub entered : State
  pub disputed : N
  pub currency : String
  pub liability : N
  pub outstanding : N
  pub settlement : SuspenseSettlement

abbrev pub is_suspense : Account → Bool
is_suspense suspense = true
is_suspense _ = false

module _ (dec : Decimals) where
  open dec use {Num, zero_num, add, sub, from_minor}

  unfoldable pub credit_amount : Rules → Num → Num → Result Num
  credit_amount r disputed liability =
      let cap_ = from_minor r.liability_cap_minor in
      if is_negative dec liability
      then err (refuse_liability "must not be negative")
      else if greater_than dec liability cap_
      then err (refuse_liability "exceeds the %s %s cap under %s")
      else if greater_than_or_equal dec liability disputed && is_positive dec disputed
      then err (refuse_liability "consumes the whole disputed amount of %s %s")
      else ok (sub disputed liability)

  -- The local function `post` of `Postings`.
  abbrev pub post_if_positive :
      PostingInput Num → PostingKind → Account → Account → Num → List (Posting Num)
  post_if_positive inp kind debit credit amount =
      if is_positive dec amount
      then record {
        kind = kind;
        debit = debit;
        credit = credit;
        amount = amount;
        currency = inp.currency;
      }
        ∷ []
      else []

  -- The local function `settle` of `Postings`.
  abbrev pub settle_suspense : PostingInput Num → SuspenseSettlement → List (Posting Num)
  settle_suspense inp recovered =
      post_if_positive inp PostingKind.recovery recovery suspense inp.outstanding
  settle_suspense inp written_off =
      post_if_positive inp PostingKind.write_off loss suspense inp.outstanding

  -- The `switch` of `Postings` on the entered state.
  unfoldable pub postings_on : Rules → PostingInput Num → State → List (Posting Num)
  postings_on r inp provisional_credit_issued =
      post_if_positive inp PostingKind.provisional_credit suspense customer
        (sub inp.disputed inp.liability)
  postings_on r inp fast_refund_issued =
      post_if_positive inp PostingKind.fast_refund suspense customer
        (sub inp.disputed inp.liability)
  postings_on r inp sepa_nqa_refund_issued =
      post_if_positive inp PostingKind.nqa_refund suspense customer (sub inp.disputed inp.liability)
  postings_on r inp provisional_credit_reversed =
      post_if_positive inp PostingKind.provisional_credit_reversal customer suspense inp.outstanding
  postings_on r inp chargeback_won = settle_suspense inp recovered
  postings_on r inp chargeback_lost =
      if has_provisional_credit r then [] else settle_suspense inp written_off
  postings_on r inp closed = settle_suspense inp inp.settlement
  postings_on r inp _ = []

  unfoldable pub postings : Rules → PostingInput Num → List (Posting Num)
  unfolding postings_on
  postings r inp = postings_on r inp inp.entered

  -- The body of the loop of `SuspenseBalance`.
  abbrev pub suspense_step : Num → Posting Num → Num
  suspense_step total p =
      let total' : Num = if is_suspense p.debit then add total p.amount else total in
      if is_suspense p.credit then sub total' p.amount else total'

  unfoldable pub suspense_from : Num → List (Posting Num) → Num
  suspense_from total [] = total
  suspense_from total (p ∷ ps) = suspense_from (suspense_step total p) ps

  unfoldable pub suspense_balance : List (Posting Num) → Num
  unfolding suspense_from
  suspense_balance ps = suspense_from zero_num ps
