-- ===== src/Domain/Ledger/Suspense.antt =====
-- The suspense account of a dispute over any history of events (Postings of domain/ledger.go).
use thesis_dispute_engine.Prelude.{
  ◌≡◌, refl, false, some, List, [], ◌∷◌, ◌++◌, arith, if◌then◌else◌,
}
use thesis_dispute_engine.Prelude.Decimal.{Decimals, sub_self}
use thesis_dispute_engine.Domain.Vocabulary.{
  State, initiated, provisional_credit_issued, fast_refund_issued, sepa_nqa_refund_issued,
  chargeback_filed, chargeback_acknowledged, evidence_submitted, chargeback_won, chargeback_lost,
  provisional_credit_reversed, closed, Event,
}
use thesis_dispute_engine.Domain.Regime.{Rules, has_provisional_credit}
use thesis_dispute_engine.Domain.Lifecycle.{next}
use thesis_dispute_engine.Domain.Ledger.{
  Posting, PostingInput, postings, postings_on, suspense_from, suspense_balance, suspense_step,
}

module _ (dec : Decimals) where
  open dec use {Num, zero_num, add, sub, less_than, zero-add, less_irrefl, less_asymm, less_connex}

  pub suspense_from-append :
      (t : Num) (ps qs : List (Posting Num))
      → suspense_from dec t (ps ++ qs) ≡ suspense_from dec (suspense_from dec t ps) qs
  unfolding suspense_from
  suspense_from-append t [] qs = refl
  suspense_from-append t (p ∷ ps) qs = suspense_from-append (suspense_step dec t p) ps qs

  pub suspense_balance-append :
      (ps qs : List (Posting Num))
      → suspense_balance dec (ps ++ qs) ≡ suspense_from dec (suspense_balance dec ps) qs
  unfolding suspense_balance
  suspense_balance-append ps qs = suspense_from-append zero_num ps qs

  -- What a suspense balance may be in a state of the lifecycle: nothing has been advanced and is not
  -- cleared, or some amount is outstanding.
  abbrev pub Outstanding : Num → Type 0
  Outstanding b = less_than b zero_num ≡ false

  abbrev pub Settled : Num → Type 0
  Settled b = b ≡ zero_num

  abbrev pub Balanced : Rules → State → Num → Type 0
  Balanced r provisional_credit_issued b = Outstanding b
  Balanced r fast_refund_issued b = Outstanding b
  Balanced r sepa_nqa_refund_issued b = Outstanding b
  Balanced r chargeback_filed b = Outstanding b
  Balanced r chargeback_acknowledged b = Outstanding b
  Balanced r evidence_submitted b = Outstanding b
  Balanced r chargeback_lost b = if has_provisional_credit r then Outstanding b else Settled b
  Balanced r (State.other _) b = ⊥
  Balanced r _ b = Settled b

  -- A movement that takes what is outstanding out of suspense, if there is any.
  abbrev drained : Num → Num
  drained b = if less_than zero_num b then sub b b else b

  drained-Settled : (b : Num) → Outstanding b → Settled (drained b)
  drained-Settled b h = ground (arith, sub_self dec b, less_connex zero_num b)

  abbrev advanced : Num → Num → Num
  advanced b x = if less_than zero_num x then add b x else b

  advanced-Outstanding : (b x : Num) → Settled b → Outstanding (advanced b x)
  advanced-Outstanding b x h =
      ground (arith, zero-add x, less_irrefl zero_num, less_asymm zero_num x)

  pub Settled-Outstanding : (b : Num) → Settled b → Outstanding b
  Settled-Outstanding b h = rw h (less_irrefl zero_num)

  pub Balanced-Outstanding : (r : Rules) (s : State) (b : Num) → Balanced r s b → Outstanding b
  Balanced-Outstanding r s b h = ground (arith, Settled-Outstanding b)

  -- What the postings of an entered state do to the suspense balance that they are computed from.
  abbrev moved : Rules → PostingInput Num → State → Num
  moved r inp provisional_credit_issued = advanced inp.outstanding (sub inp.disputed inp.liability)
  moved r inp fast_refund_issued = advanced inp.outstanding (sub inp.disputed inp.liability)
  moved r inp sepa_nqa_refund_issued = advanced inp.outstanding (sub inp.disputed inp.liability)
  moved r inp provisional_credit_reversed = drained inp.outstanding
  moved r inp chargeback_won = drained inp.outstanding
  moved r inp chargeback_lost =
      if has_provisional_credit r then inp.outstanding else drained inp.outstanding
  moved r inp closed = drained inp.outstanding
  moved r inp _ = inp.outstanding

  postings-moved :
      (r : Rules) (inp : PostingInput Num) (t : State)
      → suspense_from dec inp.outstanding (postings_on dec r inp t) ≡ moved r inp t
  unfolding postings suspense_from
  postings-moved r inp initiated = refl
  postings-moved r inp t = ground arith

  moved-Balanced :
      (r : Rules) (s : State) (e : Event) (t : State) (inp : PostingInput Num)
      → next r s e ≡ some t
      → Balanced r s inp.outstanding
      → Balanced r t (moved r inp t)
  unfolding next
  moved-Balanced r s e initiated inp h b = ground arith
  moved-Balanced r s e t inp h b = ground (
    arith,
    drained-Settled inp.outstanding (Balanced-Outstanding r s inp.outstanding b),
    advanced-Outstanding inp.outstanding (sub inp.disputed inp.liability),
    Balanced-Outstanding r s inp.outstanding b,
  )

  -- One transition keeps the balance what its state says, if the postings are computed from it.
  pub postings-Balanced :
      (r : Rules) (s : State) (e : Event) (inp : PostingInput Num)
      → next r s e ≡ some inp.entered
      → Balanced r s inp.outstanding
      → Balanced r inp.entered (suspense_from dec inp.outstanding (postings dec r inp))
  unfolding postings
  postings-Balanced r s e inp h b =
      rw (postings-moved r inp inp.entered) (moved-Balanced r s e inp.entered inp h b)
