-- ===== src/Domain/Ledger/History.antt =====
-- The ledger of a dispute over a whole history, each event posted as the service posts it: `Postings`
-- of domain/ledger.go on the state that `Apply` of domain/state.go enters, with the suspense balance
-- of the ledger so far.
use thesis_dispute_engine.Prelude.{String, ◌≡◌, refl, false, List, [], ◌∷◌, ◌++◌, arith}
use thesis_dispute_engine.Prelude.Decimal.{Decimals}
use thesis_dispute_engine.Result.{Result, ok, ◌>>=◌, >>=-eq-ok, ok-injective}
use thesis_dispute_engine.Domain.Vocabulary.{
  Regime, State, initiated, closed, Event, SuspenseSettlement,
}
use thesis_dispute_engine.Domain.Regime.{Rules, rules_for}
use thesis_dispute_engine.Domain.Lifecycle.{Dispute, apply}
use thesis_dispute_engine.Domain.Lifecycle.Spec.{Step, move, reopen, apply_iff, Edge-next}
use thesis_dispute_engine.Domain.Lifecycle.Reach.{IsValid, apply-IsValid}
use thesis_dispute_engine.Domain.Ledger.{
  Posting, PostingInput, postings, suspense_from, suspense_balance,
}
use thesis_dispute_engine.Domain.Ledger.Suspense.{
  Balanced, suspense_balance-append, postings-Balanced, Balanced-Outstanding,
}

-- An event with the facts that an analyst supplies for it.
pub record Move (N : Type 0) : Type 0 where
  pub event : Event
  pub liability : N
  pub settlement : SuspenseSettlement

-- A dispute and its ledger.
pub record Case (N : Type 0) : Type 0 where
  pub dispute : Dispute
  pub ledger : List (Posting N)

module _ (dec : Decimals) (r : Rules) (disputed : dec.Num) (currency : String) where
  open dec use {Num, zero_num, less_than}

  abbrev pub posting_input : Case Num → Move Num → State → PostingInput Num
  posting_input c m entered = record {
    entered = entered;
    disputed = disputed;
    currency = currency;
    liability = m.liability;
    outstanding = suspense_balance dec c.ledger;
    settlement = m.settlement;
  }

  unfoldable pub take_move : Case Num → Move Num → Result (Case Num)
  take_move c m = do
    d ← apply c.dispute m.event
    ok (record { dispute = d; ledger = c.ledger ++ postings dec r (posting_input c m d.state) })

  unfoldable pub take_moves : Case Num → List (Move Num) → Result (Case Num)
  unfolding take_move
  take_moves c [] = ok c
  take_moves c (m ∷ ms) = take_move c m >>= λ c'. take_moves c' ms

  pub record IsBalanced (c : Case Num) : Type 0 where
    pub valid : IsValid r c.dispute
    pub balanced : Balanced dec r c.dispute.state (suspense_balance dec c.ledger)

  postings-Step :
      (c : Case Num) (m : Move Num) (d : Dispute)
      → Step r c.dispute m.event d
      → Balanced dec r c.dispute.state (suspense_balance dec c.ledger)
      → Balanced dec r d.state (
          suspense_from dec
            (suspense_balance dec c.ledger)
            (postings dec r (posting_input c m d.state)))
  unfolding postings suspense_from
  postings-Step c m d (move edge g n) b =
      postings-Balanced dec r c.dispute.state m.event (posting_input c m d.state) (Edge-next edge) b
  postings-Step c m d (reopen a closed_ l s g n) b = rw s (rw closed_ at b)

  pub take_move-IsBalanced :
      (c c' : Case Num) (m : Move Num) → IsBalanced c → take_move c m ≡ ok c' → IsBalanced c'
  unfolding take_move
  take_move-IsBalanced c c' m h run =
      let (d, step, out) =
        >>=-eq-ok (apply c.dispute m.event)
          (λ d. ok (record {
            dispute = d;
            ledger = c.ledger ++ postings dec r (posting_input c m d.state);
          }))
          run in
      rw (← ok-injective out) (record {
        valid = apply-IsValid r c.dispute d m.event h.valid step;
        balanced = rw (suspense_balance-append dec) (
            postings-Step c m d ((apply_iff r c.dispute d m.event h.valid.known).0 step)
              h.balanced);
      })

  take_moves-IsBalanced :
      (c c' : Case Num) (ms : List (Move Num))
      → IsBalanced c
      → take_moves c ms ≡ ok c'
      → IsBalanced c'
  unfolding take_moves
  take_moves-IsBalanced c c' [] h run = rw (← ok-injective run) h
  take_moves-IsBalanced c c' (m ∷ ms) h run =
      let (x, first, rest) = >>=-eq-ok (take_move c m) (λ x. take_moves x ms) run in
      take_moves-IsBalanced x c' ms (take_move-IsBalanced c x m h first) rest

-- A dispute that has just been opened, with nothing posted.
abbrev pub opened : {N : Type 0} → Regime → Case N
opened regime = record {
  dispute = record { regime = regime; state = initiated; appeals = 0 };
  ledger = [];
}

module _ (dec : Decimals) where
  open dec use {Num, zero_num, less_than}

  pub opened-IsBalanced :
      (r : Rules) (disputed : Num) (currency : String) (regime : Regime)
      → rules_for regime ≡ ok r
      → IsBalanced dec r disputed currency (opened regime)
  unfolding suspense_balance
  opened-IsBalanced r disputed currency regime known = record {
    valid = record { known = known; enabled = tt; appeals_capped = omega arith };
    balanced = refl;
  }

  history-IsBalanced :
      (r : Rules) (disputed : Num) (currency : String) (regime : Regime) (ms : List (Move Num))
      (c : Case Num)
      → rules_for regime ≡ ok r
      → take_moves dec r disputed currency (opened regime) ms ≡ ok c
      → IsBalanced dec r disputed currency c
  history-IsBalanced r disputed currency regime ms c known run =
      take_moves-IsBalanced dec r disputed currency (opened regime) c ms
        (opened-IsBalanced r disputed currency regime known) run

  -- Whatever events a dispute has taken since its opening under the rules of its regime, with whatever
  -- liabilities and settlements, no more has been taken out of suspense than was put in.
  pub suspense_never_negative :
      (r : Rules) (disputed : Num) (currency : String) (regime : Regime) (ms : List (Move Num))
      (c : Case Num)
      → rules_for regime ≡ ok r
      → take_moves dec r disputed currency (opened regime) ms ≡ ok c
      → less_than (suspense_balance dec c.ledger) zero_num ≡ false
  suspense_never_negative r disputed currency regime ms c known run =
      Balanced-Outstanding dec r c.dispute.state (suspense_balance dec c.ledger)
        (history-IsBalanced r disputed currency regime ms c known run).balanced

  -- Whatever events took a dispute from its opening under the rules of its regime to `closed`, with
  -- whatever liabilities and settlements, nothing is left in suspense.
  pub suspense_cleared :
      (r : Rules) (disputed : Num) (currency : String) (regime : Regime) (ms : List (Move Num))
      (c : Case Num)
      → rules_for regime ≡ ok r
      → take_moves dec r disputed currency (opened regime) ms ≡ ok c
      → c.dispute.state ≡ closed
      → suspense_balance dec c.ledger ≡ zero_num
  suspense_cleared r disputed currency regime ms c known run e =
      let b = (history-IsBalanced r disputed currency regime ms c known run).balanced in rw e at b
