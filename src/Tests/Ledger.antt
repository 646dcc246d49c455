-- ===== src/Tests/Ledger.antt =====
-- Runs of the ledger and of the notices (domain/ledger.go, notice.go), in whole cents.
use thesis_dispute_engine.Prelude.{◌≡◌, refl, ◌⊎◌, inl, inr, false, List, [], ◌∷◌}
use thesis_dispute_engine.Prelude.Int.{ℤ, pos, cents, ltb_ℤ, ◌-ℤ◌, ◌+ℤ◌}
use thesis_dispute_engine.Result.{ok}
use thesis_dispute_engine.Domain.Vocabulary.{
  Regime, provisional_credit_issued, closed, Event, open_investigation, issue_refund,
  file_chargeback, acknowledge_chargeback, lose_chargeback, reverse_provisional_credit, close,
  customer, suspense, PostingKind, written_off, NoticeKind,
}
use thesis_dispute_engine.Domain.Regime.{reg_e_rules, rules_for}
use thesis_dispute_engine.Domain.Lifecycle.{next, apply}
use thesis_dispute_engine.Domain.Ledger.{
  Posting, PostingInput, postings, postings_on, suspense_balance, suspense_from,
}
use thesis_dispute_engine.Domain.Ledger.History.{
  Move, Case, opened, take_move, take_moves, suspense_never_negative, suspense_cleared,
}
use thesis_dispute_engine.Domain.Notice.{notices_for}
use thesis_dispute_engine.Domain.Notice.Laws.{movement_owes_notice}

abbrev by_default : Event → Move ℤ
by_default e = record { event = e; liability = pos 5000; settlement = written_off }

-- 120.00 are claimed and 50.00 of it are the customer's liability; the chargeback is lost.
abbrev lost_moves : List (Move ℤ)
lost_moves =
    by_default open_investigation
    ∷ by_default issue_refund
    ∷ by_default file_chargeback
    ∷ by_default acknowledge_chargeback
    ∷ by_default lose_chargeback
    ∷ by_default reverse_provisional_credit
    ∷ by_default close
    ∷ []

abbrev credit : Posting ℤ
credit = record {
  kind = PostingKind.provisional_credit;
  debit = suspense;
  credit = customer;
  amount = pos 7000;
  currency = "USD";
}

abbrev reversal : Posting ℤ
reversal = record {
  kind = PostingKind.provisional_credit_reversal;
  debit = customer;
  credit = suspense;
  amount = pos 7000;
  currency = "USD";
}

abbrev lost_case : Case ℤ
lost_case = record {
  dispute = record { regime = Regime.us_reg_e; state = closed; appeals = 0 };
  ledger = credit ∷ reversal ∷ [];
}

lost_run :
    take_moves cents reg_e_rules (pos 12000) "USD" (opened Regime.us_reg_e) lost_moves
    ≡ ok lost_case
unfolding take_moves take_move apply next rules_for postings postings_on suspense_balance
    suspense_from ◌-ℤ◌ ◌+ℤ◌
lost_run = refl

suspense_cleared_example : suspense_balance cents lost_case.ledger ≡ pos 0
unfolding rules_for
suspense_cleared_example =
    suspense_cleared cents reg_e_rules (pos 12000) "USD" Regime.us_reg_e lost_moves lost_case refl
      lost_run refl

suspense_never_negative_example : ltb_ℤ (suspense_balance cents lost_case.ledger) (pos 0) ≡ false
unfolding rules_for
suspense_never_negative_example =
    suspense_never_negative cents reg_e_rules (pos 12000) "USD" Regime.us_reg_e lost_moves lost_case
      refl lost_run

abbrev credit_input : PostingInput ℤ
credit_input = record {
  entered = provisional_credit_issued;
  disputed = pos 12000;
  currency = "USD";
  liability = pos 5000;
  outstanding = pos 0;
  settlement = written_off;
}

movement_owes_notice_example :
    ((PostingKind.provisional_credit ≡ PostingKind.provisional_credit)
      × (notices_for reg_e_rules provisional_credit_issued ≡ NoticeKind.provisional_credit ∷ []))
    ⊎ (((PostingKind.provisional_credit ≡ PostingKind.fast_refund)
          ⊎ (PostingKind.provisional_credit ≡ PostingKind.nqa_refund))
        × (notices_for reg_e_rules provisional_credit_issued ≡ NoticeKind.refund ∷ []))
    ⊎ ((PostingKind.provisional_credit ≡ PostingKind.provisional_credit_reversal)
        × (notices_for reg_e_rules provisional_credit_issued ≡ NoticeKind.reversal ∷ []))
unfolding postings postings_on ◌-ℤ◌
movement_owes_notice_example =
    movement_owes_notice cents reg_e_rules credit_input credit (inl refl) (inr refl)
