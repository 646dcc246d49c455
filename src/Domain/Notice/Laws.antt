-- ===== src/Domain/Notice/Laws.antt =====
-- Which notices are owed, against the movements of money (domain/notice.go, domain/ledger.go).
use thesis_dispute_engine.Prelude.{◌≡◌, ◌≢◌, ◌↔◌, ◌⊎◌, true, [], ◌∷◌, arith, In}
use thesis_dispute_engine.Prelude.Decimal.{Decimals}
use thesis_dispute_engine.Domain.Vocabulary.{NoticeKind, email, letter, customer, PostingKind}
use thesis_dispute_engine.Domain.Regime.{Rules}
use thesis_dispute_engine.Domain.Ledger.{Posting, PostingInput, postings}
use thesis_dispute_engine.Domain.Notice.{notices_for, channels_for}

-- Every notice goes out by email, and by letter too exactly when the regime's notices are written
-- and it is not the questionnaire.
pub channels_for_iff :
    (r : Rules) (k : NoticeKind)
    → In email (channels_for r k)
      × (In letter (channels_for r k)
          ↔ ((r.written_notices ≡ true) × (k ≢ NoticeKind.questionnaire)))
unfolding channels_for
channels_for_iff r k = ground arith

module _ (dec : Decimals) where
  open dec use {Num}

  -- The customer's account is one side of the posting.
  abbrev pub MovesCustomer : Posting Num → Type 0
  MovesCustomer p = (p.debit ≡ customer) ⊎ (p.credit ≡ customer)

  -- Whenever entering a state moves money on the customer's account, the one notice that entering the
  -- state owes is of that movement: of a provisional credit, of a refund or of a reversal, as the
  -- posting is.
  pub movement_owes_notice :
      (r : Rules) (inp : PostingInput Num) (p : Posting Num)
      → In p (postings dec r inp)
      → MovesCustomer p
      → ((p.kind ≡ PostingKind.provisional_credit)
          × (notices_for r inp.entered ≡ NoticeKind.provisional_credit ∷ []))
        ⊎ (((p.kind ≡ PostingKind.fast_refund) ⊎ (p.kind ≡ PostingKind.nqa_refund))
            × (notices_for r inp.entered ≡ NoticeKind.refund ∷ []))
        ⊎ ((p.kind ≡ PostingKind.provisional_credit_reversal)
            × (notices_for r inp.entered ≡ NoticeKind.reversal ∷ []))
  unfolding postings notices_for
  movement_owes_notice r inp p h m = ground arith
