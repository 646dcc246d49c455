-- ===== src/Application/Balances.antt =====
-- The running totals of a dispute's ledger accounts (Balances.add of application/service.go, and its
-- loops in viewWith and facts).
use thesis_dispute_engine.Prelude.{◌≡◌, refl, sym, ◌∙◌, ap, List, [], ◌∷◌, if◌then◌else◌}
use thesis_dispute_engine.Prelude.Decimal.{Decimals, add-zero, sub-add_cancel, add-add-neg}
use thesis_dispute_engine.Domain.Vocabulary.{Account, customer, suspense, recovery, loss}
use thesis_dispute_engine.Domain.Ledger.{
  Posting, suspense_step, suspense_from, suspense_balance, is_suspense,
}

pub record Balances (N : Type 0) : Type 0 where
  pub customer : N
  pub suspense : N
  pub recovery : N
  pub loss : N

module _ (dec : Decimals) where
  open dec use {Num, zero_num, add, sub, neg, add_assoc, add_comm, zero-add, add-neg, sub_neg}

  -- A debit is positive, a credit negative; the customer's balance is kept from the customer's side.
  unfoldable pub add_to : Balances Num → Account → Num → Balances Num
  add_to b customer debit = record {
    customer = sub b.customer debit;
    suspense = b.suspense;
    recovery = b.recovery;
    loss = b.loss;
  }
  add_to b suspense debit = record {
    customer = b.customer;
    suspense = add b.suspense debit;
    recovery = b.recovery;
    loss = b.loss;
  }
  add_to b recovery debit = record {
    customer = b.customer;
    suspense = b.suspense;
    recovery = add b.recovery debit;
    loss = b.loss;
  }
  add_to b loss debit = record {
    customer = b.customer;
    suspense = b.suspense;
    recovery = b.recovery;
    loss = add b.loss debit;
  }

  abbrev pub zero_balances : Balances Num
  zero_balances = record {
    customer = zero_num;
    suspense = zero_num;
    recovery = zero_num;
    loss = zero_num;
  }

  unfoldable pub totals_from : Balances Num → List (Posting Num) → Balances Num
  unfolding add_to
  totals_from b [] = b
  totals_from b (p ∷ ps) =
      totals_from (add_to (add_to b p.debit p.amount) p.credit (neg p.amount)) ps

  unfoldable pub totals : List (Posting Num) → Balances Num
  unfolding totals_from
  totals ps = totals_from zero_balances ps

  -- What the bank holds on its own accounts.
  abbrev pub bank : Balances Num → Num
  bank b = add (add b.suspense b.recovery) b.loss

  swap : (a b c : Num) → add (add a b) c ≡ add (add a c) b
  swap a b c = add_assoc a b c ∙ ap (add a) (add_comm b c) ∙ sym (add_assoc a c b)

  -- The bank's accounts hold the customer's balance and `t` besides.
  abbrev OffBy : Balances Num → Num → Type 0
  OffBy b t = bank b ≡ add b.customer t

  add_to-OffBy :
      (b : Balances Num) (a : Account) (x t : Num) → OffBy b t → OffBy (add_to b a x) (add t x)
  unfolding add_to
  add_to-OffBy b customer x t h =
      h
      ∙ ap (λ c. add c t) (sym (sub-add_cancel dec b.customer x))
      ∙ add_assoc (sub b.customer x) x t
      ∙ ap (add (sub b.customer x)) (add_comm x t)
  add_to-OffBy b suspense x t h =
      ap (λ s. add s b.loss) (swap b.suspense x b.recovery)
      ∙ swap (add b.suspense b.recovery) x b.loss
      ∙ ap (λ s. add s x) h
      ∙ add_assoc b.customer t x
  add_to-OffBy b recovery x t h =
      ap (λ s. add s b.loss) (sym (add_assoc b.suspense b.recovery x))
      ∙ swap (add b.suspense b.recovery) x b.loss
      ∙ ap (λ s. add s x) h
      ∙ add_assoc b.customer t x
  add_to-OffBy b loss x t h =
      sym (add_assoc (add b.suspense b.recovery) b.loss x)
      ∙ ap (λ s. add s x) h
      ∙ add_assoc b.customer t x

  totals_from-OffBy :
      (b : Balances Num) (ps : List (Posting Num))
      → OffBy b zero_num
      → OffBy (totals_from b ps) zero_num
  unfolding totals_from
  totals_from-OffBy b [] h = h
  totals_from-OffBy b (p ∷ ps) h =
      let debited = add_to-OffBy b p.debit p.amount zero_num h in
      let credited =
        add_to-OffBy (add_to b p.debit p.amount) p.credit (neg p.amount) (add zero_num p.amount)
          debited in
      totals_from-OffBy (add_to (add_to b p.debit p.amount) p.credit (neg p.amount)) ps
        (rw (add-add-neg dec zero_num p.amount) at credited)

  add_to_suspense :
      (b : Balances Num) (a : Account) (x : Num)
      → (add_to b a x).suspense ≡ (if is_suspense a then add b.suspense x else b.suspense)
  unfolding add_to
  add_to_suspense b customer x = refl
  add_to_suspense b suspense x = refl
  add_to_suspense b recovery x = refl
  add_to_suspense b loss x = refl

  totals_from-suspense :
      (b : Balances Num) (ps : List (Posting Num))
      → (totals_from b ps).suspense ≡ suspense_from dec b.suspense ps
  unfolding totals_from suspense_from
  totals_from-suspense b [] = refl
  totals_from-suspense b (p ∷ ps) =
      let b' = add_to b p.debit p.amount in
      let step : (add_to b' p.credit (neg p.amount)).suspense ≡ suspense_step dec b.suspense p =
        rw (add_to_suspense b' p.credit (neg p.amount), add_to_suspense b p.debit p.amount, sub_neg)
          refl in
      totals_from-suspense (add_to b' p.credit (neg p.amount)) ps
      ∙ ap (λ s. suspense_from dec s ps) step

  -- Whatever the postings of a ledger, what the customer was credited is what the bank holds on its
  -- three accounts together, and its suspense account holds the balance that the next movements are
  -- computed from.
  totals_agree :
      (ps : List (Posting Num))
      → let b = totals ps in
        (b.customer ≡ add (add b.suspense b.recovery) b.loss)
        × (b.suspense ≡ suspense_balance dec ps)
  unfolding totals suspense_balance
  totals_agree ps = (
    sym (add-zero dec (totals_from zero_balances ps).customer)
        ∙ sym (totals_from-OffBy zero_balances ps (ap (λ s. add s zero_num) (zero-add zero_num))),
    totals_from-suspense zero_balances ps,
  )
