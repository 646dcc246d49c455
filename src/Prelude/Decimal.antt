-- ===== src/Prelude/Decimal.antt =====
-- The package github.com/shopspring/decimal, which the program only calls: exact decimals with the
-- operations that the program uses. A value here is the number that a decimal stands for, so `≡` is
-- its method Equal. The laws are those of an ordered commutative group.
use mathlib.Core.Path.{ap₂}
use thesis_dispute_engine.Prelude.{ℕ, ◌≡◌, sym, ◌∙◌, Bool, true, false, not, String, Option}

pub record Decimals : Type 1 where
  pub Num : Type 0
  pub zero_num : Num
  pub add : Num → Num → Num
  pub sub : Num → Num → Num
  pub neg : Num → Num
  -- decimal.NewFromInt
  pub from_int : ℕ → Num
  -- decimal.NewFromInt(n).Shift(-2)
  pub from_minor : ℕ → Num
  -- decimal.NewFromString; none is its error
  pub new_from_string : String → Option Num
  -- a.LessThan(b)
  pub less_than : Num → Num → Bool
  pub add_assoc : (a b c : Num) → add (add a b) c ≡ add a (add b c)
  pub add_comm : (a b : Num) → add a b ≡ add b a
  pub zero-add : (a : Num) → add zero_num a ≡ a
  pub add-neg : (a : Num) → add a (neg a) ≡ zero_num
  pub sub_neg : (a b : Num) → sub a b ≡ add a (neg b)
  pub less_irrefl : (a : Num) → less_than a a ≡ false
  pub less_asymm : (a b : Num) → less_than a b ≡ true → less_than b a ≡ false
  pub less_connex : (a b : Num) → less_than a b ≡ false → less_than b a ≡ false → a ≡ b
  pub less_trans :
      (a b c : Num) → less_than a b ≡ false → less_than b c ≡ false → less_than a c ≡ false
  pub less-add : (a b c : Num) → less_than (add a c) (add b c) ≡ less_than a b

module _ (d : Decimals) where
  open d use {Num, zero_num, less_than}

  abbrev pub is_positive : Num → Bool
  is_positive a = less_than zero_num a

  abbrev pub is_negative : Num → Bool
  is_negative a = less_than a zero_num

  abbrev pub greater_than : Num → Num → Bool
  greater_than a b = less_than b a

  abbrev pub greater_than_or_equal : Num → Num → Bool
  greater_than_or_equal a b = not (less_than a b)

  -- a.LessThanOrEqual(b), as a statement
  abbrev pub IsLe : Num → Num → Type 0
  IsLe a b = less_than b a ≡ false

module _ (d : Decimals) where
  open d use {
    Num, zero_num, add, sub, neg, less_than, add_assoc, add_comm, zero-add, add-neg, sub_neg,
    less-add,
  }

  pub add-zero : (a : Num) → add a zero_num ≡ a
  add-zero a = add_comm a zero_num ∙ zero-add a

  pub sub_self : (a : Num) → sub a a ≡ zero_num
  sub_self a = sub_neg a a ∙ add-neg a

  pub sub-add_cancel : (a b : Num) → add (sub a b) b ≡ a
  sub-add_cancel a b =
      rw (sub_neg a b, add_assoc a (neg b) b, add_comm (neg b) b, add-neg b) (add-zero a)

  pub add-add-neg : (a b : Num) → add (add a b) (neg b) ≡ a
  add-add-neg a b = rw (add_assoc a b (neg b), add-neg b) (add-zero a)

  -- A difference is positive exactly when it takes away less.
  pub less-zero-sub : (a b : Num) → less_than zero_num (sub a b) ≡ less_than b a
  less-zero-sub a b =
      sym (less-add zero_num (sub a b) b) ∙ ap₂ less_than (zero-add b) (sub-add_cancel a b)

  -- A difference is more than what it takes away from exactly when it takes away less than nothing.
  pub less-self-sub : (a b : Num) → less_than a (sub a b) ≡ less_than b zero_num
  less-self-sub a b =
      sym (less-add a (sub a b) b)
      ∙ ap₂ less_than (add_comm a b) (sub-add_cancel a b ∙ sym (zero-add a))
      ∙ less-add b zero_num a
