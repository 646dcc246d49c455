-- ===== src/Prelude/Texts.antt =====
-- The order of texts: Go compares strings by their bytes, which for identifiers are their code points.
use Prim.Native.String.{compare}
use Prim.Native.String.compare.{nil-nil, nil-cons, cons-nil, cons-cons}
use thesis_dispute_engine.Prelude.{String, ◌≡◌, ◌⊎◌, inl, inr, Bool, true, false, arith, refl}
use text.Mathlib.Text.{is_lt}
use text.Mathlib.TextEquality.{Char-path}
use text.Mathlib.TextPositions.{compare_refl}

-- s < t
abbrev pub text_lt : String → String → Bool
text_lt s t = is_lt (compare s t)

pub text_lt_irrefl : (s : String) → text_lt s s ≡ false
text_lt_irrefl s = rw (compare_refl s) refl

pub text_lt_trans : (s t u : String) → text_lt s t ≡ true → text_lt t u ≡ true → text_lt s u ≡ true
text_lt_trans s String.[] u h k = absurd (none_below s (h))
  where
    none_below : (s : String) → text_lt s String.[] ≡ true → ⊥
    none_below String.[] e = ground (arith, nil-nil)
    none_below (String.◌∷◌ c s) e = ground (arith, cons-nil c s)
text_lt_trans s (String.◌∷◌ d t) String.[] h k = ground (arith, cons-nil d t)
text_lt_trans String.[] (String.◌∷◌ d t) (String.◌∷◌ e u) h k = ground (arith, nil-cons e u)
text_lt_trans (String.◌∷◌ c s) (String.◌∷◌ d t) (String.◌∷◌ e u) h k =
    ground (arith, text_lt_trans s t u, cons-cons c d s t, cons-cons d e t u, cons-cons c e s u)

pub text_lt_total : (s t : String) → (text_lt s t ≡ true) ⊎ (s ≡ t) ⊎ (text_lt t s ≡ true)
text_lt_total String.[] String.[] = inr (inl refl)
text_lt_total String.[] (String.◌∷◌ d t) = inl (ground (arith, nil-cons d t))
text_lt_total (String.◌∷◌ c s) String.[] = inr (inr (ground (arith, nil-cons c s)))
text_lt_total (String.◌∷◌ c s) (String.◌∷◌ d t) =
    ground (arith, text_lt_total s t, Char-path c d, cons-cons c d s t, cons-cons d c t s)
