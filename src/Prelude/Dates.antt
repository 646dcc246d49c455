-- ===== src/Prelude/Dates.antt =====
-- The layout "2006-01-02" of Go's package time: four digits, two and two, of a day that exists.
use Prim.Native.Char.{code}
use thesis_dispute_engine.Prelude.{
  ℕ, ◌+◌, ◌*◌, ◌-◌, ◌%◌, String, Bool, false, ◌&&◌, ◌||◌, List, [], ◌∷◌, leb, ltb, ◌==◌,
  if◌then◌else◌,
}

-- The code points of a text.
abbrev codes : String → List ℕ
codes String.[] = []
codes (String.◌∷◌ c s) = code c ∷ codes s

abbrev is_digit : ℕ → Bool
is_digit c = leb b'0' c && leb c b'9'

abbrev value : ℕ → ℕ
value c = c - b'0'

abbrev is_leap : ℕ → Bool
is_leap y = y % 4 == 0 && (ltb 0 (y % 100) || y % 400 == 0)

abbrev days_in : ℕ → ℕ → ℕ
days_in m y =
    if m == 2
    then if is_leap y then 29 else 28
    else if m == 4 || m == 6 || m == 9 || m == 11
    then 30
    else 31

abbrev exists_ : ℕ → ℕ → ℕ → Bool
exists_ y m d = leb 1 m && leb m 12 && leb 1 d && leb d (days_in m y)

is_date_codes : List ℕ → Bool
is_date_codes (a ∷ b ∷ c ∷ d ∷ s ∷ e ∷ f ∷ t ∷ g ∷ h ∷ []) =
    is_digit a
    && is_digit b
    && is_digit c
    && is_digit d
    && s == b'-'
    && is_digit e
    && is_digit f
    && t == b'-'
    && is_digit g
    && is_digit h
    && exists_ (1000 * value a + 100 * value b + 10 * value c + value d) (10 * value e + value f)
        (10 * value g + value h)
is_date_codes _ = false

-- Whether time.Parse("2006-01-02", s) succeeds.
unfoldable pub is_date : String → Bool
unfolding is_date_codes
is_date s = is_date_codes (codes s)
