-- ===== src/Prelude/Strings.antt =====
-- What the program uses of Go's packages strings and strconv, on texts of characters. A separator is
-- given by its code point.
use Prim.Native.Char.{Char, code}
use Prim.Native.String.{◌++◌ as str_append}
use thesis_dispute_engine.Prelude.{
  ℕ, zero, suc, ◌+◌, ◌*◌, ◌-◌, ◌/◌, ◌%◌, String, Bool, false, ◌&&◌, ◌||◌, Option, none, some, List,
  [], ◌∷◌, str_eq, leb, ltb, ◌==◌, if◌then◌else◌,
}
use thesis_dispute_engine.Prelude.Int.{ℤ, pos, negsuc}

abbrev pub char_text : Char → String
char_text c = String.◌∷◌ c String.[]

-- unicode.IsSpace
abbrev is_space : ℕ → Bool
is_space c =
    leb 9 c && leb c 13
    || c == 32
    || c == 133
    || c == 160
    || c == 5760
    || leb 8192 c && leb c 8202
    || c == 8232
    || c == 8233
    || c == 8239
    || c == 8287
    || c == 12288

unfoldable trim_left : String → String
trim_left String.[] = ""
trim_left (String.◌∷◌ c s) =
    let rest = trim_left s in if is_space (code c) then rest else String.◌∷◌ c s

unfoldable trim_right : String → String
trim_right String.[] = ""
trim_right (String.◌∷◌ c s) =
    let rest = trim_right s in if is_space (code c) && str_eq rest "" then "" else String.◌∷◌ c rest

unfoldable pub trim_space : String → String
unfolding trim_left trim_right
trim_space s = trim_left (trim_right s)

-- strings.Contains for a text of one character
unfoldable pub contains_char : ℕ → String → Bool
contains_char sep String.[] = false
contains_char sep (String.◌∷◌ c s) = code c == sep || contains_char sep s

abbrev extend : Char → List String → List String
extend c [] = char_text c ∷ []
extend c (s ∷ ss) = String.◌∷◌ c s ∷ ss

-- strings.Split
unfoldable pub split : String → ℕ → List String
split String.[] sep = "" ∷ []
split (String.◌∷◌ c s) sep =
    let rest = split s sep in if code c == sep then "" ∷ rest else extend c rest

-- strings.Join
unfoldable pub join : List String → String → String
join [] sep = ""
join (s ∷ []) sep = s
join (s ∷ t ∷ ss) sep = str_append s (str_append sep (join (t ∷ ss) sep))

abbrev cut_after : Char → Option (String × String) → Option (String × String)
cut_after c none = none
cut_after c (some (a, b)) = some (String.◌∷◌ c a, b)

-- strings.Cut, `none` when the separator is not there
unfoldable pub cut : String → ℕ → Option (String × String)
cut String.[] sep = none
cut (String.◌∷◌ c s) sep =
    let rest = cut s sep in if code c == sep then some ("", s) else cut_after c rest

-- strings.TrimPrefix for "- "
abbrev pub trim_dash : String → String
trim_dash (String.◌∷◌ c (String.◌∷◌ d s)) =
    if code c == b'-' && code d == b' ' then s else String.◌∷◌ c (String.◌∷◌ d s)
trim_dash s = s

unfoldable digits_from : ℕ → String → Option ℕ
digits_from n String.[] = some n
digits_from n (String.◌∷◌ c s) =
    let rest = digits_from (10 * n + (code c - b'0')) s in
    if leb b'0' (code c) && leb (code c) b'9' then rest else none

abbrev digits : String → Option ℕ
unfolding digits_from
digits s = if str_eq s "" then none else digits_from 0 s

-- A number of at most 64 bits with a sign.
abbrev positive_of : Option ℕ → Option ℤ
positive_of none = none
positive_of (some n) = if ltb n 9223372036854775808 then some (pos n) else none

abbrev negative_of : Option ℕ → Option ℤ
negative_of none = none
negative_of (some zero) = some (pos 0)
negative_of (some (suc n)) = if ltb n 9223372036854775808 then some (negsuc n) else none

-- strconv.Atoi
unfoldable pub atoi : String → Option ℤ
unfolding digits_from
atoi String.[] = none
atoi (String.◌∷◌ c s) =
    if code c == b'-'
    then negative_of (digits s)
    else if code c == b'+'
    then positive_of (digits s)
    else positive_of (digits (String.◌∷◌ c s))

abbrev digit : ℕ → String
digit n =
    if n == 0
    then "0"
    else if n == 1
    then "1"
    else if n == 2
    then "2"
    else if n == 3
    then "3"
    else if n == 4
    then "4"
    else if n == 5
    then "5"
    else if n == 6
    then "6"
    else if n == 7
    then "7"
    else if n == 8
    then "8"
    else "9"

-- The digits of `n` before `tail`, given fuel of at least `n`.
unfoldable print_from : ℕ → ℕ → String → String
print_from zero n tail = tail
print_from (suc fuel) n tail =
    let rest = print_from fuel (n / 10) (str_append (digit (n % 10)) tail) in
    if ltb n 10 then str_append (digit n) tail else rest

abbrev print_nat : ℕ → String
unfolding print_from
print_nat n = print_from (suc n) n ""

-- strconv.Itoa
unfoldable pub itoa : ℤ → String
unfolding print_from
itoa (pos n) = print_nat n
itoa (negsuc n) = str_append "-" (print_nat (suc n))
