-- ===== src/Notice/Template/Pieces.antt =====
-- The regular expressions `placeholder` and `section` of notice/template.go: a text as pieces.
use Prim.Native.Char.{Char, code}
use Prim.Native.String.{◌++◌ as str_append}
use thesis_dispute_engine.Prelude.{
  ℕ, String, Bool, ◌&&◌, ◌||◌, List, [], ◌∷◌, str_eq, leb, ◌==◌, if◌then◌else◌,
}
use thesis_dispute_engine.Prelude.Strings.{char_text}

-- How a placeholder begins: `{{`, `{{#` or `{{/`.
pub data Mark : Type 0 where
  plain opening closing : Mark

-- The text between two matches, or a match with its name.
pub data Piece : Type 0 where
  words : String → Piece
  place : Mark → String → Piece

abbrev pub is_letter : ℕ → Bool
is_letter c = leb b'A' c && leb c b'Z' || leb b'a' c && leb c b'z'

abbrev pub is_name_char : ℕ → Bool
is_name_char c = is_letter c || leb b'0' c && leb c b'9'

-- How much of a match ends at the character before: nothing, `{`, `{{`, the mark, a name, a name and `}`.
pub data Progress : Type 0 where
  idle brace begun : Progress
  marked : Mark → Progress
  named almost : Mark → String → Progress

abbrev pub mark_text : Mark → String
mark_text plain = "{{"
mark_text opening = "{{#"
mark_text closing = "{{/"

-- What was read of a match that does not come about.
abbrev pub read_text : Progress → String
read_text idle = ""
read_text brace = "{"
read_text begun = "{{"
read_text (marked m) = mark_text m
read_text (named m name) = str_append (mark_text m) name
read_text (almost m name) = str_append (mark_text m) (str_append name "}")

abbrev pub with_words : String → List Piece → List Piece
with_words s ps = if str_eq s "" then ps else words s ∷ ps

-- The match failed at this character, which can begin another.
abbrev pub restart : Char → Progress
restart c = if code c == b'{' then brace else idle

abbrev pub left_over : Char → Progress → String
left_over c p = if code c == b'{' then read_text p else str_append (read_text p) (char_text c)

-- The next state and the words that are certain not to be part of a match, or the end of a match.
pub data Step : Type 0 where
  goes : Progress → String → Step
  ends : Mark → String → Step

abbrev pub fails : Progress → Char → Step
fails p c = goes (restart c) (left_over c p)

abbrev pub step : Progress → Char → Step
step idle c = fails idle c
step brace c = if code c == b'{' then goes begun "" else fails brace c
step begun c =
    if code c == b'{'
    then goes begun "{"
    else if code c == b'#'
    then goes (marked opening) ""
    else if code c == b'/'
    then goes (marked closing) ""
    else if is_letter (code c)
    then goes (named plain (char_text c)) ""
    else fails begun c
step (marked m) c =
    if is_letter (code c) then goes (named m (char_text c)) "" else fails (marked m) c
step (named m name) c =
    if is_name_char (code c)
    then goes (named m (str_append name (char_text c))) ""
    else if code c == b'}'
    then goes (almost m name) ""
    else fails (named m name) c
step (almost m name) c = if code c == b'}' then ends m name else fails (almost m name) c

unfoldable pub pieces_from : Progress → String → String → List Piece
pieces_from p said String.[] = with_words (str_append said (read_text p)) []
pieces_from p said (String.◌∷◌ c s) = elim (step p c) [
  | goes q more ↦ pieces_from q (str_append said more) s
  | ends m name ↦ with_words said (place m name ∷ pieces_from idle "" s)
]

unfoldable pub pieces : String → List Piece
unfolding pieces_from
pieces s = pieces_from idle "" s

abbrev names_of : List Piece → List String
names_of [] = []
names_of (words _ ∷ ps) = names_of ps
names_of (place _ name ∷ ps) = name ∷ names_of ps

-- The names in `placeholder.FindAllStringSubmatch`.
unfoldable pub placeholder_names : String → List String
unfolding pieces
placeholder_names s = names_of (pieces s)

abbrev pub piece_text : Piece → String
piece_text (words s) = s
piece_text (place m name) = str_append (mark_text m) (str_append name "}}")

abbrev pub unsplit : List Piece → String
unsplit [] = ""
unsplit (p ∷ ps) = str_append (piece_text p) (unsplit ps)
