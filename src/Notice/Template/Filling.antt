-- ===== src/Notice/Template/Filling.antt =====
-- Fill, Placeholders and substitute of notice/template.go: the words with the facts and the analyst's
-- values in them. A map is a list of pairs of which the first with a key counts.
pub mod Facts
use Prim.Native.String.{◌++◌ as str_append}
use thesis_dispute_engine.Prelude.{
  ℕ, zero, suc, length, String, Bool, true, false, Option, none, some, List, [], ◌∷◌, ◌++◌, map,
  str_eq, if◌then◌else◌,
}
use thesis_dispute_engine.Prelude.Int.{ℤ}
use thesis_dispute_engine.Prelude.Strings.{trim_space, split, join, trim_dash, atoi, contains_char}
use thesis_dispute_engine.Domain.QuestionSets.{contains_text}
use thesis_dispute_engine.Domain.Questionnaire.{answer, answer_or_empty}
use thesis_dispute_engine.Application.Notices.{Document}
use thesis_dispute_engine.Notice.Template.{multiselect, textarea, Field, Template}
use thesis_dispute_engine.Notice.Template.Form.{Inputs}
use thesis_dispute_engine.Notice.Template.Pieces.{
  plain, opening, closing, Piece, words, place, pieces, unsplit, piece_text,
}

pub record FactValues : Type 0 where
  pub customer : String
  pub bank : String
  pub amount : String
  pub merchant : String
  pub dispute : String
  pub today : ℕ

-- `(.*?)\{\{/…\}\}`: the pieces before the first closing mark on the line, and those after it.
abbrev before_closing : List Piece → Option (List Piece × List Piece)
before_closing [] = none
before_closing (words s ∷ ps) = elim (contains_char 10 s) [
  | true ↦ none
  | false ↦ elim (before_closing ps) [ none ↦ none | some (a, b) ↦ some (words s ∷ a, b) ]
]
before_closing (place closing name ∷ ps) = some ([], ps)
before_closing (place m name ∷ ps) = elim (before_closing ps) [
  | none ↦ none
  | some (a, b) ↦ some (place m name ∷ a, b)
]

abbrev kept_if : Inputs → String → List Piece → List Piece
kept_if values name inside = if str_eq (answer_or_empty values name) "" then [] else inside

-- section.ReplaceAllStringFunc, given fuel of at least the number of pieces.
unfoldable pub sections : ℕ → Inputs → List Piece → List Piece
unfolding answer
sections fuel values [] = []
sections zero values (p ∷ ps) = p ∷ ps
sections (suc fuel) values (place opening name ∷ ps) = elim (before_closing ps) [
  | none ↦ place opening name ∷ sections fuel values ps
  | some (inside, after) ↦ kept_if values name inside ++ sections fuel values after
]
sections (suc fuel) values (p ∷ ps) = p ∷ sections fuel values ps

-- placeholder.ReplaceAllStringFunc with the values
abbrev filled : Inputs → List Piece → String
filled values [] = ""
filled values (words s ∷ ps) = str_append s (filled values ps)
filled values (place m name ∷ ps) = str_append (answer_or_empty values name) (filled values ps)

-- The lines of a list, each a bullet.
abbrev bullets : List String → List String
bullets [] = []
bullets (raw ∷ raws) =
    let rest = bullets raws in
    let line = trim_space raw in
    if str_eq line "" then rest else str_append "- " (trim_dash line) ∷ rest

-- The name, where a text is one match of a field that is a list.
abbrev list_name : (String → Bool) → List Piece → Option String
list_name is_list (place m name ∷ []) = if is_list name then some name else none
list_name is_list _ = none

abbrev substituted : Inputs → String → Option String → String
substituted values s none = filled values (pieces s)
substituted values s (some name) = join (bullets (split (answer_or_empty values name) 10)) "\n"

unfoldable pub substitute : Inputs → (String → Bool) → String → String
unfolding sections pieces trim_space split join answer
substitute values is_list s =
    let parts = pieces s in
    let shown = unsplit (sections (length parts) values parts) in
    substituted values shown (list_name is_list (pieces (trim_space shown)))

-- substituteFacts on a match
abbrev fact_or_kept : Inputs → Piece → String
fact_or_kept all (words s) = s
fact_or_kept all (place plain name) =
    if str_eq name "dueDate"
    then piece_text (place plain name)
    else elim (answer all name) [ none ↦ piece_text (place plain name) | some v ↦ v ]
fact_or_kept all (place m name) = piece_text (place m name)

abbrev facts_in : Inputs → List Piece → String
facts_in all [] = ""
facts_in all (p ∷ ps) = str_append (fact_or_kept all p) (facts_in all ps)

unfoldable pub substitute_facts : Inputs → String → String
unfolding answer pieces
substitute_facts all s = facts_in all (pieces s)

abbrev is_listy : Field → Bool
is_listy f = elim (f.type_) [ multiselect ↦ true | textarea ↦ f.list | _ ↦ false ]

-- listy[name]: the last field with the identifier says.
abbrev listy_from : Bool → List Field → String → Bool
listy_from so_far [] name = so_far
listy_from so_far (f ∷ fs) name =
    listy_from (if str_eq f.id name then is_listy f else so_far) fs name

abbrev pub listy : List Field → String → Bool
listy fs name = listy_from false fs name

-- Package time: the layout "2 January 2006" of an instant, and AddDate by days.
pub record Times : Type 0 where
  pub format_day : ℕ → String
  pub add_days : ℕ → ℤ → ℕ

module _ (times : Times) where
  abbrev pub fact_map : FactValues → Inputs
  fact_map f =
      ("customer", f.customer)
      ∷ ("bank", f.bank)
      ∷ ("amount", f.amount)
      ∷ ("merchant", f.merchant)
      ∷ ("dispute", f.dispute)
      ∷ ("today", times.format_day f.today)
      ∷ ("dueDate", "")
      ∷ []

  abbrev pub with_due_date : FactValues → Option ℤ → Inputs → Inputs
  with_due_date f none all = all
  with_due_date f (some days) all =
      ("dueDate", times.format_day (times.add_days f.today days)) ∷ all

  -- `all` of Fill
  unfoldable pub all_values : FactValues → Inputs → Inputs
  unfolding atoi answer
  all_values f values =
      with_due_date f (atoi (answer_or_empty values "days")) (values ++ fact_map f)

  abbrev pub filled_paragraphs : Inputs → (String → Bool) → List String → List String
  unfolding substitute
  filled_paragraphs all is_list [] = []
  filled_paragraphs all is_list (p ∷ ps) =
      let rest = filled_paragraphs all is_list ps in
      let out = trim_space (substitute all is_list p) in if str_eq out "" then rest else out ∷ rest

  unfoldable pub fill : Template → FactValues → Inputs → Document
  unfolding all_values substitute
  fill t f values =
      let all = all_values f values in
      record {
        bank = f.bank;
        subject = substitute all (λ _. false) t.subject;
        greeting = str_append "Dear " (str_append f.customer ",");
        paragraphs = filled_paragraphs all (listy t.fields) t.paragraphs;
        closing = str_append "Yours sincerely,\n" (str_append f.bank " disputes team");
        basis = "";
      }

  unfoldable pub placeholders : Template → FactValues → Template
  unfolding substitute_facts
  placeholders t f =
      let all = fact_map f in
      record t {
        subject = substitute_facts all t.subject;
        paragraphs = map (substitute_facts all) t.paragraphs;
      }
