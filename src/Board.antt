-- ===== src/Board.antt =====
-- backend/src/board.rs: the layout of a job's board, as MAGPIE reads it. The content is the list of characters
-- that it decodes to; why a layout is refused is left out.
pub mod Drawn
mod Tests
use birdtest.Prelude.{
  ℕ, suc, ◌+◌, ◌-◌, ◌*◌, Bool, true, false, not, ◌&&◌, ◌||◌, List, [], ◌∷◌, reverse, Option, none,
  some, ltb, leb, ◌==◌, if◌then◌else◌, length,
}
use birdtest.Wire.Chars.{Text}

-- `MAGPIE_BOARD_DIM`.
abbrev pub board_dim : ℕ
board_dim = 15

pub data Square : Type 0 where
  normal double_letter double_word triple_letter triple_word quadruple_letter quadruple_word brick :
      Square

unfoldable pub from_symbol : ℕ → Option Square
from_symbol c =
    if c == b' '
    then some normal
    else if c == 39
    then some double_letter
    else if c == b'-'
    then some double_word
    else if c == 34
    then some triple_letter
    else if c == b'='
    then some triple_word
    else if c == b'^'
    then some quadruple_letter
    else if c == b'~'
    then some quadruple_word
    else if c == b'#'
    then some brick
    else none

pub record BoardLayout : Type 0 where
  pub row : ℕ
  pub col : ℕ
  pub squares : List (List Square)

abbrev onto_first : ℕ → List Text → List Text
onto_first c [] = (c ∷ []) ∷ []
onto_first c (p ∷ ps) = (c ∷ p) ∷ ps

abbrev pub split_on : ℕ → Text → List Text
split_on at [] = [] ∷ []
split_on at (c ∷ s) = let rest = split_on at s in if c == at then [] ∷ rest else onto_first c rest

-- `.filter(|part| !part.is_empty())`.
abbrev pub nonempty : List Text → List Text
nonempty [] = []
nonempty ([] ∷ ps) = nonempty ps
nonempty ((c ∷ s) ∷ ps) = (c ∷ s) ∷ nonempty ps

-- `line.strip_suffix('\r').unwrap_or(line)`.
abbrev pub strip_return : Text → Text
strip_return [] = []
strip_return (c ∷ []) = if c == 13 then [] else c ∷ []
strip_return (c ∷ d ∷ s) = c ∷ strip_return (d ∷ s)

abbrev pub stripped : List Text → List Text
stripped [] = []
stripped (l ∷ ls) = strip_return l ∷ stripped ls

unfoldable pub lines : Text → List Text
lines content = stripped (nonempty (split_on 10 content))

abbrev pub is_blank : ℕ → Bool
is_blank c = c == 32 || (c == 9 || (c == 10 || c == 13))

abbrev pub trim_blanks : Text → Text
trim_blanks [] = []
trim_blanks (c ∷ s) = let rest = trim_blanks s in if is_blank c then rest else c ∷ s

abbrev pub i64_max : ℕ
i64_max = 9223372036854775807

abbrev pub digits : ℕ → Text → Option ℕ
digits n [] = if leb n i64_max then some n else none
digits n (c ∷ s) =
    let rest = digits (n * 10 + (c - b'0')) s in if leb b'0' c && leb c b'9' then rest else none

abbrev pub unsigned : Text → Option ℕ
unsigned [] = none
unsigned (c ∷ s) = digits 0 (c ∷ s)

-- `parse::<i64>` where the number is not negative; of the negative ones, zero alone is inside the board.
abbrev pub parse_unsigned : Text → Option ℕ
parse_unsigned [] = none
parse_unsigned (c ∷ s) =
    if c == b'+'
    then unsigned s
    else if c == b'-'
    then elim (unsigned s) [ none ↦ none | some n ↦ if n == 0 then some 0 else none ]
    else unsigned (c ∷ s)

abbrev pub in_board : Option ℕ → Option ℕ
in_board none = none
in_board (some n) = if ltb n board_dim then some n else none

unfoldable pub coordinate : Text → Option ℕ
coordinate part = in_board (parse_unsigned (reverse (trim_blanks (reverse (trim_blanks part)))))

abbrev pub start_of : List Text → Option (ℕ × ℕ)
start_of (a ∷ b ∷ []) = elim (coordinate a) [
  | none ↦ none
  | some row ↦ elim (coordinate b) [ none ↦ none | some col ↦ some (row, col) ]
]
start_of _ = none

-- A character's bytes in UTF-8, and a line's.
abbrev pub len_utf8 : ℕ → ℕ
len_utf8 c = if ltb c 128 then 1 else if ltb c 2048 then 2 else if ltb c 65536 then 3 else 4

abbrev pub bytes : Text → ℕ
bytes [] = 0
bytes (c ∷ s) = len_utf8 c + bytes s

abbrev pub parse_line : Text → Option (List Square)
parse_line [] = some []
parse_line (c ∷ s) =
    let rest = parse_line s in
    elim (from_symbol c) [
      | none ↦ none
      | some q ↦ elim rest [ none ↦ none | some qs ↦ some (q ∷ qs) ]
    ]

abbrev pub parse_rows : List Text → Option (List (List Square))
parse_rows [] = some []
parse_rows (l ∷ ls) =
    let rest = parse_rows ls in
    if not (bytes l == board_dim) then none else elim (parse_line l) [
      | none ↦ none
      | some row ↦ elim rest [ none ↦ none | some rows ↦ some (row ∷ rows) ]
    ]

abbrev pub layout_of : List Text → Option BoardLayout
layout_of [] = none
layout_of (first ∷ rest) = elim (start_of (nonempty (split_on b',' first))) [
  | none ↦ none
  | some start ↦ elim (parse_rows rest) [
    | none ↦ none
    | some rows ↦ some (record { row = start.0; col = start.1; squares = rows })
  ]
]

unfoldable pub parse_layout : Text → Option BoardLayout
unfolding lines
parse_layout content =
    let ls = lines content in if not (length ls == board_dim + 1) then none else layout_of ls

unfoldable pub layout_problem : Text → Bool
unfolding parse_layout
layout_problem content = elim (parse_layout content) [ none ↦ true | some layout ↦ false ]
