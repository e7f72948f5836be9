-- ===== src/Board/Drawn.antt =====
-- A layout that is read is drawn as it was written: board.rs, `BoardLayout::parse`.
use birdtest.Prelude.{
  ℕ, ◌+◌, ◌<◌, ◌≡◌, inl, inr, refl, ap, ◌∙◌, Bool-cases, List, [], ◌∷◌, map, reverse, Option,
  Option-cases, none, some, ◌==◌, length, arith,
}
use birdtest.Wire.Chars.{Text}
use birdtest.Board.{
  Square, normal, double_letter, double_word, triple_letter, triple_word, quadruple_letter,
  quadruple_word, brick, board_dim, from_symbol, BoardLayout, split_on, nonempty, lines, in_board,
  coordinate, trim_blanks, parse_unsigned, start_of, len_utf8, bytes, parse_line, parse_rows,
  layout_of, parse_layout,
}

-- MAGPIE's symbol for a square.
abbrev pub symbol : Square → ℕ
symbol normal = b' '
symbol double_letter = 39
symbol double_word = b'-'
symbol triple_letter = 34
symbol triple_word = b'='
symbol quadruple_letter = b'^'
symbol quadruple_word = b'~'
symbol brick = b'#'

abbrev pub All : {A : Type 0} → (A → Type 0) → List A → Type 0
All P [] = Unit
All P (x ∷ xs) = P x × All P xs

from_symbol-symbol : (c : ℕ) (q : Square) → from_symbol c ≡ some q → c ≡ symbol q
unfolding from_symbol
from_symbol-symbol c q h = ground (arith, h)

symbol-narrow : (q : Square) → len_utf8 (symbol q) ≡ 1
symbol-narrow normal = refl
symbol-narrow double_letter = refl
symbol-narrow double_word = refl
symbol-narrow triple_letter = refl
symbol-narrow triple_word = refl
symbol-narrow quadruple_letter = refl
symbol-narrow quadruple_word = refl
symbol-narrow brick = refl

parse_line-symbols :
    (l : Text) (row : List Square)
    → parse_line l ≡ some row
    → (l ≡ map symbol row) × (bytes l ≡ length row)
parse_line-symbols [] row h = let drawn : row ≡ [] = ground (arith, h) in rw drawn (refl, refl)
parse_line-symbols (c ∷ s) row h = elim (Option-cases (from_symbol c)) [
  | inl unknown ↦ absurd (ground (arith, unknown, h))
  | inr (q, known) ↦ elim (Option-cases (parse_line s)) [
    | inl bad ↦ absurd (ground (arith, known, bad, h))
    | inr (qs, good) ↦
        let (same, wide) = parse_line-symbols s qs good in
        let drawn : row ≡ q ∷ qs = ground (arith, known, good, h) in
        let c_is = from_symbol-symbol c q known in
        let narrow : len_utf8 c ≡ 1 = ap len_utf8 c_is ∙ symbol-narrow q in
        let line : c ∷ s ≡ map symbol (q ∷ qs) = rw (same, c_is) refl in
        let width : bytes (c ∷ s) ≡ length (q ∷ qs) = omega (arith, narrow, wide) in
        rw drawn (line, width)
  ]
]

parse_rows-symbols :
    (ls : List Text) (rows : List (List Square))
    → parse_rows ls ≡ some rows
    → (ls ≡ map (map symbol) rows)
      × ((length rows ≡ length ls) × All (λ row. length row ≡ board_dim) rows)
parse_rows-symbols [] rows h =
    let drawn : rows ≡ [] = ground (arith, h) in rw drawn (refl, (refl, tt))
parse_rows-symbols (l ∷ ls) rows h = elim (Bool-cases (bytes l == board_dim)) [
  | inr narrow ↦ absurd (ground (arith, narrow, h))
  | inl wide ↦ elim (Option-cases (parse_line l)) [
    | inl bad ↦ absurd (ground (arith, wide, bad, h))
    | inr (qs, good) ↦ elim (Option-cases (parse_rows ls)) [
      | inl rest_bad ↦ absurd (ground (arith, wide, good, rest_bad, h))
      | inr (qss, rest_good) ↦
          let (same, (long, shape)) = parse_rows-symbols ls qss rest_good in
          let (line, width) = parse_line-symbols l qs good in
          let drawn : rows ≡ qs ∷ qss = ground (arith, wide, good, rest_good, h) in
          let text : l ∷ ls ≡ map (map symbol) (qs ∷ qss) = rw (same, line) refl in
          rw drawn (text, (omega (arith, long), (ground (arith, wide, width), shape)))
    ]
  ]
]

coordinate-lt : (part : Text) (n : ℕ) → coordinate part ≡ some n → n < board_dim
unfolding coordinate
coordinate-lt part n h =
    in_board-lt (parse_unsigned (reverse (trim_blanks (reverse (trim_blanks part))))) n h
  where
    in_board-lt : (o : Option ℕ) (n : ℕ) → in_board o ≡ some n → n < board_dim
    in_board-lt none n h = absurd (ground (arith, h))
    in_board-lt (some m) n h = ground (arith, h)

-- Whatever is read as a layout has fifteen rows of fifteen squares, each drawn by its symbol as the line below
-- the first has it, and its start square is one of them.
pub parse_layout-symbols :
    (content : Text) (layout : BoardLayout)
    → parse_layout content ≡ some layout
    → (first : Text) × ((lines content ≡ first ∷ map (map symbol) layout.squares)
        × ((length layout.squares ≡ board_dim)
            × (All (λ row. length row ≡ board_dim) layout.squares
                × ((layout.row < board_dim) × (layout.col < board_dim)))))
unfolding parse_layout
parse_layout-symbols content layout h =
    elim (Bool-cases (length (lines content) == board_dim + 1)) [
      | inr short ↦ absurd (ground (arith, short, h))
      | inl long ↦ laid (lines content) (ground (arith, long)) (ground (arith, long, h))
    ]
  where
    started :
        (parts : List Text) (row col : ℕ)
        → start_of parts ≡ some (row, col)
        → (row < board_dim) × (col < board_dim)
    started [] row col e = absurd (ground (arith, e))
    started (a ∷ []) row col e = absurd (ground (arith, e))
    started (a ∷ b ∷ c ∷ ps) row col e = absurd (ground (arith, e))
    started (a ∷ b ∷ []) row col e = elim (Option-cases (coordinate a)) [
      | inl bad ↦ absurd (ground (arith, bad, e))
      | inr (r, at) ↦ elim (Option-cases (coordinate b)) [
        | inl bad ↦ absurd (ground (arith, at, bad, e))
        | inr (c, across) ↦
            ground (arith, at, across, e, coordinate-lt a r at, coordinate-lt b c across)
      ]
    ]

    laid :
        (ls : List Text)
        → length ls ≡ board_dim + 1
        → layout_of ls ≡ some layout
        → (first : Text) × ((ls ≡ first ∷ map (map symbol) layout.squares)
            × ((length layout.squares ≡ board_dim)
                × (All (λ row. length row ≡ board_dim) layout.squares
                    × ((layout.row < board_dim) × (layout.col < board_dim)))))
    laid [] long e = absurd (ground (arith, e))
    laid (first ∷ rest) long e = elim (Option-cases (start_of (nonempty (split_on b',' first)))) [
      | inl bad ↦ absurd (ground (arith, bad, e))
      | inr (at, start) ↦ elim (Option-cases (parse_rows rest)) [
        | inl bad ↦ absurd (ground (arith, start, bad, e))
        | inr (rows, good) ↦
            let (same, (many, shape)) = parse_rows-symbols rest rows good in
            let inside = started (nonempty (split_on b',' first)) at.0 at.1 start in
            let is : layout ≡ record { row = at.0; col = at.1; squares = rows } =
              ground (arith, start, good, e) in
            rw is (first, (ap (λ r. first ∷ r) same, (omega (arith, many, long), (shape, inside))))
      ]
    ]
