-- ===== src/Board/Tests.antt =====
-- A board with no premium squares.
use birdtest.Prelude.{ℕ, zero, suc, ◌≡◌, ◌<◌, refl, [], ◌∷◌, ◌++◌, map, some, length, replicate}
use birdtest.Wire.Chars.{Text}
use birdtest.Board.{normal, BoardLayout, board_dim, from_symbol, coordinate, lines, parse_layout}
use birdtest.Board.Drawn.{All, symbol, parse_layout-symbols}

abbrev row : Text
row = replicate 15 b' ' ++ (13 ∷ 10 ∷ [])

abbrev rows : ℕ → Text
rows zero = []
rows (suc n) = row ++ rows n

abbrev content : Text
content = (b'7' ∷ b',' ∷ b' ' ∷ b'7' ∷ 10 ∷ []) ++ rows 15

abbrev layout : BoardLayout
layout = record { row = 7; col = 7; squares = replicate 15 (replicate 15 normal) }

content-read : parse_layout content ≡ some layout
unfolding parse_layout coordinate from_symbol
content-read = refl

parse_layout-symbols_example :
    (first : Text) × ((lines content ≡ first ∷ map (map symbol) layout.squares)
      × ((length layout.squares ≡ board_dim)
          × (All (λ row. length row ≡ board_dim) layout.squares
              × ((layout.row < board_dim) × (layout.col < board_dim)))))
parse_layout-symbols_example = parse_layout-symbols content layout content-read
