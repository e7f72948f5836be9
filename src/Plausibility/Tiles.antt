-- ===== src/Plausibility/Tiles.antt =====
-- jobs/plausibility.rs: racks, plays and positions as texts.
use birdtest.Prelude.{
  ℕ, ◌+◌, Bool, true, false, not, ◌||◌, [], ◌∷◌, Option, none, some, AppResult, ok, err,
  bad_request, refuse, ◌>>◌, ℤ, pos, leb_ℤ, ltb, ◌==◌, length,
}
use birdtest.Wire.Chars.{Text, trim_is_empty}

abbrev pub max_tile_chars : ℕ
max_tile_chars = 8

abbrev pub rack_size : ℕ
rack_size = 7

abbrev pub max_play_chars : ℕ
max_play_chars = 256

abbrev pub max_position_chars : ℕ
max_position_chars = 4096

abbrev pub max_move_score : ℤ
max_move_score = pos 100000

-- The loop over the characters: outside a bracket, and inside one with the letters read.
unfoldable mutual
  pub outside : Text → ℕ → Option ℕ
  outside [] tiles = some tiles
  outside (c ∷ s) tiles = elim (c == b'[') [
    | true ↦ inside s 0 tiles
    | false ↦ elim (c == b']') [ true ↦ none | false ↦ outside s (tiles + 1) ]
  ]

  pub inside : Text → ℕ → ℕ → Option ℕ
  inside [] letters tiles = none
  inside (c ∷ s) letters tiles = elim (c == b']') [
    | true ↦ elim (letters == 0 || ltb max_tile_chars letters) [
      | true ↦ none
      | false ↦ outside s (tiles + 1)
    ]
    | false ↦ elim (c == b'[') [ true ↦ none | false ↦ inside s (letters + 1) tiles ]
  ]

unfoldable pub rack_tiles : Text → Option ℕ
unfolding outside inside
rack_tiles rack = outside rack 0

unfoldable pub check_rack : Text → AppResult (Unit {0})
check_rack rack = elim (rack_tiles rack) [
  | none ↦ err bad_request
  | some tiles ↦ do refuse (tiles == 0); refuse (ltb rack_size tiles)
]

unfoldable pub check_play_text : Text → AppResult (Unit {0})
check_play_text play = refuse (ltb max_play_chars (length play))

-- `!(0..=MAX_MOVE_SCORE).contains(&score)`
abbrev pub score_out_of_range : ℤ → Bool
score_out_of_range score = not (leb_ℤ (pos 0) score) || not (leb_ℤ score max_move_score)

unfoldable pub check_position_text : Text → Option Text → Option ℤ → AppResult (Unit {0})
unfolding check_play_text
check_position_text position previous_move previous_move_score = do
  refuse (ltb max_position_chars (length position))
  elim previous_move [ none ↦ ok tt | some play ↦ check_play_text play ]
  elim previous_move_score [ none ↦ ok tt | some score ↦ refuse (score_out_of_range score) ]

unfoldable pub check_played_move : Text → ℤ → AppResult (Unit {0})
unfolding trim_is_empty check_play_text
check_played_move play score = do
  refuse (trim_is_empty play)
  check_play_text play
  refuse (score_out_of_range score)
