-- ===== src/Games/Tests.antt =====
-- The theorems about jobs/game.rs at a batch with two positions.
use birdtest.Prelude.{List, [], ◌∷◌, none, some, pos}
use birdtest.Wire.{CapturedPosition, PositionAnalysis, MoveEntry, static}
use birdtest.Wire.Chars.{Text}
use birdtest.Wire.Real.{of_int}
use birdtest.Games.{stored}

abbrev eight_d : Text
eight_d = b'8' ∷ b'D' ∷ b' ' ∷ b'A' ∷ b'T' ∷ []

abbrev at_for_four : MoveEntry
at_for_four = record {
  play = eight_d;
  score = pos 4;
  equity = of_int (pos 11);
  iterations = none;
  win_percentage = none;
  blended_utility = none;
  mean_spread = none;
  fidelity_plies = none;
  plies = [];
}

abbrev captured_on : MoveEntry → Text → CapturedPosition
captured_on move rack = record {
  game_index = pos 1;
  turn_number = pos 0;
  player = pos 2;
  rack = rack;
  position = b'1' ∷ b'5' ∷ [];
  previous_move = none;
  previous_move_score = none;
  played_move = eight_d;
  played_move_score = pos 4;
  num_moves = pos 12;
  analysis = b's' ∷ b't' ∷ b'a' ∷ b't' ∷ b'i' ∷ b'c' ∷ [];
  moves = move ∷ [];
  inference = none;
}

abbrev opening : CapturedPosition
opening = captured_on at_for_four (b'A' ∷ b'T' ∷ [])

abbrev reply : CapturedPosition
reply = record opening { turn_number = pos 1; player = pos 1; previous_move = some eight_d }

abbrev both : List CapturedPosition
both = opening ∷ reply ∷ []

abbrev both_stored : List PositionAnalysis
both_stored = stored static opening ∷ stored static reply ∷ []
