-- ===== src/Pairs/Tests.antt =====
-- The theorems about jobs/game_pair.rs at a batch of three pairs, of which one was played alike.
use birdtest.Prelude.{◌≡◌, refl, List, [], ◌∷◌, ok, ◌-ℤ◌, pos}
use birdtest.Wire.{GameAggregate, PositionAnalysis, static, is_consistent}
use birdtest.Wire.Chars.{Text}
use birdtest.Wire.Real.{of_int, one}
use birdtest.Plausibility.Moves.{check_game_aggregate}
use birdtest.Games.{GameResultsResponse, validate_positions, positions_from}
use birdtest.Outcomes.{Buckets, pairs, half_points}
use birdtest.Prelude.{ℤ, arith, length, none, some}
use birdtest.Pairs.{
  bucket_out_of_range, pairs_disagree, points_disagree, draws_disagree, check_pentanomial,
  process_response, check_first_divergences, divergences_from, check_second, board_of, first_field,
}
use birdtest.Pairs.Plays.{won, lost, drawn, Pair, pair, Reports, Bucketed}
use birdtest.Pairs.Realised.{accepted_realised}
use birdtest.Pairs.Unexplained.{unexplained_accepted, response_of, record_of, IsExplained}
use birdtest.Pairs.Divergences.{check_first_divergences-length}
use birdtest.Pairs.Honest.{honest_accepted}

abbrev tally : ℤ → ℤ → ℤ → ℤ → GameAggregate
tally games wins losses ties = record {
  games = games;
  wins = wins;
  losses = losses;
  ties = ties;
  p1_score_mean = of_int (pos 420);
  p1_score_sd = of_int (pos 60);
  p2_score_mean = of_int (pos 410);
  p2_score_sd = of_int (pos 55);
}

-- Won both; lost one and drew one; played alike.
abbrev diverged : List Pair
diverged = pair won won ∷ pair drawn lost ∷ []

abbrev alike : List Pair
alike = pair lost won ∷ []

abbrev whole : GameAggregate
whole = tally (pos 6) (pos 3) (pos 2) (pos 1)

abbrev part : GameAggregate
part = tally (pos 4) (pos 2) (pos 1) (pos 1)

abbrev buckets : Buckets ℤ
buckets = record { b0 = pos 0; b1 = pos 1; b2 = pos 1; b3 = pos 0; b4 = pos 1 }

accepted_realised_example : (ps : List Pair) × Reports ps whole × Bucketed ps buckets
unfolding is_consistent check_pentanomial bucket_out_of_range pairs_disagree points_disagree
    draws_disagree pairs half_points
accepted_realised_example = accepted_realised whole buckets refl (omega arith) refl

abbrev response : GameResultsResponse
response = record {
  all_games = whole;
  pentanomial = some buckets;
  divergent_games = some part;
  positions = [];
}

honest_accepted_example :
    process_response response
    ≡ ok (record {
      all_games = whole;
      pentanomial = some buckets;
      divergent_games = some part;
      positions = [];
    })
unfolding check_game_aggregate validate_positions positions_from one ◌-ℤ◌
honest_accepted_example =
    honest_accepted whole part buckets diverged alike [] [] (omega arith) (omega arith)
      (record { games = refl; wins = refl; losses = refl; ties = refl })
      (record {
        zero_points = refl;
        one_point = refl;
        two_points = refl;
        three_points = refl;
        four_points = refl;
      })
      (record { games = refl; wins = refl; losses = refl; ties = refl }) (tt, tt) refl refl refl

unexplained_accepted_example :
    (process_response (response_of 1) ≡ ok (record_of 1)) × (¬ IsExplained 1)
unexplained_accepted_example = unexplained_accepted 1 (omega arith)

abbrev kept : ℤ → Text → PositionAnalysis
kept game seats = record {
  rack = b'A' ∷ b'T' ∷ [];
  position = some (b'1' ∷ b'5' ∷ b' ' ∷ seats);
  game_index = some game;
  turn_number = some (pos 4);
  player = none;
  previous_move = none;
  previous_move_score = none;
  played_move = none;
  played_move_score = none;
  num_moves = pos 1;
  analysis = static;
  moves = [];
  inference = none;
}

-- Games 2 and 3 parted at turn 4.
abbrev parted : List PositionAnalysis
parted = kept (pos 2) (b'A' ∷ []) ∷ kept (pos 3) (b'B' ∷ []) ∷ []

abbrev one_pair : GameAggregate
one_pair = tally (pos 2) (pos 2) (pos 0) (pos 0)

parted_accepted : check_first_divergences parted (some one_pair) ≡ ok tt
unfolding check_first_divergences divergences_from check_second board_of first_field
parted_accepted = refl

check_first_divergences-length_example :
    (d : GameAggregate) × ((some one_pair ≡ some d) × (d.games ≡ pos (length parted)))
check_first_divergences-length_example =
    check_first_divergences-length parted (some one_pair) parted_accepted
