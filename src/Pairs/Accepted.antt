-- ===== src/Pairs/Accepted.antt =====
-- `process_response` of jobs/game_pair.rs, check by check.
use birdtest.Prelude.{◌≡◌, List, some, ℤ, pos, rem, eq_ℤ, ltb_ℤ, ok, true, false}
use birdtest.Wire.{GameAggregate, PositionAnalysis, CapturedPosition, is_consistent}
use birdtest.Plausibility.Moves.{check_game_aggregate}
use birdtest.Games.{validate_aggregate, validate_positions}
use birdtest.Outcomes.{Buckets}
use birdtest.Pairs.{
  check_pentanomial, check_divergent_against_the_whole, check_divergent, process_response,
}

-- Where no check refuses, the response is recorded as it is.
pub process_response_lem :
    (a d : GameAggregate) (b : Buckets ℤ) (positions : List CapturedPosition)
    (kept : List PositionAnalysis)
    → is_consistent a ≡ true
    → check_game_aggregate a ≡ ok tt
    → eq_ℤ a.games (pos 0) ≡ false
    → eq_ℤ (rem a.games 2) (pos 0) ≡ true
    → check_pentanomial a b ≡ ok tt
    → check_divergent a b d ≡ ok tt
    → validate_positions positions a.games ≡ ok kept
    → process_response (record {
      all_games = a;
      pentanomial = some b;
      divergent_games = some d;
      positions = positions;
    })
      ≡ ok (record {
        all_games = a;
        pentanomial = some b;
        divergent_games = some d;
        positions = kept;
      })
unfolding process_response validate_aggregate
process_response_lem a d b positions kept sums figures some_games even_games counts part stored =
    rw (sums, figures, some_games, even_games, counts, part, stored)

-- Where no check of the divergent subset refuses, it is accepted.
pub check_divergent_lem :
    (a d : GameAggregate) (b : Buckets ℤ)
    → is_consistent d ≡ true
    → check_game_aggregate d ≡ ok tt
    → eq_ℤ (rem d.games 2) (pos 0) ≡ true
    → ltb_ℤ a.games d.games ≡ false
    → check_divergent_against_the_whole a b d ≡ ok tt
    → check_divergent a b d ≡ ok tt
unfolding check_divergent validate_aggregate
check_divergent_lem a d b sums figures even_games not_more against =
    rw (sums, figures, even_games, not_more, against)
