-- ===== src/Pairs.antt =====
-- backend/src/jobs/game_pair.rs: a game-pairs job's results.
pub mod Plays
pub mod Accepted
pub mod Sound
pub mod Realised
pub mod Honest
pub mod Unexplained
pub mod Divergences
mod Tests
use birdtest.Prelude.{
  ℕ, ◌+◌, ◌*◌, ◌/◌, ◌%◌, ◌^◌, Bool, true, false, not, ◌&&◌, ◌||◌, List, [], ◌∷◌, Option, none, some,
  AppResult, ok, err, bad_request, refuse, ◌>>=◌, ◌>>◌, ℤ, pos, negsuc, ◌+ℤ◌, ◌-ℤ◌, leb_ℤ, ltb_ℤ,
  eq_ℤ, rem, quot, as_u64, ◌==◌, if◌then◌else◌, length,
}
use birdtest.Wire.{GameAggregate, PositionAnalysis}
use birdtest.Wire.Chars.{Text, text_eq}
use birdtest.Outcomes.{Buckets, Pentanomial, pairs, half_points}
use birdtest.Plausibility.Moves.{check_game_aggregate}
use birdtest.Games.{
  GameResultsResponse, GameResultsRecord, validate_aggregate, validate_positions, or_refuse,
}

abbrev pub any_bucket : (ℤ → Bool) → Buckets ℤ → Bool
any_bucket p b = p b.b0 || (p b.b1 || (p b.b2 || (p b.b3 || p b.b4)))

abbrev pub counts_of : Buckets ℤ → Pentanomial
counts_of b = record {
  counts = record {
    b0 = as_u64 b.b0;
    b1 = as_u64 b.b1;
    b2 = as_u64 b.b2;
    b3 = as_u64 b.b3;
    b4 = as_u64 b.b4;
  };
}

-- The four refusals of the pentanomial: a count out of range, and a disagreement with the game counts
-- about the pairs, the half-points or the draws.
pub bucket_out_of_range : GameAggregate → Buckets ℤ → Bool
bucket_out_of_range all b = any_bucket (λ count. ltb_ℤ count (pos 0) || ltb_ℤ all.games count) b

pub pairs_disagree : GameAggregate → Buckets ℤ → Bool
unfolding pairs
pairs_disagree all b = not (pairs (counts_of b) * 2 % 2 ^ 64 == as_u64 all.games)

pub points_disagree : GameAggregate → Buckets ℤ → Bool
unfolding half_points
points_disagree all b =
    not (half_points (counts_of b) == (2 * as_u64 all.wins + as_u64 all.ties) % 2 ^ 64)

pub draws_disagree : GameAggregate → Buckets ℤ → Bool
unfolding ◌-ℤ◌
draws_disagree all b =
    let draws_in_even_pairs = all.ties -ℤ b.b1 -ℤ b.b3 in
    ltb_ℤ draws_in_even_pairs (pos 0)
    || (not (eq_ℤ (rem draws_in_even_pairs 2) (pos 0)) || ltb_ℤ b.b2 (quot draws_in_even_pairs 2))

unfoldable pub check_pentanomial : GameAggregate → Buckets ℤ → AppResult (Unit {0})
check_pentanomial all b = do
  refuse (bucket_out_of_range all b)
  refuse (pairs_disagree all b)
  refuse (points_disagree all b)
  refuse (draws_disagree all b)

-- The refusals of the divergent subset against the whole.
pub exceeds_the_whole : GameAggregate → GameAggregate → Bool
unfolding ◌-ℤ◌
exceeds_the_whole all divergent =
    ltb_ℤ (all.wins -ℤ divergent.wins) (pos 0)
    || (ltb_ℤ (all.losses -ℤ divergent.losses) (pos 0)
        || ltb_ℤ (all.ties -ℤ divergent.ties) (pos 0))

pub outside_not_split : GameAggregate → GameAggregate → Bool
unfolding ◌-ℤ◌
outside_not_split all divergent =
    not (eq_ℤ (all.wins -ℤ divergent.wins) (all.losses -ℤ divergent.losses))
    || not (eq_ℤ (rem (all.ties -ℤ divergent.ties) 2) (pos 0))

pub too_many_unsplit : Buckets ℤ → GameAggregate → Bool
unfolding ◌+ℤ◌
too_many_unsplit b divergent = ltb_ℤ (quot divergent.games 2) (b.b0 +ℤ b.b1 +ℤ b.b3 +ℤ b.b4)

unfoldable pub check_divergent_against_the_whole :
    GameAggregate → Buckets ℤ → GameAggregate → AppResult (Unit {0})
check_divergent_against_the_whole all b divergent = do
  refuse (exceeds_the_whole all divergent)
  refuse (outside_not_split all divergent)
  refuse (too_many_unsplit b divergent)

unfoldable pub check_divergent : GameAggregate → Buckets ℤ → GameAggregate → AppResult (Unit {0})
unfolding check_divergent_against_the_whole
check_divergent all b divergent = do
  validate_aggregate divergent
  check_game_aggregate divergent
  refuse (not (eq_ℤ (rem divergent.games 2) (pos 0)) || ltb_ℤ all.games divergent.games)
  check_divergent_against_the_whole all b divergent

-- `GamePairHandler::process_response`.
unfoldable pub process_response : GameResultsResponse → AppResult GameResultsRecord
unfolding check_pentanomial check_divergent
process_response response = do
  validate_aggregate response.all_games
  check_game_aggregate response.all_games
  refuse
      (eq_ℤ response.all_games.games (pos 0) || not (eq_ℤ (rem response.all_games.games 2) (pos 0)))
  pentanomial ← or_refuse response.pentanomial
  check_pentanomial response.all_games pentanomial
  elim response.divergent_games [
    | none ↦ ok tt
    | some divergent ↦ check_divergent response.all_games pentanomial divergent
  ]
  positions ← validate_positions response.positions response.all_games.games
  ok (record {
    all_games = response.all_games;
    pentanomial = some pentanomial;
    divergent_games = response.divergent_games;
    positions = positions;
  })

-- `board_of`: the text before the first space.
unfoldable pub first_field : Text → Text
first_field [] = []
first_field (c ∷ s) = let rest = c ∷ first_field s in if c == 32 then [] else rest

unfoldable pub board_of : Option Text → Option Text
unfolding first_field
board_of none = none
board_of (some cgp) = some (first_field cgp)

abbrev pub same_board : Option Text → Option Text → Bool
same_board none none = true
same_board (some a) (some b) = text_eq a b
same_board _ _ = false

abbrev pub same_int : Option ℤ → Option ℤ → Bool
same_int none none = true
same_int (some a) (some b) = eq_ℤ a b
same_int _ _ = false

-- `first`, the map from a pair to the first position seen of it.
abbrev pub first_of_pair : ℤ → List (ℤ × PositionAnalysis) → Option PositionAnalysis
first_of_pair pair [] = none
first_of_pair pair ((k, p) ∷ first) = if eq_ℤ pair k then some p else first_of_pair pair first

abbrev pub game_and_turn : PositionAnalysis → Option (ℤ × ℤ)
game_and_turn p = elim p.game_index [
  | none ↦ none
  | some game ↦ elim p.turn_number [ none ↦ none | some turn ↦ some (game, turn) ]
]

-- The second position of a pair beside its first.
unfoldable pub check_second : PositionAnalysis → ℤ → ℤ → PositionAnalysis → AppResult (Unit {0})
unfolding board_of
check_second other game turn position = do
  refuse (same_int other.game_index (some game))
  refuse (not (same_int other.turn_number (some turn)))
  refuse (
      not (same_board (board_of other.position) (board_of position.position))
      || not (text_eq other.rack position.rack))

-- The loop of `check_first_divergences`: the map and the complete pairs at its end.
unfoldable pub divergences_from :
    List (ℤ × PositionAnalysis)
    → ℕ
    → List PositionAnalysis
    → AppResult (List (ℤ × PositionAnalysis) × ℕ)
unfolding check_second
divergences_from first complete [] = ok (first, complete)
divergences_from first complete (p ∷ ps) = elim (game_and_turn p) [
  | none ↦ err bad_request
  | some (game, turn) ↦ elim (first_of_pair (quot game 2) first) [
    | none ↦ divergences_from ((quot game 2, p) ∷ first) complete ps
    | some other ↦ check_second other game turn p >>= λ _. divergences_from first (complete + 1) ps
  ]
]

unfoldable pub check_first_divergences :
    List PositionAnalysis → Option GameAggregate → AppResult (Unit {0})
unfolding divergences_from
check_first_divergences positions divergent_games = do
  divergent ← or_refuse divergent_games
  (first, complete) ← divergences_from [] 0 positions
  refuse (not (length first == complete))
  refuse (not (eq_ℤ (pos (complete * 2)) divergent.games))
