-- ===== src/Games.antt =====
-- backend/src/jobs/game.rs: a games job's results and its seeds.
pub mod Places
mod Tests
use birdtest.Prelude.{
  Bool, false, not, ◌&&◌, ◌||◌, List, [], ◌∷◌, Option, none, some, AppResult, ok, err, bad_request,
  refuse, ◌>>=◌, ◌>>◌, ℤ, pos, ◌+ℤ◌, leb_ℤ, ltb_ℤ, eq_ℤ, if◌then◌else◌,
}
use birdtest.Wire.{
  GameAggregate, is_consistent, CapturedPosition, PositionAnalysis, Analysis, static, sim, peg,
  endgame,
}
use birdtest.Wire.Chars.{Text, text_eq}
use birdtest.Outcomes.{Buckets}
use birdtest.Plausibility.Tiles.{check_rack, check_position_text, check_played_move}
use birdtest.Plausibility.Moves.{
  check_game_aggregate, check_moves, check_analysis, check_inference, is_some, is_empty,
}

abbrev static_text : Text
static_text = b's' ∷ b't' ∷ b'a' ∷ b't' ∷ b'i' ∷ b'c' ∷ []

abbrev sim_text : Text
sim_text = b's' ∷ b'i' ∷ b'm' ∷ []

abbrev peg_text : Text
peg_text = b'p' ∷ b'e' ∷ b'g' ∷ []

abbrev endgame_text : Text
endgame_text = b'e' ∷ b'n' ∷ b'd' ∷ b'g' ∷ b'a' ∷ b'm' ∷ b'e' ∷ []

-- `Analysis::as_str` and `Analysis::parse`.
unfoldable pub as_str : Analysis → Text
as_str static = static_text
as_str sim = sim_text
as_str peg = peg_text
as_str endgame = endgame_text

unfoldable pub parse : Text → Option Analysis
parse text =
    if text_eq text static_text
    then some static
    else if text_eq text sim_text
    then some sim
    else if text_eq text peg_text
    then some peg
    else if text_eq text endgame_text
    then some endgame
    else none

abbrev pub max_turns_per_game : ℤ
max_turns_per_game = pos 400

-- `HashSet<(i16, i16)>::contains`.
abbrev pub turn_seen : ℤ → ℤ → List (ℤ × ℤ) → Bool
turn_seen game turn [] = false
turn_seen game turn ((g, t) ∷ seen) = eq_ℤ game g && eq_ℤ turn t || turn_seen game turn seen

abbrev pub or_refuse {ℓ} : {A : Type ℓ} → Option A → AppResult A
or_refuse none = err bad_request
or_refuse (some a) = ok a

abbrev pub stored : Analysis → CapturedPosition → PositionAnalysis
stored analysis p = record {
  rack = p.rack;
  position = some p.position;
  game_index = some p.game_index;
  turn_number = some p.turn_number;
  player = some p.player;
  previous_move = p.previous_move;
  previous_move_score = p.previous_move_score;
  played_move = some p.played_move;
  played_move_score = some p.played_move_score;
  num_moves = p.num_moves;
  analysis = analysis;
  moves = p.moves;
  inference = p.inference;
}

-- The body of the loop of `validate_positions` before the checks of the texts and the figures.
unfoldable pub check_place : List (ℤ × ℤ) → ℤ → CapturedPosition → AppResult (Unit {0})
check_place seen games_in_batch p = do
  refuse (turn_seen p.game_index p.turn_number seen)
  refuse (ltb_ℤ p.game_index (pos 0) || leb_ℤ games_in_batch p.game_index)
  refuse (not (eq_ℤ p.player (pos 1)) && not (eq_ℤ p.player (pos 2)))
  refuse (ltb_ℤ p.turn_number (pos 0) || ltb_ℤ max_turns_per_game p.turn_number)
  refuse (is_empty p.moves)

unfoldable pub check_content : CapturedPosition → AppResult PositionAnalysis
unfolding parse
check_content p = do
  check_rack p.rack
  check_position_text p.position p.previous_move p.previous_move_score
  check_played_move p.played_move p.played_move_score
  check_moves p.moves (some p.num_moves)
  analysis ← or_refuse (parse p.analysis)
  check_analysis analysis p.moves
  elim p.inference [
    | none ↦ ok tt
    | some inference ↦ check_inference inference analysis p.turn_number (is_some p.previous_move)
  ]
  ok (stored analysis p)

unfoldable pub positions_from :
    List (ℤ × ℤ) → ℤ → List CapturedPosition → AppResult (List PositionAnalysis)
unfolding check_place check_content
positions_from seen games_in_batch [] = ok []
positions_from seen games_in_batch (p ∷ ps) =
    let rest = positions_from ((p.game_index, p.turn_number) ∷ seen) games_in_batch ps in
    do check_place seen games_in_batch p; a ← check_content p; as' ← rest; ok (a ∷ as')

unfoldable pub validate_positions : List CapturedPosition → ℤ → AppResult (List PositionAnalysis)
unfolding positions_from
validate_positions positions games_in_batch = positions_from [] games_in_batch positions

unfoldable pub validate_aggregate : GameAggregate → AppResult (Unit {0})
validate_aggregate a = refuse (not (is_consistent a))

pub record GameResultsResponse : Type 0 where
  pub all_games : GameAggregate
  pub pentanomial : Option (Buckets ℤ)
  pub divergent_games : Option GameAggregate
  pub positions : List CapturedPosition

pub record GameResultsRecord : Type 0 where
  pub all_games : GameAggregate
  pub pentanomial : Option (Buckets ℤ)
  pub divergent_games : Option GameAggregate
  pub positions : List PositionAnalysis

-- `GameHandler::process_response`.
unfoldable pub process_response : GameResultsResponse → AppResult GameResultsRecord
unfolding validate_aggregate validate_positions
process_response response = do
  validate_aggregate response.all_games
  check_game_aggregate response.all_games
  refuse (eq_ℤ response.all_games.games (pos 0))
  positions ← validate_positions response.positions response.all_games.games
  ok (record {
    all_games = response.all_games;
    pentanomial = none;
    divergent_games = none;
    positions = positions;
  })

unfoldable pub past_the_cap : ℤ → ℤ → Bool
past_the_cap next_seed max_units = ltb_ℤ max_units next_seed

-- The seed of `next_request`, from the largest seed handed out; `none` past the cap.
unfoldable pub next_seed : Option ℤ → ℤ → ℤ → Option ℤ
unfolding past_the_cap ◌+ℤ◌
next_seed last games_per_batch max_games =
    let seed : ℤ = elim last [ none ↦ pos 1 | some s ↦ s +ℤ games_per_batch ] in
    if past_the_cap seed max_games then none else some seed
