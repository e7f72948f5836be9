-- ===== src/Wire.antt =====
-- backend/src/jobs/handler.rs: what a worker sends. Machine integers are integers; their ranges are
-- those of the JSON decoder.
pub mod Real
pub mod Chars
use birdtest.Prelude.{ℤ, pos, ◌+ℤ◌, Bool, ◌&&◌, List, Option, leb_ℤ, eq_ℤ}
use Real.{F64}
use Chars.{Text}

pub record PlyStats : Type 0 where
  pub ply : ℤ
  pub bingo_percentage : F64
  pub average_score : F64

pub record MoveEntry : Type 0 where
  pub play : Text
  pub score : ℤ
  pub equity : F64
  pub iterations : Option ℤ
  pub win_percentage : Option F64
  pub blended_utility : Option F64
  pub mean_spread : Option F64
  pub fidelity_plies : Option ℤ
  pub plies : List PlyStats

pub record GameAggregate : Type 0 where
  pub games : ℤ
  pub wins : ℤ
  pub losses : ℤ
  pub ties : ℤ
  pub p1_score_mean : F64
  pub p1_score_sd : F64
  pub p2_score_mean : F64
  pub p2_score_sd : F64

-- `GameAggregate::is_consistent`. The sum of three `i32` fits in the `i64` that it is taken in.
unfoldable pub is_consistent : GameAggregate → Bool
unfolding ◌+ℤ◌
is_consistent a =
    leb_ℤ (pos 0) a.games
    && (leb_ℤ (pos 0) a.wins
        && (leb_ℤ (pos 0) a.losses
            && (leb_ℤ (pos 0) a.ties && eq_ℤ (a.wins +ℤ a.losses +ℤ a.ties) a.games)))

pub record InferredLeave : Type 0 where
  pub leave : Text
  pub draws : ℤ
  pub equity : F64

pub record InferenceSummary : Type 0 where
  pub num_leaves : ℤ
  pub total_draws : ℤ
  pub average_equity : F64
  pub leaves : List InferredLeave

pub data Analysis : Type 0 where
  static sim peg endgame : Analysis

pub record CapturedPosition : Type 0 where
  pub game_index : ℤ
  pub turn_number : ℤ
  pub player : ℤ
  pub rack : Text
  pub position : Text
  pub previous_move : Option Text
  pub previous_move_score : Option ℤ
  pub played_move : Text
  pub played_move_score : ℤ
  pub num_moves : ℤ
  pub analysis : Text
  pub moves : List MoveEntry
  pub inference : Option InferenceSummary

pub record PositionAnalysis : Type 0 where
  pub rack : Text
  pub position : Option Text
  pub game_index : Option ℤ
  pub turn_number : Option ℤ
  pub player : Option ℤ
  pub previous_move : Option Text
  pub previous_move_score : Option ℤ
  pub played_move : Option Text
  pub played_move_score : Option ℤ
  pub num_moves : ℤ
  pub analysis : Analysis
  pub moves : List MoveEntry
  pub inference : Option InferenceSummary

-- The settings of a player that the checks read.
pub record PlayerSpec : Type 0 where
  pub num_plies : ℤ
  pub use_inference : Option Bool
  pub endgame_plies : ℤ
  pub peg_max_bag : ℤ
  pub peg_stage_top_k : Option (List ℤ)

pub record RackOccurrence : Type 0 where
  pub rack : Text
  pub count : ℤ
  pub mean : F64
