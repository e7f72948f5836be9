-- ===== src/Plausibility/Moves.antt =====
-- jobs/plausibility.rs: the figures of a position's moves, and of an inference.
use birdtest.Prelude.{
  ℕ, Bool, true, false, not, ◌&&◌, ◌||◌, List, [], ◌∷◌, Option, none, some, AppResult, ok, err,
  bad_request, refuse, for_each, ◌>>◌, ℤ, pos, negsuc, leb_ℤ, ltb_ℤ, ltb, leb, ◌==◌, if◌then◌else◌,
  length,
}
use birdtest.Wire.{
  PlyStats, MoveEntry, GameAggregate, InferredLeave, InferenceSummary, Analysis, static, sim, peg,
  endgame,
}
use birdtest.Wire.Real.{F64, of_int, is_finite, lt_f64, abs, contains}
use birdtest.Plausibility.Tiles.{rack_tiles, rack_size, check_play_text, max_move_score}

abbrev pub max_abs_equity : ℤ
max_abs_equity = pos 200000

abbrev pub min_score_mean : ℤ
min_score_mean = negsuc 99

abbrev pub max_score_mean : ℤ
max_score_mean = pos 3000

abbrev pub finite_or_refuse : F64 → AppResult (Unit {0})
finite_or_refuse v = refuse (not (is_finite v))

unfoldable pub check_game_aggregate : GameAggregate → AppResult (Unit {0})
check_game_aggregate a = do
  finite_or_refuse a.p1_score_mean
  finite_or_refuse a.p1_score_sd
  finite_or_refuse a.p2_score_mean
  finite_or_refuse a.p2_score_sd
  refuse (lt_f64 a.p1_score_sd (of_int (pos 0)) || lt_f64 a.p2_score_sd (of_int (pos 0)))
  refuse (not (contains (of_int min_score_mean) (of_int max_score_mean) a.p1_score_mean))
  refuse (not (contains (of_int min_score_mean) (of_int max_score_mean) a.p2_score_mean))

-- The loop of `check_plies`, with the ply before.
unfoldable pub check_plies_from : Option ℤ → List PlyStats → AppResult (Unit {0})
check_plies_from previous [] = ok tt
check_plies_from previous (p ∷ ps) =
    let rest = check_plies_from (some p.ply) ps in
    do
      refuse
          (ltb_ℤ p.ply (pos 0) || elim previous [ none ↦ false | some before ↦ leb_ℤ p.ply before ])
      finite_or_refuse p.bingo_percentage
      refuse (not (contains (of_int (pos 0)) (of_int (pos 100)) p.bingo_percentage))
      finite_or_refuse p.average_score
      refuse (not (contains (of_int (pos 0)) (of_int max_move_score) p.average_score))
      rest

unfoldable pub check_plies : List PlyStats → AppResult (Unit {0})
unfolding check_plies_from
check_plies plies = check_plies_from none plies

unfoldable pub check_move : MoveEntry → AppResult (Unit {0})
unfolding check_plies
check_move m = do
  check_play_text m.play
  refuse (ltb_ℤ m.score (pos 0) || ltb_ℤ max_move_score m.score)
  finite_or_refuse m.equity
  refuse (lt_f64 (of_int max_abs_equity) (abs m.equity))
  refuse (elim m.iterations [ none ↦ false | some n ↦ ltb_ℤ n (pos 0) ])
  elim m.win_percentage [
    | none ↦ ok tt
    | some w ↦ do finite_or_refuse w; refuse (not (contains (of_int (pos 0)) (of_int (pos 100)) w))
  ]
  elim m.blended_utility [
    | none ↦ ok tt
    | some u ↦ do finite_or_refuse u; refuse (not (contains (of_int (pos 0)) (of_int (pos 1)) u))
  ]
  check_plies m.plies

-- `num_moves as usize` of a count that is not negative.
abbrev pub fewer_than_sent : Option ℤ → ℕ → Bool
fewer_than_sent none sent = false
fewer_than_sent (some (pos n)) sent = ltb n sent
fewer_than_sent (some (negsuc n)) sent = true

unfoldable pub check_moves : List MoveEntry → Option ℤ → AppResult (Unit {0})
unfolding check_move
check_moves moves num_moves = do
  refuse (fewer_than_sent num_moves (length moves))
  for_each check_move moves

abbrev pub is_some {ℓ} : {A : Type ℓ} → Option A → Bool
is_some none = false
is_some (some a) = true

abbrev pub is_empty {ℓ} : {A : Type ℓ} → List A → Bool
is_empty [] = true
is_empty (x ∷ xs) = false

abbrev pub max_endgame_fidelity_plies : ℤ
max_endgame_fidelity_plies = pos 25

abbrev pub max_peg_fidelity_plies : ℤ
max_peg_fidelity_plies = pos 40

abbrev pub is_solved : Analysis → Bool
is_solved peg = true
is_solved endgame = true
is_solved _ = false

abbrev pub is_sim : Analysis → Bool
is_sim sim = true
is_sim _ = false

abbrev pub deepest_of : Analysis → ℤ
deepest_of peg = max_peg_fidelity_plies
deepest_of _ = max_endgame_fidelity_plies

-- `if solved { .. }`: the solver's statistics, which a solved move has to carry.
abbrev pub check_solver_stats : Analysis → MoveEntry → AppResult (Unit {0})
check_solver_stats analysis m = elim m.mean_spread [
  | none ↦ err bad_request
  | some spread ↦ elim m.fidelity_plies [
    | none ↦ err bad_request
    | some fidelity ↦ do
      finite_or_refuse spread
      refuse (lt_f64 (of_int max_abs_equity) (abs spread))
      refuse (not (leb_ℤ (pos 0) fidelity && leb_ℤ fidelity (deepest_of analysis)))
  ]
]

-- The last `match analysis` of the loop.
abbrev pub misplaced_stats : Analysis → MoveEntry → Bool
misplaced_stats peg m = not (is_some m.win_percentage)
misplaced_stats endgame m = is_some m.win_percentage || is_some m.blended_utility
misplaced_stats static m = is_some m.win_percentage || is_some m.blended_utility
misplaced_stats sim m = false

unfoldable pub check_analysed_move : Analysis → MoveEntry → AppResult (Unit {0})
check_analysed_move analysis m = do
  refuse (
      not (is_sim analysis)
      && (elim m.iterations [ none ↦ false | some n ↦ ltb_ℤ (pos 0) n ] || not (is_empty m.plies)))
  refuse (not (is_solved analysis) && (is_some m.mean_spread || is_some m.fidelity_plies))
  if is_solved analysis then check_solver_stats analysis m else ok tt
  refuse (misplaced_stats analysis m)

abbrev pub wrong_count : Analysis → ℕ → Bool
wrong_count endgame n = not (n == 1)
wrong_count _ n = false

unfoldable pub check_analysis : Analysis → List MoveEntry → AppResult (Unit {0})
unfolding check_analysed_move
check_analysis analysis moves = do
  refuse (wrong_count analysis (length moves))
  for_each (check_analysed_move analysis) moves

abbrev pub max_inferred_leaves : ℕ
max_inferred_leaves = 10

-- The loop over the leaves, with the draws of the leave before; `none` is `i64::MAX`, which no
-- number of draws exceeds.
unfoldable pub check_leaves_from : ℤ → Option ℤ → List InferredLeave → AppResult (Unit {0})
check_leaves_from total_draws previous [] = ok tt
check_leaves_from total_draws previous (l ∷ ls) =
    let rest = check_leaves_from total_draws (some l.draws) ls in
    do
      refuse (elim (rack_tiles l.leave) [ none ↦ true | some tiles ↦ leb rack_size tiles ])
      refuse (
          ltb_ℤ l.draws (pos 1)
          || (ltb_ℤ total_draws l.draws
              || elim previous [ none ↦ false | some before ↦ ltb_ℤ before l.draws ]))
      refuse (not (is_finite l.equity) || lt_f64 (of_int max_abs_equity) (abs l.equity))
      rest

unfoldable pub check_inference : InferenceSummary → Analysis → ℤ → Bool → AppResult (Unit {0})
unfolding check_leaves_from
check_inference inference analysis turn_number has_previous_move = do
  refuse (not (is_sim analysis))
  refuse (elim turn_number [ pos n ↦ n == 0 | negsuc n ↦ false ] || not has_previous_move)
  refuse (ltb max_inferred_leaves (length inference.leaves))
  refuse (
      ltb_ℤ inference.num_leaves (pos (length inference.leaves))
      || ltb_ℤ inference.total_draws (pos 0))
  refuse (
      not (is_finite inference.average_equity)
      || lt_f64 (of_int max_abs_equity) (abs inference.average_equity))
  check_leaves_from inference.total_draws none inference.leaves
