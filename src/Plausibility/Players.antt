-- ===== src/Plausibility/Players.antt =====
-- jobs/plausibility.rs, `check_analyses_against_players`: each analysis is one that a player of the
-- task could have run.
use birdtest.Prelude.{
  ℕ, zero, suc, ◌+◌, Bool, true, false, not, ◌&&◌, ◌||◌, List, [], ◌∷◌, Option, none, some,
  AppResult, ok, err, bad_request, refuse, for_each, ◌>>=◌, ◌>>◌, ℤ, pos, negsuc, leb_ℤ, ltb_ℤ,
  eq_ℤ, if◌then◌else◌, length, get_elem?,
}
use birdtest.Wire.{MoveEntry, PlayerSpec, PositionAnalysis, Analysis, static, sim, peg, endgame}
use birdtest.Plausibility.Moves.{max_peg_fidelity_plies, is_some}

abbrev pub i32_max : ℤ
i32_max = pos 2147483647

-- `deepest_peg_fidelity`.
abbrev pub deepest_peg_fidelity : Option (List ℤ) → ℤ
deepest_peg_fidelity none = max_peg_fidelity_plies
deepest_peg_fidelity (some []) = pos 1
deepest_peg_fidelity (some (k ∷ [])) = if eq_ℤ k i32_max then max_peg_fidelity_plies else pos 2
deepest_peg_fidelity (some (k ∷ (l ∷ ks))) = pos (length (k ∷ (l ∷ ks)) + 1)

abbrev pub any {ℓ} : {A : Type ℓ} → (A → Bool) → List A → Bool
any p [] = false
any p (x ∷ xs) = p x || any p xs

abbrev pub max_ℤ : ℤ → ℤ → ℤ
max_ℤ a b = if leb_ℤ a b then b else a

-- `Iterator::max` of the values that the filter keeps.
abbrev pub deepest : (PlayerSpec → Bool) → (PlayerSpec → ℤ) → List PlayerSpec → Option ℤ
deepest keep depth [] = none
deepest keep depth (p ∷ ps) =
    let rest = deepest keep depth ps in
    if keep p then elim rest [ none ↦ some (depth p) | some d ↦ some (max_ℤ (depth p) d) ] else rest

abbrev pub simulating : PlayerSpec → Bool
simulating p = ltb_ℤ (pos 0) p.num_plies

abbrev pub inferring : PlayerSpec → Bool
inferring p = simulating p && elim p.use_inference [ none ↦ true | some b ↦ b ]

abbrev pub solving : PlayerSpec → Bool
solving p = ltb_ℤ (pos 0) p.endgame_plies

abbrev pub pre_solving : PlayerSpec → Bool
pre_solving p = solving p && ltb_ℤ (pos 0) p.peg_max_bag

abbrev pub peg_depth : PlayerSpec → ℤ
peg_depth p = deepest_peg_fidelity p.peg_stage_top_k

abbrev pub endgame_depth : PlayerSpec → ℤ
endgame_depth p = p.endgame_plies

-- A move ranked deeper than `d`.
abbrev pub deeper : ℤ → MoveEntry → Bool
deeper d m = elim m.fidelity_plies [ none ↦ false | some f ↦ ltb_ℤ d f ]

-- The player at the index, alone.
abbrev pub seat_at : List PlayerSpec → ℕ → AppResult (List PlayerSpec)
seat_at players i = elim (get_elem? players i) [ none ↦ err bad_request | some p ↦ ok (p ∷ []) ]

-- The players who may have moved: the one that the position names, or all of the task.
abbrev pub movers_of : Option ℤ → List PlayerSpec → AppResult (List PlayerSpec)
movers_of none players = ok players
movers_of (some (negsuc n)) players = err bad_request
movers_of (some (pos zero)) players = err bad_request
movers_of (some (pos (suc i))) players = seat_at players i

abbrev pub check_depth : Option ℤ → List MoveEntry → AppResult (Unit {0})
check_depth none moves = err bad_request
check_depth (some d) moves = refuse (any (deeper d) moves)

abbrev pub check_analysis_by : Analysis → List MoveEntry → List PlayerSpec → AppResult (Unit {0})
check_analysis_by static moves movers = ok tt
check_analysis_by sim moves movers = refuse (not (any simulating movers))
check_analysis_by peg moves movers = check_depth (deepest pre_solving peg_depth movers) moves
check_analysis_by endgame moves movers = check_depth (deepest solving endgame_depth movers) moves

unfoldable pub check_position : List PlayerSpec → PositionAnalysis → AppResult (Unit {0})
check_position players position = do
  movers ← movers_of position.player players
  check_analysis_by position.analysis position.moves movers
  refuse (is_some position.inference && not (any inferring movers))

unfoldable pub check_analyses_against_players :
    List PositionAnalysis → List PlayerSpec → AppResult (Unit {0})
unfolding check_position
check_analyses_against_players positions players = for_each (check_position players) positions
