-- ===== src/Games/Places.antt =====
-- jobs/game.rs: what the positions are that `validate_positions` accepts.
use birdtest.Prelude.{
  ◌≡◌, ◌⊎◌, inl, inr, ◌&&◌, Bool-cases, not, true, false, List, [], ◌∷◌, Option, some, none, ok, ℤ,
  pos, ◌≤ℤ◌, ltb_ℤ, eq_ℤ, eq_of_parts, arith,
}
use birdtest.Wire.{CapturedPosition, PositionAnalysis}
use birdtest.Plausibility.Tiles.{rack_size}
use birdtest.Plausibility.Moves.{is_empty}
use birdtest.Plausibility.Printed.{IsRack}
use birdtest.Games.{stored, parse, max_turns_per_game, or_refuse}

-- A position on a turn of a game of the batch, by one of the two players, with a move.
pub record IsPlaced (games : ℤ) (p : CapturedPosition) : Type 0 where
  pub from_zero : pos 0 ≤ℤ p.game_index
  pub in_batch : ltb_ℤ p.game_index games ≡ true
  pub by_a_player : (p.player ≡ pos 1) ⊎ (p.player ≡ pos 2)
  pub turn_from_zero : pos 0 ≤ℤ p.turn_number
  pub turn_in_game : p.turn_number ≤ℤ max_turns_per_game
  pub has_moves : is_empty p.moves ≡ false

by_a_player :
    (z : ℤ) → (not (eq_ℤ z (pos 1)) && not (eq_ℤ z (pos 2))) ≡ false → (z ≡ pos 1) ⊎ (z ≡ pos 2)
by_a_player z h = elim (Bool-cases (eq_ℤ z (pos 1))) [
  | inl one ↦ inl (eq_of_parts z (pos 1) (ground arith))
  | inr other ↦ inr (eq_of_parts z (pos 2) (ground arith))
]

pub or_refuse-ok {ℓ} : {A : Type ℓ} (o : Option A) (a : A) → or_refuse o ≡ ok a → o ≡ some a
or_refuse-ok none a e = ground arith
or_refuse-ok (some b) a e = ground arith

abbrev pub AllPlaced : ℤ → List CapturedPosition → Type 0
AllPlaced games [] = Unit
AllPlaced games (p ∷ ps) = (IsPlaced games p × IsRack 1 rack_size p.rack) × AllPlaced games ps

-- No position of the list is on the given turn of the given game.
abbrev pub IsFree : ℤ → ℤ → List CapturedPosition → Type 0
IsFree game turn [] = Unit
IsFree game turn (p ∷ ps) =
    (¬ ((game ≡ p.game_index) × (turn ≡ p.turn_number))) × IsFree game turn ps

abbrev pub AllApart : List CapturedPosition → Type 0
AllApart [] = Unit
AllApart (p ∷ ps) = IsFree p.game_index p.turn_number ps × AllApart ps

-- What is stored is what was sent, in order, with the analysis read.
abbrev pub AllStored : List CapturedPosition → List PositionAnalysis → Type 0
AllStored [] [] = Unit
AllStored [] (a ∷ as') = ⊥
AllStored (p ∷ ps) [] = ⊥
AllStored (p ∷ ps) (a ∷ as') =
    ((parse p.analysis ≡ some a.analysis) × (a ≡ stored a.analysis p)) × AllStored ps as'
