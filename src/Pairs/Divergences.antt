-- ===== src/Pairs/Divergences.antt =====
-- jobs/game_pair.rs: what `check_first_divergences` accepts.
use birdtest.Prelude.{
  ℕ, ◌+◌, ◌≡◌, List, [], ◌∷◌, Option, some, Option-cases, inl, inr, ok, refuse, bind-ok, ℤ, pos,
  eq_of_parts, quot, length, not, ◌==◌, arith,
}
use birdtest.Wire.{GameAggregate, PositionAnalysis}
use birdtest.Games.{or_refuse}
use birdtest.Games.Places.{or_refuse-ok}
use birdtest.Pairs.{
  check_first_divergences, divergences_from, check_second, first_of_pair, game_and_turn,
}

abbrev First : Type 0
First = List (ℤ × PositionAnalysis)

-- Each position is the first of its pair or completes it.
counted_from :
    (first : First) (complete : ℕ) (ps : List PositionAnalysis) (last : First) (done : ℕ)
    → divergences_from first complete ps ≡ ok (last, done)
    → length last + done ≡ length first + complete + length ps
unfolding divergences_from
counted_from first complete [] last done e = ground arith
counted_from first complete (p ∷ ps) last done e = elim (Option-cases (game_and_turn p)) [
  | inl none_named ↦ ground arith
  | inr ((game, turn), named) ↦ elim (Option-cases (first_of_pair (quot game 2) first)) [
    | inl new ↦ ground (arith, counted_from ((quot game 2, p) ∷ first) complete ps last done)
    | inr (other, found) ↦ ground (
      arith,
      bind-ok (check_second other game turn p) (λ _. divergences_from first (complete + 1) ps)
          (last, done),
      counted_from first (complete + 1) ps last done,
    )
  ]
]

-- When `check_first_divergences` accepts, the divergent games are given and are as many as the positions.
pub check_first_divergences-length :
    (ps : List PositionAnalysis)
    → (divergent : Option GameAggregate) → check_first_divergences ps divergent ≡ ok tt
    → (d : GameAggregate) × ((divergent ≡ some d) × (d.games ≡ pos (length ps)))
unfolding check_first_divergences
check_first_divergences-length ps divergent e =
    let (d, (given, e1)) = bind-ok (or_refuse divergent) _ tt e in
    let ((first, complete), (counted, e2)) = bind-ok (divergences_from [] 0 ps) _ tt e1 in
    let (_, (whole, e3)) = bind-ok (refuse (not (length first == complete))) _ tt e2 in
    (
      d,
      (
        or_refuse-ok divergent d given,
        eq_of_parts d.games (pos (length ps))
            (ground (arith, counted_from [] 0 ps first complete counted)),
      ),
    )
