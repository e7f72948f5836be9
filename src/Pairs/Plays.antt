-- ===== src/Pairs/Plays.antt =====
-- What a game-pairs batch is, without its counts: the results of the two games of each pair.
use birdtest.Prelude.{
  ℕ, zero, suc, ◌+◌, ◌*◌, ◌≡◌, List, [], ◌∷◌, ◌++◌, length, replicate, ℤ, pos, arith,
}
use birdtest.Wire.{GameAggregate}
use birdtest.Outcomes.{Buckets}

-- A game as player 1 ended it.
pub data Outcome : Type 0 where
  won lost drawn : Outcome

-- The two games of a pair.
pub data Pair : Type 0 where
  pair : Outcome → Outcome → Pair

abbrev pub wins_in : Pair → ℕ
wins_in (pair won won) = 2
wins_in (pair won _) = 1
wins_in (pair lost won) = 1
wins_in (pair lost _) = 0
wins_in (pair drawn won) = 1
wins_in (pair drawn _) = 0

abbrev pub losses_in : Pair → ℕ
losses_in (pair lost lost) = 2
losses_in (pair lost _) = 1
losses_in (pair won lost) = 1
losses_in (pair won _) = 0
losses_in (pair drawn lost) = 1
losses_in (pair drawn _) = 0

abbrev pub draws_in : Pair → ℕ
draws_in (pair drawn drawn) = 2
draws_in (pair drawn _) = 1
draws_in (pair won drawn) = 1
draws_in (pair won _) = 0
draws_in (pair lost drawn) = 1
draws_in (pair lost _) = 0

-- 1 where player 1 scored so many half-points over the pair.
abbrev pub scored : ℕ → Pair → ℕ
scored k p = at k (2 * wins_in p + draws_in p)
  where
    at : ℕ → ℕ → ℕ
    at zero zero = 1
    at zero (suc n) = 0
    at (suc k) zero = 0
    at (suc k) (suc n) = at k n

abbrev pub both_drawn : Pair → ℕ
both_drawn (pair drawn drawn) = 1
both_drawn (pair drawn _) = 0
both_drawn (pair won _) = 0
both_drawn (pair lost _) = 0

abbrev pub sum_of : (Pair → ℕ) → List Pair → ℕ
sum_of f [] = 0
sum_of f (p ∷ ps) = f p + sum_of f ps

pub sum_of-append :
    (f : Pair → ℕ) (ps qs : List Pair) → sum_of f (ps ++ qs) ≡ sum_of f ps + sum_of f qs
sum_of-append f [] qs = omega arith
sum_of-append f (p ∷ ps) qs = omega (arith, sum_of-append f ps qs)

pub sum_of-replicate : (f : Pair → ℕ) (n : ℕ) (p : Pair) → sum_of f (replicate n p) ≡ n * f p
sum_of-replicate f zero p = omega arith
sum_of-replicate f (suc n) p = omega (arith, sum_of-replicate f n p)

-- The counts that a worker reports of the pairs.
pub record Reports (ps : List Pair) (a : GameAggregate) : Type 0 where
  pub games : a.games ≡ pos (2 * length ps)
  pub wins : a.wins ≡ pos (sum_of wins_in ps)
  pub losses : a.losses ≡ pos (sum_of losses_in ps)
  pub ties : a.ties ≡ pos (sum_of draws_in ps)

pub record Bucketed (ps : List Pair) (b : Buckets ℤ) : Type 0 where
  pub zero_points : b.b0 ≡ pos (sum_of (scored 0) ps)
  pub one_point : b.b1 ≡ pos (sum_of (scored 1) ps)
  pub two_points : b.b2 ≡ pos (sum_of (scored 2) ps)
  pub three_points : b.b3 ≡ pos (sum_of (scored 3) ps)
  pub four_points : b.b4 ≡ pos (sum_of (scored 4) ps)

-- A pair whose two games were played alike: one game from both seats.
abbrev pub IsSplit : Pair → Type 0
IsSplit (pair won lost) = Unit {0}
IsSplit (pair lost won) = Unit {0}
IsSplit (pair drawn drawn) = Unit {0}
IsSplit _ = ⊥

abbrev pub AllSplit : List Pair → Type 0
AllSplit [] = Unit {0}
AllSplit (p ∷ ps) = IsSplit p × AllSplit ps
