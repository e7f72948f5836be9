-- ===== src/Racks/Space.antt =====
-- The rack space of jobs/racks.rs, defined without an index: every way to draw `k` tiles, by
-- ascending count of each tile in turn.
use birdtest.Prelude.{ℕ, zero, suc, ◌+◌, ◌-◌, min, List, [], ◌∷◌, ◌++◌, map, replicate}
use birdtest.Racks.{Tile, Rack}

-- Racks that begin with `take`, `take + 1`, ... copies of the letter, the rest from `rest`.
abbrev pub prefixed : ℕ → (ℕ → List Rack) → ℕ → ℕ → ℕ → List Rack
prefixed letter rest k take zero = []
prefixed letter rest k take (suc rounds) =
    map (λ rack. replicate take letter ++ rack) (rest (k - take))
    ++ prefixed letter rest k (take + 1) rounds

abbrev pub racks : List Tile → ℕ → List Rack
racks [] zero = [] ∷ []
racks [] (suc k) = []
racks (t ∷ ts) k = prefixed t.letter (racks ts) k 0 (min t.count k + 1)
