-- ===== src/Racks/Tests.antt =====
-- Runs of jobs/racks.rs on small bags, and its theorems at them.
use birdtest.Prelude.{
  ℕ, ◌≤◌, ◌<◌, ◌≡◌, ◌⊎◌, refl, List, [], ◌∷◌, reverse, none, some, take, drop, arith,
}
use birdtest.Racks.{
  Tile, Rack, LetterDistribution, new_index, total, scatter, rack_at, rack_at_enumeration_index,
  racks_in_enumeration_range, enumerate_racks, count_rows,
}
use birdtest.Racks.Space.{racks}
use birdtest.Racks.Draws.{IsDraw}
use birdtest.Racks.Unrank.{rack_at_enumeration_index-racks}
use birdtest.Racks.Ranges.{
  racks_in_enumeration_range-slice, racks_in_enumeration_range-enumerate_racks,
}
use birdtest.Racks.Counting.{total-new_index}
use birdtest.Racks.Scatter.{rack_at-IsDraw, rack_at_unique}

-- The two-letter bag, with eight racks of seven tiles.
abbrev english_ab : List Tile
english_ab = record { letter = b'A'; count = 9 } ∷ record { letter = b'B'; count = 8 } ∷ []

abbrev ab_distribution : LetterDistribution
ab_distribution = record { tiles = english_ab; unenumerable = none }

abbrev three_as : Rack
three_as = b'A' ∷ b'A' ∷ b'A' ∷ b'B' ∷ b'B' ∷ b'B' ∷ b'B' ∷ []

total_ab : total (new_index english_ab 7) ≡ 8
unfolding total count_rows
total_ab = refl

scatter_ab : scatter (new_index english_ab 7) 3 ≡ 5
unfolding scatter count_rows
scatter_ab = refl

rack_at_ab : rack_at (new_index english_ab 7) 5 ≡ some three_as
unfolding rack_at count_rows
rack_at_ab = refl

total-new_index_example : total (new_index english_ab 7) ≡ 8
total-new_index_example = total-new_index english_ab 7

rack_at_enumeration_index-racks_example :
    rack_at_enumeration_index (new_index english_ab 7) 3 ≡ some three_as
rack_at_enumeration_index-racks_example =
    rack_at_enumeration_index-racks english_ab 7 3 (omega arith)

racks_in_enumeration_range-slice_example :
    racks_in_enumeration_range (new_index english_ab 7) 3 100
    ≡ take 100 (drop 3 (racks english_ab 7))
racks_in_enumeration_range-slice_example =
    racks_in_enumeration_range-slice english_ab 7 3 100 (omega arith)

racks_in_enumeration_range-enumerate_racks_example :
    racks_in_enumeration_range (new_index english_ab 7) 0 (total (new_index english_ab 7))
    ≡ reverse (enumerate_racks ab_distribution 7)
racks_in_enumeration_range-enumerate_racks_example =
    racks_in_enumeration_range-enumerate_racks ab_distribution 7 (omega arith) (omega arith)
      (omega arith)

rack_at-IsDraw_example :
    ((total (new_index english_ab 7) ≤ 5) × (rack_at (new_index english_ab 7) 5 ≡ none))
    ⊎ ((5 < total (new_index english_ab 7))
        × ((r : Rack) × (rack_at (new_index english_ab 7) 5 ≡ some r) × IsDraw english_ab 7 r))
rack_at-IsDraw_example = rack_at-IsDraw english_ab 7 5

rack_at_unique_example :
    (i : ℕ) × (i < total (new_index english_ab 7))
    × (rack_at (new_index english_ab 7) i ≡ some three_as)
    × ((j : ℕ) → rack_at (new_index english_ab 7) j ≡ some three_as → j ≡ i)
unfolding total count_rows
rack_at_unique_example =
    rack_at_unique english_ab 7 7 three_as (((λ e. absurd (omega (arith, e))), tt), (tt, tt))
      (omega arith) refl
      (
        3,
        b'B' ∷ b'B' ∷ b'B' ∷ b'B' ∷ [],
        omega arith,
        omega arith,
        refl,
        (4, [], omega arith, omega arith, refl, (refl, refl)),
      )
