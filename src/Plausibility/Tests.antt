-- ===== src/Plausibility/Tests.antt =====
-- The theorems about jobs/plausibility.rs at small submissions.
use birdtest.Prelude.{◌≡◌, refl, ◌↔◌, List, [], ◌∷◌, ok, ◌*◌, ◌≤◌, pos, arith}
use birdtest.Wire.{RackOccurrence}
use birdtest.Wire.Chars.{Text}
use birdtest.Wire.Real.{of_int, one}
use birdtest.Plausibility.Tiles.{check_rack, rack_tiles, outside, inside, rack_size}
use birdtest.Plausibility.Batches.{
  check_rack_occurrences, check_rack_occurrence_total, check_occurrence, occurrences_from,
}
use birdtest.Plausibility.Printed.{IsRack, check_rack-IsRack}
use birdtest.Plausibility.Counted.{
  AllFull, AllDistinct, AllCounted, sum_counts, check_rack_occurrences-AllDistinct,
  check_rack_occurrence_total-sum_counts,
}

-- [QU]I?
abbrev quilt : Text
quilt = b'[' ∷ b'Q' ∷ b'U' ∷ b']' ∷ b'I' ∷ b'?' ∷ []

check_rack-IsRack_example : (check_rack quilt ≡ ok tt) ↔ IsRack 1 rack_size quilt
check_rack-IsRack_example = check_rack-IsRack quilt

abbrev retains : Text
retains = b'A' ∷ b'E' ∷ b'I' ∷ b'N' ∷ b'R' ∷ b'S' ∷ b'T' ∷ []

abbrev blanks : Text
blanks = b'?' ∷ b'?' ∷ b'A' ∷ b'E' ∷ b'[' ∷ b'Q' ∷ b'U' ∷ b']' ∷ b'S' ∷ b'T' ∷ []

abbrev seen_in_two_games : List RackOccurrence
seen_in_two_games =
    record { rack = retains; count = pos 3; mean = of_int (pos 41) }
    ∷ record { rack = blanks; count = pos 1; mean = of_int (pos 63) }
    ∷ []

accepted : check_rack_occurrences seen_in_two_games ≡ ok tt
unfolding check_rack_occurrences check_occurrence occurrences_from check_rack rack_tiles outside
    inside one
accepted = refl

check_rack_occurrences-AllDistinct_example :
    AllFull seen_in_two_games × (AllDistinct seen_in_two_games × AllCounted seen_in_two_games)
check_rack_occurrences-AllDistinct_example =
    check_rack_occurrences-AllDistinct seen_in_two_games accepted

check_rack_occurrence_total-sum_counts_example :
    (check_rack_occurrence_total seen_in_two_games (pos 2) ≡ ok tt)
    ↔ (sum_counts seen_in_two_games ≤ 2 * 1000)
check_rack_occurrence_total-sum_counts_example =
    check_rack_occurrence_total-sum_counts seen_in_two_games 2 (omega arith) accepted
