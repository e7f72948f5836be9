-- ===== src/Plausibility/Batches.antt =====
-- jobs/plausibility.rs: the sizes of a batch, and the rack occurrences of a leave-generation batch.
use birdtest.Prelude.{
  ℕ, Bool, true, false, not, ◌||◌, List, [], ◌∷◌, none, some, AppResult, ok, refuse, ◌>>◌, ℤ, pos,
  negsuc, ◌+ℤ◌, ◌*ℤ◌, ltb_ℤ, eq_ℤ, ◌==◌, if◌then◌else◌,
}
use birdtest.Wire.{RackOccurrence}
use birdtest.Wire.Chars.{Text, text_eq}
use birdtest.Wire.Real.{of_int, is_finite, lt_f64, abs}
use birdtest.Plausibility.Tiles.{rack_tiles, check_rack, rack_size}

abbrev pub max_abs_rack_mean : ℤ
max_abs_rack_mean = pos 5000

abbrev pub max_rack_occurrences_per_game : ℤ
max_rack_occurrences_per_game = pos 1000

abbrev pub i64_max : ℕ
i64_max = 9223372036854775807

-- What `i64::saturating_add` and `saturating_mul` make of the exact value.
abbrev pub saturate_i64 : ℤ → ℤ
saturate_i64 z =
    if ltb_ℤ (pos i64_max) z
    then pos i64_max
    else if ltb_ℤ z (negsuc i64_max)
    then negsuc i64_max
    else z

-- `HashSet::contains`.
abbrev pub listed : Text → List Text → Bool
listed t [] = false
listed t (s ∷ seen) = text_eq t s || listed t seen

unfoldable pub check_occurrence : List Text → RackOccurrence → AppResult (Unit {0})
check_occurrence seen o = do
  check_rack o.rack
  refuse (elim (rack_tiles o.rack) [ none ↦ true | some tiles ↦ not (tiles == rack_size) ])
  refuse (ltb_ℤ o.count (pos 1))
  refuse (not (is_finite o.mean))
  refuse (lt_f64 (of_int max_abs_rack_mean) (abs o.mean))
  refuse (listed o.rack seen)

unfoldable pub occurrences_from : List Text → List RackOccurrence → AppResult (Unit {0})
occurrences_from seen [] = ok tt
occurrences_from seen (o ∷ os) =
    let rest = occurrences_from (o.rack ∷ seen) os in do check_occurrence seen o; rest

unfoldable pub check_rack_occurrences : List RackOccurrence → AppResult (Unit {0})
unfolding occurrences_from
check_rack_occurrences racks = occurrences_from [] racks

abbrev pub at_least_zero : ℤ → ℤ
at_least_zero (pos n) = pos n
at_least_zero (negsuc n) = pos 0

unfoldable pub ceiling_of : ℤ → ℤ
unfolding ◌*ℤ◌
ceiling_of num_games = saturate_i64 (at_least_zero num_games *ℤ max_rack_occurrences_per_game)

unfoldable pub total_from : ℤ → ℤ → List RackOccurrence → AppResult (Unit {0})
unfolding ◌+ℤ◌
total_from ceiling total [] = ok tt
total_from ceiling total (o ∷ os) =
    let sum = saturate_i64 (total +ℤ o.count) in
    let rest = total_from ceiling sum os in do refuse (ltb_ℤ ceiling sum); rest

unfoldable pub check_rack_occurrence_total : List RackOccurrence → ℤ → AppResult (Unit {0})
unfolding total_from ceiling_of
check_rack_occurrence_total racks num_games = total_from (ceiling_of num_games) (pos 0) racks

-- `i32::saturating_mul(2)`.
abbrev pub twice_i32 : ℤ → ℤ
twice_i32 b =
    if ltb_ℤ (pos 1073741823) b
    then pos 2147483647
    else if ltb_ℤ b (negsuc 1073741823)
    then negsuc 2147483647
    else b +ℤ b

unfoldable pub games_dispatched : ℤ → Bool → ℤ
unfolding ◌+ℤ◌
games_dispatched batch_size game_pairs = if game_pairs then twice_i32 batch_size else batch_size

unfoldable pub check_batch_size : ℤ → ℤ → AppResult (Unit {0})
check_batch_size reported_games expected_games = refuse (not (eq_ℤ reported_games expected_games))
