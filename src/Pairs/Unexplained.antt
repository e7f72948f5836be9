-- ===== src/Pairs/Unexplained.antt =====
-- A divergent subset that jobs/game_pair.rs accepts and that no batch of pairs has.
use birdtest.Prelude.{
  ℕ, ◌+◌, ◌*◌, ◌≤◌, ◌≡◌, refl, List, [], ◌++◌, ℤ, ◌-ℤ◌, pos, arith, ok, some, true,
}
use birdtest.Wire.{GameAggregate, is_consistent}
use birdtest.Wire.Real.{of_int, one}
use birdtest.Plausibility.Moves.{check_game_aggregate}
use birdtest.Games.{GameResultsResponse, GameResultsRecord, validate_positions, positions_from}
use birdtest.Outcomes.{Buckets, pairs, half_points}
use birdtest.Pairs.{
  check_pentanomial, check_divergent_against_the_whole, bucket_out_of_range, pairs_disagree,
  points_disagree, draws_disagree, exceeds_the_whole, outside_not_split, too_many_unsplit,
  process_response,
}
use birdtest.Pairs.Plays.{
  Pair, Reports, Bucketed, AllSplit, sum_of, sum_of-append, draws_in, scored,
}
use birdtest.Pairs.Accepted.{process_response_lem, check_divergent_lem}
use birdtest.Pairs.Honest.{all_balanced, AllSplit-counts}

abbrev pub tally : ℕ → ℕ → ℕ → ℕ → GameAggregate
tally games wins losses ties = record {
  games = pos games;
  wins = pos wins;
  losses = pos losses;
  ties = pos ties;
  p1_score_mean = of_int (pos 420);
  p1_score_sd = of_int (pos 60);
  p2_score_mean = of_int (pos 410);
  p2_score_sd = of_int (pos 55);
}

-- One pair of a loss and a draw, one of a win and a draw, and more pairs of a win and a loss; outside the
-- subset are two draws.
abbrev pub whole_of : ℕ → GameAggregate
whole_of n = tally (6 + 2 * n) (2 + n) (2 + n) 2

abbrev pub part_of : ℕ → GameAggregate
part_of n = tally (4 + 2 * n) (2 + n) (2 + n) 0

abbrev pub buckets_of : ℕ → Buckets ℤ
buckets_of n = record { b0 = pos 0; b1 = pos 1; b2 = pos (1 + n); b3 = pos 1; b4 = pos 0 }

whole_accepted :
    (n : ℕ)
    → n ≤ 1000000000
    → (is_consistent (whole_of n) ≡ true) × (check_pentanomial (whole_of n) (buckets_of n) ≡ ok tt)
unfolding is_consistent check_pentanomial bucket_out_of_range pairs_disagree points_disagree
    draws_disagree pairs half_points
whole_accepted n h = ground arith

part_accepted :
    (n : ℕ)
    → n ≤ 1000000000
    → (is_consistent (part_of n) ≡ true)
      × (check_divergent_against_the_whole (whole_of n) (buckets_of n) (part_of n) ≡ ok tt)
unfolding is_consistent check_divergent_against_the_whole exceeds_the_whole outside_not_split
    too_many_unsplit
part_accepted n h = ground arith

pos-inj : (m n : ℕ) → pos m ≡ pos n → m ≡ n
pos-inj m n e = cc

unexplained :
    (n : ℕ) (ps qs : List Pair)
    → Bucketed (ps ++ qs) (buckets_of n)
    → Reports ps (part_of n)
    → AllSplit qs
    → ⊥
unexplained n ps qs k r s = omega (
  arith,
  pos-inj 1 (sum_of (scored 1) (ps ++ qs)) k.one_point,
  pos-inj 0 (sum_of draws_in ps) r.ties,
  sum_of-append (scored 1) ps qs,
  all_balanced ps,
  all_balanced qs,
  AllSplit-counts qs s,
)

-- Pairs that diverged and pairs played alike that together make the pentanomial, the first the subset.
abbrev pub IsExplained : ℕ → Type 0
IsExplained n =
    (ps : List Pair) × ((qs : List Pair) × (Bucketed (ps ++ qs) (buckets_of n)
        × (Reports ps (part_of n) × AllSplit qs)))

-- The response of the whole, the pentanomial and the subset, with no position kept.
abbrev pub response_of : ℕ → GameResultsResponse
response_of n = record {
  all_games = whole_of n;
  pentanomial = some (buckets_of n);
  divergent_games = some (part_of n);
  positions = [];
}

abbrev pub record_of : ℕ → GameResultsRecord
record_of n = record {
  all_games = whole_of n;
  pentanomial = some (buckets_of n);
  divergent_games = some (part_of n);
  positions = [];
}

-- The score figures are in range whatever the counts are.
figures_accepted :
    (games wins losses ties : ℕ) → check_game_aggregate (tally games wins losses ties) ≡ ok tt
unfolding check_game_aggregate one ◌-ℤ◌
figures_accepted games wins losses ties = refl

response_accepted : (n : ℕ) → n ≤ 1000000000 → process_response (response_of n) ≡ ok (record_of n)
unfolding validate_positions positions_from
response_accepted n h =
    let (consistent, counts) = whole_accepted n h in
    let (part_consistent, part) = part_accepted n h in
    process_response_lem (whole_of n) (part_of n) (buckets_of n) [] [] consistent
      (figures_accepted (6 + 2 * n) (2 + n) (2 + n) 2) (ground arith) (ground arith) counts
      (check_divergent_lem (whole_of n) (part_of n) (buckets_of n) part_consistent
        (figures_accepted (4 + 2 * n) (2 + n) (2 + n) 0) (ground arith) (ground arith) part)
      refl

-- Some responses are accepted whose divergent games belong to no batch. For each n up to a thousand million,
-- the response of 3 + n pairs, of which one is a loss and a draw, one a win and a draw, as the pentanomial
-- says, with a divergent subset of 2 + n pairs without a draw and no position, is accepted and recorded as it
-- is; and no pairs that diverged with pairs played alike have that pentanomial and that subset, as both of the
-- two pairs diverged and hold a draw.
pub unexplained_accepted :
    (n : ℕ)
    → n ≤ 1000000000
    → (process_response (response_of n) ≡ ok (record_of n)) × (¬ IsExplained n)
unexplained_accepted n h =
    (response_accepted n h, λ (ps, (qs, (k, (r, s)))). unexplained n ps qs k r s)
