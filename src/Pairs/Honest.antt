-- ===== src/Pairs/Honest.antt =====
-- The checks of jobs/game_pair.rs never refuse the counts of a batch that was played.
use birdtest.Prelude.{
  ◌+◌, ◌*◌, ◌≤◌, ◌<◌, ◌≡◌, List, [], ◌∷◌, ◌++◌, length, length-append, ℤ, pos, rem, eq_ℤ, ltb_ℤ,
  some, arith, ok, true, false,
}
use birdtest.Wire.{GameAggregate, PositionAnalysis, CapturedPosition, is_consistent}
use birdtest.Plausibility.Moves.{check_game_aggregate}
use birdtest.Games.{validate_positions}
use birdtest.Outcomes.{Buckets}
use birdtest.Pairs.{
  check_pentanomial, bucket_out_of_range, pairs_disagree, points_disagree, draws_disagree,
  check_divergent_against_the_whole, exceeds_the_whole, outside_not_split, too_many_unsplit,
  check_divergent, process_response,
}
use birdtest.Pairs.Accepted.{process_response_lem, check_divergent_lem}
use birdtest.Pairs.Plays.{
  won, lost, drawn, Pair, pair, wins_in, losses_in, draws_in, scored, both_drawn, sum_of,
  sum_of-append, Reports, Bucketed, IsSplit, AllSplit,
}

-- How the counts of one pair hang together.
abbrev Balanced : Pair → Type 0
Balanced p =
    (scored 1 p + 2 * scored 2 p + 3 * scored 3 p + 4 * scored 4 p ≡ 2 * wins_in p + draws_in p)
    × (scored 0 p + scored 1 p + scored 2 p + scored 3 p + scored 4 p ≡ 1)
    × (wins_in p + losses_in p + draws_in p ≡ 2)
    × (draws_in p ≡ scored 1 p + scored 3 p + 2 * both_drawn p)
    × (both_drawn p ≤ scored 2 p)

balanced : (p : Pair) → Balanced p
balanced (pair won won) = omega arith
balanced (pair won lost) = omega arith
balanced (pair won drawn) = omega arith
balanced (pair lost won) = omega arith
balanced (pair lost lost) = omega arith
balanced (pair lost drawn) = omega arith
balanced (pair drawn won) = omega arith
balanced (pair drawn lost) = omega arith
balanced (pair drawn drawn) = omega arith

abbrev pub AllBalanced : List Pair → Type 0
AllBalanced ps =
    (sum_of (scored 1) ps
        + 2 * sum_of (scored 2) ps
        + 3 * sum_of (scored 3) ps
        + 4 * sum_of (scored 4) ps
      ≡ 2 * sum_of wins_in ps + sum_of draws_in ps)
    × (sum_of (scored 0) ps
          + sum_of (scored 1) ps
          + sum_of (scored 2) ps
          + sum_of (scored 3) ps
          + sum_of (scored 4) ps
        ≡ length ps)
    × (sum_of wins_in ps + sum_of losses_in ps + sum_of draws_in ps ≡ 2 * length ps)
    × (sum_of draws_in ps ≡ sum_of (scored 1) ps + sum_of (scored 3) ps + 2 * sum_of both_drawn ps)
    × (sum_of both_drawn ps ≤ sum_of (scored 2) ps)

pub all_balanced : (ps : List Pair) → AllBalanced ps
all_balanced [] = omega arith
all_balanced (p ∷ ps) = omega (arith, balanced p, all_balanced ps)

split_counts :
    (p : Pair)
    → IsSplit p
    → (wins_in p ≡ losses_in p) × (draws_in p ≡ 2 * both_drawn p) × (scored 2 p ≡ 1)
split_counts (pair won won) s = absurd s
split_counts (pair won lost) s = omega arith
split_counts (pair won drawn) s = absurd s
split_counts (pair lost won) s = omega arith
split_counts (pair lost lost) s = absurd s
split_counts (pair lost drawn) s = absurd s
split_counts (pair drawn won) s = absurd s
split_counts (pair drawn lost) s = absurd s
split_counts (pair drawn drawn) s = omega arith

pub AllSplit-counts :
    (qs : List Pair)
    → AllSplit qs
    → (sum_of wins_in qs ≡ sum_of losses_in qs)
      × (sum_of draws_in qs ≡ 2 * sum_of both_drawn qs)
      × (sum_of (scored 2) qs ≡ length qs)
AllSplit-counts [] s = omega arith
AllSplit-counts (p ∷ qs) s = omega (arith, split_counts p s.0, AllSplit-counts qs s.1)

module _ (a : GameAggregate) (ps : List Pair) (r : Reports ps a) where
  consistent : is_consistent a ≡ true
  unfolding is_consistent
  consistent = rw (r.games, r.wins, r.losses, r.ties) (ground (arith, all_balanced ps))

  even : eq_ℤ (rem a.games 2) (pos 0) ≡ true
  even = rw (r.games) (ground arith)

module _ (a : GameAggregate) (b : Buckets ℤ) (ps : List Pair) (r : Reports ps a) (k : Bucketed ps b)
    (i32 : 2 * length ps ≤ 2147483647) where
  bucket_in_range : bucket_out_of_range a b ≡ false
  unfolding bucket_out_of_range
  bucket_in_range =
      rw (r.games, k.zero_points, k.one_point, k.two_points, k.three_points, k.four_points)
        (ground (arith, all_balanced ps))

  pairs_agree : pairs_disagree a b ≡ false
  unfolding pairs_disagree
  pairs_agree =
      rw (r.games, k.zero_points, k.one_point, k.two_points, k.three_points, k.four_points)
        (ground (arith, all_balanced ps))

  points_agree : points_disagree a b ≡ false
  unfolding points_disagree
  points_agree =
      rw (r.wins, r.ties, k.zero_points, k.one_point, k.two_points, k.three_points, k.four_points)
        (ground (arith, all_balanced ps))

  draws_agree : draws_disagree a b ≡ false
  unfolding draws_disagree
  draws_agree =
      rw (r.ties, k.one_point, k.two_points, k.three_points) (ground (arith, all_balanced ps))

  counts_accepted : check_pentanomial a b ≡ ok tt
  unfolding check_pentanomial
  counts_accepted = rw (bucket_in_range, pairs_agree, points_agree, draws_agree)

module _ (a d : GameAggregate) (b : Buckets ℤ) (ps qs : List Pair) (whole : Reports (ps ++ qs) a)
    (k : Bucketed (ps ++ qs) b) (part : Reports ps d) (split : AllSplit qs) where
  within_the_whole : exceeds_the_whole a d ≡ false
  unfolding exceeds_the_whole
  within_the_whole =
      rw (whole.wins, whole.losses, whole.ties, part.wins, part.losses, part.ties)
        (ground (
          arith,
          sum_of-append wins_in ps qs,
          sum_of-append losses_in ps qs,
          sum_of-append draws_in ps qs,
        ))

  outside_split : outside_not_split a d ≡ false
  unfolding outside_not_split
  outside_split =
      rw (whole.wins, whole.losses, whole.ties, part.wins, part.losses, part.ties)
        (ground (
          arith,
          sum_of-append wins_in ps qs,
          sum_of-append losses_in ps qs,
          sum_of-append draws_in ps qs,
          AllSplit-counts qs split,
        ))

  few_unsplit : too_many_unsplit b d ≡ false
  unfolding too_many_unsplit
  few_unsplit =
      rw (k.zero_points, k.one_point, k.three_points, k.four_points, part.games)
        (ground (
          arith,
          all_balanced ps,
          all_balanced qs,
          AllSplit-counts qs split,
          sum_of-append (scored 0) ps qs,
          sum_of-append (scored 1) ps qs,
          sum_of-append (scored 3) ps qs,
          sum_of-append (scored 4) ps qs,
        ))

  not_more : ltb_ℤ a.games d.games ≡ false
  not_more = rw (whole.games, part.games) (ground (arith, length-append ps qs))

  against_accepted : check_divergent_against_the_whole a b d ≡ ok tt
  unfolding check_divergent_against_the_whole
  against_accepted = rw (within_the_whole, outside_split, few_unsplit)

  divergent_accepted : check_game_aggregate d ≡ ok tt → check_divergent a b d ≡ ok tt
  divergent_accepted figures =
      check_divergent_lem a d b (consistent d ps part) figures (even d ps part) not_more
        against_accepted

-- No batch of pairs is refused for its counts: of any pairs `ps` that diverged and pairs `qs` that were
-- played alike, at least one pair and at most as many games as an `i32` counts, the response that reports
-- the tally and the pentanomial of them all and the tally of `ps` as the divergent games is accepted and
-- recorded as it is, where the score figures of the two tallies and the positions pass their own checks.
pub honest_accepted :
    (a d : GameAggregate) (b : Buckets ℤ) (ps qs : List Pair) (positions : List CapturedPosition)
    (kept : List PositionAnalysis)
    → 0 < length (ps ++ qs)
    → 2 * length (ps ++ qs) ≤ 2147483647
    → Reports (ps ++ qs) a
    → Bucketed (ps ++ qs) b
    → Reports ps d
    → AllSplit qs
    → check_game_aggregate a ≡ ok tt
    → check_game_aggregate d ≡ ok tt
    → validate_positions positions a.games ≡ ok kept
    → process_response (record {
      all_games = a;
      pentanomial = some b;
      divergent_games = some d;
      positions = positions;
    })
      ≡ ok (record {
        all_games = a;
        pentanomial = some b;
        divergent_games = some d;
        positions = kept;
      })
honest_accepted a d b ps qs positions kept played i32 whole k part split figures part_figures
      stored =
    let some_games : eq_ℤ a.games (pos 0) ≡ false = rw (whole.games) (ground (arith, played)) in
    process_response_lem a d b positions kept (consistent a (ps ++ qs) whole) figures some_games
      (even a (ps ++ qs) whole) (counts_accepted a b (ps ++ qs) whole k i32)
      (divergent_accepted a d b ps qs whole k part split part_figures) stored
