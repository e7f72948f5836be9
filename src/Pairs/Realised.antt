-- ===== src/Pairs/Realised.antt =====
-- The counts that jobs/game_pair.rs accepts are those of a batch of pairs.
use birdtest.Prelude.{
  ℕ, ◌+◌, ◌-◌, ◌*◌, ◌/◌, ◌≡◌, ◌∙◌, ap, List, ◌++◌, length, replicate, ℤ, pos, ◌≤ℤ◌, arith,
  length-append, length-replicate, ok, true,
}
use birdtest.Wire.{GameAggregate, is_consistent}
use birdtest.Outcomes.{Buckets}
use birdtest.Pairs.{check_pentanomial}
use birdtest.Pairs.Plays.{
  won, lost, drawn, Pair, pair, wins_in, losses_in, draws_in, scored, sum_of, sum_of-append,
  sum_of-replicate, Reports, Bucketed,
}
use birdtest.Pairs.Sound.{
  Figures, accepted-Figures, consistent_parts, agreed, bucket_parts, pos-pos_part,
}

-- Six kinds of pairs, so many of each; `d` of those with two half-points are two draws.
abbrev batch : ℕ → ℕ → ℕ → ℕ → ℕ → ℕ → List Pair
batch b0 b1 d s b3 b4 =
    replicate b0 (pair lost lost)
    ++ (replicate b1 (pair lost drawn)
        ++ (replicate d (pair drawn drawn)
            ++ (replicate s (pair won lost)
                ++ (replicate b3 (pair won drawn) ++ replicate b4 (pair won won)))))

sum_of-batch :
    (f : Pair → ℕ) (b0 b1 d s b3 b4 : ℕ)
    → sum_of f (batch b0 b1 d s b3 b4)
      ≡ b0 * f (pair lost lost)
        + b1 * f (pair lost drawn)
        + d * f (pair drawn drawn)
        + s * f (pair won lost)
        + b3 * f (pair won drawn)
        + b4 * f (pair won won)
sum_of-batch f b0 b1 d s b3 b4 = simp (sum_of-append, sum_of-replicate) (omega arith)

length-batch : (b0 b1 d s b3 b4 : ℕ) → length (batch b0 b1 d s b3 b4) ≡ b0 + b1 + d + s + b3 + b4
length-batch b0 b1 d s b3 b4 = simp (length-append, length-replicate) (omega arith)

module _ (w l t b0 b1 b2 b3 b4 games : ℕ) (f : Figures games w l t b0 b1 b2 b3 b4) where
  drawn_pairs : ℕ
  drawn_pairs = (t - (b1 + b3)) / 2

  explaining : List Pair
  explaining = batch b0 b1 drawn_pairs (b2 - drawn_pairs) b3 b4

  explaining_counts :
      (games ≡ 2 * length explaining)
      × (w ≡ sum_of wins_in explaining)
      × (l ≡ sum_of losses_in explaining)
      × (t ≡ sum_of draws_in explaining)
  unfolding drawn_pairs explaining
  explaining_counts = omega (
    arith,
    f,
    length-batch b0 b1 drawn_pairs (b2 - drawn_pairs) b3 b4,
    sum_of-batch wins_in b0 b1 drawn_pairs (b2 - drawn_pairs) b3 b4,
    sum_of-batch losses_in b0 b1 drawn_pairs (b2 - drawn_pairs) b3 b4,
    sum_of-batch draws_in b0 b1 drawn_pairs (b2 - drawn_pairs) b3 b4,
  )

  explaining_buckets :
      (b0 ≡ sum_of (scored 0) explaining)
      × (b1 ≡ sum_of (scored 1) explaining)
      × (b2 ≡ sum_of (scored 2) explaining)
      × (b3 ≡ sum_of (scored 3) explaining)
      × (b4 ≡ sum_of (scored 4) explaining)
  unfolding drawn_pairs explaining
  explaining_buckets = omega (
    arith,
    f,
    sum_of-batch (scored 0) b0 b1 drawn_pairs (b2 - drawn_pairs) b3 b4,
    sum_of-batch (scored 1) b0 b1 drawn_pairs (b2 - drawn_pairs) b3 b4,
    sum_of-batch (scored 2) b0 b1 drawn_pairs (b2 - drawn_pairs) b3 b4,
    sum_of-batch (scored 3) b0 b1 drawn_pairs (b2 - drawn_pairs) b3 b4,
    sum_of-batch (scored 4) b0 b1 drawn_pairs (b2 - drawn_pairs) b3 b4,
  )

-- Whatever a pairs result reports that the checks of its counts accept (the counts of an `i32`), some
-- batch of pairs has: the game counts are those of its games and the pentanomial that of its pairs.
pub accepted_realised :
    (a : GameAggregate) (b : Buckets ℤ)
    → is_consistent a ≡ true
    → a.games ≤ℤ pos 2147483647
    → check_pentanomial a b ≡ ok tt
    → (ps : List Pair) × Reports ps a × Bucketed ps b
accepted_realised a b c i32 h =
    let f = accepted-Figures a b c i32 h in
    let g = consistent_parts a c in
    let n = bucket_parts a b (agreed a b h).0 in
    let k = explaining_counts _ _ _ _ _ _ _ _ _ f in
    let m = explaining_buckets _ _ _ _ _ _ _ _ _ f in
    (
      explaining _ _ _ _ _ _ _ _ _ f,
      record {
        games = pos-pos_part a.games g.0 ∙ ap pos k.0;
        wins = pos-pos_part a.wins g.1 ∙ ap pos k.1;
        losses = pos-pos_part a.losses g.2 ∙ ap pos k.2;
        ties = pos-pos_part a.ties g.3 ∙ ap pos k.3;
      },
      record {
        zero_points = pos-pos_part b.b0 n.0 ∙ ap pos m.0;
        one_point = pos-pos_part b.b1 n.1 ∙ ap pos m.1;
        two_points = pos-pos_part b.b2 n.2 ∙ ap pos m.2;
        three_points = pos-pos_part b.b3 n.3 ∙ ap pos m.3;
        four_points = pos-pos_part b.b4 n.4 ∙ ap pos m.4;
      },
    )
