-- ===== src/Pairs/Sound.antt =====
-- The counts that jobs/game_pair.rs accepts are those of some batch of pairs.
use birdtest.Prelude.{
  ℕ, ◌+◌, ◌-◌, ◌*◌, ◌/◌, ◌%◌, ◌^◌, ◌≤◌, ◌≡◌, refl, sym, ◌∙◌, ℤ, pos, negsuc, pos_part, ◌≤ℤ◌, ◌+ℤ◌,
  ◌-ℤ◌, as_u64, rem, quot, arith, ok, true, +ℤ_parts, -ℤ_parts, false, eq_of_parts, neg_part-zero,
  subst, ap,
}
use birdtest.Wire.{GameAggregate, is_consistent}
use birdtest.Outcomes.{Buckets, pairs, half_points}
use birdtest.Pairs.{
  check_pentanomial, counts_of, bucket_out_of_range, pairs_disagree, points_disagree,
  draws_disagree,
}

-- What the checks leave open, as natural numbers.
pub record Figures (games w l t b0 b1 b2 b3 b4 : ℕ) : Type 0 where
  pub halves : 2 * w + t ≡ b1 + 2 * b2 + 3 * b3 + 4 * b4
  pub played : w + l + t ≡ games
  pub paired : games ≡ 2 * (b0 + b1 + b2 + b3 + b4)
  pub needed : b1 + b3 ≤ t
  pub even : (t - (b1 + b3)) % 2 ≡ 0
  pub enough : (t - (b1 + b3)) / 2 ≤ b2

pub pos-pos_part : (z : ℤ) → pos 0 ≤ℤ z → z ≡ pos (pos_part z)
pos-pos_part (pos n) h = refl
pos-pos_part (negsuc n) h = absurd (omega (arith, h))

pub as_u64-pos_part : (z : ℤ) → pos 0 ≤ℤ z → as_u64 z ≡ pos_part z % 2 ^ 64
as_u64-pos_part (pos n) h = refl
as_u64-pos_part (negsuc n) h = absurd (omega (arith, h))

pub consistent_parts :
    (a : GameAggregate)
    → is_consistent a ≡ true
    → (pos 0 ≤ℤ a.games)
      × (pos 0 ≤ℤ a.wins)
      × (pos 0 ≤ℤ a.losses)
      × (pos 0 ≤ℤ a.ties)
      × (pos_part a.wins + pos_part a.losses + pos_part a.ties ≡ pos_part a.games)
unfolding is_consistent
consistent_parts a h =
    ground (arith, +ℤ_parts (a.wins +ℤ a.losses) a.ties, +ℤ_parts a.wins a.losses)

-- Each refusal that was not made.
pub agreed :
    (a : GameAggregate) (b : Buckets ℤ)
    → check_pentanomial a b ≡ ok tt
    → (bucket_out_of_range a b ≡ false)
      × (pairs_disagree a b ≡ false)
      × (points_disagree a b ≡ false)
      × (draws_disagree a b ≡ false)
unfolding check_pentanomial
agreed a b h = ground arith

pub bucket_parts :
    (a : GameAggregate) (b : Buckets ℤ)
    → bucket_out_of_range a b ≡ false
    → (pos 0 ≤ℤ b.b0)
      × (pos 0 ≤ℤ b.b1)
      × (pos 0 ≤ℤ b.b2)
      × (pos 0 ≤ℤ b.b3)
      × (pos 0 ≤ℤ b.b4)
      × (b.b0 ≤ℤ a.games)
      × (b.b1 ≤ℤ a.games)
      × (b.b2 ≤ℤ a.games)
      × (b.b3 ≤ℤ a.games)
      × (b.b4 ≤ℤ a.games)
unfolding bucket_out_of_range
bucket_parts a b h = ground arith

pairs_parts :
    (a : GameAggregate) (b : Buckets ℤ)
    → pairs_disagree a b ≡ false
    → pairs (counts_of b) * 2 % 2 ^ 64 ≡ as_u64 a.games
unfolding pairs_disagree
pairs_parts a b h = ground arith

points_parts :
    (a : GameAggregate) (b : Buckets ℤ)
    → points_disagree a b ≡ false
    → half_points (counts_of b) ≡ (2 * as_u64 a.wins + as_u64 a.ties) % 2 ^ 64
unfolding points_disagree
points_parts a b h = ground arith

draws_parts :
    (a : GameAggregate) (b : Buckets ℤ)
    → draws_disagree a b ≡ false
    → (pos 0 ≤ℤ a.ties -ℤ b.b1 -ℤ b.b3)
      × (rem (a.ties -ℤ b.b1 -ℤ b.b3) 2 ≡ pos 0)
      × (quot (a.ties -ℤ b.b1 -ℤ b.b3) 2 ≤ℤ b.b2)
unfolding draws_disagree
draws_parts a b h = ground (arith, eq_of_parts (rem (a.ties -ℤ b.b1 -ℤ b.b3) 2) (pos 0))

rem-pos_part : (z : ℤ) → pos 0 ≤ℤ z → rem z 2 ≡ pos (pos_part z % 2)
rem-pos_part (pos n) h = refl
rem-pos_part (negsuc n) h = absurd (omega (arith, h))

quot-pos_part : (z : ℤ) → pos 0 ≤ℤ z → quot z 2 ≡ pos (pos_part z / 2)
quot-pos_part (pos n) h = refl
quot-pos_part (negsuc n) h = absurd (omega (arith, h))

-- The integer that is left of the draws is a natural number, even and at most twice bucket 2.
draw_figures :
    (t b1 b2 b3 : ℤ)
    → pos 0 ≤ℤ t
    → pos 0 ≤ℤ b1
    → pos 0 ≤ℤ b2
    → pos 0 ≤ℤ b3
    → pos 0 ≤ℤ t -ℤ b1 -ℤ b3
    → rem (t -ℤ b1 -ℤ b3) 2 ≡ pos 0
    → quot (t -ℤ b1 -ℤ b3) 2 ≤ℤ b2
    → (pos_part b1 + pos_part b3 ≤ pos_part t)
      × ((pos_part t - (pos_part b1 + pos_part b3)) % 2 ≡ 0)
      × ((pos_part t - (pos_part b1 + pos_part b3)) / 2 ≤ pos_part b2)
draw_figures t b1 b2 b3 ht h1 h2 h3 left even enough =
    let rest = t -ℤ b1 -ℤ b3 in
    let r = ap pos_part (sym (rem-pos_part rest left) ∙ even) in
    let q : pos_part rest / 2 ≤ pos_part b2 =
      omega (arith, neg_part-zero, subst (λ z. z ≤ℤ b2) (quot-pos_part rest left) enough, h2) in
    omega (arith, neg_part-zero, -ℤ_parts (t -ℤ b1) b3, -ℤ_parts t b1, left, ht, h1, h3, r, q)

module _ (a : GameAggregate) (b : Buckets ℤ) where
  buckets_as_u64 :
      is_consistent a ≡ true
      → a.games ≤ℤ pos 2147483647
      → bucket_out_of_range a b ≡ false
      → (as_u64 b.b0 ≡ pos_part b.b0)
        × (as_u64 b.b1 ≡ pos_part b.b1)
        × (as_u64 b.b2 ≡ pos_part b.b2)
        × (as_u64 b.b3 ≡ pos_part b.b3)
        × (as_u64 b.b4 ≡ pos_part b.b4)
  buckets_as_u64 c i32 h =
      let g = consistent_parts a c in
      let k = bucket_parts a b h in
      (
        small b.b0 k.0 (omega (arith, neg_part-zero, k.5, i32)),
        small b.b1 k.1 (omega (arith, neg_part-zero, k.6, i32)),
        small b.b2 k.2 (omega (arith, neg_part-zero, k.7, i32)),
        small b.b3 k.3 (omega (arith, neg_part-zero, k.8, i32)),
        small b.b4 k.4 (omega (arith, neg_part-zero, k.9, i32)),
      )
    where
      small : (z : ℤ) → pos 0 ≤ℤ z → z ≤ℤ pos 2147483647 → as_u64 z ≡ pos_part z
      small z h le = as_u64-pos_part z h ∙ omega (arith, neg_part-zero, h, le)

  tally_as_u64 :
      is_consistent a ≡ true
      → a.games ≤ℤ pos 2147483647
      → (as_u64 a.games ≡ pos_part a.games)
        × (as_u64 a.wins ≡ pos_part a.wins)
        × (as_u64 a.ties ≡ pos_part a.ties)
  tally_as_u64 c i32 =
      let g = consistent_parts a c in
      (
        as_u64-pos_part a.games g.0 ∙ omega (arith, neg_part-zero, g, i32),
        as_u64-pos_part a.wins g.1 ∙ omega (arith, neg_part-zero, g, i32),
        as_u64-pos_part a.ties g.3 ∙ omega (arith, neg_part-zero, g, i32),
      )

  -- Accepted counts, as natural numbers.
  pub accepted-Figures :
      is_consistent a ≡ true
      → a.games ≤ℤ pos 2147483647
      → check_pentanomial a b ≡ ok tt
      → Figures
          (pos_part a.games)
          (pos_part a.wins)
          (pos_part a.losses)
          (pos_part a.ties)
          (pos_part b.b0)
          (pos_part b.b1)
          (pos_part b.b2)
          (pos_part b.b3)
          (pos_part b.b4)
  unfolding pairs half_points
  accepted-Figures c i32 h =
      let g = consistent_parts a c in
      let k = agreed a b h in
      let n = bucket_parts a b k.0 in
      let u = buckets_as_u64 c i32 k.0 in
      let v = tally_as_u64 c i32 in
      let d = draws_parts a b k.3 in
      let draws = draw_figures a.ties b.b1 b.b2 b.b3 g.3 n.1 n.2 n.3 d.0 d.1 d.2 in
      record {
        halves = omega (arith, neg_part-zero, g, i32, n, points_parts a b k.2, u, v);
        played = g.4;
        paired = omega (arith, neg_part-zero, g, i32, n, pairs_parts a b k.1, u, v);
        needed = draws.0;
        even = draws.1;
        enough = draws.2;
      }
