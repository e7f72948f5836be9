-- ===== src/Outcomes.antt =====
-- backend/src/stats/outcomes.rs: the counts that a job's results reduce to. The means and variances
-- of `Sample`, which are doubles, are left out.
use birdtest.Prelude.{ℕ, ◌+◌, ◌*◌, ◌%◌, ◌^◌}

pub record Tally : Type 0 where
  pub wins : ℕ
  pub losses : ℕ
  pub draws : ℕ

-- `[T; 5]`, by player 1's half-points over the pair.
pub record Buckets {ℓ} (A : Type ℓ) : Type ℓ where
  pub b0 : A
  pub b1 : A
  pub b2 : A
  pub b3 : A
  pub b4 : A

pub record Pentanomial : Type 0 where
  pub counts : Buckets ℕ

-- Sums of `u64`.
unfoldable pub total : Tally → ℕ
total t = (t.wins + t.losses + t.draws) % 2 ^ 64

unfoldable pub pairs : Pentanomial → ℕ
pairs p = (p.counts.b0 + p.counts.b1 + p.counts.b2 + p.counts.b3 + p.counts.b4) % 2 ^ 64

unfoldable pub half_points : Pentanomial → ℕ
half_points p =
    (0 * p.counts.b0 + 1 * p.counts.b1 + 2 * p.counts.b2 + 3 * p.counts.b3 + 4 * p.counts.b4)
    % 2 ^ 64
