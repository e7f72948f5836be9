-- ===== src/OpeningRacks/Cover.antt =====
-- An opening-rack job with one analysis per rack dispatches its rack space: opening_rack.rs, `next_request`,
-- with `rack_at` of racks.rs.
use birdtest.Prelude.{
  ℕ, ◌+◌, ◌*◌, ◌%◌, ◌≤◌, ◌<◌, ◌≡◌, inl, inr, sym, ◌∙◌, List, none, some, length, get_elem?, arith,
}
use birdtest.Racks.{Rack, Tile, new_index, total, rack_at, u64_max, multiplier}
use birdtest.Racks.Space.{racks}
use birdtest.Racks.Scatter.{rack_at-IsDraw, rack_at_unique}
use birdtest.Racks.Draws.{IsDraw, Distinct}
use birdtest.OpeningRacks.{OpeningRackConfig, generate_opening_rack}
use birdtest.OpeningRacks.Tiling.{dispatched, make_tasks, covered}

module _ (tiles : List Tile) (size : ℕ) where
  drawn_below :
      (i : ℕ)
      → i < total (new_index tiles size)
      → (r : Rack) × (rack_at (new_index tiles size) i ≡ some r)
  drawn_below i h = elim (rack_at-IsDraw tiles size i) [
    | inl (out, e) ↦ absurd (omega (arith, h, out))
    | inr (below, (r, found, draw)) ↦ (r, found)
  ]

  none_past : (i : ℕ) → total (new_index tiles size) ≤ i → rack_at (new_index tiles size) i ≡ none
  unfolding rack_at
  none_past i h = ground (arith, h)

-- A job of at most one analysis per rack, in batches that are not empty, over a distribution with no letter twice,
-- for which the scattering multiplier has an inverse and whose rack space, with a batch more, a `u64` counts: once
-- its claims have made tasks enough to reach the end of the rack space, every rack that can be drawn has been
-- dispatched, and at one place only, in the racks of its tasks as they are read back one after another; and there
-- is no further task to make.
pub make_tasks-dispatched :
    (tiles : List Tile) (size inverse n : ℕ) (config : OpeningRackConfig) (reissue : List Rack)
    (r : Rack)
    → Distinct tiles
    → length (racks tiles size) ≤ u64_max
    → inverse * multiplier % total (new_index tiles size) ≡ 1 % total (new_index tiles size)
    → config.total_racks ≡ total (new_index tiles size)
    → config.total_racks + config.racks_per_batch ≤ u64_max
    → 0 < config.racks_per_batch
    → config.max_results_per_rack ≤ 1
    → config.total_racks ≤ n * config.racks_per_batch
    → IsDraw tiles size r
    → let tasks = make_tasks (new_index tiles size) config reissue n in
      let all = dispatched (new_index tiles size) config reissue tasks in
      ((i : ℕ) × (get_elem? all i ≡ some r) × ((j : ℕ) → get_elem? all j ≡ some r → j ≡ i))
      × (generate_opening_rack (new_index tiles size) config reissue tasks ≡ none)
make_tasks-dispatched tiles size inverse n config reissue r distinct small unit space fits positive
      once enough draw =
    let index = new_index tiles size in
    let (all, done) =
      covered index config reissue fits (ground (arith, once)) positive
        (λ i h. drawn_below tiles size i (omega (arith, h, space)))
        (λ i h. none_past tiles size i (omega (arith, h, space))) n enough in
    let (i, inside, found, only) = rack_at_unique tiles size inverse r distinct small unit draw in
    ((i, all i ∙ found, λ j e. only j (sym (all j) ∙ e)), done)
