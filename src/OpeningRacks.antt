-- ===== src/OpeningRacks.antt =====
-- backend/src/jobs/opening_rack.rs: the requests that cover the rack space, and the check of a batch of
-- results against the racks that its task dispatched. The query of `next_reissue` is an argument.
pub mod Rounds
pub mod Tiling
pub mod Cover
pub mod Batches
mod Tests
use birdtest.Prelude.{
  ℕ, zero, suc, ◌+◌, max, Bool, true, false, not, ◌&&◌, ◌||◌, List, [], ◌∷◌, ◌++◌, Option, none,
  some, AppResult, ok, err, ◌>>◌, refuse, ltb, leb, ◌==◌, if◌then◌else◌, length,
}
use birdtest.Wire.Chars.{text_eq}
use birdtest.Racks.{Rack, RackIndex, racks_in_range}

-- `OpeningRackConfig` and the settings read at the claim.
pub record OpeningRackConfig : Type 0 where
  pub racks_per_batch : ℕ
  pub total_racks : ℕ
  pub max_results_per_rack : ℕ

abbrev pub reissues : OpeningRackConfig → Bool
reissues config = ltb 1 config.max_results_per_rack

-- A row of `opening_rack_requests` beside its task's seed.
pub record RackTask : Type 0 where
  pub seed : ℕ
  pub rack_start : ℕ
  pub rack_count : ℕ
  pub racks : Option (List Rack)

-- `SELECT MAX(seed)`.
abbrev pub max_seed : List RackTask → Option ℕ
max_seed [] = none
max_seed (t ∷ ts) = elim (max_seed ts) [ none ↦ some t.seed | some s ↦ some (max t.seed s) ]

abbrev pub next_start : OpeningRackConfig → List RackTask → ℕ
next_start config tasks = elim (max_seed tasks) [ none ↦ 0 | some s ↦ s + config.racks_per_batch ]

-- The racks of the next request; `reissue` are those that `next_reissue` finds.
abbrev pub next_racks : RackIndex → OpeningRackConfig → List Rack → ℕ → List Rack
next_racks index config reissue start =
    if ltb start config.total_racks
    then racks_in_range index start config.racks_per_batch
    else if reissues config
    then reissue
    else []

unfoldable pub next_request :
    RackIndex → OpeningRackConfig → List Rack → List RackTask → Option (ℕ × List Rack)
next_request index config reissue tasks =
    let start = next_start config tasks in
    elim (next_racks index config reissue start) [ [] ↦ none | r ∷ rs ↦ some (start, r ∷ rs) ]

-- `insert_on_demand_task` and `insert_request`.
unfoldable pub insert_request : OpeningRackConfig → ℕ → List Rack → RackTask
insert_request config start racks = record {
  seed = start;
  rack_start = start;
  rack_count = length racks;
  racks = if leb config.total_racks start then some racks else none;
}

-- The racks that a task dispatched, read back from its row.
unfoldable pub task_racks : RackIndex → RackTask → List Rack
task_racks index t = elim t.racks [
  | some racks ↦ racks
  | none ↦ racks_in_range index t.rack_start t.rack_count
]

-- `generate_opening_rack`: the task that is made, where there is one.
unfoldable pub generate_opening_rack :
    RackIndex → OpeningRackConfig → List Rack → List RackTask → Option (List RackTask)
unfolding next_request insert_request
generate_opening_rack index config reissue tasks = elim (next_request index config reissue tasks) [
  | none ↦ none
  | some request ↦ some (insert_request config request.0 request.1 ∷ tasks)
]

abbrev pub contains : Rack → List Rack → Bool
contains r [] = false
contains r (s ∷ rs) = text_eq r s || contains r rs

-- `reported.iter().find(|rack| !dispatched.contains(..))`.
abbrev pub has_stray : List Rack → List Rack → Bool
has_stray dispatched [] = false
has_stray dispatched (r ∷ rs) = not (contains r dispatched) || has_stray dispatched rs

-- `reported.iter().find(|rack| !seen.insert(..))`.
abbrev pub has_twice : List Rack → List Rack → Bool
has_twice seen [] = false
has_twice seen (r ∷ rs) = contains r seen || has_twice (r ∷ seen) rs

unfoldable pub check_batch_against_task : List Rack → List Rack → AppResult (Unit {0})
check_batch_against_task expected reported =
    refuse (not (length reported == length expected))
    >> refuse (has_stray expected reported)
    >> refuse (has_twice [] reported)
