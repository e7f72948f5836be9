-- ===== src/OpeningRacks/Tests.antt =====
-- A job over the two-letter bag, in batches of three of its eight racks.
use birdtest.Prelude.{
  ℕ, ◌≤◌, ◌≡◌, ◌↔◌, refl, sym, Bool-cases, List, [], ◌∷◌, none, some, ok, get_elem?, inl, inr,
  arith,
}
use birdtest.Wire.Chars.{text_eq, text_eq-eq}
use birdtest.Racks.{Tile, Rack, new_index, total}
use birdtest.Racks.Counting.{total-new_index}
use birdtest.OpeningRacks.{
  OpeningRackConfig, RackTask, next_request, insert_request, task_racks, generate_opening_rack,
  check_batch_against_task,
}
use birdtest.OpeningRacks.Batches.{times, check_batch_against_task-times}
use birdtest.OpeningRacks.Tiling.{dispatched, make_tasks, task_racks-insert_request}
use birdtest.OpeningRacks.Cover.{make_tasks-dispatched}

abbrev ab_tiles : List Tile
ab_tiles = record { letter = b'A'; count = 9 } ∷ record { letter = b'B'; count = 8 } ∷ []

abbrev config : OpeningRackConfig
config = record { racks_per_batch = 3; total_racks = 8; max_results_per_rack = 1 }

abbrev reissuing : OpeningRackConfig
reissuing = record { racks_per_batch = 3; total_racks = 8; max_results_per_rack = 5 }

abbrev last_of_first_pass : RackTask
last_of_first_pass = record { seed = 6; rack_start = 6; rack_count = 2; racks = none }

abbrev aab : Rack
aab = b'A' ∷ b'A' ∷ b'A' ∷ b'B' ∷ b'B' ∷ b'B' ∷ b'B' ∷ []

eight : total (new_index ab_tiles 7) ≡ 8
eight = total-new_index ab_tiles 7

make_tasks-dispatched_example :
    let tasks = make_tasks (new_index ab_tiles 7) config [] 3 in
    let all = dispatched (new_index ab_tiles 7) config [] tasks in
    ((i : ℕ) × (get_elem? all i ≡ some aab) × ((j : ℕ) → get_elem? all j ≡ some aab → j ≡ i))
    × (generate_opening_rack (new_index ab_tiles 7) config [] tasks ≡ none)
make_tasks-dispatched_example =
    make_tasks-dispatched ab_tiles 7 7 3 config [] aab
      (((λ e. absurd (omega (arith, e))), tt), (tt, tt)) (omega arith) (rw eight refl) (sym eight)
      (omega arith) (omega arith) (omega arith) (omega arith)
      (
        3,
        b'B' ∷ b'B' ∷ b'B' ∷ b'B' ∷ [],
        omega arith,
        omega arith,
        refl,
        (4, [], omega arith, omega arith, refl, (refl, refl)),
      )

task_racks-insert_request_example :
    task_racks (new_index ab_tiles 7) (insert_request reissuing 9 (aab ∷ [])) ≡ aab ∷ []
unfolding next_request
task_racks-insert_request_example =
    task_racks-insert_request (new_index ab_tiles 7) reissuing (aab ∷ []) (omega arith)
      (last_of_first_pass ∷ []) 9 (aab ∷ []) refl

two_once : (r : Rack) → times r (aab ∷ (b'A' ∷ []) ∷ []) ≤ 1
two_once r = elim (Bool-cases (text_eq r aab)) [
  | inl here ↦ let e : r ≡ aab = text_eq-eq r aab here in rw e (omega arith)
  | inr there ↦ ground (arith, there)
]

check_batch_against_task-times_example :
    (check_batch_against_task (aab ∷ (b'A' ∷ []) ∷ []) ((b'A' ∷ []) ∷ aab ∷ []) ≡ ok tt)
    ↔ ((r : Rack) → times r ((b'A' ∷ []) ∷ aab ∷ []) ≡ times r (aab ∷ (b'A' ∷ []) ∷ []))
check_batch_against_task-times_example =
    check_batch_against_task-times (aab ∷ (b'A' ∷ []) ∷ []) ((b'A' ∷ []) ∷ aab ∷ []) two_once
