-- ===== src/Leaves/Tests.antt =====
-- A generation of four racks, two a task, each to be drawn once, from its seeding to its close.
use birdtest.Prelude.{
  none, get_elem?, ℕ, ◌+◌, ◌≤◌, ◌≡◌, refl, Bool, true, false, ◌||◌, List, [], ◌∷◌, some, leb,
  if◌then◌else◌, ◌⊎◌, arith, ◌==◌, not, length,
}
use birdtest.Claims.Rows.{exists, count, find}
use birdtest.Leaves.Rows.{
  RackProgress, Occurrence, LeaveTask, Generation, GenerationConfig, Postgres, below_target,
  claims_in_flight, anything_staged, any_rack_below_target, universe_exists, seed_generation,
  close_generation,
}
use birdtest.Wire.Chars.{Text}
use birdtest.Leaves.Generations.{
  LeaveConfig, target_for, current_generation, closed_in_turn, current_generation-closed_in_turn,
}
use birdtest.Leaves.Spelling.{spell_as_the_universe, spell_as_the_universe-letters}
use birdtest.Leaves.Merges.{merge_staged_in_slices, unnested, is_summarised}
use birdtest.Leaves.Events.{Event, submits, gives_back, merges, happen, happen_all}
use birdtest.Leaves.Selection.{Gaps}
use birdtest.Leaves.Acquire.{
  acquired_task, no_work, needs_leave_merge, needs_generation_transition, generate_leave_gen,
  is_reissuable,
}
use birdtest.Leaves.Steps.{claims, commits, seeds, closes, Reach, here, next, new_generation}
use birdtest.Leaves.Closed.{Reach-at_target}
use birdtest.Leaves.Slices.{with_drawn, merge_staged_in_slices-with_drawn}
use birdtest.Leaves.Out.{outs}
use birdtest.Leaves.Picks.{Permutes}
use birdtest.Leaves.Hands.{NoGiveBack}
use birdtest.Leaves.Once.{Undisturbed, Reach-once}
use birdtest.Leaves.Onward.{alone, generate_leave_gen-goes_on}

abbrev config : GenerationConfig
config = record { generation = 1; target = 1; racks_per_task = 2 }

abbrev place : RackProgress → List RackProgress → List RackProgress
place x [] = x ∷ []
place x (y ∷ ys) =
    let rest = place x ys in
    if leb x.occurrence_count y.occurrence_count then x ∷ y ∷ ys else y ∷ rest

abbrev lowest_first : List RackProgress → List RackProgress
lowest_first [] = []
lowest_first (x ∷ xs) = place x (lowest_first xs)

abbrev pg : Postgres
pg = record { hashtext = λ rack. rack; by_count = lowest_first }

count-place :
    (p : RackProgress → Bool) (x : RackProgress) (xs : List RackProgress)
    → count p (place x xs) ≡ (if p x then 1 else 0) + count p xs
count-place p x [] = refl
count-place p x (y ∷ ys) = ground (arith, count-place p x ys)

pg-Permutes : Permutes pg
pg-Permutes p [] = refl
pg-Permutes p (x ∷ xs) = omega (arith, count-place p x (lowest_first xs), pg-Permutes p xs)

abbrev drawn_once : ℕ → Occurrence
drawn_once rack = record { rack = rack; drawn = 1 }

abbrev seeded : Generation
seeded = seed_generation (1 ∷ 2 ∷ 3 ∷ 4 ∷ []) (new_generation 1000 true)

abbrev claimed : ℕ → Gaps → Generation → Generation
claimed task_id gaps g = (generate_leave_gen pg config [] task_id gaps g).0

-- The first task's result commits just before the second claim reads the racks.
abbrev busy_gaps : Gaps
busy_gaps i = if i == 4 then submits 10 (drawn_once 1 ∷ drawn_once 2 ∷ []) ∷ [] else []

abbrev first_out : Generation
first_out = claimed 10 alone seeded

abbrev second_out : Generation
second_out = claimed 11 busy_gaps first_out

first_task : (generate_leave_gen pg config [] 10 alone seeded).1 ≡ acquired_task 10 (1 ∷ 2 ∷ [])
unfolding generate_leave_gen seed_generation happen_all
first_task = refl

second_task :
    (generate_leave_gen pg config [] 11 busy_gaps first_out).1 ≡ acquired_task 11 (3 ∷ 4 ∷ [])
unfolding generate_leave_gen seed_generation happen_all
second_task = refl

abbrev happened : Event → Generation → Generation
happened v g = happen pg config v g

abbrev half_merged : Generation
half_merged = happened (merges 3) second_out

abbrev all_staged : Generation
all_staged =
    happened (submits 11 (drawn_once 4 ∷ drawn_once 3 ∷ drawn_once 9 ∷ drawn_once 4 ∷ []))
      half_merged

abbrev all_merged : Generation
all_merged = happened (merges 3) (claimed 12 alone all_staged)

abbrev closing : Generation
closing = claimed 12 alone all_merged

busy_answer : (generate_leave_gen pg config [] 12 alone half_merged).1 ≡ no_work
unfolding generate_leave_gen seed_generation happen_all
busy_answer = refl

merge_answer : (generate_leave_gen pg config [] 12 alone all_staged).1 ≡ needs_leave_merge
unfolding generate_leave_gen seed_generation happen_all
merge_answer = refl

close_answer : (generate_leave_gen pg config [] 12 alone all_merged).1 ≡ needs_generation_transition
unfolding generate_leave_gen seed_generation happen_all
close_answer = refl

module _ (Allowed : List ℕ → Gaps → Type 0) (idle : Allowed [] alone)
    (busy : Allowed [] busy_gaps) where
  to_second : Reach Allowed pg config (new_generation 1000 true) second_out
  unfolding generate_leave_gen seed_generation happen_all
  to_second =
      next
        (next (next here (seeds (1 ∷ 2 ∷ 3 ∷ 4 ∷ []) refl refl))
          (claims [] 10 alone idle refl refl))
        (claims [] 11 busy_gaps busy refl refl)

  to_closing : Reach Allowed pg config (new_generation 1000 true) closing
  unfolding generate_leave_gen seed_generation happen_all
  to_closing =
      next
        (next
          (next
            (next (next to_second (commits (merges 3) refl)) (
              commits (submits 11 (drawn_once 4 ∷ drawn_once 3 ∷ drawn_once 9 ∷ drawn_once 4 ∷ []))
                refl))
            (claims [] 12 alone idle refl refl))
          (commits (merges 3) refl))
        (claims [] 12 alone idle refl refl)

  to_closed : Reach Allowed pg config (new_generation 1000 true) (close_generation closing)
  unfolding generate_leave_gen seed_generation happen_all
  to_closed = next to_closing (closes refl refl)

abbrev Anything : List ℕ → Gaps → Type 0
Anything locked gaps = Unit

Reach-at_target_example :
    (claims_in_flight (close_generation closing) ≡ 0)
    × (anything_staged (close_generation closing) ≡ false)
    × (universe_exists (close_generation closing) ≡ true)
    × (any_rack_below_target config (close_generation closing) ≡ false)
unfolding generate_leave_gen seed_generation happen_all close_generation
Reach-at_target_example =
    Reach-at_target Anything pg config 1000 true (close_generation closing) (omega arith)
      (to_closed Anything tt tt) refl

alone-NoGiveBack : NoGiveBack alone
alone-NoGiveBack i = refl

busy_gaps-NoGiveBack : NoGiveBack busy_gaps
busy_gaps-NoGiveBack i = ground arith

Reach-once_example : outs second_out 3 ≤ 1
Reach-once_example =
    Reach-once pg config 1000 true second_out pg-Permutes
      (to_second Undisturbed (refl, alone-NoGiveBack) (refl, busy_gaps-NoGiveBack)) 3

-- Rack 3 is out, but once; rack 1 is staged.
second_outs : (outs second_out 3 ≡ 1) × (outs second_out 1 ≡ 1)
unfolding generate_leave_gen seed_generation happen_all
second_outs = (refl, refl)

-- A task given back after the look for one to reissue, and before the tail's read: its racks are handed out
-- again beside it.
abbrev give_back_gaps : Gaps
give_back_gaps i = if i == 4 then gives_back 10 ∷ [] else []

given_back_twice : outs (claimed 11 give_back_gaps first_out) 1 ≡ 2
unfolding generate_leave_gen seed_generation happen_all
given_back_twice = refl

merge_staged_in_slices-with_drawn_example :
    let e = merge_staged_in_slices pg config 3 all_staged in
    (e.racks ≡ with_drawn (unnested all_staged.staging) all_staged.racks)
    × (e.staging ≡ [])
    × (e.summary ≡ (
        if anything_staged all_staged || not (is_summarised all_staged)
        then some (record {
          racks_total = length e.racks;
          racks_at_target = count (λ p. not (below_target config p)) e.racks;
          merged = true;
        })
        else all_staged.summary))
merge_staged_in_slices-with_drawn_example = merge_staged_in_slices-with_drawn pg config 3 all_staged

generate_leave_gen-goes_on_example :
    let a = (generate_leave_gen pg config [] 10 alone seeded).1 in
    ((t : LeaveTask) × (find (is_reissuable []) seeded.tasks ≡ some t)
      × (a ≡ acquired_task t.id t.forced_racks))
    ⊎ (((r : ℕ) × (rs : List ℕ) × (a ≡ acquired_task 10 (r ∷ rs)))
        ⊎ (a ≡ needs_generation_transition))
unfolding seed_generation
generate_leave_gen-goes_on_example =
    generate_leave_gen-goes_on pg config [] 10 seeded (omega arith) pg-Permutes refl refl refl refl
      refl refl refl refl

abbrev two_generations : LeaveConfig
two_generations = record { target_rack_counts = 100 ∷ 200 ∷ []; racks_per_task = 2 }

current_generation-closed_in_turn_example :
    (current_generation two_generations (closed_in_turn two_generations 1) ≡ some 2)
    × (get_elem? two_generations.target_rack_counts 1 ≡ some (target_for two_generations 2))
    × (exists (λ a. a == 1) (closed_in_turn two_generations 1) ≡ true)
    × (current_generation two_generations (closed_in_turn two_generations 2) ≡ none)
current_generation-closed_in_turn_example =
    current_generation-closed_in_turn two_generations 1 (omega arith)

-- MAGPIE's spelling of a rack, and the universe's.
abbrev reported_rack : Text
reported_rack = b'A' ∷ b'E' ∷ b'I' ∷ b'N' ∷ b'S' ∷ b'T' ∷ b'?' ∷ []

abbrev universe_rack : Text
universe_rack = b'?' ∷ b'A' ∷ b'E' ∷ b'I' ∷ b'N' ∷ b'S' ∷ b'T' ∷ []

reported : spell_as_the_universe reported_rack ≡ universe_rack
unfolding spell_as_the_universe
reported = refl

spell_as_the_universe-letters_example :
    (spell_as_the_universe reported_rack ≡ spell_as_the_universe universe_rack)
    × (spell_as_the_universe (spell_as_the_universe reported_rack)
        ≡ spell_as_the_universe reported_rack)
spell_as_the_universe-letters_example =
    spell_as_the_universe-letters reported_rack universe_rack (omega arith) refl (λ c. ground arith)
