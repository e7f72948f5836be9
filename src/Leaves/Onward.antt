-- ===== src/Leaves/Onward.antt =====
-- A generation does not stall: leave_gen.rs and jobs/registry.rs, `generate_leave_gen`.
use birdtest.Prelude.{
  ℕ, ◌+◌, ◌<◌, ◌≡◌, refl, sym, ◌∙◌, subst, ◌⊎◌, inl, inr, Bool, Option-cases, List-cases, true,
  false, not, ◌&&◌, List, [], ◌∷◌, none, some, ltb, ◌==◌, take, arith,
}
use birdtest.Claims.Rows.{exists, count, find}
use birdtest.Claims.Slots.{exists-count}
use birdtest.Leaves.Rows.{
  RackProgress, Staged, LeaveTask, Generation, GenerationConfig, Postgres, below_target,
  any_rack_below_target, claims_in_flight, anything_staged, is_open_task, transition_in_progress,
  universe_exists,
}
use birdtest.Leaves.Events.{happen_all}
use birdtest.Leaves.Selection.{
  dispatch, start_transition, in_progress, needs_merge, no_work_yet, Selected, selected_racks,
  selected_step, Gaps, racks_where, racks_after, nothing_to_hand_out, claim_transition, holds_out,
  is_out_now, furthest_racks, furthest_below_target, sweep, continue_lap, at_boundary, select,
  answered, next_step,
}
use birdtest.Leaves.Acquire.{
  Acquired, acquired_task, needs_generation_transition, answer_of, is_reissuable,
  generate_leave_gen,
}
use birdtest.Leaves.Quiet.{Quiet}
use birdtest.Leaves.Closing.{NoEmptyRack, racks_where-none, take-none}
use birdtest.Leaves.Decisions.{select-Decided}
use birdtest.Leaves.Picks.{Permutes}

-- Nothing else commits while a claim looks.
abbrev pub alone : Gaps
alone i = []

-- Racks to play, or the transition to run.
abbrev moves : Selected → Bool
moves (selected_racks (r ∷ rs)) = true
moves (selected_step start_transition) = true
moves _ = false

abbrev pub is_over : Generation → Bool
is_over g = elim g.transition [ none ↦ false | some t ↦ t.completed ]

not_out :
    (staging : List Staged) (rack : ℕ) (ts : List LeaveTask)
    → count is_open_task ts ≡ 0
    → staging ≡ []
    → exists (λ t. holds_out staging t && exists (λ r. r == rack) t.forced_racks) ts ≡ false
not_out staging rack [] o s = refl
not_out staging rack (t ∷ ts) o s = ground (arith, o, s, not_out staging rack ts)

count-same :
    (p q : RackProgress → Bool) (xs : List RackProgress)
    → ((x : RackProgress) → p x ≡ q x)
    → count p xs ≡ count q xs
count-same p q [] h = refl
count-same p q (x ∷ xs) h = ground (arith, h x, count-same p q xs)

module _ (pg : Postgres) (config : GenerationConfig) (some_racks : 0 < config.racks_per_task)
    (permutes : Permutes pg) where
  module _ (g : Generation) (q : Quiet g) where
    reads : (i : ℕ) → nothing_to_hand_out pg config alone i g ≡ (g, none)
    unfolding nothing_to_hand_out happen_all
    reads i = ground (arith, q.in_flight, q.staged)

    furthest_racks-none : furthest_racks pg config g ≡ [] → any_rack_below_target config g ≡ false
    unfolding furthest_racks
    furthest_racks-none empty =
        let short : RackProgress → Bool = λ p. below_target config p && not (is_out_now g p.rack) in
        let order = pg.by_count g.racks in
        let none_short =
          racks_where-none short order
            (take-none config.racks_per_task (racks_where short order) some_racks empty) in
        let all = count-same short (below_target config) g.racks (λ x.
          ground
            (arith, not_out g.staging x.rack g.tasks q.in_flight (ground (arith, q.staged)))) in
        ground (
          arith,
          none_short,
          all,
          permutes short g.racks,
          exists-count short order,
          exists-count (below_target config) g.racks,
        )

  claim_transition-moves :
      (now : ℕ) (g : Generation)
      → g.clock ≡ now
      → transition_in_progress g ≡ false
      → is_over g ≡ false
      → moves (selected_step (claim_transition now g).1) ≡ true
  unfolding claim_transition
  claim_transition-moves now g same idle current = ground (arith, same, idle, current)

  module _ (now : ℕ) (g : Generation) (q : Quiet g) (same : g.clock ≡ now)
      (idle : transition_in_progress g ≡ false) (current : is_over g ≡ false) where
    furthest_below_target-moves : moves (furthest_below_target pg config now alone g).1 ≡ true
    unfolding furthest_below_target happen_all
    furthest_below_target-moves = ground (
      arith,
      reads g q 5,
      furthest_racks-none g q,
      claim_transition-moves now g same idle current,
    )

    sweep-moves : moves (sweep pg config now alone g).1 ≡ true
    unfolding sweep happen_all
    sweep-moves = ground (arith, claim_transition-moves now g same idle current)

  at_boundary-moves :
      (now : ℕ) (g : Generation)
      → Quiet g
      → g.clock ≡ now
      → transition_in_progress g ≡ false
      → is_over g ≡ false
      → moves (at_boundary pg config now alone g).1 ≡ true
  unfolding at_boundary happen_all
  at_boundary-moves now g q same idle current =
      let tail : Generation = record g { cursor_rack = some none } in
      let tail_quiet : Quiet tail = record { in_flight = q.in_flight; staged = q.staged } in
      ground (
        arith,
        reads g q 1,
        sweep-moves now g q same idle current,
        furthest_below_target-moves now tail tail_quiet same idle current,
      )

  last_of_lap :
      (cursor : ℕ) (g : Generation)
      → (racks_after config cursor g).0 ≡ []
      → (racks_after config cursor g).1 ≡ false
  unfolding racks_after
  last_of_lap cursor g empty =
      let found =
        take (config.racks_per_task + 1)
          (racks_where (λ p. ltb cursor p.rack && below_target config p) g.racks) in
      ground (arith, some_racks, take-none config.racks_per_task found some_racks empty)

  select-moves :
      (now : ℕ) (g : Generation)
      → Quiet g
      → g.clock ≡ now
      → transition_in_progress g ≡ false
      → is_over g ≡ false
      → moves (select pg config now alone g).1 ≡ true
  unfolding select continue_lap happen_all
  select-moves now g q same idle current =
      let over : Generation = record g { cursor_rack = none } in
      let over_quiet : Quiet over = record { in_flight = q.in_flight; staged = q.staged } in
      elim (Option-cases g.cursor_rack) [
        | inl boundary ↦ ground (arith, boundary, at_boundary-moves now g q same idle current)
        | inr (place, here) ↦ elim (Option-cases place) [
          | inl tail ↦
              ground (arith, here, tail, furthest_below_target-moves now g q same idle current)
          | inr (cursor, mid) ↦
              let found = racks_after config cursor g in
              elim (List-cases found.0) [
                | inr (r, rs, some_found) ↦ ground (arith, here, mid, some_found)
                | inl empty ↦
                    let last_task : found.1 ≡ false = last_of_lap cursor g empty in
                    ground (
                      arith,
                      here,
                      mid,
                      empty,
                      last_task,
                      at_boundary-moves now over over_quiet same idle current,
                    )
              ]
        ]
      ]

-- The task that a claim made, or the transition that it started.
abbrev Onward : ℕ → Acquired → Type 0
Onward task_id a =
    ((r : ℕ) × (rs : List ℕ) × (a ≡ acquired_task task_id (r ∷ rs)))
    ⊎ (a ≡ needs_generation_transition)

moved :
    (g : Generation) (task_id : ℕ) (chosen : Generation × Selected)
    → moves chosen.1 ≡ true
    → chosen.0.previous_artifact ≡ true
    → Onward task_id (answer_of g task_id (answered chosen)).1
moved g task_id (e, selected_racks []) m previous = absurd (ground (arith, m))
moved g task_id (e, selected_racks (r ∷ rs)) m previous = inl (r, rs, ground (arith, previous))
moved g task_id (e, selected_step start_transition) m previous = inr refl
moved g task_id (e, selected_step (dispatch racks)) m previous = absurd (ground (arith, m))
moved g task_id (e, selected_step in_progress) m previous = absurd (ground (arith, m))
moved g task_id (e, selected_step needs_merge) m previous = absurd (ground (arith, m))
moved g task_id (e, selected_step no_work_yet) m previous = absurd (ground (arith, m))

-- Of a generation that is seeded, whose predecessor has its artifact, and whose transition neither runs nor is
-- over, with no claim open and nothing staged, wherever its lap is: a claim that nothing else commits within
-- reissues the task that waits, or makes a task of one rack or more, or starts the transition.
pub generate_leave_gen-goes_on :
    (pg : Postgres) (config : GenerationConfig) (locked : List ℕ) (task_id : ℕ) (g : Generation)
    → 0 < config.racks_per_task
    → Permutes pg
    → NoEmptyRack g
    → g.closed ≡ false
    → transition_in_progress g ≡ false
    → is_over g ≡ false
    → universe_exists g ≡ true
    → g.previous_artifact ≡ true
    → claims_in_flight g ≡ 0
    → anything_staged g ≡ false
    → let a = (generate_leave_gen pg config locked task_id alone g).1 in
      ((t : LeaveTask) × (find (is_reissuable locked) g.tasks ≡ some t)
        × (a ≡ acquired_task t.id t.forced_racks))
      ⊎ (((r : ℕ) × (rs : List ℕ) × (a ≡ acquired_task task_id (r ∷ rs)))
          ⊎ (a ≡ needs_generation_transition))
unfolding generate_leave_gen next_step
generate_leave_gen-goes_on pg config locked task_id g some_racks permutes positive current idle
      unfinished seeded previous in_flight staged =
    elim (Option-cases (find (is_reissuable locked) g.tasks)) [
      | inr (t, found) ↦ inl (t, found, ground (arith, current, idle, seeded, previous, found))
      | inl none_left ↦
          let chosen = select pg config g.clock alone g in
          let d = select-Decided pg config g.clock alone some_racks g positive in
          let same : generate_leave_gen pg config locked task_id alone g
              ≡ answer_of g task_id (answered chosen) =
            ground (arith, current, idle, seeded, previous, none_left) in
          inr (
            subst (λ r. Onward task_id r.1) (sym same)
              (moved g task_id chosen
                (select-moves pg config some_racks permutes g.clock g
                  (record { in_flight = in_flight; staged = staged }) refl idle unfinished)
                (d.previous ∙ previous)))
    ]
