-- ===== src/Leaves/Claimed.antt =====
-- The three ways of a claim through jobs/registry.rs, `generate_leave_gen`.
use birdtest.Prelude.{
  ℕ, ◌≡◌, inl, inr, Bool-cases, Option-cases, true, false, not, ◌&&◌, List, none, some, ◌==◌, arith,
}
use birdtest.Claims.Rows.{find}
use birdtest.Leaves.Rows.{
  LeaveTask, Generation, GenerationConfig, Postgres, universe_exists, transition_in_progress,
}
use birdtest.Leaves.Selection.{Gaps, next_step}
use birdtest.Leaves.Acquire.{
  Acquired, acquired_task, answer_of, reissue, is_reissuable, generate_leave_gen,
}

-- A generation for which there is work to look for.
pub record Open (g : Generation) : Type 0 where
  pub current : g.closed ≡ false
  pub idle : transition_in_progress g ≡ false
  pub seeded : universe_exists g ≡ true

pub data Claimed (pg : Postgres) (config : GenerationConfig) (locked : List ℕ) (task_id : ℕ)
    (gaps : Gaps) (g : Generation) (r : Generation × Acquired) : Type 0 where
  stayed : r.0 ≡ g → Claimed pg config locked task_id gaps g r
  reissued :
      (t : LeaveTask)
      → Open g
      → find (is_reissuable locked) g.tasks ≡ some t
      → r ≡ (reissue t.id g, acquired_task t.id t.forced_racks)
      → Claimed pg config locked task_id gaps g r
  selected :
      Open g
      → find (is_reissuable locked) g.tasks ≡ none
      → r ≡ answer_of g task_id (next_step pg config g.clock gaps g)
      → Claimed pg config locked task_id gaps g r

pub generate_leave_gen-Claimed :
    (pg : Postgres) (config : GenerationConfig) (locked : List ℕ) (task_id : ℕ) (gaps : Gaps)
    (g : Generation)
    → Claimed pg config locked task_id gaps g (generate_leave_gen pg config locked task_id gaps g)
unfolding generate_leave_gen
generate_leave_gen-Claimed pg config locked task_id gaps g = elim (Bool-cases g.closed) [
  | inl closed ↦ stayed (ground (arith, closed))
  | inr current ↦ elim (Bool-cases (transition_in_progress g)) [
    | inl runs ↦ stayed (ground (arith, current, runs))
    | inr idle ↦ elim (Bool-cases (universe_exists g)) [
      | inr unseeded ↦ stayed (ground (arith, current, idle, unseeded))
      | inl seeded ↦ elim (Bool-cases ((config.generation == 1) && not g.previous_artifact)) [
        | inl zero ↦ stayed (ground (arith, current, idle, seeded, zero))
        | inr ready ↦ elim (Option-cases (find (is_reissuable locked) g.tasks)) [
          | inl none_left ↦
              selected (record { current = current; idle = idle; seeded = seeded }) none_left
                (ground (arith, current, idle, seeded, ready, none_left))
          | inr (t, found) ↦
              reissued t (record { current = current; idle = idle; seeded = seeded }) found
                (ground (arith, current, idle, seeded, ready, found))
        ]
      ]
    ]
  ]
]
