-- ===== src/Leaves/Acquire.antt =====
-- backend/src/jobs/registry.rs: `generate_leave_gen`, and the transaction around it in scheduler.rs: a claim
-- that fails is rolled back, with what it wrote and not what has committed meanwhile.
use birdtest.Prelude.{
  ℕ, Bool, true, false, not, ◌&&◌, List, Option, none, some, ◌==◌, if◌then◌else◌,
}
use birdtest.Claims.Rows.{task_available, task_claimed, exists, update, append, find}
use birdtest.Leaves.Rows.{
  LeaveTask, Generation, GenerationConfig, Postgres, transition_in_progress, universe_exists,
}
use birdtest.Leaves.Selection.{
  LeaveGenStep, dispatch, start_transition, in_progress, needs_merge, no_work_yet, Gaps, next_step,
}

-- `JobFinished` stands for a claim that is for a later generation too; `failed` is the error of `next_step`.
pub data Acquired : Type 0 where
  acquired_task : ℕ → List ℕ → Acquired
  no_work needs_universe needs_zero_generation needs_leave_merge needs_generation_transition
        job_finished failed :
      Acquired

-- `next_available`, for a leave job: the rows that are locked are skipped.
abbrev pub is_reissuable : List ℕ → LeaveTask → Bool
is_reissuable locked t =
    elim t.state [ task_available ↦ true | _ ↦ false ] && not (exists (λ i. i == t.id) locked)

-- `issue_claim` of a task that waits, on its row.
abbrev pub reissue : ℕ → Generation → Generation
reissue task_id g = record g {
  tasks = update (λ t. t.id == task_id) (λ t. record t { state = task_claimed }) g.tasks;
}

-- `insert_on_demand_task` and `leave_gen::insert_request`; the task is claimed at once by `issue_claim`.
abbrev pub insert_leave_task : ℕ → List ℕ → Generation → Generation
insert_leave_task task_id racks g = record g {
  tasks = append g.tasks (record { id = task_id; forced_racks = racks; state = task_claimed });
}

abbrev pub answer_of : Generation → ℕ → Generation × Option LeaveGenStep → Generation × Acquired
answer_of g task_id step = elim step.1 [
  | none ↦ (record step.0 { cursor_rack = g.cursor_rack }, failed)
  | some (dispatch racks) ↦ (insert_leave_task task_id racks step.0, acquired_task task_id racks)
  | some start_transition ↦ (step.0, needs_generation_transition)
  | some in_progress ↦ (step.0, no_work)
  | some needs_merge ↦ (step.0, needs_leave_merge)
  | some no_work_yet ↦ (step.0, no_work)
]

-- `task_id` is the new task's.
unfoldable pub generate_leave_gen :
    Postgres → GenerationConfig → List ℕ → ℕ → Gaps → Generation → Generation × Acquired
unfolding next_step
generate_leave_gen pg config locked task_id gaps g =
    if g.closed
    then (g, job_finished)
    else if transition_in_progress g
    then (g, no_work)
    else if not (universe_exists g)
    then (g, needs_universe)
    else if (config.generation == 1) && not g.previous_artifact
    then (g, needs_zero_generation)
    else elim (find (is_reissuable locked) g.tasks) [
      | some t ↦ (reissue t.id g, acquired_task t.id t.forced_racks)
      | none ↦ answer_of g task_id (next_step pg config g.clock gaps g)
    ]
