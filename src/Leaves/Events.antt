-- ===== src/Leaves/Events.antt =====
-- What commits between two statements of a claim, which holds the job's dispatch lock: submissions
-- (routes/worker.rs, `submit_result`, with `stage_fold` of leave_gen.rs), claims given back by a decline or a
-- lapse (scheduler.rs, `release_claim`), and merges. `tasks_completed` and `games_played`, which only the
-- job's page shows, are left out.
use birdtest.Prelude.{ℕ, Bool, false, ◌&&◌, List, [], ◌∷◌, none, some, ◌==◌, if◌then◌else◌}
use birdtest.Claims.Rows.{task_available, task_completed, exists, update, append}
use birdtest.Leaves.Rows.{
  Occurrence, LeaveTask, Generation, GenerationConfig, Postgres, is_open_task,
}
use birdtest.Leaves.Merges.{merge_staged_in_slices}

abbrev pub is_claim_of : ℕ → LeaveTask → Bool
is_claim_of task_id t = (t.id == task_id) && is_open_task t

unfoldable pub stage_fold : ℕ → List Occurrence → Generation → Generation
stage_fold task_id racks g = if g.closed then g else record g {
  staging = append g.staging (record { task_id = task_id; racks = racks });
  summary = elim g.summary [
    | none ↦ some (record { racks_total = 0; racks_at_target = 0; merged = false })
    | some s ↦ some s
  ];
}

-- The last open claim of a task ends with a result.
unfoldable pub submit : ℕ → List Occurrence → Generation → Generation
unfolding stage_fold
submit task_id racks g =
    if exists (is_claim_of task_id) g.tasks
    then stage_fold task_id racks (record g {
      tasks = update (is_claim_of task_id) (λ t. record t { state = task_completed }) g.tasks;
    })
    else g

-- Or without one.
unfoldable pub give_back : ℕ → Generation → Generation
give_back task_id g = record g {
  tasks = update (is_claim_of task_id) (λ t. record t { state = task_available }) g.tasks;
}

pub data Event : Type 0 where
  submits : ℕ → List Occurrence → Event
  gives_back : ℕ → Event
  merges : ℕ → Event

unfoldable pub happen : Postgres → GenerationConfig → Event → Generation → Generation
unfolding submit give_back merge_staged_in_slices
happen pg config (submits task_id racks) g = submit task_id racks g
happen pg config (gives_back task_id) g = give_back task_id g
happen pg config (merges racks_per_pass) g = merge_staged_in_slices pg config racks_per_pass g

unfoldable pub happen_all : Postgres → GenerationConfig → List Event → Generation → Generation
unfolding happen
happen_all pg config [] g = g
happen_all pg config (v ∷ vs) g = happen_all pg config vs (happen pg config v g)
