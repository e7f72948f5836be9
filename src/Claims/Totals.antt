-- ===== src/Claims/Totals.antt =====
-- What a job's row says of its tasks and of its time limits, through every statement.
use birdtest.Prelude.{
  ℕ, ◌+◌, ◌<◌, ◌≡◌, refl, sym, ◌∙◌, Bool, Bool-cases, Option-cases, true, not, ◌&&◌, List, inl, inr,
  ltb, ◌==◌, if◌then◌else◌, arith, ℤ,
}
use birdtest.Claims.Rows.{ClaimState, Task, Job, Database, update, exists, count, find, is_active}
use birdtest.Claims.Writes.{
  release_claim, is_open_id, release_slots, reclaim_expired_for, is_lapsed, expired_of, take_slot,
  count_issued, new_task, insert_on_demand_task,
}
use birdtest.Claims.Requests.{
  record_time_limit, is_uncounted, count_limits, set_aside, one_if, is_in_run,
  time_limit_streak_max,
}
use birdtest.Claims.Slots.{All, count-append, count-update_same, All-update, All-map}

abbrev pub is_done_in : ℕ → Task → Bool
is_done_in job_id t = t.job_id == job_id && ltb 0 t.accepted_count

-- A job's row counts its completed tasks; it has a share of the fleet exactly when it is active; and an
-- active job's run of time limits is short.
pub record IsTrue (tasks : List Task) (j : Job) : Type 0 where
  pub total : j.tasks_completed ≡ count (is_done_in j.id) tasks
  pub share : (j.allocation == 0) ≡ not (is_active j.status)
  pub run : is_active j.status ≡ true → j.time_limit_streak < time_limit_streak_max

module _ (tasks : List Task) (w : Task → Bool) (f : Task → Task)
    (keeps : (t : Task)
      → ((f t).job_id ≡ t.job_id) × ((f t).accepted_count ≡ t.accepted_count)) where
  pub unfinished-AllTrue :
      (jobs : List Job) → All (IsTrue tasks) jobs → All (IsTrue (update w f tasks)) jobs
  unfinished-AllTrue jobs h =
      All-map (IsTrue tasks) (IsTrue (update w f tasks))
        (λ j s. record {
          total =
              s.total
              ∙ sym (count-update_same (is_done_in j.id) w f (λ t. ground (arith, keeps t)) tasks);
          share = s.share;
          run = s.run;
        })
        jobs h

limited-IsTrue :
    (tasks : List Task) (total in_run : ℕ) (j : Job)
    → IsTrue tasks j
    → IsTrue tasks (set_aside (count_limits total in_run j))
limited-IsTrue tasks total in_run j s = record {
  total = ground (arith, s.total);
  share = ground (arith, s.share);
  run = ground (arith, s.share, s.run);
}

limited_if-IsTrue :
    (tasks : List Task) (total in_run job_id : ℕ) (j : Job)
    → IsTrue tasks j
    → IsTrue tasks (if j.id == job_id then set_aside (count_limits total in_run j) else j)
limited_if-IsTrue tasks total in_run job_id j s = elim (Bool-cases (j.id == job_id)) [
  | inl this ↦ rw this (limited-IsTrue tasks total in_run j s)
  | inr other ↦ rw other s
]

pub record_time_limit-AllTrue :
    (db : Database) (job_id : ℕ) (is_declined : Bool)
    → All (IsTrue db.tasks) db.jobs
    → All
        (IsTrue (record_time_limit db job_id is_declined).tasks)
        (record_time_limit db job_id is_declined).jobs
unfolding record_time_limit
record_time_limit-AllTrue db job_id is_declined h =
    elim (Option-cases (find (λ j. j.id == job_id) db.jobs)) [
      | inl absent ↦ rw (absent, record_time_limit) h
      | inr (job, found) ↦
          elim (Bool-cases (not is_declined && count (is_uncounted job_id) db.claims == 0)) [
            | inl nothing ↦ rw (found, record_time_limit, nothing) h
            | inr something ↦
                rw (found, record_time_limit, something)
                  (All-update (IsTrue db.tasks) (IsTrue db.tasks) (λ j. j.id == job_id)
                    (λ j. set_aside (
                      count_limits (one_if is_declined + count (is_uncounted job_id) db.claims)
                        (one_if is_declined
                          + count
                              (λ c.
                                is_uncounted job_id c && is_in_run job.time_limit_streak_since c)
                              db.claims)
                        j))
                    (λ j s. limited_if-IsTrue db.tasks _ _ job_id j s) db.jobs h)
          ]
    ]

pub release_claim-AllTrue :
    (db : Database) (claim_id : ℕ) (terminal_state : ClaimState)
    → All (IsTrue db.tasks) db.jobs
    → All
        (IsTrue (release_claim db claim_id terminal_state).0.tasks)
        (release_claim db claim_id terminal_state).0.jobs
unfolding release_claim
release_claim-AllTrue db claim_id terminal_state h =
    elim (Bool-cases (exists (is_open_id claim_id) db.claims)) [
      | inr closed ↦ rw closed h
      | inl opened ↦
          rw opened (unfinished-AllTrue db.tasks _ (release_slots 1) (λ t. (refl, refl)) db.jobs h)
    ]

pub reclaim_expired_for-AllTrue :
    (db : Database) (job_ids : List ℕ) (now timeout : ℕ) (locked : List ℕ)
    → All (IsTrue db.tasks) db.jobs
    → All
        (IsTrue (reclaim_expired_for db job_ids now timeout locked).tasks)
        (reclaim_expired_for db job_ids now timeout locked).jobs
unfolding reclaim_expired_for
reclaim_expired_for-AllTrue db job_ids now timeout locked h =
    unfinished-AllTrue db.tasks _
      (λ t.
        release_slots (expired_of (is_lapsed db.tasks job_ids now timeout locked) db.claims t) t)
      (λ t. (refl, refl)) db.jobs h

pub insert_on_demand_task-AllTrue :
    (db : Database) (job_id id : ℕ) (seed : ℤ)
    → All (IsTrue db.tasks) db.jobs
    → All
        (IsTrue (insert_on_demand_task db job_id seed id).tasks)
        (insert_on_demand_task db job_id seed id).jobs
unfolding insert_on_demand_task
insert_on_demand_task-AllTrue db job_id id seed h =
    All-map (IsTrue db.tasks) _
      (λ j s. record {
        total =
            ground
              (arith, s.total, count-append (is_done_in j.id) db.tasks (new_task id job_id seed));
        share = s.share;
        run = s.run;
      })
      db.jobs h

pub issued-AllTrue :
    (tasks : List Task) (jobs : List Job) (job_id task_id : ℕ) (task_created : Bool)
    → All (IsTrue tasks) jobs
    → All
        (IsTrue (update (λ t. t.id == task_id) take_slot tasks))
        (update (λ j. j.id == job_id && is_active j.status) (count_issued task_created) jobs)
issued-AllTrue tasks jobs job_id task_id task_created h =
    All-update (IsTrue (update (λ t. t.id == task_id) take_slot tasks)) _
      (λ j. j.id == job_id && is_active j.status) (count_issued task_created)
      (λ j s. record {
        total = ground (arith, s.total);
        share = ground (arith, s.share);
        run = ground (arith, s.run);
      })
      jobs (unfinished-AllTrue tasks (λ t. t.id == task_id) take_slot (λ t. (refl, refl)) jobs h)
