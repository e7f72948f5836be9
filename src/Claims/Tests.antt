-- ===== src/Claims/Tests.antt =====
-- A task that is handed out, beaten for and completed, step by step.
use birdtest.Prelude.{
  ◌≡◌, refl, sym, ap, true, false, [], ◌∷◌, none, some, ltb, if◌then◌else◌, arith, ok,
}
use birdtest.Claims.Rows.{TaskClaim, Task, Job, Database, find}
use birdtest.Claims.Writes.{
  reclaim_expired_for, take_slot, count_issued, new_task, new_claim, insert_on_demand_task,
  issue_claim, next_available, acquire_and_issue,
}
use birdtest.Claims.Requests.{
  accept_result, complete_task, complete_claim, credit_job, heartbeat, submit_result, is_open_for,
}
use birdtest.Claims.Slots.{All}
use birdtest.Prelude.{pos}
use birdtest.Claims.Rows.{user, task_available, task_completed, active}
use birdtest.Claims.Writes.{listed}
use birdtest.Claims.Completed.{Credited, submit_result-Credited}
use birdtest.Claims.Reached.{issues, submits, Reach, here, next, Sound, Reach-Sound}
use birdtest.Claims.Ended.{Grown}
use birdtest.Claims.Past.{Reach-Grown}
use birdtest.Claims.Spent.{submit_result-once}
use birdtest.Claims.Sweeps.{heartbeat-reclaim, reclaim_expired_for-frees}

abbrev job : Job
job = record {
  id = 7;
  status = active;
  allocation = 3;
  max_task_seconds = 60;
  claims_issued = 0;
  tasks_total = 0;
  tasks_completed = 0;
  movegens = 0;
  compute_ms = 0;
  time_limit_declines = 0;
  time_limit_streak = 0;
  time_limit_streak_since = none;
  last_completed_at = none;
}

abbrev start : Database
start = record { claims = []; tasks = []; jobs = job ∷ [] }

abbrev claim : TaskClaim
claim = new_claim 200 100 7 300 (user 1) 1000 61000

abbrev task : Task
task = take_slot (new_task 100 7 (pos 5))

abbrev handed : Database
handed = record { claims = claim ∷ []; tasks = task ∷ []; jobs = count_issued true job ∷ [] }

abbrev ended : Database
ended = record {
  claims = complete_claim 9000 12 claim ∷ [];
  tasks = complete_task 9000 task ∷ [];
  jobs = credit_job false true 12 8000 9000 (count_issued true job) ∷ [];
}

start-Sound : Sound start
start-Sound = record {
  rows = record {
    slots = tt;
    ids = λ k. omega arith;
    tokens = λ k. omega arith;
    task_ids = λ k. omega arith;
    homes = tt;
  };
  jobs = (record { total = refl; share = refl; run = λ e. omega arith }, tt);
}

handed-acquired :
    acquire_and_issue start (user 1) 7 (some (pos 5)) 100 200 300 1000 [] ≡ some handed
unfolding acquire_and_issue next_available insert_on_demand_task issue_claim
handed-acquired = refl

handed-Reach : Reach start handed
handed-Reach =
    next here (issues (user 1) 7 (some (pos 5)) 100 200 300 1000 [] refl refl refl handed-acquired)

ended-accepted : submit_result handed 300 (user 1) true false 12 9000 ≡ (ended, ok true)
unfolding submit_result accept_result
ended-accepted = refl

ended-Reach : Reach start ended
ended-Reach =
    next handed-Reach (submits 300 (user 1) true false 12 9000 (sym (ap (λ a. a.0) ended-accepted)))

handed-Sound : Sound handed
handed-Sound = Reach-Sound start-Sound handed-Reach

Reach-Sound_example : Sound ended
Reach-Sound_example = Reach-Sound start-Sound ended-Reach

Reach-Grown_example : Grown handed.claims ended.claims
Reach-Grown_example =
    Reach-Grown handed-Sound
      (next here (submits 300 (user 1) true false 12 9000 (sym (ap (λ a. a.0) ended-accepted))))

submit_result-Credited_example :
    (c : TaskClaim) × (find (is_open_for 300 (user 1)) handed.claims ≡ some c)
    × Credited handed ended c 12 9000
submit_result-Credited_example =
    submit_result-Credited handed 300 (user 1) true false 12 9000 ended handed-Sound.rows
      ended-accepted

submit_result-once_example : submit_result ended 300 (user 1) true false 12 9500 ≡ (ended, ok false)
submit_result-once_example =
    submit_result-once handed 300 (user 1) true false 12 9000 ended ended (user 1) true false 12
      9500 handed-Sound ended-accepted here

heartbeat-reclaim_example :
    find
      (is_open_for 300 (user 1))
      (reclaim_expired_for (heartbeat handed 300 (user 1) 30000 []) (7 ∷ []) 60000 30000 []).claims
    ≡ some (record claim { last_heartbeat_at = some 30000 })
heartbeat-reclaim_example =
    heartbeat-reclaim handed 300 (user 1) 30000 [] claim (7 ∷ []) 60000 30000 [] refl refl
      (omega arith) (omega arith)

reclaim_expired_for-frees_example :
    All
      (λ t.
        listed t.job_id (7 ∷ []) ≡ true
        → (t.active_claim_count ≡ 0)
          × (t.state ≡ (if ltb 0 t.accepted_count then task_completed else task_available)))
      (reclaim_expired_for handed (7 ∷ []) 200000 30000 []).tasks
reclaim_expired_for-frees_example =
    reclaim_expired_for-frees handed (7 ∷ []) 200000 30000 handed-Sound.rows ((λ e. refl), tt)
