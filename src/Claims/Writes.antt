-- ===== src/Claims/Writes.antt =====
-- What a claim's life writes: backend/src/scheduler.rs, `issue_claim`, `release_claim` and
-- `reclaim_expired_for`, and jobs/registry.rs, `insert_on_demand_task` and `next_available`.
use birdtest.Prelude.{
  ℕ, ◌+◌, ◌-◌, ◌*◌, Bool, true, false, not, ◌&&◌, ◌||◌, List, Option, none, some, ltb, leb, ◌==◌,
  if◌then◌else◌, ℤ,
}
use birdtest.Claims.Rows.{
  ClaimState, claimed, abandoned, pending, task_available, task_claimed, task_completed, Identity,
  TaskClaim, Task, Job, Database, update, exists, count, find, append, is_claimed, is_declined,
  is_available, is_active, same_identity, last_seen,
}

-- `DEADLINE_GRACE`.
abbrev pub deadline_grace : ℕ
deadline_grace = 60000

abbrev pub listed : ℕ → List ℕ → Bool
listed k ks = exists (λ l. l == k) ks

-- A task as it stands with `n` live claims fewer.
abbrev pub release_slots : ℕ → Task → Task
release_slots n t =
    let left = t.active_claim_count - n in
    record t {
      active_claim_count = left;
      state =
          if ltb 0 t.accepted_count
          then task_completed
          else if ltb 0 left
          then task_claimed
          else task_available;
    }

abbrev pub is_open_id : ℕ → TaskClaim → Bool
is_open_id claim_id c = c.id == claim_id && is_claimed c.state

abbrev pub is_task_of : List TaskClaim → ℕ → Task → Bool
is_task_of claims claim_id t = exists (λ c. c.id == claim_id && c.task_id == t.id) claims

unfoldable pub release_claim : Database → ℕ → ClaimState → Database × Bool
release_claim db claim_id terminal_state =
    if exists (is_open_id claim_id) db.claims
    then (
      record db {
        claims = update (is_open_id claim_id) (λ c. record c { state = terminal_state }) db.claims;
        tasks = update (is_task_of db.claims claim_id) (release_slots 1) db.tasks;
      },
      true,
    )
    else (db, false)

-- Past the deadline and its grace.
abbrev pub is_past_deadline : ℕ → TaskClaim → Bool
is_past_deadline now c = ltb (c.deadline_at + deadline_grace) now

-- The claims that `reclaim_expired_for` takes back: open ones of the jobs that are silent for the timeout or
-- past their deadline. `locked` are the claims that another transaction holds, which are skipped.
abbrev pub is_lapsed : List Task → List ℕ → ℕ → ℕ → List ℕ → TaskClaim → Bool
is_lapsed tasks job_ids now timeout locked c =
    exists (λ t. t.id == c.task_id && listed t.job_id job_ids) tasks
    && (is_claimed c.state
        && ((ltb (last_seen c + timeout) now || is_past_deadline now c)
            && not (listed c.id locked)))

-- Its worker was alive when it lapsed at its deadline.
abbrev pub has_overrun : ℕ → ℕ → TaskClaim → Bool
has_overrun now timeout c =
    is_past_deadline now c && leb (c.deadline_at + deadline_grace) (last_seen c + timeout)

abbrev pub lapse : ℕ → ℕ → TaskClaim → TaskClaim
lapse now timeout c = record c {
  state = abandoned;
  overrun = if has_overrun now timeout c then some pending else none;
}

-- `counts`: a task's expired claims.
abbrev pub expired_of : (TaskClaim → Bool) → List TaskClaim → Task → ℕ
expired_of lapsed claims t = count (λ c. lapsed c && c.task_id == t.id) claims

unfoldable pub reclaim_expired_for : Database → List ℕ → ℕ → ℕ → List ℕ → Database
reclaim_expired_for db job_ids now timeout locked =
    let lapsed = is_lapsed db.tasks job_ids now timeout locked in
    record db {
      claims = update lapsed (lapse now timeout) db.claims;
      tasks =
          update (λ t. ltb 0 (expired_of lapsed db.claims t))
            (λ t. release_slots (expired_of lapsed db.claims t) t) db.tasks;
    }

abbrev pub new_task : ℕ → ℕ → ℤ → Task
new_task id job_id seed = record {
  id = id;
  job_id = job_id;
  seed = seed;
  state = task_available;
  accepted_count = 0;
  active_claim_count = 0;
  completed_at = none;
}

-- `insert_on_demand_task`, with the id that the row gets.
unfoldable pub insert_on_demand_task : Database → ℕ → ℤ → ℕ → Database
insert_on_demand_task db job_id seed id = record db {
  tasks = append db.tasks (new_task id job_id seed);
}

-- Declined by the identity within the hour.
abbrev pub is_refused_by : Identity → ℕ → ℕ → TaskClaim → Bool
is_refused_by identity task_id now c =
    c.task_id == task_id
    && (is_declined c.state
        && (ltb now (last_seen c + 3600000) && same_identity c.claimed_by identity))

-- The oldest available task that is not locked; not for leave generation, which asks for a generation's.
unfoldable pub next_available : Database → ℕ → Identity → ℕ → List ℕ → Option Task
next_available db job_id identity now locked =
    find
      (λ t.
        t.job_id == job_id
        && (is_available t.state
            && (not (exists (is_refused_by identity t.id now) db.claims)
                && not (listed t.id locked))))
      db.tasks

abbrev pub new_claim : ℕ → ℕ → ℕ → ℕ → Identity → ℕ → ℕ → TaskClaim
new_claim claim_id task_id job_id claim_token identity now deadline_at = record {
  id = claim_id;
  task_id = task_id;
  job_id = job_id;
  claim_token = claim_token;
  state = claimed;
  claimed_by = identity;
  claimed_at = now;
  deadline_at = deadline_at;
  overrun = none;
  last_heartbeat_at = none;
  completed_at = none;
  movegens = 0;
}

abbrev pub take_slot : Task → Task
take_slot t = record t { active_claim_count = t.active_claim_count + 1; state = task_claimed }

abbrev pub count_issued : Bool → Job → Job
count_issued task_created j = record j {
  claims_issued = j.claims_issued + 1;
  tasks_total = j.tasks_total + (if task_created then 1 else 0);
}

-- `issue_claim` on a task, with the id and the token of the new claim; `none` when the job's row is gone or
-- not active, which rolls everything back.
unfoldable pub issue_claim : Database → Identity → ℕ → ℕ → Bool → ℕ → ℕ → ℕ → Option Database
issue_claim db identity job_id task_id task_created claim_id claim_token now =
    elim (find (λ j. j.id == job_id) db.jobs) [
      | none ↦ none
      | some job ↦
          if exists (λ j. j.id == job_id && is_active j.status) db.jobs
          then some (record {
            claims = append db.claims (
                new_claim claim_id task_id job_id claim_token identity now
                  (now + job.max_task_seconds * 1000));
            tasks = update (λ t. t.id == task_id) take_slot db.tasks;
            jobs =
                update (λ j. j.id == job_id && is_active j.status) (count_issued task_created)
                  db.jobs;
          })
          else none
    ]

-- What a claim of a job does in its transaction where tasks are made on demand: `registry::acquire` with
-- `generate_games`, `generate_game_pairs` or `generate_opening_rack`, then `issue_claim`. `next_seed` is the
-- seed that the job's kind would hand out next, if there is one; nothing is written where nothing is issued.
unfoldable pub acquire_and_issue :
    Database → Identity → ℕ → Option ℤ → ℕ → ℕ → ℕ → ℕ → List ℕ → Option Database
unfolding next_available insert_on_demand_task issue_claim
acquire_and_issue db identity job_id next_seed task_id claim_id claim_token now locked =
    elim (next_available db job_id identity now locked) [
      | some t ↦ issue_claim db identity job_id t.id false claim_id claim_token now
      | none ↦ elim next_seed [
        | none ↦ none
        | some seed ↦
            issue_claim (insert_on_demand_task db job_id seed task_id) identity job_id task_id true
              claim_id claim_token now
      ]
    ]
