-- ===== src/Claims/Requests.antt =====
-- backend/src/routes/worker.rs: `heartbeat`, `decline_task`, `record_time_limit` and `submit_result`, on the
-- rows. What `submit_result` stores of the result itself, and the contributor's own totals, are left out.
use birdtest.Prelude.{
  ℕ, ◌+◌, ◌-◌, ◌*◌, max, min, Bool, true, false, not, ◌&&◌, ◌||◌, List, Option, none, some,
  AppResult, ok, err, bad_request, not_found, ltb, leb, ◌==◌, if◌then◌else◌,
}
use birdtest.Claims.Rows.{
  completed, abandoned, declined, pending, counted, task_completed, inactive, Identity, TaskClaim,
  Task, Job, Database, update, exists, count, find, is_claimed, is_active, is_pending,
  same_identity,
}
use birdtest.Claims.Writes.{release_claim, is_past_deadline, listed}

-- `DECLINE_REASONS`.
pub data DeclineReason : Type 0 where
  missing_data magpie_version unknown_job_type derived_mismatch task_failed time_limit :
      DeclineReason

abbrev pub is_time_limit : DeclineReason → Bool
is_time_limit time_limit = true
is_time_limit _ = false

abbrev pub time_limit_streak_max : ℕ
time_limit_streak_max = 3

-- An open claim with the token, made by the identity.
abbrev pub is_open_for : ℕ → Identity → TaskClaim → Bool
is_open_for claim_token identity c =
    c.claim_token == claim_token && (is_claimed c.state && same_identity c.claimed_by identity)

-- A claim that another transaction holds locked is skipped.
unfoldable pub heartbeat : Database → ℕ → Identity → ℕ → List ℕ → Database
heartbeat db claim_token identity now locked = record db {
  claims =
      update (λ c. is_open_for claim_token identity c && not (listed c.id locked))
        (λ c. record c { last_heartbeat_at = some now }) db.claims;
}

abbrev pub is_uncounted : ℕ → TaskClaim → Bool
is_uncounted job_id c = c.job_id == job_id && is_pending c.overrun

abbrev pub is_in_run : Option ℕ → TaskClaim → Bool
is_in_run none c = true
is_in_run (some since) c = ltb since c.deadline_at

abbrev pub one_if : Bool → ℕ
one_if true = 1
one_if false = 0

abbrev pub sets_aside : Job → Bool
sets_aside j = leb time_limit_streak_max j.time_limit_streak && not (j.allocation == 0)

-- The job's row after `total` tasks that hit the limit, `in_run` of them in the run, with the status and
-- the allocation of a job that this sets aside.
abbrev pub count_limits : ℕ → ℕ → Job → Job
count_limits total in_run j = record j {
  time_limit_declines = j.time_limit_declines + total;
  time_limit_streak = j.time_limit_streak + in_run;
}

abbrev pub set_aside : Job → Job
set_aside j =
    if sets_aside j && is_active j.status then record j { status = inactive; allocation = 0 } else j

-- `record_time_limit` on the job of a claim, which has a row as claims go with their job; `None` for `declined` where no claim was declined. The claims it counts are marked.
unfoldable pub record_time_limit : Database → ℕ → Bool → Database
record_time_limit db job_id is_declined = elim (find (λ j. j.id == job_id) db.jobs) [
  | none ↦ db
  | some job ↦
      let overruns = count (is_uncounted job_id) db.claims in
      let in_run =
        count (λ c. is_uncounted job_id c && is_in_run job.time_limit_streak_since c) db.claims in
      let claims =
        update (is_uncounted job_id) (λ c. record c { overrun = some counted }) db.claims in
      if not is_declined && overruns == 0 then record db { claims = claims } else record db {
        claims = claims;
        jobs =
            update (λ j. j.id == job_id)
              (λ j.
                set_aside
                  (count_limits (one_if is_declined + overruns) (one_if is_declined + in_run) j))
              db.jobs;
      }
]

-- `decline_task`, of a reason that the request may state.
unfoldable pub decline_task :
    Database → ℕ → Identity → DeclineReason → Database × AppResult (Unit {0})
unfolding release_claim record_time_limit
decline_task db claim_token identity reason =
    elim (find (is_open_for claim_token identity) db.claims) [
      | none ↦ (db, err not_found)
      | some c ↦
          let released = (release_claim db c.id declined).0 in
          (
            if is_time_limit reason then record_time_limit released c.job_id true else released,
            ok tt,
          )
    ]

-- `MAX_MOVEGENS_PER_MS`.
abbrev pub max_movegens_per_ms : ℕ
max_movegens_per_ms = 1000000

abbrev pub i64_max : ℕ
i64_max = 9223372036854775807

-- `scheduler::deadlines_enforced` is an argument.
abbrev pub is_late : Bool → ℕ → TaskClaim → Bool
is_late deadlines_enforced now c = is_past_deadline now c && deadlines_enforced

abbrev pub complete_claim : ℕ → ℕ → TaskClaim → TaskClaim
complete_claim now movegens c = record c {
  state = completed;
  completed_at = some now;
  movegens = movegens;
}

abbrev pub or_now : ℕ → Option ℕ → Option ℕ
or_now now none = some now
or_now now (some at) = some at

abbrev pub complete_task : ℕ → Task → Task
complete_task now t = record t {
  accepted_count = t.accepted_count + 1;
  active_claim_count = t.active_claim_count - 1;
  state = task_completed;
  completed_at = or_now now t.completed_at;
}

-- `RETURNING t.accepted_count = 1`.
abbrev pub completes : List Task → ℕ → Bool
completes tasks task_id = exists (λ t. t.id == task_id && t.accepted_count == 0) tasks

abbrev pub stale_completion : ℕ → Job → Bool
stale_completion now j = elim j.last_completed_at [ none ↦ true | some at ↦ ltb (at + 60000) now ]

-- The job's totals, written where any of them moves or the last write is a minute old. `progress_moved` says
-- whether a total of the stored result's progress moves, which are columns that the rows leave out.
abbrev pub credit_job : Bool → Bool → ℕ → ℕ → ℕ → Job → Job
credit_job progress_moved completes_task movegens compute_ms now j =
    if progress_moved
      || (completes_task || (ltb 0 movegens || (ltb 0 compute_ms || stale_completion now j)))
    then record j {
      tasks_completed = j.tasks_completed + one_if completes_task;
      movegens = j.movegens + movegens;
      compute_ms = j.compute_ms + compute_ms;
      time_limit_streak = 0;
      time_limit_streak_since = some now;
      last_completed_at = some now;
    }
    else j

-- The submission of a claim that is not late. What its contributor is credited with is the time it was
-- held; a refusal rolls everything back.
unfoldable pub accept_result : Database → TaskClaim → Bool → ℕ → ℕ → Database × AppResult Bool
accept_result db c progress_moved movegens now =
    let compute_ms = now - c.claimed_at in
    if ltb (min i64_max (max compute_ms 1 * max_movegens_per_ms)) movegens
    then (db, err bad_request)
    else (
      record {
        claims = update (λ d. d.id == c.id) (complete_claim now movegens) db.claims;
        tasks = update (λ t. t.id == c.task_id) (complete_task now) db.tasks;
        jobs =
            update (λ j. j.id == c.job_id)
              (credit_job progress_moved (completes db.tasks c.task_id) movegens compute_ms now)
              db.jobs;
      },
      ok true,
    )

-- `submit_result` from the transaction on, with whether the result was accepted.
unfoldable pub submit_result :
    Database → ℕ → Identity → Bool → Bool → ℕ → ℕ → Database × AppResult Bool
unfolding release_claim record_time_limit accept_result
submit_result db claim_token identity deadlines_enforced progress_moved movegens now =
    elim (find (is_open_for claim_token identity) db.claims) [
      | none ↦ (db, ok false)
      | some c ↦
          let released = (release_claim db c.id abandoned).0 in
          let marked = record released {
            claims =
                update (λ d. d.id == c.id) (λ d. record d { overrun = some pending })
                  released.claims;
          } in
          if is_late deadlines_enforced now c
          then (record_time_limit marked c.job_id false, ok false)
          else accept_result db c progress_moved movegens now
    ]
