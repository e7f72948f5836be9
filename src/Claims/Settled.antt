-- ===== src/Claims/Settled.antt =====
-- Heartbeats, declines and submissions keep the rows well-formed: Claims/Requests.antt.
use birdtest.Prelude.{
  ℕ, ◌-◌, ◌*◌, max, min, ◌≡◌, refl, sym, ◌∙◌, subst, Bool, Bool-cases, Option-cases, true, false,
  not, ◌&&◌, List, some, ◌⊎◌, inl, inr, ltb, ◌==◌, if◌then◌else◌, arith,
}
use birdtest.Claims.Rows.{
  abandoned, declined, pending, counted, TaskClaim, Task, Job, Database, Identity, update, count,
  find, is_claimed, is_completed,
}
use birdtest.Claims.Writes.{release_claim, listed}
use birdtest.Claims.Requests.{
  heartbeat, record_time_limit, is_uncounted, decline_task, DeclineReason, is_time_limit,
  is_open_for, accept_result, complete_claim, complete_task, submit_result, is_late,
  max_movegens_per_ms, i64_max,
}
use birdtest.Claims.Slots.{
  count-update, count-update_in, count-update_same, find-test, All-update, All-map, is_live_of,
  is_done_of, Slot, has_id, has_token, HasTask, WellFormed, KeepsClaims, updated-WellFormed,
}
use birdtest.Claims.Kept.{count-row, release_claim-WellFormed}

-- An update of claims that leaves their tasks and their states alone.
marked-WellFormed :
    (db : Database) (jobs : List Job) (w : TaskClaim → Bool) (f : TaskClaim → TaskClaim)
    → KeepsClaims f
    → ((c : TaskClaim) → (f c).state ≡ c.state)
    → WellFormed db
    → WellFormed (record { claims = update w f db.claims; tasks = db.tasks; jobs = jobs })
marked-WellFormed db jobs w f keeps state h = record {
  slots =
      All-map (Slot db.claims) (Slot (update w f db.claims))
        (λ t s.
          let live =
            count-update_same (is_live_of t.id) w f (λ c. ground (arith, keeps c, state c))
              db.claims in
          let done =
            count-update_same (is_done_of t.id) w f (λ c. ground (arith, keeps c, state c))
              db.claims in
          record { live = s.live ∙ sym live; done = s.done ∙ sym done; one = s.one; says = s.says })
        db.tasks h.slots;
  ids = λ k.
      omega
        (arith, h.ids k, count-update_same (has_id k) w f (λ c. ground (arith, keeps c)) db.claims);
  tokens = λ k. omega (
    arith,
    h.tokens k,
    count-update_same (has_token k) w f (λ c. ground (arith, keeps c)) db.claims,
  );
  task_ids = h.task_ids;
  homes =
      All-update (HasTask db.tasks) (HasTask db.tasks) w f (λ c has. ground (arith, has, keeps c))
        db.claims h.homes;
}

pub heartbeat-WellFormed :
    (db : Database) (claim_token : ℕ) (identity : Identity) (now : ℕ) (locked : List ℕ)
    → WellFormed db
    → WellFormed (heartbeat db claim_token identity now locked)
unfolding heartbeat
heartbeat-WellFormed db claim_token identity now locked h =
    marked-WellFormed db db.jobs
      (λ c. is_open_for claim_token identity c && not (listed c.id locked))
      (λ c. record c { last_heartbeat_at = some now }) (λ c. (refl, (refl, (refl, refl))))
      (λ c. refl) h

-- However a run of time limits is counted, it marks claims and writes the jobs.
abbrev pub limits_counted : Database → ℕ → List Job → Database
limits_counted db job_id jobs = record {
  claims = update (is_uncounted job_id) (λ c. record c { overrun = some counted }) db.claims;
  tasks = db.tasks;
  jobs = jobs;
}

pub record_time_limit-limits_counted :
    (db : Database) (job_id : ℕ) (is_declined : Bool)
    → (record_time_limit db job_id is_declined ≡ db)
      ⊎ ((jobs : List Job) × (record_time_limit db job_id is_declined
            ≡ limits_counted db job_id jobs))
unfolding record_time_limit
record_time_limit-limits_counted db job_id is_declined =
    elim (Option-cases (find (λ j. j.id == job_id) db.jobs)) [
      | inl absent ↦ inl (rw (absent, record_time_limit) refl)
      | inr (job, found) ↦
          elim (Bool-cases (not is_declined && count (is_uncounted job_id) db.claims == 0)) [
            | inl nothing ↦ inr (db.jobs, rw (found, record_time_limit, nothing) refl)
            | inr something ↦ inr (
              (record_time_limit db job_id is_declined).jobs,
              rw (found, record_time_limit, something) refl,
            )
          ]
    ]

pub record_time_limit-WellFormed :
    (db : Database) (job_id : ℕ) (is_declined : Bool)
    → WellFormed db
    → WellFormed (record_time_limit db job_id is_declined)
record_time_limit-WellFormed db job_id is_declined h =
    elim (record_time_limit-limits_counted db job_id is_declined) [
      | inl same ↦ subst WellFormed (sym same) h
      | inr (jobs, written) ↦ subst WellFormed (sym written) (
          marked-WellFormed db jobs (is_uncounted job_id) (λ c. record c { overrun = some counted })
            (λ c. (refl, (refl, (refl, refl)))) (λ c. refl) h)
    ]

module _ (db : Database) (p : TaskClaim → Bool) (c : TaskClaim) (found : find p db.claims ≡ some c)
    (is_open : is_claimed c.state ≡ true) (now movegens : ℕ) (h : WellFormed db) where
  completed-Slot :
      (t : Task)
      → Slot db.claims t
      → Slot
          (update (λ d. d.id == c.id) (complete_claim now movegens) db.claims)
          (if t.id == c.task_id then complete_task now t else t)
  completed-Slot t s =
      let fewer =
        count-update (is_live_of t.id)
          (λ d. has_id c.id d && (is_claimed d.state && d.task_id == t.id)) (λ d. d.id == c.id)
          (complete_claim now movegens) (λ d. ground arith) db.claims in
      let more =
        count-update_in (is_done_of t.id)
          (λ d. has_id c.id d && (not (is_completed d.state) && d.task_id == t.id))
          (λ d. d.id == c.id) (complete_claim now movegens) (λ d. ground arith) db.claims in
      let was_live =
        count-row p db.claims c found (h.ids c.id) (λ d. is_claimed d.state && d.task_id == t.id) in
      let was_not_done =
        count-row p db.claims c found (h.ids c.id)
          (λ d. not (is_completed d.state) && d.task_id == t.id) in
      record {
        live = ground (arith, fewer, was_live, is_open, s.live, s.done, s.one);
        done = ground (arith, more, was_not_done, is_open, s.done);
        one = ground (arith, fewer, was_live, is_open, s.live, s.one);
        says = ground (arith, s.says);
      }

  completed-WellFormed :
      (jobs : List Job)
      → WellFormed (record {
        claims = update (λ d. d.id == c.id) (complete_claim now movegens) db.claims;
        tasks = update (λ t. t.id == c.task_id) (complete_task now) db.tasks;
        jobs = jobs;
      })
  completed-WellFormed jobs =
      updated-WellFormed db jobs (λ d. d.id == c.id) (complete_claim now movegens)
        (λ t. t.id == c.task_id) (complete_task now) (λ d. (refl, (refl, (refl, refl))))
        (λ t. (refl, refl)) completed-Slot h

  pub accept_result-WellFormed :
      (progress_moved : Bool) → WellFormed (accept_result db c progress_moved movegens now).0
  unfolding accept_result
  accept_result-WellFormed progress_moved =
      elim (Bool-cases
        (ltb (min i64_max (max (now - c.claimed_at) 1 * max_movegens_per_ms)) movegens)) [
          | inl implausible ↦ rw implausible h
          | inr plausible ↦ rw plausible (completed-WellFormed _)
        ]

pub decline_task-WellFormed :
    (db : Database) (claim_token : ℕ) (identity : Identity) (reason : DeclineReason)
    → WellFormed db
    → WellFormed (decline_task db claim_token identity reason).0
unfolding decline_task
decline_task-WellFormed db claim_token identity reason h =
    elim (Option-cases (find (is_open_for claim_token identity) db.claims)) [
      | inl absent ↦ rw (absent, decline_task) h
      | inr (c, found) ↦
          let released =
            release_claim-WellFormed db (is_open_for claim_token identity) c declined found refl
              refl h in
          rw (found, decline_task)
            (elim (Bool-cases (is_time_limit reason)) [
              | inl limit ↦ rw limit (
                  record_time_limit-WellFormed (release_claim db c.id declined).0 c.job_id true
                    released)
              | inr other ↦ rw other released
            ])
    ]

pub submit_result-WellFormed :
    (db : Database) (claim_token : ℕ) (identity : Identity)
    (deadlines_enforced progress_moved : Bool) (movegens now : ℕ)
    → WellFormed db
    → WellFormed
        (submit_result db claim_token identity deadlines_enforced progress_moved movegens now).0
unfolding submit_result
submit_result-WellFormed db claim_token identity deadlines_enforced progress_moved movegens now h =
    elim (Option-cases (find (is_open_for claim_token identity) db.claims)) [
      | inl absent ↦ rw (absent, submit_result) h
      | inr (c, found) ↦
          let passed = find-test (is_open_for claim_token identity) db.claims c found in
          let released =
            release_claim-WellFormed db (is_open_for claim_token identity) c abandoned found refl
              refl h in
          let marked =
            marked-WellFormed (release_claim db c.id abandoned).0 _ (λ d. d.id == c.id)
              (λ d. record d { overrun = some pending }) (λ d. (refl, (refl, (refl, refl))))
              (λ d. refl) released in
          rw (found, submit_result)
            (elim (Bool-cases (is_late deadlines_enforced now c)) [
              | inl late ↦ rw late (record_time_limit-WellFormed _ c.job_id false marked)
              | inr in_time ↦ rw in_time (
                  accept_result-WellFormed db (is_open_for claim_token identity) c found
                    (ground (arith, passed)) now movegens h progress_moved)
            ])
    ]
