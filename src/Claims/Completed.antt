-- ===== src/Claims/Completed.antt =====
-- What an accepted submission does to the rows: Claims/Requests.antt, `submit_result`.
use birdtest.Prelude.{
  ℕ, ◌+◌, ◌-◌, ◌*◌, max, min, ◌≡◌, refl, sym, ap, ◌∙◌, Bool, Bool-cases, Option-cases, true, false,
  ◌&&◌, List, [], ◌∷◌, map, some, inl, inr, ltb, ◌==◌, if◌then◌else◌, arith, ok,
}
use birdtest.Claims.Rows.{
  task_completed, TaskClaim, Task, Identity, Database, update, count, find, is_claimed,
}
use birdtest.Claims.Requests.{
  accept_result, complete_task, credit_job, one_if, max_movegens_per_ms, i64_max, submit_result,
  is_open_for, is_late,
}
use birdtest.Claims.Slots.{All, All-map, find-test, WellFormed}
use birdtest.Claims.Totals.{is_done_in}
use birdtest.Claims.Credited.{held, one_task, one_unfinished, open-completes, done_more}

abbrev is_finished : Task → Bool
is_finished t =
    t.accepted_count == 1
    && (t.active_claim_count == 0 && elim t.state [ task_completed ↦ true | _ ↦ false ])

-- How the rows after a claim's completion compare with the rows before: the claim's task, the completed tasks of
-- each job, and the totals of the jobs' rows.
pub record Credited (d e : Database) (c : TaskClaim) (movegens now : ℕ) : Type 0 where
  pub unfinished : count (λ t. t.id == c.task_id && t.accepted_count == 0) d.tasks ≡ 1
  pub finished : count (λ t. t.id == c.task_id && is_finished t) e.tasks ≡ 1
  pub done :
      (job_id : ℕ)
      → count (is_done_in job_id) e.tasks
        ≡ count (is_done_in job_id) d.tasks + one_if (job_id == c.job_id)
  pub tasks_completed :
      map (λ j. j.tasks_completed) e.jobs
      ≡ map (λ j. j.tasks_completed + one_if (j.id == c.job_id)) d.jobs
  pub movegens_of :
      map (λ j. j.movegens) e.jobs
      ≡ map (λ j. j.movegens + (if j.id == c.job_id then movegens else 0)) d.jobs
  pub compute_of :
      map (λ j. j.compute_ms) e.jobs
      ≡ map (λ j. j.compute_ms + (if j.id == c.job_id then now - c.claimed_at else 0)) d.jobs

count-updated :
    {A : Type 0} (key r : A → Bool) (f : A → A) (xs : List A)
    → All (λ y. key y ≡ true → (key (f y) && r (f y)) ≡ true) xs
    → count (λ y. key y && r y) (update key f xs) ≡ count key xs
count-updated key r f [] h = refl
count-updated key r f (y ∷ ys) (hy, h) = ground (arith, hy, count-updated key r f ys h)

map-update :
    {A : Type 0} (g after : A → ℕ) (key : A → Bool) (f : A → A) (xs : List A)
    → ((y : A) → g (if key y then f y else y) ≡ after y)
    → map g (update key f xs) ≡ map after xs
map-update g after key f [] h = refl
map-update g after key f (y ∷ ys) h = cc (h y, map-update g after key f ys h)

module _ (db : Database) (p : TaskClaim → Bool) (c : TaskClaim) (found : find p db.claims ≡ some c)
    (is_open : is_claimed c.state ≡ true) (h : WellFormed db) (movegens now : ℕ) where
  written-Credited :
      (progress_moved : Bool) (e : Database)
      → update (λ t. t.id == c.task_id) (complete_task now) db.tasks ≡ e.tasks
      → update
          (λ j. j.id == c.job_id)
          (credit_job progress_moved true movegens (now - c.claimed_at) now)
          db.jobs
        ≡ e.jobs
      → Credited db e c movegens now
  written-Credited progress_moved e tasks jobs =
      let credit = credit_job progress_moved true movegens (now - c.claimed_at) now in
      let finished =
        count-updated (λ t. t.id == c.task_id) is_finished (complete_task now) db.tasks
          (All-map _ _ (λ t e k. ground (arith, e k, k)) db.tasks (held db p c found is_open h)) in
      record {
        unfinished = one_unfinished db p c found is_open h;
        finished = ground (arith, finished, tasks, one_task db p c found is_open h);
        done = λ job_id. ground (arith, tasks, done_more db p c found is_open h job_id now);
        tasks_completed =
            ap (map (λ j. j.tasks_completed)) (sym jobs)
            ∙ map-update _ _ (λ j. j.id == c.job_id) credit db.jobs (λ j. ground arith);
        movegens_of =
            ap (map (λ j. j.movegens)) (sym jobs)
            ∙ map-update _ _ (λ j. j.id == c.job_id) credit db.jobs (λ j. ground arith);
        compute_of =
            ap (map (λ j. j.compute_ms)) (sym jobs)
            ∙ map-update _ _ (λ j. j.id == c.job_id) credit db.jobs (λ j. ground arith);
      }

  accepted-Credited :
      (progress_moved : Bool) (e : Database)
      → accept_result db c progress_moved movegens now ≡ (e, ok true)
      → Credited db e c movegens now
  unfolding accept_result
  accepted-Credited progress_moved e a =
      elim (Bool-cases
        (ltb (min i64_max (max (now - c.claimed_at) 1 * max_movegens_per_ms)) movegens)) [
          | inl implausible ↦ absurd (ground (arith, implausible, a))
          | inr plausible ↦
              let first = open-completes db p c found is_open h in
              written-Credited progress_moved e (ground (arith, plausible, a))
                (ground (arith, plausible, a, first))
        ]

-- A submission that is accepted, where rows agree, is of an open claim with the token, made by the identity. One
-- task has the claim's id and was not completed, and one with that id is now, without a live claim; each job has as
-- many completed tasks as before, and the claim's job one more; and in the totals of the jobs' rows the claim's job
-- is credited, whether or not the progress of its result moves, with that task, with the movegens stated and with the time
-- since the claim, and the other jobs with nothing.
pub submit_result-Credited :
    (d : Database) (claim_token : ℕ) (identity : Identity)
    (deadlines_enforced progress_moved : Bool) (movegens now : ℕ) (e : Database)
    → WellFormed d
    → submit_result d claim_token identity deadlines_enforced progress_moved movegens now
      ≡ (e, ok true)
    → (c : TaskClaim) × (find (is_open_for claim_token identity) d.claims ≡ some c)
      × Credited d e c movegens now
unfolding submit_result
submit_result-Credited d claim_token identity deadlines_enforced progress_moved movegens now e w h =
    elim (Option-cases (find (is_open_for claim_token identity) d.claims)) [
      | inl absent ↦ absurd (ground (arith, absent, h))
      | inr (c, found) ↦
          let passed = find-test (is_open_for claim_token identity) d.claims c found in
          elim (Bool-cases (is_late deadlines_enforced now c)) [
            | inl late ↦ absurd (ground (arith, found, late, h))
            | inr in_time ↦ (
              c,
              found,
              accepted-Credited d (is_open_for claim_token identity) c found
                  (ground (arith, passed)) w movegens now progress_moved e
                  (ground (arith, found, in_time, h)),
            )
          ]
    ]
