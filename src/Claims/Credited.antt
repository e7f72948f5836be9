-- ===== src/Claims/Credited.antt =====
-- What an accepted submission credits its job with: Claims/Requests.antt, `accept_result`.
use birdtest.Prelude.{
  ℕ, ◌+◌, ◌-◌, ◌*◌, max, min, ◌≡◌, subst, Bool, Bool-cases, true, ◌&&◌, List, [], ◌∷◌, some, inl,
  inr, ltb, ◌==◌, if◌then◌else◌, arith,
}
use birdtest.Claims.Rows.{TaskClaim, Job, Database, update, count, find, is_claimed}
use birdtest.Claims.Requests.{
  accept_result, complete_task, credit_job, completes, one_if, max_movegens_per_ms, i64_max,
}
use birdtest.Claims.Slots.{
  All, count-update_in, exists-count, find-count, exists-All, All-zip, All-update, All-map,
  is_live_of, Slot, HasTask, WellFormed,
}
use birdtest.Claims.Totals.{is_done_in, IsTrue}

All-find :
    {A : Type 0} (P : A → Type 0) (p : A → Bool) (xs : List A) (x : A)
    → All P xs
    → find p xs ≡ some x
    → P x
All-find P p [] x h e = absurd (ground (arith, e))
All-find P p (y ∷ ys) x (py, h) e = elim (Bool-cases (p y)) [
  | inl here ↦ let same : y ≡ x = ground arith in subst P same py
  | inr there ↦ All-find P p ys x h (ground (arith, e, there))
]

-- Where every row that `key` counts answers `b`, the rows that answer are all of them or none.
count-agreed :
    {A : Type 0} (key r : A → Bool) (b : Bool) (xs : List A)
    → All (λ y. key y ≡ true → r y ≡ b) xs
    → count (λ y. key y && r y) xs ≡ (if b then count key xs else 0)
count-agreed key r b [] h = ground arith
count-agreed key r b (y ∷ ys) (hy, h) = ground (arith, hy, count-agreed key r b ys h)

module _ (db : Database) (p : TaskClaim → Bool) (c : TaskClaim) (found : find p db.claims ≡ some c)
    (is_open : is_claimed c.state ≡ true) (h : WellFormed db) where
  pub held :
      All
        (λ t.
          (t.id == c.task_id) ≡ true
          → (t.job_id == c.job_id && (t.accepted_count == 0 && t.active_claim_count == 1)) ≡ true)
        db.tasks
  held =
      All-map _ _
        (λ t (of_job, s) k.
          let live = find-count p (is_live_of t.id) db.claims c found in
          ground (arith, k, of_job, live, is_open, s.live, s.one))
        db.tasks
        (All-zip _ (Slot db.claims) db.tasks
          (exists-All (λ t. t.id == c.task_id) (λ t. t.job_id == c.job_id) db.tasks
            (h.task_ids c.task_id) (All-find (HasTask db.tasks) p db.claims c h.homes found))
          h.slots)

  home : HasTask db.tasks c
  home = All-find (HasTask db.tasks) p db.claims c h.homes found

  pub one_task : count (λ t. t.id == c.task_id) db.tasks ≡ 1
  one_task =
      let agreed =
        count-agreed (λ t. t.id == c.task_id) (λ t. t.job_id == c.job_id) true db.tasks
          (All-map _ _ (λ t e k. ground (arith, e k)) db.tasks held) in
      ground (
        arith,
        agreed,
        home,
        h.task_ids c.task_id,
        exists-count (λ t. t.id == c.task_id && t.job_id == c.job_id) db.tasks,
      )

  pub one_unfinished : count (λ t. t.id == c.task_id && t.accepted_count == 0) db.tasks ≡ 1
  one_unfinished =
      let agreed =
        count-agreed (λ t. t.id == c.task_id) (λ t. t.accepted_count == 0) true db.tasks
          (All-map _ _ (λ t e k. ground (arith, e k)) db.tasks held) in
      ground (arith, agreed, one_task)

  -- The task of an open claim was never completed: the claim's submission is the first to complete it.
  pub open-completes : completes db.tasks c.task_id ≡ true
  open-completes = ground (
    arith,
    one_unfinished,
    exists-count (λ t. t.id == c.task_id && t.accepted_count == 0) db.tasks,
  )

  pub done_more :
      (job_id now : ℕ)
      → count (is_done_in job_id) (update (λ t. t.id == c.task_id) (complete_task now) db.tasks)
        ≡ count (is_done_in job_id) db.tasks + one_if (job_id == c.job_id)
  done_more job_id now =
      let more =
        count-update_in (is_done_in job_id)
          (λ t. t.id == c.task_id && (t.job_id == job_id && t.accepted_count == 0))
          (λ t. t.id == c.task_id) (complete_task now) (λ t. ground arith) db.tasks in
      let agreed =
        count-agreed (λ t. t.id == c.task_id) (λ t. t.job_id == job_id && t.accepted_count == 0)
          (job_id == c.job_id) db.tasks
          (All-map _ _ (λ t e k. ground (arith, e k)) db.tasks held) in
      ground (arith, more, agreed, one_task)

  credited-IsTrue :
      (progress_moved : Bool) (movegens compute_ms now : ℕ) (j : Job)
      → IsTrue db.tasks j
      → IsTrue (update (λ t. t.id == c.task_id) (complete_task now) db.tasks) (
          if j.id == c.job_id
          then credit_job progress_moved (completes db.tasks c.task_id) movegens compute_ms now j
          else j)
  credited-IsTrue progress_moved movegens compute_ms now j s = rw (open-completes) (record {
    total = ground (arith, s.total, done_more j.id now);
    share = ground (arith, s.share);
    run = ground (arith, s.run);
  })

  pub accept_result-AllTrue :
      (progress_moved : Bool) (movegens now : ℕ)
      → All (IsTrue db.tasks) db.jobs
      → All
          (IsTrue (accept_result db c progress_moved movegens now).0.tasks)
          (accept_result db c progress_moved movegens now).0.jobs
  unfolding accept_result
  accept_result-AllTrue progress_moved movegens now a =
      elim (Bool-cases
        (ltb (min i64_max (max (now - c.claimed_at) 1 * max_movegens_per_ms)) movegens)) [
          | inl implausible ↦ rw implausible a
          | inr plausible ↦ rw plausible (
              All-update (IsTrue db.tasks) _ (λ j. j.id == c.job_id)
                (credit_job progress_moved (completes db.tasks c.task_id) movegens
                  (now - c.claimed_at) now)
                (credited-IsTrue progress_moved movegens (now - c.claimed_at) now) db.jobs a)
        ]
