-- ===== src/Claims/Reached.antt =====
-- The databases that claims, heartbeats, sweeps, declines and submissions reach, in any order.
use birdtest.Prelude.{
  ℕ, ◌≡◌, sym, subst, Bool, Bool-cases, Option-cases, true, false, List, Option, some, inl, inr,
  ◌==◌, arith, ℤ,
}
use birdtest.Claims.Rows.{abandoned, declined, Database, Identity, count, find}
use birdtest.Claims.Writes.{
  release_claim, reclaim_expired_for, insert_on_demand_task, issue_claim, next_available,
  acquire_and_issue,
}
use birdtest.Claims.Requests.{
  record_time_limit, heartbeat, decline_task, submit_result, is_open_for, is_late, is_time_limit,
  DeclineReason,
}
use birdtest.Claims.Slots.{All, find-test, has_id, has_token, WellFormed}
use birdtest.Claims.Totals.{
  IsTrue, record_time_limit-AllTrue, release_claim-AllTrue, reclaim_expired_for-AllTrue,
  insert_on_demand_task-AllTrue, issued-AllTrue,
}
use birdtest.Claims.Credited.{accept_result-AllTrue}
use birdtest.Claims.Handed.{reclaim_expired_for-WellFormed}
use birdtest.Claims.Issued.{issue_claim-issued, acquire_and_issue-WellFormed}
use birdtest.Claims.Settled.{
  heartbeat-WellFormed, record_time_limit-WellFormed, decline_task-WellFormed,
  submit_result-WellFormed,
}

-- The ids and the token of new rows are fresh.
pub data Step (d e : Database) : Type 0 where
  issues :
      (identity : Identity) (job_id : ℕ) (next_seed : Option ℤ)
      (task_id claim_id claim_token now : ℕ) (locked : List ℕ)
      → count (λ t. t.id == task_id) d.tasks ≡ 0
      → count (has_id claim_id) d.claims ≡ 0
      → count (has_token claim_token) d.claims ≡ 0
      → acquire_and_issue d identity job_id next_seed task_id claim_id claim_token now locked
        ≡ some e
      → Step d e
  beats :
      (claim_token : ℕ) (identity : Identity) (now : ℕ) (locked : List ℕ)
      → e ≡ heartbeat d claim_token identity now locked
      → Step d e
  sweeps :
      (job_ids : List ℕ) (now timeout : ℕ) (locked : List ℕ)
      → e ≡ reclaim_expired_for d job_ids now timeout locked
      → Step d e
  counts : (job_id : ℕ) → e ≡ record_time_limit d job_id false → Step d e
  declines :
      (claim_token : ℕ) (identity : Identity) (reason : DeclineReason)
      → e ≡ (decline_task d claim_token identity reason).0
      → Step d e
  submits :
      (claim_token : ℕ) (identity : Identity) (deadlines_enforced progress_moved : Bool)
      (movegens now : ℕ)
      → e ≡ (submit_result d claim_token identity deadlines_enforced progress_moved movegens now).0
      → Step d e

pub data Reach (d : Database) : Database → Type 0 where
  here : Reach d d
  next : {e f : Database} → Reach d e → Step e f → Reach d f

-- The rows of claims and tasks agree, and every job's row is true of its tasks.
pub record Sound (db : Database) : Type 0 where
  pub rows : WellFormed db
  pub jobs : All (IsTrue db.tasks) db.jobs

pub Step-WellFormed : {d e : Database} → Step d e → WellFormed d → WellFormed e
Step-WellFormed {d} {e}
      (issues identity job_id next_seed task_id claim_id claim_token now locked ft fc fk h) w =
    acquire_and_issue-WellFormed d identity job_id next_seed task_id claim_id claim_token now locked
      e ft fc fk h w
Step-WellFormed {d} (beats claim_token identity now locked h) w =
    subst WellFormed (sym h) (heartbeat-WellFormed d claim_token identity now locked w)
Step-WellFormed {d} (sweeps job_ids now timeout locked h) w =
    subst WellFormed (sym h) (reclaim_expired_for-WellFormed d job_ids now timeout locked w)
Step-WellFormed {d} (counts job_id h) w =
    subst WellFormed (sym h) (record_time_limit-WellFormed d job_id false w)
Step-WellFormed {d} (declines claim_token identity reason h) w =
    subst WellFormed (sym h) (decline_task-WellFormed d claim_token identity reason w)
Step-WellFormed {d} (submits claim_token identity deadlines_enforced progress_moved movegens now h)
      w =
    subst WellFormed (sym h) (
      submit_result-WellFormed d claim_token identity deadlines_enforced progress_moved movegens now
        w)

abbrev AllTrue : Database → Type 0
AllTrue db = All (IsTrue db.tasks) db.jobs

issue_claim-AllTrue :
    (db : Database) (identity : Identity) (job_id task_id : ℕ) (task_created : Bool)
    (claim_id claim_token now : ℕ) (e : Database)
    → issue_claim db identity job_id task_id task_created claim_id claim_token now ≡ some e
    → AllTrue db
    → AllTrue e
issue_claim-AllTrue db identity job_id task_id task_created claim_id claim_token now e h a =
    let (j, (_, written)) =
      issue_claim-issued db identity job_id task_id task_created claim_id claim_token now e h in
    subst AllTrue (sym written) (issued-AllTrue db.tasks db.jobs job_id task_id task_created a)

acquire_and_issue-AllTrue :
    (db : Database) (identity : Identity) (job_id : ℕ) (next_seed : Option ℤ)
    (task_id claim_id claim_token now : ℕ) (locked : List ℕ) (e : Database)
    → acquire_and_issue db identity job_id next_seed task_id claim_id claim_token now locked
      ≡ some e
    → AllTrue db
    → AllTrue e
unfolding acquire_and_issue
acquire_and_issue-AllTrue db identity job_id next_seed task_id claim_id claim_token now locked e h
      a =
    elim (Option-cases (next_available db job_id identity now locked)) [
      | inr (t, found) ↦
          issue_claim-AllTrue db identity job_id t.id false claim_id claim_token now e
            (ground (arith, found, h)) a
      | inl absent ↦ elim (Option-cases next_seed) [
        | inl no_seed ↦ absurd (ground (arith, absent, no_seed, h))
        | inr (seed, is_seed) ↦
            issue_claim-AllTrue (insert_on_demand_task db job_id seed task_id) identity job_id
              task_id true claim_id claim_token now e (ground (arith, absent, is_seed, h))
              (insert_on_demand_task-AllTrue db job_id task_id seed a)
      ]
    ]

decline_task-AllTrue :
    (db : Database) (claim_token : ℕ) (identity : Identity) (reason : DeclineReason)
    → AllTrue db
    → AllTrue (decline_task db claim_token identity reason).0
unfolding decline_task
decline_task-AllTrue db claim_token identity reason h =
    elim (Option-cases (find (is_open_for claim_token identity) db.claims)) [
      | inl absent ↦ rw (absent, decline_task) h
      | inr (c, found) ↦
          let released = release_claim-AllTrue db c.id declined h in
          rw (found, decline_task)
            (elim (Bool-cases (is_time_limit reason)) [
              | inl limit ↦ rw limit (
                  record_time_limit-AllTrue (release_claim db c.id declined).0 c.job_id true
                    released)
              | inr other ↦ rw other released
            ])
    ]

submit_result-AllTrue :
    (db : Database) (claim_token : ℕ) (identity : Identity)
    (deadlines_enforced progress_moved : Bool) (movegens now : ℕ)
    → WellFormed db
    → AllTrue db
    → AllTrue
        (submit_result db claim_token identity deadlines_enforced progress_moved movegens now).0
unfolding submit_result
submit_result-AllTrue db claim_token identity deadlines_enforced progress_moved movegens now w h =
    elim (Option-cases (find (is_open_for claim_token identity) db.claims)) [
      | inl absent ↦ rw (absent, submit_result) h
      | inr (c, found) ↦
          let passed = find-test (is_open_for claim_token identity) db.claims c found in
          rw (found, submit_result)
            (elim (Bool-cases (is_late deadlines_enforced now c)) [
              | inl late ↦ rw late (
                  record_time_limit-AllTrue _ c.job_id false
                    (release_claim-AllTrue db c.id abandoned h))
              | inr in_time ↦ rw in_time (
                  accept_result-AllTrue db (is_open_for claim_token identity) c found
                    (ground (arith, passed)) w progress_moved movegens now h)
            ])
    ]

Step-AllTrue : {d e : Database} → Step d e → WellFormed d → AllTrue d → AllTrue e
unfolding heartbeat
Step-AllTrue {d} {e}
      (issues identity job_id next_seed task_id claim_id claim_token now locked ft fc fk h) w a =
    acquire_and_issue-AllTrue d identity job_id next_seed task_id claim_id claim_token now locked e
      h a
Step-AllTrue {d} (beats claim_token identity now locked h) w a = subst AllTrue (sym h) a
Step-AllTrue {d} (sweeps job_ids now timeout locked h) w a =
    subst AllTrue (sym h) (reclaim_expired_for-AllTrue d job_ids now timeout locked a)
Step-AllTrue {d} (counts job_id h) w a =
    subst AllTrue (sym h) (record_time_limit-AllTrue d job_id false a)
Step-AllTrue {d} (declines claim_token identity reason h) w a =
    subst AllTrue (sym h) (decline_task-AllTrue d claim_token identity reason a)
Step-AllTrue {d} (submits claim_token identity deadlines_enforced progress_moved movegens now h) w
      a =
    subst AllTrue (sym h) (
      submit_result-AllTrue d claim_token identity deadlines_enforced progress_moved movegens now w
        a)

-- Whatever claims, heartbeats, sweeps, counts of time limits, declines and submissions happen, in whatever
-- order, from a database whose rows agree: every task still has one slot, which one open claim holds or one
-- completed claim used up, and the task's columns say which; every claim has its task, of its job; and every
-- job's row counts its completed tasks, has a share of the fleet exactly when the job is active, and shows
-- fewer than three time limits in a row while it is.
pub Reach-Sound : {d e : Database} → Sound d → Reach d e → Sound e
Reach-Sound s here = s
Reach-Sound s (next r step) =
    let before = Reach-Sound s r in
    record {
      rows = Step-WellFormed step before.rows;
      jobs = Step-AllTrue step before.rows before.jobs;
    }
