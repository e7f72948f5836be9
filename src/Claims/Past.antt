-- ===== src/Claims/Past.antt =====
-- The claims of a database that is reached are those of before, and new ones after them.
use birdtest.Prelude.{
  ℕ, ◌≡◌, refl, sym, subst, Bool, Bool-cases, Option-cases, true, false, not, ◌&&◌, List, Option,
  some, inl, inr, ◌==◌, arith, ℤ,
}
use birdtest.Claims.Rows.{abandoned, declined, pending, Database, Identity, find}
use birdtest.Claims.Writes.{
  listed, release_claim, reclaim_expired_for, is_lapsed, insert_on_demand_task, issue_claim,
  next_available, acquire_and_issue, lapse,
}
use birdtest.Claims.Requests.{
  heartbeat, decline_task, submit_result, is_open_for, is_late, is_time_limit, DeclineReason,
}
use birdtest.Claims.Slots.{find-test, WellFormed}
use birdtest.Claims.Reached.{
  Step, issues, beats, sweeps, counts, declines, submits, Reach, here, next, Sound, Reach-Sound,
}
use birdtest.Claims.Issued.{issue_claim-issued}
use birdtest.Claims.Ended.{
  Grown, Grown-refl, Grown-append, Grown-trans, marked-Grown, opened-Grown, record_time_limit-Grown,
  release_claim-Grown, accept_result-Grown,
}

issue_claim-Grown :
    (db : Database) (identity : Identity) (job_id task_id : ℕ) (task_created : Bool)
    (claim_id claim_token now : ℕ) (e : Database)
    → issue_claim db identity job_id task_id task_created claim_id claim_token now ≡ some e
    → Grown db.claims e.claims
issue_claim-Grown db identity job_id task_id task_created claim_id claim_token now e h =
    let (j, (_, written)) =
      issue_claim-issued db identity job_id task_id task_created claim_id claim_token now e h in
    subst (λ e. Grown db.claims e.claims) (sym written) (Grown-append db.claims _)

acquire_and_issue-Grown :
    (db : Database) (identity : Identity) (job_id : ℕ) (next_seed : Option ℤ)
    (task_id claim_id claim_token now : ℕ) (locked : List ℕ) (e : Database)
    → acquire_and_issue db identity job_id next_seed task_id claim_id claim_token now locked
      ≡ some e
    → Grown db.claims e.claims
unfolding acquire_and_issue insert_on_demand_task
acquire_and_issue-Grown db identity job_id next_seed task_id claim_id claim_token now locked e h =
    elim (Option-cases (next_available db job_id identity now locked)) [
      | inr (t, found) ↦
          issue_claim-Grown db identity job_id t.id false claim_id claim_token now e
            (ground (arith, found, h))
      | inl absent ↦ elim (Option-cases next_seed) [
        | inl no_seed ↦ absurd (ground (arith, absent, no_seed, h))
        | inr (seed, is_seed) ↦
            issue_claim-Grown (insert_on_demand_task db job_id seed task_id) identity job_id task_id
              true claim_id claim_token now e (ground (arith, absent, is_seed, h))
      ]
    ]

heartbeat-Grown :
    (db : Database) (claim_token : ℕ) (identity : Identity) (now : ℕ) (locked : List ℕ)
    → Grown db.claims (heartbeat db claim_token identity now locked).claims
unfolding heartbeat
heartbeat-Grown db claim_token identity now locked =
    marked-Grown (λ c. is_open_for claim_token identity c && not (listed c.id locked))
      (λ c. record c { last_heartbeat_at = some now }) db.claims
      (λ c. (refl, (refl, (refl, (refl, refl))))) (λ c. (refl, (refl, refl)))

reclaim_expired_for-Grown :
    (db : Database) (job_ids : List ℕ) (now timeout : ℕ) (locked : List ℕ)
    → Grown db.claims (reclaim_expired_for db job_ids now timeout locked).claims
unfolding reclaim_expired_for
reclaim_expired_for-Grown db job_ids now timeout locked =
    opened-Grown (is_lapsed db.tasks job_ids now timeout locked) (lapse now timeout) db.claims
      (λ c. (refl, (refl, (refl, (refl, refl))))) (λ c e. ground (arith, e))

decline_task-Grown :
    (db : Database) (claim_token : ℕ) (identity : Identity) (reason : DeclineReason)
    → Grown db.claims (decline_task db claim_token identity reason).0.claims
unfolding decline_task
decline_task-Grown db claim_token identity reason =
    elim (Option-cases (find (is_open_for claim_token identity) db.claims)) [
      | inl absent ↦ rw (absent, decline_task) (Grown-refl db.claims)
      | inr (c, found) ↦
          let released = release_claim-Grown db c.id declined in
          rw (found, decline_task)
            (elim (Bool-cases (is_time_limit reason)) [
              | inl limit ↦ rw limit (
                  Grown-trans db.claims (release_claim db c.id declined).0.claims _ released
                    (record_time_limit-Grown (release_claim db c.id declined).0 c.job_id true))
              | inr other ↦ rw other released
            ])
    ]

submit_result-Grown :
    (db : Database) (claim_token : ℕ) (identity : Identity)
    (deadlines_enforced progress_moved : Bool) (movegens now : ℕ)
    → WellFormed db
    → Grown db.claims
        (submit_result db claim_token identity deadlines_enforced progress_moved movegens
          now).0.claims
unfolding submit_result
submit_result-Grown db claim_token identity deadlines_enforced progress_moved movegens now w =
    elim (Option-cases (find (is_open_for claim_token identity) db.claims)) [
      | inl absent ↦ rw (absent, submit_result) (Grown-refl db.claims)
      | inr (c, found) ↦
          let passed = find-test (is_open_for claim_token identity) db.claims c found in
          let released = (release_claim db c.id abandoned).0.claims in
          let marked =
            marked-Grown (λ d. d.id == c.id) (λ d. record d { overrun = some pending }) released
              (λ d. (refl, (refl, (refl, (refl, refl))))) (λ d. (refl, (refl, refl))) in
          rw (found, submit_result)
            (elim (Bool-cases (is_late deadlines_enforced now c)) [
              | inl late ↦ rw late (
                  Grown-trans db.claims released _ (release_claim-Grown db c.id abandoned)
                    (Grown-trans released _ _ marked (record_time_limit-Grown _ c.job_id false)))
              | inr in_time ↦ rw in_time (
                  accept_result-Grown db (is_open_for claim_token identity) c found
                    (ground (arith, passed)) w progress_moved movegens now)
            ])
    ]

Step-Grown : {d e : Database} → Step d e → WellFormed d → Grown d.claims e.claims
Step-Grown {d} {e}
      (issues identity job_id next_seed task_id claim_id claim_token now locked ft fc fk h) w =
    acquire_and_issue-Grown d identity job_id next_seed task_id claim_id claim_token now locked e h
Step-Grown {d} (beats claim_token identity now locked h) w =
    subst (λ e. Grown d.claims e.claims) (sym h) (heartbeat-Grown d claim_token identity now locked)
Step-Grown {d} (sweeps job_ids now timeout locked h) w =
    subst (λ e. Grown d.claims e.claims) (sym h)
      (reclaim_expired_for-Grown d job_ids now timeout locked)
Step-Grown {d} (counts job_id h) w =
    subst (λ e. Grown d.claims e.claims) (sym h) (record_time_limit-Grown d job_id false)
Step-Grown {d} (declines claim_token identity reason h) w =
    subst (λ e. Grown d.claims e.claims) (sym h) (decline_task-Grown d claim_token identity reason)
Step-Grown {d} (submits claim_token identity deadlines_enforced progress_moved movegens now h) w =
    subst (λ e. Grown d.claims e.claims) (sym h)
      (submit_result-Grown d claim_token identity deadlines_enforced progress_moved movegens now w)

-- Whatever happens from a database whose rows agree, no claim goes and none is reissued: it keeps its task,
-- its token, its owner and its deadline, and once it is completed, abandoned or declined its state, its
-- completion time and its move generations stay what they are.
pub Reach-Grown : {d e : Database} → Sound d → Reach d e → Grown d.claims e.claims
Reach-Grown {d} s here = Grown-refl d.claims
Reach-Grown {d} s (next {e} {f} r step) =
    Grown-trans d.claims e.claims f.claims (Reach-Grown s r)
      (Step-Grown step (Reach-Sound s r).rows)
