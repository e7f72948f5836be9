-- ===== src/Claims/Issued.antt =====
-- Issuing a claim keeps the rows well-formed: Claims/Writes.antt, `issue_claim` and `acquire_and_issue`.
use birdtest.Prelude.{
  ℕ, ◌+◌, ◌*◌, ◌≡◌, refl, sym, ◌∙◌, subst, Bool, Option-cases, true, false, not, ◌&&◌, List, Option,
  some, inl, inr, ◌==◌, if◌then◌else◌, arith, ℤ,
}
use birdtest.Claims.Rows.{
  TaskClaim, Task, Job, Database, Identity, update, exists, count, find, append, is_claimed,
  is_available, is_active,
}
use birdtest.Claims.Writes.{
  issue_claim, new_task, new_claim, take_slot, count_issued, next_available, insert_on_demand_task,
  acquire_and_issue, is_refused_by, listed,
}
use birdtest.Claims.Slots.{
  count-append, count-update_same, exists-update_same, exists-append, exists-weaken, find-exists,
  All-append, find-test, All-update, All-map, All-zip, exists-All, is_live_of, is_done_of, Slot,
  has_id, has_token, HasTask, WellFormed,
}
use birdtest.Claims.Handed.{insert_on_demand_task-WellFormed}

-- What a claim that is issued writes.
abbrev pub issued : Database → ℕ → Bool → TaskClaim → Database
issued db job_id task_created c = record {
  claims = append db.claims c;
  tasks = update (λ t. t.id == c.task_id) take_slot db.tasks;
  jobs = update (λ j. j.id == job_id && is_active j.status) (count_issued task_created) db.jobs;
}

pub issue_claim-issued :
    (db : Database) (identity : Identity) (job_id task_id : ℕ) (task_created : Bool)
    (claim_id claim_token now : ℕ) (e : Database)
    → issue_claim db identity job_id task_id task_created claim_id claim_token now ≡ some e
    → (j : Job) × ((find (λ j. j.id == job_id) db.jobs ≡ some j)
        × (e
            ≡ issued db job_id task_created (
                new_claim claim_id task_id job_id claim_token identity now
                  (now + j.max_task_seconds * 1000))))
unfolding issue_claim
issue_claim-issued db identity job_id task_id task_created claim_id claim_token now e h =
    elim (Option-cases (find (λ j. j.id == job_id) db.jobs)) [
      | inl absent ↦ absurd (ground (arith, absent, h))
      | inr (j, found) ↦ (j, (found, ground (arith, found, h)))
    ]

abbrev pub IsFree : List Task → ℕ → ℕ → Type 0
IsFree tasks job_id task_id =
    exists (λ t. t.id == task_id && (t.job_id == job_id && is_available t.state)) tasks ≡ true

module _ (db : Database) (job_id : ℕ) (task_created : Bool) (c : TaskClaim)
    (is_new : is_claimed c.state ≡ true) (free : IsFree db.tasks job_id c.task_id) where
  taken-Slot :
      (t : Task)
      → ((t.id == c.task_id) ≡ true → (t.job_id == job_id && is_available t.state) ≡ true)
      → Slot db.claims t
      → Slot (append db.claims c) (if t.id == c.task_id then take_slot t else t)
  taken-Slot t available s =
      let live = count-append (is_live_of t.id) db.claims c in
      let done = count-append (is_done_of t.id) db.claims c in
      record {
        live = ground (arith, live, is_new, s.live);
        done = ground (arith, done, is_new, s.done);
        one = ground (arith, available, s.says, s.one);
        says = ground (arith, available, s.says, s.one);
      }

  same_tasks :
      (k j : ℕ)
      → exists
          (λ t. t.id == k && t.job_id == j)
          (update (λ t. t.id == c.task_id) take_slot db.tasks)
        ≡ exists (λ t. t.id == k && t.job_id == j) db.tasks
  same_tasks k j =
      exists-update_same (λ t. t.id == k && t.job_id == j) (λ t. t.id == c.task_id) take_slot
        (λ t. ground arith) db.tasks

  pub issued-WellFormed :
      count (has_id c.id) db.claims ≡ 0
      → count (has_token c.claim_token) db.claims ≡ 0
      → c.job_id ≡ job_id
      → WellFormed db
      → WellFormed (issued db job_id task_created c)
  issued-WellFormed fresh new_token of_job h = record {
    slots =
        All-update
          (λ t.
            Slot db.claims t
            × ((t.id == c.task_id) ≡ true → (t.job_id == job_id && is_available t.state) ≡ true))
          (Slot (append db.claims c)) (λ t. t.id == c.task_id) take_slot
          (λ t (s, a). taken-Slot t a s) db.tasks
          (All-zip (Slot db.claims) _ db.tasks h.slots (
            exists-All (λ t. t.id == c.task_id) (λ t. t.job_id == job_id && is_available t.state)
              db.tasks (h.task_ids c.task_id) free));
    ids = λ k. ground (arith, fresh, h.ids k, h.ids c.id, count-append (has_id k) db.claims c);
    tokens = λ k. ground (
      arith,
      new_token,
      h.tokens k,
      h.tokens c.claim_token,
      count-append (has_token k) db.claims c,
    );
    task_ids = λ k. omega (
      arith,
      h.task_ids k,
      count-update_same (λ t. t.id == k) (λ t. t.id == c.task_id) take_slot (λ t. ground arith)
          db.tasks,
    );
    homes =
        All-append (HasTask (update (λ t. t.id == c.task_id) take_slot db.tasks)) db.claims c
          (All-map (HasTask db.tasks) _ (λ d has. same_tasks d.task_id d.job_id ∙ has) db.claims
            h.homes)
          (same_tasks c.task_id c.job_id
            ∙ exists-weaken (λ t. t.id == c.task_id && (t.job_id == job_id && is_available t.state))
                (λ t. t.id == c.task_id && t.job_id == c.job_id) db.tasks
                (λ t e. ground (arith, e, of_job)) free);
  }

-- The task that `next_available` gives is free.
next_available-IsFree :
    (db : Database) (job_id : ℕ) (identity : Identity) (now : ℕ) (locked : List ℕ) (t : Task)
    → next_available db job_id identity now locked ≡ some t
    → IsFree db.tasks job_id t.id
unfolding next_available
next_available-IsFree db job_id identity now locked t found =
    let test : Task → Bool = λ t.
      t.job_id == job_id
      && (is_available t.state
          && (not (exists (is_refused_by identity t.id now) db.claims)
              && not (listed t.id locked))) in
    let passed = find-test test db.tasks t found in
    find-exists test (λ u. u.id == t.id && (u.job_id == job_id && is_available u.state)) db.tasks t
      found (ground (arith, passed))

-- `issue_claim` on a task that is free.
issue_claim-WellFormed :
    (db : Database) (identity : Identity) (job_id task_id : ℕ) (task_created : Bool)
    (claim_id claim_token now : ℕ) (e : Database)
    → IsFree db.tasks job_id task_id
    → count (has_id claim_id) db.claims ≡ 0
    → count (has_token claim_token) db.claims ≡ 0
    → issue_claim db identity job_id task_id task_created claim_id claim_token now ≡ some e
    → WellFormed db
    → WellFormed e
issue_claim-WellFormed db identity job_id task_id task_created claim_id claim_token now e free fresh
      new_token h w =
    let (j, (_, written)) =
      issue_claim-issued db identity job_id task_id task_created claim_id claim_token now e h in
    let c =
      new_claim claim_id task_id job_id claim_token identity now
        (now + j.max_task_seconds * 1000) in
    subst WellFormed (sym written)
      (issued-WellFormed db job_id task_created c refl free fresh new_token refl w)

insert_on_demand_task-claims :
    (db : Database) (job_id id : ℕ) (seed : ℤ) (p : TaskClaim → Bool)
    → count p db.claims ≡ 0
    → count p (insert_on_demand_task db job_id seed id).claims ≡ 0
unfolding insert_on_demand_task
insert_on_demand_task-claims db job_id id seed p h = h

insert_on_demand_task-IsFree :
    (db : Database) (job_id id : ℕ) (seed : ℤ)
    → IsFree (insert_on_demand_task db job_id seed id).tasks job_id id
unfolding insert_on_demand_task
insert_on_demand_task-IsFree db job_id id seed = ground (
  arith,
  exists-append (λ t. t.id == id && (t.job_id == job_id && is_available t.state)) db.tasks
      (new_task id job_id seed),
)

-- A claim of a job, with fresh ids for the rows that it may insert, keeps the rows well-formed.
pub acquire_and_issue-WellFormed :
    (db : Database) (identity : Identity) (job_id : ℕ) (next_seed : Option ℤ)
    (task_id claim_id claim_token now : ℕ) (locked : List ℕ) (e : Database)
    → count (λ t. t.id == task_id) db.tasks ≡ 0
    → count (has_id claim_id) db.claims ≡ 0
    → count (has_token claim_token) db.claims ≡ 0
    → acquire_and_issue db identity job_id next_seed task_id claim_id claim_token now locked
      ≡ some e
    → WellFormed db
    → WellFormed e
unfolding acquire_and_issue
acquire_and_issue-WellFormed db identity job_id next_seed task_id claim_id claim_token now locked e
      ft fc fk h w =
    elim (Option-cases (next_available db job_id identity now locked)) [
      | inr (t, found) ↦
          issue_claim-WellFormed db identity job_id t.id false claim_id claim_token now e
            (next_available-IsFree db job_id identity now locked t found) fc fk
            (ground (arith, found, h)) w
      | inl absent ↦ elim (Option-cases next_seed) [
        | inl no_seed ↦ absurd (ground (arith, absent, no_seed, h))
        | inr (seed, is_seed) ↦
            issue_claim-WellFormed (insert_on_demand_task db job_id seed task_id) identity job_id
              task_id true claim_id claim_token now e
              (insert_on_demand_task-IsFree db job_id task_id seed)
              (insert_on_demand_task-claims db job_id task_id seed (has_id claim_id) fc)
              (insert_on_demand_task-claims db job_id task_id seed (has_token claim_token) fk)
              (ground (arith, absent, is_seed, h))
              (insert_on_demand_task-WellFormed db job_id task_id seed ft w)
      ]
    ]
