-- ===== src/Claims/Handed.antt =====
-- The statements that hand tasks out and take them back keep the rows well-formed: Claims/Writes.antt.
use birdtest.Prelude.{
  ℕ, ◌≡◌, refl, sym, Bool, Bool-cases, true, ◌&&◌, List, [], ◌∷◌, inl, inr, ltb, ◌==◌,
  if◌then◌else◌, arith, ℤ,
}
use birdtest.Claims.Rows.{
  TaskClaim, Task, Database, update, count, append, is_claimed, is_completed,
}
use birdtest.Claims.Writes.{
  is_lapsed, lapse, expired_of, release_slots, reclaim_expired_for, insert_on_demand_task, new_task,
}
use birdtest.Claims.Slots.{
  All, count-append, count-update, count-update_same, exists-none, exists-append, All-append,
  All-map, is_live_of, is_done_of, Slot, HasTask, WellFormed, updated-WellFormed,
}

module _ (lapsed : TaskClaim → Bool) (now timeout : ℕ) (claims : List TaskClaim)
    (is_open : (c : TaskClaim) → lapsed c ≡ true → is_claimed c.state ≡ true) where
  expired-Slot :
      (t : Task)
      → Slot claims t
      → Slot (update lapsed (lapse now timeout) claims) (
          if ltb 0 (expired_of lapsed claims t)
          then release_slots (expired_of lapsed claims t) t
          else t)
  expired-Slot t s =
      let fewer =
        count-update (is_live_of t.id) (λ c. lapsed c && c.task_id == t.id) lapsed
          (lapse now timeout) (λ c. ground (arith, is_open c)) claims in
      let same =
        count-update_same (is_done_of t.id) lapsed (lapse now timeout)
          (λ c. ground (arith, is_open c)) claims in
      record {
        live = ground (arith, fewer, s.live, s.done, s.one);
        done = ground (arith, same, s.done);
        one = ground (arith, s.one);
        says = ground (arith, s.says, s.one, fewer, s.live);
      }

pub reclaim_expired_for-WellFormed :
    (db : Database) (job_ids : List ℕ) (now timeout : ℕ) (locked : List ℕ)
    → WellFormed db
    → WellFormed (reclaim_expired_for db job_ids now timeout locked)
unfolding reclaim_expired_for
reclaim_expired_for-WellFormed db job_ids now timeout locked h =
    let lapsed = is_lapsed db.tasks job_ids now timeout locked in
    updated-WellFormed db db.jobs lapsed (lapse now timeout)
      (λ t. ltb 0 (expired_of lapsed db.claims t))
      (λ t. release_slots (expired_of lapsed db.claims t) t) (λ c. (refl, (refl, (refl, refl))))
      (λ t. (refl, refl)) (expired-Slot lapsed now timeout db.claims (λ c e. ground (arith, e))) h

-- No claim is of a task that is not there.
homeless :
    (tasks : List Task) (claims : List TaskClaim) (id : ℕ) (r : TaskClaim → Bool)
    → count (λ t. t.id == id) tasks ≡ 0
    → All (HasTask tasks) claims
    → count (λ c. c.task_id == id && r c) claims ≡ 0
homeless tasks [] id r fresh h = refl
homeless tasks (c ∷ cs) id r fresh (has, h) = elim (Bool-cases (c.task_id == id)) [
  | inl same ↦
      let e : c.task_id ≡ id = ground arith in
      let no_task : count (λ t. t.id == c.task_id) tasks ≡ 0 = rw e fresh in
      ground
        (arith, exists-none (λ t. t.id == c.task_id) (λ t. t.job_id == c.job_id) tasks no_task, has)
  | inr other ↦ ground (arith, homeless tasks cs id r fresh h)
]

pub insert_on_demand_task-WellFormed :
    (db : Database) (job_id id : ℕ) (seed : ℤ)
    → count (λ t. t.id == id) db.tasks ≡ 0
    → WellFormed db
    → WellFormed (insert_on_demand_task db job_id seed id)
unfolding insert_on_demand_task
insert_on_demand_task-WellFormed db job_id id seed fresh h = record {
  slots = All-append (Slot db.claims) db.tasks (new_task id job_id seed) h.slots (record {
    live = sym (homeless db.tasks db.claims id (λ c. is_claimed c.state) fresh h.homes);
    done = sym (homeless db.tasks db.claims id (λ c. is_completed c.state) fresh h.homes);
    one = omega arith;
    says = refl;
  });
  ids = h.ids;
  tokens = h.tokens;
  task_ids = λ k. ground (
    arith,
    fresh,
    h.task_ids k,
    h.task_ids id,
    count-append (λ t. t.id == k) db.tasks (new_task id job_id seed),
  );
  homes =
      All-map (HasTask db.tasks) (HasTask (append db.tasks (new_task id job_id seed)))
        (λ c has. ground (
          arith,
          has,
          exists-append (λ t. t.id == c.task_id && t.job_id == c.job_id) db.tasks
              (new_task id job_id seed),
        ))
        db.claims h.homes;
}
