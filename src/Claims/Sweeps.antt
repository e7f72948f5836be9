-- ===== src/Claims/Sweeps.antt =====
-- What a sweep takes back, and what it leaves: Claims/Writes.antt, `reclaim_expired_for`.
use birdtest.Prelude.{
  ℕ, ◌+◌, ◌≤◌, ◌≡◌, refl, sym, ap, ◌∙◌, subst, Bool, Bool-cases, true, false, not, ◌&&◌, List, [],
  ◌∷◌, some, inl, inr, ltb, ◌==◌, if◌then◌else◌, arith,
}
use birdtest.Claims.Rows.{
  TaskClaim, Task, Database, Identity, update, exists, count, find, is_claimed,
}
use birdtest.Claims.Writes.{release_slots, reclaim_expired_for, is_lapsed, expired_of, lapse}
use birdtest.Claims.Requests.{heartbeat, is_open_for}
use birdtest.Claims.Slots.{
  All, exists-weaken, find-test, All-zip, All-update, All-map, is_live_of, Slot, WellFormed,
}
use birdtest.Claims.Rows.{task_available, task_completed}
use birdtest.Claims.Writes.{is_past_deadline, deadline_grace, listed}
use birdtest.Claims.Handed.{reclaim_expired_for-WellFormed}

find-update :
    (p w : TaskClaim → Bool) (f : TaskClaim → TaskClaim) (xs : List TaskClaim) (c : TaskClaim)
    → ((x : TaskClaim) → p x ≡ false → p (if w x then f x else x) ≡ false)
    → p (if w c then f c else c) ≡ true
    → find p xs ≡ some c
    → find p (update w f xs) ≡ some (if w c then f c else c)
find-update p w f [] c h k e = absurd (ground (arith, e))
find-update p w f (x ∷ xs) c h k e = elim (Bool-cases (p x)) [
  | inl here ↦
      let same : c ≡ x = ground (arith, here, e) in
      let moved : p (if w x then f x else x) ≡ true =
        subst (λ c. p (if w c then f c else c) ≡ true) same k in
      subst (λ c. find p (update w f (x ∷ xs)) ≡ some (if w c then f c else c)) (sym same)
        (ground (arith, moved))
  | inr there ↦ ground (arith, h x there, find-update p w f xs c h k (ground (arith, there, e)))
]

-- A claim that beats stays its worker's: a sweep of any jobs finds it open, with the beat, until the timeout
-- after the beat, and until its deadline and the grace have passed.
pub heartbeat-reclaim :
    (db : Database) (claim_token : ℕ) (identity : Identity) (now : ℕ) (locked : List ℕ)
    (c : TaskClaim) (job_ids : List ℕ) (later timeout : ℕ) (locked_later : List ℕ)
    → find (is_open_for claim_token identity) db.claims ≡ some c
    → listed c.id locked ≡ false
    → later ≤ now + timeout
    → later ≤ c.deadline_at + deadline_grace
    → find
        (is_open_for claim_token identity)
        (reclaim_expired_for
          (heartbeat db claim_token identity now locked)
          job_ids
          later
          timeout
          locked_later).claims
      ≡ some (record c { last_heartbeat_at = some now })
unfolding heartbeat reclaim_expired_for
heartbeat-reclaim db claim_token identity now locked c job_ids later timeout locked_later found free
      in_time in_deadline =
    let passed = find-test (is_open_for claim_token identity) db.claims c found in
    let beat : TaskClaim = record c { last_heartbeat_at = some now } in
    let w : TaskClaim → Bool =
      λ c. is_open_for claim_token identity c && not (listed c.id locked) in
    let lapsed = is_lapsed db.tasks job_ids later timeout locked_later in
    let beaten : find (is_open_for claim_token identity)
          (heartbeat db claim_token identity now locked).claims
        ≡ some beat =
      find-update (is_open_for claim_token identity) w
        (λ c. record c { last_heartbeat_at = some now }) db.claims c (λ x e. ground (arith, e))
        (ground (arith, passed)) found
      ∙ ground (arith, passed, free) in
    let spared : lapsed beat ≡ false = ground (arith, in_time, in_deadline) in
    find-update (is_open_for claim_token identity) lapsed (lapse later timeout)
      (heartbeat db claim_token identity now locked).claims beat (λ x e. ground (arith, e))
      (ground (arith, passed, spared)) beaten
    ∙ ground (arith, spared)

All-present :
    (R : Task → Task → Bool)
    → ((t : Task) → R t t ≡ true)
    → (tasks : List Task) → All (λ t. exists (R t) tasks ≡ true) tasks
All-present R h [] = tt
All-present R h (t ∷ ts) = (
  ground (arith, h t),
  All-map (λ u. exists (R u) ts ≡ true) (λ u. exists (R u) (t ∷ ts) ≡ true)
      (λ u e. ground (arith, e)) ts (All-present R h ts),
)

count-all_moved :
    (p w : TaskClaim → Bool) (f : TaskClaim → TaskClaim) (xs : List TaskClaim)
    → All (λ c. p (if w c then f c else c) ≡ false) xs
    → count p (update w f xs) ≡ 0
count-all_moved p w f [] a = refl
count-all_moved p w f (x ∷ xs) (h, a) = ground (arith, h, count-all_moved p w f xs a)

module _ (tasks : List Task) (job_ids : List ℕ) (now timeout : ℕ) (t : Task)
    (there : exists (λ u. u.id == t.id && u.job_id == t.job_id) tasks ≡ true)
    (covered : listed t.job_id job_ids ≡ true) where
  due-lapses :
      (c : TaskClaim)
      → (is_claimed c.state ≡ true → is_past_deadline now c ≡ true)
      → is_live_of t.id
          (if is_lapsed tasks job_ids now timeout [] c then lapse now timeout c else c)
        ≡ false
  due-lapses c due = elim (Bool-cases (c.task_id == t.id)) [
    | inr other ↦ ground (arith, other)
    | inl same ↦
        let e : c.task_id ≡ t.id = ground arith in
        let known : exists (λ u. u.id == t.id && listed u.job_id job_ids) tasks ≡ true =
          exists-weaken (λ u. u.id == t.id && u.job_id == t.job_id)
            (λ u. u.id == t.id && listed u.job_id job_ids) tasks
            (λ u k.
              let job : u.job_id ≡ t.job_id = ground (arith, k) in
              ground (arith, k, ap (λ j. listed j job_ids) job, covered))
            there in
        let found : exists (λ u. u.id == c.task_id && listed u.job_id job_ids) tasks ≡ true =
          rw e known in
        ground (arith, due, found)
  ]

-- No task is lost with its worker: once the deadlines and the graces of the open claims have passed, a sweep
-- of the jobs that finds no claim locked leaves every task of theirs either completed or available again, with
-- no live claim.
pub reclaim_expired_for-frees :
    (db : Database) (job_ids : List ℕ) (now timeout : ℕ)
    → WellFormed db
    → All (λ c. is_claimed c.state ≡ true → is_past_deadline now c ≡ true) db.claims
    → All
        (λ t.
          listed t.job_id job_ids ≡ true
          → (t.active_claim_count ≡ 0)
            × (t.state ≡ (if ltb 0 t.accepted_count then task_completed else task_available)))
        (reclaim_expired_for db job_ids now timeout []).tasks
unfolding reclaim_expired_for
reclaim_expired_for-frees db job_ids now timeout h due =
    let after = reclaim_expired_for-WellFormed db job_ids now timeout [] h in
    let lapsed = is_lapsed db.tasks job_ids now timeout [] in
    let there =
      All-update _ (λ t. exists (λ u. u.id == t.id && u.job_id == t.job_id) db.tasks ≡ true)
        (λ t. ltb 0 (expired_of lapsed db.claims t))
        (λ t. release_slots (expired_of lapsed db.claims t) t) (λ t e. ground (arith, e)) db.tasks
        (All-present (λ t u. u.id == t.id && u.job_id == t.job_id) (λ t. ground arith) db.tasks) in
    All-map _ _
      (λ t (present, s) covered.
        let idle = count-all_moved (is_live_of t.id) lapsed (lapse now timeout) db.claims (
          All-map _ _ (λ c. due-lapses db.tasks job_ids now timeout t present covered c) db.claims
            due) in
        (ground (arith, s.live, idle), ground (arith, s.says, s.live, idle)))
      (reclaim_expired_for db job_ids now timeout []).tasks
      (All-zip _ (Slot (reclaim_expired_for db job_ids now timeout []).claims)
        (reclaim_expired_for db job_ids now timeout []).tasks there after.slots)
