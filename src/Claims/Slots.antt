-- ===== src/Claims/Slots.antt =====
-- Counts of rows under the statements, and the slot of a task: what its columns say of its claims.
use birdtest.Prelude.{
  ℕ, ◌+◌, ◌≤◌, ◌≡◌, refl, ap, ◌∙◌, subst, Bool, Bool-cases, true, false, ◌&&◌, ◌||◌, List, [], ◌∷◌,
  some, inl, inr, ltb, ◌==◌, if◌then◌else◌, arith,
}
use birdtest.Claims.Rows.{
  TaskState, task_available, task_claimed, task_completed, TaskClaim, Task, Job, Database, update,
  exists, count, find, append, is_claimed, is_completed,
}

abbrev pub bit : Bool → ℕ
bit b = if b then 1 else 0

module _ {A : Type 0} where
  abbrev pub All : (A → Type 0) → List A → Type 0
  All P [] = Unit
  All P (x ∷ xs) = P x × All P xs

  pub count-append :
      (p : A → Bool) (xs : List A) (y : A) → count p (append xs y) ≡ count p xs + bit (p y)
  count-append p [] y = omega arith
  count-append p (x ∷ xs) y = omega (arith, count-append p xs y)

  -- A statement moves rows out of the ones counted by `p`, those that `q` counted before.
  pub count-update :
      (p q w : A → Bool) (f : A → A)
      → ((x : A) → bit (p (if w x then f x else x)) + bit (q x) ≡ bit (p x))
      → (xs : List A) → count p (update w f xs) + count q xs ≡ count p xs
  count-update p q w f h [] = refl
  count-update p q w f h (x ∷ xs) = omega (arith, h x, count-update p q w f h xs)

  -- Or into them.
  pub count-update_in :
      (p q w : A → Bool) (f : A → A)
      → ((x : A) → bit (p (if w x then f x else x)) ≡ bit (p x) + bit (q x))
      → (xs : List A) → count p (update w f xs) ≡ count p xs + count q xs
  count-update_in p q w f h [] = refl
  count-update_in p q w f h (x ∷ xs) = omega (arith, h x, count-update_in p q w f h xs)

  pub exists-count : (p : A → Bool) (xs : List A) → exists p xs ≡ ltb 0 (count p xs)
  exists-count p [] = refl
  exists-count p (x ∷ xs) = ground (arith, exists-count p xs)

  pub count-update_same :
      (p w : A → Bool) (f : A → A)
      → ((x : A) → bit (p (if w x then f x else x)) ≡ bit (p x))
      → (xs : List A) → count p (update w f xs) ≡ count p xs
  count-update_same p w f h [] = refl
  count-update_same p w f h (x ∷ xs) = omega (arith, h x, count-update_same p w f h xs)

  pub exists-update_same :
      (p w : A → Bool) (f : A → A)
      → ((x : A) → p (if w x then f x else x) ≡ p x)
      → (xs : List A) → exists p (update w f xs) ≡ exists p xs
  exists-update_same p w f h [] = refl
  exists-update_same p w f h (x ∷ xs) = ground (arith, h x, exists-update_same p w f h xs)

  pub exists-append :
      (p : A → Bool) (xs : List A) (y : A) → exists p (append xs y) ≡ (exists p xs || p y)
  exists-append p [] y = ground arith
  exists-append p (x ∷ xs) y = ground (arith, exists-append p xs y)

  pub exists-weaken :
      (p q : A → Bool) (xs : List A)
      → ((x : A) → p x ≡ true → q x ≡ true)
      → exists p xs ≡ true
      → exists q xs ≡ true
  exists-weaken p q [] h e = e
  exists-weaken p q (x ∷ xs) h e = ground (arith, h x, e, exists-weaken p q xs h)

  pub find-test : (p : A → Bool) (xs : List A) (x : A) → find p xs ≡ some x → p x ≡ true
  find-test p [] x e = ground arith
  find-test p (y ∷ ys) x e = elim (Bool-cases (p y)) [
    | inl here ↦ let same : y ≡ x = ground arith in subst (λ z. p z ≡ true) same here
    | inr there ↦ find-test p ys x (ground arith)
  ]

  -- A row that is found is counted.
  pub find-count :
      (p r : A → Bool) (xs : List A) (x : A) → find p xs ≡ some x → bit (r x) ≤ count r xs
  find-count p r [] x e = ground arith
  find-count p r (y ∷ ys) x e = elim (Bool-cases (p y)) [
    | inl here ↦
        let same : y ≡ x = ground arith in
        subst (λ z. bit (r z) ≤ count r (y ∷ ys)) same (omega arith)
    | inr there ↦ let rest = find-count p r ys x (ground arith) in omega (arith, rest)
  ]

  pub exists-none :
      (p r : A → Bool) (xs : List A) → count p xs ≡ 0 → exists (λ y. p y && r y) xs ≡ false
  exists-none p r [] h = refl
  exists-none p r (y ∷ ys) h = ground (arith, exists-none p r ys)

  -- A row that is found is there.
  pub find-exists :
      (p r : A → Bool) (xs : List A) (x : A) → find p xs ≡ some x → r x ≡ true → exists r xs ≡ true
  find-exists p r xs x e h = ground (arith, h, exists-count r xs, find-count p r xs x e)

  pub All-none :
      (p : A → Bool) (Q : A → Type 0) (xs : List A)
      → count p xs ≡ 0
      → All (λ y. p y ≡ true → Q y) xs
  All-none p Q [] h = tt
  All-none p Q (y ∷ ys) h = ((λ e. absurd (ground (arith, e))), All-none p Q ys (ground arith))

  -- Where `key` counts one row at most, what holds of some row that it counts holds of all of them.
  pub exists-All :
      (key r : A → Bool) (xs : List A)
      → count key xs ≤ 1
      → exists (λ y. key y && r y) xs ≡ true
      → All (λ y. key y ≡ true → r y ≡ true) xs
  exists-All key r [] h e = tt
  exists-All key r (y ∷ ys) h e = elim (Bool-cases (key y)) [
    | inl here ↦ (
      (λ k. ground (arith, exists-none key r ys)),
      All-none key (λ z. r z ≡ true) ys (ground arith),
    )
    | inr there ↦ ((λ k. ground (arith, k)), exists-All key r ys (ground arith) (ground arith))
  ]

  pub All-zip : (P Q : A → Type 0) (xs : List A) → All P xs → All Q xs → All (λ x. P x × Q x) xs
  All-zip P Q [] a b = tt
  All-zip P Q (x ∷ xs) (px, a) (qx, b) = ((px, qx), All-zip P Q xs a b)

  pub count-none : (p r : A → Bool) (xs : List A) → count p xs ≡ 0 → count (λ y. p y && r y) xs ≡ 0
  count-none p r [] h = refl
  count-none p r (y ∷ ys) h = ground (arith, count-none p r ys)

  -- Where `key` counts one row at most and a row that it counts is found, the rows that it counts with a
  -- further test are that one or none.
  pub count-found :
      (p key r : A → Bool) (xs : List A) (x : A)
      → find p xs ≡ some x
      → key x ≡ true
      → count key xs ≤ 1
      → count (λ y. key y && r y) xs ≡ bit (r x)
  count-found p key r [] x e k h = ground arith
  count-found p key r (y ∷ ys) x e k h = elim (Bool-cases (p y)) [
    | inl here ↦
        let same : y ≡ x = ground arith in
        let keyed : key y ≡ true = ap key same ∙ k in
        let value = ap r same in ground (arith, keyed, value, count-none key r ys)
    | inr there ↦
        let later : find p ys ≡ some x = ground arith in
        ground (arith, find-count p key ys x later, k, count-found p key r ys x later k)
  ]

  pub All-append : (P : A → Type 0) (xs : List A) (y : A) → All P xs → P y → All P (append xs y)
  All-append P [] y h hy = (hy, tt)
  All-append P (x ∷ xs) y (hx, h) hy = (hx, All-append P xs y h hy)

  pub All-update :
      (P Q : A → Type 0) (w : A → Bool) (f : A → A)
      → ((x : A) → P x → Q (if w x then f x else x))
      → (xs : List A) → All P xs
      → All Q (update w f xs)
  All-update P Q w f h [] a = tt
  All-update P Q w f h (x ∷ xs) (px, a) = (h x px, All-update P Q w f h xs a)

  pub All-map : (P Q : A → Type 0) → ((x : A) → P x → Q x) → (xs : List A) → All P xs → All Q xs
  All-map P Q h [] a = tt
  All-map P Q h (x ∷ xs) (px, a) = (h x px, All-map P Q h xs a)

-- The claims that hold a task, and those that completed it.
abbrev pub is_live_of : ℕ → TaskClaim → Bool
is_live_of k c = c.task_id == k && is_claimed c.state

abbrev pub is_done_of : ℕ → TaskClaim → Bool
is_done_of k c = c.task_id == k && is_completed c.state

abbrev pub state_of : ℕ → ℕ → TaskState
state_of accepted live =
    if ltb 0 accepted then task_completed else if ltb 0 live then task_claimed else task_available

-- A task has one slot: one claim holds it, or one claim completed it, and its columns say which.
pub record Slot (claims : List TaskClaim) (t : Task) : Type 0 where
  pub live : t.active_claim_count ≡ count (is_live_of t.id) claims
  pub done : t.accepted_count ≡ count (is_done_of t.id) claims
  pub one : t.active_claim_count + t.accepted_count ≤ 1
  pub says : t.state ≡ state_of t.accepted_count t.active_claim_count

abbrev pub has_id : ℕ → TaskClaim → Bool
has_id k c = c.id == k

abbrev pub has_token : ℕ → TaskClaim → Bool
has_token k c = c.claim_token == k

-- The claim's task is there, of the claim's job.
abbrev pub HasTask : List Task → TaskClaim → Type 0
HasTask tasks c = exists (λ t. t.id == c.task_id && t.job_id == c.job_id) tasks ≡ true

pub record WellFormed (db : Database) : Type 0 where
  pub slots : All (Slot db.claims) db.tasks
  pub ids : (k : ℕ) → count (has_id k) db.claims ≤ 1
  pub tokens : (k : ℕ) → count (has_token k) db.claims ≤ 1
  pub task_ids : (k : ℕ) → count (λ t. t.id == k) db.tasks ≤ 1
  pub homes : All (HasTask db.tasks) db.claims

abbrev pub KeepsClaims : (TaskClaim → TaskClaim) → Type 0
KeepsClaims f =
    (c : TaskClaim)
    → ((f c).id ≡ c.id)
      × (((f c).task_id ≡ c.task_id)
          × (((f c).job_id ≡ c.job_id) × ((f c).claim_token ≡ c.claim_token)))

abbrev pub KeepsTasks : (Task → Task) → Type 0
KeepsTasks f = (t : Task) → ((f t).id ≡ t.id) × ((f t).job_id ≡ t.job_id)

-- An update of claims and tasks that moves none of them is left with the slots to look at.
pub updated-WellFormed :
    (db : Database) (jobs : List Job) (w : TaskClaim → Bool) (f : TaskClaim → TaskClaim)
    (v : Task → Bool) (g : Task → Task)
    → KeepsClaims f
    → KeepsTasks g
    → ((t : Task) → Slot db.claims t → Slot (update w f db.claims) (if v t then g t else t))
    → WellFormed db
    → WellFormed
        (record { claims = update w f db.claims; tasks = update v g db.tasks; jobs = jobs })
updated-WellFormed db jobs w f v g keeps_claims keeps_tasks slot h = record {
  slots = All-update (Slot db.claims) (Slot (update w f db.claims)) v g slot db.tasks h.slots;
  ids = λ k. omega (
    arith,
    h.ids k,
    count-update_same (has_id k) w f (λ c. ground (arith, keeps_claims c)) db.claims,
  );
  tokens = λ k. omega (
    arith,
    h.tokens k,
    count-update_same (has_token k) w f (λ c. ground (arith, keeps_claims c)) db.claims,
  );
  task_ids = λ k. omega (
    arith,
    h.task_ids k,
    count-update_same (λ t. t.id == k) v g (λ t. ground (arith, keeps_tasks t)) db.tasks,
  );
  homes =
      All-update (HasTask db.tasks) (HasTask (update v g db.tasks)) w f
        (λ c has.
          let same : exists (λ t. t.id == c.task_id && t.job_id == c.job_id) (update v g db.tasks)
              ≡ true =
            exists-update_same (λ t. t.id == c.task_id && t.job_id == c.job_id) v g
              (λ t. ground (arith, keeps_tasks t)) db.tasks
            ∙ has in
          ground (arith, same, keeps_claims c))
        db.claims h.homes;
}
