-- ===== src/Claims/Rows.antt =====
-- backend/migrations/0001_initial.sql: the rows of `task_claims`, `tasks` and `jobs`, in the order they were
-- inserted, and the statements on them. An id, a token or an identity is a number, a time is in
-- milliseconds. A row keeps the columns that the claim path reads or writes.
use birdtest.Prelude.{
  ℕ, ◌+◌, Bool, true, false, ◌||◌, List, [], ◌∷◌, Option, none, some, ◌==◌, if◌then◌else◌, ℤ,
}

pub data ClaimState : Type 0 where
  claimed completed abandoned declined : ClaimState

pub data ClaimOverrun : Type 0 where
  pending counted : ClaimOverrun

pub data TaskState : Type 0 where
  task_available task_claimed task_completed : TaskState

pub data JobStatus : Type 0 where
  active inactive job_completed : JobStatus

-- The owner of a claim: an account, or a worker without one.
pub data Identity : Type 0 where
  user anonymous : ℕ → Identity

pub record TaskClaim : Type 0 where
  pub id : ℕ
  pub task_id : ℕ
  pub job_id : ℕ
  pub claim_token : ℕ
  pub state : ClaimState
  pub claimed_by : Identity
  pub claimed_at : ℕ
  pub deadline_at : ℕ
  pub overrun : Option ClaimOverrun
  pub last_heartbeat_at : Option ℕ
  pub completed_at : Option ℕ
  pub movegens : ℕ

pub record Task : Type 0 where
  pub id : ℕ
  pub job_id : ℕ
  pub seed : ℤ
  pub state : TaskState
  pub accepted_count : ℕ
  pub active_claim_count : ℕ
  pub completed_at : Option ℕ

pub record Job : Type 0 where
  pub id : ℕ
  pub status : JobStatus
  pub allocation : ℕ
  pub max_task_seconds : ℕ
  pub claims_issued : ℕ
  pub tasks_total : ℕ
  pub tasks_completed : ℕ
  pub movegens : ℕ
  pub compute_ms : ℕ
  pub time_limit_declines : ℕ
  pub time_limit_streak : ℕ
  pub time_limit_streak_since : Option ℕ
  pub last_completed_at : Option ℕ

pub record Database : Type 0 where
  pub claims : List TaskClaim
  pub tasks : List Task
  pub jobs : List Job

module _ {A : Type 0} where
  -- `UPDATE .. SET f WHERE p`.
  abbrev pub update : (A → Bool) → (A → A) → List A → List A
  update p f [] = []
  update p f (x ∷ xs) = (if p x then f x else x) ∷ update p f xs

  abbrev pub exists : (A → Bool) → List A → Bool
  exists p [] = false
  exists p (x ∷ xs) = p x || exists p xs

  -- `COUNT(*) FILTER (WHERE p)`.
  abbrev pub count : (A → Bool) → List A → ℕ
  count p [] = 0
  count p (x ∷ xs) = (if p x then 1 else 0) + count p xs

  -- The first row that a query finds.
  abbrev pub find : (A → Bool) → List A → Option A
  find p [] = none
  find p (x ∷ xs) = let rest = find p xs in if p x then some x else rest

  -- `INSERT`.
  abbrev pub append : List A → A → List A
  append [] y = y ∷ []
  append (x ∷ xs) y = x ∷ append xs y

abbrev pub is_claimed : ClaimState → Bool
is_claimed claimed = true
is_claimed _ = false

abbrev pub is_completed : ClaimState → Bool
is_completed completed = true
is_completed _ = false

abbrev pub is_declined : ClaimState → Bool
is_declined declined = true
is_declined _ = false

abbrev pub is_available : TaskState → Bool
is_available task_available = true
is_available _ = false

abbrev pub is_active : JobStatus → Bool
is_active active = true
is_active _ = false

abbrev pub is_pending : Option ClaimOverrun → Bool
is_pending (some pending) = true
is_pending _ = false

abbrev pub same_identity : Identity → Identity → Bool
same_identity (user a) (user b) = a == b
same_identity (anonymous a) (anonymous b) = a == b
same_identity _ _ = false

-- `COALESCE(last_heartbeat_at, claimed_at)`.
abbrev pub last_seen : TaskClaim → ℕ
last_seen c = elim c.last_heartbeat_at [ none ↦ c.claimed_at | some at ↦ at ]
