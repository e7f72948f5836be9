-- ===== src/Leaves/Rows.antt =====
-- backend/migrations/0001_initial.sql: the rows of one generation, `leave_rack_progress`,
-- `leave_rack_staging`, `leave_requests` with their tasks, `leave_selection_cursors`,
-- `leave_generation_progress`, `leave_generation_transitions` and `leave_generation_artifacts`. A rack is the
-- number of its place in the primary key's order, from 1: the empty text, which sorts before every rack, is 0.
-- The sums of equity are left out. A task is `task_claimed` exactly while it has an open claim
-- (Claims/Slots.antt, `Slot`), and stands for that claim.
use birdtest.Prelude.{
  ℕ, ◌+◌, Bool, true, false, not, ◌&&◌, List, [], ◌∷◌, Option, none, some, ltb, leb, if◌then◌else◌,
  length,
}
use birdtest.Claims.Rows.{TaskState, task_claimed, count, exists}

pub record RackProgress : Type 0 where
  pub rack : ℕ
  pub occurrence_count : ℕ

-- `RackOccurrence`: a rack and how often it was drawn.
pub record Occurrence : Type 0 where
  pub rack : ℕ
  pub drawn : ℕ

pub record Staged : Type 0 where
  pub task_id : ℕ
  pub racks : List Occurrence

pub record LeaveTask : Type 0 where
  pub id : ℕ
  pub forced_racks : List ℕ
  pub state : TaskState

pub record GenerationProgress : Type 0 where
  pub racks_total : ℕ
  pub racks_at_target : ℕ
  pub merged : Bool

pub record Transition : Type 0 where
  pub started_at : ℕ
  pub attempts : ℕ
  pub completed : Bool

-- `clock` is the database's clock, in milliseconds; `cursor_rack` is `none` for no row and `some none` for a row
-- with no rack; `previous_artifact` says that the generation before has its artifact, and `closed` that this
-- one has.
pub record Generation : Type 0 where
  pub clock : ℕ
  pub racks : List RackProgress
  pub staging : List Staged
  pub tasks : List LeaveTask
  pub cursor_rack : Option (Option ℕ)
  pub summary : Option GenerationProgress
  pub transition : Option Transition
  pub previous_artifact : Bool
  pub closed : Bool

-- What a generation reads of `LeaveConfig`: its target is `target_for generation`.
pub record GenerationConfig : Type 0 where
  pub generation : ℕ
  pub target : ℕ
  pub racks_per_task : ℕ

-- What the statements take of Postgres: `hashtext`, masked to 31 bits, and the order in which
-- `leave_rack_progress_pick_idx` gives the rows of a generation.
pub record Postgres : Type 0 where
  pub hashtext : ℕ → ℕ
  pub by_count : List RackProgress → List RackProgress

abbrev pub is_open_task : LeaveTask → Bool
is_open_task t = elim t.state [ task_claimed ↦ true | _ ↦ false ]

abbrev pub below_target : GenerationConfig → RackProgress → Bool
below_target config p = ltb p.occurrence_count config.target

abbrev pub claims_in_flight : Generation → ℕ
claims_in_flight g = count is_open_task g.tasks

abbrev pub anything_staged : Generation → Bool
anything_staged g = elim g.staging [ [] ↦ false | _ ∷ _ ↦ true ]

abbrev pub any_rack_below_target : GenerationConfig → Generation → Bool
any_rack_below_target config g = exists (below_target config) g.racks

abbrev pub universe_exists : Generation → Bool
universe_exists g = elim g.racks [ [] ↦ false | _ ∷ _ ↦ true ]

-- `TRANSITION_TAKEOVER_AFTER`.
abbrev pub transition_takeover_after : ℕ
transition_takeover_after = 1800000

-- `started_at >= now() - interval '30 minutes'`.
abbrev pub is_recent : ℕ → Transition → Bool
is_recent now t = leb now (t.started_at + transition_takeover_after)

abbrev pub transition_in_progress : Generation → Bool
transition_in_progress g = elim g.transition [
  | none ↦ false
  | some t ↦ not t.completed && is_recent g.clock t
]

-- `seed_generation`, from the racks of the distribution in the order of the primary key.
abbrev pub unplayed : List ℕ → List RackProgress
unplayed [] = []
unplayed (r ∷ rs) = record { rack = r; occurrence_count = 0 } ∷ unplayed rs

unfoldable pub seed_generation : List ℕ → Generation → Generation
seed_generation universe g = if universe_exists g then g else record g {
  racks = unplayed universe;
  summary = some (elim g.summary [
    | none ↦ record { racks_total = length universe; racks_at_target = 0; merged = true }
    | some s ↦ record s { racks_total = length universe; merged = true }
  ]);
}

-- `close_generation`; the owner's transition has no row any more after a purge.
unfoldable pub close_generation : Generation → Generation
close_generation g = elim g.transition [
  | none ↦ g
  | some t ↦ if t.completed then g else record g {
    transition = some (record t { completed = true });
    closed = true;
    cursor_rack = none;
  }
]

-- The hand-back of `run_leave_generation_transition` after a failure, and of `release_orphaned_transitions`.
unfoldable pub release_transition : Generation → Generation
release_transition g = elim g.transition [
  | none ↦ g
  | some t ↦ if t.completed then g else record g { transition = some (record t { started_at = 0 }) }
]
