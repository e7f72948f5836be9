-- ===== src/Leaves/Steps.antt =====
-- What happens to a generation, in any order: claims, each with what commits between its statements, other
-- requests, merges, the seeding, and its transition's end or failure. A transition closes the generation only
-- while no other claim may take it over: `TRANSITION_TAKEOVER_AFTER` is far longer than one takes.
use birdtest.Prelude.{ℕ, ◌≤◌, ◌≡◌, Bool, true, false, List, [], ◌∷◌, none, ltb, ◌&&◌, ◌==◌}
use birdtest.Claims.Rows.{count}
use birdtest.Leaves.Rows.{
  Generation, GenerationConfig, Postgres, transition_in_progress, seed_generation, close_generation,
  release_transition,
}
use birdtest.Leaves.Events.{Event, happen}
use birdtest.Leaves.Selection.{Gaps}
use birdtest.Leaves.Acquire.{generate_leave_gen}

-- The racks of a primary key, in its order.
abbrev pub is_ascending : ℕ → List ℕ → Bool
is_ascending above [] = true
is_ascending above (r ∷ rs) = ltb above r && is_ascending r rs

-- `Allowed` says which rows a claim may find locked, and what may commit between its statements.
pub data Step (Allowed : List ℕ → Gaps → Type 0) (pg : Postgres) (config : GenerationConfig)
    (g e : Generation) : Type 0 where
  claims :
      (locked : List ℕ) (task_id : ℕ) (gaps : Gaps)
      → Allowed locked gaps
      → count (λ t. t.id == task_id) g.tasks ≡ 0
      → e ≡ (generate_leave_gen pg config locked task_id gaps g).0
      → Step Allowed pg config g e
  commits : (v : Event) → e ≡ happen pg config v g → Step Allowed pg config g e
  seeds :
      (universe : List ℕ)
      → is_ascending 0 universe ≡ true
      → e ≡ seed_generation universe g
      → Step Allowed pg config g e
  closes : transition_in_progress g ≡ true → e ≡ close_generation g → Step Allowed pg config g e
  fails : e ≡ release_transition g → Step Allowed pg config g e
  passes : (now : ℕ) → g.clock ≤ now → e ≡ record g { clock = now } → Step Allowed pg config g e

pub data Reach (Allowed : List ℕ → Gaps → Type 0) (pg : Postgres) (config : GenerationConfig)
    (g : Generation) : Generation → Type 0 where
  here : Reach Allowed pg config g g
  next :
      {e f : Generation}
      → Reach Allowed pg config g e
      → Step Allowed pg config e f
      → Reach Allowed pg config g f

-- A generation that no claim has asked for work in.
abbrev pub new_generation : ℕ → Bool → Generation
new_generation now previous_artifact = record {
  clock = now;
  racks = [];
  staging = [];
  tasks = [];
  cursor_rack = none;
  summary = none;
  transition = none;
  previous_artifact = previous_artifact;
  closed = false;
}
