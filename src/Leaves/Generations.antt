-- ===== src/Leaves/Generations.antt =====
-- The generations of a job: `LeaveConfig` of backend/src/models/job.rs and `current_generation` of
-- jobs/leave_gen.rs, over the generations that have an artifact.
use birdtest.Prelude.{
  ℕ, zero, suc, ◌+◌, ◌-◌, ◌≤◌, ◌<◌, ◌≡◌, refl, min, true, false, List, [], ◌∷◌, Option, none, some,
  ltb, leb, ◌==◌, if◌then◌else◌, length, get_elem?, get_elem?-some, arith,
}
use birdtest.Claims.Rows.{count, exists}

pub record LeaveConfig : Type 0 where
  pub target_rack_counts : List ℕ
  pub racks_per_task : ℕ

abbrev pub generation_count : LeaveConfig → ℕ
generation_count config = length config.target_rack_counts

unfoldable pub target_for : LeaveConfig → ℕ → ℕ
target_for config generation =
    elim (get_elem? config.target_rack_counts
      (min (generation - 1) (length config.target_rack_counts - 1))) [
        | none ↦ 1
        | some target ↦ target
      ]

-- Generation 0 has the artifact that the first plays with.
unfoldable pub current_generation : LeaveConfig → List ℕ → Option ℕ
current_generation config artifacts =
    let completed = count (λ generation. leb 1 generation) artifacts in
    if ltb completed (generation_count config) then some (completed + 1) else none

-- `INSERT .. ON CONFLICT DO NOTHING`.
abbrev pub insert_artifact : ℕ → List ℕ → List ℕ
insert_artifact generation artifacts =
    if exists (λ a. a == generation) artifacts then artifacts else generation ∷ artifacts

-- A job from its creation, after each of its first `n` generations to be current has closed.
unfoldable pub closed_in_turn : LeaveConfig → ℕ → List ℕ
unfolding current_generation
closed_in_turn config zero = 0 ∷ []
closed_in_turn config (suc n) =
    let artifacts = closed_in_turn config n in
    elim (current_generation config artifacts) [
      | none ↦ artifacts
      | some generation ↦ insert_artifact generation artifacts
    ]

record Turn (config : LeaveConfig) (n : ℕ) : Type 0 where
  done : count (λ a. leb 1 a) (closed_in_turn config n) ≡ n
  beyond : (m : ℕ) → n < m → exists (λ a. a == m) (closed_in_turn config n) ≡ false
  newest : exists (λ a. a == n) (closed_in_turn config n) ≡ true

turns : (config : LeaveConfig) (n : ℕ) → n ≤ generation_count config → Turn config n
unfolding closed_in_turn current_generation
turns config zero h = record { done = refl; beyond = λ m lt. ground (arith, lt); newest = refl }
turns config (suc n) h =
    let t = turns config n (omega (arith, h)) in
    record {
      done = ground (arith, h, t.done, t.beyond (suc n));
      beyond = λ m lt. ground (arith, h, t.done, t.beyond (suc n), t.beyond m, lt);
      newest = ground (arith, h, t.done, t.beyond (suc n));
    }

-- A job runs its generations in order, one for each of its targets, and then is finished: while `n` of them have
-- closed and there are more targets, the next is `n + 1`, with the target at its place, and the generation before
-- it has the artifact that it plays with.
pub current_generation-closed_in_turn :
    (config : LeaveConfig) (n : ℕ)
    → n < generation_count config
    → (current_generation config (closed_in_turn config n) ≡ some (n + 1))
      × (get_elem? config.target_rack_counts n ≡ some (target_for config (n + 1)))
      × (exists (λ a. a == n) (closed_in_turn config n) ≡ true)
      × (current_generation config (closed_in_turn config (generation_count config)) ≡ none)
unfolding current_generation target_for
current_generation-closed_in_turn config n h =
    let t = turns config n (omega (arith, h)) in
    let last_turn = turns config (generation_count config) (omega arith) in
    let (target, found) = get_elem?-some config.target_rack_counts n h in
    (ground (arith, h, t.done), ground (arith, h, found), t.newest, ground (arith, last_turn.done))
