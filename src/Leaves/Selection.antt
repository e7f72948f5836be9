-- ===== src/Leaves/Selection.antt =====
-- backend/src/jobs/leave_gen.rs: `next_step` and the selections under it. Each statement sees what has
-- committed by its own moment: `gaps i` is what commits just before the i-th read, 0 for the read of a lap that
-- goes on, 1 to 4 for those of `at_boundary` and the start of a lap, 4 to 7 for those of
-- `furthest_below_target`. The writes are on rows that no event touches.
use birdtest.Prelude.{
  ℕ, suc, ◌+◌, ◌-◌, ◌*◌, Bool, false, not, ◌&&◌, ◌||◌, List, [], ◌∷◌, Option, none, some, ltb, leb,
  ◌==◌, if◌then◌else◌, length, take,
}
use birdtest.Claims.Rows.{exists}
use birdtest.Leaves.Rows.{
  RackProgress, Staged, LeaveTask, Generation, GenerationConfig, Postgres, is_open_task,
  below_target, claims_in_flight, anything_staged, any_rack_below_target, is_recent,
}
use birdtest.Leaves.Events.{Event, happen_all}

-- `TransitionInProgress` and `NoWorkYet` carry nothing here, and `Finished` is `generate_leave_gen`'s own.
pub data LeaveGenStep : Type 0 where
  dispatch : List ℕ → LeaveGenStep
  start_transition in_progress needs_merge no_work_yet : LeaveGenStep

pub data Selected : Type 0 where
  selected_racks : List ℕ → Selected
  selected_step : LeaveGenStep → Selected

abbrev pub Gaps : Type 0
Gaps = ℕ → List Event

abbrev pub racks_where : (RackProgress → Bool) → List RackProgress → List ℕ
racks_where p [] = []
racks_where p (x ∷ xs) = let rest = racks_where p xs in if p x then x.rack ∷ rest else rest

-- Read with one rack more than a task holds.
unfoldable pub racks_after : GenerationConfig → ℕ → Generation → List ℕ × Bool
racks_after config after g =
    let found =
      take (config.racks_per_task + 1)
        (racks_where (λ p. ltb after p.rack && below_target config p) g.racks) in
    (take config.racks_per_task found, ltb config.racks_per_task (length found))

-- `racks.last()`, bound to a column that may be NULL.
abbrev pub last : List ℕ → Option ℕ
last [] = none
last (r ∷ rs) = elim (last rs) [ none ↦ some r | some s ↦ some s ]

-- Claims in flight are read before what is staged.
unfoldable pub nothing_to_hand_out :
    Postgres → GenerationConfig → Gaps → ℕ → Generation → Generation × Option LeaveGenStep
nothing_to_hand_out pg config gaps i g =
    let first = happen_all pg config (gaps i) g in
    let second = happen_all pg config (gaps (suc i)) first in
    if ltb 0 (claims_in_flight first)
    then (first, some no_work_yet)
    else if anything_staged second
    then (second, some needs_merge)
    else (second, none)

-- `now` is the moment at which the claim's transaction began.
unfoldable pub claim_transition : ℕ → Generation → Generation × LeaveGenStep
claim_transition now g = elim g.transition [
  | none ↦ (
    record g { transition = some (record { started_at = now; attempts = 1; completed = false }) },
    start_transition,
  )
  | some t ↦
      if not t.completed && not (is_recent now t)
      then (
        record g { transition = some (record t { started_at = now; attempts = t.attempts + 1 }) },
        start_transition,
      )
      else (g, in_progress)
]

-- `out_now`: the racks of open claims and of staged results.
abbrev pub holds_out : List Staged → LeaveTask → Bool
holds_out staging t = is_open_task t || exists (λ s. s.task_id == t.id) staging

abbrev pub is_out_now : Generation → ℕ → Bool
is_out_now g rack =
    exists (λ t. holds_out g.staging t && exists (λ r. r == rack) t.forced_racks) g.tasks

unfoldable pub furthest_racks : Postgres → GenerationConfig → Generation → List ℕ
furthest_racks pg config g =
    take config.racks_per_task
      (racks_where (λ p. below_target config p && not (is_out_now g p.rack)) (pg.by_count g.racks))

unfoldable pub furthest_below_target :
    Postgres → GenerationConfig → ℕ → Gaps → Generation → Generation × Selected
unfolding furthest_racks nothing_to_hand_out claim_transition
furthest_below_target pg config now gaps g =
    let read = happen_all pg config (gaps 4) g in
    let why = nothing_to_hand_out pg config gaps 5 read in
    let again = happen_all pg config (gaps 7) why.0 in
    let closing = claim_transition now again in
    elim (furthest_racks pg config read) [
      | r ∷ rs ↦ (read, selected_racks (r ∷ rs))
      | [] ↦ elim why.1 [
        | some step ↦ (why.0, selected_step step)
        | none ↦
            if any_rack_below_target config again
            then (again, selected_step no_work_yet)
            else (closing.0, selected_step closing.1)
      ]
    ]

unfoldable pub sweep : Postgres → GenerationConfig → ℕ → Gaps → Generation → Generation × Selected
unfolding racks_after claim_transition
sweep pg config now gaps g =
    let read = happen_all pg config (gaps 4) g in
    let found = racks_after config 0 read in
    let closing = claim_transition now read in
    elim found.0 [
      | [] ↦ (closing.0, selected_step closing.1)
      | r ∷ rs ↦ (
        if found.1 then record read { cursor_rack = some (last (r ∷ rs)) } else read,
        selected_racks (r ∷ rs),
      )
    ]

unfoldable pub continue_lap :
    Postgres → GenerationConfig → Gaps → ℕ → Generation → Generation × Option Selected
unfolding racks_after
continue_lap pg config gaps cursor g =
    let read = happen_all pg config (gaps 0) g in
    let found = racks_after config cursor read in
    if found.1
    then (record read { cursor_rack = some (last found.0) }, some (selected_racks found.0))
    else (
      record read { cursor_rack = none },
      elim found.0 [ [] ↦ none | r ∷ rs ↦ some (selected_racks (r ∷ rs)) ],
    )

-- `SWEEP_WHILE_TASKS_REMAIN`.
abbrev pub sweep_while_tasks_remain : ℕ
sweep_while_tasks_remain = 100

abbrev pub racks_short : Generation → ℕ
racks_short g = elim g.summary [ none ↦ 0 | some s ↦ s.racks_total - s.racks_at_target ]

unfoldable pub at_boundary :
    Postgres → GenerationConfig → ℕ → Gaps → Generation → Generation × Selected
unfolding nothing_to_hand_out furthest_below_target sweep
at_boundary pg config now gaps g =
    let why = nothing_to_hand_out pg config gaps 1 g in
    let read = happen_all pg config (gaps 3) why.0 in
    let tail = furthest_below_target pg config now gaps (record read { cursor_rack = some none }) in
    let lap = sweep pg config now gaps read in
    elim why.1 [
      | some step ↦ (why.0, selected_step step)
      | none ↦
          if leb (racks_short read) (sweep_while_tasks_remain * config.racks_per_task)
          then tail
          else lap
    ]

abbrev pub after_lap : Generation × Option Selected → Generation × Selected → Generation × Selected
after_lap lap boundary = elim lap.1 [ some found ↦ (lap.0, found) | none ↦ boundary ]

unfoldable pub select : Postgres → GenerationConfig → ℕ → Gaps → Generation → Generation × Selected
unfolding continue_lap at_boundary furthest_below_target
select pg config now gaps g = elim g.cursor_rack [
  | none ↦ at_boundary pg config now gaps g
  | some none ↦ furthest_below_target pg config now gaps g
  | some (some cursor) ↦
      let lap = continue_lap pg config gaps cursor g in
      after_lap lap (at_boundary pg config now gaps lap.0)
]

-- A `None` where the artifact to play with is missing.
abbrev pub answered : Generation × Selected → Generation × Option LeaveGenStep
answered chosen = elim chosen.1 [
  | selected_step step ↦ (chosen.0, some step)
  | selected_racks racks ↦
      (chosen.0, if chosen.0.previous_artifact then some (dispatch racks) else none)
]

unfoldable pub next_step :
    Postgres → GenerationConfig → ℕ → Gaps → Generation → Generation × Option LeaveGenStep
unfolding select
next_step pg config now gaps g = answered (select pg config now gaps g)
