-- ===== src/Leaves/Closes.antt =====
-- A claim closes nothing that is not complete: jobs/registry.rs, `generate_leave_gen`.
use birdtest.Prelude.{
  ℕ, ◌<◌, ◌≡◌, refl, sym, ◌∙◌, subst, inl, inr, Bool-cases, true, false, List, some, ◌==◌, arith,
}
use birdtest.Claims.Rows.{exists}
use birdtest.Leaves.Rows.{
  Generation, GenerationConfig, Postgres, universe_exists, transition_in_progress,
}
use birdtest.Leaves.Selection.{
  LeaveGenStep, dispatch, start_transition, in_progress, needs_merge, no_work_yet, Selected,
  selected_racks, selected_step, Gaps, select, answered, next_step,
}
use birdtest.Leaves.Acquire.{
  acquired_task, failed, answer_of, reissue, insert_leave_task, generate_leave_gen,
}
use birdtest.Leaves.Quiet.{racks_of, racks_of-universe}
use birdtest.Leaves.Claimed.{stayed, reissued, selected, generate_leave_gen-Claimed}
use birdtest.Leaves.Closing.{NoEmptyRack, Complete}
use birdtest.Leaves.Decided.{Decided}
use birdtest.Leaves.Decisions.{select-Decided}

-- A transition that runs, and a closed generation, are of a complete universe.
pub record Closes (config : GenerationConfig) (g : Generation) : Type 0 where
  pub positive : NoEmptyRack g
  pub runs : transition_in_progress g ≡ true → Complete config g × (universe_exists g ≡ true)
  pub closed : g.closed ≡ true → Complete config g × (universe_exists g ≡ true)

-- A generation that is open and has no transition of its own running.
idle-Closes :
    (config : GenerationConfig) (g e : Generation)
    → NoEmptyRack g
    → g.closed ≡ false
    → transition_in_progress g ≡ false
    → e.closed ≡ g.closed
    → e.clock ≡ g.clock
    → e.transition ≡ g.transition
    → racks_of e.racks ≡ racks_of g.racks
    → Closes config e
idle-Closes config g e positive current idle closed clock transition racks = record {
  positive = subst (λ l. exists (λ r. r == 0) l ≡ false) (sym racks) positive;
  runs = λ h. absurd (ground (arith, h, idle, clock, transition));
  closed = λ h. absurd (ground (arith, h, current, closed));
}

module _ (pg : Postgres) (config : GenerationConfig) (some_racks : 0 < config.racks_per_task)
    (locked : List ℕ) (task_id : ℕ) (gaps : Gaps) (g : Generation) (positive : NoEmptyRack g)
    (current : g.closed ≡ false) (idle : transition_in_progress g ≡ false)
    (seeded : universe_exists g ≡ true) where
  stepped-Closes :
      (e : Generation) (step : LeaveGenStep)
      → Decided config g e (selected_step step)
      → Closes config (answer_of g task_id (e, some step)).0
  stepped-Closes e start_transition d =
      let seeded_yet : universe_exists e ≡ true = racks_of-universe g e d.racks ∙ seeded in
      record {
        positive = subst (λ l. exists (λ r. r == 0) l ≡ false) (sym d.racks) positive;
        runs = λ _. (d.starts refl, seeded_yet);
        closed = λ _. (d.starts refl, seeded_yet);
      }
  stepped-Closes e (dispatch racks) d =
      idle-Closes config g (insert_leave_task task_id racks e) positive current idle d.closed
        d.clock (elim d.waits [ inl h ↦ absurd (ground (arith, h)) | inr h ↦ h ]) d.racks
  stepped-Closes e in_progress d =
      idle-Closes config g e positive current idle d.closed d.clock
        (elim d.waits [ inl h ↦ absurd (ground (arith, h)) | inr h ↦ h ]) d.racks
  stepped-Closes e needs_merge d =
      idle-Closes config g e positive current idle d.closed d.clock
        (elim d.waits [ inl h ↦ absurd (ground (arith, h)) | inr h ↦ h ]) d.racks
  stepped-Closes e no_work_yet d =
      idle-Closes config g e positive current idle d.closed d.clock
        (elim d.waits [ inl h ↦ absurd (ground (arith, h)) | inr h ↦ h ]) d.racks

  selected-Closes :
      (chosen : Generation × Selected)
      → Decided config g chosen.0 chosen.1
      → Closes config (answer_of g task_id (answered chosen)).0
  selected-Closes (e, selected_step step) d = stepped-Closes e step d
  selected-Closes (e, selected_racks racks) d = elim (Bool-cases e.previous_artifact) [
    | inl ready ↦
        let same : answer_of g task_id (answered (e, selected_racks racks))
            ≡ (insert_leave_task task_id racks e, acquired_task task_id racks) =
          ground (arith, ready) in
        subst (λ r. Closes config r.0) (sym same)
          (idle-Closes config g (insert_leave_task task_id racks e) positive current idle d.closed
            d.clock (elim d.waits [ inl h ↦ absurd (ground (arith, h)) | inr h ↦ h ]) d.racks)
    | inr missing ↦
        let same : answer_of g task_id (answered (e, selected_racks racks))
            ≡ (record e { cursor_rack = g.cursor_rack }, failed) =
          ground (arith, missing) in
        subst (λ r. Closes config r.0) (sym same)
          (idle-Closes config g (record e { cursor_rack = g.cursor_rack }) positive current idle
            d.closed d.clock (elim d.waits [ inl h ↦ absurd (ground (arith, h)) | inr h ↦ h ])
            d.racks)
  ]

  chosen-Closes : Closes config (answer_of g task_id (next_step pg config g.clock gaps g)).0
  unfolding next_step
  chosen-Closes =
      selected-Closes (select pg config g.clock gaps g)
        (select-Decided pg config g.clock gaps some_racks g positive)

module _ (pg : Postgres) (config : GenerationConfig) (some_racks : 0 < config.racks_per_task) where
  pub generate_leave_gen-Closes :
      (locked : List ℕ) (task_id : ℕ) (gaps : Gaps) (g : Generation)
      → Closes config g
      → Closes config (generate_leave_gen pg config locked task_id gaps g).0
  generate_leave_gen-Closes locked task_id gaps g h =
      elim (generate_leave_gen-Claimed pg config locked task_id gaps g) [
        | stayed same ↦ subst (Closes config) (sym same) h
        | reissued t o found same ↦
            subst (λ r. Closes config r.0) (sym same)
              (idle-Closes config g (reissue t.id g) h.positive o.current o.idle refl refl refl
                refl)
        | selected o found same ↦
            subst (λ r. Closes config r.0) (sym same)
              (chosen-Closes pg config some_racks locked task_id gaps g h.positive o.current o.idle
                o.seeded)
      ]
