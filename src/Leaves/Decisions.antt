-- ===== src/Leaves/Decisions.antt =====
-- What a claim decides: leave_gen.rs, `at_boundary`, `continue_lap` and `next_step`.
use birdtest.Prelude.{
  ℕ, ◌*◌, ◌<◌, ◌≡◌, sym, ap, subst, inl, inr, Bool-cases, Option-cases, false, Option, none, some,
  leb, ◌==◌, arith,
}
use birdtest.Claims.Rows.{exists}
use birdtest.Leaves.Rows.{Generation, GenerationConfig, Postgres}
use birdtest.Leaves.Events.{happen_all}
use birdtest.Leaves.Selection.{
  start_transition, Selected, selected_step, Gaps, nothing_to_hand_out, furthest_below_target,
  sweep, continue_lap, racks_short, sweep_while_tasks_remain, at_boundary, after_lap, select,
}
use birdtest.Leaves.Quiet.{racks_of, Beside-trans, happen_all-Beside, happen_all-Quiet}
use birdtest.Leaves.Closing.{
  NoEmptyRack, nothing_to_hand_out-Beside, nothing_to_hand_out-Quiet, nothing_to_hand_out-steps,
}
use birdtest.Leaves.Decided.{
  Decided, Beside-Decided, Decided-after, furthest_below_target-Decided, sweep-Decided,
}

module _ (pg : Postgres) (config : GenerationConfig) (now : ℕ) (gaps : Gaps)
    (some_racks : 0 < config.racks_per_task) where
  at_boundary-Decided :
      (g : Generation)
      → NoEmptyRack g
      → let r = at_boundary pg config now gaps g in Decided config g r.0 r.1
  unfolding at_boundary
  at_boundary-Decided g positive =
      let why = nothing_to_hand_out pg config gaps 1 g in
      let read = happen_all pg config (gaps 3) why.0 in
      let to_why = nothing_to_hand_out-Beside pg config gaps 1 g in
      let b = Beside-trans to_why (happen_all-Beside pg config (gaps 3) why.0) in
      let tail : Generation = record read { cursor_rack = some none } in
      elim (Option-cases why.1) [
        | inr (step, reason) ↦
            rw (reason, at_boundary)
              (Beside-Decided pg config now gaps some_racks g why.0 (selected_step step) to_why
                (λ h. ground (arith, h, nothing_to_hand_out-steps pg config gaps 1 g step reason)))
        | inl free ↦
            elim (Bool-cases
              (leb (racks_short read) (sweep_while_tasks_remain * config.racks_per_task))) [
                | inl few ↦
                    rw (free, few, at_boundary)
                      (let after = furthest_below_target pg config now gaps tail in
                        Decided-after pg config now gaps some_racks g tail after.0 after.1 b.closed
                          b.clock b.previous_artifact b.transition b.racks
                          (furthest_below_target-Decided pg config now gaps some_racks tail))
                | inr many ↦
                    rw (free, many, at_boundary)
                      (let after = sweep pg config now gaps read in
                        Decided-after pg config now gaps some_racks g read after.0 after.1 b.closed
                          b.clock b.previous_artifact b.transition b.racks
                          (sweep-Decided pg config now gaps some_racks read
                            (subst (λ l. exists (λ r. r == 0) l ≡ false) (sym b.racks) positive)
                            (happen_all-Quiet pg config (gaps 3) why.0
                              (nothing_to_hand_out-Quiet pg config gaps 1 g free))))
              ]
      ]

  after_lap-Decided :
      (g : Generation) (lap : Generation × Option Selected)
      → lap.0.closed ≡ g.closed
      → lap.0.clock ≡ g.clock
      → lap.0.previous_artifact ≡ g.previous_artifact
      → lap.0.transition ≡ g.transition
      → racks_of lap.0.racks ≡ racks_of g.racks
      → (lap.1 ≡ some (selected_step start_transition) → ⊥)
      → NoEmptyRack g
      → let r = after_lap lap (at_boundary pg config now gaps lap.0) in Decided config g r.0 r.1
  after_lap-Decided g (e, none) closed clock previous transition racks other positive =
      let boundary = at_boundary pg config now gaps e in
      Decided-after pg config now gaps some_racks g e boundary.0 boundary.1 closed clock previous
        transition racks
        (at_boundary-Decided e (subst (λ l. exists (λ r. r == 0) l ≡ false) (sym racks) positive))
  after_lap-Decided g (e, some found) closed clock previous transition racks other positive =
      record {
        closed = closed;
        clock = clock;
        previous = previous;
        racks = racks;
        starts = λ h. absurd (other (ap some h));
        waits = inr transition;
      }

  lap-Decided :
      (g : Generation) (cursor : ℕ)
      → NoEmptyRack g
      → let lap = continue_lap pg config gaps cursor g in
        let r = after_lap lap (at_boundary pg config now gaps lap.0) in Decided config g r.0 r.1
  unfolding continue_lap
  lap-Decided g cursor positive =
      let b = happen_all-Beside pg config (gaps 0) g in
      after_lap-Decided g (continue_lap pg config gaps cursor g) (ground (arith, b.closed))
        (ground (arith, b.clock)) (ground (arith, b.previous_artifact))
        (ground (arith, b.transition)) (ground (arith, b.racks)) (λ h. ground (arith, h)) positive

  pub select-Decided :
      (g : Generation)
      → NoEmptyRack g
      → let r = select pg config now gaps g in Decided config g r.0 r.1
  unfolding select continue_lap
  select-Decided g positive = elim (Option-cases g.cursor_rack) [
    | inl boundary ↦
        let same : select pg config now gaps g ≡ at_boundary pg config now gaps g =
          ground (arith, boundary) in
        subst (λ r. Decided config g r.0 r.1) (sym same) (at_boundary-Decided g positive)
    | inr (place, here) ↦ elim (Option-cases place) [
      | inl tail ↦
          let same : select pg config now gaps g ≡ furthest_below_target pg config now gaps g =
            ground (arith, here, tail) in
          subst (λ r. Decided config g r.0 r.1) (sym same)
            (furthest_below_target-Decided pg config now gaps some_racks g)
      | inr (cursor, mid) ↦
          let lap = continue_lap pg config gaps cursor g in
          let same : select pg config now gaps g
              ≡ after_lap lap (at_boundary pg config now gaps lap.0) =
            ground (arith, here, mid) in
          subst (λ r. Decided config g r.0 r.1) (sym same) (lap-Decided g cursor positive)
    ]
  ]
