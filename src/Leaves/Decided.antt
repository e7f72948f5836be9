-- ===== src/Leaves/Decided.antt =====
-- What the two selections decide: leave_gen.rs, `sweep` and `furthest_below_target`.
use birdtest.Prelude.{
  ℕ, ◌<◌, ◌≡◌, sym, ◌∙◌, subst, ◌⊎◌, inl, inr, Bool-cases, Option-cases, List-cases, false, ◌∷◌,
  ◌==◌, arith,
}
use birdtest.Claims.Rows.{exists}
use birdtest.Leaves.Rows.{Generation, GenerationConfig, Postgres, any_rack_below_target}
use birdtest.Leaves.Events.{happen_all}
use birdtest.Leaves.Selection.{
  start_transition, no_work_yet, Selected, selected_racks, selected_step, Gaps, racks_after,
  nothing_to_hand_out, claim_transition, furthest_racks, furthest_below_target, sweep,
}
use birdtest.Leaves.Quiet.{
  racks_of, Beside, Beside-trans, Quiet, happen_all-Beside, happen_all-Quiet,
}
use birdtest.Leaves.Closing.{
  NoEmptyRack, Complete, racks_after-none, nothing_to_hand_out-Beside, nothing_to_hand_out-Quiet,
  nothing_to_hand_out-steps,
}

-- What a claim decided: the transition is started, and only on a complete generation, or its row is as it was.
pub record Decided (config : GenerationConfig) (g e : Generation) (s : Selected) : Type 0 where
  pub closed : e.closed ≡ g.closed
  pub clock : e.clock ≡ g.clock
  pub previous : e.previous_artifact ≡ g.previous_artifact
  pub racks : racks_of e.racks ≡ racks_of g.racks
  pub starts : s ≡ selected_step start_transition → Complete config e
  pub waits : (s ≡ selected_step start_transition) ⊎ (e.transition ≡ g.transition)

module _ (pg : Postgres) (config : GenerationConfig) (now : ℕ) (gaps : Gaps)
    (some_racks : 0 < config.racks_per_task) where
  -- `claim_transition` where the generation is complete.
  claim_transition-Decided :
      (g e : Generation)
      → Beside config g e
      → Complete config e
      → Decided config g (claim_transition now e).0 (selected_step (claim_transition now e).1)
  unfolding claim_transition
  claim_transition-Decided g e b c = record {
    closed = ground (arith, b.closed);
    clock = ground (arith, b.clock);
    previous = ground (arith, b.previous_artifact);
    racks = ground (arith, b.racks);
    starts = λ h. record {
      quiet = record {
        in_flight = ground (arith, c.quiet.in_flight);
        staged = ground (arith, c.quiet.staged);
      };
      at_target = ground (arith, c.at_target);
    };
    waits = ground (arith, b.transition);
  }

  -- An answer other than the start of the transition.
  pub Beside-Decided :
      (g e : Generation) (s : Selected)
      → Beside config g e
      → (s ≡ selected_step start_transition → ⊥)
      → Decided config g e s
  Beside-Decided g e s b other = record {
    closed = b.closed;
    clock = b.clock;
    previous = b.previous_artifact;
    racks = b.racks;
    starts = λ h. absurd (other h);
    waits = inr b.transition;
  }

  -- A decision from a state that differs in its cursor and by events.
  pub Decided-after :
      (g a e : Generation) (s : Selected)
      → a.closed ≡ g.closed
      → a.clock ≡ g.clock
      → a.previous_artifact ≡ g.previous_artifact
      → a.transition ≡ g.transition
      → racks_of a.racks ≡ racks_of g.racks
      → Decided config a e s
      → Decided config g e s
  Decided-after g a e s closed clock previous transition racks d = record {
    closed = d.closed ∙ closed;
    clock = d.clock ∙ clock;
    previous = d.previous ∙ previous;
    racks = d.racks ∙ racks;
    starts = d.starts;
    waits = elim d.waits [ inl h ↦ inl h | inr h ↦ inr (h ∙ transition) ];
  }

  pub furthest_below_target-Decided :
      (g : Generation)
      → let r = furthest_below_target pg config now gaps g in Decided config g r.0 r.1
  unfolding furthest_below_target
  furthest_below_target-Decided g =
      let read = happen_all pg config (gaps 4) g in
      let why = nothing_to_hand_out pg config gaps 5 read in
      let again = happen_all pg config (gaps 7) why.0 in
      let to_read = happen_all-Beside pg config (gaps 4) g in
      let to_why = Beside-trans to_read (nothing_to_hand_out-Beside pg config gaps 5 read) in
      let to_again = Beside-trans to_why (happen_all-Beside pg config (gaps 7) why.0) in
      elim (List-cases (furthest_racks pg config read)) [
        | inr (r, rs, found) ↦
            rw (found, furthest_below_target)
              (Beside-Decided g read (selected_racks (r ∷ rs)) to_read (λ h. ground (arith, h)))
        | inl empty ↦ elim (Option-cases why.1) [
          | inr (step, reason) ↦
              rw (empty, reason, furthest_below_target)
                (Beside-Decided g why.0 (selected_step step) to_why (λ h.
                  ground (arith, h, nothing_to_hand_out-steps pg config gaps 5 read step reason)))
          | inl free ↦ elim (Bool-cases (any_rack_below_target config again)) [
            | inl below ↦
                rw (empty, free, below, furthest_below_target)
                  (Beside-Decided g again (selected_step no_work_yet) to_again
                    (λ h. ground (arith, h)))
            | inr reached ↦
                rw (empty, free, reached, furthest_below_target)
                  (claim_transition-Decided g again to_again (record {
                    quiet =
                        happen_all-Quiet pg config (gaps 7) why.0
                          (nothing_to_hand_out-Quiet pg config gaps 5 read free);
                    at_target = reached;
                  }))
          ]
        ]
      ]

  pub sweep-Decided :
      (g : Generation)
      → NoEmptyRack g
      → Quiet g
      → let r = sweep pg config now gaps g in Decided config g r.0 r.1
  unfolding sweep
  sweep-Decided g positive quiet =
      let read = happen_all pg config (gaps 4) g in
      let b = happen_all-Beside pg config (gaps 4) g in
      let found = racks_after config 0 read in
      elim (List-cases found.0) [
        | inl empty ↦
            rw (empty, sweep)
              (claim_transition-Decided g read b (record {
                quiet = happen_all-Quiet pg config (gaps 4) g quiet;
                at_target =
                    racks_after-none config read some_racks
                      (subst (λ l. exists (λ r. r == 0) l ≡ false) (sym b.racks) positive) empty;
              }))
        | inr (r, rs, some_found) ↦
            rw (some_found, sweep)
              (record {
                closed = ground (arith, b.closed);
                clock = ground (arith, b.clock);
                previous = ground (arith, b.previous_artifact);
                racks = ground (arith, b.racks);
                starts = λ h. absurd (ground (arith, h));
                waits = inr (ground (arith, b.transition));
              })
      ]
