-- ===== src/Leaves/Closed.antt =====
-- A generation closes complete: leave_gen.rs, the claim's decision and the transition's end.
use birdtest.Prelude.{
  ℕ, ◌<◌, ◌≡◌, refl, sym, ◌∙◌, subst, inl, inr, Bool, Bool-cases, true, false, ◌||◌, List, [], ◌∷◌,
  ◌==◌, arith,
}
use birdtest.Claims.Rows.{exists}
use birdtest.Leaves.Rows.{
  Generation, GenerationConfig, Postgres, claims_in_flight, anything_staged, any_rack_below_target,
  universe_exists, transition_in_progress, seed_generation, close_generation, release_transition,
  unplayed,
}
use birdtest.Leaves.Events.{Event, happen}
use birdtest.Leaves.Selection.{Gaps}
use birdtest.Leaves.Quiet.{racks_of, racks_of-universe, happen-Beside, happen-idle}
use birdtest.Leaves.Closing.{Complete}
use birdtest.Leaves.Steps.{
  is_ascending, Step, claims, commits, seeds, closes, fails, passes, Reach, here, next,
  new_generation,
}
use birdtest.Leaves.Closes.{Closes, generate_leave_gen-Closes}

unplayed-positive :
    (above : ℕ) (universe : List ℕ)
    → is_ascending above universe ≡ true
    → exists (λ r. r == 0) (racks_of (unplayed universe)) ≡ false
unplayed-positive above [] h = refl
unplayed-positive above (r ∷ rs) h = ground (arith, h, unplayed-positive r rs)

module _ (pg : Postgres) (config : GenerationConfig) (some_racks : 0 < config.racks_per_task) where
  happen-Complete :
      (v : Event) (g : Generation)
      → Complete config g × (universe_exists g ≡ true)
      → Complete config (happen pg config v g) × (universe_exists (happen pg config v g) ≡ true)
  happen-Complete v g (c, seeded) =
      let b = happen-Beside pg config v g in
      let (idle, unstaged) = happen-idle pg config v g c.quiet.in_flight in
      (
        record {
          quiet = record { in_flight = idle; staged = unstaged c.quiet.staged };
          at_target = b.at_target c.at_target;
        },
        racks_of-universe g (happen pg config v g) b.racks ∙ seeded,
      )

  happen-Closes :
      (v : Event) (g : Generation) → Closes config g → Closes config (happen pg config v g)
  happen-Closes v g h =
      let b = happen-Beside pg config v g in
      record {
        positive = subst (λ l. exists (λ r. r == 0) l ≡ false) (sym b.racks) h.positive;
        runs = λ k. happen-Complete v g (h.runs (ground (arith, k, b.transition, b.clock)));
        closed = λ k. happen-Complete v g (h.closed (sym b.closed ∙ k));
      }

  seed_generation-Closes :
      (universe : List ℕ) (g : Generation)
      → is_ascending 0 universe ≡ true
      → Closes config g
      → Closes config (seed_generation universe g)
  unfolding seed_generation
  seed_generation-Closes universe g ascending h = elim (Bool-cases (universe_exists g)) [
    | inl seeded ↦ subst (Closes config) (ground (arith, seeded)) h
    | inr unseeded ↦ record {
      positive = ground (arith, unseeded, unplayed-positive 0 universe ascending);
      runs = λ k. absurd (ground (arith, k, unseeded, h.runs));
      closed = λ k. absurd (ground (arith, k, unseeded, h.closed));
    }
  ]

  close_generation-Closes :
      (g : Generation)
      → transition_in_progress g ≡ true
      → Closes config g
      → Closes config (close_generation g)
  unfolding close_generation
  close_generation-Closes g runs h =
      let (c, seeded) = h.runs runs in
      record {
        positive = ground (arith, h.positive);
        runs = λ k. absurd (ground (arith, k, runs));
        closed = λ k. (
          record {
            quiet = record {
              in_flight = ground (arith, c.quiet.in_flight);
              staged = ground (arith, c.quiet.staged);
            };
            at_target = ground (arith, c.at_target);
          },
          ground (arith, seeded),
        );
      }

  release_transition-Closes :
      (g : Generation) → Closes config g → Closes config (release_transition g)
  unfolding release_transition
  release_transition-Closes g h =
      let kept : Complete config g × (universe_exists g ≡ true)
          → Complete config (release_transition g)
            × (universe_exists (release_transition g) ≡ true) =
        λ (c, seeded). (
          record {
            quiet = record {
              in_flight = ground (arith, c.quiet.in_flight);
              staged = ground (arith, c.quiet.staged);
            };
            at_target = ground (arith, c.at_target);
          },
          ground (arith, seeded),
        ) in
      record {
        positive = ground (arith, h.positive);
        runs = λ k. kept (h.runs (ground (arith, k)));
        closed = λ k. kept (h.closed (ground (arith, k)));
      }

module _ (Allowed : List ℕ → Gaps → Type 0) (pg : Postgres) (config : GenerationConfig)
    (some_racks : 0 < config.racks_per_task) where
  Step-Closes : {g e : Generation} → Step Allowed pg config g e → Closes config g → Closes config e
  Step-Closes {g} (claims locked task_id gaps allowed fresh same) h =
      subst (Closes config) (sym same)
        (generate_leave_gen-Closes pg config some_racks locked task_id gaps g h)
  Step-Closes {g} (commits v same) h =
      subst (Closes config) (sym same) (happen-Closes pg config some_racks v g h)
  Step-Closes {g} (seeds universe ascending same) h =
      subst (Closes config) (sym same)
        (seed_generation-Closes pg config some_racks universe g ascending h)
  Step-Closes {g} (closes runs same) h =
      subst (Closes config) (sym same) (close_generation-Closes pg config some_racks g runs h)
  Step-Closes {g} (fails same) h =
      subst (Closes config) (sym same) (release_transition-Closes pg config some_racks g h)
  Step-Closes {g} (passes now later same) h = subst (Closes config) (sym same) (record {
    positive = h.positive;
    runs = λ k.
        let (c, seeded) = h.runs (ground (arith, k, later)) in
        (
          record {
            quiet = record { in_flight = c.quiet.in_flight; staged = c.quiet.staged };
            at_target = c.at_target;
          },
          seeded,
        );
    closed = λ k.
        let (c, seeded) = h.closed k in
        (
          record {
            quiet = record { in_flight = c.quiet.in_flight; staged = c.quiet.staged };
            at_target = c.at_target;
          },
          seeded,
        );
  })

  Reach-Closes :
      {g e : Generation} → Reach Allowed pg config g e → Closes config g → Closes config e
  Reach-Closes here h = h
  Reach-Closes (next r s) h = Step-Closes s (Reach-Closes r h)

-- Whatever claims, submissions, declines, lapses, merges, seedings and failed transitions came before, between
-- the statements of a claim too: once a generation is closed, or while its transition runs, none of its claims
-- is open, none of its results is unmerged, its racks have been seeded, and every one has its target.
pub Reach-at_target :
    (Allowed : List ℕ → Gaps → Type 0) (pg : Postgres) (config : GenerationConfig) (now : ℕ)
    (previous_artifact : Bool) (e : Generation)
    → 0 < config.racks_per_task
    → Reach Allowed pg config (new_generation now previous_artifact) e
    → (e.closed || transition_in_progress e) ≡ true
    → (claims_in_flight e ≡ 0)
      × (anything_staged e ≡ false)
      × (universe_exists e ≡ true)
      × (any_rack_below_target config e ≡ false)
Reach-at_target Allowed pg config now previous_artifact e some_racks r over =
    let h : Closes config e = Reach-Closes Allowed pg config some_racks r (record {
      positive = refl;
      runs = λ k. absurd (ground (arith, k));
      closed = λ k. absurd (ground (arith, k));
    }) in
    let (c, seeded) : Complete config e × (universe_exists e ≡ true) = elim (Bool-cases e.closed) [
      | inl closed ↦ h.closed closed
      | inr current ↦ h.runs (ground (arith, current, over))
    ] in
    (c.quiet.in_flight, c.quiet.staged, seeded, c.at_target)
