-- ===== src/Leaves/Once.antt =====
-- No rack is out twice: leave_gen.rs and jobs/registry.rs, `generate_leave_gen`.
use birdtest.Prelude.{
  ℕ, ◌≤◌, ◌≡◌, refl, sym, ap, ◌∙◌, subst, inl, inr, Bool, Bool-cases, true, List, [], ◌∷◌, arith,
}
use birdtest.Leaves.Rows.{
  Generation, GenerationConfig, Postgres, universe_exists, seed_generation, close_generation,
  release_transition, unplayed,
}
use birdtest.Leaves.Events.{Event, happen}
use birdtest.Leaves.Selection.{Gaps, select, next_step}
use birdtest.Leaves.Acquire.{generate_leave_gen}
use birdtest.Leaves.Quiet.{racks_of, happen-Beside}
use birdtest.Leaves.Claimed.{stayed, reissued, selected, generate_leave_gen-Claimed}
use birdtest.Leaves.Steps.{
  is_ascending, Step, claims, commits, seeds, closes, fails, passes, Reach, here, next,
  new_generation,
}
use birdtest.Leaves.Out.{outs, ids, happen-Fewer}
use birdtest.Leaves.Picks.{Permutes}
use birdtest.Leaves.Hands.{NoGiveBack, Fair, Fair-after}
use birdtest.Leaves.Handed.{select-Hands}
use birdtest.Leaves.Issued.{none_waits, reissue-Fair, answer_of-Fair}

-- A claim finds no task locked, and no task is given back between its statements.
abbrev pub Undisturbed : List ℕ → Gaps → Type 0
Undisturbed locked gaps = (locked ≡ []) × NoGiveBack gaps

module _ (pg : Postgres) (config : GenerationConfig) (permutes : Permutes pg) where
  generate_leave_gen-Fair :
      (task_id : ℕ) (gaps : Gaps) (g : Generation)
      → NoGiveBack gaps
      → ids task_id g.tasks ≡ 0
      → Fair g
      → Fair (generate_leave_gen pg config [] task_id gaps g).0
  unfolding next_step
  generate_leave_gen-Fair task_id gaps g kept fresh h =
      elim (generate_leave_gen-Claimed pg config [] task_id gaps g) [
        | stayed same ↦ subst Fair (sym same) h
        | reissued t o found same ↦ subst (λ r. Fair r.0) (sym same) (reissue-Fair [] g t h found)
        | selected o none_left same ↦
            subst (λ r. Fair r.0) (sym same)
              (answer_of-Fair g task_id (select pg config g.clock gaps g) h fresh (
                select-Hands pg config g.clock gaps permutes kept g h
                  (none_waits g.tasks none_left)))
      ]

  happen-Fair : (v : Event) (g : Generation) → Fair g → Fair (happen pg config v g)
  happen-Fair v g h =
      let b = happen-Beside pg config v g in
      Fair-after g (happen pg config v g) h (happen-Fewer pg config v g h.unique) b.racks
        (λ c at. sym b.cursor_rack ∙ at)

unplayed-racks_of : (universe : List ℕ) → racks_of (unplayed universe) ≡ universe
unplayed-racks_of [] = refl
unplayed-racks_of (r ∷ rs) = ap (λ l. r ∷ l) (unplayed-racks_of rs)

seed_generation-Fair :
    (universe : List ℕ) (g : Generation)
    → is_ascending 0 universe ≡ true
    → Fair g
    → Fair (seed_generation universe g)
unfolding seed_generation
seed_generation-Fair universe g ascending h = elim (Bool-cases (universe_exists g)) [
  | inl seeded ↦ subst Fair (ground (arith, seeded)) h
  | inr unseeded ↦ record {
    unique = λ i. ground (arith, h.unique i);
    once = λ rack. ground (arith, h.once rack);
    sorted = ground (arith, unseeded, ascending, unplayed-racks_of universe);
    behind = λ c rack at lt. ground (arith, h.behind c rack, at, lt);
  }
]

close_generation-Fair : (g : Generation) → Fair g → Fair (close_generation g)
unfolding close_generation
close_generation-Fair g h = record {
  unique = λ i. ground (arith, h.unique i);
  once = λ rack. ground (arith, h.once rack);
  sorted = ground (arith, h.sorted);
  behind = λ c rack at lt. ground (arith, h.behind c rack, at, lt);
}

release_transition-Fair : (g : Generation) → Fair g → Fair (release_transition g)
unfolding release_transition
release_transition-Fair g h = record {
  unique = λ i. ground (arith, h.unique i);
  once = λ rack. ground (arith, h.once rack);
  sorted = ground (arith, h.sorted);
  behind = λ c rack at lt. ground (arith, h.behind c rack, at, lt);
}

module _ (pg : Postgres) (config : GenerationConfig) (permutes : Permutes pg) where
  Step-Fair : {g e : Generation} → Step Undisturbed pg config g e → Fair g → Fair e
  Step-Fair {g} (claims locked task_id gaps (unlocked, kept) fresh same) h =
      subst Fair (sym (same ∙ ap (λ l. (generate_leave_gen pg config l task_id gaps g).0) unlocked))
        (generate_leave_gen-Fair pg config permutes task_id gaps g kept fresh h)
  Step-Fair {g} (commits v same) h = subst Fair (sym same) (happen-Fair pg config permutes v g h)
  Step-Fair {g} (seeds universe ascending same) h =
      subst Fair (sym same) (seed_generation-Fair universe g ascending h)
  Step-Fair {g} (closes runs same) h = subst Fair (sym same) (close_generation-Fair g h)
  Step-Fair {g} (fails same) h = subst Fair (sym same) (release_transition-Fair g h)
  Step-Fair {g} (passes now later same) h =
      subst Fair (sym same)
        (record { unique = h.unique; once = h.once; sorted = h.sorted; behind = h.behind })

  Reach-Fair : {g e : Generation} → Reach Undisturbed pg config g e → Fair g → Fair e
  Reach-Fair here h = h
  Reach-Fair (next r s) h = Step-Fair s (Reach-Fair r h)

-- Whatever claims, submissions, declines, lapses, merges, seedings and transitions came before, between the
-- statements of a claim submissions and merges only, and no row locked: each rack is forced once at most by all
-- the tasks that are out, those open, those that wait to be reissued and those whose result is staged.
pub Reach-once :
    (pg : Postgres) (config : GenerationConfig) (now : ℕ) (previous_artifact : Bool)
    (e : Generation)
    → Permutes pg
    → Reach Undisturbed pg config (new_generation now previous_artifact) e
    → (rack : ℕ) → outs e rack ≤ 1
Reach-once pg config now previous_artifact e permutes r rack =
    let h : Fair e = Reach-Fair pg config permutes r (record {
      unique = λ i. omega arith;
      once = λ rack. omega arith;
      sorted = refl;
      behind = λ c rack at lt. refl;
    }) in
    h.once rack
