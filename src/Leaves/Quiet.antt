-- ===== src/Leaves/Quiet.antt =====
-- What the events between two statements leave alone, and a generation with nothing in flight and nothing
-- staged, which they leave as it is.
use birdtest.Prelude.{ℕ, zero, suc, ◌≡◌, refl, ◌∙◌, true, false, List, [], ◌∷◌, arith}
use birdtest.Claims.Rows.{task_available, exists, count, update}
use birdtest.Leaves.Rows.{
  RackProgress, Occurrence, LeaveTask, Generation, GenerationConfig, Postgres, is_open_task,
  below_target, claims_in_flight, anything_staged, any_rack_below_target, universe_exists,
}
use birdtest.Leaves.Merges.{
  apply_all, folded, in_slice, merge_passes, merge_staged_in_slices, passes_of, universe_size,
  unnested,
}
use birdtest.Leaves.Events.{
  Event, submits, gives_back, merges, is_claim_of, stage_fold, submit, give_back, happen,
  happen_all,
}

abbrev pub racks_of : List RackProgress → List ℕ
racks_of [] = []
racks_of (p ∷ ps) = p.rack ∷ racks_of ps

-- What no event changes: the columns that claims write, and which racks there are; and no rack falls back
-- below its target.
pub record Beside (config : GenerationConfig) (g e : Generation) : Type 0 where
  pub clock : e.clock ≡ g.clock
  pub cursor_rack : e.cursor_rack ≡ g.cursor_rack
  pub transition : e.transition ≡ g.transition
  pub previous_artifact : e.previous_artifact ≡ g.previous_artifact
  pub closed : e.closed ≡ g.closed
  pub racks : racks_of e.racks ≡ racks_of g.racks
  pub at_target : any_rack_below_target config g ≡ false → any_rack_below_target config e ≡ false

apply_all-racks_of :
    (sums : List (ℕ × ℕ)) (ps : List RackProgress) → racks_of (apply_all sums ps) ≡ racks_of ps
apply_all-racks_of sums [] = refl
apply_all-racks_of sums (p ∷ ps) = ground (arith, apply_all-racks_of sums ps)

apply_all-at_target :
    (config : GenerationConfig) (sums : List (ℕ × ℕ)) (ps : List RackProgress)
    → exists (below_target config) ps ≡ false
    → exists (below_target config) (apply_all sums ps) ≡ false
apply_all-at_target config sums [] h = h
apply_all-at_target config sums (p ∷ ps) h = ground (arith, h, apply_all-at_target config sums ps)

module _ (pg : Postgres) (passes : ℕ) (os : List Occurrence) (ps : List RackProgress) where
  merge_passes-racks_of : (k : ℕ) → racks_of (merge_passes pg passes k os ps) ≡ racks_of ps
  unfolding merge_passes
  merge_passes-racks_of zero = refl
  merge_passes-racks_of (suc k) =
      apply_all-racks_of (folded (in_slice pg passes k) os) (merge_passes pg passes k os ps)
      ∙ merge_passes-racks_of k

  merge_passes-at_target :
      (config : GenerationConfig) (k : ℕ)
      → exists (below_target config) ps ≡ false
      → exists (below_target config) (merge_passes pg passes k os ps) ≡ false
  unfolding merge_passes
  merge_passes-at_target config zero h = h
  merge_passes-at_target config (suc k) h =
      apply_all-at_target config (folded (in_slice pg passes k) os) (merge_passes pg passes k os ps)
        (merge_passes-at_target config k h)

pub Beside-refl : {config : GenerationConfig} {g : Generation} → Beside config g g
Beside-refl = record {
  clock = refl;
  cursor_rack = refl;
  transition = refl;
  previous_artifact = refl;
  closed = refl;
  racks = refl;
  at_target = λ h. h;
}

pub Beside-trans :
    {config : GenerationConfig} {a b c : Generation}
    → Beside config a b
    → Beside config b c
    → Beside config a c
Beside-trans h k = record {
  clock = k.clock ∙ h.clock;
  cursor_rack = k.cursor_rack ∙ h.cursor_rack;
  transition = k.transition ∙ h.transition;
  previous_artifact = k.previous_artifact ∙ h.previous_artifact;
  closed = k.closed ∙ h.closed;
  racks = k.racks ∙ h.racks;
  at_target = λ t. k.at_target (h.at_target t);
}

pub racks_of-universe :
    (g e : Generation) → racks_of e.racks ≡ racks_of g.racks → universe_exists e ≡ universe_exists g
racks_of-universe g e h = list_pair g.racks e.racks h
  where
    list_pair :
        (ps qs : List RackProgress)
        → racks_of qs ≡ racks_of ps
        → (elim qs [ [] ↦ false | _ ∷ _ ↦ true ]) ≡ (elim ps [ [] ↦ false | _ ∷ _ ↦ true ])
    list_pair [] [] h = refl
    list_pair [] (q ∷ qs) h = ground (arith, h)
    list_pair (p ∷ ps) [] h = ground (arith, h)
    list_pair (p ∷ ps) (q ∷ qs) h = refl

pub record Quiet (g : Generation) : Type 0 where
  pub in_flight : claims_in_flight g ≡ 0
  pub staged : anything_staged g ≡ false

open_id :
    (task_id : ℕ) (ts : List LeaveTask)
    → count is_open_task ts ≡ 0
    → exists (is_claim_of task_id) ts ≡ false
open_id task_id [] h = refl
open_id task_id (t ∷ ts) h = ground (arith, h, open_id task_id ts)

given_back :
    (task_id : ℕ) (ts : List LeaveTask)
    → count is_open_task ts ≡ 0
    → count is_open_task
        (update (is_claim_of task_id) (λ t. record t { state = task_available }) ts)
      ≡ 0
given_back task_id [] h = refl
given_back task_id (t ∷ ts) h = ground (arith, h, given_back task_id ts)

module _ (pg : Postgres) (config : GenerationConfig) where
  pub happen-Beside : (v : Event) (g : Generation) → Beside config g (happen pg config v g)
  unfolding happen submit stage_fold give_back merge_staged_in_slices
  happen-Beside (submits task_id racks) g = record {
    clock = ground arith;
    cursor_rack = ground arith;
    transition = ground arith;
    previous_artifact = ground arith;
    closed = ground arith;
    racks = ground arith;
    at_target = λ h. ground (arith, h);
  }
  happen-Beside (gives_back task_id) g = record {
    clock = refl;
    cursor_rack = refl;
    transition = refl;
    previous_artifact = refl;
    closed = refl;
    racks = refl;
    at_target = λ h. h;
  }
  happen-Beside (merges racks_per_pass) g =
      let passes = passes_of (universe_size g) racks_per_pass in
      let os = unnested g.staging in
      record {
        clock = ground arith;
        cursor_rack = ground arith;
        transition = ground arith;
        previous_artifact = ground arith;
        closed = ground arith;
        racks = ground (arith, merge_passes-racks_of pg passes os g.racks passes);
        at_target =
            λ h. ground (arith, h, merge_passes-at_target pg passes os g.racks config passes h);
      }

  pub happen_all-Beside :
      (vs : List Event) (g : Generation) → Beside config g (happen_all pg config vs g)
  unfolding happen_all
  happen_all-Beside [] g = Beside-refl
  happen_all-Beside (v ∷ vs) g =
      Beside-trans (happen-Beside v g) (happen_all-Beside vs (happen pg config v g))

  -- With nothing in flight, nothing is staged any more.
  pub happen-idle :
      (v : Event) (g : Generation)
      → claims_in_flight g ≡ 0
      → (claims_in_flight (happen pg config v g) ≡ 0)
        × (anything_staged g ≡ false → anything_staged (happen pg config v g) ≡ false)
  unfolding happen submit stage_fold give_back merge_staged_in_slices
  happen-idle (submits task_id racks) g h =
      let none_open = open_id task_id g.tasks h in (rw none_open h, λ s. rw none_open s)
  happen-idle (gives_back task_id) g h = (given_back task_id g.tasks h, λ s. s)
  happen-idle (merges racks_per_pass) g h = (ground (arith, h), λ s. ground (arith, s))

  pub happen_all-idle :
      (vs : List Event) (g : Generation)
      → claims_in_flight g ≡ 0
      → claims_in_flight (happen_all pg config vs g) ≡ 0
  unfolding happen_all
  happen_all-idle [] g h = h
  happen_all-idle (v ∷ vs) g h = happen_all-idle vs (happen pg config v g) (happen-idle v g h).0

  pub happen_all-Quiet :
      (vs : List Event) (g : Generation) → Quiet g → Quiet (happen_all pg config vs g)
  unfolding happen_all
  happen_all-Quiet [] g h = h
  happen_all-Quiet (v ∷ vs) g h =
      let (idle, unstaged) = happen-idle v g h.in_flight in
      happen_all-Quiet vs (happen pg config v g)
        (record { in_flight = idle; staged = unstaged h.staged })
