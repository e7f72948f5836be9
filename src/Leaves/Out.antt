-- ===== src/Leaves/Out.antt =====
-- The racks that are out: forced by a task that is open, that waits to be reissued, or whose result is staged.
use birdtest.Prelude.{
  ℕ, ◌+◌, ◌≤◌, ◌≡◌, refl, ◌∙◌, inl, inr, Bool, Bool-cases, true, false, ◌||◌, List, [], ◌∷◌, ◌==◌,
  if◌then◌else◌, arith,
}
use birdtest.Claims.Rows.{task_available, task_completed, exists, count, update, append}
use birdtest.Claims.Slots.{exists-append, count-update_same}
use birdtest.Leaves.Rows.{
  Occurrence, Staged, LeaveTask, Generation, GenerationConfig, Postgres, is_open_task,
}
use birdtest.Leaves.Merges.{merge_staged_in_slices}
use birdtest.Leaves.Events.{
  Event, submits, gives_back, merges, is_claim_of, stage_fold, submit, give_back, happen,
  happen_all,
}

abbrev pub is_waiting : LeaveTask → Bool
is_waiting t = elim t.state [ task_available ↦ true | _ ↦ false ]

abbrev pub is_staged : List Staged → ℕ → Bool
is_staged staging task_id = exists (λ s. s.task_id == task_id) staging

abbrev pub is_out : List Staged → LeaveTask → Bool
is_out staging t = is_open_task t || is_waiting t || is_staged staging t.id

abbrev pub times : ℕ → List ℕ → ℕ
times rack rs = count (λ r. r == rack) rs

-- How many times a rack is out.
abbrev pub outs_of : List Staged → ℕ → List LeaveTask → ℕ
outs_of staging rack [] = 0
outs_of staging rack (t ∷ ts) =
    (if is_out staging t then times rack t.forced_racks else 0) + outs_of staging rack ts

abbrev pub outs : Generation → ℕ → ℕ
outs g rack = outs_of g.staging rack g.tasks

abbrev pub ids : ℕ → List LeaveTask → ℕ
ids task_id ts = count (λ t. t.id == task_id) ts

module _ (staging : List Staged) (racks : List Occurrence) (task_id rack : ℕ) where
  abbrev completed : List LeaveTask → List LeaveTask
  completed ts = update (is_claim_of task_id) (λ t. record t { state = task_completed }) ts

  abbrev staged_too : List Staged
  staged_too = append staging (record { task_id = task_id; racks = racks })

  is_staged-append :
      (other : ℕ) → is_staged staged_too other ≡ (is_staged staging other || (task_id == other))
  is_staged-append other =
      exists-append (λ s. s.task_id == other) staging (record { task_id = task_id; racks = racks })

  outs_of-completed :
      (ts : List LeaveTask) → outs_of staging rack (completed ts) ≤ outs_of staging rack ts
  outs_of-completed [] = omega arith
  outs_of-completed (t ∷ ts) = ground (arith, outs_of-completed ts)

  others_staged :
      (ts : List LeaveTask)
      → ids task_id ts ≡ 0
      → outs_of staged_too rack (completed ts) ≡ outs_of staging rack ts
  others_staged [] h = refl
  others_staged (t ∷ ts) h = ground (arith, h, is_staged-append t.id, others_staged ts)

  no_open : (ts : List LeaveTask) → ids task_id ts ≡ 0 → exists (is_claim_of task_id) ts ≡ false
  no_open [] h = refl
  no_open (t ∷ ts) h = ground (arith, h, no_open ts)

  outs_of-staged :
      (ts : List LeaveTask)
      → ids task_id ts ≤ 1
      → exists (is_claim_of task_id) ts ≡ true
      → outs_of staged_too rack (completed ts) ≡ outs_of staging rack ts
  outs_of-staged [] one h = refl
  outs_of-staged (t ∷ ts) one h = elim (Bool-cases (t.id == task_id)) [
    | inl same ↦
        let rest : ids task_id ts ≡ 0 = ground (arith, same, one) in
        ground (arith, same, h, no_open ts rest, is_staged-append t.id, others_staged ts rest)
    | inr other ↦ ground (
      arith,
      other,
      is_staged-append t.id,
      outs_of-staged ts (ground (arith, other, one)) (ground (arith, other, h)),
    )
  ]

  outs_of-given_back :
      (ts : List LeaveTask)
      → outs_of staging rack
          (update (is_claim_of task_id) (λ t. record t { state = task_available }) ts)
        ≡ outs_of staging rack ts
  outs_of-given_back [] = refl
  outs_of-given_back (t ∷ ts) = ground (arith, outs_of-given_back ts)

  outs_of-unstaged : (ts : List LeaveTask) → outs_of [] rack ts ≤ outs_of staging rack ts
  outs_of-unstaged [] = omega arith
  outs_of-unstaged (t ∷ ts) = ground (arith, outs_of-unstaged ts)

abbrev pub UniqueIds : Generation → Type 0
UniqueIds g = (task_id : ℕ) → ids task_id g.tasks ≤ 1

-- No event makes a task, or puts a rack out.
pub record Fewer (g e : Generation) : Type 0 where
  pub outs_le : (rack : ℕ) → outs e rack ≤ outs g rack
  pub ids_same : (task_id : ℕ) → ids task_id e.tasks ≡ ids task_id g.tasks

pub Fewer-refl : {g : Generation} → Fewer g g
Fewer-refl = record { outs_le = λ rack. omega arith; ids_same = λ i. refl }

pub Fewer-trans : {a b c : Generation} → Fewer a b → Fewer b c → Fewer a c
Fewer-trans h k = record {
  outs_le = λ rack. omega (arith, h.outs_le rack, k.outs_le rack);
  ids_same = λ i. k.ids_same i ∙ h.ids_same i;
}

pub Fewer-UniqueIds : {g e : Generation} → Fewer g e → UniqueIds g → UniqueIds e
Fewer-UniqueIds h u = λ i. omega (arith, h.ids_same i, u i)

-- A decline or a lapse, by which a task waits to be reissued.
abbrev pub is_give_back : Event → Bool
is_give_back (gives_back task_id) = true
is_give_back _ = false

abbrev pub waiting : Generation → ℕ
waiting g = count is_waiting g.tasks

module _ (pg : Postgres) (config : GenerationConfig) where
  submit-Fewer :
      (task_id : ℕ) (racks : List Occurrence) (g : Generation)
      → UniqueIds g
      → Fewer g (submit task_id racks g)
  unfolding submit stage_fold
  submit-Fewer task_id racks g u = record {
    outs_le = λ rack. ground (
      arith,
      outs_of-staged g.staging racks task_id rack g.tasks (u task_id),
      outs_of-completed g.staging racks task_id rack g.tasks,
    );
    ids_same = λ i. ground (
      arith,
      count-update_same (λ t. t.id == i) (is_claim_of task_id)
          (λ t. record t { state = task_completed }) (λ t. ground arith) g.tasks,
    );
  }

  pub happen-Fewer : (v : Event) (g : Generation) → UniqueIds g → Fewer g (happen pg config v g)
  unfolding happen give_back merge_staged_in_slices
  happen-Fewer (submits task_id racks) g u = submit-Fewer task_id racks g u
  happen-Fewer (gives_back task_id) g u = record {
    outs_le = λ rack. omega (arith, outs_of-given_back g.staging [] task_id rack g.tasks);
    ids_same = λ i.
        count-update_same (λ t. t.id == i) (is_claim_of task_id)
          (λ t. record t { state = task_available }) (λ t. ground arith) g.tasks;
  }
  happen-Fewer (merges racks_per_pass) g u = record {
    outs_le = λ rack. ground (arith, outs_of-unstaged g.staging [] 0 rack g.tasks);
    ids_same = λ i. ground arith;
  }

  pub happen_all-Fewer :
      (vs : List Event) (g : Generation) → UniqueIds g → Fewer g (happen_all pg config vs g)
  unfolding happen_all
  happen_all-Fewer [] g u = Fewer-refl
  happen_all-Fewer (v ∷ vs) g u =
      let h = happen-Fewer v g u in
      Fewer-trans h (happen_all-Fewer vs (happen pg config v g) (Fewer-UniqueIds h u))

  none_waits :
      (task_id : ℕ) (ts : List LeaveTask)
      → count is_waiting ts ≡ 0
      → count is_waiting
          (update (is_claim_of task_id) (λ t. record t { state = task_completed }) ts)
        ≡ 0
  none_waits task_id [] h = refl
  none_waits task_id (t ∷ ts) h = ground (arith, h, none_waits task_id ts)

  happen-waiting :
      (v : Event) (g : Generation)
      → is_give_back v ≡ false
      → waiting g ≡ 0
      → waiting (happen pg config v g) ≡ 0
  unfolding happen submit stage_fold merge_staged_in_slices
  happen-waiting (submits task_id racks) g other h = ground (arith, h, none_waits task_id g.tasks h)
  happen-waiting (gives_back task_id) g other h = absurd (ground (arith, other))
  happen-waiting (merges racks_per_pass) g other h = ground (arith, h)

  pub happen_all-waiting :
      (vs : List Event) (g : Generation)
      → exists is_give_back vs ≡ false
      → waiting g ≡ 0
      → waiting (happen_all pg config vs g) ≡ 0
  unfolding happen_all
  happen_all-waiting [] g other h = h
  happen_all-waiting (v ∷ vs) g other h =
      happen_all-waiting vs (happen pg config v g) (ground (arith, other))
        (happen-waiting v g (ground (arith, other)) h)
