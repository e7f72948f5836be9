-- ===== src/Leaves/Picks.antt =====
-- The racks that a selection's query gives: leave_gen.rs, `racks_after` and the query of
-- `furthest_below_target`.
use birdtest.Prelude.{
  ℕ, zero, suc, ◌+◌, ◌≤◌, ◌<◌, ◌≡◌, refl, ap, ◌∙◌, inl, inr, Bool, Bool-cases, Option-cases, true,
  false, not, ◌&&◌, List, [], ◌∷◌, none, some, ltb, ◌==◌, take, arith,
}
use birdtest.Claims.Rows.{exists, count}
use birdtest.Leaves.Rows.{
  RackProgress, Staged, LeaveTask, Generation, GenerationConfig, Postgres, is_open_task,
  below_target,
}
use birdtest.Leaves.Selection.{
  racks_where, racks_after, last, holds_out, is_out_now, furthest_racks,
}
use birdtest.Leaves.Quiet.{racks_of, Quiet}
use birdtest.Leaves.Steps.{is_ascending}
use birdtest.Leaves.Out.{times, outs, outs_of, is_waiting, waiting}

-- An index gives the rows that there are.
abbrev pub Permutes : Postgres → Type 0
Permutes pg =
    (p : RackProgress → Bool) (xs : List RackProgress) → count p (pg.by_count xs) ≡ count p xs

times-racks_where :
    (rack : ℕ) (p : RackProgress → Bool) (xs : List RackProgress)
    → times rack (racks_where p xs) ≡ count (λ x. p x && x.rack == rack) xs
times-racks_where rack p [] = refl
times-racks_where rack p (x ∷ xs) = ground (arith, times-racks_where rack p xs)

times-take : (rack n : ℕ) (rs : List ℕ) → times rack (take n rs) ≤ times rack rs
times-take rack zero rs = omega arith
times-take rack (suc n) [] = omega arith
times-take rack (suc n) (r ∷ rs) = omega (arith, times-take rack n rs)

count-and :
    (p q : RackProgress → Bool) (xs : List RackProgress) → count (λ x. p x && q x) xs ≤ count q xs
count-and p q [] = omega arith
count-and p q (x ∷ xs) = ground (arith, count-and p q xs)

above_none :
    (above rack : ℕ) (xs : List RackProgress)
    → is_ascending above (racks_of xs) ≡ true
    → rack ≤ above
    → count (λ x. x.rack == rack) xs ≡ 0
above_none above rack [] h le = refl
above_none above rack (x ∷ xs) h le = ground (arith, h, le, above_none x.rack rack xs)

ascending_once :
    (above rack : ℕ) (xs : List RackProgress)
    → is_ascending above (racks_of xs) ≡ true
    → count (λ x. x.rack == rack) xs ≤ 1
ascending_once above rack [] h = omega arith
ascending_once above rack (x ∷ xs) h =
    ground (arith, h, above_none x.rack rack xs, ascending_once x.rack rack xs)

is_ascending-weaken :
    (above below : ℕ) (rs : List ℕ)
    → below ≤ above
    → is_ascending above rs ≡ true
    → is_ascending below rs ≡ true
is_ascending-weaken above below [] le h = h
is_ascending-weaken above below (r ∷ rs) le h = ground (arith, le, h)

racks_where-ascending :
    (above : ℕ) (p : RackProgress → Bool) (xs : List RackProgress)
    → is_ascending above (racks_of xs) ≡ true
    → is_ascending above (racks_where p xs) ≡ true
racks_where-ascending above p [] h = h
racks_where-ascending above p (x ∷ xs) h = ground (
  arith,
  h,
  racks_where-ascending x.rack p xs,
  is_ascending-weaken x.rack above (racks_where p xs),
)

take-ascending :
    (above n : ℕ) (rs : List ℕ)
    → is_ascending above rs ≡ true
    → is_ascending above (take n rs) ≡ true
take-ascending above zero rs h = refl
take-ascending above (suc n) [] h = refl
take-ascending above (suc n) (r ∷ rs) h = ground (arith, h, take-ascending r n rs)

-- The last of a list in order is the greatest.
last-times :
    (above l rack : ℕ) (rs : List ℕ)
    → is_ascending above rs ≡ true
    → last rs ≡ some l
    → (above < l) × (l < rack → times rack rs ≡ 0)
last-times above l rack [] h e = absurd (ground (arith, e))
last-times above l rack (r ∷ rs) h e = elim (Option-cases (last rs)) [
  | inl none_after ↦
      (ground (arith, h, e, none_after), λ lt. ground (arith, h, e, none_after, lt, last-none rs))
  | inr (s, found) ↦
      let same : s ≡ l = ground (arith, found, e) in
      let (up, rest) = last-times r l rack rs (ground (arith, h)) (ground (arith, found, same)) in
      (ground (arith, h, up), λ lt. ground (arith, h, up, lt, rest lt))
]
  where
    last-none : (rs : List ℕ) → last rs ≡ none → rs ≡ []
    last-none [] e = refl
    last-none (r ∷ rs) e = absurd (ground (arith, e))

pub last-times_self : (l : ℕ) (rs : List ℕ) → last rs ≡ some l → 0 < times l rs
last-times_self l [] e = absurd (ground (arith, e))
last-times_self l (r ∷ rs) e = elim (Option-cases (last rs)) [
  | inl none_after ↦ ground (arith, e, none_after)
  | inr (s, found) ↦
      let same : s ≡ l = ground (arith, found, e) in
      ground (arith, last-times_self l rs (ground (arith, found, same)))
]

count-none :
    (p : RackProgress → Bool) (xs : List RackProgress)
    → ((x : RackProgress) → p x ≡ false)
    → count p xs ≡ 0
count-none p [] h = refl
count-none p (x ∷ xs) h = ground (arith, h x, count-none p xs h)

module _ (config : GenerationConfig) (after : ℕ) (g : Generation)
    (sorted : is_ascending 0 (racks_of g.racks) ≡ true) where
  abbrev wanted : RackProgress → Bool
  wanted p = ltb after p.rack && below_target config p

  abbrev all_after : List ℕ
  all_after = racks_where wanted g.racks

  racks_after-times_le :
      (rack : ℕ) → times rack (racks_after config after g).0 ≤ times rack all_after
  unfolding racks_after
  racks_after-times_le rack = omega (
    arith,
    times-take rack config.racks_per_task (take (config.racks_per_task + 1) all_after),
    times-take rack (config.racks_per_task + 1) all_after,
  )

  pub racks_after-once : (rack : ℕ) → times rack (racks_after config after g).0 ≤ 1
  racks_after-once rack = omega (
    arith,
    racks_after-times_le rack,
    times-racks_where rack wanted g.racks,
    count-and wanted (λ x. x.rack == rack) g.racks,
    ascending_once 0 rack g.racks sorted,
  )

  pub racks_after-behind : (rack : ℕ) → rack ≤ after → times rack (racks_after config after g).0 ≡ 0
  racks_after-behind rack le = omega (
    arith,
    racks_after-times_le rack,
    times-racks_where rack wanted g.racks,
    count-none (λ x. wanted x && x.rack == rack) g.racks (λ x. ground (arith, le)),
  )

  pub racks_after-last :
      (l rack : ℕ)
      → last (racks_after config after g).0 ≡ some l
      → l < rack
      → times rack (racks_after config after g).0 ≡ 0
  unfolding racks_after
  racks_after-last l rack e lt =
      (last-times 0 l rack (racks_after config after g).0
          (take-ascending 0 config.racks_per_task (take (config.racks_per_task + 1) all_after) (
            take-ascending 0 (config.racks_per_task + 1) all_after
              (racks_where-ascending 0 wanted g.racks sorted)))
          e).1
        lt

-- Nothing open, waiting or staged is nothing out.
pub Quiet-outs : (g : Generation) (rack : ℕ) → Quiet g → waiting g ≡ 0 → outs g rack ≡ 0
Quiet-outs g rack q w = go g.staging g.tasks (ground (arith, q.staged)) q.in_flight w
  where
    go :
        (staging : List Staged) (ts : List LeaveTask)
        → staging ≡ []
        → count is_open_task ts ≡ 0
        → count is_waiting ts ≡ 0
        → outs_of staging rack ts ≡ 0
    go staging [] e o w = refl
    go staging (t ∷ ts) e o w = ground (arith, e, o, w, go staging ts e)

times-none : (rack : ℕ) (rs : List ℕ) → exists (λ r. r == rack) rs ≡ false → times rack rs ≡ 0
times-none rack [] h = refl
times-none rack (r ∷ rs) h = ground (arith, h, times-none rack rs)

not_out_now :
    (staging : List Staged) (rack : ℕ) (ts : List LeaveTask)
    → count is_waiting ts ≡ 0
    → exists (λ t. holds_out staging t && exists (λ r. r == rack) t.forced_racks) ts ≡ false
    → outs_of staging rack ts ≡ 0
not_out_now staging rack [] w h = refl
not_out_now staging rack (t ∷ ts) w h =
    ground (arith, w, h, times-none rack t.forced_racks, not_out_now staging rack ts)

module _ (pg : Postgres) (config : GenerationConfig) (g : Generation) (permutes : Permutes pg)
    (sorted : is_ascending 0 (racks_of g.racks) ≡ true) (w : waiting g ≡ 0) where
  abbrev short : RackProgress → Bool
  short p = below_target config p && not (is_out_now g p.rack)

  furthest_racks-times_le :
      (rack : ℕ)
      → times rack (furthest_racks pg config g) ≤ count (λ x. short x && x.rack == rack) g.racks
  unfolding furthest_racks
  furthest_racks-times_le rack = omega (
    arith,
    times-take rack config.racks_per_task (racks_where short (pg.by_count g.racks)),
    times-racks_where rack short (pg.by_count g.racks),
    permutes (λ x. short x && x.rack == rack) g.racks,
  )

  none_short :
      (rack : ℕ) (x : RackProgress) → is_out_now g rack ≡ true → (short x && x.rack == rack) ≡ false
  none_short rack x out = elim (Bool-cases (x.rack == rack)) [
    | inr other ↦ ground (arith, other)
    | inl same ↦
        let e : is_out_now g x.rack ≡ true = ap (is_out_now g) (ground (arith, same)) ∙ out in
        ground (arith, same, e)
  ]

  picked_once : (rack : ℕ) → times rack (furthest_racks pg config g) ≤ 1
  picked_once rack = omega (
    arith,
    furthest_racks-times_le rack,
    count-and short (λ x. x.rack == rack) g.racks,
    ascending_once 0 rack g.racks sorted,
  )

  -- A rack that is out is not picked, and no rack is picked twice.
  pub furthest_racks-free :
      (rack : ℕ) → outs g rack ≤ 1 → times rack (furthest_racks pg config g) + outs g rack ≤ 1
  furthest_racks-free rack one = elim (Bool-cases (is_out_now g rack)) [
    | inl out ↦ omega (
      arith,
      one,
      furthest_racks-times_le rack,
      count-none (λ x. short x && x.rack == rack) g.racks (λ x. none_short rack x out),
    )
    | inr free ↦ omega (arith, picked_once rack, not_out_now g.staging rack g.tasks w free)
  ]
