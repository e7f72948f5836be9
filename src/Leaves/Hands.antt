-- ===== src/Leaves/Hands.antt =====
-- What a selection hands out is not out: leave_gen.rs, `next_step` and what is under it.
use birdtest.Prelude.{
  ℕ, suc, ◌+◌, ◌≤◌, ◌<◌, ◌≡◌, sym, ap, ◌∙◌, subst, inl, inr, Bool-cases, true, false, List, [],
  some, ltb, arith,
}
use birdtest.Claims.Rows.{exists}
use birdtest.Leaves.Rows.{Generation, GenerationConfig, Postgres, claims_in_flight, anything_staged}
use birdtest.Leaves.Events.{happen_all}
use birdtest.Leaves.Selection.{
  LeaveGenStep, dispatch, Selected, selected_racks, selected_step, Gaps, nothing_to_hand_out,
  claim_transition,
}
use birdtest.Leaves.Quiet.{racks_of, happen_all-Beside}
use birdtest.Leaves.Closing.{nothing_to_hand_out-Beside, nothing_to_hand_out-steps}
use birdtest.Leaves.Steps.{is_ascending}
use birdtest.Leaves.Out.{
  times, outs, waiting, UniqueIds, Fewer, Fewer-trans, Fewer-UniqueIds, is_give_back,
  happen_all-Fewer, happen_all-waiting,
}

-- Between the statements of a claim no task is given back.
abbrev pub NoGiveBack : Gaps → Type 0
NoGiveBack gaps = (i : ℕ) → exists is_give_back (gaps i) ≡ false

-- No rack is out twice, and in a lap none is out beyond its cursor.
pub record Fair (g : Generation) : Type 0 where
  pub unique : UniqueIds g
  pub once : (rack : ℕ) → outs g rack ≤ 1
  pub sorted : is_ascending 0 (racks_of g.racks) ≡ true
  pub behind : (c rack : ℕ) → g.cursor_rack ≡ some (some c) → c < rack → outs g rack ≡ 0

abbrev pub forced_of : Selected → List ℕ
forced_of s = elim s [
  | selected_racks racks ↦ racks
  | selected_step (dispatch racks) ↦ racks
  | _ ↦ []
]

-- What a claim picked, beside what is out.
pub record Hands (g e : Generation) (picked : List ℕ) : Type 0 where
  pub fewer : Fewer g e
  pub racks : racks_of e.racks ≡ racks_of g.racks
  pub once : (rack : ℕ) → times rack picked + outs e rack ≤ 1
  pub behind :
      (c rack : ℕ) → e.cursor_rack ≡ some (some c) → c < rack → times rack picked + outs e rack ≡ 0

pub Fair-after :
    (g e : Generation)
    → Fair g
    → Fewer g e
    → racks_of e.racks ≡ racks_of g.racks
    → ((c : ℕ) → e.cursor_rack ≡ some (some c) → g.cursor_rack ≡ some (some c))
    → Fair e
Fair-after g e h fewer racks cursor = record {
  unique = Fewer-UniqueIds fewer h.unique;
  once = λ rack. omega (arith, fewer.outs_le rack, h.once rack);
  sorted = subst (λ l. is_ascending 0 l ≡ true) (sym racks) h.sorted;
  behind = λ c rack at lt. omega (arith, fewer.outs_le rack, h.behind c rack (cursor c at) lt);
}

-- Nothing picked.
pub Hands-none :
    (g e : Generation) → Fair e → Fewer g e → racks_of e.racks ≡ racks_of g.racks → Hands g e []
Hands-none g e h fewer racks = record {
  fewer = fewer;
  racks = racks;
  once = λ rack. omega (arith, h.once rack);
  behind = λ c rack at lt. omega (arith, h.behind c rack at lt);
}

pub Hands-after :
    (g a e : Generation) (picked : List ℕ)
    → Fewer g a
    → racks_of a.racks ≡ racks_of g.racks
    → Hands a e picked
    → Hands g e picked
Hands-after g a e picked fewer racks h = record {
  fewer = Fewer-trans fewer h.fewer;
  racks = h.racks ∙ racks;
  once = h.once;
  behind = h.behind;
}

pub Hands-Fair : (g e : Generation) → Fair g → Hands g e [] → Fair e
Hands-Fair g e h k = record {
  unique = Fewer-UniqueIds k.fewer h.unique;
  once = λ rack. omega (arith, k.once rack);
  sorted = subst (λ l. is_ascending 0 l ≡ true) (sym k.racks) h.sorted;
  behind = λ c rack at lt. omega (arith, k.behind c rack at lt);
}

module _ (pg : Postgres) (config : GenerationConfig) (gaps : Gaps) where
  module _ (i : ℕ) (g : Generation) (h : Fair g) where
    abbrev gap : Generation
    gap = happen_all pg config (gaps i) g

    pub gap-Fewer : Fewer g gap
    gap-Fewer = happen_all-Fewer pg config (gaps i) g h.unique

    pub gap-racks : racks_of gap.racks ≡ racks_of g.racks
    gap-racks = let b = happen_all-Beside pg config (gaps i) g in b.racks

    pub gap-Fair : Fair gap
    gap-Fair =
        let b = happen_all-Beside pg config (gaps i) g in
        Fair-after g gap h gap-Fewer gap-racks (λ c at. sym b.cursor_rack ∙ at)

  pub step_alone :
      (i : ℕ) (g : Generation) (step : LeaveGenStep)
      → (nothing_to_hand_out pg config gaps i g).1 ≡ some step
      → forced_of (selected_step step) ≡ []
  step_alone i g step reason = elim (nothing_to_hand_out-steps pg config gaps i g step reason) [
    | inl same ↦ ap (λ s. forced_of (selected_step s)) same
    | inr same ↦ ap (λ s. forced_of (selected_step s)) same
  ]

  module _ (kept : NoGiveBack gaps) where
    pub nothing_to_hand_out-Fewer :
        (i : ℕ) (g : Generation)
        → Fair g
        → Fewer g (nothing_to_hand_out pg config gaps i g).0
          × (waiting g ≡ 0 → waiting (nothing_to_hand_out pg config gaps i g).0 ≡ 0)
    unfolding nothing_to_hand_out
    nothing_to_hand_out-Fewer i g h =
        let first = gap i g h in
        let h1 = gap-Fair i g h in
        let second = gap (suc i) first h1 in
        let one = gap-Fewer i g h in
        let two = Fewer-trans one (gap-Fewer (suc i) first h1) in
        let w1 = happen_all-waiting pg config (gaps i) g (kept i) in
        let w2 = happen_all-waiting pg config (gaps (suc i)) first (kept (suc i)) in
        elim (Bool-cases (ltb 0 (claims_in_flight first))) [
          | inl busy ↦ rw (busy, nothing_to_hand_out) (one, w1)
          | inr idle ↦ elim (Bool-cases (anything_staged second)) [
            | inl staged ↦ rw (idle, staged, nothing_to_hand_out) (two, λ w. w2 (w1 w))
            | inr unstaged ↦ rw (idle, unstaged, nothing_to_hand_out) (two, λ w. w2 (w1 w))
          ]
        ]

    -- The state in which the two reads left it.
    pub nothing_to_hand_out-Fair :
        (i : ℕ) (g : Generation) → Fair g → Fair (nothing_to_hand_out pg config gaps i g).0
    nothing_to_hand_out-Fair i g h =
        let b = nothing_to_hand_out-Beside pg config gaps i g in
        Fair-after g (nothing_to_hand_out pg config gaps i g).0 h
          (nothing_to_hand_out-Fewer i g h).0 b.racks (λ c at. sym b.cursor_rack ∙ at)

pub claim_transition-Hands :
    (now : ℕ) (g e : Generation)
    → Fair e
    → Fewer g e
    → racks_of e.racks ≡ racks_of g.racks
    → let r = claim_transition now e in Hands g r.0 (forced_of (selected_step r.1))
unfolding claim_transition
claim_transition-Hands now g e h fewer racks = record {
  fewer = record {
    outs_le = λ rack. ground (arith, fewer.outs_le rack);
    ids_same = λ i. ground (arith, fewer.ids_same i);
  };
  racks = ground (arith, racks);
  once = λ rack. ground (arith, h.once rack);
  behind = λ c rack at lt. ground (arith, h.behind c rack, at, lt);
}
