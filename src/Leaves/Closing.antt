-- ===== src/Leaves/Closing.antt =====
-- When a claim starts a generation's transition: leave_gen.rs, `next_step` and what is under it.
use birdtest.Prelude.{
  ℕ, zero, suc, ◌+◌, ◌<◌, ◌≡◌, refl, ◌⊎◌, inl, inr, Bool, Bool-cases, false, ◌&&◌, List, [], ◌∷◌,
  none, some, ltb, ◌==◌, take, arith,
}
use birdtest.Claims.Rows.{exists}
use birdtest.Leaves.Rows.{
  RackProgress, Generation, GenerationConfig, Postgres, below_target, claims_in_flight,
  anything_staged, any_rack_below_target,
}
use birdtest.Leaves.Events.{happen_all}
use birdtest.Leaves.Selection.{
  LeaveGenStep, needs_merge, no_work_yet, Gaps, racks_where, racks_after, nothing_to_hand_out,
}
use birdtest.Leaves.Quiet.{
  racks_of, Beside, Beside-trans, Quiet, happen_all-Beside, happen_all-idle,
}

-- The empty text is no rack.
abbrev pub NoEmptyRack : Generation → Type 0
NoEmptyRack g = exists (λ r. r == 0) (racks_of g.racks) ≡ false

-- Nothing is missing from the counts, and every rack has its target.
pub record Complete (config : GenerationConfig) (g : Generation) : Type 0 where
  pub quiet : Quiet g
  pub at_target : any_rack_below_target config g ≡ false

pub racks_where-none :
    (p : RackProgress → Bool) (xs : List RackProgress) → racks_where p xs ≡ [] → exists p xs ≡ false
racks_where-none p [] h = refl
racks_where-none p (x ∷ xs) h = ground (arith, h, racks_where-none p xs)

none_after :
    (config : GenerationConfig) (xs : List RackProgress)
    → exists (λ r. r == 0) (racks_of xs) ≡ false
    → exists (λ p. ltb 0 p.rack && below_target config p) xs ≡ false
    → exists (below_target config) xs ≡ false
none_after config [] h e = refl
none_after config (x ∷ xs) h e = ground (arith, h, e, none_after config xs)

pub take-none {ℓ} : {A : Type ℓ} (n : ℕ) (xs : List A) → 0 < n → take n xs ≡ [] → xs ≡ []
take-none zero xs h e = absurd (omega arith)
take-none (suc n) [] h e = refl
take-none (suc n) (x ∷ xs) h e = absurd (ground (arith, e))

pub take_twice-none {ℓ} :
    {A : Type ℓ} (n : ℕ) (xs : List A) → 0 < n → take n (take (n + 1) xs) ≡ [] → xs ≡ []
take_twice-none n xs h e = take-none (n + 1) xs (omega arith) (take-none n (take (n + 1) xs) h e)

pub racks_after-none :
    (config : GenerationConfig) (g : Generation)
    → 0 < config.racks_per_task
    → NoEmptyRack g
    → (racks_after config 0 g).0 ≡ []
    → any_rack_below_target config g ≡ false
unfolding racks_after
racks_after-none config g some_racks positive h = none_after config g.racks positive (
    racks_where-none (λ p. ltb 0 p.rack && below_target config p) g.racks
      (take_twice-none config.racks_per_task
        (racks_where (λ p. ltb 0 p.rack && below_target config p) g.racks) some_racks h))

module _ (pg : Postgres) (config : GenerationConfig) (gaps : Gaps) where
  pub nothing_to_hand_out-Beside :
      (i : ℕ) (g : Generation) → Beside config g (nothing_to_hand_out pg config gaps i g).0
  unfolding nothing_to_hand_out
  nothing_to_hand_out-Beside i g =
      let first = happen_all pg config (gaps i) g in
      let second = happen_all pg config (gaps (suc i)) first in
      let one = happen_all-Beside pg config (gaps i) g in
      let two = Beside-trans one (happen_all-Beside pg config (gaps (suc i)) first) in
      elim (Bool-cases (ltb 0 (claims_in_flight first))) [
        | inl busy ↦ rw busy one
        | inr idle ↦ elim (Bool-cases (anything_staged second)) [
          | inl staged ↦ rw (idle, staged) two
          | inr unstaged ↦ rw (idle, unstaged) two
        ]
      ]

  pub nothing_to_hand_out-Quiet :
      (i : ℕ) (g : Generation)
      → (nothing_to_hand_out pg config gaps i g).1 ≡ none
      → Quiet (nothing_to_hand_out pg config gaps i g).0
  unfolding nothing_to_hand_out
  nothing_to_hand_out-Quiet i g h =
      let first = happen_all pg config (gaps i) g in
      let second = happen_all pg config (gaps (suc i)) first in
      elim (Bool-cases (ltb 0 (claims_in_flight first))) [
        | inl busy ↦ absurd (ground (arith, busy, h))
        | inr idle ↦ elim (Bool-cases (anything_staged second)) [
          | inl staged ↦ absurd (ground (arith, idle, staged, h))
          | inr unstaged ↦
              rw (idle, unstaged)
                (record {
                  in_flight = happen_all-idle pg config (gaps (suc i)) first (ground (arith, idle));
                  staged = unstaged;
                })
        ]
      ]

  pub nothing_to_hand_out-steps :
      (i : ℕ) (g : Generation) (step : LeaveGenStep)
      → (nothing_to_hand_out pg config gaps i g).1 ≡ some step
      → (step ≡ no_work_yet) ⊎ (step ≡ needs_merge)
  unfolding nothing_to_hand_out
  nothing_to_hand_out-steps i g step h =
      let first = happen_all pg config (gaps i) g in
      let second = happen_all pg config (gaps (suc i)) first in
      elim (Bool-cases (ltb 0 (claims_in_flight first))) [
        | inl busy ↦ inl (ground (arith, busy, h))
        | inr idle ↦ elim (Bool-cases (anything_staged second)) [
          | inl staged ↦ inr (ground (arith, idle, staged, h))
          | inr unstaged ↦ absurd (ground (arith, idle, unstaged, h))
        ]
      ]
