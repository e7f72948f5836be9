-- ===== src/Leaves/Handing.antt =====
-- What the two selections hand out is not out: leave_gen.rs, `sweep` and `furthest_below_target`.
use birdtest.Prelude.{
  ℕ, ◌+◌, ◌≤◌, ◌<◌, ◌≡◌, sym, ◌∙◌, subst, inl, inr, Bool-cases, Option-cases, List-cases, ◌∷◌, none,
  some, arith,
}
use birdtest.Leaves.Rows.{Generation, GenerationConfig, Postgres, any_rack_below_target}
use birdtest.Leaves.Events.{happen_all}
use birdtest.Leaves.Selection.{
  Gaps, racks_after, last, nothing_to_hand_out, furthest_racks, furthest_below_target, sweep,
}
use birdtest.Leaves.Quiet.{Quiet, happen_all-Beside, happen_all-Quiet}
use birdtest.Leaves.Closing.{nothing_to_hand_out-Beside}
use birdtest.Leaves.Out.{times, outs, waiting, Fewer-trans, happen_all-waiting}
use birdtest.Leaves.Picks.{
  Permutes, racks_after-once, racks_after-last, Quiet-outs, furthest_racks-free,
}
use birdtest.Leaves.Hands.{
  NoGiveBack, Fair, forced_of, Hands, Hands-none, gap-Fewer, gap-Fair, gap-racks,
  nothing_to_hand_out-Fewer, nothing_to_hand_out-Fair, step_alone, claim_transition-Hands,
}

module _ (pg : Postgres) (config : GenerationConfig) (now : ℕ) (gaps : Gaps)
    (permutes : Permutes pg) (kept : NoGiveBack gaps) where
  pub furthest_below_target-Hands :
      (g : Generation)
      → Fair g
      → waiting g ≡ 0
      → g.cursor_rack ≡ some none
      → let r = furthest_below_target pg config now gaps g in Hands g r.0 (forced_of r.1)
  unfolding furthest_below_target
  furthest_below_target-Hands g h w tail =
      let read = happen_all pg config (gaps 4) g in
      let h1 = gap-Fair pg config gaps 4 g h in
      let f1 = gap-Fewer pg config gaps 4 g h in
      let r1 = gap-racks pg config gaps 4 g h in
      let w1 = happen_all-waiting pg config (gaps 4) g (kept 4) w in
      let why = nothing_to_hand_out pg config gaps 5 read in
      let h2 = nothing_to_hand_out-Fair pg config gaps kept 5 read h1 in
      let f2 = Fewer-trans f1 (nothing_to_hand_out-Fewer pg config gaps kept 5 read h1).0 in
      let b2 = nothing_to_hand_out-Beside pg config gaps 5 read in
      let r2 = b2.racks ∙ r1 in
      let again = happen_all pg config (gaps 7) why.0 in
      let h3 = gap-Fair pg config gaps 7 why.0 h2 in
      let f3 = Fewer-trans f2 (gap-Fewer pg config gaps 7 why.0 h2) in
      let r3 = gap-racks pg config gaps 7 why.0 h2 ∙ r2 in
      let b1 = happen_all-Beside pg config (gaps 4) g in
      elim (List-cases (furthest_racks pg config read)) [
        | inr (r, rs, found) ↦
            rw (found, furthest_below_target)
              (record {
                fewer = f1;
                racks = r1;
                once = λ rack.
                    subst (λ l. times rack l + outs read rack ≤ 1) found
                      (furthest_racks-free pg config read permutes h1.sorted w1 rack
                        (h1.once rack));
                behind = λ c rack at lt. absurd (ground (arith, at, b1.cursor_rack, tail));
              })
        | inl empty ↦ elim (Option-cases why.1) [
          | inr (step, reason) ↦
              rw (empty, reason, furthest_below_target)
                (subst (Hands g why.0) (sym (step_alone pg config gaps 5 read step reason))
                  (Hands-none g why.0 h2 f2 r2))
          | inl free ↦ elim (Bool-cases (any_rack_below_target config again)) [
            | inl below ↦
                rw (empty, free, below, furthest_below_target) (Hands-none g again h3 f3 r3)
            | inr reached ↦
                rw (empty, free, reached, furthest_below_target)
                  (claim_transition-Hands now g again h3 f3 r3)
          ]
        ]
      ]

  pub sweep-Hands :
      (g : Generation)
      → Fair g
      → Quiet g
      → waiting g ≡ 0
      → g.cursor_rack ≡ none
      → let r = sweep pg config now gaps g in Hands g r.0 (forced_of r.1)
  unfolding sweep
  sweep-Hands g h q w boundary =
      let read = happen_all pg config (gaps 4) g in
      let h1 = gap-Fair pg config gaps 4 g h in
      let f1 = gap-Fewer pg config gaps 4 g h in
      let r1 = gap-racks pg config gaps 4 g h in
      let found = racks_after config 0 read in
      let b = happen_all-Beside pg config (gaps 4) g in
      let nothing_out : (rack : ℕ) → outs read rack ≡ 0 = λ rack.
        Quiet-outs read rack (happen_all-Quiet pg config (gaps 4) g q)
          (happen_all-waiting pg config (gaps 4) g (kept 4) w) in
      elim (List-cases found.0) [
        | inl empty ↦ rw (empty, sweep) (claim_transition-Hands now g read h1 f1 r1)
        | inr (r, rs, some_found) ↦
            let once : (rack : ℕ) → times rack (r ∷ rs) ≤ 1 = λ rack.
              subst (λ l. times rack l ≤ 1) some_found
                (racks_after-once config 0 read h1.sorted rack) in
            let end : (l rack : ℕ) → last (r ∷ rs) ≡ some l → l < rack → times rack (r ∷ rs) ≡ 0 =
              λ l rack.
                subst (λ k. last k ≡ some l → l < rack → times rack k ≡ 0) some_found
                  (racks_after-last config 0 read h1.sorted l rack) in
            rw (some_found, sweep)
              (record {
                fewer = record {
                  outs_le = λ rack. ground (arith, f1.outs_le rack);
                  ids_same = λ i. ground (arith, f1.ids_same i);
                };
                racks = ground (arith, r1);
                once = λ rack. ground (arith, once rack, nothing_out rack);
                behind = λ c rack at lt.
                    ground (arith, at, lt, end c rack, nothing_out rack, b.cursor_rack, boundary);
              })
      ]
