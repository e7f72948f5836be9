-- ===== src/Leaves/Handed.antt =====
-- What a claim hands out is not out: leave_gen.rs, `at_boundary`, `continue_lap` and `next_step`.
use birdtest.Prelude.{
  ℕ, ◌*◌, ◌≡◌, refl, sym, ap, ◌∙◌, subst, ◌⊎◌, inl, inr, Bool-cases, Option-cases, List-cases, List,
  [], Option, none, some, leb, arith,
}
use birdtest.Leaves.Rows.{Generation, GenerationConfig, Postgres}
use birdtest.Leaves.Events.{happen_all}
use birdtest.Leaves.Selection.{
  Selected, selected_racks, Gaps, racks_after, last, nothing_to_hand_out, furthest_below_target,
  sweep, continue_lap, racks_short, sweep_while_tasks_remain, at_boundary, after_lap, select,
}
use birdtest.Leaves.Quiet.{Beside-trans, happen_all-Beside, happen_all-Quiet}
use birdtest.Leaves.Closing.{nothing_to_hand_out-Beside, nothing_to_hand_out-Quiet}
use birdtest.Leaves.Out.{waiting, Fewer-trans, happen_all-waiting}
use birdtest.Leaves.Picks.{
  Permutes, racks_after-once, racks_after-behind, racks_after-last, last-times_self,
}
use birdtest.Leaves.Hands.{
  NoGiveBack, Fair, forced_of, Hands, Hands-none, Hands-after, Hands-Fair, gap-Fewer, gap-Fair,
  gap-racks, nothing_to_hand_out-Fewer, nothing_to_hand_out-Fair, step_alone,
}
use birdtest.Leaves.Handing.{furthest_below_target-Hands, sweep-Hands}

module _ (pg : Postgres) (config : GenerationConfig) (now : ℕ) (gaps : Gaps)
    (permutes : Permutes pg) (kept : NoGiveBack gaps) where
  at_boundary-Hands :
      (g : Generation)
      → Fair g
      → waiting g ≡ 0
      → g.cursor_rack ≡ none
      → let r = at_boundary pg config now gaps g in Hands g r.0 (forced_of r.1)
  unfolding at_boundary
  at_boundary-Hands g h w boundary =
      let why = nothing_to_hand_out pg config gaps 1 g in
      let h1 = nothing_to_hand_out-Fair pg config gaps kept 1 g h in
      let (f1, waits) = nothing_to_hand_out-Fewer pg config gaps kept 1 g h in
      let b1 = nothing_to_hand_out-Beside pg config gaps 1 g in
      let read = happen_all pg config (gaps 3) why.0 in
      let h2 = gap-Fair pg config gaps 3 why.0 h1 in
      let f2 = Fewer-trans f1 (gap-Fewer pg config gaps 3 why.0 h1) in
      let r2 = gap-racks pg config gaps 3 why.0 h1 ∙ b1.racks in
      let w2 = happen_all-waiting pg config (gaps 3) why.0 (kept 3) (waits w) in
      let b2 = Beside-trans b1 (happen_all-Beside pg config (gaps 3) why.0) in
      let tail : Generation = record read { cursor_rack = some none } in
      elim (Option-cases why.1) [
        | inr (step, reason) ↦
            rw (reason, at_boundary)
              (subst (Hands g why.0) (sym (step_alone pg config gaps 1 g step reason))
                (Hands-none g why.0 h1 f1 b1.racks))
        | inl free ↦
            elim (Bool-cases
              (leb (racks_short read) (sweep_while_tasks_remain * config.racks_per_task))) [
                | inl few ↦
                    rw (free, few, at_boundary)
                      (let after = furthest_below_target pg config now gaps tail in
                        Hands-after g tail after.0 (forced_of after.1)
                          (record { outs_le = f2.outs_le; ids_same = f2.ids_same }) r2
                          (furthest_below_target-Hands pg config now gaps permutes kept tail
                            (record {
                              unique = h2.unique;
                              once = h2.once;
                              sorted = h2.sorted;
                              behind = λ c rack at lt. absurd (ground (arith, at));
                            })
                            w2 refl))
                | inr many ↦
                    rw (free, many, at_boundary)
                      (let after = sweep pg config now gaps read in
                        Hands-after g read after.0 (forced_of after.1) f2 r2 (
                          sweep-Hands pg config now gaps permutes kept read h2
                            (happen_all-Quiet pg config (gaps 3) why.0
                              (nothing_to_hand_out-Quiet pg config gaps 1 g free))
                            w2 (b2.cursor_rack ∙ boundary)))
              ]
      ]

  -- A lap that goes on hands out from beyond its cursor.
  continue_lap-Hands :
      (g : Generation) (cursor : ℕ)
      → Fair g
      → g.cursor_rack ≡ some (some cursor)
      → let found = racks_after config cursor (happen_all pg config (gaps 0) g) in
        Hands g (continue_lap pg config gaps cursor g).0 found.0
  unfolding continue_lap
  continue_lap-Hands g cursor h mid =
      let read = happen_all pg config (gaps 0) g in
      let h1 = gap-Fair pg config gaps 0 g h in
      let f1 = gap-Fewer pg config gaps 0 g h in
      let r1 = gap-racks pg config gaps 0 g h in
      let b = happen_all-Beside pg config (gaps 0) g in
      let found = racks_after config cursor read in
      let here : read.cursor_rack ≡ some (some cursor) = b.cursor_rack ∙ mid in
      record {
        fewer = record {
          outs_le = λ rack. ground (arith, f1.outs_le rack);
          ids_same = λ i. ground (arith, f1.ids_same i);
        };
        racks = ground (arith, r1);
        once = λ rack. ground (
          arith,
          racks_after-once config cursor read h1.sorted rack,
          racks_after-behind config cursor read h1.sorted rack,
          h1.once rack,
          h1.behind cursor rack here,
        );
        behind = λ c rack at lt. elim (Bool-cases found.1) [
          | inr over ↦ absurd (ground (arith, over, at))
          | inl more ↦
              let end : last found.0 ≡ some c = ground (arith, more, at) in
              ground (
                arith,
                racks_after-last config cursor read h1.sorted c rack end lt,
                racks_after-behind config cursor read h1.sorted c,
                last-times_self c found.0 end,
                lt,
                h1.behind cursor rack here,
              )
        ];
      }

  after_lap-Hands :
      (g : Generation) (lap : Generation × Option Selected) (picked : List ℕ)
      → Fair g
      → Hands g lap.0 picked
      → waiting lap.0 ≡ 0
      → (lap.1 ≡ some (selected_racks picked))
        ⊎ ((lap.1 ≡ none) × (picked ≡ []) × (lap.0.cursor_rack ≡ none))
      → let r = after_lap lap (at_boundary pg config now gaps lap.0) in Hands g r.0 (forced_of r.1)
  after_lap-Hands g (e, some found) picked h k w (inl same) =
      let here : found ≡ selected_racks picked = ground (arith, same) in
      subst (Hands g e) (sym (ap forced_of here)) k
  after_lap-Hands g (e, none) picked h k w (inl same) = absurd (ground (arith, same))
  after_lap-Hands g (e, some found) picked h k w (inr (none_left, empty, over)) =
      absurd (ground (arith, none_left))
  after_lap-Hands g (e, none) picked h k w (inr (none_left, empty, over)) =
      let after = at_boundary pg config now gaps e in
      Hands-after g e after.0 (forced_of after.1) k.fewer k.racks
        (at_boundary-Hands e (Hands-Fair g e h (subst (Hands g e) empty k)) w over)

  lap-Hands :
      (g : Generation) (cursor : ℕ)
      → Fair g
      → waiting g ≡ 0
      → g.cursor_rack ≡ some (some cursor)
      → let lap = continue_lap pg config gaps cursor g in
        let r = after_lap lap (at_boundary pg config now gaps lap.0) in Hands g r.0 (forced_of r.1)
  unfolding continue_lap
  lap-Hands g cursor h w mid =
      let read = happen_all pg config (gaps 0) g in
      let found = racks_after config cursor read in
      let lap = continue_lap pg config gaps cursor g in
      let w1 = happen_all-waiting pg config (gaps 0) g (kept 0) w in
      after_lap-Hands g lap found.0 h (continue_lap-Hands g cursor h mid) (ground (arith, w1))
        (elim (Bool-cases found.1) [
          | inl more ↦ inl (ground (arith, more))
          | inr over ↦ elim (List-cases found.0) [
            | inr (r, rs, some_found) ↦ inl (ground (arith, over, some_found))
            | inl empty ↦ inr (ground (arith, over, empty), empty, ground (arith, over))
          ]
        ])

  pub select-Hands :
      (g : Generation)
      → Fair g
      → waiting g ≡ 0
      → let r = select pg config now gaps g in Hands g r.0 (forced_of r.1)
  unfolding select
  select-Hands g h w = elim (Option-cases g.cursor_rack) [
    | inl boundary ↦
        let same : select pg config now gaps g ≡ at_boundary pg config now gaps g =
          ground (arith, boundary) in
        subst (λ r. Hands g r.0 (forced_of r.1)) (sym same) (at_boundary-Hands g h w boundary)
    | inr (place, here) ↦ elim (Option-cases place) [
      | inl tail ↦
          let same : select pg config now gaps g ≡ furthest_below_target pg config now gaps g =
            ground (arith, here, tail) in
          subst (λ r. Hands g r.0 (forced_of r.1)) (sym same)
            (furthest_below_target-Hands pg config now gaps permutes kept g h w
              (here ∙ ap some tail))
      | inr (cursor, mid) ↦
          let lap = continue_lap pg config gaps cursor g in
          let same : select pg config now gaps g
              ≡ after_lap lap (at_boundary pg config now gaps lap.0) =
            ground (arith, here, mid) in
          subst (λ r. Hands g r.0 (forced_of r.1)) (sym same)
            (lap-Hands g cursor h w (here ∙ ap some mid))
    ]
  ]
