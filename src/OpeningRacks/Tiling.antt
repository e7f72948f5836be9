-- ===== src/OpeningRacks/Tiling.antt =====
-- The tasks of an opening-rack job tile its rack space: opening_rack.rs, `next_request` and `task_racks`.
use birdtest.Prelude.{
  List-cases, ℕ, zero, suc, ◌+◌, ◌-◌, ◌*◌, ◌≤◌, ◌<◌, ◌≡◌, ◌⊎◌, inl, inr, refl, sym, subst, ◌∙◌,
  Bool-cases, true, false, List, [], ◌∷◌, ◌++◌, none, some, ltb, leb, get_elem?, arith,
}
use birdtest.Racks.{Rack, RackIndex, rack_at, racks_in_range, map_while, u64_max, saturating_add}
use birdtest.OpeningRacks.Rounds.{
  map_while-length, length-map_while, map_while-filled, map_while-append, get_elem?-map_while,
}
use birdtest.OpeningRacks.{
  OpeningRackConfig, reissues, RackTask, next_start, next_racks, next_request, insert_request,
  task_racks, generate_opening_rack,
}

module _ (ri : RackIndex) (config : OpeningRackConfig) (reissue : List Rack) where
  -- The racks that tasks dispatched, the first task's first.
  abbrev pub dispatched : List RackTask → List Rack
  dispatched [] = []
  dispatched (t ∷ ts) = dispatched ts ++ task_racks ri t

  -- The tasks after `n` claims that had to make one.
  abbrev pub make_tasks : ℕ → List RackTask
  make_tasks zero = []
  make_tasks (suc n) =
      let ts = make_tasks n in
      elim (generate_opening_rack ri config reissue ts) [ none ↦ ts | some us ↦ us ]

  module _ (fits : config.total_racks + config.racks_per_batch ≤ u64_max) where
    range :
        (start count : ℕ)
        → start + count ≤ u64_max
        → racks_in_range ri start count ≡ map_while (rack_at ri) start count
    unfolding racks_in_range
    range start count h =
        let e : saturating_add start count - start ≡ count = omega (arith, h) in rw e refl

    slice :
        (start : ℕ)
        → start < config.total_racks
        → next_racks ri config reissue start ≡ map_while (rack_at ri) start config.racks_per_batch
    slice start h =
        let inside : ltb start config.total_racks ≡ true = ground (arith, h) in
        rw inside (range start config.racks_per_batch (omega (arith, h, fits)))

    requested :
        (tasks : List RackTask) (start : ℕ) (racks : List Rack)
        → next_request ri config reissue tasks ≡ some (start, racks)
        → (next_start config tasks ≡ start)
          × (next_racks ri config reissue (next_start config tasks) ≡ racks)
    unfolding next_request
    requested tasks start racks h =
        elim (List-cases (next_racks ri config reissue (next_start config tasks))) [
          | inl empty ↦ absurd (ground (arith, empty, h))
          | inr (r, rs, full) ↦ (ground (arith, full, h), ground (arith, full, h))
        ]

    reread :
        (start : ℕ)
        → task_racks ri (insert_request config start (next_racks ri config reissue start))
          ≡ next_racks ri config reissue start
    unfolding task_racks insert_request
    reread start = elim (Bool-cases (leb config.total_racks start)) [
      | inl listed ↦ rw listed refl
      | inr ranged ↦
          let inside : start < config.total_racks = ground (arith, ranged) in
          let short = length-map_while (rack_at ri) start config.racks_per_batch in
          rw (ranged, slice start inside)
            (range start _ (omega (arith, short, inside, fits))
              ∙ map_while-length (rack_at ri) start config.racks_per_batch)
    ]

    -- The racks of a request are read back from the row of its task as they were dispatched, where the row
    -- lists them as where it names their range.
    pub task_racks-insert_request :
        (tasks : List RackTask) (start : ℕ) (racks : List Rack)
        → next_request ri config reissue tasks ≡ some (start, racks)
        → task_racks ri (insert_request config start racks) ≡ racks
    task_racks-insert_request tasks start racks h =
        let (at, from) = requested tasks start racks h in
        let e : next_racks ri config reissue start ≡ racks =
          subst (λ a. next_racks ri config reissue a ≡ racks) at from in
        subst (λ l. task_racks ri (insert_request config start l) ≡ l) e (reread start)

    module _ (once : reissues config ≡ false) (positive : 0 < config.racks_per_batch)
        (below : (i : ℕ) → i < config.total_racks → (r : Rack) × (rack_at ri i ≡ some r))
        (past : (i : ℕ) → config.total_racks ≤ i → rack_at ri i ≡ none) where
      tiles_append :
          (a b : ℕ)
          → map_while (rack_at ri) 0 (a + b)
            ≡ map_while (rack_at ri) 0 a ++ map_while (rack_at ri) a b
      tiles_append a b =
          let same : 0 + a ≡ a = omega arith in
          subst
            (λ at.
              map_while (rack_at ri) 0 (a + b)
              ≡ map_while (rack_at ri) 0 a ++ map_while (rack_at ri) at b)
            same (map_while-append (rack_at ri) config.total_racks below past 0 a b)

      -- After `made` tasks, the next starts where they end.
      record Tiled (n : ℕ) (ts : List RackTask) : Type 0 where
        made : ℕ
        few : made ≤ n
        next : next_start config ts ≡ made * config.racks_per_batch
        racks : dispatched ts ≡ map_while (rack_at ri) 0 (made * config.racks_per_batch)
        all_or_done : (made ≡ n) ⊎ (config.total_racks ≤ made * config.racks_per_batch)

      -- The request of a job whose racks are all out, and of one that has some left.
      next_request-done :
          (ts : List RackTask)
          → config.total_racks ≤ next_start config ts
          → next_request ri config reissue ts ≡ none
      unfolding next_request
      next_request-done ts h =
          let outside : ltb (next_start config ts) config.total_racks ≡ false = ground (arith, h) in
          let empty : next_racks ri config reissue (next_start config ts) ≡ [] =
            rw (outside, once) refl in
          rw (empty, next_request) refl

      next_request-left :
          (ts : List RackTask)
          → next_start config ts < config.total_racks
          → next_request ri config reissue ts
            ≡ some (next_start config ts, next_racks ri config reissue (next_start config ts))
      unfolding next_request
      next_request-left ts h =
          elim (List-cases (next_racks ri config reissue (next_start config ts))) [
            | inr (r, rs, full) ↦ rw (full, next_request) refl
            | inl empty ↦
                let (r, found) = below (next_start config ts) h in
                absurd (
                  map_while-filled (rack_at ri) (next_start config ts) config.racks_per_batch r
                    positive found (sym (slice (next_start config ts) h) ∙ empty))
          ]

      next_start-made :
          (start : ℕ) (ts : List RackTask) (racks : List Rack)
          → next_start config ts ≡ start
          → next_start config (insert_request config start racks ∷ ts)
            ≡ start + config.racks_per_batch
      unfolding insert_request
      next_start-made start ts racks h = ground (arith, h)

      made-Tiled :
          (n : ℕ) (ts : List RackTask)
          → Tiled n ts
          → Tiled
              (suc n)
              (elim (generate_opening_rack ri config reissue ts) [ none ↦ ts | some us ↦ us ])
      unfolding generate_opening_rack
      made-Tiled n ts t = elim (Bool-cases (ltb (next_start config ts) config.total_racks)) [
        | inr out ↦
            let done : config.total_racks ≤ next_start config ts = ground (arith, out) in
            rw (next_request-done ts done, generate_opening_rack)
              (record {
                made = t.made;
                few = omega (arith, t.few);
                next = t.next;
                racks = t.racks;
                all_or_done = inr (omega (arith, done, t.next));
              })
        | inl left ↦
            let inside : next_start config ts < config.total_racks = ground (arith, left) in
            let start = next_start config ts in
            let b = config.racks_per_batch in
            let one_more : (t.made + 1) * b ≡ t.made * b + b = grind arith in
            let sliced = reread start ∙ slice start inside in
            let joined : dispatched ts
                  ++ task_racks ri
                      (insert_request config start (next_racks ri config reissue start))
                ≡ map_while (rack_at ri) 0 ((t.made + 1) * b) =
              rw (t.racks, sliced, t.next, one_more) (sym (tiles_append (t.made * b) b)) in
            rw (next_request-left ts inside, generate_opening_rack)
              (record {
                made = t.made + 1;
                few = omega (arith, t.few);
                next =
                    next_start-made start ts (next_racks ri config reissue start) refl
                    ∙ omega (arith, one_more, t.next);
                racks = joined;
                all_or_done = ground (arith, t.all_or_done, t.next, inside);
              })
      ]

      make_tasks-Tiled : (n : ℕ) → Tiled n (make_tasks n)
      unfolding map_while
      make_tasks-Tiled zero =
          let none_yet : 0 * config.racks_per_batch ≡ 0 = omega arith in
          record {
            made = 0;
            few = omega arith;
            next = omega arith;
            racks = rw none_yet refl;
            all_or_done = inl refl;
          }
      make_tasks-Tiled (suc n) = made-Tiled n (make_tasks n) (make_tasks-Tiled n)

      pub covered :
          (n : ℕ)
          → config.total_racks ≤ n * config.racks_per_batch
          → ((i : ℕ) → get_elem? (dispatched (make_tasks n)) i ≡ rack_at ri i)
            × (generate_opening_rack ri config reissue (make_tasks n) ≡ none)
      unfolding generate_opening_rack
      covered n enough =
          let t = make_tasks-Tiled n in
          let b = config.racks_per_batch in
          let done : config.total_racks ≤ t.made * b = elim t.all_or_done [
            | inl all ↦ rw all enough
            | inr out ↦ out
          ] in
          (
            (λ i.
                rw
                  (
                    t.racks,
                    get_elem?-map_while (rack_at ri) config.total_racks below past 0 (t.made * b) i,
                  )
                  (elim (Bool-cases (ltb i (t.made * b))) [
                    | inl inside ↦ let same : 0 + i ≡ i = omega arith in rw (inside, same) refl
                    | inr outside ↦ rw outside (sym (past i (ground (arith, outside, done))))
                  ])),
            rw
                (
                  next_request-done (make_tasks n) (omega (arith, t.next, done)),
                  generate_opening_rack,
                )
                refl,
          )
