-- ===== src/Leaves/Slices.antt =====
-- A merge in slices is one sum: leave_gen.rs, `merge_staged_in_slices`.
use birdtest.Prelude.{
  ℕ, zero, suc, ◌+◌, ◌%◌, ◌≤◌, ◌<◌, ◌≡◌, refl, ap, ◌∙◌, inl, inr, Bool, Bool-cases, true, not, ◌||◌,
  List, [], ◌∷◌, none, some, ltb, ◌==◌, if◌then◌else◌, get, length, arith,
}
use birdtest.Claims.Rows.{count}
use birdtest.Leaves.Rows.{
  RackProgress, Occurrence, Generation, GenerationConfig, Postgres, below_target, anything_staged,
}
use birdtest.Leaves.Merges.{
  unnested, in_slice, add_to, folded, applied, apply_all, merge_passes, passes_of, universe_size,
  merge_staged_in_slices, is_summarised,
}

-- How often a rack was drawn, in all that is listed.
abbrev pub drawn_in : List Occurrence → ℕ → ℕ
drawn_in [] rack = 0
drawn_in (o ∷ os) rack = (if o.rack == rack then o.drawn else 0) + drawn_in os rack

-- Each rack's count and what is listed of it.
abbrev pub with_drawn : List Occurrence → List RackProgress → List RackProgress
with_drawn os [] = []
with_drawn os (p ∷ ps) =
    record p { occurrence_count = p.occurrence_count + drawn_in os p.rack } ∷ with_drawn os ps

abbrev amount : ℕ → List (ℕ × ℕ) → ℕ
amount rack sums = elim (get rack sums) [ none ↦ 0 | some n ↦ n ]

amount-add_to :
    (rack k n : ℕ) (sums : List (ℕ × ℕ))
    → amount rack (add_to k n sums) ≡ amount rack sums + (if k == rack then n else 0)
amount-add_to rack k n [] = ground arith
amount-add_to rack k n ((r, m) ∷ sums) = ground (arith, amount-add_to rack k n sums)

amount-folded :
    (here : ℕ → Bool) (rack : ℕ) (os : List Occurrence)
    → amount rack (folded here os) ≡ (if here rack then drawn_in os rack else 0)
unfolding folded
amount-folded here rack [] = ground arith
amount-folded here rack (o ∷ os) = elim (Bool-cases (o.rack == rack)) [
  | inl same ↦
      let e : o.rack ≡ rack = ground (arith, same) in
      ground (
        arith,
        ap here e,
        same,
        amount-folded here rack os,
        amount-add_to rack o.rack o.drawn (folded here os),
      )
  | inr other ↦
      ground (
        arith,
        other,
        amount-folded here rack os,
        amount-add_to rack o.rack o.drawn (folded here os),
      )
]

applied-amount :
    (sums : List (ℕ × ℕ)) (p : RackProgress)
    → applied sums p ≡ record p { occurrence_count = p.occurrence_count + amount p.rack sums }
applied-amount sums p = ground arith

module _ (pg : Postgres) (passes : ℕ) (os : List Occurrence) (some_pass : 0 < passes) where
  abbrev slice_of : ℕ → ℕ
  slice_of rack = if passes == 1 then 0 else pg.hashtext rack % passes

  -- The racks of the first `k` slices have what is listed of them.
  abbrev with_slices : ℕ → List RackProgress → List RackProgress
  with_slices k [] = []
  with_slices k (p ∷ ps) =
      record p {
        occurrence_count =
            p.occurrence_count + (if ltb (slice_of p.rack) k then drawn_in os p.rack else 0);
      }
      ∷ with_slices k ps

  in_slice_of : (k rack : ℕ) → k < passes → in_slice pg passes k rack ≡ (slice_of rack == k)
  in_slice_of k rack h = ground (arith, h)

  next_slice :
      (k : ℕ) (ps : List RackProgress)
      → k < passes
      → apply_all (folded (in_slice pg passes k) os) (with_slices k ps) ≡ with_slices (suc k) ps
  next_slice k [] h = refl
  next_slice k (p ∷ ps) h = ground (
    arith,
    amount-folded (in_slice pg passes k) p.rack os,
    in_slice_of k p.rack h,
    next_slice k ps h,
  )

  first_slices :
      (k : ℕ) (ps : List RackProgress)
      → k ≤ passes
      → merge_passes pg passes k os ps ≡ with_slices k ps
  unfolding merge_passes
  first_slices zero ps h = none_yet ps
    where
      none_yet : (ps : List RackProgress) → ps ≡ with_slices 0 ps
      none_yet [] = refl
      none_yet (p ∷ ps) = ground (arith, none_yet ps)
  first_slices (suc k) ps h =
      ap (apply_all (folded (in_slice pg passes k) os)) (first_slices k ps (omega (arith, h)))
      ∙ next_slice k ps (omega (arith, h))

  slice_of-lt : (rack : ℕ) → slice_of rack < passes
  slice_of-lt rack = grind (arith, some_pass)

  all_slices : (ps : List RackProgress) → with_slices passes ps ≡ with_drawn os ps
  all_slices [] = refl
  all_slices (p ∷ ps) = ground (arith, slice_of-lt p.rack, all_slices ps)

  pub merge_passes-with_drawn :
      (ps : List RackProgress) → merge_passes pg passes passes os ps ≡ with_drawn os ps
  merge_passes-with_drawn ps = first_slices passes ps (omega arith) ∙ all_slices ps

with_drawn-none : (ps : List RackProgress) → with_drawn [] ps ≡ ps
with_drawn-none [] = refl
with_drawn-none (p ∷ ps) = ground (arith, with_drawn-none ps)

-- Whatever the hash of a rack and the size of a slice, a merge adds to each rack's count the sum of all that is
-- staged of it, once, and leaves nothing staged; racks with no row gain none. Where anything was staged, and the
-- first time, the summary then counts the racks and those with their target.
pub merge_staged_in_slices-with_drawn :
    (pg : Postgres) (config : GenerationConfig) (racks_per_pass : ℕ) (g : Generation)
    → let e = merge_staged_in_slices pg config racks_per_pass g in
      (e.racks ≡ with_drawn (unnested g.staging) g.racks)
      × (e.staging ≡ [])
      × (e.summary ≡ (
          if anything_staged g || not (is_summarised g)
          then some (record {
            racks_total = length e.racks;
            racks_at_target = count (λ p. not (below_target config p)) e.racks;
            merged = true;
          })
          else g.summary))
unfolding merge_staged_in_slices
merge_staged_in_slices-with_drawn pg config racks_per_pass g =
    let passes = passes_of (universe_size g) racks_per_pass in
    (
      ground (
        arith,
        with_drawn-none g.racks,
        merge_passes-with_drawn pg passes (unnested g.staging) (ground arith) g.racks,
      ),
      ground arith,
      ground arith,
    )
