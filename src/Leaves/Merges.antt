-- ===== src/Leaves/Merges.antt =====
-- backend/src/jobs/leave_gen.rs: `merge_staged_in_slices` and `refresh_summary`, one transaction under the
-- job's merge lock.
use birdtest.Prelude.{
  ℕ, zero, suc, ◌+◌, ◌-◌, ◌/◌, ◌%◌, min, max, Bool, true, false, not, ◌||◌, List, [], ◌∷◌, ◌++◌,
  none, some, ◌==◌, if◌then◌else◌, length, get,
}
use birdtest.Claims.Rows.{count}
use birdtest.Leaves.Rows.{
  RackProgress, Occurrence, Staged, Generation, GenerationConfig, Postgres, below_target,
  anything_staged,
}

-- `unnest` of the staged rows' arrays.
abbrev pub unnested : List Staged → List Occurrence
unnested [] = []
unnested (s ∷ ss) = s.racks ++ unnested ss

-- `(hashtext(u.rack) & 2147483647) % passes = pass`.
abbrev pub in_slice : Postgres → ℕ → ℕ → ℕ → Bool
in_slice pg passes pass rack = (passes == 1) || (pg.hashtext rack % passes == pass)

-- `GROUP BY u.rack` with `SUM(u.count)`.
abbrev pub add_to : ℕ → ℕ → List (ℕ × ℕ) → List (ℕ × ℕ)
add_to rack drawn [] = (rack, drawn) ∷ []
add_to rack drawn ((r, n) ∷ sums) =
    let rest = add_to rack drawn sums in if rack == r then (r, n + drawn) ∷ sums else (r, n) ∷ rest

unfoldable pub folded : (ℕ → Bool) → List Occurrence → List (ℕ × ℕ)
folded here [] = []
folded here (o ∷ os) =
    let rest = folded here os in if here o.rack then add_to o.rack o.drawn rest else rest

-- `UPDATE leave_rack_progress p .. FROM folded f WHERE p.rack = f.rack`.
abbrev pub applied : List (ℕ × ℕ) → RackProgress → RackProgress
applied sums p = elim (get p.rack sums) [
  | none ↦ p
  | some n ↦ record p { occurrence_count = p.occurrence_count + n }
]

abbrev pub apply_all : List (ℕ × ℕ) → List RackProgress → List RackProgress
apply_all sums [] = []
apply_all sums (p ∷ ps) = applied sums p ∷ apply_all sums ps

-- `for pass in 0..passes`, after `k` of them.
unfoldable pub merge_passes :
    Postgres → ℕ → ℕ → List Occurrence → List RackProgress → List RackProgress
unfolding folded
merge_passes pg passes zero os ps = ps
merge_passes pg passes (suc k) os ps =
    apply_all (folded (in_slice pg passes k) os) (merge_passes pg passes k os ps)

abbrev pub universe_size : Generation → ℕ
universe_size g = elim g.summary [
  | none ↦ length g.racks
  | some s ↦ if s.merged then s.racks_total else length g.racks
]

abbrev pub passes_of : ℕ → ℕ → ℕ
passes_of universe racks_per_pass =
    let per_pass = max racks_per_pass 1 in
    min (max ((universe + per_pass - 1) / per_pass) 1) 2147483647

abbrev pub refresh_summary : GenerationConfig → Generation → Generation
refresh_summary config g = record g {
  summary = some (record {
    racks_total = length g.racks;
    racks_at_target = count (λ p. not (below_target config p)) g.racks;
    merged = true;
  });
}

abbrev pub is_summarised : Generation → Bool
is_summarised g = elim g.summary [ none ↦ false | some s ↦ s.merged ]

unfoldable pub merge_staged_in_slices : Postgres → GenerationConfig → ℕ → Generation → Generation
unfolding merge_passes
merge_staged_in_slices pg config racks_per_pass g =
    let merged = refresh_summary config (record g {
      racks =
          merge_passes pg (passes_of (universe_size g) racks_per_pass)
            (passes_of (universe_size g) racks_per_pass) (unnested g.staging) g.racks;
      staging = [];
    }) in
    let unmoved = if is_summarised g then g else refresh_summary config g in
    if anything_staged g then merged else unmoved
