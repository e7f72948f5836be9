-- ===== src/Holds/Exclusive.antt =====
-- backend/src/jobs/mod.rs: what `DispatchHolds` answers, and that a job's claims have one holder.
use birdtest.Prelude.{
  ℕ, ◌≤◌, ◌≡◌, Bool, Bool-cases, true, false, not, ◌&&◌, List, [], ◌∷◌, Option, none, some,
  Option-cases, inl, inr, ltb, ◌==◌, get, get_elem?, arith,
}
use birdtest.Holds.{
  dispatch_only, claims, DispatchHold, or_zero, hold, try_claims, is_held, claims_held,
}
use birdtest.Holds.Guards.{
  Event, took, tried, commits, drops, System, run, step, guards, guards-remove_at, guards-commit_at,
  run-Counted, SystemCounted, with_guard,
}

abbrev pub is_granted : Option DispatchHold → Bool
is_granted none = false
is_granted (some h) = true

-- After any calls of `hold` and `try_claims` and any ends of the guards they gave, in any order: a job is
-- held exactly when a guard of it is alive, its claims are held exactly when a claims guard of it is alive,
-- and `try_claims` gives a guard exactly when none is.
pub is_held-guards :
    (es : List Event) (j grace : ℕ) (counted : Bool)
    → (is_held (run es).inner j
        ≡ not (guards dispatch_only j (run es).live == 0 && guards claims j (run es).live == 0))
      × (claims_held (run es).inner j ≡ ltb 0 (guards claims j (run es).live))
      × (is_granted (try_claims (run es).inner j grace counted).1
          ≡ (guards claims j (run es).live == 0))
unfolding is_held claims_held try_claims
is_held-guards es j grace counted = (
  rw (run-Counted es j, is_held) (ground arith),
  rw (run-Counted es j, claims_held) (ground arith),
  ground (arith, run-Counted es j),
)

-- No claims hold is taken but by `try_claims`.
abbrev pub TriedOnly : List Event → Type 0
TriedOnly [] = Unit
TriedOnly (took job dispatch_only grace ∷ es) = TriedOnly es
TriedOnly (took job claims grace ∷ es) = ⊥
TriedOnly (tried job grace counted ∷ es) = TriedOnly es
TriedOnly (commits i ∷ es) = TriedOnly es
TriedOnly (drops i now ∷ es) = TriedOnly es

tried-guards :
    (s : System) (job grace j : ℕ) (counted : Bool)
    → SystemCounted s
    → guards claims j s.live ≤ 1
    → guards claims j (with_guard (try_claims s.inner job grace counted) s.live).live ≤ 1
unfolding try_claims
tried-guards s job grace j counted c le =
    elim (Bool-cases (ltb 0 (or_zero (get job s.inner.held)).1)) [
      | inl taken ↦ rw taken le
      | inr free ↦ rw free (ground (arith, c job, le))
    ]

drops-guards :
    (s : System) (i now j : ℕ)
    → guards claims j s.live ≤ 1
    → guards claims j (step (drops i now) s).live ≤ 1
drops-guards s i now j le = elim (Option-cases (get_elem? s.live i)) [
  | inl absent ↦ rw (absent, step) le
  | inr (h, found) ↦ rw (found, step) (omega (arith, guards-remove_at claims j i s.live h found))
]

-- Where claims holds come from `try_claims` alone, no job ever has two claims guards alive: of two purges
-- or deletes of a job, in whatever order with anything else, one gets it.
pub guards-exclusive :
    (es : List Event) → (j : ℕ) → TriedOnly es → guards claims j (run es).live ≤ 1
unfolding hold
guards-exclusive [] j t = omega arith
guards-exclusive (took job dispatch_only grace ∷ es) j t = omega (arith, guards-exclusive es j t)
guards-exclusive (took job claims grace ∷ es) j t = absurd t
guards-exclusive (tried job grace counted ∷ es) j t =
    tried-guards (run es) job grace j counted (run-Counted es) (guards-exclusive es j t)
guards-exclusive (commits i ∷ es) j t =
    rw (guards-commit_at claims j i (run es).live) (guards-exclusive es j t)
guards-exclusive (drops i now ∷ es) j t = drops-guards (run es) i now j (guards-exclusive es j t)
