-- ===== src/Holds.antt =====
-- backend/src/jobs/mod.rs, `DispatchHolds`: which jobs are held, by which guards. A job is named by a
-- number. The mutex makes each operation one step; an instant is a number of ticks.
pub mod Guards
pub mod Exclusive
pub mod Grace
mod Tests
use birdtest.Prelude.{
  ℕ, zero, suc, ◌+◌, ◌-◌, Bool, true, false, not, ◌&&◌, ◌||◌, List, [], ◌∷◌, Option, none, some,
  ltb, leb, ◌==◌, if◌then◌else◌, get, insert, remove, get_elem?,
}

pub data HoldKind : Type 0 where
  dispatch_only claims : HoldKind

-- Per job, the holds of each kind.
pub record HoldsInner : Type 0 where
  pub held : List (ℕ × (ℕ × ℕ))
  pub reclaim_not_before : List (ℕ × ℕ)
  pub claims_holds_taken : List (ℕ × ℕ)

-- The guard that a holder keeps.
pub record DispatchHold : Type 0 where
  pub job_id : ℕ
  pub kind : HoldKind
  pub grace : ℕ
  pub committed : Bool

abbrev pub or_zero : Option (ℕ × ℕ) → ℕ × ℕ
or_zero none = (0, 0)
or_zero (some counts) = counts

abbrev pub one_more : HoldKind → ℕ × ℕ → ℕ × ℕ
one_more dispatch_only (d, c) = (d + 1, c)
one_more claims (d, c) = (d, c + 1)

abbrev pub one_less : HoldKind → ℕ × ℕ → ℕ × ℕ
one_less dispatch_only (d, c) = (d - 1, c)
one_less claims (d, c) = (d, c - 1)

abbrev pub new_guard : ℕ → HoldKind → ℕ → DispatchHold
new_guard job_id kind grace = record {
  job_id = job_id;
  kind = kind;
  grace = grace;
  committed = false;
}

unfoldable pub hold : HoldsInner → ℕ → HoldKind → ℕ → HoldsInner × DispatchHold
hold inner job_id kind grace = (
  record inner {
    held = insert job_id (one_more kind (or_zero (get job_id inner.held))) inner.held;
  },
  new_guard job_id kind grace,
)

-- `entry(job_id).or_insert([0, 0])`.
abbrev pub entered : ℕ → List (ℕ × (ℕ × ℕ)) → List (ℕ × (ℕ × ℕ))
entered job_id held = elim (get job_id held) [ none ↦ insert job_id (0, 0) held | some c ↦ held ]

abbrev pub taken_of : ℕ → List (ℕ × ℕ) → ℕ
taken_of job_id taken = elim (get job_id taken) [ none ↦ 0 | some n ↦ n ]

unfoldable pub try_claims : HoldsInner → ℕ → ℕ → Bool → HoldsInner × Option DispatchHold
try_claims inner job_id grace counted =
    let counts = or_zero (get job_id inner.held) in
    if ltb 0 counts.1 then (record inner { held = entered job_id inner.held }, none) else (
      record inner {
        held = insert job_id (one_more claims counts) (entered job_id inner.held);
        claims_holds_taken =
            if counted
            then insert job_id (taken_of job_id inner.claims_holds_taken + 1)
                inner.claims_holds_taken
            else inner.claims_holds_taken;
      },
      some (new_guard job_id claims grace),
    )

unfoldable pub claims_holds_taken : HoldsInner → ℕ → ℕ
claims_holds_taken inner job_id = taken_of job_id inner.claims_holds_taken

unfoldable pub is_held : HoldsInner → ℕ → Bool
is_held inner job_id = elim (get job_id inner.held) [ none ↦ false | some c ↦ true ]

unfoldable pub claims_held : HoldsInner → ℕ → Bool
claims_held inner job_id = elim (get job_id inner.held) [
  | none ↦ false
  | some counts ↦ ltb 0 counts.1
]

-- `DispatchHold::committed`.
unfoldable pub committed : DispatchHold → DispatchHold
committed h = record h { committed = true }

abbrev pub released : DispatchHold → List (ℕ × (ℕ × ℕ)) → List (ℕ × (ℕ × ℕ))
released h held = elim (get h.job_id held) [
  | none ↦ held
  | some counts ↦
      let (d, c) = one_less h.kind counts in
      if d == 0 && c == 0 then remove h.job_id held else insert h.job_id (d, c) held
]

abbrev pub spares_claims : DispatchHold → Bool
spares_claims h = elim h.kind [ dispatch_only ↦ false | claims ↦ not h.committed ]

-- `Drop for DispatchHold`, at an instant.
unfoldable pub drop : HoldsInner → DispatchHold → ℕ → HoldsInner
drop inner h now = record inner {
  held = released h inner.held;
  reclaim_not_before =
      if spares_claims h
      then insert h.job_id (now + h.grace) inner.reclaim_not_before
      else inner.reclaim_not_before;
}

-- `reclaim_not_before.retain(|_, until| *until > now)`.
abbrev pub still_spared : ℕ → List (ℕ × ℕ) → List (ℕ × ℕ)
still_spared now [] = []
still_spared now ((j, until) ∷ m) =
    let rest = still_spared now m in if ltb now until then (j, until) ∷ rest else rest

abbrev pub not_in : List (ℕ × ℕ) → List ℕ → List ℕ
not_in spared [] = []
not_in spared (j ∷ js) =
    let rest = not_in spared js in elim (get j spared) [ none ↦ j ∷ rest | some until ↦ rest ]

unfoldable pub reclaimable : HoldsInner → List ℕ → ℕ → HoldsInner × List ℕ
reclaimable inner job_ids now =
    let spared = still_spared now inner.reclaim_not_before in
    (record inner { reclaim_not_before = spared }, not_in spared job_ids)
