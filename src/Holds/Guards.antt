-- ===== src/Holds/Guards.antt =====
-- backend/src/jobs/mod.rs: the counts of `DispatchHolds` are those of the guards alive, whatever was called.
use birdtest.Prelude.{
  ℕ, zero, suc, ◌+◌, ◌≡◌, refl, ap, Bool, true, false, ◌&&◌, List, [], ◌∷◌, Option, none, some,
  Option-cases, inl, inr, ltb, ◌==◌, if◌then◌else◌, get, insert, get-insert, get-remove, get_elem?,
  Bool-cases, arith,
}
use birdtest.Holds.{
  HoldKind, dispatch_only, claims, HoldsInner, DispatchHold, or_zero, one_more, one_less, hold,
  try_claims, entered, committed, released, drop,
}

-- What holders do: each call of `DispatchHolds` that changes it, and the ends of their guards, which are
-- named by their places among those alive.
pub data Event : Type 0 where
  took : ℕ → HoldKind → ℕ → Event
  tried : ℕ → ℕ → Bool → Event
  commits : ℕ → Event
  drops : ℕ → ℕ → Event

pub record System : Type 0 where
  pub inner : HoldsInner
  pub live : List DispatchHold

abbrev pub start : System
start = record {
  inner = record { held = []; reclaim_not_before = []; claims_holds_taken = [] };
  live = [];
}

abbrev pub remove_at : ℕ → List DispatchHold → List DispatchHold
remove_at i [] = []
remove_at zero (h ∷ hs) = hs
remove_at (suc i) (h ∷ hs) = h ∷ remove_at i hs

abbrev pub commit_at : ℕ → List DispatchHold → List DispatchHold
commit_at i [] = []
commit_at zero (h ∷ hs) = committed h ∷ hs
commit_at (suc i) (h ∷ hs) = h ∷ commit_at i hs

abbrev pub with_guard : HoldsInner × Option DispatchHold → List DispatchHold → System
with_guard (inner, none) live = record { inner = inner; live = live }
with_guard (inner, some h) live = record { inner = inner; live = h ∷ live }

abbrev pub step : Event → System → System
step (took job kind grace) s =
    let (inner, h) = hold s.inner job kind grace in record { inner = inner; live = h ∷ s.live }
step (tried job grace counted) s = with_guard (try_claims s.inner job grace counted) s.live
step (commits i) s = record s { live = commit_at i s.live }
step (drops i now) s = elim (get_elem? s.live i) [
  | none ↦ s
  | some h ↦ record { inner = drop s.inner h now; live = remove_at i s.live }
]

-- The latest event first.
abbrev pub run : List Event → System
run [] = start
run (e ∷ es) = step e (run es)

abbrev pub is_kind : HoldKind → HoldKind → Bool
is_kind dispatch_only dispatch_only = true
is_kind claims claims = true
is_kind _ _ = false

abbrev pub one_of : HoldKind → ℕ → DispatchHold → ℕ
one_of kind j h = if is_kind h.kind kind && j == h.job_id then 1 else 0

-- The guards of a kind on a job.
abbrev pub guards : HoldKind → ℕ → List DispatchHold → ℕ
guards kind j [] = 0
guards kind j (h ∷ hs) = one_of kind j h + guards kind j hs

abbrev pub entry_of : ℕ → ℕ → Option (ℕ × ℕ)
entry_of d c = if d == 0 && c == 0 then none else some (d, c)

abbrev pub Counted : List (ℕ × (ℕ × ℕ)) → List DispatchHold → Type 0
Counted held live =
    (j : ℕ) → get j held ≡ entry_of (guards dispatch_only j live) (guards claims j live)

pub guards-remove_at :
    (kind : HoldKind) (j i : ℕ) (hs : List DispatchHold) (h : DispatchHold)
    → get_elem? hs i ≡ some h
    → guards kind j hs ≡ one_of kind j h + guards kind j (remove_at i hs)
guards-remove_at kind j i [] h e = ground arith
guards-remove_at kind j zero (g ∷ hs) h e =
    let same : g ≡ h = ground arith in ap (λ x. one_of kind j x + guards kind j hs) same
guards-remove_at kind j (suc i) (g ∷ hs) h e = omega (arith, guards-remove_at kind j i hs h e)

pub guards-commit_at :
    (kind : HoldKind) (j i : ℕ) (hs : List DispatchHold)
    → guards kind j (commit_at i hs) ≡ guards kind j hs
unfolding committed
guards-commit_at kind j i [] = refl
guards-commit_at kind j zero (h ∷ hs) = refl
guards-commit_at kind j (suc i) (h ∷ hs) = omega (arith, guards-commit_at kind j i hs)

hold-Counted :
    (inner : HoldsInner) (live : List DispatchHold) (job grace : ℕ) (kind : HoldKind)
    → Counted inner.held live
    → Counted (hold inner job kind grace).0.held ((hold inner job kind grace).1 ∷ live)
unfolding hold
hold-Counted inner live job grace kind c j =
    rw (get-insert j job (one_more kind (or_zero (get job inner.held))) inner.held)
      (ground (arith, c j, c job))

abbrev after_release : HoldKind → Option (ℕ × ℕ) → Option (ℕ × ℕ)
after_release kind none = none
after_release kind (some counts) = let (d, c) = one_less kind counts in entry_of d c

get-released :
    (h : DispatchHold) (held : List (ℕ × (ℕ × ℕ))) (j : ℕ)
    → get j (released h held)
      ≡ (if j == h.job_id then after_release h.kind (get h.job_id held) else get j held)
get-released h held j = elim (Option-cases (get h.job_id held)) [
  | inl absent ↦ ground arith
  | inr (counts, found) ↦
      ground
        (arith, get-remove j h.job_id held, get-insert j h.job_id (one_less h.kind counts) held)
]

released-Counted :
    (held : List (ℕ × (ℕ × ℕ))) (live : List DispatchHold) (i : ℕ) (h : DispatchHold)
    → get_elem? live i ≡ some h
    → Counted held live
    → Counted (released h held) (remove_at i live)
released-Counted held live i h e c j = rw (get-released h held j) (
    ground (
      arith,
      c j,
      c h.job_id,
      guards-remove_at dispatch_only j i live h e,
      guards-remove_at claims j i live h e,
      guards-remove_at dispatch_only h.job_id i live h e,
      guards-remove_at claims h.job_id i live h e,
    ))

entered-held :
    (job : ℕ) (held : List (ℕ × (ℕ × ℕ)))
    → ltb 0 (or_zero (get job held)).1 ≡ true
    → entered job held ≡ held
entered-held job held h = elim (Option-cases (get job held)) [
  | inl absent ↦ ground arith
  | inr (counts, found) ↦ ground arith
]

get-granted :
    (job : ℕ) (counts : ℕ × ℕ) (held : List (ℕ × (ℕ × ℕ))) (j : ℕ)
    → get j (insert job counts (entered job held)) ≡ (if j == job then some counts else get j held)
get-granted job counts held j = elim (Option-cases (get job held)) [
  | inl absent ↦
      ground (arith, get-insert j job counts (entered job held), get-insert j job (0, 0) held)
  | inr (old, found) ↦ ground (arith, get-insert j job counts (entered job held))
]

abbrev pub SystemCounted : System → Type 0
SystemCounted s = Counted s.inner.held s.live

tried-Counted :
    (s : System) (job grace : ℕ) (counted : Bool)
    → SystemCounted s
    → SystemCounted (with_guard (try_claims s.inner job grace counted) s.live)
unfolding try_claims
tried-Counted s job grace counted c = elim (Bool-cases (ltb 0 (or_zero (get job s.inner.held)).1)) [
  | inl taken ↦ λ j. rw (taken, entered-held job s.inner.held taken) (c j)
  | inr free ↦ λ j.
      rw (free, get-granted job (one_more claims (or_zero (get job s.inner.held))) s.inner.held j)
        (ground (arith, c j, c job))
]

drops-Counted : (s : System) (i now : ℕ) → SystemCounted s → SystemCounted (step (drops i now) s)
unfolding drop
drops-Counted s i now c = elim (Option-cases (get_elem? s.live i)) [
  | inl absent ↦ rw (absent, step) c
  | inr (h, found) ↦ rw (found, step) (released-Counted s.inner.held s.live i h found c)
]

step-Counted : (e : Event) (s : System) → SystemCounted s → SystemCounted (step e s)
step-Counted (took job kind grace) s c = hold-Counted s.inner s.live job grace kind c
step-Counted (tried job grace counted) s c = tried-Counted s job grace counted c
step-Counted (commits i) s c =
    λ j. rw (guards-commit_at dispatch_only j i s.live, guards-commit_at claims j i s.live) (c j)
step-Counted (drops i now) s c = drops-Counted s i now c

pub run-Counted : (es : List Event) → SystemCounted (run es)
run-Counted [] = λ j. refl
run-Counted (e ∷ es) = step-Counted e (run es) (run-Counted es)
