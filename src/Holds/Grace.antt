-- ===== src/Holds/Grace.antt =====
-- backend/src/jobs/mod.rs: which claims `DispatchHolds` spares from being reclaimed, and until when.
use birdtest.Prelude.{ℕ, Bool, true, false, ◌||◌, List, [], ◌∷◌, Option, none, some, ◌==◌}

abbrev pub member : ℕ → List ℕ → Bool
member j [] = false
member j (k ∷ ks) = j == k || member j ks

abbrev is_none {ℓ} : {A : Type ℓ} → Option A → Bool
is_none none = true
is_none (some a) = false
