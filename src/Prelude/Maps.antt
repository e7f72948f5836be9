-- ===== src/Prelude/Maps.antt =====
-- Hash maps with numbers as keys, as association lists.
use Prim.Native.Nat.{ℕ}
use mathlib.Core.Path.{◌≡◌}
use mathlib.Core.List.{List, [], ◌∷◌}
use mathlib.Core.Option.{Option, none, some}
use native.Mathlib.Omega.{arith}
use birdtest.Prelude.Tests.{◌==◌, if◌then◌else◌}

module _ {ℓ} {V : Type ℓ} where
  abbrev pub get : ℕ → List (ℕ × V) → Option V
  get k [] = none
  get k ((l, v) ∷ m) = let rest = get k m in if k == l then some v else rest

  abbrev pub remove : ℕ → List (ℕ × V) → List (ℕ × V)
  remove k [] = []
  remove k ((l, v) ∷ m) = let rest = remove k m in if k == l then rest else (l, v) ∷ rest

  abbrev pub insert : ℕ → V → List (ℕ × V) → List (ℕ × V)
  insert k v m = (k, v) ∷ remove k m

  pub get-remove :
      (j k : ℕ) (m : List (ℕ × V)) → get j (remove k m) ≡ (if j == k then none else get j m)
  get-remove j k [] = ground arith
  get-remove j k ((l, v) ∷ m) = ground (arith, get-remove j k m)

  pub get-insert :
      (j k : ℕ) (v : V) (m : List (ℕ × V))
      → get j (insert k v m) ≡ (if j == k then some v else get j m)
  get-insert j k v m = ground (arith, get-remove j k m)
