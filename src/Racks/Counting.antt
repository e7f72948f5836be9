-- ===== src/Racks/Counting.antt =====
-- The table of `RackIndex::new` holds the sizes of the rack spaces, saturated at `u64::MAX`.
use birdtest.Prelude.{
  ℕ, zero, suc, ◌+◌, ◌-◌, ◌≤◌, ◌<◌, ◌≡◌, refl, ◌∙◌, ap, min, List, [], ◌∷◌, ◌++◌, map, get_or,
  replicate, length, length-append, length-map, arith,
}
use birdtest.Racks.{
  Tile, Rack, u64_max, saturating_add, sum_takes, row_from, count_rows, new_index, total,
}
use birdtest.Racks.Space.{racks, prefixed}

-- A row that holds, for each k up to the size, how many racks of k tiles there are.
abbrev pub Counts : List ℕ → (ℕ → List Rack) → ℕ → Type 0
Counts row rest size = (k : ℕ) → k ≤ size → get_or row k 0 ≡ min u64_max (length (rest k))

length-prefixed :
    (letter : ℕ) (rest : ℕ → List Rack) (k take rounds : ℕ)
    → length (prefixed letter rest k take (suc rounds))
      ≡ length (rest (k - take)) + length (prefixed letter rest k (take + 1) rounds)
length-prefixed letter rest k take rounds =
    length-append (map (λ rack. replicate take letter ++ rack) (rest (k - take))) _
    ∙ ap (λ (n : ℕ). n + length (prefixed letter rest k (take + 1) rounds))
        (length-map (rest (k - take)) _)

sum_takes-prefixed :
    (row : List ℕ) (letter : ℕ) (rest : ℕ → List Rack) (size k take rounds sum : ℕ)
    → Counts row rest size
    → k ≤ size
    → sum ≤ u64_max
    → sum_takes row k take rounds sum
      ≡ min u64_max (sum + length (prefixed letter rest k take rounds))
unfolding sum_takes
sum_takes-prefixed row letter rest size k take zero sum c h s = omega arith
sum_takes-prefixed row letter rest size k take (suc rounds) sum c h s =
    sum_takes-prefixed row letter rest size k (take + 1) rounds
      (saturating_add sum (get_or row (k - take) 0)) c h (omega arith)
    ∙ omega (arith, c (k - take) (omega arith), length-prefixed letter rest k take rounds)

row_from-Counts :
    (t : Tile) (ts : List Tile) (row : List ℕ) (size from rounds j : ℕ)
    → Counts row (racks ts) size
    → from + rounds ≤ size + 1
    → j < rounds
    → get_or (row_from t.count row from rounds) j 0
      ≡ min u64_max (length (racks (t ∷ ts) (from + j)))
unfolding row_from
row_from-Counts t ts row size from zero j c h lt = absurd (omega arith)
row_from-Counts t ts row size from (suc rounds) zero c h lt =
    sum_takes-prefixed row t.letter (racks ts) size from 0 (min t.count from + 1) 0 c (omega arith)
      (omega arith)
    ∙ omega (arith, same)
  where
    same : length (racks (t ∷ ts) from) ≡ length (racks (t ∷ ts) (from + 0))
    same = ap (λ (n : ℕ). length (racks (t ∷ ts) n)) (omega arith)
row_from-Counts t ts row size from (suc rounds) (suc j) c h lt =
    row_from-Counts t ts row size (from + 1) rounds j c (omega arith) (omega arith)
    ∙ ap (λ (n : ℕ). min u64_max (length (racks (t ∷ ts) n))) (omega arith)

get_or-replicate : (n k : ℕ) → get_or {A = ℕ} (replicate n 0) k 0 ≡ 0
get_or-replicate zero k = refl
get_or-replicate (suc n) zero = refl
get_or-replicate (suc n) (suc k) = get_or-replicate n k

-- Every row of the table counts the racks over the tiles from there on.
pub count_rows-Counts :
    (ts : List Tile) (size : ℕ) → Counts (get_or (count_rows ts size) 0 []) (racks ts) size
unfolding count_rows
count_rows-Counts [] size zero h = refl
count_rows-Counts [] size (suc k) h = get_or-replicate size k
count_rows-Counts (t ∷ ts) size k h =
    row_from-Counts t ts (get_or (count_rows ts size) 0 []) size 0 (size + 1) k
      (count_rows-Counts ts size) (omega arith) (omega arith)
    ∙ ap (λ (n : ℕ). min u64_max (length (racks (t ∷ ts) n))) (omega arith)

-- `RackIndex::total` is the number of racks of the size, or `u64::MAX` where there are more.
pub total-new_index :
    (ts : List Tile) (size : ℕ) → total (new_index ts size) ≡ min u64_max (length (racks ts size))
unfolding total
total-new_index ts size = count_rows-Counts ts size size (omega arith)
