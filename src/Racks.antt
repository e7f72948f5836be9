-- ===== src/Racks.antt =====
-- backend/src/jobs/racks.rs: the rack space of a letter distribution. A character is its code
-- point, a rack the list of its letters.
pub mod Space
pub mod Counting
pub mod Unrank
pub mod Walk
pub mod Ranges
pub mod Draws
pub mod Scatter
mod Tests
use birdtest.Prelude.{
  ℕ, zero, suc, ◌+◌, ◌-◌, ◌*◌, ◌%◌, ◌^◌, min, Bool, List, [], ◌∷◌, ◌++◌, map, Option, none, some,
  AppResult, ok, err, bad_request, ltb, leb, ◌==◌, if◌then◌else◌, get_or, replicate,
}

pub record Tile : Type 0 where
  pub letter : ℕ
  pub count : ℕ

abbrev pub Rack : Type 0
Rack = List ℕ

-- What enumeration reads of a distribution: its tiles, and why it has no rack space, if it has none.
pub record LetterDistribution : Type 0 where
  pub tiles : List Tile
  pub unenumerable : Option (List ℕ)

pub record RackIndex : Type 0 where
  pub tiles : List Tile
  pub counts : List (List ℕ)
  pub size : ℕ

abbrev pub u64_max : ℕ
u64_max = 18446744073709551615

-- `u64::saturating_add`.
abbrev pub saturating_add : ℕ → ℕ → ℕ
saturating_add a b = min u64_max (a + b)

-- The innermost loop of `RackIndex::new`, with the rounds left.
sum_takes : List ℕ → ℕ → ℕ → ℕ → ℕ → ℕ
sum_takes below k take zero total = total
sum_takes below k take (suc rounds) total =
    sum_takes below k (take + 1) rounds (saturating_add total (get_or below (k - take) 0))

-- `counts[i]` for k up to the size, from `counts[i + 1]`.
row_from : ℕ → List ℕ → ℕ → ℕ → List ℕ
row_from count below k zero = []
row_from count below k (suc rounds) =
    sum_takes below k 0 (min count k + 1) 0 ∷ row_from count below (k + 1) rounds

-- The table, last row first: the extra row is the empty suffix, which makes the empty rack only.
pub count_rows : List Tile → ℕ → List (List ℕ)
unfolding row_from sum_takes
count_rows [] size = (1 ∷ replicate size 0) ∷ []
count_rows (t ∷ ts) size =
    let rows = count_rows ts size in row_from t.count (get_or rows 0 []) 0 (size + 1) ∷ rows

abbrev pub new_index : List Tile → ℕ → RackIndex
new_index tiles size = record { tiles = tiles; counts = count_rows tiles size; size = size }

-- `RackIndex::new`.
unfoldable pub new : LetterDistribution → ℕ → AppResult RackIndex
unfolding count_rows
new d size = elim d.unenumerable [
  | some reason ↦ err bad_request
  | none ↦ ok (new_index d.tiles size)
]

unfoldable pub total : RackIndex → ℕ
total ri = get_or (get_or ri.counts 0 []) ri.size 0

-- The loop over `take` of `rack_at_enumeration_index`: the take it breaks at, and the index left.
pick : List ℕ → ℕ → ℕ → ℕ → ℕ → Option ℕ × ℕ
pick below size take zero index = (none, index)
pick below size take (suc rounds) index =
    let block = get_or below (size - take) 0 in
    let rest = pick below size (take + 1) rounds (index - block) in
    if ltb index block then (some take, index) else rest

-- The loop over the tiles: `i`, the tiles from `i` on, the size and the index left, the rack so far.
unrank : List (List ℕ) → ℕ → List Tile → ℕ → ℕ → Rack → Rack
unfolding pick
unrank counts i [] size index rack = rack
unrank counts i (t ∷ ts) size index rack =
    let (taken, left) = pick (get_or counts (i + 1) []) size 0 (min t.count size + 1) index in
    elim taken [
      | none ↦ unrank counts (i + 1) ts size left rack
      | some take ↦ unrank counts (i + 1) ts (size - take) left (rack ++ replicate take t.letter)
    ]

unfoldable pub rack_at_enumeration_index : RackIndex → ℕ → Option Rack
unfolding unrank total
rack_at_enumeration_index ri index =
    if leb (total ri) index then none else some (unrank ri.counts 0 ri.tiles ri.size index [])

-- 2^61 - 1. The product is a `u128`, the result a `u64`.
abbrev pub multiplier : ℕ
multiplier = 2305843009213693951

unfoldable pub scatter : RackIndex → ℕ → ℕ
unfolding total
scatter ri index = index * multiplier % 2 ^ 128 % total ri % 2 ^ 64

unfoldable pub rack_at : RackIndex → ℕ → Option Rack
unfolding scatter total rack_at_enumeration_index
rack_at ri index =
    if leb (total ri) index then none else rack_at_enumeration_index ri (scatter ri index)

-- `(start..end).map_while(f)`, with the rounds left.
unfoldable pub map_while : (ℕ → Option Rack) → ℕ → ℕ → List Rack
map_while f start zero = []
map_while f start (suc rounds) = elim (f start) [
  | none ↦ []
  | some rack ↦ rack ∷ map_while f (start + 1) rounds
]

unfoldable pub racks_in_enumeration_range : RackIndex → ℕ → ℕ → List Rack
unfolding map_while
racks_in_enumeration_range ri start count =
    map_while (rack_at_enumeration_index ri) start (saturating_add start count - start)

unfoldable pub racks_in_range : RackIndex → ℕ → ℕ → List Rack
unfolding map_while
racks_in_range ri start count = map_while (rack_at ri) start (saturating_add start count - start)

-- The tiles left in the bag, summed as `u32`.
available : List Tile → ℕ
available [] = 0
available (t ∷ ts) = (t.count + available ts) % 2 ^ 32

-- `for take in (0..=max_take).rev()` of `walk`, with the recursive call as an argument.
descend : (ℕ → Rack → List Rack → List Rack) → ℕ → ℕ → Rack → ℕ → List Rack → List Rack
descend go letter remaining current zero out = go remaining current out
descend go letter remaining current (suc take) out =
    descend go letter remaining current take
      (go (remaining - suc take) (current ++ replicate (suc take) letter) out)

-- The racks found are appended to `out`.
walk : List Tile → ℕ → Rack → List Rack → List Rack
unfolding available descend
walk [] remaining current out = if remaining == 0 then out ++ current ∷ [] else out
walk (t ∷ ts) remaining current out =
    if remaining == 0
    then out ++ current ∷ []
    else if ltb (available (t ∷ ts)) remaining
    then out
    else descend (walk ts) t.letter remaining current (min t.count (remaining % 2 ^ 32)) out

unfoldable pub enumerate_racks : LetterDistribution → ℕ → List Rack
unfolding walk
enumerate_racks d size = walk d.tiles size [] []

-- `for size in 1..=max_size`.
leaves_from : LetterDistribution → ℕ → ℕ → List Rack → List Rack
leaves_from d size zero out = out
leaves_from d size (suc rounds) out =
    leaves_from d (size + 1) rounds (out ++ enumerate_racks d size)

unfoldable pub enumerate_leaves : LetterDistribution → ℕ → List Rack
unfolding leaves_from
enumerate_leaves d max_size = leaves_from d 1 max_size []
