-- ===== src/Racks/Ranges.antt =====
-- The ranges of the rack space that jobs/racks.rs hands out.
use birdtest.Prelude.{
  ℕ, zero, suc, ◌+◌, ◌-◌, ◌^◌, ◌≤◌, ◌<◌, ◌≡◌, refl, sym, ◌∙◌, ap, min, List, [], ◌∷◌, reverse,
  Option, get_elem?, length, take, drop, arith,
}
use mathlib.Core.List.{reverse-reverse}
use birdtest.Racks.{
  Tile, Rack, LetterDistribution, u64_max, new_index, total, map_while, racks_in_enumeration_range,
  enumerate_racks,
}
use birdtest.Racks.Space.{racks}
use birdtest.Racks.Counting.{total-new_index}
use birdtest.Racks.Unrank.{rack_at_enumeration_index-racks}
use birdtest.Racks.Walk.{bag_size, enumerate_racks-reverse}

get_elem?-drop :
    (xs : List Rack) (start i : ℕ) → get_elem? (drop start xs) i ≡ get_elem? xs (start + i)
get_elem?-drop xs zero i = ap (get_elem? xs) (let e : i ≡ 0 + i = omega arith in e)
get_elem?-drop [] (suc start) i = refl
get_elem?-drop (x ∷ xs) (suc start) i =
    get_elem?-drop xs start i
    ∙ ap (get_elem? (x ∷ xs)) (let e : suc (start + i) ≡ suc start + i = omega arith in e)

first_read :
    (f : ℕ → Option Rack) (xs : List Rack) (start : ℕ)
    → f (start + 0) ≡ get_elem? xs 0
    → f start ≡ get_elem? xs 0
first_read f xs start h = ap f (let e : start ≡ start + 0 = omega arith in e) ∙ h

-- Reading a list from the front until it ends.
map_while-take :
    (f : ℕ → Option Rack) (xs : List Rack) (start rounds : ℕ)
    → ((i : ℕ) → i < rounds → f (start + i) ≡ get_elem? xs i)
    → map_while f start rounds ≡ take rounds xs
unfolding map_while
map_while-take f xs start zero h = refl
map_while-take f [] start (suc rounds) h = rw (first_read f [] start (h 0 (omega arith)), map_while)
map_while-take f (x ∷ xs) start (suc rounds) h =
    rw (first_read f (x ∷ xs) start (h 0 (omega arith)), map_while)
      (ap (λ rs. x ∷ rs)
        (map_while-take f xs (start + 1) rounds λ i lt.
          ap f (let z : start + 1 + i ≡ start + suc i = omega arith in z)
          ∙ h (suc i) (omega arith)))

-- A range is the slice of the rack space that starts there, cut at the end of the space.
pub racks_in_enumeration_range-slice :
    (tiles : List Tile) (size start count : ℕ)
    → start ≤ u64_max
    → racks_in_enumeration_range (new_index tiles size) start count
      ≡ take (min u64_max (start + count) - start) (drop start (racks tiles size))
unfolding racks_in_enumeration_range
racks_in_enumeration_range-slice tiles size start count h =
    map_while-take _ (drop start (racks tiles size)) start _ λ i lt.
      rack_at_enumeration_index-racks tiles size (start + i) (omega arith)
      ∙ sym (get_elem?-drop (racks tiles size) start i)

take-all : (xs : List Rack) (n : ℕ) → n ≡ length xs → take n xs ≡ xs
take-all [] zero e = refl
take-all [] (suc n) e = refl
take-all (x ∷ xs) zero e = absurd (omega arith)
take-all (x ∷ xs) (suc n) e = ap (λ rs. x ∷ rs) (take-all xs n (omega arith))

-- Where the bag and the rack have fewer than 2^32 tiles and the rack space holds no more racks than a `u64`
-- counts, the index and the walk list the same racks, in opposite orders.
pub racks_in_enumeration_range-enumerate_racks :
    (d : LetterDistribution) (size : ℕ)
    → bag_size d.tiles < 2 ^ 32
    → size < 2 ^ 32
    → length (racks d.tiles size) ≤ u64_max
    → racks_in_enumeration_range (new_index d.tiles size) 0 (total (new_index d.tiles size))
      ≡ reverse (enumerate_racks d size)
racks_in_enumeration_range-enumerate_racks d size b s h =
    racks_in_enumeration_range-slice d.tiles size 0 _ (omega arith)
    ∙ take-all (racks d.tiles size) (min u64_max (0 + total (new_index d.tiles size)) - 0)
        (omega (arith, total-new_index d.tiles size))
    ∙ sym (reverse-reverse (racks d.tiles size))
    ∙ ap reverse (sym (enumerate_racks-reverse d size b s))
