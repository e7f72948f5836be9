-- ===== src/Racks/Unrank.antt =====
-- `rack_at_enumeration_index` of jobs/racks.rs finds the rack that stands at the index in the rack
-- space, also where the table's counts are saturated.
use birdtest.Prelude.{
  ℕ, zero, suc, ◌+◌, ◌-◌, ◌≤◌, ◌<◌, ◌≡◌, sym, ◌∙◌, ap, ◌⊎◌, inl, inr, min, List, [], ◌∷◌, ◌++◌, map,
  Option, none, some, get_or, get_elem?, replicate, length, length-append, length-map,
  get_elem?-append_left, get_elem?-append_right, get_elem?-none, get_elem?-some, get_elem?-map,
  arith, false, Bool-cases, ltb, leb, ltb→lt, not-ltb→le, not-leb→lt, leb→le, none-ne-some,
  some-cancel, subst,
}
use mathlib.Core.List.{append_assoc, append-nil}
use birdtest.Racks.{
  Tile, Rack, u64_max, count_rows, new_index, total, pick, unrank, rack_at_enumeration_index,
}
use birdtest.Racks.Space.{racks, prefixed}
use birdtest.Racks.Counting.{Counts, count_rows-Counts, total-new_index}

-- What the loop over `take` comes to: it breaks at the take whose block holds the index, or every
-- block lies below the index.
abbrev Picked : List ℕ → ℕ → (ℕ → List Rack) → ℕ → ℕ → ℕ → ℕ → Type 0
Picked row letter rest k take rounds index =
    ((t : ℕ) × (i : ℕ) × (pick row k take rounds index ≡ (some t, i))
      × (i < length (rest (k - t)))
      × (i < u64_max)
      × (get_elem? (prefixed letter rest k take rounds) index
          ≡ get_elem? (map (λ rack. replicate t letter ++ rack) (rest (k - t))) i))
    ⊎ (length (prefixed letter rest k take rounds) ≤ index)

pick-Picked :
    (row : List ℕ) (letter : ℕ) (rest : ℕ → List Rack) (size k take rounds index : ℕ)
    → Counts row rest size
    → k ≤ size
    → index < u64_max
    → Picked row letter rest k take rounds index
unfolding pick
pick-Picked row letter rest size k take zero index c h m = inr (omega arith)
pick-Picked row letter rest size k take (suc rounds) index c h m =
    elim (Bool-cases (ltb index (get_or row (k - take) 0))) [
      | inl hit ↦ inl (
        take,
        index,
        rw hit,
        omega (arith, ltb→lt _ _ hit, c (k - take) (omega arith)),
        m,
        get_elem?-append_left _ _ index (
            omega (
              arith,
              ltb→lt _ _ hit,
              c (k - take) (omega arith),
              length-map (rest (k - take)) (λ rack. replicate take letter ++ rack),
            )),
      )
      | inr miss ↦
          later miss (pick-Picked row letter rest size k (take + 1) rounds _ c h (omega arith))
    ]
  where
    block : List Rack
    block = map (λ rack. replicate take letter ++ rack) (rest (k - take))

    exact :
        ltb index (get_or row (k - take) 0) ≡ false
        → (length block ≡ get_or row (k - take) 0) × (get_or row (k - take) 0 ≤ index)
    exact miss = omega (
      arith,
      not-ltb→le _ _ miss,
      c (k - take) (omega arith),
      length-map (rest (k - take)) (λ rack. replicate take letter ++ rack),
    )

    later :
        ltb index (get_or row (k - take) 0) ≡ false
        → Picked row letter rest k (take + 1) rounds (index - get_or row (k - take) 0)
        → Picked row letter rest k take (suc rounds) index
    later miss (inl (t, i, e, lt, m', g)) = inl (
      t,
      i,
      rw miss e,
      lt,
      m',
      get_elem?-append_right block _ index (index - get_or row (k - take) 0)
            (omega (arith, exact miss))
          ∙ g,
    )
    later miss (inr le) =
        inr (
          omega (arith, exact miss, length-append block (prefixed letter rest k (take + 1) rounds)))

-- Row `i` of the table is that of the tiles from `i` on.
abbrev Suffix : List (List ℕ) → ℕ → List Tile → ℕ → Type 0
Suffix counts i ts size = (j : ℕ) → get_or counts (i + j) [] ≡ get_or (count_rows ts size) j []

abbrev Unranks : List (List ℕ) → ℕ → ℕ → List Tile → Type 0
Unranks counts all i ts =
    (size index : ℕ) (rack r : Rack)
    → size ≤ all
    → index < u64_max
    → get_elem? (racks ts size) index ≡ some r
    → unrank counts i ts size index rack ≡ rack ++ r

module _ (counts : List (List ℕ)) (all i : ℕ) (t : Tile) (ts : List Tile) where
  Suffix-suc : Suffix counts i (t ∷ ts) all → Suffix counts (i + 1) ts all
  unfolding count_rows
  Suffix-suc s j = ap (λ (n : ℕ). get_or counts n []) (omega arith) ∙ s (suc j)

  Counts-suffix : Suffix counts i (t ∷ ts) all → Counts (get_or counts (i + 1) []) (racks ts) all
  Counts-suffix s k h =
      ap (λ (n : ℕ). get_or (get_or counts n []) k 0) (omega arith)
      ∙ ap (λ row. get_or row k 0) (Suffix-suc s 0)
      ∙ count_rows-Counts ts all k h

  unrank-hit :
      (size index take left : ℕ) (rack r : Rack)
      → Unranks counts all (i + 1) ts
      → size ≤ all
      → left < u64_max
      → pick (get_or counts (i + 1) []) size 0 (min t.count size + 1) index ≡ (some take, left)
      → left < length (racks ts (size - take))
      → get_elem? (map (λ rest. replicate take t.letter ++ rest) (racks ts (size - take))) left
        ≡ some r
      → unrank counts i (t ∷ ts) size index rack ≡ rack ++ r
  unfolding unrank
  unrank-hit size index take left rack r rec h m p lt g =
      let (tail, e) = get_elem?-some (racks ts (size - take)) left lt in
      let whole = some-cancel (sym (get_elem?-map _ (racks ts (size - take)) left e) ∙ g) in
      subst (λ q. after q ≡ rack ++ r) (sym p)
        (rec (size - take) left (rack ++ replicate take t.letter) tail (omega arith) m e
          ∙ append_assoc rack (replicate take t.letter) tail
          ∙ ap (λ rest. rack ++ rest) whole)
    where
      after : Option ℕ × ℕ → Rack
      after q = elim q.0 [
        | none ↦ unrank counts (i + 1) ts size q.1 rack
        | some take' ↦
            unrank counts (i + 1) ts (size - take') q.1 (rack ++ replicate take' t.letter)
      ]

unrank-racks :
    (counts : List (List ℕ)) (all i : ℕ) (ts : List Tile)
    → Suffix counts i ts all
    → Unranks counts all i ts
unfolding unrank
unrank-racks counts all i [] s zero zero rack r h m e =
    sym (append-nil rack) ∙ ap (λ rest. rack ++ rest) (some-cancel e)
unrank-racks counts all i [] s zero (suc index) rack r h m e = absurd (none-ne-some e)
unrank-racks counts all i [] s (suc size) index rack r h m e = absurd (none-ne-some e)
unrank-racks counts all i (t ∷ ts) s size index rack r h m e =
    go (unrank-racks counts all (i + 1) ts (Suffix-suc counts all i t ts s)) (
      pick-Picked (get_or counts (i + 1) []) t.letter (racks ts) all size 0 (min t.count size + 1)
        index (Counts-suffix counts all i t ts s) h m)
  where
    go :
        Unranks counts all (i + 1) ts
        → Picked (get_or counts (i + 1) []) t.letter (racks ts) size 0 (min t.count size + 1) index
        → unrank counts i (t ∷ ts) size index rack ≡ rack ++ r
    go rec (inl (take, left, p, lt, m', g)) =
        unrank-hit counts all i t ts size index take left rack r rec h m' p lt (sym g ∙ e)
    go rec (inr le) =
        absurd (none-ne-some (sym (get_elem?-none (racks (t ∷ ts) size) index le) ∙ e))

-- The rack at an index of the table is the one at that place of the rack space, and past the end
-- there is none.
pub rack_at_enumeration_index-racks :
    (tiles : List Tile) (size index : ℕ)
    → index < u64_max
    → rack_at_enumeration_index (new_index tiles size) index ≡ get_elem? (racks tiles size) index
unfolding rack_at_enumeration_index
rack_at_enumeration_index-racks tiles size index m =
    elim (Bool-cases (leb (total (new_index tiles size)) index)) [
      | inl past ↦ rw past (
          sym (
            get_elem?-none (racks tiles size) index
              (omega (arith, leb→le _ _ past, total-new_index tiles size))))
      | inr inside ↦
          let (r, e) =
            get_elem?-some (racks tiles size) index
              (omega (arith, not-leb→lt _ _ inside, total-new_index tiles size)) in
          rw (inside, e)
            (ap some (
              unrank-racks (count_rows tiles size) size 0 tiles
                (λ j. ap (λ (n : ℕ). get_or (count_rows tiles size) n []) (omega arith)) size index
                [] r (omega arith) m e))
    ]
