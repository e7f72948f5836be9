-- ===== src/Racks/Draws.antt =====
-- Which racks the space of jobs/racks.rs holds: each way to draw the tiles, once.
use birdtest.Prelude.{
  ℕ, zero, suc, ◌+◌, ◌-◌, ◌≤◌, ◌<◌, ◌≡◌, ◌≢◌, refl, sym, ◌∙◌, ap, min, List, [], ◌∷◌, ◌++◌, map,
  some, get_elem?, replicate, length, length-map, arith, none-ne-some, some-cancel,
  get_elem?-append_left, get_elem?-append_right, get_elem?-lt, get_elem?-map, get_elem?-map_inv,
  if◌then◌else◌, ◌==◌,
}
use native.Mathlib.Decide.{dec_lt}
use birdtest.Racks.{Tile, Rack}
use birdtest.Racks.Space.{racks, prefixed}

-- A rack of `k` tiles drawn from the bag, its letters in the order of the tiles.
abbrev pub IsDraw : List Tile → ℕ → Rack → Type 0
IsDraw [] k r = (k ≡ 0) × (r ≡ [])
IsDraw (t ∷ ts) k r =
    (c : ℕ) × (rest : Rack) × (c ≤ t.count)
    × (c ≤ k)
    × (r ≡ replicate c t.letter ++ rest)
    × IsDraw ts (k - c) rest

-- How many racks stand before those with `take + n` copies of the letter.
abbrev before : (ℕ → List Rack) → ℕ → ℕ → ℕ → ℕ
before rest k take zero = 0
before rest k take (suc n) = length (rest (k - take)) + before rest k (take + 1) n

abbrev Found : ℕ → (ℕ → List Rack) → ℕ → ℕ → ℕ → ℕ → Rack → Type 0
Found letter rest k take rounds i r =
    (n : ℕ) × (j : ℕ) × (tail : Rack) × (n < rounds)
    × (i ≡ before rest k take n + j)
    × (get_elem? (rest (k - (take + n))) j ≡ some tail)
    × (r ≡ replicate (take + n) letter ++ tail)

length-block :
    (letter take : ℕ) (rs : List Rack)
    → length (map (λ rack. replicate take letter ++ rack) rs) ≡ length rs
length-block letter take rs = length-map rs _

prefixed-Found :
    (letter : ℕ) (rest : ℕ → List Rack) (k take rounds i : ℕ) (r : Rack)
    → get_elem? (prefixed letter rest k take rounds) i ≡ some r
    → Found letter rest k take rounds i r
prefixed-Found letter rest k take zero i r e = absurd (none-ne-some e)
prefixed-Found letter rest k take (suc rounds) i r e = elim (dec_lt i (length (rest (k - take)))) [
  | yes lt ↦ first lt
  | no ge ↦ later ge (
      prefixed-Found letter rest k (take + 1) rounds (i - length (rest (k - take))) r (
        sym (
          get_elem?-append_right block _ i _
            (omega (arith, length-block letter take (rest (k - take)))))
        ∙ e))
]
  where
    block : List Rack
    block = map (λ rack. replicate take letter ++ rack) (rest (k - take))

    first : i < length (rest (k - take)) → Found letter rest k take (suc rounds) i r
    first lt =
        let (tail, g, s) = get_elem?-map_inv _ (rest (k - take)) i r (
          sym (
            get_elem?-append_left block _ i
              (omega (arith, length-block letter take (rest (k - take)))))
          ∙ e) in
        let same : take ≡ take + 0 = omega arith in
        (
          0,
          i,
          tail,
          omega arith,
          omega arith,
          ap (λ (n : ℕ). get_elem? (rest (k - n)) i) (sym same) ∙ g,
          s ∙ ap (λ (n : ℕ). replicate n letter ++ tail) same,
        )

    later :
        ¬ (i < length (rest (k - take)))
        → Found letter rest k (take + 1) rounds (i - length (rest (k - take))) r
        → Found letter rest k take (suc rounds) i r
    later ge (n, j, tail, lt, at, g, s) =
        let same : take + 1 + n ≡ take + suc n = omega arith in
        (
          suc n,
          j,
          tail,
          omega arith,
          omega (arith, at, ge),
          ap (λ (m : ℕ). get_elem? (rest (k - m)) j) (sym same) ∙ g,
          s ∙ ap (λ (m : ℕ). replicate m letter ++ tail) same,
        )

-- The blocks stand one after another.
prefixed-before :
    (letter : ℕ) (rest : ℕ → List Rack) (k take rounds n j : ℕ) (tail : Rack)
    → n < rounds
    → get_elem? (rest (k - (take + n))) j ≡ some tail
    → get_elem? (prefixed letter rest k take rounds) (before rest k take n + j)
      ≡ some (replicate (take + n) letter ++ tail)
prefixed-before letter rest k take zero n j tail lt g = absurd (omega arith)
prefixed-before letter rest k take (suc rounds) zero j tail lt g =
    let same : take ≡ take + 0 = omega arith in
    let g' : get_elem? (rest (k - take)) j ≡ some tail =
      ap (λ (m : ℕ). get_elem? (rest (k - m)) j) same ∙ g in
    ap (get_elem? (prefixed letter rest k take (suc rounds))) (let e : 0 + j ≡ j = omega arith in e)
    ∙ get_elem?-append_left _ _ j (
        omega
          (arith, length-block letter take (rest (k - take)), get_elem?-lt (rest (k - take)) j g'))
    ∙ get_elem?-map _ (rest (k - take)) j g'
    ∙ ap (λ (m : ℕ). some (replicate m letter ++ tail)) same
prefixed-before letter rest k take (suc rounds) (suc n) j tail lt g =
    let same : take + 1 + n ≡ take + suc n = omega arith in
    get_elem?-append_right _ _ (before rest k take (suc n) + j) (before rest k (take + 1) n + j)
      (omega (arith, length-block letter take (rest (k - take))))
    ∙ prefixed-before letter rest k (take + 1) rounds n j tail (omega arith)
        (ap (λ (m : ℕ). get_elem? (rest (k - m)) j) same ∙ g)
    ∙ ap (λ (m : ℕ). some (replicate m letter ++ tail)) same

-- Every rack of the space is a draw.
pub racks-IsDraw :
    (ts : List Tile) (k i : ℕ) (r : Rack) → get_elem? (racks ts k) i ≡ some r → IsDraw ts k r
racks-IsDraw [] zero zero r e = (refl, sym (some-cancel e))
racks-IsDraw [] zero (suc i) r e = absurd (none-ne-some e)
racks-IsDraw [] (suc k) i r e = absurd (none-ne-some e)
racks-IsDraw (t ∷ ts) k i r e =
    let (n, j, tail, lt, at, g, s) =
      prefixed-Found t.letter (racks ts) k 0 (min t.count k + 1) i r e in
    (0 + n, tail, omega arith, omega arith, s, racks-IsDraw ts (k - (0 + n)) j tail g)

-- Every draw stands in the space.
pub IsDraw-racks :
    (ts : List Tile) (k : ℕ) (r : Rack)
    → IsDraw ts k r
    → (i : ℕ) × (get_elem? (racks ts k) i ≡ some r)
IsDraw-racks [] zero r (z, e) = (0, ap some (sym e))
IsDraw-racks [] (suc k) r (z, e) = absurd (omega arith)
IsDraw-racks (t ∷ ts) k r (c, tail, le, fits, s, d) =
    let (j, g) = IsDraw-racks ts (k - c) tail d in
    let same : c ≡ 0 + c = omega arith in
    (
      before (racks ts) k 0 c + j,
      prefixed-before t.letter (racks ts) k 0 (min t.count k + 1) c j tail (omega arith)
            (ap (λ (m : ℕ). get_elem? (racks ts (k - m)) j) (sym same) ∙ g)
          ∙ ap (λ (m : ℕ). some (replicate m t.letter ++ tail)) (sym same)
          ∙ ap some (sym s),
    )

abbrev Absent : ℕ → List Tile → Type 0
Absent a [] = Unit {0}
Absent a (t ∷ ts) = (t.letter ≢ a) × Absent a ts

-- No letter is listed twice.
abbrev pub Distinct : List Tile → Type 0
Distinct [] = Unit {0}
Distinct (t ∷ ts) = Absent t.letter ts × Distinct ts

abbrev copies : ℕ → Rack → ℕ
copies a [] = 0
copies a (x ∷ xs) = (if x == a then 1 else 0) + copies a xs

copies-append : (a : ℕ) (xs ys : Rack) → copies a (xs ++ ys) ≡ copies a xs + copies a ys
copies-append a [] ys = omega arith
copies-append a (x ∷ xs) ys = omega (arith, copies-append a xs ys)

copies-replicate_self : (a n : ℕ) → copies a (replicate n a) ≡ n
copies-replicate_self a zero = refl
copies-replicate_self a (suc n) = ground (arith, copies-replicate_self a n)

copies-replicate_ne : (a b n : ℕ) → b ≢ a → copies a (replicate n b) ≡ 0
copies-replicate_ne a b zero h = refl
copies-replicate_ne a b (suc n) h = ground (arith, copies-replicate_ne a b n h)

IsDraw-copies :
    (a : ℕ) (ts : List Tile) (k : ℕ) (r : Rack) → Absent a ts → IsDraw ts k r → copies a r ≡ 0
IsDraw-copies a [] k r ab (z, e) = ap (copies a) e
IsDraw-copies a (t ∷ ts) k r ab (c, tail, le, fits, s, d) =
    ap (copies a) s
    ∙ copies-append a (replicate c t.letter) tail
    ∙ omega (arith, copies-replicate_ne a t.letter c ab.0, IsDraw-copies a ts (k - c) tail ab.1 d)

append-cancel : (xs : Rack) {ys zs : Rack} → xs ++ ys ≡ xs ++ zs → ys ≡ zs
append-cancel [] e = e
append-cancel (x ∷ xs) e = append-cancel xs (cc)

-- No rack stands in the space twice.
pub racks-injective :
    (ts : List Tile) (k i j : ℕ) (r : Rack)
    → Distinct ts
    → get_elem? (racks ts k) i ≡ some r
    → get_elem? (racks ts k) j ≡ some r
    → i ≡ j
racks-injective [] zero zero zero r d e f = refl
racks-injective [] zero (suc i) j r d e f = absurd (none-ne-some e)
racks-injective [] zero zero (suc j) r d e f = absurd (none-ne-some f)
racks-injective [] (suc k) i j r d e f = absurd (none-ne-some e)
racks-injective (t ∷ ts) k i j r d e f =
    go (prefixed-Found t.letter (racks ts) k 0 (min t.count k + 1) i r e)
      (prefixed-Found t.letter (racks ts) k 0 (min t.count k + 1) j r f)
      (λ n. racks-injective ts (k - n))
  where
    leading :
        (n : ℕ) (i' : ℕ) (tail : Rack)
        → get_elem? (racks ts (k - n)) i' ≡ some tail
        → r ≡ replicate n t.letter ++ tail
        → copies t.letter r ≡ n
    leading n i' tail g s =
        ap (copies t.letter) s
        ∙ copies-append t.letter (replicate n t.letter) tail
        ∙ omega (
          arith,
          copies-replicate_self t.letter n,
          IsDraw-copies t.letter ts (k - n) tail d.0 (racks-IsDraw ts (k - n) i' tail g),
        )

    go :
        Found t.letter (racks ts) k 0 (min t.count k + 1) i r
        → Found t.letter (racks ts) k 0 (min t.count k + 1) j r
        → ((n i' j' : ℕ) (tail : Rack)
            → Distinct ts
            → get_elem? (racks ts (k - n)) i' ≡ some tail
            → get_elem? (racks ts (k - n)) j' ≡ some tail
            → i' ≡ j')
        → i ≡ j
    go (n, i', tail, lt, at, g, s) (m, j', tail', lt', at', g', s') rec =
        let same : m ≡ n =
          omega (arith, leading (0 + n) i' tail g s, leading (0 + m) j' tail' g' s') in
        let tails : tail ≡ tail' =
          append-cancel (replicate (0 + n) t.letter)
            (sym s ∙ s' ∙ ap (λ (x : ℕ). replicate (0 + x) t.letter ++ tail') same) in
        let places = rec (0 + n) i' j' tail d.1 g (
          ap (λ (x : ℕ). get_elem? (racks ts (k - (0 + x))) j') (sym same)
          ∙ g'
          ∙ ap some (sym tails)) in
        at ∙ omega (arith, places, ap (before (racks ts) k 0) same, at')
