-- ===== src/Racks/Walk.antt =====
-- `LetterDistribution::walk` of jobs/racks.rs lists the rack space, last rack first.
use birdtest.Prelude.{
  ℕ, zero, suc, ◌+◌, ◌-◌, ◌%◌, ◌^◌, ◌<◌, ◌≡◌, refl, sym, ◌∙◌, ap, inl, inr, min, List, [], ◌∷◌,
  ◌++◌, map, reverse, replicate, arith, Bool-cases, false, ◌==◌, ltb, ltb→lt,
}
use mathlib.Core.List.{append_assoc, append-nil, map-append, reverse-append, reverse-cons, map-id}
use birdtest.Racks.{Tile, Rack, LetterDistribution, available, descend, walk, enumerate_racks}
use birdtest.Racks.Space.{racks, prefixed}

-- All the tiles of the bag.
abbrev pub bag_size : List Tile → ℕ
bag_size [] = 0
bag_size (t ∷ ts) = t.count + bag_size ts

available-bag_size : (ts : List Tile) → bag_size ts < 2 ^ 32 → available ts ≡ bag_size ts
unfolding available
available-bag_size [] h = refl
available-bag_size (t ∷ ts) h = omega (arith, available-bag_size ts (omega arith))

racks-zero : (ts : List Tile) → racks ts 0 ≡ [] ∷ []
racks-zero [] = refl
racks-zero (t ∷ ts) =
    ap (prefixed t.letter (racks ts) 0 0) (let e : min t.count 0 + 1 ≡ 1 = omega arith in e)
    ∙ ap (λ rs. map (λ (rack : Rack). rack) rs ++ []) (racks-zero ts)

prefixed-nil :
    (letter : ℕ) (rest : ℕ → List Rack) (k take rounds : ℕ)
    → ((j : ℕ) → j < take + rounds → rest (k - j) ≡ [])
    → prefixed letter rest k take rounds ≡ []
prefixed-nil letter rest k take zero h = refl
prefixed-nil letter rest k take (suc rounds) h =
    rw (h take (omega arith))
      (prefixed-nil letter rest k (take + 1) rounds (λ j lt. h j (omega arith)))

racks-short : (ts : List Tile) (k : ℕ) → bag_size ts < k → racks ts k ≡ []
racks-short [] zero h = absurd (omega arith)
racks-short [] (suc k) h = refl
racks-short (t ∷ ts) k h =
    prefixed-nil t.letter (racks ts) k 0 (min t.count k + 1)
      (λ j lt. racks-short ts (k - j) (omega arith))

abbrev block : ℕ → (ℕ → List Rack) → ℕ → ℕ → List Rack
block letter rest k take = map (λ rack. replicate take letter ++ rack) (rest (k - take))

prefixed-snoc :
    (letter : ℕ) (rest : ℕ → List Rack) (k take rounds last : ℕ)
    → last ≡ take + rounds
    → prefixed letter rest k take (suc rounds)
      ≡ prefixed letter rest k take rounds ++ block letter rest k last
prefixed-snoc letter rest k take zero last e =
    append-nil _ ∙ ap (block letter rest k) (let s : take ≡ last = omega arith in s)
prefixed-snoc letter rest k take (suc rounds) last e =
    ap (λ rs. block letter rest k take ++ rs)
      (prefixed-snoc letter rest k (take + 1) rounds last (omega arith))
    ∙ sym (append_assoc (block letter rest k take) _ _)

-- What a call of `walk` adds to the list.
abbrev Walks : (ℕ → Rack → List Rack → List Rack) → (ℕ → List Rack) → Type 0
Walks go rest =
    (k : ℕ) (current : Rack) (out : List Rack)
    → k < 2 ^ 32
    → go k current out ≡ out ++ map (λ rack. current ++ rack) (reverse (rest k))

map-nested :
    (current front : Rack) (rs : List Rack)
    → map (λ rack. (current ++ front) ++ rack) rs
      ≡ map (λ rack. current ++ rack) (map (λ rack. front ++ rack) rs)
map-nested current front [] = refl
map-nested current front (r ∷ rs) =
    ap (λ x. x ∷ map (λ rack. (current ++ front) ++ rack) rs) (append_assoc current front r)
    ∙ ap (λ xs. (current ++ (front ++ r)) ∷ xs) (map-nested current front rs)

map-reverse_lem : (f : Rack → Rack) (rs : List Rack) → map f (reverse rs) ≡ reverse (map f rs)
map-reverse_lem f [] = refl
map-reverse_lem f (r ∷ rs) =
    ap (map f) (reverse-cons r rs)
    ∙ map-append f (reverse rs) (r ∷ [])
    ∙ ap (λ xs. xs ++ f r ∷ []) (map-reverse_lem f rs)
    ∙ sym (reverse-cons (f r) (map f rs))

-- What the call of `walk` for one value of `take` adds.
go-block :
    (go : ℕ → Rack → List Rack → List Rack) (rest : ℕ → List Rack) (letter k : ℕ) (current : Rack)
    (take : ℕ) (out : List Rack)
    → Walks go rest
    → k < 2 ^ 32
    → go (k - take) (current ++ replicate take letter) out
      ≡ out ++ map (λ rack. current ++ rack) (reverse (block letter rest k take))
go-block go rest letter k current take out w h =
    w (k - take) (current ++ replicate take letter) out (omega arith)
    ∙ ap (λ rs. out ++ rs)
        (map-nested current (replicate take letter) (reverse (rest (k - take)))
          ∙ ap (map (λ rack. current ++ rack)) (map-reverse_lem _ (rest (k - take))))

descend-prefixed :
    (go : ℕ → Rack → List Rack → List Rack) (rest : ℕ → List Rack) (letter k : ℕ) (current : Rack)
    (take : ℕ) (out : List Rack)
    → Walks go rest
    → k < 2 ^ 32
    → descend go letter k current take out
      ≡ out ++ map (λ rack. current ++ rack) (reverse (prefixed letter rest k 0 (suc take)))
unfolding descend
descend-prefixed go rest letter k current zero out w h =
    ap (λ (n : ℕ). go n current out) (let e : k ≡ k - 0 = omega arith in e)
    ∙ ap (λ c. go (k - 0) c out) (sym (append-nil current))
    ∙ go-block go rest letter k current 0 out w h
    ∙ ap (λ rs. out ++ map (λ rack. current ++ rack) (reverse rs))
        (sym (append-nil (block letter rest k 0)))
descend-prefixed go rest letter k current (suc take) out w h =
    descend-prefixed go rest letter k current take _ w h
    ∙ ap (λ rs. rs ++ shown (reverse front)) (go-block go rest letter k current (suc take) out w h)
    ∙ append_assoc out (shown (reverse last)) (shown (reverse front))
    ∙ ap (λ rs. out ++ rs)
        (sym (map-append (λ rack. current ++ rack) (reverse last) (reverse front))
          ∙ ap shown (
              sym (reverse-append front last)
              ∙ ap reverse
                  (sym (prefixed-snoc letter rest k 0 (suc take) (suc take) (omega arith)))))
  where
    shown : List Rack → List Rack
    shown = map (λ rack. current ++ rack)

    last : List Rack
    last = block letter rest k (suc take)

    front : List Rack
    front = prefixed letter rest k 0 (suc take)

suc-nonzero : (k : ℕ) → (suc k == 0) ≡ false
suc-nonzero k = ground arith

walk-racks : (ts : List Tile) → bag_size ts < 2 ^ 32 → Walks (walk ts) (racks ts)
unfolding walk
walk-racks [] b zero current out h = ap (λ r. out ++ r ∷ []) (sym (append-nil current))
walk-racks [] b (suc k) current out h = rw (suc-nonzero k) (sym (append-nil out))
walk-racks (t ∷ ts) b zero current out h =
    ap (λ r. out ++ r ∷ []) (sym (append-nil current))
    ∙ ap (λ rs. out ++ map (λ rack. current ++ rack) (reverse rs)) (sym (racks-zero (t ∷ ts)))
walk-racks (t ∷ ts) b (suc k) current out h =
    rw (suc-nonzero k) (elim (Bool-cases (ltb (available (t ∷ ts)) (suc k))) [
      | inl short ↦ rw short (
          sym (append-nil out)
          ∙ ap (λ rs. out ++ map (λ rack. current ++ rack) (reverse rs))
              (sym (
                racks-short (t ∷ ts) (suc k)
                  (omega (arith, ltb→lt _ _ short, available-bag_size (t ∷ ts) b)))))
      | inr enough ↦ rw enough (
          ap (λ (n : ℕ). descend (walk ts) t.letter (suc k) current n out)
            (let e : min t.count (suc k % 2 ^ 32) ≡ min t.count (suc k) = omega arith in e)
          ∙ descend-prefixed (walk ts) (racks ts) t.letter (suc k) current (min t.count (suc k)) out
              (walk-racks ts (omega arith)) h
          ∙ ap
              (λ (n : ℕ).
                out
                ++ map (λ rack. current ++ rack)
                    (reverse (prefixed t.letter (racks ts) (suc k) 0 n)))
              (let e : suc (min t.count (suc k)) ≡ min t.count (suc k) + 1 = omega arith in e))
    ])

-- The walk lists the rack space, last rack first.
pub enumerate_racks-reverse :
    (d : LetterDistribution) (size : ℕ)
    → bag_size d.tiles < 2 ^ 32
    → size < 2 ^ 32
    → enumerate_racks d size ≡ reverse (racks d.tiles size)
unfolding enumerate_racks
enumerate_racks-reverse d size b h =
    walk-racks d.tiles b size [] [] h ∙ map-id (reverse (racks d.tiles size))
