-- ===== src/OpeningRacks/Rounds.antt =====
-- `(start..end).map_while(f)` of racks.rs, taken apart and counted.
use birdtest.Prelude.{
  ℕ, zero, suc, ◌+◌, ◌≤◌, ◌<◌, ◌≡◌, inl, inr, refl, sym, ap, ◌∙◌, Bool-cases, Option-cases, [], ◌∷◌,
  ◌++◌, Option, none, some, ltb, if◌then◌else◌, length, get_elem?, arith,
}
use birdtest.Racks.{Rack, map_while}

module _ (f : ℕ → Option Rack) where
  shifted :
      (s k i : ℕ) (r : Rack)
      → f s ≡ some r
      → ((j : ℕ) → get_elem? (map_while f (s + 1) k) j ≡ (if ltb j k then f (s + 1 + j) else none))
      → get_elem? (r ∷ map_while f (s + 1) k) i ≡ (if ltb i (suc k) then f (s + i) else none)
  shifted s k zero r found rest = let e : s + 0 ≡ s = omega arith in rw (e, found) (ground arith)
  shifted s k (suc j) r found rest =
      let e : s + suc j ≡ s + 1 + j = omega arith in rw (e, rest j) (ground arith)

  map_while-none : (s k : ℕ) → f s ≡ none → map_while f s k ≡ []
  unfolding map_while
  map_while-none s zero h = refl
  map_while-none s (suc k) h = rw (h, map_while) refl

  map_while-some :
      (s k : ℕ) (r : Rack) → f s ≡ some r → map_while f s (suc k) ≡ r ∷ map_while f (s + 1) k
  unfolding map_while
  map_while-some s k r h = rw (h, map_while) refl

  pub map_while-filled : (s k : ℕ) (r : Rack) → 0 < k → f s ≡ some r → map_while f s k ≡ [] → ⊥
  map_while-filled s zero r h found e = omega (arith, h)
  map_while-filled s (suc k) r h found e = ground (arith, map_while-some s k r found, e)

  -- As many rounds as there were racks give the same racks.
  pub map_while-length : (s k : ℕ) → map_while f s (length (map_while f s k)) ≡ map_while f s k
  unfolding map_while
  map_while-length s zero = refl
  map_while-length s (suc k) = elim (Option-cases (f s)) [
    | inl absent ↦ rw (map_while-none s (suc k) absent) refl
    | inr (r, found) ↦ rw (map_while-some s k r found) (
        map_while-some s (length (map_while f (s + 1) k)) r found
        ∙ ap (λ rest. r ∷ rest) (map_while-length (s + 1) k))
  ]

  pub length-map_while : (s k : ℕ) → length (map_while f s k) ≤ k
  unfolding map_while
  length-map_while s zero = omega arith
  length-map_while s (suc k) = elim (Option-cases (f s)) [
    | inl absent ↦ rw (map_while-none s (suc k) absent) (omega arith)
    | inr (r, found) ↦ rw (map_while-some s k r found) (omega (arith, length-map_while (s + 1) k))
  ]

  module _ (n : ℕ) (below : (i : ℕ) → i < n → (r : Rack) × (f i ≡ some r))
      (past : (i : ℕ) → n ≤ i → f i ≡ none) where
    absent-past : (i : ℕ) → f i ≡ none → n ≤ i
    absent-past i h = elim (Bool-cases (ltb i n)) [
      | inl inside ↦
          let (r, found) = below i (ground (arith, inside)) in absurd (ground (arith, found, h))
      | inr outside ↦ ground (arith, outside)
    ]

    absent_later : (i j : ℕ) → f i ≡ none → i ≤ j → f j ≡ none
    absent_later i j h l = past j (omega (arith, l, absent-past i h))

    pub map_while-append :
        (s a b : ℕ) → map_while f s (a + b) ≡ map_while f s a ++ map_while f (s + a) b
    unfolding map_while
    map_while-append s zero b =
        let e : s + 0 ≡ s = omega arith in let z : 0 + b ≡ b = omega arith in rw (e, z) refl
    map_while-append s (suc a) b = elim (Option-cases (f s)) [
      | inl absent ↦
          map_while-none s (suc a + b) absent
          ∙ sym (
              rw (map_while-none s (suc a) absent)
                (map_while-none (s + suc a) b (absent_later s (s + suc a) absent (omega arith))))
      | inr (r, found) ↦
          let more : suc a + b ≡ suc (a + b) = omega arith in
          let on : s + suc a ≡ s + 1 + a = omega arith in
          rw (more, map_while-some s (a + b) r found, map_while-some s a r found, on)
            (ap (λ rest. r ∷ rest) (map_while-append (s + 1) a b))
    ]

    pub get_elem?-map_while :
        (s k i : ℕ) → get_elem? (map_while f s k) i ≡ (if ltb i k then f (s + i) else none)
    unfolding map_while
    get_elem?-map_while s zero i = ground arith
    get_elem?-map_while s (suc k) i = elim (Option-cases (f s)) [
      | inl absent ↦
          rw (map_while-none s (suc k) absent, absent_later s (s + i) absent (omega arith))
            (ground arith)
      | inr (r, found) ↦
          rw (map_while-some s k r found)
            (shifted s k i r found (λ j. get_elem?-map_while (s + 1) k j))
    ]
