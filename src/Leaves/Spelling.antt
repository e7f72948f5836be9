-- ===== src/Leaves/Spelling.antt =====
-- backend/src/jobs/leave_gen.rs: `spell_as_the_universe` and `process_response`. A text is its characters.
use birdtest.Prelude.{
  ℕ, suc, ◌≤◌, ◌≡◌, refl, sym, ap, ◌∙◌, Bool, true, false, ◌||◌, ◌&&◌, List, [], ◌∷◌, map,
  AppResult, ok, ◌>>◌, refuse, ltb, leb, ◌==◌, if◌then◌else◌, arith,
}
use birdtest.Claims.Rows.{exists, count}
use birdtest.Wire.{RackOccurrence}
use birdtest.Wire.Chars.{Text}
use birdtest.Board.{bytes}
use birdtest.Plausibility.Batches.{check_rack_occurrences}

abbrev pub max_rack_bytes : ℕ
max_rack_bytes = 28

abbrev place : ℕ → Text → Text
place c [] = c ∷ []
place c (d ∷ s) = let rest = place c s in if leb c d then c ∷ d ∷ s else d ∷ rest

-- `sort_unstable`: equal characters are one.
abbrev pub sorted : Text → Text
sorted [] = []
sorted (c ∷ s) = place c (sorted s)

abbrev pub is_bracket : ℕ → Bool
is_bracket c = (c == b'[') || (c == b']')

unfoldable pub spell_as_the_universe : Text → Text
spell_as_the_universe rack =
    if ltb max_rack_bytes (bytes rack) || exists is_bracket rack then rack else sorted rack

abbrev pub spelled : RackOccurrence → RackOccurrence
spelled o = record o { rack = spell_as_the_universe o.rack }

unfoldable pub process_response : List RackOccurrence → AppResult (List RackOccurrence)
unfolding spell_as_the_universe check_rack_occurrences
process_response racks =
    refuse (elim racks [ [] ↦ true | _ ∷ _ ↦ false ])
    >> check_rack_occurrences (map spelled racks)
    >> ok (map spelled racks)

-- How often a letter stands in a text.
abbrev pub times_in : ℕ → Text → ℕ
times_in c s = count (λ d. d == c) s

abbrev is_least : ℕ → Text → Bool
is_least c [] = true
is_least c (d ∷ s) = leb c d && is_least c s

abbrev is_sorted : Text → Bool
is_sorted [] = true
is_sorted (c ∷ s) = is_least c s && is_sorted s

place-least : (a c : ℕ) (s : Text) → is_least a s ≡ true → a ≤ c → is_least a (place c s) ≡ true
place-least a c [] h le = ground (arith, le)
place-least a c (d ∷ s) h le = ground (arith, h, le, place-least a c s)

least-weaken : (a b : ℕ) (s : Text) → a ≤ b → is_least b s ≡ true → is_least a s ≡ true
least-weaken a b [] le h = refl
least-weaken a b (d ∷ s) le h = ground (arith, le, h, least-weaken a b s)

place-sorted : (c : ℕ) (s : Text) → is_sorted s ≡ true → is_sorted (place c s) ≡ true
place-sorted c [] h = refl
place-sorted c (d ∷ s) h =
    ground (arith, h, place-sorted c s, place-least d c s, least-weaken c d s)

sorted-is_sorted : (s : Text) → is_sorted (sorted s) ≡ true
sorted-is_sorted [] = refl
sorted-is_sorted (c ∷ s) = place-sorted c (sorted s) (sorted-is_sorted s)

place-times : (a c : ℕ) (s : Text) → times_in a (place c s) ≡ times_in a (c ∷ s)
place-times a c [] = refl
place-times a c (d ∷ s) = ground (arith, place-times a c s)

sorted-times : (a : ℕ) (s : Text) → times_in a (sorted s) ≡ times_in a s
sorted-times a [] = refl
sorted-times a (c ∷ s) = omega (arith, place-times a c (sorted s), sorted-times a s)

place-bytes : (c : ℕ) (s : Text) → bytes (place c s) ≡ bytes (c ∷ s)
place-bytes c [] = refl
place-bytes c (d ∷ s) = ground (arith, place-bytes c s)

sorted-bytes : (s : Text) → bytes (sorted s) ≡ bytes s
sorted-bytes [] = refl
sorted-bytes (c ∷ s) = omega (arith, place-bytes c (sorted s), sorted-bytes s)

place-bracket : (c : ℕ) (s : Text) → exists is_bracket (place c s) ≡ exists is_bracket (c ∷ s)
place-bracket c [] = refl
place-bracket c (d ∷ s) = ground (arith, place-bracket c s)

sorted-bracket : (s : Text) → exists is_bracket (sorted s) ≡ exists is_bracket s
sorted-bracket [] = refl
sorted-bracket (c ∷ s) = ground (arith, place-bracket c (sorted s), sorted-bracket s)

least-times : (a c : ℕ) (s : Text) → is_least a s ≡ true → suc c ≤ a → times_in c s ≡ 0
least-times a c [] h lt = refl
least-times a c (d ∷ s) h lt = ground (arith, h, lt, least-times a c s)

-- Sorted texts of the same letters are the same.
sorted_unique :
    (s t : Text)
    → is_sorted s ≡ true
    → is_sorted t ≡ true
    → ((c : ℕ) → times_in c s ≡ times_in c t)
    → s ≡ t
sorted_unique [] [] hs ht e = refl
sorted_unique [] (d ∷ t) hs ht e = absurd (ground (arith, e d))
sorted_unique (c ∷ s) [] hs ht e = absurd (ground (arith, e c))
sorted_unique (c ∷ s) (d ∷ t) hs ht e =
    let same : c ≡ d = ground (arith, hs, ht, e c, e d, least-times c d s, least-times d c t) in
    let rest : s ≡ t =
      sorted_unique s t (ground (arith, hs)) (ground (arith, ht))
        (λ a. ground (arith, e a, same)) in
    ground (arith, same, rest)

-- Two spellings of the same letters, in any order, are spelled alike, if one of them could be a rack (28 bytes at
-- most, no bracket); and what is spelled stays as it is when it is spelled again.
pub spell_as_the_universe-letters :
    (s t : Text)
    → bytes s ≤ max_rack_bytes
    → exists is_bracket s ≡ false
    → ((c : ℕ) → times_in c s ≡ times_in c t)
    → (spell_as_the_universe s ≡ spell_as_the_universe t)
      × (spell_as_the_universe (spell_as_the_universe s) ≡ spell_as_the_universe s)
unfolding spell_as_the_universe
spell_as_the_universe-letters s t small plain e =
    let same : sorted s ≡ sorted t =
      sorted_unique (sorted s) (sorted t) (sorted-is_sorted s) (sorted-is_sorted t)
        (λ c. omega (arith, e c, sorted-times c s, sorted-times c t)) in
    let again : sorted (sorted s) ≡ sorted s =
      sorted_unique (sorted (sorted s)) (sorted s) (sorted-is_sorted (sorted s))
        (sorted-is_sorted s) (λ c. sorted-times c (sorted s)) in
    let small_too : bytes t ≡ bytes s =
      sym (sorted-bytes t) ∙ ap bytes (sym same) ∙ sorted-bytes s in
    let plain_too : exists is_bracket t ≡ exists is_bracket s =
      sym (sorted-bracket t) ∙ ap (exists is_bracket) (sym same) ∙ sorted-bracket s in
    (
      ground (arith, small, plain, small_too, plain_too, same),
      ground (arith, small, plain, sorted-bytes s, sorted-bracket s, again),
    )
