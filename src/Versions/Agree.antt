-- ===== src/Versions/Agree.antt =====
-- A version that is read strictly is read alike without: version.rs, `parse_strict` and `parse_or_zero`.
use birdtest.Prelude.{
  ℕ, ◌≡◌, inl, inr, refl, Bool, Bool-cases, true, false, not, ◌||◌, List, [], ◌∷◌, ◌++◌, reverse,
  Option, none, some, ◌==◌, ℤ, pos, arith,
}
use mathlib.Core.List.{reverse-cons, reverse-reverse}
use birdtest.Wire.Chars.{Text, is_whitespace}
use birdtest.Versions.{
  Version, trim_start, trim, onto_first, split, before_metadata, is_ascii_digit, all_digits,
  parse_i32, is_malformed, three, strict_parts, parse_strict, next, rest_of, lenient, parse_or_zero,
}

abbrev is_malformed_but_empty : List Text → Bool
is_malformed_but_empty [] = false
is_malformed_but_empty (p ∷ ps) = not (all_digits p) || is_malformed_but_empty ps

is_malformed-weaken : (ps : List Text) → is_malformed ps ≡ false → is_malformed_but_empty ps ≡ false
is_malformed-weaken [] h = refl
is_malformed-weaken (p ∷ ps) h = ground (arith, h, is_malformed-weaken ps)

-- The part that a character joins.
onto_first-part :
    (c : ℕ) (ps : List Text)
    → is_malformed_but_empty (onto_first c ps) ≡ false
    → (is_ascii_digit c ≡ true) × (is_malformed_but_empty ps ≡ false)
onto_first-part c [] h = ground (arith, h)
onto_first-part c (p ∷ ps) h = ground (arith, h)

trim_start-digits : (s : Text) → all_digits s ≡ true → trim_start s ≡ s
unfolding trim_start is_whitespace
trim_start-digits [] h = refl
trim_start-digits (c ∷ s) h = ground (arith, h)

all_digits-append :
    (s t : Text) → all_digits s ≡ true → all_digits t ≡ true → all_digits (s ++ t) ≡ true
all_digits-append [] t h k = k
all_digits-append (c ∷ s) t h k = ground (arith, h, k, all_digits-append s t)

all_digits-reverse : (s : Text) → all_digits s ≡ true → all_digits (reverse s) ≡ true
all_digits-reverse [] h = refl
all_digits-reverse (c ∷ s) h = rw (reverse-cons c s) (
    all_digits-append (reverse s) (c ∷ []) (all_digits-reverse s (ground (arith, h)))
      (ground (arith, h)))

trim-digits : (s : Text) → all_digits s ≡ true → trim s ≡ s
unfolding trim
trim-digits s h =
    rw (trim_start-digits s h, trim_start-digits (reverse s) (all_digits-reverse s h))
      (reverse-reverse s)

-- A text whose parts are digits has neither sign.
before_metadata-parts :
    (s : Text) → is_malformed_but_empty (split s) ≡ false → before_metadata s ≡ s
before_metadata-parts [] h = refl
before_metadata-parts (c ∷ s) h = elim (Bool-cases (c == b'.')) [
  | inl dot ↦ ground (arith, dot, h, before_metadata-parts s)
  | inr other ↦
      let (digit, rest) = onto_first-part c (split s) (ground (arith, other, h)) in
      ground (arith, digit, before_metadata-parts s rest)
]

-- The parts of a version that is read strictly, and what they are read as.
lenient-strict :
    (ps : List Text) (v : Version)
    → is_malformed ps ≡ false
    → strict_parts ps ≡ some v
    → lenient (next ps) (next (rest_of ps)) (next (rest_of (rest_of ps))) ≡ v
unfolding next
lenient-strict [] v h e = absurd (ground (arith, e))
lenient-strict (a ∷ []) v h e = absurd (ground (arith, e))
lenient-strict (a ∷ b ∷ []) v h e =
    rw (trim-digits a (ground (arith, h)), trim-digits b (ground (arith, h)))
      (read v (parse_i32 a) (parse_i32 b) e)
  where
    read : (v : Version) (x y : Option ℤ) → three x y (some (pos 0)) ≡ some v → lenient x y none ≡ v
    read v none y e = absurd (ground (arith, e))
    read v (some x) none e = absurd (ground (arith, e))
    read v (some x) (some y) e = ground (arith, e)
lenient-strict (a ∷ b ∷ c ∷ []) v h e =
    rw
      (
        trim-digits a (ground (arith, h)),
        trim-digits b (ground (arith, h)),
        trim-digits c (ground (arith, h)),
      )
      (read v (parse_i32 a) (parse_i32 b) (parse_i32 c) e)
  where
    read : (v : Version) (x y z : Option ℤ) → three x y z ≡ some v → lenient x y z ≡ v
    read v none y z e = absurd (ground (arith, e))
    read v (some x) none z e = absurd (ground (arith, e))
    read v (some x) (some y) none e = absurd (ground (arith, e))
    read v (some x) (some y) (some z) e = ground (arith, e)
lenient-strict (a ∷ b ∷ c ∷ d ∷ ps) v h e = absurd (ground (arith, e))

-- Whatever a version is read as where only a whole version is taken, it is read as that where anything is.
pub parse_or_zero-strict :
    (text : Text) (v : Version) → parse_strict text ≡ some v → parse_or_zero text ≡ v
unfolding parse_strict parse_or_zero
parse_or_zero-strict text v h = elim (Bool-cases (is_malformed (split (trim text)))) [
  | inl bad ↦ absurd (ground (arith, bad, h))
  | inr good ↦
      let parts : strict_parts (split (trim text)) ≡ some v = ground (arith, good, h) in
      let unsigned_parts = is_malformed-weaken (split (trim text)) good in
      rw (before_metadata-parts (trim text) unsigned_parts)
        (lenient-strict (split (trim text)) v good parts)
]
