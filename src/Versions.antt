-- ===== src/Versions.antt =====
-- backend/src/version.rs: versions as three `i32`s, and the two ways to read one.
pub mod Agree
mod Tests
use birdtest.Prelude.{
  ℕ, ◌+◌, ◌-◌, ◌*◌, Bool, true, false, not, ◌&&◌, ◌||◌, List, [], ◌∷◌, ◌++◌, reverse, Option, none,
  some, ltb, leb, ◌==◌, if◌then◌else◌, ℤ, pos, negsuc, ltb_ℤ, eq_ℤ,
}
use birdtest.Wire.Chars.{Text, is_whitespace}

pub record Version : Type 0 where
  pub major : ℤ
  pub minor : ℤ
  pub patch : ℤ

abbrev pub zero_version : Version
zero_version = record { major = pos 0; minor = pos 0; patch = pos 0 }

unfoldable pub trim_start : Text → Text
unfolding is_whitespace
trim_start [] = []
trim_start (c ∷ s) = let rest = trim_start s in if is_whitespace c then rest else c ∷ s

-- `str::trim`.
unfoldable pub trim : Text → Text
unfolding trim_start
trim s = reverse (trim_start (reverse (trim_start s)))

abbrev pub onto_first : ℕ → List Text → List Text
onto_first c [] = (c ∷ []) ∷ []
onto_first c (p ∷ ps) = (c ∷ p) ∷ ps

-- `split('.')`.
abbrev pub split : Text → List Text
split [] = [] ∷ []
split (c ∷ s) = let rest = split s in if c == b'.' then [] ∷ rest else onto_first c rest

-- `split(['-', '+']).next()`.
abbrev pub before_metadata : Text → Text
before_metadata [] = []
before_metadata (c ∷ s) =
    let rest = before_metadata s in if c == b'-' || c == b'+' then [] else c ∷ rest

abbrev pub is_ascii_digit : ℕ → Bool
is_ascii_digit c = leb b'0' c && leb c b'9'

abbrev pub all_digits : Text → Bool
all_digits [] = true
all_digits (c ∷ s) = is_ascii_digit c && all_digits s

abbrev pub is_empty : Text → Bool
is_empty [] = true
is_empty (c ∷ s) = false

-- The digits after `n`, where none is missing and the bound is not passed.
abbrev pub read_digits : ℕ → ℕ → Text → Option ℕ
read_digits bound n [] = if leb n bound then some n else none
read_digits bound n (c ∷ s) =
    let rest = read_digits bound (n * 10 + (c - b'0')) s in if is_ascii_digit c then rest else none

abbrev pub i32_max : ℕ
i32_max = 2147483647

abbrev pub unsigned : Text → Option ℤ
unsigned [] = none
unsigned (c ∷ s) = elim (read_digits i32_max 0 (c ∷ s)) [ none ↦ none | some n ↦ some (pos n) ]

abbrev pub negated : ℕ → ℤ
negated n = if n == 0 then pos 0 else negsuc (n - 1)

-- `str::parse::<i32>`, which takes a sign.
abbrev pub parse_i32 : Text → Option ℤ
parse_i32 [] = none
parse_i32 (c ∷ s) =
    if c == b'+'
    then unsigned s
    else if c == b'-'
    then (if is_empty s
        then none
        else elim (read_digits (i32_max + 1) 0 s) [ none ↦ none | some n ↦ some (negated n) ])
    else unsigned (c ∷ s)

abbrev pub is_malformed : List Text → Bool
is_malformed [] = false
is_malformed (p ∷ ps) = is_empty p || (not (all_digits p) || is_malformed ps)

abbrev pub three : Option ℤ → Option ℤ → Option ℤ → Option Version
three (some major) (some minor) (some patch) =
    some (record { major = major; minor = minor; patch = patch })
three _ _ _ = none

-- Two parts or three, and neither more nor fewer.
abbrev pub strict_parts : List Text → Option Version
strict_parts (a ∷ b ∷ []) = three (parse_i32 a) (parse_i32 b) (some (pos 0))
strict_parts (a ∷ b ∷ c ∷ []) = three (parse_i32 a) (parse_i32 b) (parse_i32 c)
strict_parts _ = none

unfoldable pub parse_strict : Text → Option Version
unfolding trim
parse_strict text =
    let parts = split (trim text) in if is_malformed parts then none else strict_parts parts

abbrev pub or_zero : Option ℤ → ℤ
or_zero none = pos 0
or_zero (some n) = n

-- `parts.next()?.trim().parse().ok()`.
unfoldable pub next : List Text → Option ℤ
unfolding trim
next [] = none
next (p ∷ ps) = parse_i32 (trim p)

abbrev pub rest_of : List Text → List Text
rest_of [] = []
rest_of (p ∷ ps) = ps

abbrev pub lenient : Option ℤ → Option ℤ → Option ℤ → Version
lenient (some major) (some minor) patch = record {
  major = major;
  minor = minor;
  patch = or_zero patch;
}
lenient _ _ _ = zero_version

unfoldable pub parse_or_zero : Text → Version
unfolding trim next
parse_or_zero text =
    let parts = split (before_metadata (trim text)) in
    lenient (next parts) (next (rest_of parts)) (next (rest_of (rest_of parts)))
