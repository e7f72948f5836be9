-- ===== src/Versions/Tests.antt =====
-- Versions as they are written.
use birdtest.Prelude.{◌≡◌, refl, [], ◌∷◌, some, none, pos}
use birdtest.Wire.Chars.{Text}
use birdtest.Versions.{Version, parse_strict, parse_or_zero, trim_start}
use birdtest.Versions.Agree.{parse_or_zero-strict}

abbrev one_ten : Text
one_ten = b' ' ∷ b'1' ∷ b'.' ∷ b'1' ∷ b'0' ∷ []

abbrev one_ten_version : Version
one_ten_version = record { major = pos 1; minor = pos 10; patch = pos 0 }

one_ten-strict : parse_strict one_ten ≡ some one_ten_version
unfolding parse_strict trim_start
one_ten-strict = refl

-- Pre-release metadata is dropped by the one reading and refused by the other.
one_x-strict : parse_strict (b'1' ∷ b'.' ∷ b'4' ∷ b'-' ∷ b'r' ∷ []) ≡ none
unfolding parse_strict trim_start
one_x-strict = refl

one_x-or_zero :
    parse_or_zero (b'1' ∷ b'.' ∷ b'4' ∷ b'-' ∷ b'r' ∷ [])
    ≡ record { major = pos 1; minor = pos 4; patch = pos 0 }
unfolding parse_or_zero trim_start
one_x-or_zero = refl

parse_or_zero-strict_example : parse_or_zero one_ten ≡ one_ten_version
parse_or_zero-strict_example = parse_or_zero-strict one_ten one_ten_version one_ten-strict
