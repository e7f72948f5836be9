-- ===== src/Wire/Real.antt =====
-- `f64` as the checks of jobs/plausibility.rs use it: they compare, and take absolute values, and
-- compute nothing. Every finite double is a whole multiple of 2^-1074, and stands here as that
-- multiple; a comparison with NaN is false.
use birdtest.Prelude.{
  ℕ, ◌^◌, ◌*◌, Bool, true, false, not, ◌&&◌, ℤ, pos, negsuc, ◌-ℤ◌, ltb_ℤ, leb_ℤ, suc,
}

pub data F64 : Type 0 where
  nan : F64
  infinite : Bool → F64
  finite : ℤ → F64

-- The double 1.0.
unfoldable pub one : ℕ
one = 2 ^ 1074

abbrev pub times : ℕ → ℤ → ℤ
times u (pos n) = pos (n * u)
times u (negsuc n) = pos 0 -ℤ pos (suc n * u)

-- The double of a whole number that it can hold.
abbrev pub of_int : ℤ → F64
of_int z = finite (times one z)

abbrev pub is_finite : F64 → Bool
is_finite (finite z) = true
is_finite _ = false

-- `infinite true` is the negative one.
abbrev pub le_f64 : F64 → F64 → Bool
le_f64 nan _ = false
le_f64 (infinite a) nan = false
le_f64 (infinite true) (infinite b) = true
le_f64 (infinite true) (finite z) = true
le_f64 (infinite false) (infinite b) = not b
le_f64 (infinite false) (finite z) = false
le_f64 (finite x) nan = false
le_f64 (finite x) (infinite b) = not b
le_f64 (finite x) (finite y) = leb_ℤ x y

abbrev pub lt_f64 : F64 → F64 → Bool
lt_f64 nan _ = false
lt_f64 (infinite a) nan = false
lt_f64 (infinite true) (infinite b) = not b
lt_f64 (infinite true) (finite z) = true
lt_f64 (infinite false) _ = false
lt_f64 (finite x) nan = false
lt_f64 (finite x) (infinite b) = not b
lt_f64 (finite x) (finite y) = ltb_ℤ x y

abbrev pub abs_ℤ : ℤ → ℤ
abs_ℤ (pos n) = pos n
abs_ℤ (negsuc n) = pos (suc n)

abbrev pub abs : F64 → F64
abs nan = nan
abs (infinite b) = infinite false
abs (finite z) = finite (abs_ℤ z)

-- `(lo..=hi).contains(&x)`.
abbrev pub contains : F64 → F64 → F64 → Bool
contains lo hi x = le_f64 lo x && le_f64 x hi
