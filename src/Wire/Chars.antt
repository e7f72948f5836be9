-- ===== src/Wire/Chars.antt =====
-- Texts as lists of characters, a character as its code point.
use birdtest.Prelude.{ℕ, ◌≡◌, refl, Bool, true, false, ◌&&◌, ◌||◌, List, [], ◌∷◌, ◌==◌, leb, arith}

abbrev pub Text : Type 0
Text = List ℕ

abbrev pub text_eq : Text → Text → Bool
text_eq [] [] = true
text_eq [] (d ∷ t) = false
text_eq (c ∷ s) [] = false
text_eq (c ∷ s) (d ∷ t) = c == d && text_eq s t

pub text_eq-eq : (s t : Text) → text_eq s t ≡ true → s ≡ t
text_eq-eq [] [] e = refl
text_eq-eq [] (d ∷ t) e = cc
text_eq-eq (c ∷ s) [] e = cc
text_eq-eq (c ∷ s) (d ∷ t) e = ground (arith, text_eq-eq s t)

pub text_eq_refl : (s : Text) → text_eq s s ≡ true
text_eq_refl [] = refl
text_eq_refl (c ∷ s) = ground (arith, text_eq_refl s)

abbrev between : ℕ → ℕ → ℕ → Bool
between lo hi c = leb lo c && leb c hi

-- `char::is_whitespace`: Unicode's White_Space.
unfoldable pub is_whitespace : ℕ → Bool
is_whitespace c =
    between 9 13 c
    || (c == 32
        || (c == 0x85
            || (c == 0xa0
                || (c == 0x1680
                    || (between 0x2000 0x200a c
                        || (between 0x2028 0x2029 c
                            || (c == 0x202f || (c == 0x205f || c == 0x3000))))))))

-- `text.trim().is_empty()`.
unfoldable pub trim_is_empty : Text → Bool
unfolding is_whitespace
trim_is_empty [] = true
trim_is_empty (c ∷ s) = is_whitespace c && trim_is_empty s
