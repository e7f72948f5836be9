-- ===== src/Compat.antt =====
-- backend/src/compat.rs: which lexicons, leaves and letter distributions MAGPIE loads together. A name is
-- ASCII, as inputdata.rs lets in no other, so a byte of it is a character.
pub mod Uniform
mod Tests
use birdtest.Prelude.{
  ℕ, ◌+◌, Bool, true, false, not, ◌&&◌, ◌||◌, List, [], ◌∷◌, AppResult, ok, refuse, for_each, ◌>>=◌,
  ◌>>◌, leb, ◌==◌, if◌then◌else◌, length, take,
}
use birdtest.Wire.Chars.{Text}

pub data LdType : Type 0 where
  english german norwegian catalan polish dutch french unknown : LdType

-- `u8::to_ascii_lowercase`.
abbrev to_lower : ℕ → ℕ
to_lower c = if leb 65 c && leb c 90 then c + 32 else c

abbrev eq_ignore_ascii_case : Text → Text → Bool
eq_ignore_ascii_case [] [] = true
eq_ignore_ascii_case [] (d ∷ t) = false
eq_ignore_ascii_case (c ∷ s) [] = false
eq_ignore_ascii_case (c ∷ s) (d ∷ t) = to_lower c == to_lower d && eq_ignore_ascii_case s t

unfoldable pub has_iprefix : Text → Text → Bool
has_iprefix prefix name =
    leb (length prefix) (length name) && eq_ignore_ascii_case (take (length prefix) name) prefix

-- `name.rsplit('/').next()`: what is after the last slash.
abbrev after_slash : Text → Text → Text
after_slash name [] = name
after_slash name (c ∷ s) = after_slash (if c == b'/' then s else name) s

-- The first prefix of a table that a name has.
abbrev by_prefix : List (Text × LdType) → Text → LdType
by_prefix [] name = unknown
by_prefix ((prefix, t) ∷ table) name =
    let rest = by_prefix table name in if has_iprefix prefix name then t else rest

abbrev lexicon_prefixes : List (Text × LdType)
lexicon_prefixes =
    (b'C' ∷ b'S' ∷ b'W' ∷ [], english)
    ∷ (b'N' ∷ b'W' ∷ b'L' ∷ [], english)
    ∷ (b'O' ∷ b'S' ∷ b'P' ∷ b'D' ∷ [], english)
    ∷ (b'O' ∷ b'S' ∷ b'W' ∷ [], english)
    ∷ (b'T' ∷ b'W' ∷ b'L' ∷ [], english)
    ∷ (b'A' ∷ b'm' ∷ b'e' ∷ b'r' ∷ b'i' ∷ b'c' ∷ b'a' ∷ [], english)
    ∷ (b'C' ∷ b'E' ∷ b'L' ∷ [], english)
    ∷ (b'R' ∷ b'D' ∷ [], german)
    ∷ (b'N' ∷ b'S' ∷ b'F' ∷ [], norwegian)
    ∷ (b'D' ∷ b'I' ∷ b'S' ∷ b'C' ∷ [], catalan)
    ∷ (b'F' ∷ b'R' ∷ b'A' ∷ [], french)
    ∷ (b'O' ∷ b'S' ∷ b'P' ∷ b'S' ∷ [], polish)
    ∷ (b'D' ∷ b'S' ∷ b'W' ∷ [], dutch)
    ∷ []

abbrev distribution_prefixes : List (Text × LdType)
distribution_prefixes =
    (b'e' ∷ b'n' ∷ b'g' ∷ b'l' ∷ b'i' ∷ b's' ∷ b'h' ∷ [], english)
    ∷ (b'g' ∷ b'e' ∷ b'r' ∷ b'm' ∷ b'a' ∷ b'n' ∷ [], german)
    ∷ (b'n' ∷ b'o' ∷ b'r' ∷ b'w' ∷ b'e' ∷ b'g' ∷ b'i' ∷ b'a' ∷ b'n' ∷ [], norwegian)
    ∷ (b'c' ∷ b'a' ∷ b't' ∷ b'a' ∷ b'l' ∷ b'a' ∷ b'n' ∷ [], catalan)
    ∷ (b'p' ∷ b'o' ∷ b'l' ∷ b'i' ∷ b's' ∷ b'h' ∷ [], polish)
    ∷ (b'd' ∷ b'u' ∷ b't' ∷ b'c' ∷ b'h' ∷ [], dutch)
    ∷ (b'f' ∷ b'r' ∷ b'e' ∷ b'n' ∷ b'c' ∷ b'h' ∷ [], french)
    ∷ []

unfoldable pub ld_type_from_lexicon : Text → LdType
unfolding has_iprefix
ld_type_from_lexicon lexicon = by_prefix lexicon_prefixes (after_slash lexicon lexicon)

unfoldable pub ld_type_from_distribution : Text → LdType
unfolding has_iprefix
ld_type_from_distribution ld_name = by_prefix distribution_prefixes (after_slash ld_name ld_name)

-- The derived equality.
abbrev pub same_type : LdType → LdType → Bool
same_type english english = true
same_type german german = true
same_type norwegian norwegian = true
same_type catalan catalan = true
same_type polish polish = true
same_type dutch dutch = true
same_type french french = true
same_type unknown unknown = true
same_type _ _ = false

unfoldable pub types_compat : LdType → LdType → Bool
types_compat a b = not (same_type a unknown) && same_type a b

unfoldable pub lex_lex_compat : Text → Text → Bool
lex_lex_compat a b = types_compat (ld_type_from_lexicon a) (ld_type_from_lexicon b)

unfoldable pub lex_ld_compat : Text → Text → Bool
lex_ld_compat lexicon ld_name =
    types_compat (ld_type_from_lexicon lexicon) (ld_type_from_distribution ld_name)

pub record PlayerFiles : Type 0 where
  pub lexicon : Text
  pub leaves : Text

-- The two loops of `validate_job_files`.
unfoldable pub check_player : Text → PlayerFiles → AppResult (Unit {0})
check_player ld_name player = do
  refuse (not (lex_lex_compat player.lexicon player.leaves))
  refuse (not (lex_ld_compat player.lexicon ld_name))

unfoldable pub check_other : PlayerFiles → PlayerFiles → AppResult (Unit {0})
check_other first other = do
  refuse (not (lex_lex_compat first.lexicon other.lexicon))
  refuse (not (lex_lex_compat first.leaves other.leaves))

abbrev pub check_others : List PlayerFiles → AppResult (Unit {0})
check_others [] = ok tt
check_others (first ∷ rest) = for_each (check_other first) rest

unfoldable pub validate_job_files : List PlayerFiles → Text → AppResult (Unit {0})
validate_job_files players ld_name = do
  for_each (check_player ld_name) players
  check_others players

unfoldable pub validate_lexicon_and_leaves : Text → Text → AppResult (Unit {0})
validate_lexicon_and_leaves lexicon leaves = refuse (not (lex_lex_compat lexicon leaves))
