-- ===== src/Compat/Tests.antt =====
-- The theorem about compat.rs at two English players.
use birdtest.Prelude.{◌≡◌, refl, ◌↔◌, List, [], ◌∷◌, ok}
use birdtest.Wire.Chars.{Text}
use birdtest.Compat.{
  PlayerFiles, validate_job_files, ld_type_from_distribution, check_player, check_other,
  lex_lex_compat, lex_ld_compat, types_compat, ld_type_from_lexicon, has_iprefix,
}
use birdtest.Compat.Uniform.{AllOfType, validate_job_files-AllOfType}

abbrev nwl : Text
nwl = b'n' ∷ b'w' ∷ b'l' ∷ b'2' ∷ b'3' ∷ []

abbrev csw : Text
csw = b'l' ∷ b'/' ∷ b'C' ∷ b'S' ∷ b'W' ∷ b'2' ∷ b'1' ∷ []

abbrev super_english : Text
super_english = b'e' ∷ b'n' ∷ b'g' ∷ b'l' ∷ b'i' ∷ b's' ∷ b'h' ∷ b'_' ∷ b's' ∷ []

abbrev two_players : List PlayerFiles
two_players = record { lexicon = nwl; leaves = csw } ∷ record { lexicon = csw; leaves = csw } ∷ []

two_players_accepted : validate_job_files two_players super_english ≡ ok tt
unfolding validate_job_files check_player check_other lex_lex_compat lex_ld_compat types_compat
    ld_type_from_lexicon ld_type_from_distribution has_iprefix
two_players_accepted = refl

validate_job_files-AllOfType_example :
    (validate_job_files two_players super_english ≡ ok tt)
    ↔ AllOfType (ld_type_from_distribution super_english) two_players
validate_job_files-AllOfType_example = validate_job_files-AllOfType two_players super_english
