-- ===== src/Compat/Uniform.antt =====
-- backend/src/compat.rs: the files that a job may be built from all have the type of its distribution.
use birdtest.Prelude.{
  ◌≡◌, ◌≢◌, ◌↔◌, refl, ap, sym, ◌∙◌, true, false, List, [], ◌∷◌, ok, for_each, bind-ok, arith,
}
use birdtest.Wire.Chars.{Text}
use birdtest.Compat.{
  LdType, unknown, same_type, types_compat, lex_lex_compat, lex_ld_compat, ld_type_from_lexicon,
  ld_type_from_distribution, PlayerFiles, check_player, check_other, check_others,
  validate_job_files,
}

same_type-eq : (a b : LdType) → same_type a b ≡ true → a ≡ b
same_type-eq a b h = ground arith

same_type_refl : (a : LdType) → same_type a a ≡ true
same_type_refl a = ground arith

abbrev pub IsOfType : LdType → PlayerFiles → Type 0
IsOfType t p = (ld_type_from_lexicon p.lexicon ≡ t) × (ld_type_from_lexicon p.leaves ≡ t)

abbrev pub AllOfType : LdType → List PlayerFiles → Type 0
AllOfType t [] = Unit
AllOfType t (p ∷ ps) = IsOfType t p × ((t ≢ unknown) × AllOfType t ps)

types_compat-parts :
    (a b : LdType)
    → types_compat a b ≡ true
    → (same_type a unknown ≡ false) × (same_type a b ≡ true)
unfolding types_compat
types_compat-parts a b h = ground arith

types_compat-eq : (a b : LdType) → types_compat a b ≡ true → (a ≡ b) × (b ≢ unknown)
types_compat-eq a b h =
    let (known, same) = types_compat-parts a b h in
    let e = same_type-eq a b same in (e, (λ u. cc (known, ap (λ z. same_type z unknown) (e ∙ u))))

types_compat_refl : (t : LdType) → t ≢ unknown → types_compat t t ≡ true
unfolding types_compat
types_compat_refl t n = ground arith

check_player-parts :
    (ld : Text) (p : PlayerFiles)
    → check_player ld p ≡ ok tt
    → (lex_lex_compat p.lexicon p.leaves ≡ true) × (lex_ld_compat p.lexicon ld ≡ true)
unfolding check_player
check_player-parts ld p e = ground arith

check_player-IsOfType :
    (ld : Text) (p : PlayerFiles)
    → check_player ld p ≡ ok tt
    → IsOfType (ld_type_from_distribution ld) p × (ld_type_from_distribution ld ≢ unknown)
unfolding lex_lex_compat lex_ld_compat
check_player-IsOfType ld p e =
    let (with_leaves, with_ld) = check_player-parts ld p e in
    let (same, known) =
      types_compat-eq (ld_type_from_lexicon p.lexicon) (ld_type_from_distribution ld) with_ld in
    let (leaves, _) =
      types_compat-eq (ld_type_from_lexicon p.lexicon) (ld_type_from_lexicon p.leaves)
        with_leaves in
    ((same, sym leaves ∙ same), known)

-- Two names of one known type.
lex_lex_compat-known :
    (t : LdType) (a b : Text)
    → t ≢ unknown
    → ld_type_from_lexicon a ≡ t
    → ld_type_from_lexicon b ≡ t
    → lex_lex_compat a b ≡ true
unfolding lex_lex_compat
lex_lex_compat-known t a b n ea eb = rw (ea, eb) (types_compat_refl t n)

IsOfType-check_player :
    (ld : Text) (p : PlayerFiles)
    → IsOfType (ld_type_from_distribution ld) p
    → ld_type_from_distribution ld ≢ unknown
    → check_player ld p ≡ ok tt
unfolding check_player lex_ld_compat
IsOfType-check_player ld p (el, ev) n =
    rw
      (
        lex_lex_compat-known (ld_type_from_distribution ld) p.lexicon p.leaves n el ev,
        el,
        types_compat_refl (ld_type_from_distribution ld) n,
      )
      refl

players-AllOfType :
    (ld : Text) (ps : List PlayerFiles)
    → for_each (check_player ld) ps ≡ ok tt
    → AllOfType (ld_type_from_distribution ld) ps
players-AllOfType ld [] e = tt
players-AllOfType ld (p ∷ ps) e =
    let (_, (here, later)) =
      bind-ok (check_player ld p) (λ _. for_each (check_player ld) ps) tt e in
    let (of_type, known) = check_player-IsOfType ld p here in
    (of_type, (known, players-AllOfType ld ps later))

AllOfType-players :
    (ld : Text) (ps : List PlayerFiles)
    → AllOfType (ld_type_from_distribution ld) ps
    → for_each (check_player ld) ps ≡ ok tt
AllOfType-players ld [] h = refl
AllOfType-players ld (p ∷ ps) (of_type, (known, h)) =
    rw (IsOfType-check_player ld p of_type known) (AllOfType-players ld ps h)

AllOfType-others :
    (t : LdType) (first : PlayerFiles) (ps : List PlayerFiles)
    → IsOfType t first
    → AllOfType t ps
    → for_each (check_other first) ps ≡ ok tt
unfolding check_other
AllOfType-others t first [] f h = refl
AllOfType-others t first (p ∷ ps) (fl, fv) ((pl, pv), (known, h)) =
    rw
      (
        lex_lex_compat-known t first.lexicon p.lexicon known fl pl,
        lex_lex_compat-known t first.leaves p.leaves known fv pv,
      )
      (AllOfType-others t first ps (fl, fv) h)

-- `validate_job_files` accepts exactly the players whose lexicon and leaves all have the type of the
-- letter distribution, this type being a known one.
pub validate_job_files-AllOfType :
    (ps : List PlayerFiles)
    → (ld : Text) → (validate_job_files ps ld ≡ ok tt) ↔ AllOfType (ld_type_from_distribution ld) ps
unfolding validate_job_files
validate_job_files-AllOfType [] ld = ((λ _. tt), (λ _. refl))
validate_job_files-AllOfType (p ∷ ps) ld = (
  (λ e.
      let (_, (players, _)) =
        bind-ok (for_each (check_player ld) (p ∷ ps)) (λ _. check_others (p ∷ ps)) tt e in
      players-AllOfType ld (p ∷ ps) players),
  (λ h.
      rw (AllOfType-players ld (p ∷ ps) h)
        (AllOfType-others (ld_type_from_distribution ld) p ps h.0 h.1.1)),
)
