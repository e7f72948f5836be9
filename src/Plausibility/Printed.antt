-- ===== src/Plausibility/Printed.antt =====
-- jobs/plausibility.rs: the racks that `check_rack` takes are the printed racks of one to seven tiles.
use birdtest.Prelude.{
  ℕ, ◌+◌, ◌≤◌, ◌≡◌, refl, ◌∙◌, ap, false, ◌⊎◌, inl, inr, ◌↔◌, Option-cases, subst, List, [], ◌∷◌,
  ◌++◌, some, ok, ◌==◌, length, arith,
}
use birdtest.Wire.Chars.{Text}
use birdtest.Plausibility.Tiles.{outside, inside, rack_tiles, check_rack, max_tile_chars, rack_size}

-- A tile as MAGPIE prints it: one character, or several in brackets.
pub data RackTile : Type 0 where
  single : ℕ → RackTile
  bracketed : Text → RackTile

abbrev pub IsPlain : ℕ → Type 0
IsPlain c = ((c == b'[') ≡ false) × ((c == b']') ≡ false)

abbrev pub AllPlain : Text → Type 0
AllPlain [] = Unit
AllPlain (c ∷ s) = IsPlain c × AllPlain s

abbrev pub IsTile : RackTile → Type 0
IsTile (single c) = IsPlain c
IsTile (bracketed s) = AllPlain s × ((1 ≤ length s) × (length s ≤ max_tile_chars))

abbrev pub AllTiles : List RackTile → Type 0
AllTiles [] = Unit
AllTiles (t ∷ ts) = IsTile t × AllTiles ts

abbrev pub print_tile : RackTile → Text → Text
print_tile (single c) rest = c ∷ rest
print_tile (bracketed s) rest = b'[' ∷ s ++ b']' ∷ rest

abbrev pub print : List RackTile → Text
print [] = []
print (t ∷ ts) = print_tile t (print ts)

inside-plain :
    (s rest : Text)
    → (letters tiles : ℕ) → AllPlain s
    → 1 ≤ letters + length s
    → letters + length s ≤ max_tile_chars
    → inside (s ++ b']' ∷ rest) letters tiles ≡ outside rest (tiles + 1)
unfolding inside
inside-plain [] rest letters tiles p h k = ground arith
inside-plain (c ∷ s) rest letters tiles (pc, ps) h k =
    ground (arith, inside-plain s rest (letters + 1) tiles ps)

outside-print :
    (ts : List RackTile) → (n : ℕ) → AllTiles ts → outside (print ts) n ≡ some (n + length ts)
unfolding outside
outside-print [] n h = ap some (omega arith)
outside-print (single c ∷ ts) n (p, h) = ground (arith, outside-print ts (n + 1) h)
outside-print (bracketed s ∷ ts) n ((p, (lo, hi)), h) =
    ground (arith, inside-plain s (print ts) 0 n p, outside-print ts (n + 1) h)

outside-step :
    (c : ℕ) (s : Text)
    → (n m : ℕ) → outside (c ∷ s) n ≡ some m
    → ((c ≡ b'[') × (inside s 0 n ≡ some m)) ⊎ (IsPlain c × (outside s (n + 1) ≡ some m))
unfolding outside
outside-step c s n m e = ground arith

inside-step :
    (c : ℕ) (s : Text)
    → (l n m : ℕ) → inside (c ∷ s) l n ≡ some m
    → ((c ≡ b']') × ((1 ≤ l) × ((l ≤ max_tile_chars) × (outside s (n + 1) ≡ some m))))
      ⊎ (IsPlain c × (inside s (l + 1) n ≡ some m))
unfolding inside
inside-step c s l n m e = ground arith

-- A text is read as tiles, and inside a bracket as the rest of one tile and then tiles.
abbrev pub Read : Text → ℕ → ℕ → Type 0
Read s n m = (ts : List RackTile) × (AllTiles ts × ((print ts ≡ s) × (n + length ts ≡ m)))

abbrev ReadInside : Text → ℕ → ℕ → ℕ → Type 0
ReadInside s l n m =
    (w : Text) × ((ts : List RackTile) × (AllPlain w
        × ((1 ≤ l + length w)
            × ((l + length w ≤ max_tile_chars)
                × (AllTiles ts × ((w ++ b']' ∷ print ts ≡ s) × (n + 1 + length ts ≡ m)))))))

module _ (c : ℕ) (s : Text) (outs : (n m : ℕ) → outside s n ≡ some m → Read s n m)
    (ins : (l n m : ℕ) → inside s l n ≡ some m → ReadInside s l n m) where
  at_outside :
      (n m : ℕ)
      → ((c ≡ b'[') × (inside s 0 n ≡ some m)) ⊎ (IsPlain c × (outside s (n + 1) ≡ some m))
      → Read (c ∷ s) n m
  at_outside n m (inl (e, h)) =
      let (w, (ts, (pw, (lo, (hi, (pts, (r, k))))))) = ins 0 n m h in
      (bracketed w ∷ ts, (((pw, (omega arith, omega arith)), pts), (cc, omega arith)))
  at_outside n m (inr (p, h)) =
      let (ts, (pts, (r, k))) = outs (n + 1) m h in
      (single c ∷ ts, ((p, pts), (ap (λ z. c ∷ z) r, omega arith)))

  at_inside :
      (l n m : ℕ)
      → ((c ≡ b']') × ((1 ≤ l) × ((l ≤ max_tile_chars) × (outside s (n + 1) ≡ some m))))
        ⊎ (IsPlain c × (inside s (l + 1) n ≡ some m))
      → ReadInside (c ∷ s) l n m
  at_inside l n m (inl (e, (lo, (hi, h)))) =
      let (ts, (pts, (r, k))) = outs (n + 1) m h in
      ([], (ts, (tt, (omega arith, (omega arith, (pts, (cc, k)))))))
  at_inside l n m (inr (p, h)) =
      let (w, (ts, (pw, (lo, (hi, (pts, (r, k))))))) = ins (l + 1) n m h in
      (c ∷ w, (ts, ((p, pw), (omega arith, (omega arith, (pts, (ap (λ z. c ∷ z) r, k)))))))

outside-Read :
    (s : Text)
    → ((n m : ℕ) → outside s n ≡ some m → Read s n m)
      × ((l n m : ℕ) → inside s l n ≡ some m → ReadInside s l n m)
unfolding outside inside
outside-Read [] = ((λ n m e. ([], (tt, (refl, ground arith)))), (λ l n m e. ground arith))
outside-Read (c ∷ s) =
    let (outs, ins) = outside-Read s in
    (
      (λ n m e. at_outside c s outs ins n m (outside-step c s n m e)),
      (λ l n m e. at_inside c s outs ins l n m (inside-step c s l n m e)),
    )

pub print-inv : (s : Text) → (n : ℕ) → rack_tiles s ≡ some n → Read s 0 n
unfolding rack_tiles
print-inv s n e = (outside-Read s).0 0 n e

print-rack_tiles : (ts : List RackTile) → AllTiles ts → rack_tiles (print ts) ≡ some (length ts)
unfolding rack_tiles
print-rack_tiles ts h = outside-print ts 0 h ∙ ap some (omega arith)

-- A printed rack of a number of tiles in a range.
abbrev pub IsRack : ℕ → ℕ → Text → Type 0
IsRack lo hi s =
    (ts : List RackTile) × (AllTiles ts × ((print ts ≡ s) × ((lo ≤ length ts) × (length ts ≤ hi))))

check_rack-sizes :
    (s : Text)
    → check_rack s ≡ ok tt
    → (n : ℕ) × ((rack_tiles s ≡ some n) × ((1 ≤ n) × (n ≤ rack_size)))
unfolding check_rack
check_rack-sizes s e = elim (Option-cases (rack_tiles s)) [
  | inl none_read ↦ ground arith
  | inr (n, some_n) ↦ (n, (some_n, (ground arith, ground arith)))
]

check_rack-ok :
    (s : Text) → (n : ℕ) → rack_tiles s ≡ some n → 1 ≤ n → n ≤ rack_size → check_rack s ≡ ok tt
unfolding check_rack
check_rack-ok s n e lo hi = ground arith

-- `check_rack` takes a text exactly when the text is the printed form of one to seven tiles. A tile is
-- printed as one character that is no bracket, or as one to eight such characters in brackets.
pub check_rack-IsRack : (s : Text) → (check_rack s ≡ ok tt) ↔ IsRack 1 rack_size s
check_rack-IsRack s = (read, printed)
  where
    read : check_rack s ≡ ok tt → IsRack 1 rack_size s
    read e =
        let (n, (some_n, (lo, hi))) = check_rack-sizes s e in
        let (ts, (pts, (r, k))) = print-inv s n some_n in
        (ts, (pts, (r, (omega arith, omega arith))))

    printed : IsRack 1 rack_size s → check_rack s ≡ ok tt
    printed (ts, (pts, (r, (lo, hi)))) =
        subst (λ z. check_rack z ≡ ok tt) r
          (check_rack-ok (print ts) (length ts) (print-rack_tiles ts pts) lo hi)
