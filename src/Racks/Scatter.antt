-- ===== src/Racks/Scatter.antt =====
-- `RackIndex::scatter` of jobs/racks.rs permutes the indices where the total is coprime with the
-- multiplier, so `rack_at` names every rack of the space once.
use birdtest.Prelude.{
  ℕ, ◌*◌, ◌/◌, ◌%◌, ◌^◌, ◌≤◌, ◌<◌, ◌≡◌, refl, sym, ◌∙◌, ap, List, none, some, get_elem?, length,
  get_elem?-lt, get_elem?-some, none-ne-some, arith, inl, inr, Bool-cases, leb, not-leb→lt,
  lt→not-leb, leb→le, ◌⊎◌,
}
use native.Mathlib.Nat.{
  mod-lt, mod-eq_of_lt, mod-add-div', add-mul-mod_self_right, mul_assoc, mul_comm, one-mul,
}
use birdtest.Racks.{Tile, Rack, RackIndex, u64_max, multiplier, new_index, total, scatter, rack_at}
use birdtest.Racks.Space.{racks}
use birdtest.Racks.Counting.{total-new_index}
use birdtest.Racks.Unrank.{rack_at_enumeration_index-racks}
use birdtest.Racks.Draws.{IsDraw, Distinct, racks-IsDraw, IsDraw-racks, racks-injective}

mod-mul : (n k m : ℕ) → n % m * k % m ≡ n * k % m
mod-mul n k m =
    sym (add-mul-mod_self_right (n % m * k) (n / m * k) m)
    ∙ ap (λ (x : ℕ). x % m) (grind (arith, ap (λ (x : ℕ). x * k) (mod-add-div' n m)))

-- Multiplying by `a` and by its inverse modulo `m` gives a number below `m` back.
mul-inverse : (a b x m : ℕ) → a * b % m ≡ 1 % m → x < m → x * a % m * b % m ≡ x
mul-inverse a b x m h lt =
    mod-mul (x * a) b m
    ∙ ap (λ (y : ℕ). y % m) (mul_assoc x a b ∙ mul_comm x (a * b))
    ∙ sym (mod-mul (a * b) x m)
    ∙ ap (λ (y : ℕ). y * x % m) h
    ∙ mod-mul 1 x m
    ∙ ap (λ (y : ℕ). y % m) (one-mul x)
    ∙ mod-eq_of_lt lt

scatter_lem :
    (ri : RackIndex) (i : ℕ)
    → i < total ri
    → total ri ≤ u64_max
    → scatter ri i ≡ i * multiplier % total ri
unfolding scatter
scatter_lem ri i lt h =
    ap (λ (x : ℕ). x % total ri % 2 ^ 64)
      (let e : i * multiplier % 2 ^ 128 ≡ i * multiplier = omega arith in e)
    ∙ omega (arith, mod-lt (i * multiplier) {m = total ri} (omega arith))

module _ (tiles : List Tile) (size : ℕ) where
  abbrev index : RackIndex
  index = new_index tiles size

  abbrev spots : ℕ
  spots = total index

  spots-le : spots ≤ u64_max
  spots-le = omega (arith, total-new_index tiles size)

  scatter-lt : (i : ℕ) → i < spots → scatter index i < spots
  scatter-lt i lt =
      omega
        (arith, scatter_lem index i lt spots-le, mod-lt (i * multiplier) {m = spots} (omega arith))

  -- `rack_at` reads the rack space at the scattered index.
  pub rack_at-racks :
      (i : ℕ) → i < spots → rack_at index i ≡ get_elem? (racks tiles size) (scatter index i)
  unfolding rack_at
  rack_at-racks i lt = rw (lt→not-leb spots i lt) (
      rack_at_enumeration_index-racks tiles size (scatter index i)
        (omega (arith, scatter-lt i lt, spots-le)))

  rack_at-lt : (i : ℕ) (r : Rack) → rack_at index i ≡ some r → i < spots
  unfolding rack_at
  rack_at-lt i r e = elim (Bool-cases (leb spots i)) [
    | inl past ↦ absurd (none-ne-some (sym (rw past refl) ∙ e))
    | inr inside ↦ not-leb→lt _ _ inside
  ]

-- Below the total every index names a rack that can be drawn, and at the total and past it no rack.
pub rack_at-IsDraw :
    (tiles : List Tile) (size i : ℕ)
    → ((total (new_index tiles size) ≤ i) × (rack_at (new_index tiles size) i ≡ none))
      ⊎ ((i < total (new_index tiles size))
          × ((r : Rack) × (rack_at (new_index tiles size) i ≡ some r) × IsDraw tiles size r))
unfolding rack_at
rack_at-IsDraw tiles size i = elim (Bool-cases (leb (total (new_index tiles size)) i)) [
  | inl past ↦ inl (leb→le _ _ past, rw past)
  | inr inside ↦ inr (not-leb→lt _ _ inside, found (not-leb→lt _ _ inside))
]
  where
    found :
        i < total (new_index tiles size)
        → (r : Rack) × (rack_at (new_index tiles size) i ≡ some r) × IsDraw tiles size r
    found lt =
        let at = scatter (new_index tiles size) i in
        let (r, e) =
          get_elem?-some (racks tiles size) at
            (omega (arith, scatter-lt tiles size i lt, total-new_index tiles size)) in
        (r, rack_at-racks tiles size i lt ∙ e, racks-IsDraw tiles size at r e)

-- Where the multiplier has an inverse modulo the total, no letter is listed twice and the rack space holds
-- no more racks than a `u64` counts, every rack that can be drawn is named by exactly one index, which lies below the total.
pub rack_at_unique :
    (tiles : List Tile) (size inverse : ℕ) (r : Rack)
    → Distinct tiles
    → length (racks tiles size) ≤ u64_max
    → inverse * multiplier % total (new_index tiles size) ≡ 1 % total (new_index tiles size)
    → IsDraw tiles size r
    → (i : ℕ) × (i < total (new_index tiles size))
      × (rack_at (new_index tiles size) i ≡ some r)
      × ((j : ℕ) → rack_at (new_index tiles size) j ≡ some r → j ≡ i)
rack_at_unique tiles size inverse r d fits unit draw = (
  at,
  at-lt,
  rack_at-racks tiles size at at-lt ∙ ap (get_elem? (racks tiles size)) there ∙ place.1,
  only,
)
  where
    all : ℕ
    all = total (new_index tiles size)

    place : (i : ℕ) × (get_elem? (racks tiles size) i ≡ some r)
    place = IsDraw-racks tiles size r draw

    inside : place.0 < all
    inside =
        omega
          (arith, get_elem?-lt (racks tiles size) place.0 place.1, total-new_index tiles size, fits)

    at : ℕ
    at = place.0 * inverse % all

    at-lt : at < all
    at-lt = mod-lt (place.0 * inverse) (omega (arith, inside))

    there : scatter (new_index tiles size) at ≡ place.0
    there =
        scatter_lem (new_index tiles size) at at-lt (spots-le tiles size)
        ∙ mul-inverse inverse multiplier place.0 all unit inside

    only : (j : ℕ) → rack_at (new_index tiles size) j ≡ some r → j ≡ at
    only j e =
        let lt = rack_at-lt tiles size j r e in
        let same =
          racks-injective tiles size (scatter (new_index tiles size) j) place.0 r d
            (sym (rack_at-racks tiles size j lt) ∙ e) place.1 in
        sym (
          mul-inverse multiplier inverse j all
            (ap (λ (x : ℕ). x % all) (mul_comm multiplier inverse) ∙ unit) lt)
        ∙ ap (λ (x : ℕ). x * inverse % all)
            (sym (scatter_lem (new_index tiles size) j lt (spots-le tiles size)) ∙ same)
