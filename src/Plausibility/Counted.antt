-- ===== src/Plausibility/Counted.antt =====
-- jobs/plausibility.rs: what an accepted list of rack occurrences is.
use birdtest.Prelude.{
  ℕ, ◌+◌, ◌≤◌, ◌<◌, ◌≡◌, ◌↔◌, refl, inl, inr, Bool-cases, ◌*◌, ◌≢◌, some, ltb, ltb→lt, not-ltb→le,
  subst, ap, true, false, List, [], ◌∷◌, ok, ℤ, pos, ◌+ℤ◌, ◌*ℤ◌, pos_part, ◌≤ℤ◌, ltb_ℤ, arith,
}
use birdtest.Wire.Chars.{Text, text_eq_refl}
use birdtest.Plausibility.Tiles.{check_rack, rack_tiles, rack_size}
use birdtest.Plausibility.Printed.{IsRack, print-inv}
use birdtest.Wire.{RackOccurrence}
use birdtest.Plausibility.Batches.{
  total_from, ceiling_of, check_rack_occurrence_total, i64_max, saturate_i64, check_occurrence,
  occurrences_from, listed, check_rack_occurrences,
}

abbrev pub AllCounted : List RackOccurrence → Type 0
AllCounted [] = Unit
AllCounted (o ∷ os) = (pos 1 ≤ℤ o.count) × AllCounted os

abbrev pub sum_counts : List RackOccurrence → ℕ
sum_counts [] = 0
sum_counts (o ∷ os) = pos_part o.count + sum_counts os

saturated :
    (t : ℕ) (z : ℤ)
    → pos 1 ≤ℤ z
    → t + pos_part z ≤ i64_max
    → saturate_i64 (pos t +ℤ z) ≡ pos (t + pos_part z)
unfolding ◌+ℤ◌
saturated t z h k = ground arith

too_many :
    (c t : ℕ) (z : ℤ)
    → c < i64_max
    → pos 1 ≤ℤ z
    → c < t + pos_part z
    → ltb_ℤ (pos c) (saturate_i64 (pos t +ℤ z)) ≡ true
unfolding ◌+ℤ◌
too_many c t z l h k = ground arith

total_from-enough :
    (os : List RackOccurrence)
    → (c t : ℕ) → c < i64_max
    → AllCounted os
    → t + sum_counts os ≤ c
    → total_from (pos c) (pos t) os ≡ ok tt
unfolding total_from
total_from-enough [] c t hc h k = refl
total_from-enough (o ∷ os) c t hc (h, hs) k =
    rw (saturated t o.count h (omega arith))
      (ground (arith, total_from-enough os c (t + pos_part o.count) hc hs))

total_from-step :
    (c t : ℕ) (o : RackOccurrence) (os : List RackOccurrence)
    → total_from (pos c) (pos t) (o ∷ os) ≡ ok tt
    → (ltb_ℤ (pos c) (saturate_i64 (pos t +ℤ o.count)) ≡ false)
      × (total_from (pos c) (saturate_i64 (pos t +ℤ o.count)) os ≡ ok tt)
unfolding total_from
total_from-step c t o os k = ground arith

total_from-ok :
    (os : List RackOccurrence)
    → (c t : ℕ) → c < i64_max
    → t ≤ c
    → AllCounted os
    → total_from (pos c) (pos t) os ≡ ok tt
    → t + sum_counts os ≤ c
total_from-ok [] c t hc l h k = omega arith
total_from-ok (o ∷ os) c t hc l (h, hs) k = elim (Bool-cases (ltb c (t + pos_part o.count))) [
  | inl over ↦ grind (
    arith,
    too_many c t o.count hc h (omega (arith, ltb→lt c (t + pos_part o.count) over)),
    total_from-step c t o os k,
  )
  | inr within ↦
      let le : t + pos_part o.count ≤ c =
        omega (arith, not-ltb→le c (t + pos_part o.count) within) in
      omega (
        arith,
        total_from-ok os c (t + pos_part o.count) hc le hs (
            subst (λ z. total_from (pos c) z os ≡ ok tt) (saturated t o.count h (omega arith))
              (total_from-step c t o os k).1),
      )
]

ceiling-lem : (n : ℕ) → n ≤ 2147483647 → ceiling_of (pos n) ≡ pos (n * 1000)
unfolding ceiling_of ◌*ℤ◌
ceiling-lem n h = ground arith

-- No rack of the list is the given one.
abbrev pub IsAbsent : Text → List RackOccurrence → Type 0
IsAbsent t [] = Unit
IsAbsent t (o ∷ os) = (t ≢ o.rack) × IsAbsent t os

abbrev pub AllDistinct : List RackOccurrence → Type 0
AllDistinct [] = Unit
AllDistinct (o ∷ os) = IsAbsent o.rack os × AllDistinct os

abbrev pub AllFull : List RackOccurrence → Type 0
AllFull [] = Unit
AllFull (o ∷ os) = IsRack rack_size rack_size o.rack × AllFull os

check_occurrence-parts :
    (seen : List Text) (o : RackOccurrence)
    → check_occurrence seen o ≡ ok tt
    → (check_rack o.rack ≡ ok tt)
      × ((rack_tiles o.rack ≡ some rack_size) × ((pos 1 ≤ℤ o.count) × (listed o.rack seen ≡ false)))
unfolding check_occurrence
check_occurrence-parts seen o e = (ground arith, (ground arith, (ground arith, ground arith)))

occurrences_from-step :
    (seen : List Text) (o : RackOccurrence) (os : List RackOccurrence)
    → occurrences_from seen (o ∷ os) ≡ ok tt
    → (check_occurrence seen o ≡ ok tt) × (occurrences_from (o.rack ∷ seen) os ≡ ok tt)
unfolding occurrences_from
occurrences_from-step seen o os e = ground arith

absent :
    (t : Text)
    → (seen : List Text) (os : List RackOccurrence) → listed t seen ≡ true
    → occurrences_from seen os ≡ ok tt
    → IsAbsent t os
absent t seen [] h e = tt
absent t seen (o ∷ os) h e =
    let (first, rest) = occurrences_from-step seen o os e in
    let (r, (full, (counted, fresh))) = check_occurrence-parts seen o first in
    (
      (λ same. cc (h, fresh, ap (λ z. listed z seen) same)),
      absent t (o.rack ∷ seen) os (ground (arith, h)) rest,
    )

accepted_from :
    (seen : List Text) (os : List RackOccurrence)
    → occurrences_from seen os ≡ ok tt
    → AllFull os × (AllDistinct os × AllCounted os)
accepted_from seen [] e = (tt, (tt, tt))
accepted_from seen (o ∷ os) e =
    let (first, rest) = occurrences_from-step seen o os e in
    let (r, (full, (counted, fresh))) = check_occurrence-parts seen o first in
    let (fulls, (distinct, all)) = accepted_from (o.rack ∷ seen) os rest in
    let (ts, (pts, (printed, k))) = print-inv o.rack rack_size full in
    (
      ((ts, (pts, (printed, (omega arith, omega arith)))), fulls),
      (
        (absent o.rack (o.rack ∷ seen) os (ground (arith, text_eq_refl o.rack)) rest, distinct),
        (counted, all),
      ),
    )

-- When `check_rack_occurrences` accepts a list of occurrences, every rack is the printed form of seven
-- tiles, no rack is listed twice, and every count is at least one.
pub check_rack_occurrences-AllDistinct :
    (os : List RackOccurrence)
    → check_rack_occurrences os ≡ ok tt
    → AllFull os × (AllDistinct os × AllCounted os)
unfolding check_rack_occurrences
check_rack_occurrences-AllDistinct os e = accepted_from [] os e

-- For occurrences that `check_rack_occurrences` accepts, and a number of games that is a non-negative
-- `i32`, `check_rack_occurrence_total` accepts exactly when the counts, added up without any bound, come
-- to at most a thousand a game: neither saturation changes an answer.
pub check_rack_occurrence_total-sum_counts :
    (os : List RackOccurrence)
    → (games : ℕ) → games ≤ 2147483647
    → check_rack_occurrences os ≡ ok tt
    → (check_rack_occurrence_total os (pos games) ≡ ok tt) ↔ (sum_counts os ≤ games * 1000)
unfolding check_rack_occurrence_total
check_rack_occurrence_total-sum_counts os games bound e =
    let counted = (check_rack_occurrences-AllDistinct os e).1.1 in
    rw (ceiling-lem games bound) (
      (λ k.
          let h : 0 + sum_counts os ≤ games * 1000 =
            total_from-ok os (games * 1000) 0 (omega arith) (omega arith) counted k in
          omega arith),
      (λ k. total_from-enough os (games * 1000) 0 (omega arith) counted (omega arith)),
    )
