-- ===== src/OpeningRacks/Batches.antt =====
-- Which batches of results `check_batch_against_task` of opening_rack.rs accepts.
use birdtest.Prelude.{
  ℕ, ◌+◌, ◌≤◌, ◌<◌, ◌≡◌, ◌↔◌, inl, inr, refl, Bool-cases, false, List, [], ◌∷◌, ok, ltb,
  if◌then◌else◌, length, arith,
}
use birdtest.Wire.Chars.{text_eq, text_eq-eq, text_eq_refl}
use birdtest.Racks.{Rack}
use birdtest.OpeningRacks.{contains, has_stray, has_twice, check_batch_against_task}

-- How often a rack is listed.
abbrev pub times : Rack → List Rack → ℕ
times r [] = 0
times r (s ∷ rs) = (if text_eq r s then 1 else 0) + times r rs

-- The list without one such rack.
abbrev without : Rack → List Rack → List Rack
without r [] = []
without r (s ∷ rs) = let rest = without r rs in if text_eq r s then rs else s ∷ rest

contains-times : (r : Rack) (rs : List Rack) → contains r rs ≡ ltb 0 (times r rs)
contains-times r [] = refl
contains-times r (s ∷ rs) = ground (arith, contains-times r rs)

times-without :
    (r q : Rack) (rs : List Rack)
    → 0 < times r rs
    → times q rs ≡ (if text_eq q r then 1 else 0) + times q (without r rs)
times-without r q [] h = absurd (omega (arith, h))
times-without r q (s ∷ rs) h = elim (Bool-cases (text_eq r s)) [
  | inl here ↦ let e : r ≡ s = text_eq-eq r s here in rw (here, e) refl
  | inr there ↦ ground (arith, there, times-without r q rs)
]

length-without :
    (r : Rack) (rs : List Rack) → 0 < times r rs → length rs ≡ 1 + length (without r rs)
length-without r [] h = absurd (omega (arith, h))
length-without r (s ∷ rs) h = ground (arith, h, length-without r rs)

-- No more of any rack, and as many in all, is as many of each.
same_times :
    (xs bs : List Rack)
    → ((r : Rack) → times r xs ≤ times r bs)
    → length xs ≡ length bs
    → (r : Rack) → times r xs ≡ times r bs
same_times [] [] h l r = refl
same_times [] (b ∷ bs) h l r = absurd (omega (arith, l))
same_times (a ∷ xs) bs h l r =
    let self = text_eq_refl a in
    let there : 0 < times a bs = ground (arith, h a, self) in
    let rest =
      same_times xs (without a bs) (λ q. omega (arith, h q, times-without a q bs there))
        (omega (arith, l, length-without a bs there)) r in
    omega (arith, rest, times-without a r bs there)

same_length : (xs bs : List Rack) → ((r : Rack) → times r xs ≡ times r bs) → length xs ≡ length bs
same_length [] [] h = refl
same_length [] (b ∷ bs) h = absurd (ground (arith, h b, text_eq_refl b))
same_length (a ∷ xs) bs h =
    let there : 0 < times a bs = ground (arith, h a, text_eq_refl a) in
    omega (
      arith,
      length-without a bs there,
      same_length xs (without a bs) (λ q. omega (arith, h q, times-without a q bs there)),
    )

-- What the two loops find.
has_stray-none :
    (dispatched rs : List Rack)
    → has_stray dispatched rs ≡ false
    → (r : Rack) → 0 < times r rs
    → 0 < times r dispatched
has_stray-none dispatched [] h r t = absurd (omega (arith, t))
has_stray-none dispatched (s ∷ rs) h r t = elim (Bool-cases (text_eq r s)) [
  | inl here ↦
      let e : r ≡ s = text_eq-eq r s here in rw e (ground (arith, h, contains-times s dispatched))
  | inr there ↦ has_stray-none dispatched rs (ground (arith, h)) r (ground (arith, t, there))
]

none-has_stray :
    (dispatched rs : List Rack)
    → ((r : Rack) → 0 < times r rs → 0 < times r dispatched)
    → has_stray dispatched rs ≡ false
none-has_stray dispatched [] h = refl
none-has_stray dispatched (s ∷ rs) h = ground (
  arith,
  h s,
  text_eq_refl s,
  contains-times s dispatched,
  none-has_stray dispatched rs (λ r t. h r (omega (arith, t))),
)

has_twice-none :
    (seen rs : List Rack)
    → has_twice seen rs ≡ false
    → (r : Rack) → (times r rs ≤ 1) × (0 < times r rs → times r seen ≡ 0)
has_twice-none seen [] h r = (omega arith, λ t. absurd (omega (arith, t)))
has_twice-none seen (s ∷ rs) h r =
    let rest = has_twice-none (s ∷ seen) rs (ground (arith, h)) r in
    elim (Bool-cases (text_eq r s)) [
      | inl here ↦
          let e : r ≡ s = text_eq-eq r s here in
          let unseen : times s seen ≡ 0 = ground (arith, h, contains-times s seen) in
          let unseen_too : times r seen ≡ 0 = rw e unseen in
          (ground (arith, rest, here), λ t. unseen_too)
      | inr there ↦ (ground (arith, rest, there), λ t. ground (arith, rest, there, t))
    ]

none-has_twice :
    (seen rs : List Rack)
    → ((r : Rack) → (times r rs ≤ 1) × (0 < times r rs → times r seen ≡ 0))
    → has_twice seen rs ≡ false
none-has_twice seen [] h = refl
none-has_twice seen (s ∷ rs) h =
    let unseen : contains s seen ≡ false =
      ground (arith, h s, text_eq_refl s, contains-times s seen) in
    let rest = none-has_twice (s ∷ seen) rs (λ r. elim (Bool-cases (text_eq r s)) [
      | inl here ↦ (ground (arith, h r, here), λ t. absurd (ground (arith, h r, here, t)))
      | inr there ↦ (ground (arith, h r, there), λ t. ground (arith, h r, there, t))
    ]) in
    ground (arith, unseen, rest)

-- Where the task dispatched no rack twice, a batch is accepted exactly when it lists each rack as often as the
-- task does: all of the racks that were dispatched, each once, in whatever order, and no other.
pub check_batch_against_task-times :
    (expected reported : List Rack)
    → ((r : Rack) → times r expected ≤ 1)
    → (check_batch_against_task expected reported ≡ ok tt)
      ↔ ((r : Rack) → times r reported ≡ times r expected)
unfolding check_batch_against_task
check_batch_against_task-times expected reported once = (accepted, listed)
  where
    accepted :
        check_batch_against_task expected reported ≡ ok tt
        → (r : Rack) → times r reported ≡ times r expected
    accepted h =
        let long : length reported ≡ length expected = ground (arith, h) in
        let no_stray : has_stray expected reported ≡ false = ground (arith, h) in
        let no_twice : has_twice [] reported ≡ false = ground (arith, h) in
        same_times reported expected
          (λ r.
            let a = has_twice-none [] reported no_twice r in
            let b = has_stray-none expected reported no_stray r in ground (arith, a, b))
          long

    listed :
        ((r : Rack) → times r reported ≡ times r expected)
        → check_batch_against_task expected reported ≡ ok tt
    listed h = ground (
      arith,
      same_length reported expected h,
      none-has_stray expected reported (λ r t. omega (arith, t, h r)),
      none-has_twice [] reported (λ r. (omega (arith, once r, h r), λ t. refl)),
    )
