-- ===== src/Claims/Spent.antt =====
-- A token that was answered is answered no more: Claims/Requests.antt.
use birdtest.Prelude.{
  ℕ, ◌+◌, ◌-◌, ◌*◌, max, min, ◌≤◌, ◌<◌, ◌≡◌, refl, sym, ap, subst, Bool, Bool-cases, Option-cases,
  true, false, not, ◌&&◌, List, [], ◌∷◌, none, some, inl, inr, ltb, ◌==◌, arith, ok,
}
use birdtest.Claims.Rows.{TaskClaim, Database, Identity, update, count, find, is_claimed}
use birdtest.Claims.Requests.{
  accept_result, complete_claim, max_movegens_per_ms, i64_max, submit_result, is_open_for, is_late,
}
use birdtest.Claims.Slots.{count-update_same, find-test, find-count, has_id, WellFormed}
use birdtest.Claims.Slots.{has_token, count-update}
use birdtest.Claims.Kept.{count-row}
use birdtest.Claims.Reached.{submits, Reach, here, next, Sound, Reach-Sound}
use birdtest.Claims.Ended.{Grown}
use birdtest.Claims.Past.{Reach-Grown}

abbrev is_open_token : ℕ → TaskClaim → Bool
is_open_token k c = c.claim_token == k && is_claimed c.state

-- The token's claim has ended.
abbrev pub IsSpent : ℕ → List TaskClaim → Type 0
IsSpent k claims = (0 < count (has_token k) claims) × (count (is_open_token k) claims ≡ 0)

split_tokens :
    (k : ℕ) (xs : List TaskClaim)
    → count (is_open_token k) xs + count (λ d. has_token k d && not (is_claimed d.state)) xs
      ≡ count (has_token k) xs
split_tokens k [] = refl
split_tokens k (x ∷ xs) = ground (arith, split_tokens k xs)

ended-Grown :
    (k : ℕ) (xs ys : List TaskClaim)
    → Grown xs ys
    → count (λ d. has_token k d && not (is_claimed d.state)) xs
      ≤ count (λ d. has_token k d && not (is_claimed d.state)) ys
ended-Grown k [] ys g = omega arith
ended-Grown k (x ∷ xs) [] g = absurd g
ended-Grown k (x ∷ xs) (y ∷ ys) (f, g) = ground (arith, f.issue, f.ending, ended-Grown k xs ys g)

Grown-IsSpent :
    (k : ℕ) (d e : Database)
    → Grown d.claims e.claims
    → count (has_token k) e.claims ≤ 1
    → IsSpent k d.claims
    → IsSpent k e.claims
Grown-IsSpent k d e g unique spent =
    let ended = ended-Grown k d.claims e.claims g in
    omega (arith, ended, split_tokens k d.claims, split_tokens k e.claims, unique, spent)

find-none :
    (p q : TaskClaim → Bool) (xs : List TaskClaim)
    → ((c : TaskClaim) → p c ≡ true → q c ≡ true)
    → count q xs ≡ 0
    → find p xs ≡ none
find-none p q [] h e = refl
find-none p q (x ∷ xs) h e = ground (arith, h x, e, find-none p q xs h)

module _ (db : Database) (p : TaskClaim → Bool) (c : TaskClaim) (found : find p db.claims ≡ some c)
    (is_open : is_claimed c.state ≡ true) (h : WellFormed db) (now movegens : ℕ) where
  completed-IsSpent :
      IsSpent c.claim_token (update (λ d. d.id == c.id) (complete_claim now movegens) db.claims)
  completed-IsSpent =
      let fewer =
        count-update (is_open_token c.claim_token)
          (λ d. has_id c.id d && (is_claimed d.state && d.claim_token == c.claim_token))
          (λ d. d.id == c.id) (complete_claim now movegens) (λ d. ground arith) db.claims in
      let one =
        count-row p db.claims c found (h.ids c.id)
          (λ d. is_claimed d.state && d.claim_token == c.claim_token) in
      let same =
        count-update_same (has_token c.claim_token) (λ d. d.id == c.id)
          (complete_claim now movegens) (λ d. ground arith) db.claims in
      let there = find-count p (has_token c.claim_token) db.claims c found in
      (
        ground (arith, same, there),
        ground (
          arith,
          fewer,
          one,
          is_open,
          h.tokens c.claim_token,
          split_tokens c.claim_token db.claims,
        ),
      )

  accepted-IsSpent :
      (progress_moved : Bool) (e : Database)
      → accept_result db c progress_moved movegens now ≡ (e, ok true)
      → IsSpent c.claim_token e.claims
  unfolding accept_result
  accepted-IsSpent progress_moved e a =
      elim (Bool-cases
        (ltb (min i64_max (max (now - c.claimed_at) 1 * max_movegens_per_ms)) movegens)) [
          | inl implausible ↦ absurd (ground (arith, implausible, a))
          | inr plausible ↦
              let written : update (λ d. d.id == c.id) (complete_claim now movegens) db.claims
                  ≡ e.claims =
                ground (arith, plausible, a) in
              subst (IsSpent c.claim_token) written completed-IsSpent
        ]

submitted-IsSpent :
    (d : Database) (claim_token : ℕ) (identity : Identity)
    (deadlines_enforced progress_moved : Bool) (movegens now : ℕ) (e : Database)
    → WellFormed d
    → submit_result d claim_token identity deadlines_enforced progress_moved movegens now
      ≡ (e, ok true)
    → IsSpent claim_token e.claims
unfolding submit_result
submitted-IsSpent d claim_token identity deadlines_enforced progress_moved movegens now e w h =
    elim (Option-cases (find (is_open_for claim_token identity) d.claims)) [
      | inl absent ↦ absurd (ground (arith, absent, h))
      | inr (c, found) ↦
          let passed = find-test (is_open_for claim_token identity) d.claims c found in
          elim (Bool-cases (is_late deadlines_enforced now c)) [
            | inl late ↦ absurd (ground (arith, found, late, h))
            | inr in_time ↦
                let spent =
                  accepted-IsSpent d (is_open_for claim_token identity) c found
                    (ground (arith, passed)) w now movegens progress_moved e
                    (ground (arith, found, in_time, h)) in
                let token : c.claim_token ≡ claim_token = ground (arith, passed) in
                subst (λ k. IsSpent k e.claims) token spent
          ]
    ]

spent-submit_result :
    (d : Database) (claim_token : ℕ) (identity : Identity)
    (deadlines_enforced progress_moved : Bool) (movegens now : ℕ)
    → IsSpent claim_token d.claims
    → submit_result d claim_token identity deadlines_enforced progress_moved movegens now
      ≡ (d, ok false)
unfolding submit_result
spent-submit_result d claim_token identity deadlines_enforced progress_moved movegens now spent =
    let absent =
      find-none (is_open_for claim_token identity) (is_open_token claim_token) d.claims
        (λ c e. ground (arith, e)) spent.1 in
    rw (absent, submit_result) refl

-- A result that was accepted is accepted once: in every database that is reached from there, by whatever
-- claims, heartbeats, sweeps, declines and submissions, a submission with the token, whoever sends it and
-- whenever, is answered that it was not accepted, and changes nothing.
pub submit_result-once :
    (d : Database) (claim_token : ℕ) (identity : Identity)
    (deadlines_enforced progress_moved : Bool) (movegens now : ℕ) (e f : Database)
    (again : Identity) (enforced_again moved_again : Bool) (movegens_again later : ℕ)
    → Sound d
    → submit_result d claim_token identity deadlines_enforced progress_moved movegens now
      ≡ (e, ok true)
    → Reach e f
    → submit_result f claim_token again enforced_again moved_again movegens_again later
      ≡ (f, ok false)
submit_result-once d claim_token identity deadlines_enforced progress_moved movegens now e f again
      enforced_again moved_again movegens_again later s accepted r =
    let after = Reach-Sound s (
      next here (
        submits claim_token identity deadlines_enforced progress_moved movegens now
          (sym (ap (λ a. a.0) accepted)))) in
    let spent =
      submitted-IsSpent d claim_token identity deadlines_enforced progress_moved movegens now e
        s.rows accepted in
    spent-submit_result f claim_token again enforced_again moved_again movegens_again later (
      Grown-IsSpent claim_token e f (Reach-Grown after r)
        ((Reach-Sound after r).rows.tokens claim_token) spent)
