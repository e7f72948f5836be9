-- ===== src/Claims/Ended.antt =====
-- A claim keeps what it was issued with, and ends once.
use birdtest.Prelude.{
  ℕ, ◌-◌, ◌*◌, max, min, ◌≡◌, refl, ap, ◌∙◌, Bool, Bool-cases, true, false, ◌&&◌, List, [], ◌∷◌,
  some, inl, inr, ltb, ◌==◌, if◌then◌else◌, arith,
}
use birdtest.Claims.Rows.{
  ClaimState, counted, TaskClaim, Database, update, exists, find, append, is_claimed,
}
use birdtest.Claims.Writes.{release_claim, is_open_id}
use birdtest.Claims.Requests.{
  record_time_limit, is_uncounted, accept_result, complete_claim, max_movegens_per_ms, i64_max,
}
use birdtest.Claims.Slots.{All, find-exists, exists-All, has_id, WellFormed}
use birdtest.Claims.Settled.{record_time_limit-limits_counted}

-- A claim's row, later.
pub record Follows (c d : TaskClaim) : Type 0 where
  pub issue :
      (d.id ≡ c.id)
      × ((d.task_id ≡ c.task_id)
          × ((d.claim_token ≡ c.claim_token)
              × ((d.claimed_by ≡ c.claimed_by) × (d.deadline_at ≡ c.deadline_at))))
  pub ending :
      is_claimed c.state ≡ false
      → (d.state ≡ c.state) × ((d.completed_at ≡ c.completed_at) × (d.movegens ≡ c.movegens))

abbrev pub Grown : List TaskClaim → List TaskClaim → Type 0
Grown [] ys = Unit
Grown (x ∷ xs) [] = ⊥
Grown (x ∷ xs) (y ∷ ys) = Follows x y × Grown xs ys

Follows-refl : (c : TaskClaim) → Follows c c
Follows-refl c = record {
  issue = (refl, (refl, (refl, (refl, refl))));
  ending = λ e. (refl, (refl, refl));
}

pub Grown-refl : (xs : List TaskClaim) → Grown xs xs
Grown-refl [] = tt
Grown-refl (x ∷ xs) = (Follows-refl x, Grown-refl xs)

pub Grown-append : (xs : List TaskClaim) (c : TaskClaim) → Grown xs (append xs c)
Grown-append [] c = tt
Grown-append (x ∷ xs) c = (Follows-refl x, Grown-append xs c)

Follows-trans : (a b c : TaskClaim) → Follows a b → Follows b c → Follows a c
Follows-trans a b c f g = record {
  issue = (
    g.issue.0 ∙ f.issue.0,
    (
      g.issue.1.0 ∙ f.issue.1.0,
      (
        g.issue.1.1.0 ∙ f.issue.1.1.0,
        (g.issue.1.1.1.0 ∙ f.issue.1.1.1.0, g.issue.1.1.1.1 ∙ f.issue.1.1.1.1),
      ),
    ),
  );
  ending = λ e.
      let (state, (at, n)) = f.ending e in
      let (state2, (at2, n2)) = g.ending (ap is_claimed state ∙ e) in
      (state2 ∙ state, (at2 ∙ at, n2 ∙ n));
}

pub Grown-trans : (xs ys zs : List TaskClaim) → Grown xs ys → Grown ys zs → Grown xs zs
Grown-trans [] ys zs f g = tt
Grown-trans (x ∷ xs) [] zs f g = absurd f
Grown-trans (x ∷ xs) (y ∷ ys) [] f g = g
Grown-trans (x ∷ xs) (y ∷ ys) (z ∷ zs) (f, fs) (g, gs) =
    (Follows-trans x y z f g, Grown-trans xs ys zs fs gs)

Grown-update :
    (P : TaskClaim → Type 0) (w : TaskClaim → Bool) (f : TaskClaim → TaskClaim)
    → ((c : TaskClaim) → P c → Follows c (if w c then f c else c))
    → (xs : List TaskClaim) → All P xs
    → Grown xs (update w f xs)
Grown-update P w f h [] a = tt
Grown-update P w f h (x ∷ xs) (px, a) = (h x px, Grown-update P w f h xs a)

All-always : (P : TaskClaim → Type 0) → ((c : TaskClaim) → P c) → (xs : List TaskClaim) → All P xs
All-always P h [] = tt
All-always P h (x ∷ xs) = (h x, All-always P h xs)

abbrev Rewrites : (TaskClaim → TaskClaim) → Type 0
Rewrites f =
    (c : TaskClaim)
    → ((f c).id ≡ c.id)
      × (((f c).task_id ≡ c.task_id)
          × (((f c).claim_token ≡ c.claim_token)
              × (((f c).claimed_by ≡ c.claimed_by) × ((f c).deadline_at ≡ c.deadline_at))))

-- A statement on open claims alone, or one that leaves how a claim ended.
opened-Follows :
    (w : TaskClaim → Bool) (f : TaskClaim → TaskClaim) (c : TaskClaim)
    → Rewrites f
    → (w c ≡ true → is_claimed c.state ≡ true)
    → Follows c (if w c then f c else c)
opened-Follows w f c keeps only_open = elim (Bool-cases (w c)) [
  | inr untouched ↦ rw untouched (Follows-refl c)
  | inl touched ↦
      rw touched
        (record { issue = keeps c; ending = λ e. absurd (ground (arith, e, only_open touched)) })
]

marked-Follows :
    (w : TaskClaim → Bool) (f : TaskClaim → TaskClaim) (c : TaskClaim)
    → Rewrites f
    → ((f c).state ≡ c.state)
      × (((f c).completed_at ≡ c.completed_at) × ((f c).movegens ≡ c.movegens))
    → Follows c (if w c then f c else c)
marked-Follows w f c keeps same = elim (Bool-cases (w c)) [
  | inr untouched ↦ rw untouched (Follows-refl c)
  | inl touched ↦ rw touched (record { issue = keeps c; ending = λ e. same })
]

pub opened-Grown :
    (w : TaskClaim → Bool) (f : TaskClaim → TaskClaim) (claims : List TaskClaim)
    → Rewrites f
    → ((c : TaskClaim) → w c ≡ true → is_claimed c.state ≡ true)
    → Grown claims (update w f claims)
opened-Grown w f claims keeps only_open =
    Grown-update (λ c. Unit) w f (λ c u. opened-Follows w f c keeps (only_open c)) claims
      (All-always (λ c. Unit) (λ c. tt) claims)

pub marked-Grown :
    (w : TaskClaim → Bool) (f : TaskClaim → TaskClaim) (claims : List TaskClaim)
    → Rewrites f
    → ((c : TaskClaim)
        → ((f c).state ≡ c.state)
          × (((f c).completed_at ≡ c.completed_at) × ((f c).movegens ≡ c.movegens)))
    → Grown claims (update w f claims)
marked-Grown w f claims keeps same =
    Grown-update (λ c. Unit) w f (λ c u. marked-Follows w f c keeps (same c)) claims
      (All-always (λ c. Unit) (λ c. tt) claims)

pub record_time_limit-Grown :
    (db : Database) (job_id : ℕ) (is_declined : Bool)
    → Grown db.claims (record_time_limit db job_id is_declined).claims
record_time_limit-Grown db job_id is_declined =
    elim (record_time_limit-limits_counted db job_id is_declined) [
      | inl same ↦ rw same (Grown-refl db.claims)
      | inr (jobs, written) ↦ rw written (
          marked-Grown (is_uncounted job_id) (λ c. record c { overrun = some counted }) db.claims
            (λ c. (refl, (refl, (refl, (refl, refl))))) (λ c. (refl, (refl, refl))))
    ]

pub release_claim-Grown :
    (db : Database) (claim_id : ℕ) (terminal_state : ClaimState)
    → Grown db.claims (release_claim db claim_id terminal_state).0.claims
unfolding release_claim
release_claim-Grown db claim_id terminal_state =
    elim (Bool-cases (exists (is_open_id claim_id) db.claims)) [
      | inr closed ↦ rw closed (Grown-refl db.claims)
      | inl opened ↦ rw opened (
          opened-Grown (is_open_id claim_id) (λ c. record c { state = terminal_state }) db.claims
            (λ c. (refl, (refl, (refl, (refl, refl))))) (λ c e. ground (arith, e)))
    ]

module _ (db : Database) (p : TaskClaim → Bool) (c : TaskClaim) (found : find p db.claims ≡ some c)
    (is_open : is_claimed c.state ≡ true) (h : WellFormed db) where
  pub accept_result-Grown :
      (progress_moved : Bool) (movegens now : ℕ)
      → Grown db.claims (accept_result db c progress_moved movegens now).0.claims
  unfolding accept_result
  accept_result-Grown progress_moved movegens now =
      elim (Bool-cases
        (ltb (min i64_max (max (now - c.claimed_at) 1 * max_movegens_per_ms)) movegens)) [
          | inl implausible ↦ rw implausible (Grown-refl db.claims)
          | inr plausible ↦ rw plausible (
              Grown-update (λ d. (d.id == c.id) ≡ true → is_claimed d.state ≡ true)
                (λ d. d.id == c.id) (complete_claim now movegens)
                (λ d only_open.
                  opened-Follows (λ d. d.id == c.id) (complete_claim now movegens) d
                    (λ d. (refl, (refl, (refl, (refl, refl))))) only_open)
                db.claims
                (exists-All (has_id c.id) (λ d. is_claimed d.state) db.claims (h.ids c.id)
                  (find-exists p (λ d. has_id c.id d && is_claimed d.state) db.claims c found
                    (ground (arith, is_open)))))
        ]
