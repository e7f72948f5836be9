-- ===== src/Credentials/Known.antt =====
-- Credentials that resolved: ratelimit.rs, `is_known` and `remember`.
use birdtest.Prelude.{
  ℕ, ◌+◌, ◌-◌, ◌≤◌, ◌<◌, ◌≡◌, refl, subst, ◌∙◌, Bool-cases, Option-cases, true, false, ◌||◌, List,
  [], ◌∷◌, Option, none, some, inl, inr, ltb, if◌then◌else◌, length, arith,
}
use birdtest.Wire.Chars.{text_eq, text_eq-eq, text_eq_refl}
use birdtest.Credentials.{
  Bytes, All, Keyed, WorkerBucket, known_for, max_known, find_known, insert_known, contains_key,
  retain_known, CredentialGate, check, is_known, bucket_key, address_key, admit, remember,
  retain_recent,
}
use birdtest.Credentials.Small.{result_cases, Event, asks, resolves, sweeps, Gates, step, run}

-- Known since `since`, or later.
abbrev Since : ℕ → Option ℕ → Type 0
Since since none = ⊥
Since since (some at) = since ≤ at

text_eq_sym : (s t : Bytes) → text_eq s t ≡ text_eq t s
text_eq_sym [] [] = refl
text_eq_sym [] (d ∷ t) = refl
text_eq_sym (c ∷ s) [] = refl
text_eq_sym (c ∷ s) (d ∷ t) = ground (arith, text_eq_sym s t)

find_known-insert_known :
    (key other : Bytes) (at : ℕ) (known : List (Bytes × ℕ))
    → find_known key (insert_known other at known)
      ≡ (if text_eq key other then some at else find_known key known)
find_known-insert_known key other at [] = ground arith
find_known-insert_known key other at ((k, was) ∷ known) = elim (Bool-cases (text_eq other k)) [
  | inl same ↦ let e : other ≡ k = text_eq-eq other k same in rw (same, e) (ground arith)
  | inr differ ↦ elim (Bool-cases (text_eq key k)) [
    | inr elsewhere ↦ ground (arith, differ, elsewhere, find_known-insert_known key other at known)
    | inl here ↦
        let e : key ≡ k = text_eq-eq key k here in
        let apart : text_eq key other ≡ false = text_eq_sym key other ∙ (rw e differ) in
        ground (arith, differ, here, apart)
  ]
]

insert_known-Since :
    (since : ℕ) (key other : Bytes) (at : ℕ) (known : List (Bytes × ℕ))
    → since ≤ at
    → Since since (find_known key known)
    → Since since (find_known key (insert_known other at known))
insert_known-Since since key other at known h k =
    rw (find_known-insert_known key other at known)
      (elim (Bool-cases (text_eq key other)) [ inl same ↦ rw same h | inr differ ↦ rw differ k ])

retain_known-Since :
    (since now : ℕ) (key : Bytes) (known : List (Bytes × ℕ))
    → now < since + known_for
    → Since since (find_known key known)
    → Since since (find_known key (retain_known now known))
retain_known-Since since now key [] h k = k
retain_known-Since since now key ((l, at) ∷ known) h k = elim (Bool-cases (text_eq key l)) [
  | inl here ↦
      let later : since ≤ at =
        subst (λ b. Since since (if b then some at else find_known key known)) here k in
      let kept : ltb (now - at) known_for ≡ true = ground (arith, h, later) in
      rw kept (rw here later)
  | inr elsewhere ↦
      let rest =
        retain_known-Since since now key known h
          (subst (λ b. Since since (if b then some at else find_known key known)) elsewhere k) in
      elim (Bool-cases (ltb (now - at) known_for)) [
        | inl kept ↦ rw kept (rw elsewhere rest)
        | inr dropped ↦ rw dropped rest
      ]
]

-- When an event happens.
abbrev pub at_time : {IpAddr : Type 0} → Event IpAddr → ℕ
at_time (asks presented bucket address now) = now
at_time (resolves presented now) = now
at_time (sweeps now) = now

module _ (limiter : Keyed) (digest : Bytes → Bytes) {IpAddr : Type 0} (show : IpAddr → Bytes)
    (key : Bytes) (since : ℕ) where
  abbrev IsSince : Gates limiter digest show → Type 0
  IsSince s = Since since (find_known key s.0.known)

  asked-IsSince :
      (gate : CredentialGate limiter digest show) (worker : limiter.State) (presented : Bytes)
      (bucket : WorkerBucket) (address : IpAddr) (now : ℕ)
      → IsSince (gate, worker)
      → IsSince (admit limiter digest show gate worker presented bucket address now).0
  unfolding admit
  asked-IsSince gate worker presented bucket address now h =
      elim (Bool-cases (is_known limiter digest show gate presented now)) [
        | inl known ↦ rw known h
        | inr unknown ↦
            elim (result_cases
              (check limiter digest show gate.unknown_per_address
                (address_key limiter digest show address) now).1) [
                  | inl (u, admitted) ↦ rw (unknown, admitted) h
                  | inr (e, refused) ↦ rw (unknown, refused) h
                ]
      ]

  step-IsSince :
      (s : Gates limiter digest show) (e : Event IpAddr)
      → since ≤ at_time e
      → at_time e < since + known_for
      → IsSince s
      → IsSince (step limiter digest show s e)
  unfolding step retain_recent remember
  step-IsSince (gate, worker) (asks presented bucket address now) from to h =
      asked-IsSince gate worker presented bucket address now h
  step-IsSince (gate, worker) (sweeps now) from to h =
      retain_known-Since since now key gate.known to h
  step-IsSince (gate, worker) (resolves presented now) from to h =
      elim (Bool-cases (ltb (length gate.known) max_known || contains_key presented gate.known)) [
        | inl room ↦ rw room (insert_known-Since since key presented now gate.known from h)
        | inr full ↦ rw full h
      ]

  run-IsSince :
      (s : Gates limiter digest show) (es : List (Event IpAddr))
      → All (λ e. (since ≤ at_time e) × (at_time e < since + known_for)) es
      → IsSince s
      → IsSince (run limiter digest show s es)
  unfolding run
  run-IsSince s [] t h = h
  run-IsSince s (e ∷ es) ((from, to), t) h =
      run-IsSince (step limiter digest show s e) es t (step-IsSince s e from to h)

  Since-is_known :
      (gate : CredentialGate limiter digest show) (now : ℕ)
      → now < since + known_for
      → Since since (find_known key gate.known)
      → is_known limiter digest show gate key now ≡ true
  unfolding is_known
  Since-is_known gate now h k = elim (Option-cases (find_known key gate.known)) [
    | inl absent ↦ absurd (subst (Since since) absent k)
    | inr (at, found) ↦
        let later : since ≤ at = subst (Since since) found k in
        rw (found, is_known) (ground (arith, h, later))
  ]

  remembered :
      (gate : CredentialGate limiter digest show)
      → (ltb (length gate.known) max_known || contains_key key gate.known) ≡ true
      → Since since (find_known key (remember limiter digest show gate key since).known)
  unfolding remember
  remembered gate room =
      rw room (
        rw (find_known-insert_known key key since gate.known) (rw (text_eq_refl key) (omega arith)))

  -- A credential that resolved while there was room for it is charged to its own bucket alone for ten minutes:
  -- whatever other requests, lookups and sweeps come in between, asking again leaves the bucket of the address
  -- as it was, and is answered as the credential's own bucket answers.
  pub remember-admit :
      (gate : CredentialGate limiter digest show) (worker : limiter.State)
      (es : List (Event IpAddr)) (bucket : WorkerBucket) (address : IpAddr) (now : ℕ)
      → (ltb (length gate.known) max_known || contains_key key gate.known) ≡ true
      → All (λ e. (since ≤ at_time e) × (at_time e < since + known_for)) es
      → now < since + known_for
      → let s = run limiter digest show (remember limiter digest show gate key since, worker) es in
        let own = check limiter digest show s.1 (bucket_key limiter digest show key bucket) now in
        admit limiter digest show s.0 s.1 key bucket address now ≡ ((s.0, own.0), own.1)
  unfolding admit
  remember-admit gate worker es bucket address now room times h =
      let s = run limiter digest show (remember limiter digest show gate key since, worker) es in
      let known = Since-is_known s.0 now h (run-IsSince _ es times (remembered gate room)) in
      rw known refl
