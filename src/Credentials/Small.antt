-- ===== src/Credentials/Small.antt =====
-- What the gate and the limiters hold, whatever requests come: ratelimit.rs, `check`, `admit`, `remember`.
use birdtest.Prelude.{
  ℕ, ◌+◌, ◌-◌, ◌*◌, ◌≤◌, ◌<◌, ◌≡◌, ◌⊎◌, refl, Bool-cases, Option-cases, ◌||◌, List, [], ◌∷◌, some,
  inl, inr, AppResult, ok, err, AppError, too_many_requests, ltb, if◌then◌else◌, length, arith,
}
use birdtest.Credentials.{
  Bytes, All, Keyed, KeepsKeys, WorkerBucket, max_key_bytes, max_known, second, retry_after_of,
  insert_known, contains_key, retain_known, CredentialGate, bounded_key, check, is_known,
  bucket_key, address_key, admit, remember, retain_recent,
}

pub data Event (IpAddr : Type 0) : Type 0 where
  asks : Bytes → WorkerBucket → IpAddr → ℕ → Event IpAddr
  resolves : Bytes → ℕ → Event IpAddr
  sweeps : ℕ → Event IpAddr

pub result_cases :
    {A : Type 0} (m : AppResult A) → ((a : A) × (m ≡ ok a)) ⊎ ((e : AppError) × (m ≡ err e))
result_cases (ok a) = inl (a, refl)
result_cases (err e) = inr (e, refl)

retry_after_of_lem :
    (wait : ℕ)
    → (wait ≤ retry_after_of wait * second)
      × ((1 ≤ retry_after_of wait)
          × (1 < retry_after_of wait → (retry_after_of wait - 1) * second < wait))
unfolding retry_after_of
retry_after_of_lem wait = ground arith

length-insert_known :
    (key : Bytes) (at : ℕ) (known : List (Bytes × ℕ))
    → length (insert_known key at known)
      ≡ (if contains_key key known then length known else length known + 1)
length-insert_known key at [] = refl
length-insert_known key at ((k, was) ∷ known) = ground (arith, length-insert_known key at known)

length-retain_known :
    (now : ℕ) (known : List (Bytes × ℕ)) → length (retain_known now known) ≤ length known
length-retain_known now [] = omega arith
length-retain_known now ((k, at) ∷ known) = ground (arith, length-retain_known now known)

module _ (limiter : Keyed) (digest : Bytes → Bytes) {IpAddr : Type 0} (show : IpAddr → Bytes) where
  abbrev pub Gates : Type 0
  Gates = CredentialGate limiter digest show × limiter.State

  unfoldable pub step : Gates → Event IpAddr → Gates
  unfolding admit remember retain_recent
  step (gate, worker) (asks presented bucket address now) =
      (admit limiter digest show gate worker presented bucket address now).0
  step (gate, worker) (resolves presented now) =
      (remember limiter digest show gate presented now, worker)
  step (gate, worker) (sweeps now) =
      (retain_recent limiter digest show gate now, limiter.retain_recent worker now)

  unfoldable pub run : Gates → List (Event IpAddr) → Gates
  unfolding step
  run s [] = s
  run s (e ∷ es) = run (step s e) es

  abbrev pub IsShort : Bytes → Type 0
  IsShort key = length key ≤ max_key_bytes

  pub record IsSmall (s : Gates) : Type 0 where
    pub known : length s.0.known ≤ max_known
    pub addresses : All IsShort (limiter.keys s.0.unknown_per_address)
    pub workers : All IsShort (limiter.keys s.1)

  module _ (keeps : KeepsKeys limiter) (short : (key : Bytes) → length (digest key) ≡ 64) where
    bounded_key-IsShort : (key : Bytes) → IsShort (bounded_key limiter digest show key)
    bounded_key-IsShort key = ground (arith, short key)

    checked :
        (s : limiter.State) (key : Bytes) (now : ℕ)
        → All IsShort (limiter.keys s)
        → All IsShort (limiter.keys (check limiter digest show s key now).0)
    unfolding check
    checked s key now h =
        keeps.checked IsShort s (bounded_key limiter digest show key) now h
          (bounded_key-IsShort key)

    remember-IsSmall :
        (gate : CredentialGate limiter digest show) (worker : limiter.State) (presented : Bytes)
        (now : ℕ)
        → IsSmall (gate, worker)
        → IsSmall (remember limiter digest show gate presented now, worker)
    unfolding remember
    remember-IsSmall gate worker presented now h =
        elim (Bool-cases (ltb (length gate.known) max_known || contains_key presented gate.known)) [
          | inr full ↦ rw full h
          | inl room ↦ rw room (record {
            known = ground (arith, h.known, room, length-insert_known presented now gate.known);
            addresses = h.addresses;
            workers = h.workers;
          })
        ]

    admit-IsSmall :
        (gate : CredentialGate limiter digest show) (worker : limiter.State) (presented : Bytes)
        (bucket : WorkerBucket) (address : IpAddr) (now : ℕ)
        → IsSmall (gate, worker)
        → IsSmall (admit limiter digest show gate worker presented bucket address now).0
    unfolding admit
    admit-IsSmall gate worker presented bucket address now h =
        let own = checked worker (bucket_key limiter digest show presented bucket) now h.workers in
        let asked =
          checked gate.unknown_per_address (address_key limiter digest show address) now
            h.addresses in
        elim (Bool-cases (is_known limiter digest show gate presented now)) [
          | inl known ↦
              rw known (record { known = h.known; addresses = h.addresses; workers = own })
          | inr unknown ↦
              elim (result_cases
                (check limiter digest show gate.unknown_per_address
                  (address_key limiter digest show address) now).1) [
                    | inl (u, admitted) ↦
                        rw (unknown, admitted)
                          (record { known = h.known; addresses = asked; workers = own })
                    | inr (e, refused) ↦
                        rw (unknown, refused)
                          (record { known = h.known; addresses = asked; workers = h.workers })
                  ]
        ]

    step-IsSmall : (s : Gates) (e : Event IpAddr) → IsSmall s → IsSmall (step s e)
    unfolding step retain_recent
    step-IsSmall (gate, worker) (sweeps now) h = record {
      known = omega (arith, h.known, length-retain_known now gate.known);
      addresses = keeps.swept IsShort gate.unknown_per_address now h.addresses;
      workers = keeps.swept IsShort worker now h.workers;
    }
    step-IsSmall (gate, worker) (resolves presented now) h =
        remember-IsSmall gate worker presented now h
    step-IsSmall (gate, worker) (asks presented bucket address now) h =
        admit-IsSmall gate worker presented bucket address now h

    -- Whatever requests, lookups and sweeps come, with credentials and addresses of any length: at most fifty
    -- thousand credentials are remembered, and no key that either limiter holds is longer than 128 bytes, where
    -- the limiter keeps the keys that it was asked about and the digest has 64 digits.
    pub run-IsSmall : (s : Gates) (es : List (Event IpAddr)) → IsSmall s → IsSmall (run s es)
    unfolding run
    run-IsSmall s [] h = h
    run-IsSmall s (e ∷ es) h = run-IsSmall (step s e) es (step-IsSmall s e h)

  -- A request that a limiter refuses is told a number of whole seconds: waiting them is waiting long enough,
  -- and one second fewer is not, unless it was told one.
  pub check-retry_after :
      (s : limiter.State) (key : Bytes) (now : ℕ) (e : AppError)
      → (check limiter digest show s key now).1 ≡ err e
      → (wait : ℕ) × (secs : ℕ) × (((limiter.check_key s
              (bounded_key limiter digest show key)
              now).1
            ≡ some wait)
          × ((e ≡ record { status = too_many_requests; retry_after = some secs })
              × ((wait ≤ secs * second) × ((1 ≤ secs) × (1 < secs → (secs - 1) * second < wait)))))
  unfolding check
  check-retry_after s key now e h =
      elim (Option-cases (limiter.check_key s (bounded_key limiter digest show key) now).1) [
        | inl admitted ↦ absurd (ground (arith, admitted, h))
        | inr (wait, refused) ↦
            let bounds = retry_after_of_lem wait in
            (wait, retry_after_of wait, (refused, (ground (arith, refused, h, bounds), bounds)))
      ]
