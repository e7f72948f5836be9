-- ===== src/Credentials/Tests.antt =====
-- A limiter that lets each key through once.
use birdtest.Prelude.{
  ℕ, ◌-◌, ◌*◌, ◌≤◌, ◌<◌, ◌≡◌, refl, Bool, true, false, List, [], ◌∷◌, none, some, rate_limited,
  too_many_requests, if◌then◌else◌, replicate, arith,
}
use birdtest.Wire.Chars.{text_eq}
use birdtest.Credentials.{
  Bytes, Keyed, KeepsKeys, claims_bucket, work_in_hand, CredentialGate, check, admit, remember,
  second, bucket_key, bounded_key,
}
use birdtest.Credentials.Small.{
  Event, asks, resolves, sweeps, run, IsSmall, run-IsSmall, check-retry_after,
}
use birdtest.Credentials.Known.{remember-admit}

abbrev listed_key : Bytes → List Bytes → Bool
listed_key key [] = false
listed_key key (k ∷ ks) = if text_eq key k then true else listed_key key ks

abbrev once : Keyed
once = record {
  State = List Bytes;
  check_key = λ s key now. (key ∷ s, if listed_key key s then some 1500000000 else none);
  retain_recent = λ s now. s;
  keys = λ s. s;
}

once-KeepsKeys : KeepsKeys once
once-KeepsKeys = record { checked = λ P s key now h k. (k, h); swept = λ P s now h. h }

abbrev sixty_four : List ℕ
sixty_four = replicate 64 0

abbrev digest : Bytes → Bytes
digest key = sixty_four

abbrev show : ℕ → Bytes
show n = n ∷ []

abbrev gate : CredentialGate once digest show
gate = record { unknown_per_address = []; known = [] }

abbrev events : List (Event ℕ)
events = asks (b'k' ∷ []) claims_bucket 7 5000 ∷ resolves (b'm' ∷ []) 6000 ∷ sweeps 9000 ∷ []

run-IsSmall_example : IsSmall once digest show (run once digest show (gate, []) events)
run-IsSmall_example =
    run-IsSmall once digest show once-KeepsKeys (λ key. refl) (gate, []) events
      (record { known = omega arith; addresses = tt; workers = tt })

check-retry_after_example :
    (wait : ℕ) × (secs : ℕ) × (((once.check_key
          ((b'k' ∷ []) ∷ [])
          (bounded_key once digest show (b'k' ∷ []))
          0).1
        ≡ some wait)
      × ((rate_limited 2 ≡ record { status = too_many_requests; retry_after = some secs })
          × ((wait ≤ secs * second) × ((1 ≤ secs) × (1 < secs → (secs - 1) * second < wait)))))
unfolding check
check-retry_after_example =
    check-retry_after once digest show ((b'k' ∷ []) ∷ []) (b'k' ∷ []) 0 (rate_limited 2) refl

remember-admit_example :
    let s = run once digest show (remember once digest show gate (b'k' ∷ []) 4000, []) events in
    let own =
      check once digest show s.1 (bucket_key once digest show (b'k' ∷ []) work_in_hand) 10000 in
    admit once digest show s.0 s.1 (b'k' ∷ []) work_in_hand 7 10000 ≡ ((s.0, own.0), own.1)
remember-admit_example =
    remember-admit once digest show (b'k' ∷ []) 4000 gate [] events work_in_hand 7 10000 refl
      ((omega arith, omega arith), ((omega arith, omega arith), ((omega arith, omega arith), tt)))
      (omega arith)
