-- ===== src/Credentials.antt =====
-- backend/src/ratelimit.rs: `check`, and the gate that the credentials of workers pass before they are looked
-- up. The limiters are governor's, a parameter; texts are lists of bytes, times and waits are in nanoseconds.
pub mod Small
pub mod Known
mod Tests
use birdtest.Prelude.{
  ℕ, ◌+◌, ◌-◌, ◌/◌, ◌%◌, max, Bool, true, false, not, ◌&&◌, ◌||◌, List, [], ◌∷◌, ◌++◌, Option, none,
  some, AppResult, ok, err, rate_limited, ltb, ◌==◌, if◌then◌else◌, length, arith,
}
use birdtest.Wire.Chars.{text_eq}

abbrev pub Bytes : Type 0
Bytes = List ℕ

abbrev pub All : {A : Type 0} → (A → Type 0) → List A → Type 0
All P [] = Unit
All P (x ∷ xs) = P x × All P xs

-- `RateLimiter` of governor with string keys: what it holds, one check of a key at a time, with the wait of a
-- refusal, and the sweep.
pub record Keyed : Type 1 where
  pub State : Type 0
  pub check_key : State → Bytes → ℕ → State × Option ℕ
  pub retain_recent : State → ℕ → State
  pub keys : State → List Bytes

-- It keeps the keys that it was asked about, and no other.
pub record KeepsKeys (limiter : Keyed) : Type 1 where
  pub checked :
      (P : Bytes → Type 0) (s : limiter.State) (key : Bytes) (now : ℕ)
      → All P (limiter.keys s)
      → P key
      → All P (limiter.keys (limiter.check_key s key now).0)
  pub swept :
      (P : Bytes → Type 0) (s : limiter.State) (now : ℕ)
      → All P (limiter.keys s)
      → All P (limiter.keys (limiter.retain_recent s now))

pub data WorkerBucket : Type 0 where
  claims_bucket work_in_hand : WorkerBucket

-- `MAX_KEY_BYTES`.
abbrev pub max_key_bytes : ℕ
max_key_bytes = 128

-- `KNOWN_FOR`.
abbrev pub known_for : ℕ
known_for = 600000000000

-- `MAX_KNOWN`.
abbrev pub max_known : ℕ
max_known = 50000

abbrev pub second : ℕ
second = 1000000000

-- The whole seconds of a wait, rounded up.
unfoldable pub retry_after_of : ℕ → ℕ
retry_after_of wait = max (wait / second + (if ltb 0 (wait % second) then 1 else 0)) 1

abbrev pub find_known : Bytes → List (Bytes × ℕ) → Option ℕ
find_known key [] = none
find_known key ((k, at) ∷ known) =
    let rest = find_known key known in if text_eq key k then some at else rest

-- `HashMap::insert`.
abbrev pub insert_known : Bytes → ℕ → List (Bytes × ℕ) → List (Bytes × ℕ)
insert_known key at [] = (key, at) ∷ []
insert_known key at ((k, was) ∷ known) =
    let rest = insert_known key at known in
    if text_eq key k then (key, at) ∷ known else (k, was) ∷ rest

abbrev pub contains_key : Bytes → List (Bytes × ℕ) → Bool
contains_key key known = elim (find_known key known) [ none ↦ false | some at ↦ true ]

-- `retain(|_, at| at.elapsed() < KNOWN_FOR)`.
abbrev pub retain_known : ℕ → List (Bytes × ℕ) → List (Bytes × ℕ)
retain_known now [] = []
retain_known now ((k, at) ∷ known) =
    let rest = retain_known now known in if ltb (now - at) known_for then (k, at) ∷ rest else rest

-- The digest is SHA-256's in hexadecimal; an address is shown as text.
module _ (limiter : Keyed) (digest : Bytes → Bytes) {IpAddr : Type 0} (show : IpAddr → Bytes) where
  pub record CredentialGate : Type 0 where
    pub unknown_per_address : limiter.State
    pub known : List (Bytes × ℕ)

  -- "sha256:" before the digest of a long key.
  abbrev pub bounded_key : Bytes → Bytes
  bounded_key key =
      if ltb max_key_bytes (length key)
      then b's' ∷ b'h' ∷ b'a' ∷ b'2' ∷ b'5' ∷ b'6' ∷ b':' ∷ digest key
      else key

  unfoldable pub check : limiter.State → Bytes → ℕ → limiter.State × AppResult (Unit {0})
  unfolding retry_after_of
  check s key now =
      let asked = limiter.check_key s (bounded_key key) now in
      (
        asked.0,
        elim asked.1 [ none ↦ ok tt | some wait ↦ err (rate_limited (retry_after_of wait)) ],
      )

  unfoldable pub is_known : CredentialGate → Bytes → ℕ → Bool
  is_known gate presented now = elim (find_known presented gate.known) [
    | none ↦ false
    | some at ↦ ltb (now - at) known_for
  ]

  abbrev pub bucket_key : Bytes → WorkerBucket → Bytes
  bucket_key presented claims_bucket = presented
  bucket_key presented work_in_hand = presented ++ (b'#' ∷ b'w' ∷ b'o' ∷ b'r' ∷ b'k' ∷ [])

  abbrev pub address_key : IpAddr → Bytes
  address_key address = b'i' ∷ b'p' ∷ b':' ∷ show address

  -- The gate and the `worker` limiter, and the answer.
  unfoldable pub admit :
      CredentialGate
      → limiter.State
      → Bytes
      → WorkerBucket
      → IpAddr
      → ℕ
      → (CredentialGate × limiter.State) × AppResult (Unit {0})
  unfolding check is_known
  admit gate worker presented bucket address now =
      let own = check worker (bucket_key presented bucket) now in
      let asked = check gate.unknown_per_address (address_key address) now in
      let paid = record gate { unknown_per_address = asked.0 } in
      if is_known gate presented now
      then ((gate, own.0), own.1)
      else elim asked.1 [ ok u ↦ ((paid, own.0), own.1) | err e ↦ ((paid, worker), err e) ]

  unfoldable pub remember : CredentialGate → Bytes → ℕ → CredentialGate
  remember gate presented now =
      if ltb (length gate.known) max_known || contains_key presented gate.known
      then record gate { known = insert_known presented now gate.known }
      else gate

  -- `CredentialGate::retain_recent`.
  unfoldable pub retain_recent : CredentialGate → ℕ → CredentialGate
  retain_recent gate now = record {
    unknown_per_address = limiter.retain_recent gate.unknown_per_address now;
    known = retain_known now gate.known;
  }
