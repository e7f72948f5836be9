-- ===== src/Prelude/Errors.antt =====
-- backend/src/error.rs: what a handler answers when it fails. The texts for people (`message`,
-- `fields`) and the database's own codes are left out.
use Prim.Native.Nat.{ℕ, max}
use mathlib.Core.Bool.{Bool, true, false}
use mathlib.Core.List.{List, [], ◌∷◌}
use mathlib.Core.Option.{Option, none, some}
use mathlib.Core.Path.{◌≡◌, refl}
use native.Mathlib.Omega.{arith}

pub data StatusCode : Type 0 where
  bad_request_status not_found_status too_many_requests internal_server_error : StatusCode

pub record AppError : Type 0 where
  pub status : StatusCode
  pub retry_after : Option ℕ

abbrev pub bad_request : AppError
bad_request = record { status = bad_request_status; retry_after = none }

abbrev pub not_found : AppError
not_found = record { status = not_found_status; retry_after = none }

abbrev pub internal : AppError
internal = record { status = internal_server_error; retry_after = none }

abbrev pub rate_limited : ℕ → AppError
rate_limited secs = record { status = too_many_requests; retry_after = some (max secs 1) }

-- `AppResult<A>`.
pub data AppResult {ℓ} (A : Type ℓ) : Type ℓ where
  ok : A → AppResult A
  err : AppError → AppResult A

infixl 5 ◌>>=◌ ◌>>◌
abbrev pub ◌>>=◌ {ℓ κ} : {A : Type ℓ} {B : Type κ} → AppResult A → (A → AppResult B) → AppResult B
ok a >>= f = f a
err e >>= f = err e

abbrev pub ◌>>◌ {ℓ} : {B : Type ℓ} → AppResult (Unit {0}) → AppResult B → AppResult B
m >> k = m >>= λ _. k

-- `if refused { return Err(e); }`
abbrev pub refuse_if : Bool → AppError → AppResult (Unit {0})
refuse_if true e = err e
refuse_if false e = ok tt

abbrev pub refuse : Bool → AppResult (Unit {0})
refuse b = refuse_if b bad_request

-- `for item in items { check(item)?; }`
abbrev pub for_each {ℓ} : {A : Type ℓ} → (A → AppResult (Unit {0})) → List A → AppResult (Unit {0})
for_each check [] = ok tt
for_each check (x ∷ xs) = let rest = for_each check xs in check x >>= λ _. rest

-- A chain of results that ends well ended well at each link.
pub bind-ok {ℓ κ} :
    {A : Type ℓ} {B : Type κ} (m : AppResult A) (f : A → AppResult B) (b : B)
    → (m >>= f) ≡ ok b
    → (a : A) × ((m ≡ ok a) × (f a ≡ ok b))
bind-ok (ok a) f b h = (a, (refl, h))
bind-ok (err e) f b h = ground arith
