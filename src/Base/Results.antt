-- ===== src/Base/Results.antt =====
-- exceptions/*.ts and src/constants/authorization.constants.ts: what the code throws. A stateful
-- method is a function from the state to its result and the state it leaves, also when it throws.
use Prim.Native.Nat.{ℕ}
use Prim.Native.String.{String}
use mathlib.Core.List.{List}
use mathlib.Core.Path.{◌≡◌, refl}
use mathlib.Core.Logic.{◌⊎◌, inl, inr}
use native.Mathlib.Omega.{arith}
use mathlib.Core.Option.{Option}

-- The values of `AUTH_ERROR_REASON`.
pub data AuthErrorReason : Type 0 where
  incorrect_credentials invalid_or_expired_refresh_token invalid_or_expired_auth_token :
      AuthErrorReason
  password_change_required login_required account_not_verified : AuthErrorReason

pub data Exception : Type 0 where
  error : Exception  -- a plain `Error`
  type_error : Exception  -- a property read of `undefined`
  authentication_error : AuthErrorReason → Exception
  authorization_error : List String → List String → Exception
  forbidden_error : Exception
  not_found_exception : Exception
  entity_not_found_error : Exception  -- of typeorm
  bad_request_exception : Exception
  validation_exception : Exception
  failed_dependency_exception : Exception
  internal_server_exception : Exception
  external_service_error : Option ℕ → Exception  -- the status code of the service's answer
  axios_error : Option ℕ → Exception  -- the status of `response`, if there was one
  job_validation_exception : Exception

pub data Result {ℓ} (A : Type ℓ) : Type ℓ where
  ok : A → Result A
  throw : Exception → Result A

abbrev pub Prog {ℓ κ} : Type ℓ → Type κ → Type (ℓ ⊔ κ)
Prog S A = S → Result A × S

infixl 5 ◌>>=◌ ◌>>◌
abbrev pub ◌>>=◌ : {S A B : Type 0} → Prog S A → (A → Prog S B) → Prog S B
◌>>=◌ m f s = let (r, t) = m s in elim r [ ok a ↦ f a t | throw e ↦ (throw e, t) ]

abbrev pub ◌>>◌ : {S A B : Type 0} → Prog S A → Prog S B → Prog S B
m >> k = m >>= λ _. k

abbrev pub pure : {S A : Type 0} → A → Prog S A
pure a s = (ok a, s)

abbrev pub fail : {S A : Type 0} → Exception → Prog S A
fail e s = (throw e, s)

abbrev pub modify : {S : Type 0} → (S → S) → Prog S (Unit {0})
modify f s = (ok tt, f s)

abbrev pub gets : {S A : Type 0} → (S → A) → Prog S A
gets f s = (ok (f s), s)

-- A promise that nothing awaits, or a handler that catches and logs: the state it leaves.
abbrev pub detached : {S A : Type 0} → Prog S A → S → S
detached m s = (m s).1

-- Steps of a program whose first part is known to return, or to throw.
pub bind-eq_ok :
    {S A B : Type 0} (m : Prog S A) (f : A → Prog S B) {s t : S} {a : A}
    → m s ≡ (ok a, t)
    → (m >>= f) s ≡ f a t
bind-eq_ok m f e = ground arith

pub bind-eq_throw :
    {S A B : Type 0} (m : Prog S A) (f : A → Prog S B) {s t : S} {e : Exception}
    → m s ≡ (throw e, t)
    → (m >>= f) s ≡ (throw e, t)
bind-eq_throw m f e = ground arith

pub Result-cases :
    {A : Type 0} (r : Result A) → ((a : A) × (r ≡ ok a)) ⊎ ((e : Exception) × (r ≡ throw e))
Result-cases (ok a) = inl (a, refl)
Result-cases (throw e) = inr (e, refl)
