-- ===== src/Status.antt =====
-- internal/statuscode/statuscode.go: the error codes, and results that may fail.
-- The message of an error is not modelled; its code is. A plain Go error is `uncoded`.
use orisun.Base.{Bool, true, false, ◌≡◌, refl, ◌⊎◌, inl, inr, Option, none, some}

pub data Code : Type 0 where
  unknown canceled invalid_argument deadline_exceeded not_found already_exists : Code
  permission_denied unauthenticated unavailable unimplemented failed_precondition internal : Code

pub data Error : Type 0 where
  coded : Code → Error
  uncoded : Error

-- `FromError`: the code, if the error carries one.
unfoldable pub from_error : Error → Option Code
from_error (coded c) = some c
from_error uncoded = none

-- `CodeOf` of a non-nil error.
unfoldable pub code_of : Error → Code
code_of (coded c) = c
code_of uncoded = unknown

pub data Result {ℓ} (A : Type ℓ) : Type ℓ where
  ok : A → Result A
  err : Error → Result A

infixl 5 ◌>>=◌ ◌>>◌
abbrev pub ◌>>=◌ {ℓ κ} : {A : Type ℓ} {B : Type κ} → Result A → (A → Result B) → Result B
ok value >>= next = next value
err error >>= next = err error

abbrev pub ◌>>◌ {ℓ} : {B : Type ℓ} → Result (Unit {0}) → Result B → Result B
m >> k = m >>= λ _. k

-- The two ways in which `ctx.Err()` can be set.
pub data ContextError : Type 0 where
  context_canceled context_deadline other_cause : ContextError

-- `FromContextError`
unfoldable pub from_context_error : ContextError → Error
from_context_error context_canceled = coded canceled
from_context_error context_deadline = coded deadline_exceeded
from_context_error other_cause = coded unknown

pub Result-cases {ℓ} :
    {A : Type ℓ} (r : Result A) → ((a : A) × (r ≡ ok a)) ⊎ ((e : Error) × (r ≡ err e))
Result-cases (ok a) = inl (a, refl)
Result-cases (err e) = inr (e, refl)

abbrev pub is_ok {ℓ} : {A : Type ℓ} → Result A → Bool
is_ok (ok a) = true
is_ok (err e) = false
