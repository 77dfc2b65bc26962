-- ===== src/Common/Errors.antt =====
-- `SchedulerError` (codex_work_scheduler/errors.py) as a value: an operation returns its result or
-- the error that it raises. The message, the `retryable` flag and the details are texts for the
-- operator, on which no code branches, and are left out.
use Prim.Native.String.{String}
use mathlib.Core.Path.{◌≡◌, refl}
use mathlib.Core.Bool.{Bool, true, false}

-- The code of the exception that left a call, or the value of the call.
pub data Result {ℓ} (A : Type ℓ) : Type ℓ where
  err : (code : String) → Result A
  ok : (value : A) → Result A

module _ {ℓ} {A : Type ℓ} where
  abbrev pub is_ok : Result A → Bool
  is_ok (err code) = false
  is_ok (ok value) = true

-- `if not test: raise SchedulerError(code)`
abbrev pub guard : Bool → String → Result (Unit {0})
guard false code = err code
guard true code = ok tt

module _ {ℓ κ} {A : Type ℓ} {B : Type κ} where
  infixl 5 ◌>>=◌
  -- What follows a call runs on its value; an exception passes it by.
  abbrev pub ◌>>=◌ : Result A → (A → Result B) → Result B
  err code >>= next = err code
  ok value >>= next = next value

  pub >>=-eq-ok :
      (call : Result A) (next : A → Result B) {b : B}
      → (call >>= next) ≡ ok b
      → (value : A) × (call ≡ ok value) × (next value ≡ ok b)
  >>=-eq-ok (err code) next e = cc
  >>=-eq-ok (ok value) next e = (value, refl, e)

module _ {κ} {B : Type κ} where
  infixl 5 ◌>>◌
  abbrev pub ◌>>◌ : Result (Unit {0}) → Result B → Result B
  call >> next = call >>= λ _. next

pub guard-eq-ok : (test : Bool) (code : String) → guard test code ≡ ok tt → test ≡ true
guard-eq-ok false code e = cc
guard-eq-ok true code e = refl
