-- ===== src/Adbc.antt =====
-- adbc.h and the error-propagation macros of c/driver/sqlite/utils.h: status codes, and a C
-- function's result as a value. `CHECK_NA`, `RAISE_ADBC` and an early `return status` are `>>=`.
use arrow_adbc.Base.{Option, none, some, Bool, true, false, ◌≡◌, ◌≢◌, refl}

-- `AdbcStatusCode`, the `ADBC_STATUS_*` constants from 0 on.
pub data StatusCode : Type 0 where
  ok unknown not_implemented not_found already_exists : StatusCode
  invalid_argument invalid_state invalid_data integrity internal : StatusCode
  io cancelled timeout unauthenticated unauthorized : StatusCode

-- What a function ends with: its effect, the status it returns instead of `ADBC_STATUS_OK`, or an
-- access that C leaves undefined (past an allocation, or through a pointer that is stale).
pub data Outcome {ℓ} (A : Type ℓ) : Type ℓ where
  done : A → Outcome A
  failed : StatusCode → Outcome A
  fault : Outcome A

infixl 5 ◌>>=◌
abbrev pub ◌>>=◌ {ℓ κ} : {A : Type ℓ} {B : Type κ} → Outcome A → (A → Outcome B) → Outcome B
done a >>= f = f a
failed s >>= f = failed s
fault >>= f = fault

-- `CHECK_NA(CODE, EXPR, error)`: a failed allocation in nanoarrow becomes the given status.
abbrev pub check_na {ℓ} : {A : Type ℓ} → StatusCode → Option A → Outcome A
check_na code none = failed code
check_na code (some a) = done a

-- Memory that is written only where the test holds.
abbrev pub access {ℓ} : {A : Type ℓ} → Bool → A → Outcome A
access true a = done a
access false a = fault

pub >>=-eq-done {ℓ κ} :
    {A : Type ℓ} {B : Type κ} (m : Outcome A) (f : A → Outcome B) {b : B}
    → (m >>= f) ≡ done b
    → (a : A) × (m ≡ done a) × (f a ≡ done b)
>>=-eq-done (done a) f h = (a, refl, h)
>>=-eq-done (failed s) f h = cc
>>=-eq-done fault f h = cc

-- What holds of the result, or of the status on an error. A fault ensures nothing.
pub data Ensures {A : Type 0} (Q : StatusCode → Type 0) (P : A → Type 0) : Outcome A → Type 0 where
  returns : {a : A} → P a → Ensures Q P (done a)
  raises : {s : StatusCode} → Q s → Ensures Q P (failed s)

module _ {A : Type 0} {Q : StatusCode → Type 0} {P : A → Type 0} where
  pub Ensures-bind :
      {B : Type 0} {R : B → Type 0} {m : Outcome A} (f : A → Outcome B)
      → Ensures Q P m
      → ((a : A) → P a → Ensures Q R (f a))
      → Ensures Q R (m >>= f)
  Ensures-bind f (Ensures.returns {a = a} h) k = k a h
  Ensures-bind f (Ensures.raises h) k = Ensures.raises h

  pub Ensures-mono :
      {R : A → Type 0} {m : Outcome A} → Ensures Q P m → ((a : A) → P a → R a) → Ensures Q R m
  Ensures-mono (Ensures.returns {a = a} h) k = Ensures.returns (k a h)
  Ensures-mono (Ensures.raises h) k = Ensures.raises h

  pub Ensures-ne-fault : {m : Outcome A} → Ensures Q P m → m ≢ fault
  Ensures-ne-fault (Ensures.returns h) e = cc
  Ensures-ne-fault (Ensures.raises h) e = cc
