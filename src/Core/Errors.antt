-- ===== src/Core/Errors.antt =====
-- app/core/errors.py: the errors that an operation can raise; their messages are not modelled.
use range_apply.Common.{Bool, arith, false, refl, true, ◌≡◌}

-- `ValueError` and `RuntimeError` are Python's own.
pub data ServiceError : Type 0 where
  not_found conflict validation_failed value_error runtime_error : ServiceError

pub data Result {ℓ} (A : Type ℓ) : Type ℓ where
  ok : A → Result A
  raise : ServiceError → Result A

infixl 5 ◌>>=◌ ◌>>◌
abbrev pub ◌>>=◌ {ℓ κ} : {A : Type ℓ} {B : Type κ} → Result A → (A → Result B) → Result B
Result.ok a >>= f = f a
Result.raise e >>= f = Result.raise e

abbrev pub ◌>>◌ {ℓ} : {B : Type ℓ} → Result (Unit {0}) → Result B → Result B
m >> k = m >>= λ _. k

-- `if bad: raise error`
abbrev pub refuse_if : Bool → ServiceError → Result (Unit {0})
refuse_if true e = Result.raise e
refuse_if false e = Result.ok tt

-- A chain that does not raise has a first result that does not raise.
pub bind-ok {ℓ κ} :
    {A : Type ℓ} {B : Type κ} (m : Result A) (f : A → Result B) {b : B}
    → (m >>= f) ≡ Result.ok b
    → (a : A) × ((m ≡ Result.ok a) × (f a ≡ Result.ok b))
bind-ok (Result.ok a) f h = (a, (refl, h))
bind-ok (Result.raise e) f h = absurd (ground (arith, h))

-- The call does not raise.
abbrev pub is_ok {ℓ} : {A : Type ℓ} → Result A → Bool
is_ok (Result.ok a) = true
is_ok (Result.raise e) = false

-- A chain of calls that do not raise does not raise.
pub chain_is_ok {ℓ κ} :
    {A : Type ℓ} {B : Type κ} (m : Result A) (f : A → Result B)
    → is_ok m ≡ true
    → ((a : A) → is_ok (f a) ≡ true)
    → is_ok (m >>= f) ≡ true
chain_is_ok (Result.ok a) f h g = g a
chain_is_ok (Result.raise e) f h g = absurd (ground (arith, h))
