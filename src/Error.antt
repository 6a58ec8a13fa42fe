-- ===== src/Error.antt =====
-- src/error.rs: the kernel's errors, and the results of fallible code.
use v_kernelx.Base.{◌++◌, ◌≡◌, refl, ◌⊎◌, inl, inr, Bool, true, false}
use v_kernelx.Base.Text.{Str, str}

pub data KernelXError : Type 0 where
  zero_normalization not_certified : KernelXError
  invalid_state : Str → KernelXError
  signature wallet_not_found vector_not_found insufficient_balance dimension_mismatch : KernelXError
  rejected storage : Str → KernelXError
  origin_rejected : KernelXError
  settlement_rejected replay snapshot serialization validation : Str → KernelXError

-- `to_string`
unfoldable pub display : KernelXError → Str
display KernelXError.zero_normalization = str "zero vector cannot be normalized"
display KernelXError.not_certified = str "vector not certified"
display (invalid_state e) = str "invalid vector state: " ++ e
display KernelXError.signature = str "signature verification failed"
display KernelXError.wallet_not_found = str "wallet not found"
display KernelXError.vector_not_found = str "vector not found"
display KernelXError.insufficient_balance = str "insufficient balance"
display KernelXError.dimension_mismatch = str "dimension mismatch"
display (rejected e) = str "operation rejected: " ++ e
display (storage e) = str "storage error: " ++ e
display KernelXError.origin_rejected = str "origin proof rejected"
display (settlement_rejected e) = str "settlement rejected: " ++ e
display (replay e) = str "replay failed: " ++ e
display (snapshot e) = str "snapshot error: " ++ e
display (serialization e) = str "serialization error: " ++ e
display (validation e) = str "validation error: " ++ e

-- `Result<A, E>`; the error type is `KernelXError`, or `String` in dag.rs and replay.rs.
pub data Result {ℓ κ} (E : Type κ) (A : Type ℓ) : Type (ℓ ⊔ κ) where
  ok : A → Result E A
  err : E → Result E A

infixl 5 ◌>>=◌ ◌>>◌
-- `?`
abbrev pub ◌>>=◌ {ℓ κ μ} :
    {E : Type μ} {A : Type ℓ} {B : Type κ} → Result E A → (A → Result E B) → Result E B
ok a >>= f = f a
err e >>= f = err e

abbrev pub ◌>>◌ {ℓ κ} : {E : Type κ} {B : Type ℓ} → Result E (Unit {0}) → Result E B → Result E B
m >> k = m >>= λ _. k

-- `if condition { return Err(e) }`
abbrev pub fail_if {ℓ} : {E : Type ℓ} → Bool → E → Result E (Unit {0})
fail_if true e = err e
fail_if false e = ok tt

-- To split on a computed result and keep the equation.
pub Result-cases {ℓ κ} :
    {E : Type κ} {A : Type ℓ} (r : Result E A) → ((a : A) × (r ≡ ok a)) ⊎ ((e : E) × (r ≡ err e))
Result-cases (ok a) = inl (a, refl)
Result-cases (err e) = inr (e, refl)

-- Both parts of a sequence that went through went through.
pub bind-eq-ok {ℓ κ μ} :
    {E : Type μ} {A : Type ℓ} {B : Type κ} (r : Result E A) (f : A → Result E B) (b : B)
    → (r >>= f) ≡ ok b
    → (a : A) × (r ≡ ok a) × (f a ≡ ok b)
bind-eq-ok (ok a) f b h = (a, refl, h)
bind-eq-ok (err e) f b h = absurd (cc (h))
