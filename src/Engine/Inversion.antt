-- ===== src/Engine/Inversion.antt =====
-- What is known of the parts of an action that returned.
use v_kernelx.Base.{◌≡◌, refl, ap}
use v_kernelx.Engine.Monad.{
  KernelEngine, Outcome, done, failed, panicked, Action, lift, stored, try_write, continue, ◌>>=◌,
}
use v_kernelx.Error.{KernelXError, Result, ok, err}
use v_kernelx.Storage.{MemoryStore}

module _ {A B : Type 0} where
  continue-done :
      (r : Outcome A) (f : A → Action B) (k k'' : KernelEngine) (b : B)
      → continue r f k ≡ (done b, k'')
      → (a : A) × (r ≡ done a) × (f a k ≡ (done b, k''))
  continue-done (done a) f k k'' b h = (a, refl, h)
  continue-done (failed e) f k k'' b h = absurd (cc (ap (λ p. p.0) h))
  continue-done panicked f k k'' b h = absurd (cc (ap (λ p. p.0) h))

  -- Both parts of a sequence returned.
  pub bind-done :
      (m : Action A) (f : A → Action B) (k k'' : KernelEngine) (b : B)
      → (m >>= f) k ≡ (done b, k'')
      → (a : A) × (m k ≡ (done a, (m k).1)) × (f a (m k).1 ≡ (done b, k''))
  unfolding ◌>>=◌
  bind-done m f k k'' b h =
      let (a, first, rest) = continue-done (m k).0 f (m k).1 k'' b h in
      (a, ap (λ r. (r, (m k).1)) first, rest)

module _ {A B : Type 0} where
  pub lift-done :
      (r : Result KernelXError A) (f : A → Action B) (k k'' : KernelEngine) (b : B)
      → (lift r >>= f) k ≡ (done b, k'')
      → (a : A) × (r ≡ ok a) × (f a k ≡ (done b, k''))
  unfolding ◌>>=◌
  lift-done (ok a) f k k'' b h = (a, refl, h)
  lift-done (err e) f k k'' b h = absurd (cc (ap (λ p. p.0) h))

module _ {A B : Type 0} where
  -- The same for a read that may fail.
  pub lift_at-done :
      (r : KernelEngine → Result KernelXError A) (f : A → Action B) (k k'' : KernelEngine) (b : B)
      → ((λ j. lift (r j) j) >>= f) k ≡ (done b, k'')
      → (a : A) × (r k ≡ ok a) × (f a k ≡ (done b, k''))
  unfolding ◌>>=◌
  lift_at-done r f k k'' b h = lift-done (r k) f k k'' b h

pub try_write-done :
    (f : MemoryStore → Result KernelXError MemoryStore) (k k'' : KernelEngine)
    → try_write f k ≡ (done tt, k'')
    → f k.store ≡ ok k''.store
try_write-done f k k'' h = by_result (f k.store) h
  where
    by_result :
        (r : Result KernelXError MemoryStore) → stored r k ≡ (done tt, k'') → r ≡ ok k''.store
    by_result (ok store) g = ap ok (ap (λ p. p.1.store) g)
    by_result (err e) g = absurd (cc (ap (λ p. p.0) g))

pub lift-returned :
    {A : Type 0} (r : Result KernelXError A) (k k'' : KernelEngine) (a : A)
    → lift r k ≡ (done a, k'')
    → (r ≡ ok a) × (k ≡ k'')
lift-returned (ok b) k k'' a h = (cc (ap (λ p. p.0) h), ap (λ p. p.1) h)
lift-returned (err e) k k'' a h = absurd (cc (ap (λ p. p.0) h))
