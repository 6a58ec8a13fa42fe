-- ===== src/Engine/Rules.antt =====
-- What an action keeps, whichever way it ends: one rule for each way to build an action.
use v_kernelx.Base.{◌≡◌, refl, Option, none, some}
use v_kernelx.Engine.Monad.{
  KernelEngine, Outcome, done, failed, panicked, Action, pure, lift, or_fail, or_panic, reads,
  continue, ◌>>=◌,
}
use v_kernelx.Error.{KernelXError, Result, ok, err}
use v_kernelx.Storage.{MemoryStore}

-- `m` keeps `P` whether it returns, fails or panics.
pub record Keeps {A : Type 0} (P : KernelEngine → Type 0) (m : Action A) : Type 0 where
  pub at : (k : KernelEngine) → P k → P (m k).1

module _ {A : Type 0} {P : KernelEngine → Type 0} where
  pub Keeps-pure : (a : A) → Keeps P (pure a)
  Keeps-pure a = record { at = λ k h. h }

  pub Keeps-lift : (r : Result KernelXError A) → Keeps P (lift r)
  Keeps-lift (ok a) = record { at = λ k h. h }
  Keeps-lift (err e) = record { at = λ k h. h }

  pub Keeps-or_fail : (e : KernelXError) (o : Option A) → Keeps P (or_fail e o)
  Keeps-or_fail e none = record { at = λ k h. h }
  Keeps-or_fail e (some a) = record { at = λ k h. h }

  pub Keeps-or_panic : (o : Option A) → Keeps P (or_panic o)
  Keeps-or_panic none = record { at = λ k h. h }
  Keeps-or_panic (some a) = record { at = λ k h. h }

  pub Keeps-reads : (f : MemoryStore → A) → Keeps P (reads f)
  Keeps-reads f = record { at = λ k h. h }

  -- A read that may fail.
  pub Keeps-lift_at : (f : KernelEngine → Result KernelXError A) → Keeps P (λ k. lift (f k) k)
  Keeps-lift_at f = record { at = λ k h. (Keeps-lift (f k)).at k h }

module _ {A B : Type 0} {P : KernelEngine → Type 0} where
  Keeps-continue :
      (r : Outcome A) (f : A → Action B)
      → ((a : A) → Keeps P (f a))
      → (k : KernelEngine) → P k
      → P (continue r f k).1
  Keeps-continue (done a) f kf k h = (kf a).at k h
  Keeps-continue (failed e) f kf k h = h
  Keeps-continue panicked f kf k h = h

  pub Keeps-bind :
      (m : Action A) (f : A → Action B) → Keeps P m → ((a : A) → Keeps P (f a)) → Keeps P (m >>= f)
  unfolding ◌>>=◌
  Keeps-bind m f km kf = record {
    at = λ k h. let (r, k') = m k in Keeps-continue r f kf k' (km.at k h);
  }

  -- The rest may use that the result was no error.
  pub Keeps-bind-lift :
      (r : Result KernelXError A) (f : A → Action B)
      → ((a : A) → r ≡ ok a → Keeps P (f a))
      → Keeps P (lift r >>= f)
  unfolding ◌>>=◌
  Keeps-bind-lift (ok a) f kf = kf a refl
  Keeps-bind-lift (err e) f kf = record { at = λ k h. h }
