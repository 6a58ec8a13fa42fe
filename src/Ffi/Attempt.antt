-- ===== src/Ffi/Attempt.antt =====
-- src/ffi.rs: functions that return `Result<_, String>` over the inner state or the handle, and `?`.
use v_kernelx.Base.{Option, none, some}
use v_kernelx.Base.Text.{Str}
use v_kernelx.Engine.Monad.{Action, Outcome, done, failed, panicked}
use v_kernelx.Error.{Result, ok, err, display}
use v_kernelx.Ffi.Handle.{KernelInner, KernelHandle, Ended, returned, stuck, aborted}

abbrev pub Attempt : Type 0 → Type 0 → Type 0
Attempt S A = S → Ended (Result Str A) × S

abbrev pub resume : {S A B : Type 0} → Ended (Result Str A) → (A → Attempt S B) → Attempt S B
resume (returned (ok a)) f s = f a s
resume (returned (err e)) f s = (returned (err e), s)
resume stuck f s = (stuck, s)
resume aborted f s = (aborted, s)

infixl 5 ◌>>=◌ ◌>>◌
unfoldable pub ◌>>=◌ : {S A B : Type 0} → Attempt S A → (A → Attempt S B) → Attempt S B
◌>>=◌ m f s = let (r, s') = m s in resume r f s'

abbrev pub ◌>>◌ : {S A B : Type 0} → Attempt S A → Attempt S B → Attempt S B
m >> n = m >>= λ _. n

module _ {S A : Type 0} where
  abbrev pub pure : A → Attempt S A
  pure a s = (returned (ok a), s)

  abbrev pub attempt : Result Str A → Attempt S A
  attempt r s = (returned r, s)

  -- A value of the `json!` macro, which panics on a number that it cannot hold.
  abbrev pub or_abort : Option A → Attempt S A
  or_abort none s = (aborted, s)
  or_abort (some a) s = (returned (ok a), s)

  -- A loop that does not end is `none`.
  abbrev pub or_stuck : Option (Result Str A) → Attempt S A
  or_stuck none s = (stuck, s)
  or_stuck (some r) s = (returned r, s)

  abbrev pub inspect : (S → Attempt S A) → Attempt S A
  inspect f s = f s s

-- `map_err(|e| format!("{e}"))`
abbrev pub shown : {A : Type 0} → Outcome A → Ended (Result Str A)
shown (done a) = returned (ok a)
shown (failed e) = returned (err (display e))
shown panicked = aborted

-- A call of a method of the engine.
unfoldable pub on_engine : {A : Type 0} → Action A → Attempt KernelInner A
on_engine m inner = let (r, engine) = m inner.engine in (shown r, record inner { engine = engine })

-- What is done to `&mut inner` is done under the guard.
unfoldable pub on_inner : {A : Type 0} → Attempt KernelInner A → Attempt KernelHandle A
on_inner m h = let (r, inner) = m h.inner in (r, record h { inner = inner })
