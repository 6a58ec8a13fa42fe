-- ===== src/Ffi/Locking.antt =====
-- What the guard that is still alive does to the calls that write the last error.
use v_kernelx.Base.{◌≡◌, refl, true, Option, none, some, Bool-cases, inl, inr}
use v_kernelx.Base.Text.{Str}
use v_kernelx.Error.{Result, ok, err}
use v_kernelx.External.{External, Value}
use v_kernelx.Ffi.Attempt.{Attempt, on_inner}
use v_kernelx.Ffi.Entries.{report, answer, guarded}
use v_kernelx.Ffi.Handle.{
  KernelInner, KernelHandle, Ended, returned, stuck, aborted, Act, under_lock, write_last_error,
  set_last_error, clear_last_error, proceed, ◌>>=◌,
}

-- A call that does not return.
abbrev pub IsLost : {A : Type 0} → Ended A → Type 0
IsLost (returned a) = ⊥
IsLost stuck = Unit
IsLost aborted = Unit

-- What is lost under a guard is lost.
abbrev pub LostUnder : {A : Type 0} → Act KernelHandle A → Type 0
LostUnder m = (h : KernelHandle) → h.held ≡ true → IsLost (m h).0

pub write_last_error-stuck :
    (message : Option Str) (h : KernelHandle)
    → h.held ≡ true
    → write_last_error message h ≡ (stuck, h)
unfolding write_last_error
write_last_error-stuck message h held = rw held

pub after_write-LostUnder :
    {A : Type 0} (message : Option Str) (f : Unit {0} → Act KernelHandle A)
    → LostUnder (write_last_error message >>= f)
unfolding ◌>>=◌
after_write-LostUnder message f h held = rw (write_last_error-stuck message h held) tt

module _ (ext : External) where
  pub report-LostUnder : (e : Str) → LostUnder (report ext e)
  unfolding report set_last_error
  report-LostUnder e = after_write-LostUnder (some e) _

  pub answer-LostUnder : (r : Result Str Value) → LostUnder (answer ext r)
  unfolding clear_last_error
  answer-LostUnder (ok v) = after_write-LostUnder none _
  answer-LostUnder (err e) = report-LostUnder e

-- The work under the guard leaves the guard as it is.
pub on_inner-LostUnder :
    {A : Type 0} (m : Attempt KernelInner A) (f : Result Str A → Act KernelHandle Str)
    → ((r : Result Str A) → LostUnder (f r))
    → LostUnder (on_inner m >>= f)
unfolding ◌>>=◌ on_inner
on_inner-LostUnder m f lost h held = by_end (m h.inner).0
  where
    by_end :
        (r : Ended (Result Str _)) → IsLost (proceed r f (record h { inner = (m h.inner).1 })).0
    by_end (returned r) = lost r _ held
    by_end stuck = tt
    by_end aborted = tt

pub guarded-IsLost :
    (ext : External) (body : Act KernelHandle Str) (h : KernelHandle)
    → LostUnder body
    → IsLost (guarded ext body h).0
unfolding guarded under_lock
guarded-IsLost ext body h lost = elim (Bool-cases h.held) [
  | inl held ↦ rw held tt
  | inr free ↦ elim (Bool-cases h.poisoned) [
    | inl poisoned ↦ rw (free, poisoned) (report-LostUnder ext _ _ refl)
    | inr sound ↦ rw (free, sound) (lost _ refl)
  ]
]
