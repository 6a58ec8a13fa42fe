-- ===== src/Ffi/Steps.antt =====
-- What a call does to the engine, as the calls of the engine's methods that it makes: one rule for
-- each way to build a call.
use v_kernelx.Base.{
  ◌≡◌, refl, ◌∙◌, Bool, true, false, Option, none, some, Bool-cases, inl, inr, List, [], ◌∷◌,
  if◌then◌else◌,
}
use v_kernelx.Base.Text.{Str}
use v_kernelx.Engine.Induction.{Command, run, step}
use v_kernelx.Engine.Monad.{KernelEngine, Action}
use v_kernelx.Error.{Result, ok, err}
use v_kernelx.External.{External}
use v_kernelx.Ffi.Attempt
use v_kernelx.Ffi.Attempt.{Attempt, inspect, attempt, or_stuck, on_inner, on_engine}
use v_kernelx.Ffi.Handle
use v_kernelx.Ffi.Handle.{
  KernelInner, KernelHandle, Ended, returned, stuck, aborted, Act, under_lock, write_last_error,
}

-- `m` leaves the engine as it is, however it ends.
pub record Silent {S X : Type 0} (engine_of : S → KernelEngine) (m : S → Ended X × S) : Type 0 where
  pub at : (s : S) → engine_of (m s).1 ≡ engine_of s

-- `m` makes the calls `c`, one behind the other, however it ends.
pub record Makes {S X : Type 0} (ext : External) (engine_of : S → KernelEngine)
    (m : S → Ended X × S) (c : S → List Command) : Type 0 where
  pub at : (s : S) → engine_of (m s).1 ≡ run ext (c s) (engine_of s)

module _ {S : Type 0} (engine_of : S → KernelEngine) where
  pub Silent-end : {X : Type 0} (r : Ended X) → Silent engine_of (λ s. (r, s))
  Silent-end r = record { at = λ s. refl }

  pub Silent-inspect :
      {A : Type 0} (f : S → Attempt S A)
      → ((s : S) → Silent engine_of (f s))
      → Silent engine_of (inspect f)
  Silent-inspect f all = record { at = λ s. (all s).at s }

  pub Silent-or_abort : {A : Type 0} (o : Option A) → Silent engine_of (Attempt.or_abort {S = S} o)
  Silent-or_abort none = Silent-end aborted
  Silent-or_abort (some a) = Silent-end (returned (ok a))

  pub Silent-or_abort_act :
      {A : Type 0} (o : Option A) → Silent engine_of (Handle.or_abort {S = S} o)
  Silent-or_abort_act none = Silent-end aborted
  Silent-or_abort_act (some a) = Silent-end (returned a)

  pub Silent-or_stuck :
      {A : Type 0} (o : Option (Result Str A)) → Silent engine_of (or_stuck {S = S} o)
  Silent-or_stuck none = Silent-end stuck
  Silent-or_stuck (some r) = Silent-end (returned r)

  Silent-resume :
      {A B : Type 0} (r : Ended (Result Str A)) (f : A → Attempt S B)
      → ((a : A) → Silent engine_of (f a))
      → Silent engine_of (Attempt.resume r f)
  Silent-resume (returned (ok a)) f all = all a
  Silent-resume (returned (err e)) f all = Silent-end (returned (err e))
  Silent-resume stuck f all = Silent-end stuck
  Silent-resume aborted f all = Silent-end aborted

  pub Silent-bind :
      {A B : Type 0} (m : Attempt S A) (f : A → Attempt S B)
      → Silent engine_of m
      → ((a : A) → Silent engine_of (f a))
      → Silent engine_of (Attempt.◌>>=◌ m f)
  unfolding Attempt.◌>>=◌
  Silent-bind m f first all = record {
    at = λ s. (Silent-resume (m s).0 f all).at (m s).1 ∙ first.at s;
  }

  Silent-proceed :
      {A B : Type 0} (r : Ended A) (f : A → Act S B)
      → ((a : A) → Silent engine_of (f a))
      → Silent engine_of (Handle.proceed r f)
  Silent-proceed (returned a) f all = all a
  Silent-proceed stuck f all = Silent-end stuck
  Silent-proceed aborted f all = Silent-end aborted

  -- The same for calls that do not return a `Result`.
  pub Silent-then :
      {A B : Type 0} (m : Act S A) (f : A → Act S B)
      → Silent engine_of m
      → ((a : A) → Silent engine_of (f a))
      → Silent engine_of (Handle.◌>>=◌ m f)
  unfolding Handle.◌>>=◌
  Silent-then m f first all = record {
    at = λ s. (Silent-proceed (m s).0 f all).at (m s).1 ∙ first.at s;
  }

  pub Silent-if :
      {X : Type 0} (b : Bool) (m n : S → Ended X × S)
      → Silent engine_of m
      → Silent engine_of n
      → Silent engine_of (if b then m else n)
  Silent-if true m n sm sn = sm
  Silent-if false m n sm sn = sn

module _ {S : Type 0} (ext : External) (engine_of : S → KernelEngine) where
  pub Makes-Silent :
      {X : Type 0} (m : S → Ended X × S) → Silent engine_of m → Makes ext engine_of m (λ s. [])
  unfolding run
  Makes-Silent m sm = record { at = λ s. sm.at s }

  pub Makes-inspect :
      {A : Type 0} (f : S → Attempt S A) (c : S → List Command)
      → ((s : S) → Makes ext engine_of (f s) c)
      → Makes ext engine_of (inspect f) c
  Makes-inspect f c all = record { at = λ s. (all s).at s }

  -- What follows the calls and makes none.
  pub Makes-bind :
      {A B : Type 0} (m : Attempt S A) (f : A → Attempt S B) (c : S → List Command)
      → Makes ext engine_of m c
      → ((a : A) → Silent engine_of (f a))
      → Makes ext engine_of (Attempt.◌>>=◌ m f) c
  unfolding Attempt.◌>>=◌
  Makes-bind m f c first all = record {
    at = λ s. (Silent-resume engine_of (m s).0 f all).at (m s).1 ∙ first.at s;
  }

  pub Makes-then :
      {A B : Type 0} (m : Act S A) (f : A → Act S B) (c : S → List Command)
      → Makes ext engine_of m c
      → ((a : A) → Silent engine_of (f a))
      → Makes ext engine_of (Handle.◌>>=◌ m f) c
  unfolding Handle.◌>>=◌
  Makes-then m f c first all = record {
    at = λ s. (Silent-proceed engine_of (m s).0 f all).at (m s).1 ∙ first.at s;
  }

-- The engine of the inner state, and of a handle.
abbrev pub inner_engine : KernelInner → KernelEngine
inner_engine inner = inner.engine

abbrev pub handle_engine : KernelHandle → KernelEngine
handle_engine h = h.inner.engine

pub Silent-on_inner :
    {A : Type 0} (m : Attempt KernelInner A)
    → Silent inner_engine m
    → Silent handle_engine (on_inner m)
unfolding on_inner
Silent-on_inner m sm = record { at = λ h. sm.at h.inner }

pub Silent-write_last_error :
    (message : Option Str) → Silent handle_engine (write_last_error message)
unfolding write_last_error
Silent-write_last_error message = record {
  at = λ h. elim (Bool-cases h.held) [
    | inl held ↦ rw held refl
    | inr free ↦ elim (Bool-cases h.poisoned) [
      | inl poisoned ↦ rw (free, poisoned) refl
      | inr sound ↦ rw (free, sound) refl
    ]
  ];
}

released-engine :
    {A : Type 0} (k : KernelEngine) (r : Ended A) (h : KernelHandle)
    → handle_engine h ≡ k
    → handle_engine (Handle.released r h) ≡ k
released-engine k (returned a) h same = same
released-engine k stuck h same = same
released-engine k aborted h same = same

-- The calls for what has been read: none for an error.
abbrev pub from_result : {A : Type 0} → Result Str A → (A → List Command) → List Command
from_result (ok a) f = f a
from_result (err e) f = []

-- The calls of a body under the lock: none where the lock is not given or is poisoned.
abbrev pub locked : List Command → KernelHandle → List Command
locked cs h = if h.held then [] else if h.poisoned then [] else cs

module _ (ext : External) where
  -- One call of a method.
  pub Makes-on_engine :
      {A : Type 0} (m : Action A) (c : Command)
      → ((k : KernelEngine) → (m k).1 ≡ step ext c k)
      → Makes ext inner_engine (on_engine m) (λ inner. c ∷ [])
  unfolding on_engine run
  Makes-on_engine m c same = record { at = λ inner. same inner.engine }

  pub Makes-on_inner :
      {A : Type 0} (m : Attempt KernelInner A) (c : KernelInner → List Command)
      → Makes ext inner_engine m c
      → Makes ext handle_engine (on_inner m) (λ h. c h.inner)
  unfolding on_inner
  Makes-on_inner m c sm = record { at = λ h. sm.at h.inner }

  pub Makes-under_lock :
      {A : Type 0} (body poison : Act KernelHandle A) (c : KernelInner → List Command)
      → Makes ext handle_engine body (λ h. c h.inner)
      → Silent handle_engine poison
      → Makes ext handle_engine (under_lock body poison) (λ h. locked (c h.inner) h)
  unfolding under_lock run
  Makes-under_lock body poison c sb sp = record {
    at = λ h. elim (Bool-cases h.held) [
      | inl held ↦ rw held refl
      | inr free ↦ elim (Bool-cases h.poisoned) [
        | inl poisoned ↦ rw (free, poisoned) (sp.at _)
        | inr sound ↦ rw (free, sound) (released-engine _ _ _ (sb.at _))
      ]
    ];
  }

pub Silent-under_lock :
    {A : Type 0} (body poison : Act KernelHandle A)
    → Silent handle_engine body
    → Silent handle_engine poison
    → Silent handle_engine (under_lock body poison)
unfolding under_lock
Silent-under_lock body poison sb sp = record {
  at = λ h. elim (Bool-cases h.held) [
    | inl held ↦ rw held refl
    | inr free ↦ elim (Bool-cases h.poisoned) [
      | inl poisoned ↦ rw (free, poisoned) (sp.at _)
      | inr sound ↦ rw (free, sound) (released-engine _ _ _ (sb.at _))
    ]
  ];
}
