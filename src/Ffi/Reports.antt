-- ===== src/Ffi/Reports.antt =====
-- What a submission returns, where it returns.
use v_kernelx.Base.{
  ◌≡◌, refl, sym, ◌∙◌, ap, true, false, none, some, arith, ℕ, Bool-cases, inl, inr,
}
use v_kernelx.Base.Text.{Str}
use v_kernelx.Error.{Result, ok, err}
use v_kernelx.External.{External, Value}
use v_kernelx.Ffi.Attempt
use v_kernelx.Ffi.Attempt.{Attempt, on_inner, resume}
use v_kernelx.Ffi.Entries.{report, or_report, printed, kernel_submit_event}
use v_kernelx.Ffi.Execution.{acknowledge, submitted, execute_validated, execute_submit_request}
use v_kernelx.Ffi.Handle.{
  KernelInner, KernelHandle, Ended, returned, stuck, aborted, Act, CStr, from_c_string, under_lock,
  write_last_error, set_last_error, clear_last_error, proceed, released, ◌>>=◌, err_json,
  kernel_last_error, to_c_string,
}
use v_kernelx.Ffi.Locking.{IsLost, write_last_error-stuck}
use v_kernelx.Ffi.Requests.{Serde, SubmitEventRequest, parse_submit_request}

-- No result: the call is lost, or refuses with nothing but the inner state changed.
abbrev Refuses : {A : Type 0} → KernelHandle → Ended (Result Str A) × KernelHandle → Type 0
Refuses h (returned (ok a), h') = ⊥
Refuses h (returned (err e), h') = (inner : KernelInner) × (h' ≡ record h { inner = inner })
Refuses h (stuck, h') = Unit
Refuses h (aborted, h') = Unit

-- The answer is an error, which is then the last error.
abbrev pub Reports : External → Str → KernelHandle → Type 0
Reports ext text h =
    (e : Str) × (text ≡ err_json ext e)
    × (kernel_last_error (some h) ≡ returned (some (to_c_string e)))

module _ (ext : External) where
  report-Reports :
      (e text : Str) (h : KernelHandle)
      → h.poisoned ≡ false
      → (report ext e h).0 ≡ returned text
      → Reports ext text (report ext e h).1
  unfolding report set_last_error write_last_error ◌>>=◌ kernel_last_error
  report-Reports e text h sound ends = elim (Bool-cases h.held) [
    | inl held ↦ absurd (ground arith)
    | inr free ↦ (e, ground arith, rw (free, sound) refl)
  ]

lost-Refuses :
    {A : Type 0} (h : KernelHandle) (r : Ended (Result Str A) × KernelHandle)
    → IsLost (r.0)
    → Refuses h r
lost-Refuses h (returned a, h') l = elim l [ ]
lost-Refuses h (stuck, h') l = tt
lost-Refuses h (aborted, h') l = tt

-- Where the call returns, its answer is reported.
abbrev ReportsAll : External → Ended Str × KernelHandle → Type 0
ReportsAll ext r = (text : Str) → r.0 ≡ returned text → Reports ext text (r.1)

or_report-ReportsAll :
    {A : Type 0} (ext : External) (r : Result Str A) (k : A → Act KernelHandle Str)
    (h : KernelHandle)
    → h.poisoned ≡ false
    → ((a : A) → ReportsAll ext (k a h))
    → ReportsAll ext (or_report ext r k h)
or_report-ReportsAll ext (ok a) k h sound all text ends = all a text ends
or_report-ReportsAll ext (err e) k h sound all text ends = report-Reports ext e text h sound ends

-- Work under the guard that is not accepted afterwards.
pub on_inner-Refuses :
    {A B : Type 0} (m : Attempt KernelInner A) (f : A → Attempt KernelHandle B)
    → ((a : A) (h : KernelHandle) → h.held ≡ true → IsLost (f a h).0)
    → (h : KernelHandle) → h.held ≡ true
    → Refuses h (Attempt.◌>>=◌ (on_inner m) f h)
unfolding Attempt.◌>>=◌ on_inner
on_inner-Refuses m f lost h held = by_end (m h.inner).0
  where
    by_end :
        (r : Ended (Result Str _)) → Refuses h (resume r f (record h { inner = (m h.inner).1 }))
    by_end (returned (ok a)) = lost-Refuses h _ (lost a _ held)
    by_end (returned (err e)) = ((m h.inner).1, refl)
    by_end stuck = tt
    by_end aborted = tt

-- A lock that is free.
under_lock-free :
    {A : Type 0} (body poison : Act KernelHandle A) (h : KernelHandle)
    → h.held ≡ false
    → h.poisoned ≡ false
    → under_lock body poison h ≡ (
      (body (record h { held = true })).0,
      released (body (record h { held = true })).0 (body (record h { held = true })).1,
    )
unfolding under_lock
under_lock-free body poison h free sound = rw (free, sound) refl

released-refused :
    (h : KernelHandle) (r : Ended (Result Str Value) × KernelHandle) (s : Result Str Value)
    → Refuses (record h { held = true }) r
    → r.0 ≡ returned s
    → (e : Str) × (s ≡ err e) × ((released (r.0) (r.1)).poisoned ≡ h.poisoned)
released-refused h (returned (ok a), h') s refused ends = elim refused [ ]
released-refused h (returned (err e), h') s (inner, same) ends = (e, cc, ap (λ g. g.poisoned) same)
released-refused h (stuck, h') s refused ends = absurd (cc ends)
released-refused h (aborted, h') s refused ends = absurd (cc ends)

module _ (ext : External) (serde : Serde) (now : ℕ → ℕ) where
  acknowledge-IsLost :
      (request : SubmitEventRequest) (v : Value) (h : KernelHandle)
      → h.held ≡ true
      → IsLost (acknowledge ext serde now request v h).0
  unfolding acknowledge Attempt.◌>>=◌ ◌>>=◌ clear_last_error
  acknowledge-IsLost request v h held = rw (write_last_error-stuck none h held) tt

  submitted-Refuses :
      (request : SubmitEventRequest) (h : KernelHandle)
      → h.held ≡ true
      → Refuses h (submitted ext serde now request h)
  unfolding submitted
  submitted-Refuses request h held =
      on_inner-Refuses (execute_validated ext serde now request) (acknowledge ext serde now request)
        (acknowledge-IsLost request) h held

  -- A submission that returns has been refused.
  execute_submit_request-refused :
      (request : SubmitEventRequest) (h : KernelHandle) (r : Result Str Value)
      → h.poisoned ≡ false
      → (execute_submit_request ext serde now request h).0 ≡ returned r
      → (e : Str) × (r ≡ err e)
        × ((execute_submit_request ext serde now request h).1.poisoned ≡ false)
  unfolding execute_submit_request
  execute_submit_request-refused request h r sound ends = elim (Bool-cases h.held) [
    | inl held ↦ absurd (by_held held)
    | inr free ↦
        let same = under_lock-free (submitted ext serde now request) _ h free sound in
        let (e, refused, clean) =
          released-refused h _ r (submitted-Refuses request _ refl)
            (sym (ap (λ p. p.0) same) ∙ ends) in
        (e, refused, ap (λ p. p.1.poisoned) same ∙ clean ∙ sound)
  ]
    where
      by_held : h.held ≡ true → ⊥
      by_held held = unfold under_lock in ground arith

  -- No submission returns a result, whatever its handle.
  pub execute_submit_request-no_result :
      (request : SubmitEventRequest) (h : KernelHandle) (v : Value)
      → ¬ ((execute_submit_request ext serde now request h).0 ≡ returned (ok v))
  unfolding execute_submit_request under_lock
  execute_submit_request-no_result request h v ends = elim (Bool-cases h.poisoned) [
    | inl poisoned ↦ by_poison poisoned
    | inr sound ↦ absurd (cc ((execute_submit_request-refused request h (ok v) sound ends).1))
  ]
    where
      by_poison : h.poisoned ≡ true → ⊥
      by_poison poisoned = elim (Bool-cases h.held) [
        | inl held ↦ ground arith
        | inr free ↦ ground arith
      ]

  printed-ReportsAll :
      (r : Ended (Result Str Value)) (h : KernelHandle)
      → ((s : Result Str Value) → r ≡ returned s → (e : Str) × (s ≡ err e) × (h.poisoned ≡ false))
      → ReportsAll ext (proceed r (printed ext serde now) h)
  printed-ReportsAll (returned (ok v)) h refused text ends = absurd (cc ((refused (ok v) refl).1))
  printed-ReportsAll (returned (err e)) h refused text ends =
      report-Reports ext e text h ((refused (err e) refl).2) ends
  printed-ReportsAll stuck h refused text ends = absurd (cc ends)
  printed-ReportsAll aborted h refused text ends = absurd (cc ends)

  some-inj : {a b : KernelHandle} → some a ≡ some b → b ≡ a
  some-inj same = cc same

  execute-ReportsAll :
      (request : SubmitEventRequest) (h : KernelHandle)
      → h.poisoned ≡ false
      → ReportsAll ext ((execute_submit_request ext serde now request >>= printed ext serde now) h)
  unfolding ◌>>=◌
  execute-ReportsAll request h sound =
      printed-ReportsAll _ _ (λ s. execute_submit_request-refused request h s sound)

  -- A submission through a handle that is not poisoned answers, where it returns, with an error,
  -- and kernel_last_error then gives that error: no submission is answered with a result.
  pub kernel_submit_event-Reports :
      (input_json : CStr) (h g : KernelHandle) (text : Str)
      → h.poisoned ≡ false
      → kernel_submit_event ext serde now input_json (some h) ≡ (returned text, some g)
      → Reports ext text g
  unfolding kernel_submit_event
  kernel_submit_event-Reports input_json h g text sound ends =
      let all =
        or_report-ReportsAll ext (from_c_string serde.utf8_error input_json) _ h sound λ input.
          or_report-ReportsAll ext (parse_submit_request ext serde input) _ h sound
            λ request. execute-ReportsAll request h sound in
      rw (some-inj (ap (λ p. p.1) ends)) (all text (ap (λ p. p.0) ends))
