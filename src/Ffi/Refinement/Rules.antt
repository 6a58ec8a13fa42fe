-- ===== src/Ffi/Refinement/Rules.antt =====
-- src/ffi.rs: what the parts of an exported function do to the engine.
use v_kernelx.Base.{◌≡◌, refl, ◌∙◌, Option, none, some, ℕ, suc, List, [], ◌∷◌}
use v_kernelx.Base.Text.{Str}
use v_kernelx.Engine.Induction.{Command, run}
use v_kernelx.Error.{Result, ok, err}
use v_kernelx.External.{External, Value, Items}
use v_kernelx.Ffi.Attempt.{Attempt, on_inner}
use v_kernelx.Ffi.Entries.{
  report, or_report, answer, printed, with_handle, guarded, with_request, execute_requests, push,
}
use v_kernelx.Ffi.Commands.{requested, listed_commands}
use v_kernelx.Ffi.Execution.{execute_submit_request}
use v_kernelx.Ffi.Execution.Steps.{execute_submit_request-Makes}
use v_kernelx.Ffi.Handle
use v_kernelx.Ffi.Handle.{
  KernelInner, KernelHandle, Ended, returned, stuck, aborted, Act, Pointer, CStr, from_c_string,
  set_last_error, clear_last_error,
}
use v_kernelx.Ffi.Reading.{replay_answer, record_answer}
use v_kernelx.Ffi.Lookups.{cleared_with, found_or_not}
use v_kernelx.Ffi.Requests.{Serde, Deserialize, SubmitEventRequest, labelled}
use v_kernelx.Ffi.Reports.{execute_submit_request-no_result}
use v_kernelx.Ffi.Steps.{
  from_result, Silent, Silent-end, Silent-then, Silent-if, Silent-or_abort_act, inner_engine,
  handle_engine, Silent-write_last_error, Silent-under_lock, Makes, Makes-Silent, Makes-then,
  Makes-on_inner, Makes-under_lock, locked,
}

ruleset rules = (Silent-end, Silent-then, Silent-write_last_error, Silent-or_abort_act)

module _ (ext : External) where
  report-Silent : (e : Str) → Silent handle_engine (report ext e)
  unfolding report set_last_error
  report-Silent e = search rules

  pub or_report-Silent :
      {A : Type 0} (r : Result Str A) (k : A → Act KernelHandle Str)
      → ((a : A) → Silent handle_engine (k a))
      → Silent handle_engine (or_report ext r k)
  or_report-Silent (ok a) k all = all a
  or_report-Silent (err e) k all = report-Silent e

  answer-Silent : (r : Result Str Value) → Silent handle_engine (answer ext r)
  unfolding clear_last_error
  answer-Silent (ok v) = search rules
  answer-Silent (err e) = report-Silent e

  pub guarded-Silent :
      (body : Act KernelHandle Str)
      → Silent handle_engine body
      → Silent handle_engine (guarded ext body)
  unfolding guarded
  guarded-Silent body steps =
      Silent-under_lock body _ steps (record { at = λ h. (report-Silent _).at _ })

  pub guarded-answer-Makes :
      (m : Attempt KernelInner Value) (cs : List Command)
      → Makes ext inner_engine m (λ inner. cs)
      → Makes ext handle_engine (guarded ext (Handle.◌>>=◌ (on_inner m) (answer ext))) (locked cs)
  unfolding guarded
  guarded-answer-Makes m cs sm =
      Makes-under_lock ext _ _ (λ inner. cs)
        (Makes-then ext handle_engine _ _ _ (Makes-on_inner ext m _ sm) answer-Silent)
        (record { at = λ h. (report-Silent _).at _ })

  pub or_report-Makes :
      {A : Type 0} (r : Result Str A) (k : A → Act KernelHandle Str)
      (c : A → KernelHandle → List Command)
      → ((a : A) → Makes ext handle_engine (k a) (c a))
      → Makes ext handle_engine (or_report ext r k) (λ h. from_result r (λ a. c a h))
  or_report-Makes (ok a) k c all = record { at = λ h. (all a).at h }
  or_report-Makes (err e) k c all = Makes-Silent ext handle_engine _ (report-Silent e)

  -- What is left behind a pointer that is not null.
  abbrev pub Leaves : KernelHandle → Pointer → List Command → Type 0
  Leaves h p cs = (g : KernelHandle) × (p ≡ some g) × (g.inner.engine ≡ run ext cs h.inner.engine)

  pub with_handle-Leaves :
      (body : Act KernelHandle Str) (c : KernelHandle → List Command) (h : KernelHandle)
      → Makes ext handle_engine body c
      → Leaves h (with_handle ext body (some h)).1 (c h)
  with_handle-Leaves body c h mb = ((body h).1, refl, mb.at h)

  -- A call that makes no call of the engine.
  pub Silent-Leaves :
      (body : Act KernelHandle Str) (h : KernelHandle)
      → Silent handle_engine body
      → Leaves h (with_handle ext body (some h)).1 []
  Silent-Leaves body h sb = with_handle-Leaves body _ h (Makes-Silent ext handle_engine _ sb)

  module _ (serde : Serde) where
    pub with_request-Silent :
        {T : Type 0} (codec : Deserialize T) (label : Str) (input : CStr)
        (k : T → Act KernelHandle Str)
        → ((request : T) → Silent handle_engine (k request))
        → Silent handle_engine (with_request ext serde codec label input k)
    unfolding with_request
    with_request-Silent codec label input k all =
        or_report-Silent (from_c_string serde.utf8_error input) _
          (λ text. or_report-Silent (labelled label (codec.of_text text)) k all)

    pub printed-Silent :
        (now : ℕ → ℕ) (r : Result Str Value) → Silent handle_engine (printed ext serde now r)
    printed-Silent now (ok v) = search rules
    printed-Silent now (err e) = report-Silent e

    pub with_request-Makes :
        {T : Type 0} (codec : Deserialize T) (label : Str) (input : CStr)
        (k : T → Act KernelHandle Str) (c : T → KernelHandle → List Command)
        → ((request : T) → Makes ext handle_engine (k request) (c request))
        → Makes ext handle_engine
            (with_request ext serde codec label input k)
            (λ h. requested ext serde codec input (λ r. c r h))
    unfolding with_request
    with_request-Makes codec label input k c all =
        or_report-Makes (from_c_string serde.utf8_error input) _ _
          λ text. by_request (codec.of_text text)
      where
        by_request :
            (r : Result Str _)
            → Makes ext handle_engine
                (or_report ext (labelled label r) k)
                (λ h. from_result r (λ t. c t h))
        by_request (ok t) = record { at = λ h. (all t).at h }
        by_request (err e) = Makes-Silent ext handle_engine _ (report-Silent _)

    -- Of a list of submissions the first one is refused, or it does not return.
    pub execute_requests-Makes :
        (now : ℕ → ℕ → ℕ) (requests : List SubmitEventRequest) (results : Items)
        → Makes ext handle_engine
            (execute_requests ext serde now requests results)
            (listed_commands ext serde now requests)
    unfolding execute_requests clear_last_error Handle.◌>>=◌
    execute_requests-Makes now [] results = Makes-Silent ext handle_engine _ (search rules)
    execute_requests-Makes now (request ∷ requests) results = record {
      at = λ h.
          by_end h (execute_submit_request ext serde (now 0) request h).0
            (execute_submit_request-no_result ext serde (now 0) request h)
            ((execute_submit_request-Makes ext serde (now 0) request).at h);
    }
      where
        by_end :
            (h : KernelHandle) (r : Ended (Result Str Value))
            → ((v : Value) → ¬ (r ≡ returned (ok v)))
            → handle_engine (execute_submit_request ext serde (now 0) request h).1
              ≡ run ext (listed_commands ext serde now (request ∷ requests) h) h.inner.engine
            → handle_engine
                (Handle.proceed r
                  (λ r.
                    or_report ext r (λ v.
                      execute_requests ext serde (λ i. now (suc i)) requests (push v results)))
                  (execute_submit_request ext serde (now 0) request h).1).1
              ≡ run ext (listed_commands ext serde now (request ∷ requests) h) h.inner.engine
        by_end h (returned (ok v)) refused made = absurd (refused v refl)
        by_end h (returned (err e)) refused made = (report-Silent e).at _ ∙ made
        by_end h stuck refused made = made
        by_end h aborted refused made = made

    pub replay_answer-Silent :
        (r : Result Str Value) → Silent handle_engine (replay_answer ext serde r)
    unfolding replay_answer clear_last_error set_last_error
    replay_answer-Silent (ok v) = search rules
    replay_answer-Silent (err e) = search rules

    pub cleared_with-Silent :
        (key : Str) (value : Option Value) → Silent handle_engine (cleared_with ext serde key value)
    unfolding cleared_with clear_last_error
    cleared_with-Silent key value = search rules

    pub found_or_not-Silent :
        {A : Type 0} (key : Str) (to_value : A → Option Value) (found : Option A)
        → Silent handle_engine (found_or_not ext serde key to_value found)
    unfolding found_or_not
    found_or_not-Silent key to_value none = cleared_with-Silent _ _
    found_or_not-Silent key to_value (some a) = cleared_with-Silent _ _

    pub record_answer-Silent :
        (r : Result Str Value) → Silent handle_engine (record_answer ext serde r)
    unfolding record_answer clear_last_error
    record_answer-Silent (ok v) = search (rules, Silent-if, report-Silent)
    record_answer-Silent (err e) = report-Silent e
