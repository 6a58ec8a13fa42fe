-- ===== src/Ffi/Refinement.antt =====
-- src/ffi.rs: a session of calls through the C functions refines a session of calls of the engine.
pub mod Rules
use v_kernelx.Base.{
  ◌≡◌, refl, sym, ◌∙◌, ap, Option, none, some, ℕ, suc, List, [], ◌∷◌, ◌++◌, append-nil,
}
use v_kernelx.Base.Text.{Str}
use v_kernelx.Engine.Induction.{Command, run}
use v_kernelx.Error.{Result, ok, err}
use v_kernelx.External.{External, Value, Items}
use v_kernelx.Ffi.Attempt.{Attempt, on_inner}
use v_kernelx.Ffi.Calls.{Call, dispatch, session, next}
use v_kernelx.Ffi.Entries.{
  report, or_report, answer, printed, with_handle, guarded, with_request, kernel_origin_create,
  kernel_transfer, kernel_drain, kernel_project, kernel_reconstruct, kernel_certify,
  kernel_submit_event, kernel_execute_operation, execute_requests, push,
}
use v_kernelx.Ffi.Commands.{requested, listed_commands, commands_of, after, session_commands}
use v_kernelx.Ffi.Execution.{execute_submit_request}
use v_kernelx.Ffi.Execution.Steps.{
  engine_replay_summary-Silent, execute_origin_create-Makes, execute_transfer-Makes,
  execute_drain-Makes, execute_project-Makes, execute_reconstruct-Makes, execute_certify-Makes,
  execute_submit_request-Makes,
}
use v_kernelx.Ffi.Handle
use v_kernelx.Ffi.Handle.{
  KernelInner, KernelHandle, Ended, returned, stuck, aborted, Act, Pointer, CStr, from_c_string,
  set_last_error, clear_last_error,
}
use v_kernelx.Ffi.Reading.{
  kernel_replay, replay_answer, kernel_verify_record, record_answer, parse_record,
  kernel_compute_state_root,
}
use v_kernelx.Ffi.Lookups.{
  cleared_with, found_or_not, kernel_query_vector, kernel_query_vectors, kernel_query_records,
  kernel_query_event_by_hash,
}
use v_kernelx.Ffi.Requests.{
  Serde, Deserialize, SubmitEventRequest, labelled, parse_submit_request, parse_submit_request_list,
}
use v_kernelx.Ffi.Reports.{execute_submit_request-no_result}
use v_kernelx.Ffi.Steps.{
  from_result, Silent, Silent-end, Silent-then, Silent-if, Silent-or_abort_act, inner_engine,
  handle_engine, Silent-on_inner, Silent-write_last_error, Silent-under_lock, Makes, Makes-Silent,
  Makes-then, Makes-on_inner, Makes-under_lock, locked,
}
use v_kernelx.Interpreter.Refinement.{run-append}
use Rules.{
  or_report-Silent, guarded-Silent, guarded-answer-Makes, or_report-Makes, Leaves,
  with_handle-Leaves, Silent-Leaves, with_request-Silent, printed-Silent, with_request-Makes,
  execute_requests-Makes, replay_answer-Silent, cleared_with-Silent, found_or_not-Silent,
  record_answer-Silent,
}

module _ (ext : External) (serde : Serde) where
  -- A call through a pointer that is not null makes the calls that stand for it.
  dispatch-Leaves :
      (c : Call) (h : KernelHandle)
      → Leaves ext h (dispatch ext serde c (some h)).1 (commands_of ext serde c h)
  unfolding dispatch kernel_submit_event kernel_execute_operation kernel_origin_create
      kernel_transfer kernel_drain kernel_project kernel_reconstruct kernel_certify kernel_replay
      kernel_compute_state_root kernel_verify_record kernel_query_vector kernel_query_vectors
      kernel_query_records kernel_query_event_by_hash commands_of
  dispatch-Leaves (Call.submit_event now input) h = with_handle-Leaves ext _ _ h (
      or_report-Makes ext (from_c_string serde.utf8_error input) _ _ λ text.
        or_report-Makes ext (parse_submit_request ext serde text) _ _ λ request.
          Makes-then ext handle_engine _ _ _ (execute_submit_request-Makes ext serde now request)
            (printed-Silent ext serde now))
  dispatch-Leaves (Call.execute_operation now input) h = with_handle-Leaves ext _ _ h (
      or_report-Makes ext (from_c_string serde.utf8_error input) _ _ λ text.
        or_report-Makes ext (parse_submit_request_list ext serde text) _ _
          λ requests. execute_requests-Makes ext serde now requests _)
  dispatch-Leaves (Call.origin_create now input) h = with_handle-Leaves ext _ _ h (
      with_request-Makes ext serde _ _ input _ _
        λ r. guarded-answer-Makes ext _ _ (execute_origin_create-Makes ext serde now r))
  dispatch-Leaves (Call.transfer now input) h = with_handle-Leaves ext _ _ h (
      with_request-Makes ext serde _ _ input _ _
        λ r. guarded-answer-Makes ext _ _ (execute_transfer-Makes ext serde now r))
  dispatch-Leaves (Call.drain now input) h = with_handle-Leaves ext _ _ h (
      with_request-Makes ext serde _ _ input _ _
        λ r. guarded-answer-Makes ext _ _ (execute_drain-Makes ext serde now r))
  dispatch-Leaves (Call.project now input) h = with_handle-Leaves ext _ _ h (
      with_request-Makes ext serde _ _ input _ _
        λ r. guarded-answer-Makes ext _ _ (execute_project-Makes ext serde now r))
  dispatch-Leaves (Call.reconstruct now input) h = with_handle-Leaves ext _ _ h (
      with_request-Makes ext serde _ _ input _ _
        λ r. guarded-answer-Makes ext _ _ (execute_reconstruct-Makes ext serde now r))
  dispatch-Leaves (Call.certify now input) h = with_handle-Leaves ext _ _ h (
      with_request-Makes ext serde _ _ input _ _
        λ r. guarded-answer-Makes ext _ _ (execute_certify-Makes ext serde now r))
  dispatch-Leaves Call.replay h = Silent-Leaves ext _ h (
      guarded-Silent ext _ (
        Silent-then handle_engine _ _ (Silent-on_inner _ (engine_replay_summary-Silent ext serde))
          (replay_answer-Silent ext serde)))
  dispatch-Leaves Call.compute_state_root h =
      Silent-Leaves ext _ h (guarded-Silent ext _ (record { at = λ g. refl }))
  dispatch-Leaves (Call.verify_record input) h = Silent-Leaves ext _ h (
      or_report-Silent ext (from_c_string serde.utf8_error input) _ λ text.
        or_report-Silent ext (parse_record ext serde text) _ λ event.
          Silent-then handle_engine _ _ (Silent-end handle_engine _)
            (record_answer-Silent ext serde))
  dispatch-Leaves (Call.query_vector input) h = Silent-Leaves ext _ h (
      with_request-Silent ext serde _ _ input _ λ request.
        guarded-Silent ext _ (record { at = λ g. (found_or_not-Silent ext serde _ _ _).at g }))
  dispatch-Leaves (Call.query_vectors input) h =
      Silent-Leaves ext _ h
        (guarded-Silent ext _ (record { at = λ g. (cleared_with-Silent ext serde _ _).at g }))
  dispatch-Leaves (Call.query_records input) h =
      Silent-Leaves ext _ h
        (guarded-Silent ext _ (record { at = λ g. (cleared_with-Silent ext serde _ _).at g }))
  dispatch-Leaves (Call.query_event_by_hash input) h = Silent-Leaves ext _ h (
      with_request-Silent ext serde _ _ input _ λ request.
        guarded-Silent ext _ (record { at = λ g. (found_or_not-Silent ext serde _ _ _).at g }))

  next-Leaves :
      (r : Ended Str) (p : Pointer) (h : KernelHandle) (cs : List Command)
      (rest : Pointer → Pointer) (ds : KernelHandle → List Command)
      → Leaves ext h p cs
      → ((g : KernelHandle) → Leaves ext g (rest (some g)) (ds g))
      → Leaves ext h (next ext serde r p rest) (cs ++ after ext serde (r, p) ds)
  next-Leaves (returned text) none h cs rest ds (g, same, made) all = absurd (cc same)
  next-Leaves (returned text) (some f) h cs rest ds (g, same, made) all =
      let (e, same', made') = all f in
      let here : f ≡ g = cc same in
      (
        e,
        same',
        made'
            ∙ (ap (λ x. run ext (ds f) x.inner.engine) here
                ∙ (ap (run ext (ds f)) made ∙ sym (run-append ext cs (ds f) h.inner.engine))),
      )
  next-Leaves stuck p h cs rest ds (g, same, made) all =
      (g, same, made ∙ ap (λ ds. run ext ds h.inner.engine) (sym (append-nil cs)))
  next-Leaves aborted p h cs rest ds (g, same, made) all =
      (g, same, made ∙ ap (λ ds. run ext ds h.inner.engine) (sym (append-nil cs)))

  -- A session of calls through a handle leaves the engine that these calls of the engine's methods
  -- leave, in their order: for each of the six operations whose text is read, where the lock is
  -- free and sound, its method with the arguments that it names; for a submission that passes the
  -- validation there, or the first of a list, the method of its operation's name with its
  -- parameters; none for all other calls, and none behind a call that does not return.
  pub session-Refines :
      (calls : List Call) (h : KernelHandle)
      → (g : KernelHandle) × (session ext serde calls (some h) ≡ some g)
        × (g.inner.engine ≡ run ext (session_commands ext serde calls h) h.inner.engine)
  unfolding session session_commands run
  session-Refines [] h = (h, refl, refl)
  session-Refines (c ∷ calls) h =
      next-Leaves _ _ h (commands_of ext serde c h) (session ext serde calls)
        (session_commands ext serde calls) (dispatch-Leaves c h) (session-Refines calls)
