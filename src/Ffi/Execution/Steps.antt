-- ===== src/Ffi/Execution/Steps.antt =====
-- src/ffi.rs: the execution of a request makes the call of the engine that the request stands for.
use v_kernelx.Base.{◌≡◌, refl, ℕ, Bool, true, false, List, [], ◌∷◌, ◌++◌, if◌then◌else◌}
use v_kernelx.Base.Text.{Str, str, str_eq}
use v_kernelx.Engine.Induction.{Command, run, step}
use v_kernelx.Engine.Monad.{KernelEngine, Action}
use v_kernelx.Event.{VectorEvent}
use v_kernelx.Error.{Result, ok, err}
use v_kernelx.External.{External, Value}
use v_kernelx.Ffi.Attempt.{Attempt, attempt, inspect}
use v_kernelx.Ffi.Events.{
  summarized, empty_summary, replay_ordered, replay_from_events, engine_replay_summary,
}
use v_kernelx.Ffi.Execution.{
  mark_seen, collected, execute_and_collect, state_of, states_of, execute_origin_create,
  execute_transfer, execute_drain, execute_project, execute_reconstruct, execute_certify,
  execute_named, execute_validated, cleared, acknowledge, submitted, execute_submit_request,
}
use v_kernelx.Ffi.Handle.{KernelInner, Ended, clear_last_error}
use v_kernelx.Ffi.Requests.{
  Serde, SubmitEventRequest, OriginCreateRequest, TransferRequest, DrainRequest, ProjectRequest,
  ReconstructRequest, CertifyRequest, Deserialize, labelled, parse_request_payload,
  is_origin_create,
}
use v_kernelx.Ffi.Commands.{
  origin_create_of, transfer_of, drain_of, project_of, reconstruct_of, certify_of, named_commands,
  submitted_commands,
}
use v_kernelx.Ffi.Attempt
use v_kernelx.Ffi.Steps.{
  from_result, Silent, Makes, Silent-end, Silent-inspect, Silent-or_abort, Silent-or_stuck,
  Silent-bind, Silent-then, inner_engine, handle_engine, Silent-on_inner, Silent-write_last_error,
  Makes-Silent, Makes-inspect, Makes-bind, Makes-on_engine, Makes-on_inner, Makes-under_lock,
  locked,
}
use v_kernelx.State.{VectorStateV1}

pub ruleset rules = (Silent-end, Silent-inspect, Silent-or_abort, Silent-or_stuck, Silent-bind)

module _ (ext : External) (serde : Serde) where
  summarized-Silent :
      (replay : _) (heads : List Str) → Silent inner_engine (summarized ext serde replay heads)
  unfolding summarized
  summarized-Silent replay heads = search rules

  empty_summary-Silent : Silent inner_engine (empty_summary ext serde {S = KernelInner})
  unfolding empty_summary
  empty_summary-Silent = search rules

  replay_ordered-Silent :
      (ordered : List VectorEvent) → Silent inner_engine (replay_ordered ext serde ordered)
  unfolding replay_ordered
  replay_ordered-Silent [] = empty_summary-Silent
  replay_ordered-Silent (e ∷ ordered) = search (rules, summarized-Silent)

  replay_from_events-Silent :
      (events : List VectorEvent) → Silent inner_engine (replay_from_events ext serde events)
  unfolding replay_from_events
  replay_from_events-Silent [] = empty_summary-Silent
  replay_from_events-Silent (e ∷ events) = search (rules, replay_ordered-Silent)

  pub engine_replay_summary-Silent : Silent inner_engine (engine_replay_summary ext serde)
  unfolding engine_replay_summary
  engine_replay_summary-Silent =
      search (rules, replay_from_events-Silent, summarized-Silent) depth 12

  collected-Silent :
      (name : Str) (before : KernelInner) (result : Value) (after : KernelInner)
      → Silent inner_engine (collected ext serde name before result after)
  unfolding collected
  collected-Silent name before result after = search (rules, engine_replay_summary-Silent) depth 14

  execute_and_collect-Makes :
      (name : Str) (f : Attempt KernelInner Value) (c : KernelInner → List Command)
      → Makes ext inner_engine f c
      → Makes ext inner_engine (execute_and_collect ext serde name f) c
  unfolding execute_and_collect
  execute_and_collect-Makes name f c mf =
      Makes-inspect ext inner_engine _ c
        λ before. Makes-bind ext inner_engine f _ c mf (λ r. search (rules, collected-Silent))

  state_of-Makes :
      (m : Action VectorStateV1) (c : Command)
      → ((k : KernelEngine) → (m k).1 ≡ step ext c k)
      → Makes ext inner_engine (state_of ext serde m) (λ inner. c ∷ [])
  unfolding state_of
  state_of-Makes m c same =
      Makes-bind ext inner_engine _ _ _ (Makes-on_engine ext m c same) (λ state. search rules)

  states_of-Makes :
      (m : Action (VectorStateV1 × VectorStateV1)) (c : Command)
      → ((k : KernelEngine) → (m k).1 ≡ step ext c k)
      → Makes ext inner_engine (states_of ext serde m) (λ inner. c ∷ [])
  unfolding states_of
  states_of-Makes m c same =
      Makes-bind ext inner_engine _ _ _ (Makes-on_engine ext m c same) (λ states. search rules)

  module _ (now : ℕ → ℕ) where
    pub execute_origin_create-Makes :
        (params : OriginCreateRequest)
        → Makes ext inner_engine
            (execute_origin_create ext serde now params)
            (λ inner. origin_create_of now params)
    unfolding execute_origin_create step
    execute_origin_create-Makes params =
        execute_and_collect-Makes _ _ _ (state_of-Makes _ _ (λ k. refl))

    pub execute_transfer-Makes :
        (params : TransferRequest)
        → Makes ext inner_engine
            (execute_transfer ext serde now params)
            (λ inner. transfer_of now params)
    unfolding execute_transfer step
    execute_transfer-Makes params =
        execute_and_collect-Makes _ _ _ (states_of-Makes _ _ (λ k. refl))

    pub execute_drain-Makes :
        (params : DrainRequest)
        → Makes ext inner_engine (execute_drain ext serde now params) (λ inner. drain_of now params)
    unfolding execute_drain step
    execute_drain-Makes params = execute_and_collect-Makes _ _ _ (state_of-Makes _ _ (λ k. refl))

    pub execute_project-Makes :
        (params : ProjectRequest)
        → Makes ext inner_engine
            (execute_project ext serde now params)
            (λ inner. project_of now params)
    unfolding execute_project step
    execute_project-Makes params = execute_and_collect-Makes _ _ _ (state_of-Makes _ _ (λ k. refl))

    pub execute_reconstruct-Makes :
        (params : ReconstructRequest)
        → Makes ext inner_engine
            (execute_reconstruct ext serde now params)
            (λ inner. reconstruct_of now params)
    unfolding execute_reconstruct step
    execute_reconstruct-Makes params =
        execute_and_collect-Makes _ _ _ (state_of-Makes _ _ (λ k. refl))

    pub execute_certify-Makes :
        (params : CertifyRequest)
        → Makes ext inner_engine
            (execute_certify ext serde now params)
            (λ inner. certify_of now params)
    unfolding execute_certify step
    execute_certify-Makes params = execute_and_collect-Makes _ _ _ (state_of-Makes _ _ (λ k. refl))

    -- Parameters that are read first.
    parsed-Makes :
        {A : Type 0} (label : Str) (r : Result Str A) (f : A → Attempt KernelInner Value)
        (c : A → List Command)
        → ((a : A) → Makes ext inner_engine (f a) (λ inner. c a))
        → Makes ext inner_engine
            (Attempt.◌>>=◌ (attempt (labelled label r)) f)
            (λ inner. from_result r c)
    unfolding Attempt.◌>>=◌ run
    parsed-Makes label (ok a) f c all = record { at = λ inner. (all a).at inner }
    parsed-Makes label (err e) f c all = record { at = λ inner. refl }

    -- One branch of the match on the operation's name.
    branch-Makes :
        {T : Type 0} (b : Bool) (codec : Deserialize T) (params : Value) (label : Str)
        (f : T → Attempt KernelInner Value) (c : T → List Command) (n : Attempt KernelInner Value)
        (d : List Command)
        → ((a : T) → Makes ext inner_engine (f a) (λ inner. c a))
        → Makes ext inner_engine n (λ inner. d)
        → Makes ext inner_engine
            (if b then Attempt.◌>>=◌ (attempt (parse_request_payload codec params label)) f else n)
            (λ inner. if b then from_result (codec.of_value params) c else d)
    branch-Makes true codec params label f c n d all other =
        parsed-Makes (label ++ str " parse error: ") (codec.of_value params) f c all
    branch-Makes false codec params label f c n d all other = other

    execute_named-Makes :
        (name : Str) (params : Value)
        → Makes ext inner_engine
            (execute_named ext serde now name params)
            (λ inner. named_commands ext serde now name params)
    unfolding execute_named named_commands
    execute_named-Makes name params =
        branch-Makes (is_origin_create name) serde.origin_create_request params _ _ _ _ _
          execute_origin_create-Makes
          (branch-Makes (str_eq name (str "transfer")) serde.transfer_request params _ _ _ _ _
            execute_transfer-Makes
            (branch-Makes (str_eq name (str "drain")) serde.drain_request params _ _ _ _ _
              execute_drain-Makes
              (branch-Makes (str_eq name (str "project")) serde.project_request params _ _ _ _ _
                execute_project-Makes
                (branch-Makes (str_eq name (str "reconstruct")) serde.reconstruct_request params _ _
                  _ _ _ execute_reconstruct-Makes
                  (branch-Makes (str_eq name (str "certify")) serde.certify_request params _ _ _ _ _
                    execute_certify-Makes
                    (Makes-Silent ext inner_engine _ (Silent-end inner_engine _)))))))

    mark_seen-Silent : (request_id : Str) → Silent inner_engine (mark_seen request_id)
    unfolding mark_seen
    mark_seen-Silent request_id = record { at = λ inner. refl }

    -- A check of the inner state, and what is done where it is passed.
    checked-Makes :
        {A : Type 0} (check : KernelInner → Result Str A) (f : A → Attempt KernelInner Value)
        (c : List Command)
        → ((a : A) → Makes ext inner_engine (f a) (λ inner. c))
        → Makes ext inner_engine
            (Attempt.◌>>=◌ (inspect λ inner. attempt (check inner)) f)
            (λ inner. from_result (check inner) (λ a. c))
    unfolding run Attempt.◌>>=◌
    checked-Makes check f c all = record { at = λ inner. by_check (check inner) inner }
      where
        by_check :
            (r : Result Str _) (inner : KernelInner)
            → inner_engine (Attempt.resume (Ended.returned r) f inner).1
              ≡ run ext (from_result r (λ a. c)) inner.engine
        by_check (ok a) inner = (all a).at inner
        by_check (err e) inner = refl

    execute_validated-Makes :
        (request : SubmitEventRequest)
        → Makes ext inner_engine
            (execute_validated ext serde now request)
            (submitted_commands ext serde now request)
    unfolding execute_validated submitted_commands
    execute_validated-Makes request = checked-Makes _ _ _ λ v.
        Makes-bind ext inner_engine _ _ _ (execute_named-Makes _ _)
          (λ result. search (rules, mark_seen-Silent))

    cleared-Silent : Silent handle_engine (cleared ext serde now)
    unfolding clear_last_error
    cleared-Silent = search (Silent-then, Silent-write_last_error, Silent-end)

    acknowledge-Silent :
        (request : SubmitEventRequest) (result : Value)
        → Silent handle_engine (acknowledge ext serde now request result)
    unfolding acknowledge
    acknowledge-Silent request result = search (rules, cleared-Silent, Silent-on_inner) depth 14

    pub execute_submit_request-Makes :
        (request : SubmitEventRequest)
        → Makes ext handle_engine
            (execute_submit_request ext serde now request)
            (λ h. locked (submitted_commands ext serde now request h.inner) h)
    unfolding execute_submit_request submitted
    execute_submit_request-Makes request =
        Makes-under_lock ext _ _ (submitted_commands ext serde now request)
          (Makes-bind ext handle_engine _ _ _
            (Makes-on_inner ext _ _ (execute_validated-Makes request)) (acknowledge-Silent request))
          (search rules)
