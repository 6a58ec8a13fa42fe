-- ===== src/Python/Refinement.antt =====
-- src/python_api.rs: what a Python script does to the engine is what the calls that it names do.
use v_kernelx.Base.{◌≡◌, refl, sym, ap, ◌∙◌, List, [], ◌∷◌, ◌++◌}
use v_kernelx.Base.Text.{Str}
use v_kernelx.Engine.Induction.{
  Command, run, step, certify_call, origin_create_call, transfer_call, drain_call, project_call,
  reconstruct_call, create_region_call,
}
use v_kernelx.Engine.Monad.{KernelEngine, Action}
use v_kernelx.Error.{Result, ok, err}
use v_kernelx.External.{External}
use v_kernelx.Ffi.Attempt.{Attempt, attempt, ◌>>=◌}
use v_kernelx.Ffi.Steps.{
  from_result, Silent-end, Silent-inspect, Silent-or_stuck, Silent-bind, Makes, Makes-Silent,
  Makes-bind,
}
use v_kernelx.Interpreter.Refinement.{run-append}
use v_kernelx.Python.Requests.{create_region_input_from_any, request_of_input}
use v_kernelx.Python.Kernel.{
  PythonSerde, call, to_json, reading, PyCall, py_origin_create, py_certify, py_transfer, py_drain,
  py_project, py_reconstruct, py_create_region, py_query_region, py_query_region_by_name,
  py_resolve_region_id, py_region_exists, py_authorize_region, py_query_vector,
  py_query_event_by_hash, py_query_regions, py_query_vectors, py_query_records, py_replay,
  py_state_root, py_metrics, dispatch, script, origin_create, certify, transfer, drain, project,
  reconstruct, create_region, query_region, query_region_by_name, query_regions, resolve_region_id,
  region_exists, authorize_region, query_vector, query_vectors, query_records, query_event_by_hash,
  replay_canonical_history, current_state_root, metrics,
}

abbrev own_engine : KernelEngine → KernelEngine
own_engine k = k

ruleset rules = (Silent-end, Silent-inspect, Silent-or_stuck, Silent-bind)

module _ (ext : External) (serde : PythonSerde) where
  -- The calls of the engine's methods that a call of the class makes: one, with the arguments as they
  -- are given, and none for a read or where the request of a region cannot be read.
  unfoldable pub commands_of : PyCall → List Command
  commands_of (py_origin_create now id owner space components seed nonce difficulty) =
      origin_create_call now id owner space components seed nonce difficulty ∷ []
  commands_of (py_certify now id) = certify_call now id ∷ []
  commands_of (py_transfer now from to amount) = transfer_call now from to amount ∷ []
  commands_of (py_drain now id basis_points) = drain_call now id basis_points ∷ []
  commands_of (py_project now id components escrow_id) =
      project_call now id components escrow_id ∷ []
  commands_of (py_reconstruct now id tag gains losses) =
      reconstruct_call now id (record { outcome_tag = tag; gains = gains; losses = losses }) ∷ []
  commands_of (py_create_region now request) =
      from_result (create_region_input_from_any ext serde.create_region_input request) λ input.
        from_result (request_of_input ext input)
          λ parsed. create_region_call now parsed input.actor_public_key ∷ []
  commands_of _ = []

  unfoldable pub commands_of_all : List PyCall → List Command
  commands_of_all [] = []
  commands_of_all (c ∷ calls) = commands_of c ++ commands_of_all calls

  call-Makes :
      {A : Type 0} (m : Action A) (text : A → Result Str Str) (c : Command)
      → ((k : KernelEngine) → (m k).1 ≡ step ext c k)
      → Makes ext own_engine (call m >>= to_json text) (λ k. c ∷ [])
  unfolding call run
  call-Makes m text c same =
      Makes-bind ext own_engine (call m) (to_json text) _ (record { at = λ k. same k })
        (λ a. Silent-end own_engine _)

  reading-Makes :
      {A : Type 0} (text : A → Result Str Str) (f : KernelEngine → Result Str A)
      → Makes ext own_engine (reading text f) (λ k. [])
  unfolding reading
  reading-Makes text f = Makes-Silent ext own_engine _ (search rules)

  -- What is read first, and what then makes calls.
  attempt-Makes :
      {A : Type 0} (r : Result Str A) (f : A → Attempt KernelEngine Str) (c : A → List Command)
      → ((a : A) → Makes ext own_engine (f a) (λ k. c a))
      → Makes ext own_engine (attempt r >>= f) (λ k. from_result r c)
  unfolding ◌>>=◌ run
  attempt-Makes (ok a) f c all = record { at = λ k. (all a).at k }
  attempt-Makes (err e) f c all = record { at = λ k. refl }

  dispatch-Makes : (c : PyCall) → Makes ext own_engine (dispatch ext serde c) (λ k. commands_of c)
  unfolding dispatch origin_create certify transfer drain project reconstruct create_region
      query_region query_region_by_name query_regions resolve_region_id region_exists
      authorize_region query_vector query_vectors query_records query_event_by_hash
      replay_canonical_history current_state_root metrics step commands_of
  dispatch-Makes (py_origin_create now id owner space components seed nonce difficulty) =
      call-Makes _ _ _ (λ k. refl)
  dispatch-Makes (py_certify now id) = call-Makes _ _ _ (λ k. refl)
  dispatch-Makes (py_transfer now from to amount) = call-Makes _ _ _ (λ k. refl)
  dispatch-Makes (py_drain now id basis_points) = call-Makes _ _ _ (λ k. refl)
  dispatch-Makes (py_project now id components escrow_id) = call-Makes _ _ _ (λ k. refl)
  dispatch-Makes (py_reconstruct now id tag gains losses) = call-Makes _ _ _ (λ k. refl)
  dispatch-Makes (py_create_region now request) =
      attempt-Makes _ _ _ λ input. attempt-Makes _ _ _ λ parsed. call-Makes _ _ _ (λ k. refl)
  dispatch-Makes (py_query_region id) = reading-Makes _ _
  dispatch-Makes (py_query_region_by_name name prefix) = reading-Makes _ _
  dispatch-Makes (py_resolve_region_id name prefix) = reading-Makes _ _
  dispatch-Makes (py_region_exists name prefix) = reading-Makes _ _
  dispatch-Makes (py_authorize_region id key) = reading-Makes _ _
  dispatch-Makes (py_query_vector id) = reading-Makes _ _
  dispatch-Makes (py_query_event_by_hash h) = reading-Makes _ _
  dispatch-Makes py_query_regions = reading-Makes _ _
  dispatch-Makes py_query_vectors = reading-Makes _ _
  dispatch-Makes py_query_records = reading-Makes _ _
  dispatch-Makes py_replay = Makes-Silent ext own_engine _ (search rules)
  dispatch-Makes py_state_root = reading-Makes _ _
  dispatch-Makes py_metrics = Makes-Silent ext own_engine _ (search rules)

  -- A Python script, whatever exceptions its calls raise, leaves the engine that the methods that
  -- it calls leave, in their order and with the arguments of its calls; a read makes no call of a
  -- writing method, nor does a request of a region that cannot be read.
  pub script-Refines :
      (calls : List PyCall) (k : KernelEngine)
      → script ext serde calls k ≡ run ext (commands_of_all calls) k
  unfolding script commands_of_all run
  script-Refines [] k = refl
  script-Refines (c ∷ calls) k =
      script-Refines calls _
      ∙ (ap (run ext (commands_of_all calls)) ((dispatch-Makes c).at k)
          ∙ sym (run-append ext (commands_of c) (commands_of_all calls) k))
