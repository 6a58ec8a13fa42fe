-- ===== src/Tests/Bindings.antt =====
-- The C functions and the Python class on concrete inputs.
use v_kernelx.Base.{ℕ, ◌≡◌, ◌≢◌, ◌↔◌, ◌⊎◌, ◌≤◌, refl, true, Option, none, some, List, [], ◌∷◌, All}
use v_kernelx.Base.Sort.Counts.{occurrences}
use v_kernelx.Base.Text.{Str, str, str_eq, str_cmp, trim, trim_start, trim_rev, is_blank}
use v_kernelx.Dag.Building.{hashes}
use v_kernelx.Engine.Induction.{run}
use v_kernelx.Error.{ok, err}
use v_kernelx.Event.{VectorEvent, VectorState, OperationType, zero_state, new_event}
use v_kernelx.External.{null, bool, object, end, Collides}
use v_kernelx.Ffi.Authority.{SameWork, Authorized, kernel_submit_event-Authorized}
use v_kernelx.Ffi.Calls.{Call, dispatch, session}
use v_kernelx.Ffi.Entries.{kernel_submit_event, report}
use v_kernelx.Base.Map.{insert, get, contains_key}
use v_kernelx.Base.Sort.{sort_by}
use v_kernelx.Ffi.Events.{
  compute_heads, engine_replay_summary, referenced_as_parent, insert_all, not_in, dedup,
}
use v_kernelx.Ffi.Execution.{singleton, submitted, execute_validated, execute_submit_request}
use v_kernelx.Ffi.Fresh.{divergence, replay_material, engine_replay_summary-diverges}
use v_kernelx.Ffi.Handle.{
  KernelInner, KernelHandle, Ended, returned, stuck, aborted, Pointer, kernel_init, from_c_string,
  ok_json, err_json, under_lock, set_last_error, write_last_error, to_c_string, kernel_last_error,
}
use v_kernelx.Ffi.Handle
use v_kernelx.Ffi.Attempt
use v_kernelx.Ffi.Attempt.{on_inner}
use v_kernelx.Ffi.Heads.{compute_heads-heads}
use v_kernelx.Ffi.Heads.Dedup.{IsRising}
use v_kernelx.Ffi.Locking.{IsLost}
use v_kernelx.Ffi.Lost.{dispatch-IsLost}
use v_kernelx.Ffi.Reading.{kernel_verify_record, parse_record}
use v_kernelx.Ffi.Commands.{session_commands}
use v_kernelx.Ffi.Refinement.{session-Refines}
use v_kernelx.Ffi.Reports.{Reports, kernel_submit_event-Reports}
use v_kernelx.Ffi.Requests.{
  Serde, Deserialize, SubmitEventRequest, parse_submit_request, parse_event,
  validate_submit_request,
}
use v_kernelx.Ffi.Roots.{kernel_verify_record-refuses_children}
use v_kernelx.Ffi.Verdict.{IsGenuine, with_last_error, kernel_verify_record-decides}
use v_kernelx.Python.Kernel.{PythonSerde, py_certify, py_query_records, new_py_engine, script}
use v_kernelx.Python.Refinement.{commands_of_all, script-Refines}
use v_kernelx.State.Bytes.{state_root_material}
use v_kernelx.Tests.World.{toy, clock}

abbrev fed : VectorState
fed = record {
  components = 5 ∷ [];
  owner_public_key = str "pk";
  type_tag = str "Standard";
  metadata = [];
}

abbrev root : VectorEvent
root =
    record (new_event (str "e1") [] (str "S") (str "A") OperationType.origin_create
      (zero_state 1 (str "pk") (str "Standard")) fed 0 true (str "pk") 1 10) {
        event_hash = str "h1";
      }

abbrev child : VectorEvent
child =
    record (new_event (str "e2") (str "h1" ∷ []) (str "S") (str "A") OperationType.certify fed fed 0
      true (str "pk") 2 20) { event_hash = str "h2" }

-- A decoder that reads one value of every text.
abbrev always : {T : Type 0} → T → Deserialize T
always t = record { of_text = λ _. ok t; of_value = λ _. ok t }

-- A request with no id.
abbrev nameless : SubmitEventRequest
nameless = record {
  request_id = [];
  operation = str "certify";
  actor_public_key = str "00";
  signature = str "00";
  params = null;
}

abbrev toy_serde : Serde
toy_serde = record {
  utf8_error = λ _. none;
  submit_request = always nameless;
  submit_requests = always (nameless ∷ []);
  event = always child;
  events = always (root ∷ child ∷ []);
  origin_create_request = always (record {
    vector_id = str "A";
    owner_pubkey = str "pk";
    space_id = str "S";
    components = 5 ∷ [];
    seed = str "seed";
    nonce = 0;
    difficulty = 0;
  });
  transfer_request = always (record { from_id = str "A"; to_id = str "B"; amount = 1 ∷ [] });
  drain_request = always (record { vector_id = str "A"; basis_points = 100 });
  project_request =
      always (record { vector_id = str "A"; projected_components = 1 ∷ []; escrow_id = str "E" });
  reconstruct_request =
      always (record { vector_id = str "A"; outcome_tag = str "won"; gains = []; losses = [] });
  certify_request = always (record { vector_id = str "A" });
  query_vector_request = always (record { vector_id = str "A" });
  query_event_by_hash_request = always (record { event_hash = str "h1" });
  value_json = λ _. ok (str "{}");
  state_value = λ _. some null;
  states_value = λ _. some null;
  records_value = λ _. some null;
  event_value = λ _. some null;
  events_value = λ _. some null;
  final_state_value = λ _. some (object end);
}

-- The bytes of a request, which the decoders above do not look at.
abbrev input : Option (List ℕ)
input = some (str "{}")

session-Refines_example :
    (g : KernelHandle) × (session toy toy_serde
        (Call.verify_record input ∷ Call.transfer clock input ∷ [])
        (some kernel_init)
      ≡ some g)
    × (g.inner.engine
        ≡ run toy
            (session_commands toy toy_serde
              (Call.verify_record input ∷ Call.transfer clock input ∷ [])
              kernel_init)
            kernel_init.inner.engine)
session-Refines_example =
    session-Refines toy toy_serde (Call.verify_record input ∷ Call.transfer clock input ∷ [])
      kernel_init

dispatch-IsLost_example :
    IsLost (dispatch toy toy_serde (Call.transfer clock input) (some kernel_init)).0
unfolding from_c_string
dispatch-IsLost_example =
    dispatch-IsLost toy toy_serde (Call.transfer clock input) kernel_init
      (str "{}", record { from_id = str "A"; to_id = str "B"; amount = 1 ∷ [] }, refl, refl)

-- The handle that a call leaves.
abbrev left_by : Ended Str × Pointer → KernelHandle
left_by (r, none) = kernel_init
left_by (r, some h) = h

abbrev submitted_nameless : Ended Str × Pointer
submitted_nameless = kernel_submit_event toy toy_serde clock input (some kernel_init)

kernel_submit_event-Authorized_example :
    SameWork kernel_init (left_by submitted_nameless)
    ⊎ Authorized toy toy_serde input kernel_init.inner
unfolding kernel_submit_event
kernel_submit_event-Authorized_example =
    kernel_submit_event-Authorized toy toy_serde clock input kernel_init
      (left_by submitted_nameless) (submitted_nameless.0) refl

-- The refused request is reported.
kernel_submit_event-Reports_example :
    Reports toy (err_json toy (str "missing request_id")) (left_by submitted_nameless)
unfolding kernel_submit_event report set_last_error write_last_error from_c_string
    parse_submit_request execute_submit_request under_lock submitted execute_validated on_inner
    validate_submit_request is_blank trim trim_start trim_rev Handle.◌>>=◌ Attempt.◌>>=◌
kernel_submit_event-Reports_example =
    kernel_submit_event-Reports toy toy_serde clock input kernel_init (left_by submitted_nameless)
      (err_json toy (str "missing request_id")) refl refl

kernel_verify_record-decides_example :
    (IsGenuine toy child
      × (kernel_verify_record toy toy_serde input (some kernel_init) ≡ (
        returned (ok_json toy (singleton (str "verified") (bool true))),
        some (with_last_error none kernel_init),
      )))
    ⊎ ((¬ IsGenuine toy child)
        × (kernel_verify_record toy toy_serde input (some kernel_init) ≡ (
          returned (err_json toy (str "record verification failed")),
          some (with_last_error (some (str "record verification failed")) kernel_init),
        )))
unfolding from_c_string parse_record parse_event
kernel_verify_record-decides_example =
    kernel_verify_record-decides toy toy_serde input (str "{}") child kernel_init refl refl refl
      refl

kernel_verify_record-refuses_children_example :
    kernel_verify_record toy toy_serde input (some kernel_init) ≡ (
      returned (err_json toy (str "record verification failed")),
      some (with_last_error (some (str "record verification failed")) kernel_init),
    )
unfolding from_c_string parse_record parse_event new_event str
kernel_verify_record-refuses_children_example =
    kernel_verify_record-refuses_children toy toy_serde input (str "{}") child kernel_init refl refl
      refl refl has_parent
  where
    has_parent : child.parent_hashes ≢ []
    has_parent same = cc same

compute_heads-heads_example :
    IsRising (compute_heads (root ∷ child ∷ []))
    × ((h : Str)
        → (1 ≤ occurrences h (compute_heads (root ∷ child ∷ []))) ↔ (
            (1 ≤ occurrences h (hashes (root ∷ child ∷ [])))
            × All (λ e. occurrences h e.parent_hashes ≡ 0) (root ∷ child ∷ [])))
compute_heads-heads_example = compute_heads-heads (root ∷ child ∷ [])

engine_replay_summary-diverges_example :
    (engine_replay_summary toy toy_serde kernel_init.inner
      ≡ (returned (err divergence), kernel_init.inner))
    ⊎ Collides toy (state_root_material [] 0) replay_material
engine_replay_summary-diverges_example =
    engine_replay_summary-diverges toy toy_serde kernel_init.inner (object end) refl refl

abbrev python_serde : PythonSerde
python_serde = record {
  create_region_input = λ v. err (str "no request");
  state_text = λ _. ok (str "{}");
  states_text = λ _. ok (str "[]");
  region_text = λ _. ok (str "{}");
  found_region_text = λ _. ok (str "null");
  regions_text = λ _. ok (str "[]");
  id_text = λ _. ok (str "null");
  bool_text = λ _. ok (str "true");
  found_state_text = λ _. ok (str "null");
  all_states_text = λ _. ok (str "[]");
  records_text = λ _. ok (str "[]");
  found_event_text = λ _. ok (str "null");
  replay_text = λ _. ok (str "{}");
  root_text = λ _. ok (str "{}");
  value_text = λ _. ok (str "{}");
}

script-Refines_example :
    script toy python_serde (py_certify clock (str "A") ∷ py_query_records ∷ []) new_py_engine
    ≡ run toy
        (commands_of_all toy python_serde (py_certify clock (str "A") ∷ py_query_records ∷ []))
        new_py_engine
script-Refines_example =
    script-Refines toy python_serde (py_certify clock (str "A") ∷ py_query_records ∷ [])
      new_py_engine

-- The child is the only head.
compute_heads_runs : compute_heads (root ∷ child ∷ []) ≡ str "h2" ∷ []
unfolding compute_heads referenced_as_parent insert_all not_in dedup sort_by insert get contains_key
    str_eq str_cmp str new_event
compute_heads_runs = refl
