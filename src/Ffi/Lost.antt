-- ===== src/Ffi/Lost.antt =====
-- Which calls do not return, and what a submission returns where it does.
use v_kernelx.Base.{◌≡◌, Option, none, some}
use v_kernelx.Base.Text.{Str}
use v_kernelx.Error.{Result, ok, err}
use v_kernelx.External.{External, Value}
use v_kernelx.Ffi.Attempt.{Attempt, on_inner}
use v_kernelx.Ffi.Calls.{Call, dispatch}
use v_kernelx.Ffi.Entries.{
  answer, guarded, with_request, kernel_origin_create, kernel_transfer, kernel_drain,
  kernel_project, kernel_reconstruct, kernel_certify,
}
use v_kernelx.Ffi.Handle.{
  KernelInner, KernelHandle, Act, CStr, from_c_string, set_last_error, clear_last_error, ◌>>=◌,
}
use v_kernelx.Ffi.Locking.{
  IsLost, LostUnder, after_write-LostUnder, answer-LostUnder, on_inner-LostUnder, guarded-IsLost,
}
use v_kernelx.Ffi.Reading.{kernel_replay, replay_answer}
use v_kernelx.Ffi.Lookups.{
  kernel_query_vector, kernel_query_vectors, kernel_query_records, kernel_query_event_by_hash,
  cleared_with, found_or_not,
}
use v_kernelx.Ffi.Requests.{Serde, Deserialize}

-- `serde` reads a request of the text that comes in.
abbrev pub Read : {T : Type 0} → Serde → Deserialize T → CStr → Type 0
Read {T} serde codec input_json =
    (text : Str) × (request : T) × (from_c_string serde.utf8_error input_json ≡ ok text)
    × (codec.of_text text ≡ ok request)

-- The calls that write the last error under their own guard, once their request is read.
abbrev pub GetsStuck : Serde → Call → Type 0
GetsStuck serde (Call.origin_create now input) = Read serde serde.origin_create_request input
GetsStuck serde (Call.transfer now input) = Read serde serde.transfer_request input
GetsStuck serde (Call.drain now input) = Read serde serde.drain_request input
GetsStuck serde (Call.project now input) = Read serde serde.project_request input
GetsStuck serde (Call.reconstruct now input) = Read serde serde.reconstruct_request input
GetsStuck serde (Call.certify now input) = Read serde serde.certify_request input
GetsStuck serde Call.replay = Unit
GetsStuck serde (Call.query_vector input) = Read serde serde.query_vector_request input
GetsStuck serde (Call.query_vectors input) = Unit
GetsStuck serde (Call.query_records input) = Unit
GetsStuck serde (Call.query_event_by_hash input) =
    Read serde serde.query_event_by_hash_request input
GetsStuck serde _ = ⊥

module _ (ext : External) (serde : Serde) where
  with_request-IsLost :
      {T : Type 0} (codec : Deserialize T) (label : Str) (input : CStr)
      (k : T → Act KernelHandle Str) (h : KernelHandle)
      → Read serde codec input
      → ((request : T) → IsLost (k request h).0)
      → IsLost (with_request ext serde codec label input k h).0
  unfolding with_request
  with_request-IsLost codec label input k h (text, request, text_ok, request_ok) lost =
      rw (text_ok, request_ok) (lost request)

  guarded-answer-IsLost :
      (m : Attempt KernelInner Value) (h : KernelHandle)
      → IsLost (guarded ext (on_inner m >>= answer ext) h).0
  guarded-answer-IsLost m h =
      guarded-IsLost ext _ h (on_inner-LostUnder m (answer ext) (answer-LostUnder ext))

  cleared_with-LostUnder :
      (key : Str) (value : Option Value) → LostUnder (cleared_with ext serde key value)
  unfolding cleared_with clear_last_error
  cleared_with-LostUnder key value = after_write-LostUnder none _

  found_or_not-LostUnder :
      {A : Type 0} (key : Str) (to_value : A → Option Value) (found : Option A)
      → LostUnder (found_or_not ext serde key to_value found)
  unfolding found_or_not
  found_or_not-LostUnder key to_value none = cleared_with-LostUnder _ _
  found_or_not-LostUnder key to_value (some a) = cleared_with-LostUnder _ _

  replay_answer-LostUnder : (r : Result Str Value) → LostUnder (replay_answer ext serde r)
  unfolding replay_answer clear_last_error set_last_error
  replay_answer-LostUnder (ok v) = after_write-LostUnder none _
  replay_answer-LostUnder (err e) = after_write-LostUnder (some e) _

  -- The six operations, the replay and the four queries do not return, whatever they find: once
  -- the request is read, they write the last error under the guard that they hold, or panic.
  pub dispatch-IsLost :
      (c : Call) (h : KernelHandle) → GetsStuck serde c → IsLost (dispatch ext serde c (some h)).0
  unfolding dispatch kernel_origin_create kernel_transfer kernel_drain kernel_project
      kernel_reconstruct kernel_certify kernel_replay kernel_query_vector kernel_query_vectors
      kernel_query_records kernel_query_event_by_hash
  dispatch-IsLost (Call.origin_create now input) h read =
      with_request-IsLost _ _ input _ h read (λ request. guarded-answer-IsLost _ h)
  dispatch-IsLost (Call.transfer now input) h read =
      with_request-IsLost _ _ input _ h read (λ request. guarded-answer-IsLost _ h)
  dispatch-IsLost (Call.drain now input) h read =
      with_request-IsLost _ _ input _ h read (λ request. guarded-answer-IsLost _ h)
  dispatch-IsLost (Call.project now input) h read =
      with_request-IsLost _ _ input _ h read (λ request. guarded-answer-IsLost _ h)
  dispatch-IsLost (Call.reconstruct now input) h read =
      with_request-IsLost _ _ input _ h read (λ request. guarded-answer-IsLost _ h)
  dispatch-IsLost (Call.certify now input) h read =
      with_request-IsLost _ _ input _ h read (λ request. guarded-answer-IsLost _ h)
  dispatch-IsLost Call.replay h read =
      guarded-IsLost ext _ h (on_inner-LostUnder _ _ replay_answer-LostUnder)
  dispatch-IsLost (Call.query_vector input) h read =
      with_request-IsLost _ _ input _ h read
        λ request. guarded-IsLost ext _ h (λ g. found_or_not-LostUnder _ _ _ g)
  dispatch-IsLost (Call.query_vectors input) h read =
      guarded-IsLost ext _ h (λ g. cleared_with-LostUnder _ _ g)
  dispatch-IsLost (Call.query_records input) h read =
      guarded-IsLost ext _ h (λ g. cleared_with-LostUnder _ _ g)
  dispatch-IsLost (Call.query_event_by_hash input) h read =
      with_request-IsLost _ _ input _ h read
        λ request. guarded-IsLost ext _ h (λ g. found_or_not-LostUnder _ _ _ g)
  dispatch-IsLost (Call.submit_event now input) h read = elim read [ ]
  dispatch-IsLost (Call.execute_operation now input) h read = elim read [ ]
  dispatch-IsLost Call.compute_state_root h read = elim read [ ]
  dispatch-IsLost (Call.verify_record input) h read = elim read [ ]
