-- ===== src/Ffi/Calls.antt =====
-- src/ffi.rs: a call through a pointer, and a session of calls from one thread.
use v_kernelx.Base.{ℕ, List, [], ◌∷◌}
use v_kernelx.Base.Text.{Str}
use v_kernelx.External.{External}
use v_kernelx.Ffi.Entries.{
  kernel_origin_create, kernel_transfer, kernel_drain, kernel_project, kernel_reconstruct,
  kernel_certify, kernel_submit_event, kernel_execute_operation,
}
use v_kernelx.Ffi.Handle.{Ended, returned, stuck, aborted, Pointer, CStr}
use v_kernelx.Ffi.Reading.{kernel_replay, kernel_verify_record, kernel_compute_state_root}
use v_kernelx.Ffi.Lookups.{
  kernel_query_vector, kernel_query_vectors, kernel_query_records, kernel_query_event_by_hash,
}
use v_kernelx.Ffi.Requests.{Serde}

-- The exported functions that take a handle and may write to it, with the clock's readings.
pub data Call : Type 0 where
  submit_event : (ℕ → ℕ) → CStr → Call
  execute_operation : (ℕ → ℕ → ℕ) → CStr → Call
  origin_create transfer drain project reconstruct certify : (ℕ → ℕ) → CStr → Call
  replay compute_state_root : Call
  verify_record query_vector query_vectors query_records query_event_by_hash : CStr → Call

module _ (ext : External) (serde : Serde) where
  unfoldable pub dispatch : Call → Pointer → Ended Str × Pointer
  dispatch (submit_event now input) = kernel_submit_event ext serde now input
  dispatch (execute_operation now input) = kernel_execute_operation ext serde now input
  dispatch (origin_create now input) = kernel_origin_create ext serde now input
  dispatch (transfer now input) = kernel_transfer ext serde now input
  dispatch (drain now input) = kernel_drain ext serde now input
  dispatch (project now input) = kernel_project ext serde now input
  dispatch (reconstruct now input) = kernel_reconstruct ext serde now input
  dispatch (certify now input) = kernel_certify ext serde now input
  dispatch replay = kernel_replay ext serde
  dispatch compute_state_root = kernel_compute_state_root ext serde
  dispatch (verify_record input) = kernel_verify_record ext serde input
  dispatch (query_vector input) = kernel_query_vector ext serde input
  dispatch (query_vectors input) = kernel_query_vectors ext serde input
  dispatch (query_records input) = kernel_query_records ext serde input
  dispatch (query_event_by_hash input) = kernel_query_event_by_hash ext serde input

  -- The thread goes on with the next call only if this one returns.
  abbrev pub next : Ended Str → Pointer → (Pointer → Pointer) → Pointer
  next (returned text) p rest = rest p
  next stuck p rest = p
  next aborted p rest = p

  unfoldable pub session : List Call → Pointer → Pointer
  session [] p = p
  session (c ∷ calls) p = next (dispatch c p).0 (dispatch c p).1 (session calls)
