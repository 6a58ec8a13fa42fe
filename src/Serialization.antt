-- ===== src/Serialization.antt =====
-- src/serialization.rs: the canonical bytes. A writer is the list of the bytes that it appends to
-- the buffer.
pub mod Codes
pub mod Operations
pub mod Events
use v_kernelx.Base.{
  ℕ, zero, suc, ◌/◌, ◌%◌, ◌^◌, Bool, true, false, List, [], ◌∷◌, ◌++◌, length, if◌then◌else◌,
}
use v_kernelx.Base.Text.{Str, str}
use v_kernelx.Base.Map.{Map}
use v_kernelx.State.{StateRoot}
use v_kernelx.Event.{
  OperationType, origin_create, certify, transfer, drain, project, reconstruct, move, rotate, scale,
  normalize, constrain, query, record_op, other, VectorState, VectorEvent,
}

-- `to_be_bytes` of an integer of `width` bytes
unfoldable pub to_be_bytes : ℕ → ℕ → List ℕ
to_be_bytes zero value = []
to_be_bytes (suc width) value = to_be_bytes width (value / 256) ++ (value % 256 ∷ [])

unfoldable pub write_bool : Bool → List ℕ
write_bool value = (if value then 1 else 0) ∷ []

unfoldable pub write_u32 : ℕ → List ℕ
write_u32 = to_be_bytes 4

unfoldable pub write_u64 : ℕ → List ℕ
write_u64 value = write_u32 (value / 2 ^ 32) ++ write_u32 (value % 2 ^ 32)

-- `write_f64` writes the bits, big-endian.
unfoldable pub write_f64 : ℕ → List ℕ
write_f64 = to_be_bytes 8

unfoldable pub write_str : Str → List ℕ
write_str value = write_u64 (length value) ++ value

-- `write_bytes`
unfoldable pub write_bytes : List ℕ → List ℕ
write_bytes bytes = write_u64 (length bytes) ++ bytes

-- `for v in values { .. }`
unfoldable pub write_each {ℓ} : {A : Type ℓ} → (A → List ℕ) → List A → List ℕ
write_each write [] = []
write_each write (v ∷ values) = write v ++ write_each write values

unfoldable pub write_vec_str : List Str → List ℕ
write_vec_str values = write_u64 (length values) ++ write_each write_str values

unfoldable pub write_entry {ℓ} : {V : Type ℓ} → (V → List ℕ) → Str × V → List ℕ
write_entry write e = write_str e.0 ++ write e.1

unfoldable pub write_btreemap_str_str : Map Str → List ℕ
write_btreemap_str_str m = write_u64 (length m) ++ write_each (write_entry write_str) m

unfoldable pub write_vec_u64 : List ℕ → List ℕ
write_vec_u64 values = write_u64 (length values) ++ write_each write_u64 values

unfoldable pub operation_bytes : OperationType → List ℕ
operation_bytes origin_create = write_str (str "ORIGIN_CREATE")
operation_bytes certify = write_str (str "CERTIFY")
operation_bytes transfer = write_str (str "TRANSFER")
operation_bytes drain = write_str (str "DRAIN")
operation_bytes project = write_str (str "PROJECT")
operation_bytes reconstruct = write_str (str "RECONSTRUCT")
operation_bytes move = write_str (str "MOVE")
operation_bytes rotate = write_str (str "ROTATE")
operation_bytes scale = write_str (str "SCALE")
operation_bytes normalize = write_str (str "NORMALIZE")
operation_bytes constrain = write_str (str "CONSTRAIN")
operation_bytes query = write_str (str "QUERY")
operation_bytes record_op = write_str (str "RECORD")
operation_bytes (other name) = write_str (str "OTHER") ++ write_str name

unfoldable pub vector_state_bytes : VectorState → List ℕ
vector_state_bytes s =
    write_vec_u64 s.components
    ++ (write_str s.owner_public_key ++ (write_str s.type_tag ++ write_btreemap_str_str s.metadata))

unfoldable pub state_root_bytes : StateRoot → List ℕ
state_root_bytes r = write_str r.root_hash ++ (write_u64 r.event_count ++ write_u64 r.logical_clock)

unfoldable pub canonical_event_payload_bytes : VectorEvent → List ℕ
canonical_event_payload_bytes e =
    write_str e.event_id
    ++ (write_vec_str e.parent_hashes
        ++ (write_str e.region_id
            ++ (write_str e.entity_id
                ++ (operation_bytes e.operation
                    ++ (vector_state_bytes e.vector_before
                        ++ (vector_state_bytes e.vector_after
                            ++ (write_f64 e.auth_ratio
                                ++ (write_bool e.certified
                                    ++ (write_str e.actor_public_key
                                        ++ (write_u64 e.logical_clock
                                            ++ write_u64 e.timestamp))))))))))

unfoldable pub canonical_event_bytes : VectorEvent → List ℕ
canonical_event_bytes e = canonical_event_payload_bytes e ++ write_str e.payload_hash

unfoldable pub canonical_state_map_bytes : Map VectorState → List ℕ
canonical_state_map_bytes m = write_u64 (length m) ++ write_each (write_entry vector_state_bytes) m

unfoldable pub canonical_event_sequence_bytes : List Str → List ℕ
canonical_event_sequence_bytes event_hashes =
    write_u64 (length event_hashes) ++ write_each write_str event_hashes

unfoldable pub canonical_blob_bytes : Str → List ℕ → List ℕ
canonical_blob_bytes tag payload = write_str tag ++ write_bytes payload
