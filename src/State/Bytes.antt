-- ===== src/State/Bytes.antt =====
-- src/state.rs: the canonical bytes of a vector state, and the state roots.
pub mod Fields
pub mod Inverse
pub mod Order
pub mod Root
use v_kernelx.Base.{
  ℕ, ◌+◌, Bool, true, false, Option, none, some, List, [], ◌∷◌, ◌++◌, length, if◌then◌else◌,
  compare, then_with, Ordering,
}
use v_kernelx.Base.Sort.{sort_by}
use v_kernelx.Base.Text.{Str, str, str_cmp}
use v_kernelx.Base.Map.{Map}
use v_kernelx.State.{
  VectorType, standard, origin, projected, escrow, settlement, locked, VectorStatus,
  CertificationState, ProjectionState, OriginState, VectorStateV1, StateRoot,
}
use v_kernelx.Serialization.{to_be_bytes, write_each, write_entry}

unfoldable pub write_bool : Bool → List ℕ
write_bool v = (if v then 1 else 0) ∷ []

unfoldable pub write_u64 : ℕ → List ℕ
write_u64 = to_be_bytes 8

unfoldable pub write_u128 : ℕ → List ℕ
write_u128 = to_be_bytes 16

unfoldable pub write_str : Str → List ℕ
write_str value = write_u64 (length value) ++ value

unfoldable pub write_vec_u128 : List ℕ → List ℕ
write_vec_u128 values = write_u64 (length values) ++ write_each write_u128 values

unfoldable pub write_pair : Str × Str → List ℕ
write_pair e = write_str e.0 ++ write_str e.1

unfoldable pub write_btreemap_str_str : Map Str → List ℕ
write_btreemap_str_str m = write_u64 (length m) ++ write_each write_pair m

abbrev pub type_name : VectorType → Str
type_name VectorType.standard = str "STANDARD"
type_name VectorType.origin = str "ORIGIN"
type_name VectorType.projected = str "PROJECTED"
type_name VectorType.escrow = str "ESCROW"
type_name VectorType.settlement = str "SETTLEMENT"
type_name VectorType.locked = str "LOCKED"

unfoldable pub write_vector_type : VectorType → List ℕ
write_vector_type value = write_str (type_name value)

abbrev pub status_name : VectorStatus → Str
status_name VectorStatus.active = str "ACTIVE"
status_name VectorStatus.projected = str "PROJECTED"
status_name VectorStatus.escrowed = str "ESCROWED"
status_name VectorStatus.settled = str "SETTLED"
status_name VectorStatus.archived = str "ARCHIVED"

unfoldable pub write_vector_status : VectorStatus → List ℕ
write_vector_status value = write_str (status_name value)

-- `Some(v) => { write_bool(true); .. }`, `None => write_bool(false)`
unfoldable pub write_option {ℓ} : {A : Type ℓ} → (A → List ℕ) → Option A → List ℕ
write_option write none = write_bool false
write_option write (some v) = write_bool true ++ write v

unfoldable pub write_certification_state : CertificationState → List ℕ
write_certification_state c =
    write_bool c.certified
    ++ (write_u64 c.auth_ratio
        ++ (write_u64 c.threshold
            ++ (write_u64 c.last_checked_at_ms ++ write_option write_str c.reason)))

unfoldable pub write_projection_state : ProjectionState → List ℕ
write_projection_state p =
    write_str p.escrow_id
    ++ (write_vec_u128 p.projected_components
        ++ (write_vec_u128 p.settled_components
            ++ (write_u64 p.started_at_ms
                ++ (write_option write_u64 p.settlement_at_ms
                    ++ write_option write_str p.outcome_tag))))

unfoldable pub write_origin_state : OriginState → List ℕ
write_origin_state o =
    write_str o.seed ++ (write_u64 o.nonce ++ (write_u64 o.difficulty ++ write_str o.proof_hash))

unfoldable pub canonical_vector_state_bytes : VectorStateV1 → List ℕ
canonical_vector_state_bytes s =
    write_str s.schema
    ++ (write_str s.vector_id
        ++ (write_str s.owner_pubkey
            ++ (write_str s.space_id
                ++ (write_vector_type s.vector_type
                    ++ (write_vector_status s.status
                        ++ (write_vec_u128 s.components
                            ++ (write_btreemap_str_str s.type_metadata
                                ++ (write_certification_state s.certification
                                    ++ (write_option write_projection_state s.projection
                                        ++ (write_option write_origin_state s.origin
                                            ++ (write_u64 s.version
                                                ++ (write_u64 s.created_at_ms
                                                    ++ write_u64 s.updated_at_ms))))))))))))

-- The comparator of `compute_state_root`.
abbrev pub root_order : VectorStateV1 → VectorStateV1 → Ordering
root_order a b =
    then_with (then_with (str_cmp a.vector_id b.vector_id) (compare a.version b.version))
      (compare a.updated_at_ms b.updated_at_ms)

unfoldable pub write_state : VectorStateV1 → List ℕ
write_state s =
    write_u64 (length (canonical_vector_state_bytes s)) ++ canonical_vector_state_bytes s

-- What `compute_state_root` hashes.
unfoldable pub state_root_material : List VectorStateV1 → ℕ → List ℕ
state_root_material ordered logical_clock =
    str "v-kernelx/state-root-v1"
    ++ (write_u64 (length ordered) ++ (write_u64 logical_clock ++ write_each write_state ordered))

module _ (blake3_hex : List ℕ → Str) where
  unfoldable pub compute_state_root : List VectorStateV1 → ℕ → StateRoot
  compute_state_root states logical_clock =
      let ordered = sort_by root_order states in
      record {
        root_hash = blake3_hex (state_root_material ordered logical_clock);
        event_count = length ordered;
        logical_clock = logical_clock;
      }

  unfoldable pub compute_state_root_from_canonical_bytes : List ℕ → ℕ → ℕ → StateRoot
  compute_state_root_from_canonical_bytes canonical_state_bytes event_count logical_clock = record {
    root_hash = blake3_hex (
        str "v-kernelx/state-root-v1"
        ++ (write_u64 event_count
            ++ (write_u64 logical_clock
                ++ (write_u64 (length canonical_state_bytes) ++ canonical_state_bytes))));
    event_count = event_count;
    logical_clock = logical_clock;
  }
