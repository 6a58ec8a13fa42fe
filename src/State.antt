-- ===== src/State.antt =====
-- src/state.rs: the vector state, its constructors and its checks. The canonical bytes and the
-- state root are in State/Bytes.
pub mod Bytes
use v_kernelx.Base.{
  ℕ, zero, suc, ◌+◌, ◌≤◌, Bool, true, false, not, ◌&&◌, ◌||◌, Option, none, some, List, [], ◌∷◌,
  ◌==◌, if◌then◌else◌, length, is_nil, add64, add128,
}
use v_kernelx.Base.Text.{Str, str, str_eq}
use v_kernelx.Base.Map.{Map}
use v_kernelx.Error.{
  KernelXError, zero_normalization, dimension_mismatch, invalid_state, Result, ok, err, ◌>>=◌, ◌>>◌,
  fail_if,
}

unfoldable pub state_schema_v1 : Str
state_schema_v1 = str "v.kernelx/VectorStateV1"

pub data VectorType : Type 0 where
  standard origin projected escrow settlement locked : VectorType

pub data VectorStatus : Type 0 where
  active projected escrowed settled archived : VectorStatus

pub record CertificationState : Type 0 where
  pub certified : Bool
  pub auth_ratio : ℕ
  pub threshold : ℕ
  pub last_checked_at_ms : ℕ
  pub reason : Option Str

pub record ProjectionState : Type 0 where
  pub escrow_id : Str
  pub projected_components : List ℕ
  pub settled_components : List ℕ
  pub started_at_ms : ℕ
  pub settlement_at_ms : Option ℕ
  pub outcome_tag : Option Str

pub record OriginState : Type 0 where
  pub seed : Str
  pub nonce : ℕ
  pub difficulty : ℕ
  pub proof_hash : Str

pub record VectorStateV1 : Type 0 where
  pub schema : Str
  pub vector_id : Str
  pub owner_pubkey : Str
  pub space_id : Str
  pub vector_type : VectorType
  pub status : VectorStatus
  pub components : List ℕ
  pub type_metadata : Map Str
  pub certification : CertificationState
  pub projection : Option ProjectionState
  pub origin : Option OriginState
  pub version : ℕ
  pub created_at_ms : ℕ
  pub updated_at_ms : ℕ

pub record DirectionShare : Type 0 where
  pub component_index : ℕ
  pub numerator : ℕ
  pub denominator : ℕ

pub record StateRoot : Type 0 where
  pub root_hash : Str
  pub event_count : ℕ
  pub logical_clock : ℕ

-- `VectorStateV1::new`
unfoldable pub new : Str → Str → Str → List ℕ → VectorType → ℕ → VectorStateV1
new vector_id owner_pubkey space_id components vector_type timestamp_ms = record {
  schema = state_schema_v1;
  vector_id = vector_id;
  owner_pubkey = owner_pubkey;
  space_id = space_id;
  vector_type = vector_type;
  status = VectorStatus.active;
  components = components;
  type_metadata = [];
  certification = record {
    certified = false;
    auth_ratio = 0;
    threshold = 700;
    last_checked_at_ms = timestamp_ms;
    reason = some (str "not yet certified");
  };
  projection = none;
  origin = none;
  version = 1;
  created_at_ms = timestamp_ms;
  updated_at_ms = timestamp_ms;
}

-- `iter().sum()` from the left, in `u128`
sum_from : ℕ → List ℕ → ℕ
sum_from acc [] = acc
sum_from acc (x ∷ xs) = sum_from (add128 acc x) xs

unfoldable pub magnitude : VectorStateV1 → ℕ
unfolding sum_from
magnitude s = sum_from 0 s.components

all_zero : List ℕ → Bool
all_zero [] = true
all_zero (v ∷ vs) = v == 0 && all_zero vs

unfoldable pub is_zero : VectorStateV1 → Bool
unfolding all_zero
is_zero s = all_zero s.components

shares_from : ℕ → ℕ → List ℕ → List DirectionShare
shares_from i magnitude [] = []
shares_from i magnitude (c ∷ cs) =
    record { component_index = i; numerator = c; denominator = magnitude }
    ∷ shares_from (i + 1) magnitude cs

unfoldable pub direction_shares : VectorStateV1 → Result KernelXError (List DirectionShare)
unfolding magnitude shares_from
direction_shares s =
    if magnitude s == 0
    then err zero_normalization
    else ok (shares_from 0 (magnitude s) s.components)

unfoldable pub ensure_same_shape : VectorStateV1 → VectorStateV1 → Result KernelXError (Unit {0})
ensure_same_shape s other =
    fail_if (not (length s.components == length other.components)) dimension_mismatch

unfoldable pub with_components : VectorStateV1 → List ℕ → ℕ → VectorStateV1
with_components s components timestamp_ms = record s {
  components = components;
  updated_at_ms = timestamp_ms;
  version = add64 s.version 1;
}

unfoldable pub with_status : VectorStateV1 → VectorStatus → ℕ → VectorStateV1
with_status s status timestamp_ms = record s {
  status = status;
  updated_at_ms = timestamp_ms;
  version = add64 s.version 1;
}

unfoldable pub validate_canonical_state : VectorStateV1 → Result KernelXError (Unit {0})
validate_canonical_state s = do
  fail_if (not (str_eq s.schema state_schema_v1)) (invalid_state (str "schema mismatch"))
  fail_if (is_nil s.components) (invalid_state (str "a vector must contain at least one component"))
  fail_if (is_nil s.owner_pubkey || is_nil s.vector_id || is_nil s.space_id)
      (invalid_state (str "vector_id, owner_pubkey, and space_id are required"))
