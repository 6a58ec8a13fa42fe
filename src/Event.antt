-- ===== src/Event.antt =====
-- src/event.rs. An `f64` is its bit pattern, a number below 2 ^ 64.
use v_kernelx.Base.{ℕ, Bool, true, ◌&&◌, List, [], ◌∷◌, ◌++◌, ◌==◌, replicate, add128}
use v_kernelx.Base.Text.{Str, str, decimal}
use v_kernelx.Base.Map.{Map}

pub data OperationType : Type 0 where
  origin_create certify transfer drain project reconstruct move rotate scale normalize constrain :
      OperationType
  query record_op : OperationType
  other : Str → OperationType

unfoldable pub canonical_name : OperationType → Str
canonical_name origin_create = str "ORIGIN_CREATE"
canonical_name certify = str "CERTIFY"
canonical_name transfer = str "TRANSFER"
canonical_name drain = str "DRAIN"
canonical_name project = str "PROJECT"
canonical_name reconstruct = str "RECONSTRUCT"
canonical_name move = str "MOVE"
canonical_name rotate = str "ROTATE"
canonical_name scale = str "SCALE"
canonical_name normalize = str "NORMALIZE"
canonical_name constrain = str "CONSTRAIN"
canonical_name query = str "QUERY"
canonical_name record_op = str "RECORD"
canonical_name (other name) = str "OTHER"

pub record VectorState : Type 0 where
  pub components : List ℕ
  pub owner_public_key : Str
  pub type_tag : Str
  pub metadata : Map Str

-- `VectorState::zero`
unfoldable pub zero_state : ℕ → Str → Str → VectorState
zero_state dimensions owner_public_key type_tag = record {
  components = replicate dimensions 0;
  owner_public_key = owner_public_key;
  type_tag = type_tag;
  metadata = [];
}

magnitude_from : ℕ → List ℕ → ℕ
magnitude_from acc [] = acc
magnitude_from acc (x ∷ xs) = magnitude_from (add128 acc x) xs

-- `VectorState::magnitude`
unfoldable pub event_magnitude : VectorState → ℕ
unfolding magnitude_from
event_magnitude s = magnitude_from 0 s.components

zeros_only : List ℕ → Bool
zeros_only [] = true
zeros_only (x ∷ xs) = x == 0 && zeros_only xs

-- `VectorState::is_zero`
unfoldable pub event_is_zero : VectorState → Bool
unfolding zeros_only
event_is_zero s = zeros_only s.components

pub record VectorEvent : Type 0 where
  pub event_id : Str
  pub parent_hashes : List Str
  pub region_id : Str
  pub entity_id : Str
  pub operation : OperationType
  pub vector_before : VectorState
  pub vector_after : VectorState
  pub auth_ratio : ℕ
  pub certified : Bool
  pub actor_public_key : Str
  pub logical_clock : ℕ
  pub timestamp : ℕ
  pub payload_hash : Str
  pub event_hash : Str
  pub signature : Str

-- `VectorEvent::new`: the hashes and the signature are empty.
unfoldable pub new_event :
    Str
    → List Str
    → Str
    → Str
    → OperationType
    → VectorState
    → VectorState
    → ℕ
    → Bool
    → Str
    → ℕ
    → ℕ
    → VectorEvent
new_event event_id parent_hashes region_id entity_id operation vector_before vector_after auth_ratio
      certified actor_public_key logical_clock timestamp =
    record {
      event_id = event_id;
      parent_hashes = parent_hashes;
      region_id = region_id;
      entity_id = entity_id;
      operation = operation;
      vector_before = vector_before;
      vector_after = vector_after;
      auth_ratio = auth_ratio;
      certified = certified;
      actor_public_key = actor_public_key;
      logical_clock = logical_clock;
      timestamp = timestamp;
      payload_hash = [];
      event_hash = [];
      signature = [];
    }

unfoldable pub canonical_event_id : Str → Str → OperationType → ℕ → ℕ → Str
canonical_event_id entity_id region_id operation logical_clock sequence =
    entity_id
    ++ (str "::"
        ++ (region_id
            ++ (str "::"
                ++ (canonical_name operation
                    ++ (str "::" ++ (decimal logical_clock ++ (str "::" ++ decimal sequence)))))))
