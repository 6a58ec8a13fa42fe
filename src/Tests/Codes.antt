-- ===== src/Tests/Codes.antt =====
-- The encodings, the append and the nonce search on concrete inputs.
use v_kernelx.Serialization.Codes.{IsSized, IsSizedList}
use v_kernelx.External.{External}
use v_kernelx.Base.{All, ◌≡◌, ◌<◌, refl, ℕ, none, some, true, false, List, [], ◌∷◌, arith}
use v_kernelx.Base.Text.{Str, str}
use v_kernelx.Base.Map.{Map}
use v_kernelx.Error.{ok}
use v_kernelx.Event.{VectorState, VectorEvent, zero_state, new_event, transfer}
use v_kernelx.Origin.{verify_origin, find_valid_nonce, origin_proof_hash, leading_zeros}
use v_kernelx.Origin.Search.{find_valid_nonce-least}
use v_kernelx.Serialization.{write_each, to_be_bytes}
use v_kernelx.Serialization.Events.{
  IsStored, IsEvent, SamePayload, canonical_event_payload_bytes-inj, canonical_event_bytes-inj,
}
use v_kernelx.Signature.{hex_encode, hex_decode}
use v_kernelx.Signature.Hex.{hex_decode-hex_encode}
use v_kernelx.State.{VectorStateV1, new, state_schema_v1}
use v_kernelx.State.Bytes.Inverse.{IsHeld, canonical_vector_state_bytes-inj}
use v_kernelx.Base.Sort.Unique.{Reorders}
use v_kernelx.State.Bytes.{
  compute_state_root, canonical_vector_state_bytes, write_str, write_u64, write_u128,
  write_vec_u128, write_btreemap_str_str, write_vector_type, write_vector_status, write_option,
  write_certification_state, write_bool,
}
use v_kernelx.State.Bytes.Order.{HasOwnIds, compute_state_root-eq_of_Reorders}
use v_kernelx.State.Bytes.Root.{state_root_material-inj}
use v_kernelx.Tests.World.{toy, alice, bob}

hex_decode-hex_encode_example :
    hex_decode (hex_encode (0 ∷ 171 ∷ 255 ∷ [])) ≡ ok (0 ∷ 171 ∷ 255 ∷ [])
hex_decode-hex_encode_example =
    hex_decode-hex_encode (0 ∷ 171 ∷ 255 ∷ []) (omega arith, (omega arith, (omega arith, tt)))

alice-IsHeld : IsHeld alice
unfolding new str state_schema_v1
alice-IsHeld = record {
  schema = omega arith;
  vector_id = omega arith;
  owner_pubkey = omega arith;
  space_id = omega arith;
  components = (omega arith, (omega arith, (omega arith, tt)));
  type_metadata = (omega arith, tt);
  certification = record {
    auth_ratio = omega arith;
    threshold = omega arith;
    last_checked_at_ms = omega arith;
    reason = omega arith;
  };
  projection = tt;
  origin = tt;
  version = omega arith;
  created_at_ms = omega arith;
  updated_at_ms = omega arith;
}

canonical_vector_state_bytes-inj_example : alice ≡ alice
canonical_vector_state_bytes-inj_example =
    canonical_vector_state_bytes-inj alice alice alice-IsHeld alice-IsHeld refl

abbrev spent : VectorState
spent = zero_state 2 (str "pk-a") (str "Standard")

abbrev event : VectorEvent
event =
    record (new_event (str "A::S::TRANSFER::1::1") [] (str "S") (str "A") transfer spent spent 0
      true (str "pk-a") 1 7) { event_hash = str "h" }

spent-IsStored : IsStored spent
unfolding zero_state str
spent-IsStored = record {
  components = (omega arith, (omega arith, (omega arith, tt)));
  owner = omega arith;
  type_tag = omega arith;
  metadata = (omega arith, tt);
}

event_fits : IsEvent event
unfolding new_event str
event_fits = record {
  event_id = omega arith;
  parent_hashes = (omega arith, tt);
  region_id = omega arith;
  entity_id = omega arith;
  operation = omega arith;
  vector_before = spent-IsStored;
  vector_after = spent-IsStored;
  auth_ratio = omega arith;
  actor_public_key = omega arith;
  logical_clock = omega arith;
  timestamp = omega arith;
  payload_hash = omega arith;
}

canonical_event_payload_bytes-inj_example : SamePayload event event
canonical_event_payload_bytes-inj_example =
    canonical_event_payload_bytes-inj event event event_fits event_fits refl

canonical_event_bytes-inj_example :
    SamePayload event event × (event.payload_hash ≡ event.payload_hash)
canonical_event_bytes-inj_example = canonical_event_bytes-inj event event event_fits event_fits refl

abbrev state_map : Map VectorState
state_map = (str "A", spent) ∷ []

state_map_fits : IsSized state_map × All (λ e. IsSized e.0 × IsStored e.1) state_map
unfolding str
state_map_fits = (omega arith, ((omega arith, spent-IsStored), tt))

abbrev hashes : List Str
hashes = str "h" ∷ str "k" ∷ []

hashes_fit : IsSizedList hashes
unfolding str
hashes_fit = (omega arith, (omega arith, (omega arith, tt)))

mirrored : List ℕ → List ℕ → List ℕ
mirrored seen [] = seen
mirrored seen (b ∷ bytes) = mirrored (b ∷ seen) bytes

-- A hash that turns its input around, so that the last byte of the nonce comes first: `0` is 48.
abbrev turning : External
turning = record toy { blake3_hex = mirrored [] }

found : find_valid_nonce turning (str "seed") 1 60 ≡ some 48
unfolding find_valid_nonce verify_origin origin_proof_hash leading_zeros to_be_bytes str mirrored
found = refl

find_valid_nonce-least_example :
    (verify_origin turning (str "seed") 48 1 ≡ true)
    × ((m : ℕ) → m < 48 → verify_origin turning (str "seed") m 1 ≡ false)
find_valid_nonce-least_example = find_valid_nonce-least turning (str "seed") 1 60 48 found

not_found : find_valid_nonce turning (str "seed") 1 3 ≡ none
unfolding find_valid_nonce verify_origin origin_proof_hash leading_zeros to_be_bytes str mirrored
not_found = refl

alice-IsSized : IsSized (canonical_vector_state_bytes alice)
unfolding canonical_vector_state_bytes write_str write_u64 write_u128 write_vec_u128
    write_btreemap_str_str write_vector_type write_vector_status write_option
    write_certification_state write_bool str new state_schema_v1 to_be_bytes write_each
alice-IsSized = omega arith

abbrev one_state : List VectorStateV1
one_state = alice ∷ []

state_root_material-inj_example : (one_state ≡ one_state) × (alice.version ≡ alice.version)
unfolding new
state_root_material-inj_example =
    state_root_material-inj one_state one_state 1 1
      (omega arith, ((alice-IsHeld, alice-IsSized), tt))
      (omega arith, ((alice-IsHeld, alice-IsSized), tt)) (omega arith) (omega arith) refl

own_ids : HasOwnIds (alice ∷ bob ∷ [])
unfolding new str
own_ids = (((λ same. absurd (ground (arith, same))), tt), (tt, tt))

compute_state_root-eq_of_Reorders_example :
    compute_state_root toy.blake3_hex (alice ∷ bob ∷ []) 4
    ≡ compute_state_root toy.blake3_hex (bob ∷ alice ∷ []) 4
compute_state_root-eq_of_Reorders_example =
    compute_state_root-eq_of_Reorders toy.blake3_hex (alice ∷ bob ∷ []) (bob ∷ alice ∷ []) 4
      (Reorders.swap alice bob []) own_ids
