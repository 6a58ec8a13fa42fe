-- ===== src/Serialization/Events.antt =====
-- The canonical bytes of event states, events, state maps and hash sequences determine what they
-- were written from.
use v_kernelx.Base.{ℕ, ◌≡◌, ap, List, [], ◌++◌, append_assoc, All}
use v_kernelx.Base.Text.{Str}
use v_kernelx.Base.Map.{Map}
use v_kernelx.Event.{VectorState, VectorEvent}
use v_kernelx.Serialization.{
  write_str, write_entry, write_u64, vector_state_bytes, canonical_event_payload_bytes,
  canonical_event_bytes, canonical_state_map_bytes, canonical_event_sequence_bytes,
}
use v_kernelx.Serialization.Codes.{
  IsCode, Is64, IsSized, IsSizedList, IsSizedMap, Is64List, write_u64-IsCode, write_f64-IsCode,
  write_bool-IsCode, write_str-IsCode, counted-IsCode, write_entry-IsCode, write_vec_str-IsCode,
  write_btreemap_str_str-IsCode, write_vec_u64-IsCode,
}
use v_kernelx.Serialization.Operations.{IsSizedOperation, operation_bytes-IsCode}

-- What Rust's types give of an event state.
pub record IsStored (s : VectorState) : Type 0 where
  pub components : Is64List s.components
  pub owner : IsSized s.owner_public_key
  pub type_tag : IsSized s.type_tag
  pub metadata : IsSizedMap s.metadata

pub vector_state_bytes-IsCode : IsCode IsStored vector_state_bytes
unfolding vector_state_bytes
vector_state_bytes-IsCode a b r s pa pb e =
    let c =
      write_vec_u64-IsCode a.components b.components _ _ pa.components pb.components
        (simp append_assoc at e) in
    let o = write_str-IsCode a.owner_public_key b.owner_public_key _ _ pa.owner pb.owner c.1 in
    let t = write_str-IsCode a.type_tag b.type_tag _ _ pa.type_tag pb.type_tag o.1 in
    let m = write_btreemap_str_str-IsCode a.metadata b.metadata _ _ pa.metadata pb.metadata t.1 in
    (
      λ i. record {
        components = c.0 i;
        owner_public_key = o.0 i;
        type_tag = t.0 i;
        metadata = m.0 i;
      },
      m.1,
    )

-- What Rust's types give of an event.
pub record IsEvent (e : VectorEvent) : Type 0 where
  pub event_id : IsSized e.event_id
  pub parent_hashes : IsSizedList e.parent_hashes
  pub region_id : IsSized e.region_id
  pub entity_id : IsSized e.entity_id
  pub operation : IsSizedOperation e.operation
  pub vector_before : IsStored e.vector_before
  pub vector_after : IsStored e.vector_after
  pub auth_ratio : Is64 e.auth_ratio
  pub actor_public_key : IsSized e.actor_public_key
  pub logical_clock : Is64 e.logical_clock
  pub timestamp : Is64 e.timestamp
  pub payload_hash : IsSized e.payload_hash

-- The two events agree on all that is hashed and signed.
pub record SamePayload (a b : VectorEvent) : Type 0 where
  pub event_id : a.event_id ≡ b.event_id
  pub parent_hashes : a.parent_hashes ≡ b.parent_hashes
  pub region_id : a.region_id ≡ b.region_id
  pub entity_id : a.entity_id ≡ b.entity_id
  pub operation : a.operation ≡ b.operation
  pub vector_before : a.vector_before ≡ b.vector_before
  pub vector_after : a.vector_after ≡ b.vector_after
  pub auth_ratio : a.auth_ratio ≡ b.auth_ratio
  pub certified : a.certified ≡ b.certified
  pub actor_public_key : a.actor_public_key ≡ b.actor_public_key
  pub logical_clock : a.logical_clock ≡ b.logical_clock
  pub timestamp : a.timestamp ≡ b.timestamp

payload_code :
    (a b : VectorEvent) (r s : List ℕ)
    → IsEvent a
    → IsEvent b
    → canonical_event_payload_bytes a ++ r ≡ canonical_event_payload_bytes b ++ s
    → SamePayload a b × (r ≡ s)
unfolding canonical_event_payload_bytes
payload_code a b r s pa pb e =
    let f1 =
      write_str-IsCode a.event_id b.event_id _ _ pa.event_id pb.event_id (simp append_assoc at e) in
    let f2 =
      write_vec_str-IsCode a.parent_hashes b.parent_hashes _ _ pa.parent_hashes pb.parent_hashes
        f1.1 in
    let f3 = write_str-IsCode a.region_id b.region_id _ _ pa.region_id pb.region_id f2.1 in
    let f4 = write_str-IsCode a.entity_id b.entity_id _ _ pa.entity_id pb.entity_id f3.1 in
    let f5 = operation_bytes-IsCode a.operation b.operation _ _ pa.operation pb.operation f4.1 in
    let f6 =
      vector_state_bytes-IsCode a.vector_before b.vector_before _ _ pa.vector_before
        pb.vector_before f5.1 in
    let f7 =
      vector_state_bytes-IsCode a.vector_after b.vector_after _ _ pa.vector_after pb.vector_after
        f6.1 in
    let f8 = write_f64-IsCode a.auth_ratio b.auth_ratio _ _ pa.auth_ratio pb.auth_ratio f7.1 in
    let f9 = write_bool-IsCode a.certified b.certified _ _ tt tt f8.1 in
    let f10 =
      write_str-IsCode a.actor_public_key b.actor_public_key _ _ pa.actor_public_key
        pb.actor_public_key f9.1 in
    let f11 =
      write_u64-IsCode a.logical_clock b.logical_clock _ _ pa.logical_clock pb.logical_clock
        f10.1 in
    let f12 = write_u64-IsCode a.timestamp b.timestamp _ _ pa.timestamp pb.timestamp f11.1 in
    (
      record {
        event_id = f1.0;
        parent_hashes = f2.0;
        region_id = f3.0;
        entity_id = f4.0;
        operation = f5.0;
        vector_before = f6.0;
        vector_after = f7.0;
        auth_ratio = f8.0;
        certified = f9.0;
        actor_public_key = f10.0;
        logical_clock = f11.0;
        timestamp = f12.0;
      },
      f12.1,
    )

-- Two events within the ranges of Rust's types with the same signed payload bytes agree on every
-- signed field.
pub canonical_event_payload_bytes-inj :
    (a b : VectorEvent)
    → IsEvent a
    → IsEvent b
    → canonical_event_payload_bytes a ≡ canonical_event_payload_bytes b
    → SamePayload a b
canonical_event_payload_bytes-inj a b pa pb e =
    (payload_code a b [] [] pa pb (ap (λ x. x ++ []) e)).0

-- Two events within the ranges of Rust's types with the same hashed bytes agree on every field but
-- the event hash and the signature.
pub canonical_event_bytes-inj :
    (a b : VectorEvent)
    → IsEvent a
    → IsEvent b
    → canonical_event_bytes a ≡ canonical_event_bytes b
    → SamePayload a b × (a.payload_hash ≡ b.payload_hash)
unfolding canonical_event_bytes
canonical_event_bytes-inj a b pa pb e =
    let (same, rest) =
      payload_code a b (write_str a.payload_hash) (write_str b.payload_hash) pa pb e in
    let hash =
      write_str-IsCode a.payload_hash b.payload_hash [] [] pa.payload_hash pb.payload_hash
        (ap (λ x. x ++ []) rest) in
    (same, hash.0)

-- The bytes of a state map within the ranges of Rust's types determine the map.
pub canonical_state_map_bytes-inj :
    (m n : Map VectorState)
    → IsSized m × All (λ e. IsSized e.0 × IsStored e.1) m
    → IsSized n × All (λ e. IsSized e.0 × IsStored e.1) n
    → canonical_state_map_bytes m ≡ canonical_state_map_bytes n
    → m ≡ n
unfolding canonical_state_map_bytes
canonical_state_map_bytes-inj m n pm pn e =
    (counted-IsCode (λ e. IsSized e.0 × IsStored e.1) (write_entry vector_state_bytes)
      (write_entry-IsCode IsStored vector_state_bytes vector_state_bytes-IsCode) write_u64
      write_u64-IsCode m n [] [] pm pn (ap (λ x. x ++ []) e)).0

-- The bytes of a sequence of hashes within the ranges of Rust's types determine the sequence.
pub canonical_event_sequence_bytes-inj :
    (xs ys : List Str)
    → IsSizedList xs
    → IsSizedList ys
    → canonical_event_sequence_bytes xs ≡ canonical_event_sequence_bytes ys
    → xs ≡ ys
unfolding canonical_event_sequence_bytes
canonical_event_sequence_bytes-inj xs ys px py e =
    (counted-IsCode IsSized write_str write_str-IsCode write_u64 write_u64-IsCode xs ys [] [] px py
      (ap (λ x. x ++ []) e)).0
