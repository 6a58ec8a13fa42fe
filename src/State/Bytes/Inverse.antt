-- ===== src/State/Bytes/Inverse.antt =====
-- The canonical bytes of a vector state determine the state.
use v_kernelx.Base.{◌≡◌, ap, [], ◌++◌, append_assoc}
use v_kernelx.State.{CertificationState, ProjectionState, OriginState, VectorStateV1}
use v_kernelx.State.Bytes.{
  write_u64, write_str, write_certification_state, write_projection_state, write_origin_state,
  canonical_vector_state_bytes,
}
use v_kernelx.Serialization.Codes.{IsCode, Is64, IsSized, IsSizedMap}
use v_kernelx.State.Bytes.Fields.{
  Is128List, OnSome, write_bool-IsCode, write_u64-IsCode, write_str-IsCode, write_vec_u128-IsCode,
  write_btreemap_str_str-IsCode, write_vector_type-IsCode, write_vector_status-IsCode,
  write_option-IsCode,
}

pub record HoldsCertification (c : CertificationState) : Type 0 where
  pub auth_ratio : Is64 c.auth_ratio
  pub threshold : Is64 c.threshold
  pub last_checked_at_ms : Is64 c.last_checked_at_ms
  pub reason : OnSome IsSized c.reason

write_certification_state-IsCode : IsCode HoldsCertification write_certification_state
unfolding write_certification_state
write_certification_state-IsCode a b r s pa pb e =
    let f1 = write_bool-IsCode a.certified b.certified _ _ tt tt (simp append_assoc at e) in
    let f2 = write_u64-IsCode a.auth_ratio b.auth_ratio _ _ pa.auth_ratio pb.auth_ratio f1.1 in
    let f3 = write_u64-IsCode a.threshold b.threshold _ _ pa.threshold pb.threshold f2.1 in
    let f4 =
      write_u64-IsCode a.last_checked_at_ms b.last_checked_at_ms _ _ pa.last_checked_at_ms
        pb.last_checked_at_ms f3.1 in
    let f5 =
      write_option-IsCode IsSized write_str write_str-IsCode a.reason b.reason _ _ pa.reason
        pb.reason f4.1 in
    (
      λ i. record {
        certified = f1.0 i;
        auth_ratio = f2.0 i;
        threshold = f3.0 i;
        last_checked_at_ms = f4.0 i;
        reason = f5.0 i;
      },
      f5.1,
    )

pub record HoldsProjection (p : ProjectionState) : Type 0 where
  pub escrow_id : IsSized p.escrow_id
  pub projected_components : Is128List p.projected_components
  pub settled_components : Is128List p.settled_components
  pub started_at_ms : Is64 p.started_at_ms
  pub settlement_at_ms : OnSome Is64 p.settlement_at_ms
  pub outcome_tag : OnSome IsSized p.outcome_tag

write_projection_state-IsCode : IsCode HoldsProjection write_projection_state
unfolding write_projection_state
write_projection_state-IsCode a b r s pa pb e =
    let f1 =
      write_str-IsCode a.escrow_id b.escrow_id _ _ pa.escrow_id pb.escrow_id
        (simp append_assoc at e) in
    let f2 =
      write_vec_u128-IsCode a.projected_components b.projected_components _ _
        pa.projected_components pb.projected_components f1.1 in
    let f3 =
      write_vec_u128-IsCode a.settled_components b.settled_components _ _ pa.settled_components
        pb.settled_components f2.1 in
    let f4 =
      write_u64-IsCode a.started_at_ms b.started_at_ms _ _ pa.started_at_ms pb.started_at_ms f3.1 in
    let f5 =
      write_option-IsCode Is64 write_u64 write_u64-IsCode a.settlement_at_ms b.settlement_at_ms _ _
        pa.settlement_at_ms pb.settlement_at_ms f4.1 in
    let f6 =
      write_option-IsCode IsSized write_str write_str-IsCode a.outcome_tag b.outcome_tag _ _
        pa.outcome_tag pb.outcome_tag f5.1 in
    (
      λ i. record {
        escrow_id = f1.0 i;
        projected_components = f2.0 i;
        settled_components = f3.0 i;
        started_at_ms = f4.0 i;
        settlement_at_ms = f5.0 i;
        outcome_tag = f6.0 i;
      },
      f6.1,
    )

pub record HoldsOrigin (o : OriginState) : Type 0 where
  pub seed : IsSized o.seed
  pub nonce : Is64 o.nonce
  pub difficulty : Is64 o.difficulty
  pub proof_hash : IsSized o.proof_hash

write_origin_state-IsCode : IsCode HoldsOrigin write_origin_state
unfolding write_origin_state
write_origin_state-IsCode a b r s pa pb e =
    let f1 = write_str-IsCode a.seed b.seed _ _ pa.seed pb.seed (simp append_assoc at e) in
    let f2 = write_u64-IsCode a.nonce b.nonce _ _ pa.nonce pb.nonce f1.1 in
    let f3 = write_u64-IsCode a.difficulty b.difficulty _ _ pa.difficulty pb.difficulty f2.1 in
    let f4 = write_str-IsCode a.proof_hash b.proof_hash _ _ pa.proof_hash pb.proof_hash f3.1 in
    (λ i. record { seed = f1.0 i; nonce = f2.0 i; difficulty = f3.0 i; proof_hash = f4.0 i }, f4.1)

-- What Rust's types give of a vector state.
pub record IsHeld (s : VectorStateV1) : Type 0 where
  pub schema : IsSized s.schema
  pub vector_id : IsSized s.vector_id
  pub owner_pubkey : IsSized s.owner_pubkey
  pub space_id : IsSized s.space_id
  pub components : Is128List s.components
  pub type_metadata : IsSizedMap s.type_metadata
  pub certification : HoldsCertification s.certification
  pub projection : OnSome HoldsProjection s.projection
  pub origin : OnSome HoldsOrigin s.origin
  pub version : Is64 s.version
  pub created_at_ms : Is64 s.created_at_ms
  pub updated_at_ms : Is64 s.updated_at_ms

pub canonical_vector_state_bytes-IsCode : IsCode IsHeld canonical_vector_state_bytes
unfolding canonical_vector_state_bytes
canonical_vector_state_bytes-IsCode a b r s pa pb e =
    let f1 = write_str-IsCode a.schema b.schema _ _ pa.schema pb.schema (simp append_assoc at e) in
    let f2 = write_str-IsCode a.vector_id b.vector_id _ _ pa.vector_id pb.vector_id f1.1 in
    let f3 =
      write_str-IsCode a.owner_pubkey b.owner_pubkey _ _ pa.owner_pubkey pb.owner_pubkey f2.1 in
    let f4 = write_str-IsCode a.space_id b.space_id _ _ pa.space_id pb.space_id f3.1 in
    let f5 = write_vector_type-IsCode a.vector_type b.vector_type _ _ tt tt f4.1 in
    let f6 = write_vector_status-IsCode a.status b.status _ _ tt tt f5.1 in
    let f7 = write_vec_u128-IsCode a.components b.components _ _ pa.components pb.components f6.1 in
    let f8 =
      write_btreemap_str_str-IsCode a.type_metadata b.type_metadata _ _ pa.type_metadata
        pb.type_metadata f7.1 in
    let f9 =
      write_certification_state-IsCode a.certification b.certification _ _ pa.certification
        pb.certification f8.1 in
    let f10 =
      write_option-IsCode HoldsProjection write_projection_state write_projection_state-IsCode
        a.projection b.projection _ _ pa.projection pb.projection f9.1 in
    let f11 =
      write_option-IsCode HoldsOrigin write_origin_state write_origin_state-IsCode a.origin b.origin
        _ _ pa.origin pb.origin f10.1 in
    let f12 = write_u64-IsCode a.version b.version _ _ pa.version pb.version f11.1 in
    let f13 =
      write_u64-IsCode a.created_at_ms b.created_at_ms _ _ pa.created_at_ms pb.created_at_ms
        f12.1 in
    let f14 =
      write_u64-IsCode a.updated_at_ms b.updated_at_ms _ _ pa.updated_at_ms pb.updated_at_ms
        f13.1 in
    (
      λ i. record {
        schema = f1.0 i;
        vector_id = f2.0 i;
        owner_pubkey = f3.0 i;
        space_id = f4.0 i;
        vector_type = f5.0 i;
        status = f6.0 i;
        components = f7.0 i;
        type_metadata = f8.0 i;
        certification = f9.0 i;
        projection = f10.0 i;
        origin = f11.0 i;
        version = f12.0 i;
        created_at_ms = f13.0 i;
        updated_at_ms = f14.0 i;
      },
      f14.1,
    )

-- Two vector states within the ranges of Rust's types that have the same canonical bytes are the
-- same state, in every field.
pub canonical_vector_state_bytes-inj :
    (a b : VectorStateV1)
    → IsHeld a
    → IsHeld b
    → canonical_vector_state_bytes a ≡ canonical_vector_state_bytes b
    → a ≡ b
canonical_vector_state_bytes-inj a b pa pb e =
    (canonical_vector_state_bytes-IsCode a b [] [] pa pb (ap (λ x. x ++ []) e)).0
