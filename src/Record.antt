-- ===== src/Record.antt =====
-- src/record.rs, and `transfer_record` of src/transfer.rs.
use v_kernelx.Base.{ℕ, suc, true, Option, none, some, List, [], ◌∷◌, ◌++◌, length, if◌then◌else◌}
use v_kernelx.Base.Sort.{sort_by}
use v_kernelx.Base.Text.{Str, str, str_cmp, decimal}
use v_kernelx.Certification.{certify_state}
use v_kernelx.External.{
  Value, null, bool, number, string, array, object, Items, nil, cons, Fields, end, field, External,
}
use v_kernelx.Serialization.{to_be_bytes}
use v_kernelx.State.{CertificationState, VectorStateV1}

pub data OperationKind : Type 0 where
  origin_create transfer drain project reconstruct certify query : OperationKind
  custom : Str → OperationKind

pub record VectorRecordV1 : Type 0 where
  pub schema : Str
  pub record_id : Str
  pub vector_id : Str
  pub before : Option VectorStateV1
  pub after : VectorStateV1
  pub operation : OperationKind
  pub parameters : Value
  pub certification : CertificationState
  pub timestamp_ms : ℕ
  pub proof : Str

write_u64 : ℕ → List ℕ
write_u64 = to_be_bytes 8

write_str : Str → List ℕ
write_str s = write_u64 (length s) ++ s

-- The length of bytes, then the bytes.
write_sized : List ℕ → List ℕ
write_sized bytes = write_u64 (length bytes) ++ bytes

write_fields : List (Str × List ℕ) → List ℕ
write_fields [] = []
write_fields ((key, bytes) ∷ fields) = write_str key ++ (bytes ++ write_fields fields)

count_items : Items → ℕ
count_items nil = 0
count_items (cons v items) = suc (count_items items)

-- `canonical_json_bytes`: the fields of an object in the order of their keys
unfoldable mutual
  unfolding write_u64 write_str write_fields count_items

  pub canonical_json_bytes : Value → List ℕ
  canonical_json_bytes null = 0 ∷ []
  canonical_json_bytes (bool b) = 1 ∷ (if b then 1 else 0) ∷ []
  canonical_json_bytes (number n) = 2 ∷ write_str n
  canonical_json_bytes (string s) = 3 ∷ write_str s
  canonical_json_bytes (array items) = 4 ∷ (write_u64 (count_items items) ++ encode_items items)
  canonical_json_bytes (object fields) =
      let encoded = encode_fields fields in
      5 ∷ (write_u64 (length encoded) ++ write_fields (sort_by (λ a b. str_cmp a.0 b.0) encoded))

  pub encode_items : Items → List ℕ
  encode_items nil = []
  encode_items (cons v items) = canonical_json_bytes v ++ encode_items items

  pub encode_fields : Fields → List (Str × List ℕ)
  encode_fields end = []
  encode_fields (field key v fields) = (key, canonical_json_bytes v) ∷ encode_fields fields

operation_tag : OperationKind → Str
operation_tag origin_create = str "ORIGIN_CREATE"
operation_tag transfer = str "TRANSFER"
operation_tag drain = str "DRAIN"
operation_tag project = str "PROJECT"
operation_tag reconstruct = str "RECONSTRUCT"
operation_tag certify = str "CERTIFY"
operation_tag query = str "QUERY"
operation_tag (custom name) = name

module _ (ext : External) where
  before_bytes : Option VectorStateV1 → List ℕ
  before_bytes none = 0 ∷ []
  before_bytes (some before) = 1 ∷ write_sized (ext.state_json before)

  unfoldable pub canonical_record_bytes : VectorRecordV1 → List ℕ
  unfolding write_u64 write_str write_sized before_bytes operation_tag
  canonical_record_bytes r =
      write_str r.schema
      ++ (write_str r.record_id
          ++ (write_str r.vector_id
              ++ (before_bytes r.before
                  ++ (write_sized (ext.state_json r.after)
                      ++ (write_str (operation_tag r.operation)
                          ++ (write_sized (canonical_json_bytes r.parameters)
                              ++ (write_sized (ext.certification_json r.certification)
                                  ++ write_u64 r.timestamp_ms)))))))

  -- `VectorRecordV1::hash`: the SHA-256 digest that it also computes is dropped
  unfoldable pub record_hash : VectorRecordV1 → Str
  record_hash r = ext.blake3_hex (canonical_record_bytes r)

  -- `VectorRecordV1::new`
  unfoldable pub new_record :
      ℕ → Str → Str → Option VectorStateV1 → VectorStateV1 → OperationKind → Value → VectorRecordV1
  new_record now_ms record_id vector_id before after operation parameters =
      let unproved : VectorRecordV1 = record {
        schema = str "v.kernelx/VectorRecordV1";
        record_id = record_id;
        vector_id = vector_id;
        before = before;
        after = after;
        operation = operation;
        parameters = parameters;
        certification = after.certification;
        timestamp_ms = now_ms;
        proof = [];
      } in
      record unproved { proof = record_hash unproved }

  -- The hasher's updates hash what they concatenate.
  unfoldable pub make_record_id : Str → Str → Str → Str
  make_record_id prefix vector_id discriminator =
      ext.blake3_hex (prefix ++ (str ":" ++ (vector_id ++ (str ":" ++ discriminator))))

  -- `json!` of a `Vec<u128>`; `none` where it panics
  u128_items : List ℕ → Option Items
  u128_items [] = some nil
  u128_items (n ∷ ns) = elim (ext.u128_value n) [
    | none ↦ none
    | some v ↦ elim (u128_items ns) [ none ↦ none | some items ↦ some (cons v items) ]
  ]

  unfoldable pub u128_array : List ℕ → Option Value
  unfolding u128_items
  u128_array ns = elim (u128_items ns) [ none ↦ none | some items ↦ some (array items) ]

  transfer_params : Str → Value → ℕ → Value
  transfer_params direction amount version = object (
      field (str "amount") amount (
        field (str "direction") (string direction)
          (field (str "version") (number (decimal version)) end)))

  -- One side of `transfer_record`; `now` are the two readings of the clock, for the certification
  -- and for the record.
  transfer_side : ℕ × ℕ → Str → Str → VectorStateV1 → VectorStateV1 → Value → VectorRecordV1
  unfolding transfer_params
  transfer_side now prefix direction before after amount =
      let params = transfer_params direction amount after.version in
      let fresh =
        new_record now.1 (make_record_id prefix after.vector_id (ext.value_string params))
          after.vector_id (some before) after transfer params in
      record fresh { certification = certify_state now.0 after true true }

  -- `none` where `json!` panics on an amount
  unfoldable pub transfer_record :
      ℕ × ℕ × ℕ × ℕ
      → VectorStateV1
      → VectorStateV1
      → VectorStateV1
      → VectorStateV1
      → List ℕ
      → Option (VectorRecordV1 × VectorRecordV1)
  unfolding transfer_side
  transfer_record (t0, t1, t2, t3) before_from before_to after_from after_to amount =
      elim (u128_array amount) [
        | none ↦ none
        | some v ↦ some (
          transfer_side (t0, t2) (str "transfer-out") (str "out") before_from after_from v,
          transfer_side (t1, t3) (str "transfer-in") (str "in") before_to after_to v,
        )
      ]
