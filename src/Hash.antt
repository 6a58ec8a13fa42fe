-- ===== src/Hash.antt =====
-- src/hash.rs
use v_kernelx.Base.{List, [], ℕ, ◌++◌}
use v_kernelx.Base.Text.{Str, str}
use v_kernelx.Event.{VectorEvent}
use v_kernelx.External.{External}
use v_kernelx.Serialization.{
  canonical_event_payload_bytes, canonical_event_bytes, state_root_bytes, canonical_blob_bytes,
  canonical_event_sequence_bytes,
}
use v_kernelx.State.{StateRoot}

module _ (ext : External) where
  unfoldable pub canonical_payload_hash : VectorEvent → Str
  canonical_payload_hash event = ext.blake3_hex (canonical_event_payload_bytes event)

  unfoldable pub canonical_event_hash : VectorEvent → Str
  canonical_event_hash event = ext.blake3_hex (canonical_event_bytes event)

  unfoldable pub canonical_state_root_hash : StateRoot → Str
  canonical_state_root_hash state_root = ext.blake3_hex (state_root_bytes state_root)

  unfoldable pub canonical_replay_hash : List Str → Str
  canonical_replay_hash event_hashes =
      ext.blake3_hex
        (canonical_blob_bytes (str "replay-v1") [] ++ canonical_event_sequence_bytes event_hashes)

  unfoldable pub canonical_tagged_hash : Str → List ℕ → Str
  canonical_tagged_hash tag payload = ext.blake3_hex (canonical_blob_bytes tag payload)
