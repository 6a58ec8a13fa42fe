-- ===== src/Snapshot/Taking.antt =====
-- src/snapshot.rs: the snapshot of a replay, and its verification. Its JSON is `serde_json`'s.
use v_kernelx.Base.{
  ℕ, ◌≡◌, ◌↔◌, refl, ap, Bool, true, false, not, ◌&&◌, List, [], ◌∷◌, is_nil, arith,
}
use v_kernelx.Base.Text.{Str, str, str_eq, str_eq_iff, is_blank, trim, trim_start, trim_rev}
use v_kernelx.Base.Map.{Map}
use v_kernelx.Error.{Result, ok}
use v_kernelx.Event.{VectorState}
use v_kernelx.External.{External, HashesAreText}
use v_kernelx.Hash.{canonical_state_root_hash, canonical_tagged_hash}
use v_kernelx.Replay.{ReplayResult}
use v_kernelx.Serialization.{canonical_state_map_bytes, state_root_bytes}
use v_kernelx.Snapshot.{Snapshot}

module _ (ext : External) where
  unfoldable pub create_snapshot : ReplayResult → List Str → ℕ → Snapshot
  create_snapshot replay_result dag_heads created_at =
      let state_bytes = canonical_state_map_bytes replay_result.final_state in
      record {
        snapshot_id = canonical_tagged_hash ext (str "snapshot-v1") state_bytes;
        state_root = replay_result.state_root;
        event_root = replay_result.replay_hash;
        replay_hash = replay_result.replay_hash;
        event_count = replay_result.state_root.event_count;
        logical_clock = replay_result.state_root.logical_clock;
        dag_heads = dag_heads;
        state_bytes = state_bytes;
        created_at = created_at;
      }

  -- `verify_snapshot`, which has no error; `str_eq` compares lists of numbers.
  unfoldable pub verify_snapshot : Snapshot → Map VectorState → Str → Result Str Bool
  verify_snapshot snapshot current_state current_replay_hash =
      let expected_state_bytes = canonical_state_map_bytes current_state in
      ok (
        str_eq snapshot.snapshot_id
          (canonical_tagged_hash ext (str "snapshot-v1") expected_state_bytes)
        && (str_eq snapshot.state_bytes expected_state_bytes
            && (str_eq snapshot.replay_hash current_replay_hash
                && not (is_nil (canonical_state_root_hash ext snapshot.state_root)))))

  blank-nil : (s : Str) → is_blank s ≡ false → is_nil s ≡ false
  unfolding is_blank trim trim_start trim_rev
  blank-nil [] h = absurd (cc (h))
  blank-nil (c ∷ s) h = refl

  -- If digests are not blank, the snapshot of a replay is verified against exactly those states
  -- that have the same bytes as the replay's and against its replay hash only.
  pub verify_snapshot-create_snapshot :
      (result : ReplayResult) (dag_heads : List Str) (created_at : ℕ) (state : Map VectorState)
      (replay_hash : Str)
      → HashesAreText ext
      → (verify_snapshot (create_snapshot result dag_heads created_at) state replay_hash ≡ ok true)
        ↔ ((canonical_state_map_bytes result.final_state ≡ canonical_state_map_bytes state)
            × (result.replay_hash ≡ replay_hash))
  unfolding verify_snapshot create_snapshot canonical_state_root_hash
  verify_snapshot-create_snapshot result dag_heads created_at state replay_hash text =
      let bytes = canonical_state_map_bytes result.final_state in
      let others = canonical_state_map_bytes state in
      let tagged = canonical_tagged_hash ext (str "snapshot-v1") in
      let full =
        blank-nil (canonical_state_root_hash ext result.state_root)
          (text.not_blank (state_root_bytes result.state_root)) in
      let ids = str_eq_iff (tagged bytes) (tagged others) in
      let same = str_eq_iff bytes others in
      let replays = str_eq_iff result.replay_hash replay_hash in
      (
        λ h. ground (arith, full, same, replays, h),
        λ (b, r). ground (arith, full, ids.1 (ap tagged b), same.1 b, replays.1 r),
      )
