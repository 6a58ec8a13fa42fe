-- ===== src/Engine/Metrics.antt =====
-- src/engine.rs: `metrics`.
use v_kernelx.Base.{ℕ, true, Option, none, some, List, length}
use v_kernelx.Base.Text.{Str, str, decimal}
use v_kernelx.Engine.Queries.{
  query_vectors, query_records, query_regions, replay_canonical_history, current_state_root,
}
use v_kernelx.Error.{KernelXError, Result, ok, err}
use v_kernelx.External.{External, Value, bool, number, string, object, end, field}
use v_kernelx.Region.Types.{RegionState}
use v_kernelx.Replay.{ReplayResult}
use v_kernelx.State.{StateRoot}
use v_kernelx.Storage.{MemoryStore}

-- `StateRoot` in JSON
unfoldable pub root_value : StateRoot → Value
root_value root = object (
    field (str "event_count") (number (decimal root.event_count)) (
      field (str "logical_clock") (number (decimal root.logical_clock))
        (field (str "root_hash") (string root.root_hash) end)))

-- `regions.ok().map(|v| v.len()).unwrap_or(0)`
abbrev region_count : Result KernelXError (List RegionState) → ℕ
region_count (ok regions) = length regions
region_count (err e) = 0

abbrev event_count : Result KernelXError ReplayResult → ℕ
event_count (ok replay) = length replay.applied_event_hashes
event_count (err e) = 0

abbrev replay_hash_of : Result KernelXError ReplayResult → Str
replay_hash_of (ok replay) = replay.replay_hash
replay_hash_of (err e) = str ""

module _ (ext : External) (store : MemoryStore) where
  metrics_of : Result KernelXError ReplayResult → Value
  metrics_of replay = object (
      field (str "event_count") (number (decimal (event_count replay))) (
        field (str "healthy") (bool true) (
          field (str "record_count") (number (decimal (length (query_records store)))) (
            field (str "region_count") (number (decimal (region_count (query_regions store)))) (
              field (str "replay_hash") (string (replay_hash_of replay)) (
                field (str "state_root") (root_value (current_state_root ext store)) (
                  field (str "vector_count") (number (decimal (length (query_vectors store))))
                    end)))))))

  abbrev measured : Option (Result KernelXError ReplayResult) → Option Value
  measured none = none
  measured (some replay) = some (metrics_of replay)

  -- `none` where the replay has not ended.
  unfoldable pub metrics : Option Value
  unfolding metrics_of
  metrics = measured (replay_canonical_history ext store)
