-- ===== src/Ffi/Fresh.antt =====
-- src/ffi.rs: the replay summary of a kernel that has no events yet.
use v_kernelx.Base.{
  ◌≡◌, refl, Bool, true, false, some, ℕ, Bool-cases, inl, inr, ◌⊎◌, ◌&&◌, List, [], ◌++◌, length,
}
use v_kernelx.Base.Sort.{sort_by}
use v_kernelx.Base.Text.{Str, str, str_eq, str_eq_iff, decimal}
use v_kernelx.Dag.{validate_dag, event_index, index_events, add_nodes, add_edges}
use v_kernelx.Dag.Kahn.{kahn, keys_of_zero}
use v_kernelx.Engine.{query_events}
use v_kernelx.Engine.Metrics.{root_value}
use v_kernelx.Engine.Queries.{replay_canonical_history}
use v_kernelx.Error.{ok, err}
use v_kernelx.External.{External, Value, Collides}
use v_kernelx.Ffi.Attempt.{◌>>=◌}
use v_kernelx.Ffi.Events.{
  engine_events, engine_replay_summary, replay_from_events, empty_summary, summary,
}
use v_kernelx.Ffi.Json.{entry, value_eq}
use v_kernelx.Ffi.Handle.{KernelInner, returned}
use v_kernelx.Ffi.Requests.{Serde}
use v_kernelx.Interpreter.Params.{param}
use v_kernelx.Replay.{replay_events, replay_entities, group_by_entity, result_of, first_run}
use v_kernelx.Serialization
use v_kernelx.Serialization.{canonical_state_map_bytes}
use v_kernelx.State.{StateRoot}
use v_kernelx.State.Bytes.{
  compute_state_root, compute_state_root_from_canonical_bytes, state_root_material, write_u64,
}
use v_kernelx.Storage.{load_events_for_replay}

-- What the engine's replay hashes for no events.
abbrev pub replay_material : List ℕ
replay_material =
    str "v-kernelx/state-root-v1"
    ++ (write_u64 0
        ++ (write_u64 0
            ++ (write_u64 (length (canonical_state_map_bytes [])) ++ canonical_state_map_bytes [])))

materials-differ : str_eq (state_root_material [] 0) replay_material ≡ false
unfolding state_root_material write_u64 canonical_state_map_bytes Serialization.write_u64
    Serialization.write_u32 Serialization.to_be_bytes Serialization.write_each str str_eq
materials-differ = refl

-- The replay of no events, and the root of no states.
replay_root : External → StateRoot
replay_root ext =
    compute_state_root_from_canonical_bytes ext.blake3_hex (canonical_state_map_bytes []) 0 0

replay_events-empty :
    (ext : External) → replay_events ext [] ≡ some (ok (result_of ext (first_run ext)))
unfolding replay_events validate_dag event_index index_events add_edges add_nodes keys_of_zero kahn
    replay_entities group_by_entity
replay_events-empty ext = refl

module _ (ext : External) (inner : KernelInner) (none_yet : inner.engine.store.events ≡ []) where
  query_events-empty : query_events inner.engine.store ≡ []
  unfolding query_events load_events_for_replay sort_by
  query_events-empty = rw none_yet refl

  replay_canonical_history-empty :
      replay_canonical_history ext inner.engine.store ≡ some (ok (result_of ext (first_run ext)))
  unfolding replay_canonical_history load_events_for_replay sort_by
  replay_canonical_history-empty = rw (none_yet, replay_events-empty ext) refl

and-false : (b : Bool) → b ≡ false → (b && true) ≡ false
and-false b h = rw h refl

-- The two roots differ in JSON if their hashes differ.
roots-differ :
    (ext : External) (v : Value)
    → str_eq (ext.blake3_hex (state_root_material [] 0)) (ext.blake3_hex replay_material) ≡ false
    → value_eq
        (entry
          (str "state_root")
          (summary (compute_state_root ext.blake3_hex [] 0) (str "") [] v 0 0 []))
        (root_value (result_of ext (first_run ext)).state_root)
      ≡ false
unfolding entry summary root_value param str str_eq value_eq decimal compute_state_root sort_by
    compute_state_root_from_canonical_bytes result_of
roots-differ ext v apart = and-false _ apart

-- The message of the divergence.
abbrev pub divergence : Str
divergence = str "replay divergence detected between engine replay and canonical batch replay"

-- On a kernel without events, where the empty state has a JSON value, the summary of the replay is
-- refused: the engine's replay and the batch replay take the root of the empty state of different
-- bytes, which only a collision of BLAKE3 could hide.
pub engine_replay_summary-diverges :
    (ext : External) (serde : Serde) (inner : KernelInner) (v : Value)
    → inner.engine.store.events ≡ []
    → serde.final_state_value [] ≡ some v
    → (engine_replay_summary ext serde inner ≡ (returned (err divergence), inner))
      ⊎ Collides ext (state_root_material [] 0) replay_material
unfolding engine_replay_summary engine_events ◌>>=◌ replay_from_events empty_summary
engine_replay_summary-diverges ext serde inner v none_yet shown =
    let queried = query_events-empty ext inner none_yet in
    let replayed = replay_canonical_history-empty ext inner none_yet in
    elim (Bool-cases
      (str_eq (ext.blake3_hex (state_root_material [] 0)) (ext.blake3_hex replay_material))) [
        | inl equal ↦ inr (
          λ same. absurd (cc ((str_eq_iff _ _).1 same, materials-differ)),
          (str_eq_iff _ _).0 equal,
        )
        | inr apart ↦ inl (rw (replayed, queried, shown) (rw (roots-differ ext v apart) refl))
      ]
