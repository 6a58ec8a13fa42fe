-- ===== src/Snapshot.antt =====
-- src/snapshot.rs: the snapshot that the store keeps.
pub mod Taking
pub mod Json
use v_kernelx.Base.{ℕ, List}
use v_kernelx.Base.Text.{Str}
use v_kernelx.State.{StateRoot}

pub record Snapshot : Type 0 where
  pub snapshot_id : Str
  pub state_root : StateRoot
  pub event_root : Str
  pub replay_hash : Str
  pub event_count : ℕ
  pub logical_clock : ℕ
  pub dag_heads : List Str
  pub state_bytes : List ℕ
  pub created_at : ℕ
