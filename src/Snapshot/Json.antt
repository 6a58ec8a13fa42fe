-- ===== src/Snapshot/Json.antt =====
-- src/snapshot.rs: a snapshot in JSON. `to_vec` and `from_slice` are those of `serde_json`, or the
-- message of the error.
use v_kernelx.Base.{ℕ, List, ◌++◌}
use v_kernelx.Base.Text.{Str, str}
use v_kernelx.Error.{Result, ok, err}
use v_kernelx.Snapshot.{Snapshot}

labelled : {A : Type 0} → Str → Result Str A → Result Str A
labelled label (ok a) = ok a
labelled label (err e) = err (label ++ e)

module _ (to_vec : Snapshot → Result Str (List ℕ)) where
  unfoldable pub serialize_snapshot : Snapshot → Result Str (List ℕ)
  unfolding labelled
  serialize_snapshot snapshot = labelled (str "snapshot serialize error: ") (to_vec snapshot)

module _ (from_slice : List ℕ → Result Str Snapshot) where
  unfoldable pub load_snapshot : List ℕ → Result Str Snapshot
  unfolding labelled
  load_snapshot bytes = labelled (str "snapshot parse error: ") (from_slice bytes)
