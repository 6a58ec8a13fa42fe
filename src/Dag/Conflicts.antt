-- ===== src/Dag/Conflicts.antt =====
-- src/dag.rs: the report of the conflicts in a list of events.
use v_kernelx.Base.{ℕ, Bool, true, false, not, List, [], ◌∷◌, ◌++◌}
use v_kernelx.Base.Text.{Str, str}
use v_kernelx.Base.Map.{Map, contains_key}
use v_kernelx.Dag.{event_index, is_seen}
use v_kernelx.Error.{ok, err}
use v_kernelx.Event.{VectorEvent}

pub record DagConflict : Type 0 where
  pub event_hash : Str
  pub reason : Str

conflict_if : Bool → Str → Str → List DagConflict
conflict_if true event_hash reason = record { event_hash = event_hash; reason = reason } ∷ []
conflict_if false event_hash reason = []

-- The conflicts of the parents from here on.
parent_conflicts : Map ℕ → Str → List Str → List Str → List DagConflict
unfolding conflict_if
parent_conflicts index event_hash seen [] = []
parent_conflicts index event_hash seen (parent ∷ parents) =
    conflict_if (is_seen parent seen) event_hash (str "duplicate parent hash in event: " ++ parent)
    ++ (conflict_if (not (contains_key parent index)) event_hash
          (str "missing parent event: " ++ parent)
        ++ parent_conflicts index event_hash (parent ∷ seen) parents)

event_conflicts : Map ℕ → List VectorEvent → List DagConflict
unfolding parent_conflicts
event_conflicts index [] = []
event_conflicts index (event ∷ events) =
    conflict_if (is_seen event.event_hash event.parent_hashes) event.event_hash
      (str "self-parent cycle detected")
    ++ (parent_conflicts index event.event_hash [] event.parent_hashes
        ++ event_conflicts index events)

unfoldable pub detect_conflicts : List VectorEvent → List DagConflict
unfolding event_conflicts
detect_conflicts events = elim (event_index events) [
  | ok index ↦ event_conflicts index events
  | err e ↦ conflict_if true [] e
]
