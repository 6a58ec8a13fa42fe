-- ===== src/Replay/Entity.antt =====
-- src/replay.rs: the order of one entity's events. A set of hashes that have been seen is the list
-- of them.
use v_kernelx.Base.{
  ℕ, not, ◌==◌, Option, none, some, List, [], ◌∷◌, ◌++◌, length, if◌then◌else◌, then_with, compare,
  Ordering,
}
use v_kernelx.Base.Sort.{sort_by}
use v_kernelx.Base.Text.{Str, str, str_cmp, decimal}
use v_kernelx.Base.Map.{Map, get, contains_key, insert}
use v_kernelx.Dag.{
  Graph, add_nodes, add_edge, empty_graph, is_seen, taken_events, all_ordered, looked_up,
}
use v_kernelx.Dag.Kahn.{keys_of_zero, kahn}
use v_kernelx.Error.{Result, ok, err, ◌>>=◌, ◌>>◌, fail_if}
use v_kernelx.Event.{VectorEvent}

-- The comparator by `sort_key`.
abbrev pub replay_order : VectorEvent → VectorEvent → Ordering
replay_order a b =
    then_with
      (then_with
        (then_with
          (then_with (compare a.logical_clock b.logical_clock) (compare a.timestamp b.timestamp))
          (str_cmp a.entity_id b.entity_id))
        (str_cmp a.event_id b.event_id))
      (str_cmp a.event_hash b.event_hash)

-- The events by their hashes, of which none stands twice.
unfoldable pub index_by_hash : Map VectorEvent → List VectorEvent → Result Str (Map VectorEvent)
index_by_hash by_hash [] = ok by_hash
index_by_hash by_hash (event ∷ events) = do
  fail_if (contains_key event.event_hash by_hash)
      (str "duplicate event_hash detected: " ++ event.event_hash)
  index_by_hash (insert event.event_hash event by_hash) events

-- The edges of one event from its parents in the entity's history.
unfoldable pub add_own_parents :
    Map VectorEvent → VectorEvent → List Str → List Str → Graph → Result Str Graph
add_own_parents by_hash event seen [] g = ok g
add_own_parents by_hash event seen (parent_hash ∷ parents) g =
    let next =
      add_own_parents by_hash event (parent_hash ∷ seen) parents
        (if contains_key parent_hash by_hash then add_edge parent_hash event.event_hash g else g) in
    fail_if (is_seen parent_hash seen) (str "duplicate parent hash in event: " ++ event.event_hash)
    >> next

unfoldable pub add_own_edges : Map VectorEvent → List VectorEvent → Graph → Result Str Graph
add_own_edges by_hash [] g = ok g
add_own_edges by_hash (event ∷ events) g = do
  g' ← add_own_parents by_hash event [] event.parent_hashes g
  add_own_edges by_hash events g'

unfoldable pub own_order : Map VectorEvent → Str → Str → Ordering
own_order by_hash a b = looked_up replay_order (get a by_hash) (get b by_hash)

abbrev pub root_error : Graph → Str
root_error g =
    str "entity history must have exactly one root event, found "
    ++ (decimal (length (keys_of_zero g.indegree)) ++ str " roots")

-- The graph of an entity's history, which has exactly one root, beside its events by their hashes.
abbrev pub rooted_graph : Graph → Result Str Graph
rooted_graph g = do fail_if (not (length (keys_of_zero g.indegree) == 1)) (root_error g); ok g

unfoldable pub own_graph : List VectorEvent → Result Str (Map VectorEvent × Graph)
own_graph events = do
  by_hash ← index_by_hash [] events
  g ← add_own_edges by_hash events (add_nodes empty_graph events)
  rooted ← rooted_graph g
  ok (by_hash, rooted)

abbrev pub missing_in_replay : Str
missing_in_replay = str "missing node in entity replay map: "

abbrev pub replay_failure : Str
replay_failure = str "entity replay ordering failed due to unresolved ancestry or cycle"

abbrev pub own_events :
    Map VectorEvent → ℕ → Option (List Str) → Option (Result Str (List VectorEvent))
own_events by_hash count none = none
own_events by_hash count (some nodes) =
    some (taken_events missing_in_replay by_hash nodes >>= all_ordered replay_failure count)

abbrev pub walk_own :
    ℕ → Result Str (Map VectorEvent × Graph) → Option (Result Str (List VectorEvent))
walk_own count (err e) = some (err e)
walk_own count (ok (by_hash, g)) =
    let by_event = sort_by (own_order by_hash) in
    own_events by_hash count (
      kahn g.children (own_order by_hash) by_event count (by_event (keys_of_zero g.indegree))
        g.indegree)

unfoldable pub order_entity_events : List VectorEvent → Option (Result Str (List VectorEvent))
order_entity_events [] = some (ok [])
order_entity_events (event ∷ events) =
    walk_own (length (event ∷ events)) (own_graph (event ∷ events))
