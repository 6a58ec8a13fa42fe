-- ===== src/Dag.antt =====
-- src/dag.rs: the events as a graph by their parents, its validation, and its topological order.
-- A set of hashes that have been seen is the list of them.
pub mod Kahn
pub mod Conflicts
pub mod Building
pub mod Start
pub mod Checks
pub mod Validity
pub mod Sorting
use v_kernelx.Base.{
  ℕ, zero, suc, ◌+◌, ◌≡◌, Bool, true, false, not, ◌==◌, Option, none, some, List, [], ◌∷◌, ◌++◌,
  map, any, is_nil, length, get_elem?, if◌then◌else◌, Ordering,
}
use v_kernelx.Base.Sort.{sort_by}
use v_kernelx.Base.Text.{Str, str, str_eq}
use v_kernelx.Base.Map.{Map, get, contains_key, insert}
use v_kernelx.Dag.Kahn.{keys_of_zero, children_of, kahn}
use v_kernelx.Error.{Result, ok, err, ◌>>=◌, ◌>>◌, fail_if}
use v_kernelx.Event.{VectorEvent}
use v_kernelx.Storage.{event_order}

-- `enumerate`, from the index of the first event on.
unfoldable pub index_events : ℕ → Map ℕ → List VectorEvent → Result Str (Map ℕ)
index_events i index [] = ok index
index_events i index (event ∷ events) = do
  fail_if (is_nil event.event_hash)
      (str "event " ++ (event.event_id ++ str " has empty event_hash"))
  fail_if (contains_key event.event_hash index)
      (str "duplicate event_hash detected: " ++ event.event_hash)
  index_events (i + 1) (insert event.event_hash i index) events

unfoldable pub event_index : List VectorEvent → Result Str (Map ℕ)
event_index events = index_events 0 [] events

-- A hash has been seen.
abbrev pub is_seen : Str → List Str → Bool
is_seen h seen = any (λ s. str_eq s h) seen

unfoldable pub validate_region_admissibility : VectorEvent → VectorEvent → Result Str (Unit {0})
validate_region_admissibility parent child =
    fail_if (not (str_eq parent.region_id child.region_id)) (
      str "region inadmissible: parent region "
      ++ (parent.region_id ++ (str " != child region " ++ child.region_id)))

-- The children of each event and the number of parents that it waits for. That number counts
-- entries of lists in memory, so it does not reach the end of `usize`.
pub record Graph : Type 0 where
  pub children : Map (List Str)
  pub indegree : Map ℕ

-- `map.entry(key).or_insert(value)`
abbrev pub or_insert {ℓ} : {V : Type ℓ} → Str → V → Map V → Map V
or_insert key value m = if contains_key key m then m else insert key value m

-- the number under a key, 0 where there is none
abbrev pub count_of : Str → Map ℕ → ℕ
count_of key m = elim (get key m) [ none ↦ 0 | some v ↦ v ]

-- The first loop: a node for each event.
unfoldable pub add_nodes : Graph → List VectorEvent → Graph
add_nodes g [] = g
add_nodes g (event ∷ events) =
    add_nodes
      (record {
        children = or_insert event.event_hash [] g.children;
        indegree = or_insert event.event_hash 0 g.indegree;
      })
      events

-- `graph.entry(parent).or_default().push(child); *indegree.entry(child).or_insert(0) += 1`
unfoldable pub add_edge : Str → Str → Graph → Graph
add_edge parent child g = record {
  children = insert parent (children_of g.children parent ++ (child ∷ [])) g.children;
  indegree = insert child (count_of child g.indegree + 1) g.indegree;
}

-- `&events[i]` of an index from the map; such an index is in range, or the source panics.
abbrev pub event_at : List VectorEvent → Option ℕ → Option VectorEvent
event_at events none = none
event_at events (some i) = get_elem? events i

abbrev pub found_parent : Str → Option VectorEvent → Result Str VectorEvent
found_parent hash none = err (str "missing parent event: " ++ hash)
found_parent hash (some event) = ok event

-- The edges of one event.
unfoldable pub add_parents :
    Map ℕ → List VectorEvent → VectorEvent → List Str → List Str → Graph → Result Str Graph
add_parents index all event seen [] g = ok g
add_parents index all event seen (parent_hash ∷ parents) g = do
  fail_if (is_seen parent_hash seen) (str "duplicate parent hash in event: " ++ event.event_hash)
  parent ← found_parent parent_hash (event_at all (get parent_hash index))
  validate_region_admissibility parent event
  add_parents index all event (parent_hash ∷ seen) parents (add_edge parent_hash event.event_hash g)

-- The second loop: the edges of each event.
unfoldable pub add_edges : Map ℕ → List VectorEvent → List VectorEvent → Graph → Result Str Graph
add_edges index all [] g = ok g
add_edges index all (event ∷ events) g = do
  g' ← add_parents index all event [] event.parent_hashes g
  add_edges index all events g'

abbrev pub empty_graph : Graph
empty_graph = record { children = []; indegree = [] }

-- The comparator of two events that are looked up; both are there, or the source panics.
abbrev pub looked_up :
    (VectorEvent → VectorEvent → Ordering) → Option VectorEvent → Option VectorEvent → Ordering
looked_up order none y = Ordering.eq
looked_up order (some x) none = Ordering.eq
looked_up order (some x) (some y) = order x y

unfoldable pub index_order : Map ℕ → List VectorEvent → Str → Str → Ordering
index_order index events a b =
    looked_up event_order (event_at events (get a index)) (event_at events (get b index))

abbrev pub checked_walk : ℕ → Option (List Str) → Option (Result Str (Unit {0}))
checked_walk count none = none
checked_walk count (some visited) =
    some (fail_if (not (length visited == count)) (str "cycle detected in event DAG"))

-- The walk over the graph that has been built, if it has.
abbrev pub walk_graph : List VectorEvent → Map ℕ → Result Str Graph → Option (Result Str (Unit {0}))
walk_graph events index (err e) = some (err e)
walk_graph events index (ok g) = checked_walk (length events) (
    kahn g.children (index_order index events) (λ queue. queue) (length events)
      (keys_of_zero g.indegree) g.indegree)

abbrev pub validate_indexed : List VectorEvent → Result Str (Map ℕ) → Option (Result Str (Unit {0}))
validate_indexed events (err e) = some (err e)
validate_indexed events (ok index) =
    walk_graph events index (add_edges index events events (add_nodes empty_graph events))

-- `validate_dag`; `none` where the loop has not ended after as many turns as there are events.
unfoldable pub validate_dag : List VectorEvent → Option (Result Str (Unit {0}))
validate_dag events = validate_indexed events (event_index events)

-- The events by their hashes; the last of two with one hash stays.
unfoldable pub event_map : Map VectorEvent → List VectorEvent → Map VectorEvent
event_map m [] = m
event_map m (event ∷ events) = event_map (insert event.event_hash event m) events

unfoldable pub map_order : Map VectorEvent → Str → Str → Ordering
map_order m a b = looked_up event_order (get a m) (get b m)

-- The edges once more, without the checks.
unfoldable pub link_parents : Str → List Str → Graph → Graph
link_parents child [] g = g
link_parents child (parent ∷ parents) g = link_parents child parents (add_edge parent child g)

unfoldable pub link_events : List VectorEvent → Graph → Graph
link_events [] g = g
link_events (event ∷ events) g =
    link_events events (link_parents event.event_hash event.parent_hashes g)

-- `map.get(&node).ok_or_else(..)?.clone()` for each node that was taken
unfoldable pub taken_events : Str → Map VectorEvent → List Str → Result Str (List VectorEvent)
taken_events missing m [] = ok []
taken_events missing m (node ∷ nodes) = elim (get node m) [
  | none ↦ err (missing ++ node)
  | some event ↦ (do events ← taken_events missing m nodes; ok (event ∷ events))
]

-- The check of the number of events.
abbrev pub all_ordered : Str → ℕ → List VectorEvent → Result Str (List VectorEvent)
all_ordered failure count ordered = if length ordered == count then ok ordered else err failure

abbrev pub missing_in_map : Str
missing_in_map = str "missing node in event map: "

abbrev pub order_failure : Str
order_failure = str "topological ordering failed due to unresolved cycle or missing ancestry"

abbrev pub ordered_events :
    Map VectorEvent → ℕ → Option (List Str) → Option (Result Str (List VectorEvent))
ordered_events m count none = none
ordered_events m count (some nodes) =
    some (taken_events missing_in_map m nodes >>= all_ordered order_failure count)

abbrev pub sort_graph : List VectorEvent → Graph → Option (Result Str (List VectorEvent))
sort_graph events g =
    let m = event_map [] events in
    let by_event = sort_by (map_order m) in
    ordered_events m (length events) (
      kahn g.children (map_order m) by_event (length events) (by_event (keys_of_zero g.indegree))
        g.indegree)

abbrev pub order_validated :
    List VectorEvent → Option (Result Str (Unit {0})) → Option (Result Str (List VectorEvent))
order_validated events none = none
order_validated events (some (err e)) = some (err e)
order_validated events (some (ok _)) =
    sort_graph events (link_events events (add_nodes empty_graph events))

unfoldable pub topological_order : List VectorEvent → Option (Result Str (List VectorEvent))
topological_order events = order_validated events (validate_dag events)
