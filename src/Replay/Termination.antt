-- ===== src/Replay/Termination.antt =====
-- src/replay.rs: the replay always returns.
use v_kernelx.Base.{
  not, ◌==◌, ◌≡◌, refl, sym, ap, ◌∙◌, Option, some, List, [], ◌∷◌, length, length-map, map,
}
use v_kernelx.Base.Sort.{sort_by}
use v_kernelx.Base.Sort.Counts.{occurrences-sort_by}
use v_kernelx.Base.Text.{Str}
use v_kernelx.Base.Map.{Map}
use v_kernelx.Dag.{
  Graph, add_nodes, empty_graph, link_events, taken_events, all_ordered, validate_dag,
}
use v_kernelx.Dag.Building.{hashes}
use v_kernelx.Dag.Kahn.{kahn, keys_of_zero}
use v_kernelx.Dag.Kahn.Progress.{IsTopological}
use v_kernelx.Dag.Validity.{full_graph, walk-IsTopological, validate_dag-returns}
use v_kernelx.Error.{Result, ok, err, fail_if, ◌>>=◌, bind-eq-ok}
use v_kernelx.Event.{VectorEvent}
use v_kernelx.External.{External}
use v_kernelx.Replay.{
  Run, apply_ordered, apply_entity, replay_entities, ReplayResult, finished, result_of, first_run,
  group_by_entity, replay_validated, replay_events,
}
use v_kernelx.Replay.Entity.{
  index_by_hash, add_own_edges, root_error, rooted_graph, own_graph, own_order, own_events,
  walk_own, missing_in_replay, replay_failure, order_entity_events,
}
use v_kernelx.Replay.Own.{restricted, add_nodes-restricted, add_own_edges-link, restricted-IsClosed}

-- The graph of an entity's history is a full graph.
pub own_graph-full :
    (events : List VectorEvent) (m : Map VectorEvent) (g : Graph)
    → own_graph events ≡ ok (m, g)
    → (index_by_hash [] events ≡ ok m) × (g ≡ full_graph (map (restricted m) events))
unfolding own_graph
own_graph-full events m g h =
    let (m', indexed, h1) =
      bind-eq-ok (index_by_hash [] events)
        (λ m. add_own_edges m events (add_nodes empty_graph events) >>= λ g.
          rooted_graph g >>= λ r. ok (m, r))
        (m, g) h in
    let (g', built, h2) =
      bind-eq-ok (add_own_edges m' events (add_nodes empty_graph events))
        (λ g. rooted_graph g >>= λ r. ok (m', r)) (m, g) h1 in
    let (r, rooted, pair) = bind-eq-ok (rooted_graph g') (λ r. ok (m', r)) (m, g) h2 in
    let (_, _, kept) =
      bind-eq-ok (fail_if (not (length (keys_of_zero g'.indegree) == 1)) (root_error g'))
        (λ _. ok g') r rooted in
    let same_map : m' ≡ m = cc (pair) in
    let same_graph : g' ≡ g = cc (pair, kept) in
    let linked : g' ≡ link_events (map (restricted m') events) (add_nodes empty_graph events) =
      add_own_edges-link m' events (add_nodes empty_graph events) g' built in
    (
      indexed ∙ ap ok same_map,
      sym same_graph
          ∙ (linked
              ∙ (ap (link_events (map (restricted m') events))
                    (sym (add_nodes-restricted m' events empty_graph))
                  ∙ ap (λ j. full_graph (map (restricted j) events)) same_map)),
    )

-- The walk over that graph ends with a topological order of the restricted events.
pub walk_own-nodes :
    (events : List VectorEvent) (m : Map VectorEvent) (g : Graph)
    → own_graph events ≡ ok (m, g)
    → (nodes : List Str) × (walk_own (length events) (ok (m, g))
        ≡ some
            (taken_events missing_in_replay m nodes >>= all_ordered replay_failure (length events)))
      × IsTopological
          (full_graph (map (restricted m) events)).children
          (hashes (map (restricted m) events))
          nodes
walk_own-nodes events m g b =
    let (indexed, full) = own_graph-full events m g b in
    let inside = map (restricted m) events in
    let (nodes, walked, sorted) =
      walk-IsTopological inside (restricted-IsClosed m events indexed) (own_order m)
        (sort_by (own_order m)) (λ h xs. occurrences-sort_by (own_order m) h xs) in
    let size : length inside ≡ length events = length-map events (restricted m) in
    (
      nodes,
      rw full (
          ap (own_events m (length events)) (
            ap
              (λ n.
                kahn (full_graph inside).children (own_order m) (sort_by (own_order m)) n
                  (sort_by (own_order m) (keys_of_zero (full_graph inside).indegree))
                  (full_graph inside).indegree)
              (sym size)
            ∙ walked)),
      sorted,
    )

-- The order of an entity's history is computed to an end.
order_entity_events-returns :
    (events : List VectorEvent)
    → (r : Result Str (List VectorEvent)) × (order_entity_events events ≡ some r)
unfolding order_entity_events
order_entity_events-returns [] = (ok [], refl)
order_entity_events-returns (e ∷ events) = by_graph (own_graph (e ∷ events)) refl
  where
    by_graph :
        (built : Result Str (Map VectorEvent × Graph))
        → own_graph (e ∷ events) ≡ built
        → (r : Result Str (List VectorEvent)) × (walk_own (length (e ∷ events)) built ≡ some r)
    by_graph (err x) b = (err x, refl)
    by_graph (ok (m, g)) b =
        let (nodes, walked, _) = walk_own-nodes (e ∷ events) m g b in
        (
          taken_events missing_in_replay m nodes
              >>= all_ordered replay_failure (length (e ∷ events)),
          walked,
        )

module _ (ext : External) where
  -- One entity, when the rest of the loop returns.
  apply_entity-returns :
      (run : Run) (rest : Run → Option (Result Str Run))
      → ((next : Run) → (r : Result Str Run) × (rest next ≡ some r))
      → (ordered : Option (Result Str (List VectorEvent)))
      → (s : Result Str (List VectorEvent)) × (ordered ≡ some s)
      → (r : Result Str Run) × (apply_entity ext run rest ordered ≡ some r)
  apply_entity-returns run rest all ordered (err e, same) = (err e, rw same refl)
  apply_entity-returns run rest all ordered (ok events, same) =
      let (r, applied) = by_run (apply_ordered ext events run) in (r, rw same applied)
    where
      by_run :
          (applied : Result Str Run)
          → (r : Result Str Run) × (elim applied as (λ _. Option (Result Str Run)) [
            | err e ↦ some (err e)
            | ok next ↦ rest next
          ]
              ≡ some r)
      by_run (err e) = (err e, refl)
      by_run (ok next) = all next

  replay_entities-returns :
      (by_entity : Map (List VectorEvent)) (run : Run)
      → (r : Result Str Run) × (replay_entities ext by_entity run ≡ some r)
  unfolding replay_entities
  replay_entities-returns [] run = (ok run, refl)
  replay_entities-returns ((entity, events) ∷ by_entity) run =
      apply_entity-returns run (replay_entities ext by_entity) (replay_entities-returns by_entity)
        (order_entity_events events) (order_entity_events-returns events)

  -- The replay ends on every list of events: as many turns as there are events are enough for each
  -- walk over a graph, that of the whole history and that of each entity.
  pub replay_events-returns :
      (events : List VectorEvent)
      → (r : Result Str ReplayResult) × (replay_events ext events ≡ some r)
  unfolding replay_events
  replay_events-returns events =
      by_validation (validate_dag-returns events)
        (replay_entities-returns (group_by_entity [] events) (first_run ext))
    where
      by_validation :
          (v : Result Str (Unit {0})) × (validate_dag events ≡ some v)
          → (s : Result Str Run) × (replay_entities ext (group_by_entity [] events) (first_run ext)
              ≡ some s)
          → (r : Result Str ReplayResult) × (replay_events ext events ≡ some r)
      by_validation (err e, v) done = (err e, ap (replay_validated ext events) v)
      by_validation (ok tt, v) (err e, s) =
          (err e, ap (replay_validated ext events) v ∙ ap (finished ext) s)
      by_validation (ok tt, v) (ok run, s) =
          (ok (result_of ext run), ap (replay_validated ext events) v ∙ ap (finished ext) s)
