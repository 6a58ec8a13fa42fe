-- ===== src/Dag/Validity.antt =====
-- `validate_dag` always returns, and what it accepts is a history without cycles.
use v_kernelx.Base.{
  ℕ, ◌≤◌, ◌≡◌, refl, sym, not, ◌==◌, ==_iff, some, List, [], ◌∷◌, ◌++◌, arith, All, inl, inr,
  Bool-cases, length, length-map, Ordering,
}
use v_kernelx.Base.Sort.Counts.{occurrences}
use v_kernelx.Base.Text.{Str, str, str_eq, str_eq_iff}
use v_kernelx.Base.Map.{Map}
use v_kernelx.Dag.{
  Graph, event_index, add_nodes, empty_graph, add_edges, link_events, index_order, checked_walk,
  walk_graph, validate_indexed, validate_dag,
}
use v_kernelx.Dag.Building.{hashes, IsGraph, IsClosed, link_events-IsGraph, link_events-adds}
use v_kernelx.Dag.Checks.{HasParent, IsChecked, own_hash, add_edges-IsChecked, All-zip}
use v_kernelx.Dag.Kahn.{keys_of_zero, kahn}
use v_kernelx.Dag.Kahn.Order.{
  tidy-IsMiddle, kahn-IsTopological, parent_before, occurrences-topological,
}
use v_kernelx.Dag.Kahn.Progress.{IsTopological}
use v_kernelx.Dag.Start.{add_nodes-IsGraph, start-IsMiddle}
use v_kernelx.Error.{Result, ok, err, fail_if, Result-cases}
use v_kernelx.Event.{VectorEvent}

-- Each event stands in the order, as often as in the history, behind all its parents.
pub record IsCausal (events : List VectorEvent) (nodes : List Str) : Type 0 where
  pub whole : (h : Str) → occurrences h nodes ≡ occurrences h (hashes events)
  pub parents_first :
      All
        (λ e.
          (before after : List Str) (p : Str)
          → nodes ≡ before ++ (e.event_hash ∷ after)
          → 1 ≤ occurrences p e.parent_hashes
          → 1 ≤ occurrences p before)
        events

-- No hash stands twice, each parent is among the events and in the region of its child, and some
-- order puts every event behind its parents.
pub record IsHistory (events : List VectorEvent) : Type 0 where
  pub apart : (h : Str) → occurrences h (hashes events) ≤ 1
  pub parents : All (λ e. All (HasParent events e) e.parent_hashes) events
  pub order : List Str
  pub causal : IsCausal events order

-- The graph of the events.
abbrev pub full_graph : List VectorEvent → Graph
full_graph events = link_events events (add_nodes empty_graph events)

met_at : (P : Str → Type 0) (p : Str) (ps : List Str) → All P ps → 1 ≤ occurrences p ps → P p
met_at P p [] h there = absurd (omega (arith, there))
met_at P p (q ∷ ps) h there = elim (Bool-cases (str_eq q p)) [
  | inl same ↦ rw (sym ((str_eq_iff q p).0 same)) h.0
  | inr apart ↦ met_at P p ps h.1 (rw apart at there)
]

module _ (events : List VectorEvent) (closed : IsClosed (hashes events) events) where
  full_graph-IsGraph : IsGraph (hashes events) (full_graph events)
  full_graph-IsGraph =
      link_events-IsGraph (hashes events) events (add_nodes empty_graph events) closed
        (add_nodes-IsGraph (hashes events) events (own_hash events))

  -- The loop over the full graph ends with a topological order.
  pub walk-IsTopological :
      (order : Str → Str → Ordering) (tidy : List Str → List Str)
      → ((h : Str) (xs : List Str) → occurrences h (tidy xs) ≡ occurrences h xs)
      → (nodes : List Str) × (kahn
            (full_graph events).children
            order
            tidy
            (length events)
            (tidy (keys_of_zero (full_graph events).indegree))
            (full_graph events).indegree
          ≡ some nodes)
        × IsTopological (full_graph events).children (hashes events) nodes
  walk-IsTopological order tidy keeps =
      kahn-IsTopological (full_graph events).children order tidy keeps (length events)
        (hashes events) (tidy (keys_of_zero (full_graph events).indegree))
        (full_graph events).indegree
        (tidy-IsMiddle (full_graph events).children order tidy keeps (hashes events)
          (full_graph events).indegree (keys_of_zero (full_graph events).indegree)
          (start-IsMiddle (hashes events) (full_graph events) full_graph-IsGraph))
        (omega (arith, length-map events (λ e. e.event_hash)))

  -- A topological order as long as the history is a causal one.
  pub topological-IsCausal :
      (nodes : List Str)
      → IsTopological (full_graph events).children (hashes events) nodes
      → length nodes ≡ length events
      → IsCausal events nodes
  topological-IsCausal nodes sorted full = record {
    whole = λ h.
        occurrences-topological (full_graph events).children (hashes events) nodes h sorted
          (omega (arith, full, length-map events (λ e. e.event_hash)));
    parents_first =
        All-zip events
          (λ e own linked before after p at there.
            parent_before (full_graph events).children (hashes events) before after e.event_hash p
              (rw at at sorted)
              (let once =
                  met_at (λ q. occurrences q (hashes events) ≡ 1) p e.parent_hashes (own.1) there in
                omega (arith, once))
              (linked p there))
          closed (link_events-adds events (add_nodes empty_graph events));
  }

same_keeps : (h : Str) (xs : List Str) → occurrences h xs ≡ occurrences h xs
same_keeps h xs = refl

-- The validation ends on every list of events, as many turns as there are events being enough.
pub validate_dag-returns :
    (events : List VectorEvent) → (r : Result Str (Unit {0})) × (validate_dag events ≡ some r)
unfolding validate_dag
validate_dag-returns events = elim (Result-cases (event_index events)) [
  | inr (e, failed) ↦ (err e, rw failed refl)
  | inl (index, indexed) ↦
      elim (Result-cases (add_edges index events events (add_nodes empty_graph events))) [
        | inr (e, failed) ↦ (err e, rw (indexed, failed) refl)
        | inl (g, built) ↦
            let (linked, c) =
              add_edges-IsChecked events index indexed (add_nodes empty_graph events) g built in
            let (nodes, walked, _) =
              walk-IsTopological events c.closed (index_order index events) (λ q. q) same_keeps in
            (
              fail_if (not (length nodes == length events)) (str "cycle detected in event DAG"),
              rw (indexed, built, linked, walked) refl,
            )
      ]
]

-- A walk that passes the last check has taken as many nodes as there are events.
checked_walk-full :
    (count : ℕ) (nodes : List Str)
    → checked_walk count (some nodes) ≡ some (ok tt)
    → length nodes ≡ count
checked_walk-full count nodes h = elim (Bool-cases (length nodes == count)) [
  | inl full ↦ (==_iff (length nodes) count).0 full
  | inr short ↦ absurd (cc (rw short at h))
]

-- What passes the checks and the walk is a history; the checks of the index and of the edges stay
-- known.
pub validate_dag-IsChecked :
    (events : List VectorEvent)
    → validate_dag events ≡ some (ok tt)
    → ((index : Map ℕ) × IsChecked events index) × IsHistory events
unfolding validate_dag
validate_dag-IsChecked events h = by_index (event_index events) refl h
  where
    by_graph :
        (index : Map ℕ)
        → event_index events ≡ ok index
        → (built : Result Str Graph)
        → add_edges index events events (add_nodes empty_graph events) ≡ built
        → walk_graph events index built ≡ some (ok tt)
        → ((index : Map ℕ) × IsChecked events index) × IsHistory events
    by_graph index indexed (err e) b passed = absurd (cc (passed))
    by_graph index indexed (ok g) b passed =
        let (linked, c) =
          add_edges-IsChecked events index indexed (add_nodes empty_graph events) g b in
        let (nodes, walked, sorted) =
          walk-IsTopological events c.closed (index_order index events) (λ q. q) same_keeps in
        let full = checked_walk-full (length events) nodes (rw (linked, walked) at passed) in
        (
          (index, c),
          record {
            apart = c.apart;
            parents = c.parents;
            order = nodes;
            causal = topological-IsCausal events c.closed nodes sorted full;
          },
        )

    by_index :
        (r : Result Str (Map ℕ))
        → event_index events ≡ r
        → validate_indexed events r ≡ some (ok tt)
        → ((index : Map ℕ) × IsChecked events index) × IsHistory events
    by_index (err e) i passed = absurd (cc (passed))
    by_index (ok index) i passed =
        by_graph index i (add_edges index events events (add_nodes empty_graph events)) refl passed

-- In a list of events that the validation accepts no hash stands twice, every parent is among the
-- events and in the region of its child, and some order of them puts every event behind all its
-- parents, so there is no cycle.
pub validate_dag-IsHistory :
    (events : List VectorEvent) → validate_dag events ≡ some (ok tt) → IsHistory events
validate_dag-IsHistory events h = (validate_dag-IsChecked events h).1
