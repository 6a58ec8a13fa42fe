-- ===== src/Dag/Sorting.antt =====
-- `topological_order` always returns, and puts every event behind its parents.
use v_kernelx.Base.{
  ℕ, ◌≡◌, refl, sym, ap, ◌∙◌, ◌==◌, ==_iff, Option, none, some, List, [], ◌∷◌, ◌++◌, arith, inl,
  inr, Bool-cases, length, length-map,
}
use v_kernelx.Base.Sort.{sort_by}
use v_kernelx.Base.Sort.Counts.{occurrences-sort_by}
use v_kernelx.Base.Text.{Str, str_eq, str_eq_iff}
use v_kernelx.Base.Map.{Map, get, insert, get-insert}
use v_kernelx.Dag.{
  event_map, map_order, taken_events, all_ordered, missing_in_map, order_failure, ordered_events,
  sort_graph, order_validated, validate_dag, topological_order,
}
use v_kernelx.Dag.Building.{hashes}
use v_kernelx.Dag.Checks.{IsChecked}
use v_kernelx.Dag.Validity.{
  IsCausal, full_graph, walk-IsTopological, topological-IsCausal, validate_dag-returns,
  validate_dag-IsChecked,
}
use v_kernelx.Error.{Result, ok, err, ◌>>=◌, bind-eq-ok}
use v_kernelx.Event.{VectorEvent}

-- Each event stands in the map under its own hash.
abbrev pub IsKeyed : Map VectorEvent → Type 0
IsKeyed m = (h : Str) (e : VectorEvent) → get h m ≡ some e → e.event_hash ≡ h

pub insert-IsKeyed :
    (m : Map VectorEvent) (e : VectorEvent) → IsKeyed m → IsKeyed (insert e.event_hash e m)
insert-IsKeyed m e k h f found = elim (Bool-cases (str_eq e.event_hash h)) [
  | inl same ↦
      let is : e ≡ f = ground (arith, get-insert e.event_hash h e m, same, found) in
      ap (λ x. x.event_hash) (sym is) ∙ (str_eq_iff e.event_hash h).0 same
  | inr apart ↦ k h f (ground (arith, get-insert e.event_hash h e m, apart, found))
]

event_map-IsKeyed :
    (m : Map VectorEvent) (events : List VectorEvent) → IsKeyed m → IsKeyed (event_map m events)
unfolding event_map
event_map-IsKeyed m [] k = k
event_map-IsKeyed m (e ∷ events) k =
    event_map-IsKeyed (insert e.event_hash e m) events (insert-IsKeyed m e k)

-- One node that is taken, when the later ones have their hashes.
taken-hashes :
    (missing : Str) (m : Map VectorEvent) (node : Str) (nodes : List Str) (taken : List VectorEvent)
    → IsKeyed m
    → ((later : List VectorEvent) → taken_events missing m nodes ≡ ok later → hashes later ≡ nodes)
    → (o : Option VectorEvent) → get node m ≡ o
    → elim o as (λ _. Result Str (List VectorEvent)) [
      | none ↦ err (missing ++ node)
      | some event ↦ taken_events missing m nodes >>= λ events. ok (event ∷ events)
    ]
      ≡ ok taken
    → hashes taken ≡ node ∷ nodes
taken-hashes missing m node nodes taken k rest none at h = absurd (cc (h))
taken-hashes missing m node nodes taken k rest (some e) at h =
    let (later, took, all) =
      bind-eq-ok (taken_events missing m nodes) (λ events. ok (e ∷ events)) taken h in
    let same : e ∷ later ≡ taken = cc (all) in rw (sym same) (cc (k node e at, rest later took))

pub taken_events-hashes :
    (missing : Str) (m : Map VectorEvent) (nodes : List Str) (taken : List VectorEvent)
    → IsKeyed m
    → taken_events missing m nodes ≡ ok taken
    → hashes taken ≡ nodes
unfolding taken_events
taken_events-hashes missing m [] taken k h = let same : [] ≡ taken = cc (h) in rw (sym same) refl
taken_events-hashes missing m (node ∷ nodes) taken k h =
    taken-hashes missing m node nodes taken k (λ later. taken_events-hashes missing m nodes later k)
      (get node m) refl h

-- What passes the check of the number is unchanged and has that number.
pub all_ordered-full :
    (failure : Str) (count : ℕ) (taken ordered : List VectorEvent)
    → all_ordered failure count taken ≡ ok ordered
    → (taken ≡ ordered) × (length taken ≡ count)
all_ordered-full failure count taken ordered h = elim (Bool-cases (length taken == count)) [
  | inl full ↦ (cc (rw full at h), (==_iff (length taken) count).0 full)
  | inr short ↦ absurd (cc (rw short at h))
]

-- The map of the events, the walk over their full graph, and what it ends with.
module _ (events : List VectorEvent) (index : Map ℕ) (c : IsChecked events index) where
  abbrev by_event : List Str → List Str
  by_event = sort_by (map_order (event_map [] events))

  sort_graph-walk :
      (nodes : List Str) × (sort_graph events (full_graph events)
        ≡ some (
            taken_events missing_in_map (event_map [] events) nodes
            >>= all_ordered order_failure (length events)))
      × ((ordered : List VectorEvent)
          → taken_events missing_in_map (event_map [] events) nodes
              >>= all_ordered order_failure (length events)
            ≡ ok ordered
          → IsCausal events (hashes ordered))
  unfolding get
  sort_graph-walk =
      let m = event_map [] events in
      let (nodes, walked, sorted) =
        walk-IsTopological events c.closed (map_order m) by_event
          (λ h xs. occurrences-sort_by (map_order m) h xs) in
      (
        nodes,
        ap (ordered_events m (length events)) walked,
        λ ordered h.
            let (taken, took, full) =
              bind-eq-ok (taken_events missing_in_map m nodes)
                (all_ordered order_failure (length events)) ordered h in
            let (same, count) = all_ordered-full order_failure (length events) taken ordered full in
            let named : hashes taken ≡ nodes =
              taken_events-hashes missing_in_map m nodes taken
                (event_map-IsKeyed [] events (λ h e found. absurd (cc (found)))) took in
            let long : length nodes ≡ length events =
              ap length (sym named) ∙ (length-map taken (λ e. e.event_hash) ∙ count) in
            rw (sym same, named) (topological-IsCausal events c.closed nodes sorted long),
      )

-- The validation and the topological sort end on every list of events.
pub topological_order-returns :
    (events : List VectorEvent)
    → (r : Result Str (List VectorEvent)) × (topological_order events ≡ some r)
unfolding topological_order
topological_order-returns events = by_validation (validate_dag-returns events)
  where
    by_validation :
        (r : Result Str (Unit {0})) × (validate_dag events ≡ some r)
        → (r : Result Str (List VectorEvent)) × (topological_order events ≡ some r)
    by_validation (err e, v) = (err e, ap (order_validated events) v)
    by_validation (ok tt, v) =
        let ((index, c), _) = validate_dag-IsChecked events v in
        let (nodes, walked, _) = sort_graph-walk events index c in
        (
          taken_events missing_in_map (event_map [] events) nodes
              >>= all_ordered order_failure (length events),
          ap (order_validated events) v ∙ walked,
        )
