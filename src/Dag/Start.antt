-- ===== src/Dag/Start.antt =====
-- The graph of the nodes alone, and the state in which Kahn's loop starts.
use v_kernelx.Base.{
  ℕ, ◌≤◌, ◌≡◌, refl, sym, ap, none, some, List, [], ◌∷◌, arith, All, inl, inr, Bool-cases, ◌==◌,
}
use v_kernelx.Base.Sort.Counts.{occurrences}
use v_kernelx.Base.Text.{Str, str_eq, str_eq_iff}
use v_kernelx.Base.Map.{Map, get, contains_key, insert, get-insert, IsOrdered, insert-IsOrdered}
use v_kernelx.Base.Map.Ext.{get_below}
use v_kernelx.Dag.{Graph, or_insert, count_of, add_nodes, empty_graph}
use v_kernelx.Dag.Building.{children_of-insert, count_of-insert, IsGraph}
use v_kernelx.Dag.Kahn.{children_of, keys_of_zero}
use v_kernelx.Dag.Kahn.Progress.{pending, IsMiddle}
use v_kernelx.Event.{VectorEvent}

-- The nodes alone: no edges yet.
pub record IsBare (nodes : List Str) (g : Graph) : Type 0 where
  pub childless : (q : Str) → children_of g.children q ≡ []
  pub idle : (h : Str) → count_of h g.indegree ≡ 0
  pub named : (h : Str) (d : ℕ) → get h g.indegree ≡ some d → 1 ≤ occurrences h nodes
  pub ordered : IsOrdered g.indegree

add_node-IsBare :
    (nodes : List Str) (c : Str) (g : Graph)
    → 1 ≤ occurrences c nodes
    → IsBare nodes g
    → IsBare nodes
        (record { children = or_insert c [] g.children; indegree = or_insert c 0 g.indegree })
add_node-IsBare nodes c g there s = record {
  childless = λ q. elim (Bool-cases (contains_key c g.children)) [
    | inl old ↦ rw old (s.childless q)
    | inr new ↦
        let grown : children_of (insert c [] g.children) q ≡ [] =
          ground (arith, children_of-insert c q [] g.children, s.childless q) in
        rw new grown
  ];
  idle = λ h. elim (Bool-cases (contains_key c g.indegree)) [
    | inl old ↦ rw old (s.idle h)
    | inr new ↦
        let grown : count_of h (insert c 0 g.indegree) ≡ 0 =
          ground (arith, count_of-insert c h 0 g.indegree, s.idle h) in
        rw new grown
  ];
  named = λ h d found. elim (Bool-cases (contains_key c g.indegree)) [
    | inl old ↦ s.named h d (rw old at found)
    | inr new ↦ elim (Bool-cases (str_eq c h)) [
      | inl same ↦ rw (sym ((str_eq_iff c h).0 same)) there
      | inr apart ↦
          s.named h d (ground (arith, get-insert c h 0 g.indegree, rw new at found, apart))
    ]
  ];
  ordered = elim (Bool-cases (contains_key c g.indegree)) [
    | inl old ↦ rw old s.ordered
    | inr new ↦ rw new (insert-IsOrdered c 0 g.indegree s.ordered)
  ];
}

add_nodes-IsBare :
    (nodes : List Str) (events : List VectorEvent) (g : Graph)
    → All (λ e. 1 ≤ occurrences e.event_hash nodes) events
    → IsBare nodes g
    → IsBare nodes (add_nodes g events)
unfolding add_nodes
add_nodes-IsBare nodes [] g there s = s
add_nodes-IsBare nodes (e ∷ events) g there s =
    add_nodes-IsBare nodes events _ there.1 (add_node-IsBare nodes e.event_hash g there.0 s)

empty-IsBare : (nodes : List Str) → IsBare nodes empty_graph
unfolding get children_of
empty-IsBare nodes = record {
  childless = λ q. refl;
  idle = λ h. refl;
  named = λ h d found. absurd (cc (found));
  ordered = tt;
}

pending-bare :
    (children : Map (List Str)) (h : Str) (us : List Str)
    → ((q : Str) → children_of children q ≡ [])
    → pending children h us ≡ 0
pending-bare children h [] bare = refl
pending-bare children h (u ∷ us) bare =
    omega (arith, ap (λ cs. occurrences h cs) (bare u), pending-bare children h us bare)

pub add_nodes-IsGraph :
    (nodes : List Str) (events : List VectorEvent)
    → All (λ e. 1 ≤ occurrences e.event_hash nodes) events
    → IsGraph nodes (add_nodes empty_graph events)
add_nodes-IsGraph nodes events there =
    let s = add_nodes-IsBare nodes events empty_graph there (empty-IsBare nodes) in
    record {
      counted = λ h. omega (arith, s.idle h, pending-bare _ h nodes s.childless);
      named = s.named;
      ordered = s.ordered;
    }

-- The nodes that wait for nothing are keys, each taken once.
keys_of_zero-missing : (h : Str) (m : Map ℕ) → get h m ≡ none → occurrences h (keys_of_zero m) ≡ 0
unfolding keys_of_zero get
keys_of_zero-missing h [] gone = refl
keys_of_zero-missing h ((j, d) ∷ m) gone = ground (arith, keys_of_zero-missing h m)

keys_of_zero-once : (h : Str) (m : Map ℕ) → IsOrdered m → occurrences h (keys_of_zero m) ≤ 1
unfolding keys_of_zero
keys_of_zero-once h [] o = omega arith
keys_of_zero-once h ((j, d) ∷ m) o =
    ground (
      arith,
      keys_of_zero-once h m o.1,
      keys_of_zero-missing j m (get_below j m o.0),
      str_eq_iff j h,
    )

keys_of_zero-zero :
    (h : Str) (m : Map ℕ) → IsOrdered m → 1 ≤ occurrences h (keys_of_zero m) → get h m ≡ some 0
unfolding keys_of_zero get
keys_of_zero-zero h [] o there = absurd (omega (arith, there))
keys_of_zero-zero h ((j, d) ∷ m) o there = ground (
  arith,
  keys_of_zero-zero h m o.1,
  keys_of_zero-missing j m (get_below j m o.0),
  str_eq_iff j h,
  there,
)

-- Kahn's loop starts with all nodes left and those ready that wait for nothing.
pub start-IsMiddle :
    (nodes : List Str) (g : Graph)
    → IsGraph nodes g
    → IsMiddle g.children nodes [] g.indegree (keys_of_zero g.indegree)
start-IsMiddle nodes g s = record {
  counted = λ h d found. ground (arith, s.counted h, found);
  once = λ h. elim (Bool-cases (occurrences h (keys_of_zero g.indegree) == 0)) [
    | inl gone ↦ ground arith
    | inr there ↦
        let free = keys_of_zero-zero h g.indegree s.ordered (ground arith) in
        omega (arith, keys_of_zero-once h g.indegree s.ordered, s.named h 0 free)
  ];
  free = λ h there. keys_of_zero-zero h g.indegree s.ordered there;
  waiting = λ h d found positive. s.named h d found;
}
