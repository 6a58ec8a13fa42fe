-- ===== src/Dag/Building.antt =====
-- The graph that is built counts, for each event, the edges that lead to it.
use v_kernelx.Base.{
  ℕ, ◌+◌, ◌≤◌, ◌≡◌, refl, sym, some, List, [], ◌∷◌, ◌++◌, arith, map, All, inl, inr, Bool-cases,
  if◌then◌else◌,
}
use v_kernelx.Base.Sort.Counts.{occurrences, occurrences-append}
use v_kernelx.Base.Text.{Str, str_eq, str_eq_iff}
use v_kernelx.Base.Map.{Map, get, insert, get-insert, IsOrdered, insert-IsOrdered}
use v_kernelx.Dag.{Graph, count_of, add_edge, link_parents, link_events}
use v_kernelx.Dag.Kahn.{children_of}
use v_kernelx.Dag.Kahn.Progress.{pending}
use v_kernelx.Event.{VectorEvent}

abbrev pub hashes : List VectorEvent → List Str
hashes events = map (λ e. e.event_hash) events

-- The graph counts the edges from the given nodes, and every key is one of them.
pub record IsGraph (nodes : List Str) (g : Graph) : Type 0 where
  pub counted : (h : Str) → count_of h g.indegree ≡ pending g.children h nodes
  pub named : (h : Str) (d : ℕ) → get h g.indegree ≡ some d → 1 ≤ occurrences h nodes
  pub ordered : IsOrdered g.indegree

pub children_of-insert :
    (p q : Str) (cs : List Str) (m : Map (List Str))
    → children_of (insert p cs m) q ≡ (if str_eq p q then cs else children_of m q)
unfolding children_of
children_of-insert p q cs m = ground (arith, get-insert p q cs m)

pub count_of-insert :
    (c h : Str) (d : ℕ) (m : Map ℕ)
    → count_of h (insert c d m) ≡ (if str_eq c h then d else count_of h m)
count_of-insert c h d m = ground (arith, get-insert c h d m)

-- An edge is one more child of its parent.
module _ (p c : Str) (g : Graph) where
  pub occurrences-add_edge :
      (q h : Str)
      → occurrences h (children_of (add_edge p c g).children q)
        ≡ occurrences h (children_of g.children q)
          + (if str_eq p q then (if str_eq c h then 1 else 0) else 0)
  unfolding add_edge
  occurrences-add_edge q h = ground (
    arith,
    children_of-insert p q (children_of g.children p ++ (c ∷ [])) g.children,
    occurrences-append h (children_of g.children p) (c ∷ []),
    str_eq_iff p q,
  )

  pending-add_edge :
      (h : Str) (us : List Str)
      → pending (add_edge p c g).children h us
        ≡ pending g.children h us + (if str_eq c h then occurrences p us else 0)
  pending-add_edge h [] = ground arith
  pending-add_edge h (u ∷ us) =
      ground
        (arith, occurrences-add_edge u h, pending-add_edge h us, str_eq_iff p u, str_eq_iff u p)

  add_edge-IsGraph :
      (nodes : List Str)
      → occurrences p nodes ≡ 1
      → 1 ≤ occurrences c nodes
      → IsGraph nodes g
      → IsGraph nodes (add_edge p c g)
  unfolding add_edge
  add_edge-IsGraph nodes once there s = record {
    counted = λ h. ground (
      arith,
      count_of-insert c h (count_of c g.indegree + 1) g.indegree,
      pending-add_edge h nodes,
      s.counted h,
      s.counted c,
      once,
      str_eq_iff c h,
    );
    named = λ h d found. elim (Bool-cases (str_eq c h)) [
      | inl same ↦ rw (sym ((str_eq_iff c h).0 same)) there
      | inr apart ↦
          s.named h d
            (ground (arith, get-insert c h (count_of c g.indegree + 1) g.indegree, found, apart))
    ];
    ordered = insert-IsOrdered c (count_of c g.indegree + 1) g.indegree s.ordered;
  }

-- The edges of one event, whose parents are nodes, each once.
pub link_parents-IsGraph :
    (nodes : List Str) (c : Str) (parents : List Str) (g : Graph)
    → All (λ p. occurrences p nodes ≡ 1) parents
    → 1 ≤ occurrences c nodes
    → IsGraph nodes g
    → IsGraph nodes (link_parents c parents g)
unfolding link_parents
link_parents-IsGraph nodes c [] g once there s = s
link_parents-IsGraph nodes c (p ∷ parents) g once there s =
    link_parents-IsGraph nodes c parents (add_edge p c g) once.1 there
      (add_edge-IsGraph p c g nodes once.0 there s)

-- Each event is a node, and so are its parents, each once.
abbrev pub IsClosed : List Str → List VectorEvent → Type 0
IsClosed nodes events =
    All
      (λ e.
        (1 ≤ occurrences e.event_hash nodes) × All (λ p. occurrences p nodes ≡ 1) e.parent_hashes)
      events

pub link_events-IsGraph :
    (nodes : List Str) (events : List VectorEvent) (g : Graph)
    → IsClosed nodes events
    → IsGraph nodes g
    → IsGraph nodes (link_events events g)
unfolding link_events
link_events-IsGraph nodes [] g closed s = s
link_events-IsGraph nodes (e ∷ events) g closed s =
    link_events-IsGraph nodes events (link_parents e.event_hash e.parent_hashes g) closed.1
      (link_parents-IsGraph nodes e.event_hash e.parent_hashes g (closed.0.1) (closed.0.0) s)

-- Edges stay, and a loop over parents adds one from each.
link_parents-keeps :
    (c : Str) (parents : List Str) (g : Graph) (q h : Str)
    → occurrences h (children_of g.children q)
      ≤ occurrences h (children_of (link_parents c parents g).children q)
unfolding link_parents
link_parents-keeps c [] g q h = omega arith
link_parents-keeps c (p ∷ parents) g q h =
    ground
      (arith, occurrences-add_edge p c g q h, link_parents-keeps c parents (add_edge p c g) q h)

link_parents-adds :
    (c : Str) (parents : List Str) (g : Graph) (q : Str)
    → 1 ≤ occurrences q parents
    → 1 ≤ occurrences c (children_of (link_parents c parents g).children q)
unfolding link_parents
link_parents-adds c [] g q there = omega (arith, there)
link_parents-adds c (p ∷ parents) g q there = elim (Bool-cases (str_eq p q)) [
  | inl same ↦ ground (
    arith,
    occurrences-add_edge p c g q c,
    (str_eq_iff c c).1 refl,
    same,
    link_parents-keeps c parents (add_edge p c g) q c,
  )
  | inr apart ↦ link_parents-adds c parents (add_edge p c g) q (rw apart at there)
]

link_events-keeps :
    (events : List VectorEvent) (g : Graph) (q h : Str)
    → occurrences h (children_of g.children q)
      ≤ occurrences h (children_of (link_events events g).children q)
unfolding link_events
link_events-keeps [] g q h = omega arith
link_events-keeps (e ∷ events) g q h = omega (
  arith,
  link_parents-keeps e.event_hash e.parent_hashes g q h,
  link_events-keeps events (link_parents e.event_hash e.parent_hashes g) q h,
)

-- An event is a child of each of its parents.
pub link_events-adds :
    (events : List VectorEvent) (g : Graph)
    → All
        (λ e.
          (q : Str)
          → 1 ≤ occurrences q e.parent_hashes
          → 1 ≤ occurrences e.event_hash (children_of (link_events events g).children q))
        events
unfolding link_events
link_events-adds [] g = tt
link_events-adds (e ∷ events) g = (
  λ q there. omega (
    arith,
    link_parents-adds e.event_hash e.parent_hashes g q there,
    link_events-keeps events (link_parents e.event_hash e.parent_hashes g) q e.event_hash,
  ),
  link_events-adds events (link_parents e.event_hash e.parent_hashes g),
)
