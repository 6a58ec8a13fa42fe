-- ===== src/Dag/Kahn.antt =====
-- src/dag.rs and src/replay.rs: the loop of Kahn's algorithm, which stands there three times. They
-- differ in how the ready nodes are kept: as they come, or sorted again after every turn.
pub mod Progress
pub mod Order
use v_kernelx.Base.{
  ℕ, zero, suc, ◌-◌, ◌==◌, Option, none, some, List, [], ◌∷◌, ◌++◌, u64_max, if◌then◌else◌,
  Ordering,
}
use v_kernelx.Base.Sort.{sort_by}
use v_kernelx.Base.Text.{Str}
use v_kernelx.Base.Map.{Map, get, insert}

-- The nodes that wait for nothing, in the order of the map.
unfoldable pub keys_of_zero : Map ℕ → List Str
keys_of_zero [] = []
keys_of_zero ((hash, deg) ∷ m) = let rest = keys_of_zero m in if deg == 0 then hash ∷ rest else rest

-- `*entry -= 1` on a `usize`
abbrev pub decrement : ℕ → ℕ
decrement zero = u64_max
decrement (suc d) = d

-- The loop over the children of a node.
unfoldable pub release : List Str → Map ℕ → List Str → Map ℕ × List Str
release [] indegree ready = (indegree, ready)
release (child ∷ cs) indegree ready = elim (get child indegree) [
  | none ↦ release cs indegree ready
  | some entry ↦
      release cs (insert child (decrement entry) indegree)
        (if decrement entry == 0 then ready ++ (child ∷ []) else ready)
]

abbrev pub push_node : Str → Option (List Str) → Option (List Str)
push_node node none = none
push_node node (some nodes) = some (node ∷ nodes)

-- The children of a node, none where it is no key.
unfoldable pub children_of : Map (List Str) → Str → List Str
children_of children node = elim (get node children) [ none ↦ [] | some cs ↦ cs ]

module _ (children : Map (List Str)) (order : Str → Str → Ordering)
    (tidy : List Str → List Str) where
  -- The loop over the ready nodes: the nodes in the order in which they are taken, or `none` when
  -- the fuel is spent before.
  unfoldable pub kahn : ℕ → List Str → Map ℕ → Option (List Str)
  kahn fuel [] indegree = some []
  kahn zero (node ∷ ready) indegree = none
  kahn (suc fuel) (node ∷ ready) indegree =
      let (indegree', ready') =
        release (sort_by order (children_of children node)) indegree ready in
      push_node node (kahn fuel (tidy ready') indegree')
