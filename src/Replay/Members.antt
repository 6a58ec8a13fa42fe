-- ===== src/Replay/Members.antt =====
-- src/replay.rs: the groups of a history and their orders hold events of that history only.
use v_kernelx.Base.{
  ◌⊎◌, ◌≡◌, refl, sym, Option, none, some, List, [], ◌∷◌, ◌++◌, All, length, inl, inr, Bool-cases,
}
use v_kernelx.Base.Text.{Str, str, str_eq}
use v_kernelx.Base.Map.{Map, get, contains_key, insert, get-insert_cases, All-insert}
use v_kernelx.Dag.{Graph, taken_events, all_ordered}
use v_kernelx.Dag.Sorting.{all_ordered-full}
use v_kernelx.Error.{Result, ok, err, ◌>>=◌, fail_if, bind-eq-ok}
use v_kernelx.Event.{VectorEvent}
use v_kernelx.Replay.{grown, group_by_entity}
use v_kernelx.Replay.Entity.{
  index_by_hash, own_graph, walk_own, missing_in_replay, replay_failure, order_entity_events,
}
use v_kernelx.Replay.Termination.{own_graph-full, walk_own-nodes}

-- An event stands in a list.
abbrev pub Stands : VectorEvent → List VectorEvent → Type 0
Stands e [] = ⊥
Stands e (f ∷ fs) = (f ≡ e) ⊎ Stands e fs

All-weaken :
    (f : VectorEvent) (fs es : List VectorEvent)
    → All (λ e. Stands e fs) es
    → All (λ e. Stands e (f ∷ fs)) es
All-weaken f fs [] h = tt
All-weaken f fs (e ∷ es) h = (inr (h.0), All-weaken f fs es (h.1))

pub all_stand : (es : List VectorEvent) → All (λ e. Stands e es) es
all_stand [] = tt
all_stand (e ∷ es) = (inl refl, All-weaken e es es (all_stand es))

module _ (P : VectorEvent → Type 0) where
  -- The values that a map gives.
  abbrev Gives : Map VectorEvent → Type 0
  Gives m = (h : Str) (e : VectorEvent) → get h m ≡ some e → P e

  index_by_hash-Gives :
      (m m' : Map VectorEvent) (events : List VectorEvent)
      → Gives m
      → All P events
      → index_by_hash m events ≡ ok m'
      → Gives m'
  unfolding index_by_hash
  index_by_hash-Gives m m' [] g all h = let same : m ≡ m' = cc (h) in rw (sym same) g
  index_by_hash-Gives m m' (e ∷ events) g all h =
      let (_, _, rest) =
        bind-eq-ok
          (fail_if (contains_key e.event_hash m)
            (str "duplicate event_hash detected: " ++ e.event_hash))
          (λ _. index_by_hash (insert e.event_hash e m) events) m' h in
      index_by_hash-Gives (insert e.event_hash e m) m' events grown_gives (all.1) rest
    where
      grown_gives : Gives (insert e.event_hash e m)
      grown_gives h f found = elim (get-insert_cases e.event_hash h e f m found) [
        | inl (_, same) ↦ rw (sym same) (all.0)
        | inr before ↦ g h f before
      ]

  taken_events-All :
      (missing : Str) (m : Map VectorEvent) (nodes : List Str) (taken : List VectorEvent)
      → Gives m
      → taken_events missing m nodes ≡ ok taken
      → All P taken
  unfolding taken_events
  taken_events-All missing m [] taken g h = let same : [] ≡ taken = cc (h) in rw (sym same) tt
  taken_events-All missing m (node ∷ nodes) taken g h =
      by_node (get node m) refl (λ later took. taken_events-All missing m nodes later g took) h
    where
      by_node :
          (o : Option VectorEvent)
          → get node m ≡ o
          → ((later : List VectorEvent) → taken_events missing m nodes ≡ ok later → All P later)
          → elim o as (λ _. Result Str (List VectorEvent)) [
            | none ↦ err (missing ++ node)
            | some event ↦ (do events ← taken_events missing m nodes; ok (event ∷ events))
          ]
            ≡ ok taken
          → All P taken
      by_node none found all done = absurd (cc (done))
      by_node (some e) found all done =
          let (later, took, rest) =
            bind-eq-ok (taken_events missing m nodes) (λ events. ok (e ∷ events)) taken done in
          let same : e ∷ later ≡ taken = cc (rest) in rw (sym same) (g node e found, all later took)

  pub order_entity_events-All :
      (events ordered : List VectorEvent)
      → All P events
      → order_entity_events events ≡ some (ok ordered)
      → All P ordered
  unfolding order_entity_events get
  order_entity_events-All [] ordered all done =
      let same : [] ≡ ordered = cc (done) in rw (sym same) tt
  order_entity_events-All (e ∷ events) ordered all done =
      by_graph (own_graph (e ∷ events)) refl done
    where
      by_graph :
          (built : Result Str (Map VectorEvent × Graph))
          → own_graph (e ∷ events) ≡ built
          → walk_own (length (e ∷ events)) built ≡ some (ok ordered)
          → All P ordered
      by_graph (err x) b g = absurd (cc (g))
      by_graph (ok (m, g)) b g_done =
          let (indexed, _) = own_graph-full (e ∷ events) m g b in
          let (nodes, walked, sorted) = walk_own-nodes (e ∷ events) m g b in
          let rest : taken_events missing_in_replay m nodes
                >>= all_ordered replay_failure (length (e ∷ events))
              ≡ ok ordered =
            cc (walked, g_done) in
          let (taken, took, full) =
            bind-eq-ok (taken_events missing_in_replay m nodes)
              (all_ordered replay_failure (length (e ∷ events))) ordered rest in
          let (same, _) =
            all_ordered-full replay_failure (length (e ∷ events)) taken ordered full in
          let gives =
            index_by_hash-Gives [] m (e ∷ events) (λ k f found. absurd (cc (found))) all indexed in
          rw (sym same) (taken_events-All missing_in_replay m nodes taken gives took)

  -- Every group holds such events only.
  abbrev pub Groups : Map (List VectorEvent) → Type 0
  Groups = All (λ g. All P (g.1))

  pub All-append : (es fs : List VectorEvent) → All P es → All P fs → All P (es ++ fs)
  All-append [] fs a b = b
  All-append (e ∷ es) fs a b = (a.0, All-append es fs (a.1) b)

  All-grown :
      (k : Str) (e : VectorEvent) (m : Map (List VectorEvent))
      → P e
      → Groups m
      → All P (grown e (get k m))
  unfolding get
  All-grown k e [] p g = (p, tt)
  All-grown k e ((j, es) ∷ m) p g = elim (Bool-cases (str_eq j k)) [
    | inl here ↦ rw here (All-append es (e ∷ []) (g.0) (p, tt))
    | inr apart ↦ rw apart (All-grown k e m p (g.1))
  ]

  pub group_by_entity-Groups :
      (m : Map (List VectorEvent)) (events : List VectorEvent)
      → Groups m
      → All P events
      → Groups (group_by_entity m events)
  unfolding group_by_entity
  group_by_entity-Groups m [] g all = g
  group_by_entity-Groups m (e ∷ events) g all =
      group_by_entity-Groups (insert e.entity_id (grown e (get e.entity_id m)) m) events
        (All-insert (λ g. All P (g.1)) e.entity_id _ m (All-grown e.entity_id e m (all.0) g) g)
        (all.1)
