-- ===== src/Replay/Coverage.antt =====
-- src/replay.rs: grouping and ordering the events of a history loses none and repeats none.
use v_kernelx.Base.{
  ℕ, ◌+◌, ◌≡◌, refl, sym, ap, ◌∙◌, Option, none, some, List, [], ◌∷◌, ◌++◌, arith, map, length,
  length-map,
}
use v_kernelx.Base.Sort.Counts.{occurrences}
use v_kernelx.Base.Text.{Str, str}
use v_kernelx.Base.Map.{Map, get, contains_key, insert, IsOrdered, insert-IsOrdered}
use v_kernelx.Base.Map.Sums.{sum, number_of, sum-insert}
use v_kernelx.Dag.{Graph, taken_events, all_ordered}
use v_kernelx.Dag.Building.{hashes}
use v_kernelx.Dag.Sorting.{IsKeyed, insert-IsKeyed, taken_events-hashes, all_ordered-full}
use v_kernelx.Dag.Validity.{topological-IsCausal}
use v_kernelx.Error.{Result, ok, err, ◌>>=◌, fail_if, bind-eq-ok}
use v_kernelx.Event.{VectorEvent}
use v_kernelx.External.{External}
use v_kernelx.Replay.{grown, group_by_entity, Run, apply_ordered, apply_entity}
use v_kernelx.Replay.Entity.{
  index_by_hash, own_graph, walk_own, missing_in_replay, replay_failure, order_entity_events,
}
use v_kernelx.Replay.Own.{restricted, hashes-restricted, restricted-IsClosed}
use v_kernelx.Replay.Termination.{own_graph-full, walk_own-nodes}

module _ (h : Str) where
  -- How often the hash stands among the events.
  abbrev pub times : List VectorEvent → ℕ
  times events = occurrences h (hashes events)

  pub times-append : (es fs : List VectorEvent) → times (es ++ fs) ≡ times es + times fs
  times-append [] fs = omega arith
  times-append (e ∷ es) fs = ground (arith, times-append es fs)

  times-grown :
      (e : VectorEvent) (o : Option (List VectorEvent))
      → times (grown e o) ≡ number_of times o + times (e ∷ [])
  times-grown e none = omega arith
  times-grown e (some es) = times-append es (e ∷ [])

  -- The groups have every event once more.
  pub group_by_entity-times :
      (m : Map (List VectorEvent)) (events : List VectorEvent)
      → IsOrdered m
      → sum times (group_by_entity m events) ≡ sum times m + times events
  unfolding group_by_entity
  group_by_entity-times m [] o = omega arith
  group_by_entity-times m (e ∷ events) o =
      let old = get e.entity_id m in
      let later =
        group_by_entity-times (insert e.entity_id (grown e old) m) events
          (insert-IsOrdered e.entity_id (grown e old) m o) in
      let here = sum-insert times e.entity_id (grown e old) m o in
      ground (arith, later, here, times-grown e old)

index_by_hash-IsKeyed :
    (m m' : Map VectorEvent) (events : List VectorEvent)
    → IsKeyed m
    → index_by_hash m events ≡ ok m'
    → IsKeyed m'
unfolding index_by_hash
index_by_hash-IsKeyed m m' [] k h = let same : m ≡ m' = cc (h) in rw (sym same) k
index_by_hash-IsKeyed m m' (e ∷ events) k h =
    let (_, _, rest) =
      bind-eq-ok
        (fail_if (contains_key e.event_hash m)
          (str "duplicate event_hash detected: " ++ e.event_hash))
        (λ _. index_by_hash (insert e.event_hash e m) events) m' h in
    index_by_hash-IsKeyed (insert e.event_hash e m) m' events (insert-IsKeyed m e k) rest

-- The ordered history of an entity has the same hashes as often.
pub order_entity_events-times :
    (h : Str) (events ordered : List VectorEvent)
    → order_entity_events events ≡ some (ok ordered)
    → times h ordered ≡ times h events
unfolding order_entity_events get
order_entity_events-times h [] ordered done =
    let same : [] ≡ ordered = cc (done) in rw (sym same) refl
order_entity_events-times h (e ∷ events) ordered done = by_graph (own_graph (e ∷ events)) refl done
  where
    by_graph :
        (built : Result Str (Map VectorEvent × Graph))
        → own_graph (e ∷ events) ≡ built
        → walk_own (length (e ∷ events)) built ≡ some (ok ordered)
        → times h ordered ≡ times h (e ∷ events)
    by_graph (err x) b g = absurd (cc (g))
    by_graph (ok (m, g)) b g_done =
        let all = e ∷ events in
        let inside = map (restricted m) all in
        let (indexed, _) = own_graph-full all m g b in
        let (nodes, walked, sorted) = walk_own-nodes all m g b in
        let rest : taken_events missing_in_replay m nodes
              >>= all_ordered replay_failure (length all)
            ≡ ok ordered =
          cc (walked, g_done) in
        let (taken, took, full) =
          bind-eq-ok (taken_events missing_in_replay m nodes)
            (all_ordered replay_failure (length all)) ordered rest in
        let (same, count) = all_ordered-full replay_failure (length all) taken ordered full in
        let named : hashes taken ≡ nodes =
          taken_events-hashes missing_in_replay m nodes taken
            (index_by_hash-IsKeyed [] m all (λ k f found. absurd (cc (found))) indexed) took in
        let size : length inside ≡ length all = length-map all (restricted m) in
        let long : length nodes ≡ length inside =
          ap length (sym named) ∙ (length-map taken (λ x. x.event_hash) ∙ (count ∙ sym size)) in
        let causal =
          topological-IsCausal inside (restricted-IsClosed m all indexed) nodes sorted long in
        ap (times h) (sym same)
        ∙ (ap (occurrences h) named
            ∙ (causal.whole h ∙ ap (occurrences h) (hashes-restricted m all)))

module _ (ext : External) where
  -- An entity that went through was ordered and applied, and so was the rest.
  pub apply_entity-parts :
      (run run' : Run) (rest : Run → Option (Result Str Run))
      (ordered : Option (Result Str (List VectorEvent)))
      → apply_entity ext run rest ordered ≡ some (ok run')
      → (events : List VectorEvent) × (next : Run) × (ordered ≡ some (ok events))
        × (apply_ordered ext events run ≡ ok next)
        × (rest next ≡ some (ok run'))
  apply_entity-parts run run' rest none done = absurd (cc (done))
  apply_entity-parts run run' rest (some (err e)) done = absurd (cc (done))
  apply_entity-parts run run' rest (some (ok events)) done =
      let (next, applied, went) = by_run (apply_ordered ext events run) refl done in
      (events, next, refl, applied, went)
    where
      by_run :
          (applied : Result Str Run)
          → apply_ordered ext events run ≡ applied
          → elim applied as (λ _. Option (Result Str Run)) [
            | err e ↦ some (err e)
            | ok next ↦ rest next
          ]
            ≡ some (ok run')
          → (next : Run) × (apply_ordered ext events run ≡ ok next) × (rest next ≡ some (ok run'))
      by_run (err e) a d = absurd (cc (d))
      by_run (ok next) a d = (next, a, d)
