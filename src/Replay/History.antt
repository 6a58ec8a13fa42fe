-- ===== src/Replay/History.antt =====
-- src/replay.rs: a replay that succeeds applies each event of the history to the states before it.
use v_kernelx.Base.{
  ◌≡◌, refl, sym, ap, ◌∙◌, Bool, true, false, Option, none, some, List, [], ◌∷◌, ◌++◌, arith, All,
  inl, inr, append_assoc, append-nil, ◌⊎◌,
}
use v_kernelx.Base.Text.{Str}
use v_kernelx.Base.Map.{Map, get, insert}
use v_kernelx.Base.Map.Sums.{sum}
use v_kernelx.Dag.{validate_dag}
use v_kernelx.Dag.Building.{hashes}
use v_kernelx.Error.{Result, ok, err, ◌>>=◌, ◌>>◌, bind-eq-ok}
use v_kernelx.Event.{OperationType, VectorState, VectorEvent}
use v_kernelx.External.{External}
use v_kernelx.Region.{is_region_create_event}
use v_kernelx.Region.Core.{new_core}
use v_kernelx.Region.Types.{CoreState}
use v_kernelx.Replay.{
  Progress, vector_state_eq, check_current, group_by_entity, Run, advanced, result_of,
  apply_creation, apply_event, apply_ordered, replay_entities, ReplayResult, finished, first_run,
  replay_validated, replay_events,
}
use v_kernelx.Replay.Coverage.{
  times, times-append, group_by_entity-times, order_entity_events-times, apply_entity-parts,
}
use v_kernelx.Replay.Entity.{order_entity_events}
use v_kernelx.Replay.Members.{
  Stands, all_stand, Groups, order_entity_events-All, group_by_entity-Groups, All-append,
}

-- The entity's state, if any, is the one that the event starts from: none for an origin, and for all
-- else one that equals the event's `vector_before`.
abbrev pub Continues : OperationType → Option VectorState → VectorEvent → Type 0
Continues OperationType.origin_create none event = Unit
Continues OperationType.origin_create (some current) event = ⊥
Continues _ none event = ⊥
Continues _ (some current) event = vector_state_eq current event.vector_before ≡ true

check_current-Continues :
    (o : OperationType) (current : Option VectorState) (event : VectorEvent)
    → check_current o current event ≡ ok tt
    → Continues o current event
unfolding check_current
check_current-Continues OperationType.origin_create none event h = tt
check_current-Continues OperationType.origin_create (some current) event h = absurd (cc (h))
check_current-Continues _ none event h = absurd (cc (h))
check_current-Continues _ (some current) event h = ground arith

hashes-append : (es fs : List VectorEvent) → hashes (es ++ fs) ≡ hashes es ++ hashes fs
hashes-append [] fs = refl
hashes-append (e ∷ es) fs = ap (λ hs. e.event_hash ∷ hs) (hashes-append es fs)

module _ (ext : External) where
  -- An event goes from the states and the core before it to the core behind it: the creation of a
  -- region is taken into the core, all else continues the entity's state.
  abbrev pub Applies : VectorEvent → Progress → CoreState → Type 0
  Applies event (state, core) core' =
      ((is_region_create_event event ≡ true) × (apply_creation ext event core ≡ ok core'))
      ⊎ ((is_region_create_event event ≡ false)
          × Continues event.operation (get event.entity_id state) event
          × (core' ≡ core))

  -- The events apply one behind the other, each writing its `vector_after` under its entity.
  abbrev pub Replays : List VectorEvent → Progress → Progress → Type 0
  Replays [] before after = before ≡ after
  Replays (event ∷ events) before after =
      (core' : CoreState) × Applies event before core'
      × Replays events (insert event.entity_id event.vector_after (before.0), core') after

  apply_event-Applies :
      (event : VectorEvent) (before after : Progress)
      → apply_event ext event before ≡ ok after
      → (core' : CoreState) × Applies event before core'
        × ((insert event.entity_id event.vector_after (before.0), core') ≡ after)
  unfolding apply_event
  apply_event-Applies event (state, core) after h = by_kind (is_region_create_event event) refl h
    where
      state' : Map VectorState
      state' = insert event.entity_id event.vector_after state

      by_kind :
          (b : Bool)
          → is_region_create_event event ≡ b
          → elim b as (λ _. Result Str Progress) [
            | true ↦ (do core' ← apply_creation ext event core; ok (state', core'))
            | false ↦ (do
              check_current event.operation (get event.entity_id state) event
              ok (state', core))
          ]
            ≡ ok after
          → (core' : CoreState) × Applies event (state, core) core' × ((state', core') ≡ after)
      by_kind true kind done =
          let (core', made, rest) =
            bind-eq-ok (apply_creation ext event core) (λ core'. ok (state', core')) after done in
          (core', inl (kind, made), cc (rest))
      by_kind false kind done =
          let (u, checked, rest) =
            bind-eq-ok (check_current event.operation (get event.entity_id state) event)
              (λ _. ok (state', core)) after done in
          (core, inr (kind, check_current-Continues _ _ event checked, refl), cc (rest))

  Replays-append :
      (es fs : List VectorEvent) (i j k : Progress)
      → Replays es i j
      → Replays fs j k
      → Replays (es ++ fs) i k
  Replays-append [] fs i j k a b = rw a b
  Replays-append (e ∷ es) fs i j k (core', here, rest) b =
      (core', here, Replays-append es fs _ j k rest b)

  -- What a part of the loop does to the run.
  record Goes (events : List VectorEvent) (run run' : Run) : Type 0 where
    applied : run'.applied ≡ run.applied ++ hashes events
    replays : Replays events (run.state, run.core) (run'.state, run'.core)

  Goes-append :
      (es fs : List VectorEvent) (run mid run' : Run)
      → Goes es run mid
      → Goes fs mid run'
      → Goes (es ++ fs) run run'
  Goes-append es fs run mid run' a b = record {
    applied =
        b.applied
        ∙ (ap (λ hs. hs ++ hashes fs) a.applied
            ∙ (append_assoc run.applied (hashes es) (hashes fs)
                ∙ ap (λ hs. run.applied ++ hs) (sym (hashes-append es fs))));
    replays = Replays-append es fs _ (mid.state, mid.core) _ a.replays b.replays;
  }

  apply_ordered-Goes :
      (events : List VectorEvent) (run run' : Run)
      → apply_ordered ext events run ≡ ok run'
      → Goes events run run'
  unfolding apply_ordered
  apply_ordered-Goes [] run run' done =
      let same : run ≡ run' = cc (done) in
      rw (sym same) (record { applied = sym (append-nil run.applied); replays = refl })
  apply_ordered-Goes (e ∷ events) run run' done =
      let (next, made, rest) =
        bind-eq-ok (apply_event ext e (run.state, run.core))
          (λ next. apply_ordered ext events (advanced e run next)) run' done in
      let later = apply_ordered-Goes events (advanced e run next) run' rest in
      let (core', here, same) = apply_event-Applies e (run.state, run.core) next made in
      record {
        applied = later.applied ∙ append_assoc run.applied (e.event_hash ∷ []) (hashes events);
        replays = (core', here, rw same later.replays);
      }

  -- The loop over the entities applies the events of all groups in some order.
  record Covers (P : VectorEvent → Type 0) (by_entity : Map (List VectorEvent)) (run run' : Run)
      : Type 0 where
    order : List VectorEvent
    whole : (h : Str) → times h order ≡ sum (times h) by_entity
    own : All P order
    goes : Goes order run run'

  replay_entities-Covers :
      (P : VectorEvent → Type 0) (by_entity : Map (List VectorEvent)) (run run' : Run)
      → Groups P by_entity
      → replay_entities ext by_entity run ≡ some (ok run')
      → Covers P by_entity run run'
  unfolding replay_entities
  replay_entities-Covers P [] run run' groups done =
      let same : run ≡ run' = cc (done) in
      record {
        order = [];
        whole = λ h. refl;
        own = tt;
        goes = rw (sym same) (record { applied = sym (append-nil run.applied); replays = refl });
      }
  replay_entities-Covers P ((entity, events) ∷ by_entity) run run' groups done =
      let (ordered, next, sorted, applied, rest) =
        apply_entity-parts ext run run' (replay_entities ext by_entity) (order_entity_events events)
          done in
      let later = replay_entities-Covers P by_entity next run' (groups.1) rest in
      record {
        order = ordered ++ later.order;
        whole = λ h. omega (
          arith,
          times-append h ordered later.order,
          order_entity_events-times h events ordered sorted,
          later.whole h,
        );
        own =
            All-append P ordered later.order
              (order_entity_events-All P events ordered (groups.0) sorted) later.own;
        goes =
            Goes-append ordered later.order run next run'
              (apply_ordered-Goes ordered run next applied) later.goes;
      }

  -- The history in the order of a replay: its events and no others, each hash as often as it stands
  -- there, applied one behind the other from the empty states and the new core.
  pub record IsReplay (events : List VectorEvent) (result : ReplayResult) : Type 0 where
    pub order : List VectorEvent
    pub own : All (λ e. Stands e events) order
    pub whole : (h : Str) → times h order ≡ times h events
    pub named : result.applied_event_hashes ≡ hashes order
    pub replays : Replays order ([], new_core ext) (result.final_state, result.core_state)

  -- A replay that succeeds has applied events of the history only, each hash as often as it stands
  -- there: in some order each of them continues the state of its entity, or is taken into the core
  -- as the creation of a region, and leaves its `vector_after`; the result has the states and the
  -- core behind the last one, and the hashes in that order.
  pub replay_events-IsReplay :
      (events : List VectorEvent) (result : ReplayResult)
      → replay_events ext events ≡ some (ok result)
      → IsReplay events result
  unfolding replay_events result_of
  replay_events-IsReplay events result done = by_validation (validate_dag events) done
    where
      by_run :
          (r : Option (Result Str Run))
          → replay_entities ext (group_by_entity [] events) (first_run ext) ≡ r
          → finished ext r ≡ some (ok result)
          → IsReplay events result
      by_run none same d = absurd (cc (d))
      by_run (some (err e)) same d = absurd (cc (d))
      by_run (some (ok run)) same d =
          let is : result_of ext run ≡ result = cc (d) in
          let own = group_by_entity-Groups (λ e. Stands e events) [] events tt (all_stand events) in
          let covers =
            replay_entities-Covers (λ e. Stands e events) (group_by_entity [] events)
              (first_run ext) run own same in
          rw (sym is) (record {
            order = covers.order;
            own = covers.own;
            whole = λ h. omega (arith, covers.whole h, group_by_entity-times h [] events tt);
            named = covers.goes.applied;
            replays = covers.goes.replays;
          })

      by_validation :
          (v : Option (Result Str (Unit {0})))
          → replay_validated ext events v ≡ some (ok result)
          → IsReplay events result
      by_validation none d = absurd (cc (d))
      by_validation (some (err e)) d = absurd (cc (d))
      by_validation (some (ok u)) d =
          by_run (replay_entities ext (group_by_entity [] events) (first_run ext)) refl d
