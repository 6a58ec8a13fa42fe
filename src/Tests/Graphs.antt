-- ===== src/Tests/Graphs.antt =====
-- Graphs, replays, snapshots and scripts on concrete inputs.
use v_kernelx.Base.{◌≡◌, refl, true, some, List, [], ◌∷◌, ◌++◌}
use v_kernelx.Base.Sort.{sort_by}
use v_kernelx.Base.Text.{Str, str, str_eq, str_cmp, trim, trim_start, trim_rev, to_ascii_uppercase}
use v_kernelx.Base.Map.{get, insert, contains_key}
use v_kernelx.Dag.{
  event_index, index_events, add_nodes, add_edges, add_parents, validate_region_admissibility,
  add_edge, index_order, taken_events, validate_dag,
}
use v_kernelx.Dag.Kahn.{children_of, keys_of_zero, kahn, release}
use v_kernelx.Dag.Validity.{IsHistory, validate_dag-IsHistory}
use v_kernelx.Error.{Result, ok}
use v_kernelx.Event.{VectorEvent, VectorState, OperationType, zero_state, new_event}
use v_kernelx.External.{object, end}
use v_kernelx.Interpreter.{
  Opcode, Instruction, parse_script, parse_lines, parse_line, lines, before_space, after_space,
  opcode_of, execute_script,
}
use v_kernelx.Interpreter.Refinement.{forgotten, run_until, session_of, execute_script-Refines}
use v_kernelx.Region.{is_region_create_event}
use v_kernelx.Region.Core.{new_core}
use v_kernelx.Replay.{
  ReplayResult, Run, result_of, metadata_eq, vector_state_eq, check_current, apply_event,
  group_by_entity, apply_ordered, replay_entities, replay_events,
}
use v_kernelx.Replay.Entity.{
  index_by_hash, add_own_parents, add_own_edges, own_order, own_graph, order_entity_events,
}
use v_kernelx.Replay.History.{IsReplay, replay_events-IsReplay}
use v_kernelx.Replay.Termination.{replay_events-returns}
use v_kernelx.Tests.World.{toy, clock, two_vectors}

abbrev held : VectorState
held = record {
  components = 5 ∷ [];
  owner_public_key = str "pk";
  type_tag = str "Standard";
  metadata = [];
}

abbrev born : VectorEvent
born =
    record (new_event (str "e1") [] (str "S") (str "A") OperationType.origin_create
      (zero_state 1 (str "pk") (str "Standard")) held 0 true (str "pk") 1 10) {
        event_hash = str "h1";
      }

abbrev renewed : VectorEvent
renewed =
    record (new_event (str "e2") (str "h1" ∷ []) (str "S") (str "A") OperationType.certify held held
      0 true (str "pk") 2 20) { event_hash = str "h2" }

-- The child first.
abbrev family : List VectorEvent
family = renewed ∷ born ∷ []

family_valid : validate_dag family ≡ some (ok tt)
unfolding validate_dag event_index index_events add_nodes contains_key get insert str_cmp str_eq str
    add_edges add_parents validate_region_admissibility add_edge children_of index_order
    keys_of_zero kahn sort_by release new_event zero_state
family_valid = refl

validate_dag-IsHistory_example : IsHistory family
validate_dag-IsHistory_example = validate_dag-IsHistory family family_valid

replay_events-returns_example : (r : Result Str ReplayResult) × (replay_events toy family ≡ some r)
replay_events-returns_example = replay_events-returns toy family

abbrev family_run : Run
family_run = record {
  state = (str "A", held) ∷ [];
  core = new_core toy;
  applied = str "h1" ∷ str "h2" ∷ [];
  clock = 2;
}

family_replayed : replay_events toy family ≡ some (ok (result_of toy family_run))
unfolding replay_events validate_dag event_index index_events add_nodes contains_key get insert
    str_cmp str_eq str add_edges add_parents validate_region_admissibility add_edge children_of
    index_order keys_of_zero kahn sort_by release new_event zero_state taken_events group_by_entity
    replay_entities order_entity_events own_graph index_by_hash add_own_edges add_own_parents
    own_order apply_ordered apply_event check_current vector_state_eq metadata_eq
    is_region_create_event
family_replayed = refl

replay_events-IsReplay_example : IsReplay toy family (result_of toy family_run)
replay_events-IsReplay_example =
    replay_events-IsReplay toy family (result_of toy family_run) family_replayed

-- A comment, a call in lower case, and a query.
abbrev script : Str
script = str "# session" ++ (b'\n' ∷ (str "certify {}" ++ (b'\n' ∷ str "QUERY {}")))

abbrev instructions : List Instruction
instructions =
    record { opcode = Opcode.certify_op; params = object end }
    ∷ record { opcode = Opcode.query_op; params = object end }
    ∷ []

script_parsed : parse_script toy script ≡ ok instructions
unfolding parse_script parse_lines parse_line lines before_space after_space opcode_of trim
    trim_start trim_rev str str_eq to_ascii_uppercase
script_parsed = refl

execute_script-Refines_example :
    forgotten (execute_script toy (λ i. clock) script two_vectors)
    ≡ run_until toy (session_of (λ i. clock) instructions) two_vectors
execute_script-Refines_example =
    execute_script-Refines toy (λ i. clock) script instructions two_vectors script_parsed
