-- ===== src/Engine/Induction.antt =====
-- Every method of the engine writes in three ways only: a state that has been validated, a record,
-- and an event that has been checked. What these three keep, every method keeps.
use v_kernelx.Base.{ℕ, ◌≡◌, Option, List, [], ◌∷◌}
use v_kernelx.Base.Text.{Str}
use v_kernelx.Engine.{keep_record, append_canonical_event, publish, publish_child}
use v_kernelx.Engine.Monad.{KernelEngine, writes}
use v_kernelx.Engine.Operations.{
  existing, store_valid, certify, origin_create, record_transfer, transfer, drain, project,
  reconstruct,
}
use v_kernelx.Engine.Queries.{create_region}
use v_kernelx.Engine.Rules.{
  Keeps, Keeps-pure, Keeps-lift, Keeps-or_fail, Keeps-or_panic, Keeps-reads, Keeps-lift_at,
  Keeps-bind, Keeps-bind-lift,
}
use v_kernelx.Error.{ok}
use v_kernelx.Event.{VectorEvent, OperationType}
use v_kernelx.External.{External}
use v_kernelx.Reconstruction.{SettlementOutcome}
use v_kernelx.Record.{VectorRecordV1}
use v_kernelx.Region.Types.{RegionCreateRequest}
use v_kernelx.State.{VectorStateV1}
use v_kernelx.Storage.{put_state}
use v_kernelx.Validation.{validate_state}

ruleset rules =
    (Keeps-pure, Keeps-lift, Keeps-or_fail, Keeps-or_panic, Keeps-reads, Keeps-lift_at, Keeps-bind)

module _ (ext : External) (P : KernelEngine → Type 0)
    (event_rule : (e : VectorEvent) → Keeps P (append_canonical_event ext e)) where
  pub publish-Keeps :
      (before : Option VectorStateV1) (after : VectorStateV1) (o : OperationType) (t : ℕ)
      (parents : List Str)
      → Keeps P (publish ext before after o t parents)
  unfolding publish
  publish-Keeps before after o t parents = search (rules, event_rule) depth 12

  pub publish_child-Keeps :
      (before after : VectorStateV1) (o : OperationType) (t : ℕ)
      → Keeps P (publish_child ext before after o t)
  unfolding publish_child
  publish_child-Keeps before after o t = search (rules, publish-Keeps)

  -- The creation of a region writes its event only.
  pub create_region-Keeps :
      (now : ℕ → ℕ) (request : RegionCreateRequest) (actor : Str)
      → Keeps P (create_region ext now request actor)
  unfolding create_region
  create_region-Keeps now request actor = search (rules, event_rule) depth 24

  pub record_transfer-Keeps :
      ((r : VectorRecordV1) → Keeps P (keep_record r))
      → (now : ℕ → ℕ) (before_from before_to after_from after_to : VectorStateV1) (amount : List ℕ)
      → Keeps P (record_transfer ext now before_from before_to after_from after_to amount)
  unfolding record_transfer
  record_transfer-Keeps record_rule now before_from before_to after_from after_to amount =
      search (rules, record_rule, publish_child-Keeps) depth 16

module _ (ext : External) (P : KernelEngine → Type 0)
    (state_rule : (s : VectorStateV1) → validate_state s ≡ ok tt → Keeps P (writes (put_state s)))
    (record_rule : (r : VectorRecordV1) → Keeps P (keep_record r))
    (event_rule : (e : VectorEvent) → Keeps P (append_canonical_event ext e)) where
  existing-Keeps : (vector_id : Str) → Keeps P (existing vector_id)
  unfolding existing
  existing-Keeps vector_id = search rules

  store_valid-Keeps : (s : VectorStateV1) → Keeps P (store_valid s)
  unfolding store_valid
  store_valid-Keeps s =
      Keeps-bind-lift (validate_state s) (λ _. writes (put_state s)) (λ u valid. state_rule s valid)

  pub certify-Keeps : (now : ℕ → ℕ) (vector_id : Str) → Keeps P (certify ext now vector_id)
  unfolding certify
  certify-Keeps now vector_id =
      search
        (
          rules,
          existing-Keeps,
          store_valid-Keeps,
          record_rule,
          publish_child-Keeps ext P event_rule,
        )
        depth 16

  pub origin_create-Keeps :
      (now : ℕ → ℕ) (vector_id owner_pubkey space_id : Str) (components : List ℕ) (seed : Str)
      (nonce difficulty : ℕ)
      → Keeps P
          (origin_create ext now vector_id owner_pubkey space_id components seed nonce difficulty)
  unfolding origin_create
  origin_create-Keeps now vector_id owner_pubkey space_id components seed nonce difficulty =
      search (rules, store_valid-Keeps, record_rule, publish-Keeps ext P event_rule) depth 16

  -- The writes of a transfer stand behind the validation of both states.
  pub transfer-Keeps :
      (now : ℕ → ℕ) (from_id to_id : Str) (amount : List ℕ)
      → Keeps P (transfer ext now from_id to_id amount)
  unfolding transfer
  transfer-Keeps now from_id to_id amount = Keeps-bind _ _ (existing-Keeps from_id) λ before_from.
      Keeps-bind _ _ (existing-Keeps to_id) λ before_to. Keeps-bind _ _ (Keeps-lift _) λ moved.
        Keeps-bind-lift _ _ λ _ sender_valid. Keeps-bind-lift _ _ λ _ receiver_valid.
          Keeps-bind _ _ (state_rule _ sender_valid) λ _.
            Keeps-bind _ _ (state_rule _ receiver_valid)
              λ _. record_transfer-Keeps ext P event_rule record_rule now _ _ _ _ _

  pub drain-Keeps :
      (now : ℕ → ℕ) (vector_id : Str) (basis_points : ℕ)
      → Keeps P (drain ext now vector_id basis_points)
  unfolding drain
  drain-Keeps now vector_id basis_points =
      search
        (
          rules,
          existing-Keeps,
          store_valid-Keeps,
          record_rule,
          publish_child-Keeps ext P event_rule,
        )
        depth 18

  pub project-Keeps :
      (now : ℕ → ℕ) (vector_id : Str) (components : List ℕ) (escrow_id : Str)
      → Keeps P (project ext now vector_id components escrow_id)
  unfolding project
  project-Keeps now vector_id components escrow_id =
      search
        (
          rules,
          existing-Keeps,
          store_valid-Keeps,
          record_rule,
          publish_child-Keeps ext P event_rule,
        )
        depth 18

  pub reconstruct-Keeps :
      (now : ℕ → ℕ) (vector_id : Str) (outcome : SettlementOutcome)
      → Keeps P (reconstruct ext now vector_id outcome)
  unfolding reconstruct
  reconstruct-Keeps now vector_id outcome =
      search
        (
          rules,
          existing-Keeps,
          store_valid-Keeps,
          record_rule,
          publish_child-Keeps ext P event_rule,
        )
        depth 20

-- A call of one of the methods, with the clock's readings during the call.
pub data Command : Type 0 where
  certify_call : (ℕ → ℕ) → Str → Command
  origin_create_call : (ℕ → ℕ) → Str → Str → Str → List ℕ → Str → ℕ → ℕ → Command
  transfer_call : (ℕ → ℕ) → Str → Str → List ℕ → Command
  drain_call : (ℕ → ℕ) → Str → ℕ → Command
  project_call : (ℕ → ℕ) → Str → List ℕ → Str → Command
  reconstruct_call : (ℕ → ℕ) → Str → SettlementOutcome → Command
  create_region_call : (ℕ → ℕ) → RegionCreateRequest → Str → Command

module _ (ext : External) where
  -- The engine after the call, however the call ended.
  unfoldable pub step : Command → KernelEngine → KernelEngine
  step (certify_call now id) k = (certify ext now id k).1
  step (origin_create_call now id owner space components seed nonce difficulty) k =
      (origin_create ext now id owner space components seed nonce difficulty k).1
  step (transfer_call now from to amount) k = (transfer ext now from to amount k).1
  step (drain_call now id basis_points) k = (drain ext now id basis_points k).1
  step (project_call now id components escrow_id) k = (project ext now id components escrow_id k).1
  step (reconstruct_call now id outcome) k = (reconstruct ext now id outcome k).1
  step (create_region_call now request actor) k = (create_region ext now request actor k).1

  -- The engine after a session of calls; an error or a panic ends only its own call.
  unfoldable pub run : List Command → KernelEngine → KernelEngine
  unfolding step
  run [] k = k
  run (c ∷ cs) k = run cs (step c k)

  -- What the three writes keep, every session keeps.
  pub run-Keeps :
      (P : KernelEngine → Type 0)
      → ((s : VectorStateV1) → validate_state s ≡ ok tt → Keeps P (writes (put_state s)))
      → ((r : VectorRecordV1) → Keeps P (keep_record r))
      → ((e : VectorEvent) → Keeps P (append_canonical_event ext e))
      → (cs : List Command) (k : KernelEngine) → P k
      → P (run cs k)
  unfolding run
  run-Keeps P sr rr er [] k h = h
  run-Keeps P sr rr er (c ∷ cs) k h = run-Keeps P sr rr er cs (step c k) (one c)
    where
      one : (c : Command) → P (step c k)
      one (certify_call now id) = (certify-Keeps ext P sr rr er now id).at k h
      one (origin_create_call now id owner space components seed nonce difficulty) =
          (origin_create-Keeps ext P sr rr er now id owner space components seed nonce
              difficulty).at
            k h
      one (transfer_call now from to amount) =
          (transfer-Keeps ext P sr rr er now from to amount).at k h
      one (drain_call now id bp) = (drain-Keeps ext P sr rr er now id bp).at k h
      one (project_call now id components escrow_id) =
          (project-Keeps ext P sr rr er now id components escrow_id).at k h
      one (reconstruct_call now id outcome) =
          (reconstruct-Keeps ext P sr rr er now id outcome).at k h
      one (create_region_call now request actor) =
          (create_region-Keeps ext P er now request actor).at k h
