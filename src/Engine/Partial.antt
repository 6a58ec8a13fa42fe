-- ===== src/Engine/Partial.antt =====
-- A method that fails after it has written: an origin whose components do not fit the event.
use v_kernelx.Base.{
  ℕ, ◌≤◌, ◌≡◌, refl, ap, ◌∙◌, none, some, List, [], ◌∷◌, arith, inl, inr, true, u64_max, ltb, All,
  Bool-cases,
}
use v_kernelx.Base.Text.{Str, str, str_eq_iff}
use v_kernelx.Base.Map.{get, get-insert}
use v_kernelx.Consensus.{accept_record}
use v_kernelx.Engine.{event_components, vector_v1_to_event_state, keep_record, publish}
use v_kernelx.Engine.Monad.{KernelEngine, Action, pure, ◌>>◌, done, failed, ◌>>=◌}
use v_kernelx.Engine.Operations.{recertified, store_valid, origin_create}
use v_kernelx.Error.{KernelXError, invalid_state, ok, err}
use v_kernelx.Event.{OperationType}
use v_kernelx.External.{External}
use v_kernelx.Origin.{verify_origin, origin_vector, create_origin_vector}
use v_kernelx.Record.{VectorRecordV1}
use v_kernelx.State.{VectorStateV1, new, validate_canonical_state}
use v_kernelx.Storage.{MemoryStore, get_state, put_state, put_record}
use v_kernelx.Validation.{validate_state}

abbrev pub oversized : KernelXError
oversized = invalid_state (str "component value exceeds u64 canonical event limit")

-- Some component does not fit `u64`.
abbrev pub IsOversized : List ℕ → Type 0
IsOversized cs = ¬ All (λ c. c ≤ u64_max) cs

event_components-oversized : (cs : List ℕ) → IsOversized cs → event_components cs ≡ err oversized
unfolding event_components
event_components-oversized [] h = absurd (h tt)
event_components-oversized (c ∷ cs) h = elim (Bool-cases (ltb u64_max c)) [
  | inl big ↦ rw big
  | inr small ↦ rw (small, event_components-oversized cs (λ rest. h (ground arith, rest))) refl
]

publish-oversized :
    (ext : External) (after : VectorStateV1) (o : OperationType) (t : ℕ) (parents : List Str)
    (k : KernelEngine)
    → IsOversized after.components
    → publish ext none after o t parents k ≡ (failed oversized, k)
unfolding publish vector_v1_to_event_state ◌>>=◌
publish-oversized ext after o t parents k big =
    rw (event_components-oversized after.components big) refl

-- Keeping a record succeeds and touches neither the states nor the events.
keep_record-kept :
    (r : VectorRecordV1) (k : KernelEngine)
    → (k' : KernelEngine) × (keep_record r k ≡ (done tt, k'))
      × (k'.store.states ≡ k.store.states)
      × (k'.store.events ≡ k.store.events)
unfolding keep_record put_record
keep_record-kept r k = elim (Bool-cases (accept_record r k.consensus)) [
  | inl yes_kept ↦ (record k { store = put_record r k.store }, rw yes_kept refl, refl, refl)
  | inr not_kept ↦ (k, rw not_kept refl, refl, refl)
]

recertified-valid :
    (t : ℕ) (s : VectorStateV1)
    → validate_state s ≡ ok tt
    → validate_state (recertified t s) ≡ ok tt
unfolding recertified validate_state validate_canonical_state
recertified-valid t s valid = valid

-- The rest of the method, once its state is written.
abbrev record_and_publish : External → VectorRecordV1 → VectorStateV1 → ℕ → Action VectorStateV1
record_and_publish ext r s t =
    keep_record r >> (publish ext none s OperationType.origin_create t [] >> pure s)

recorded-oversized :
    (ext : External) (r : VectorRecordV1) (s : VectorStateV1) (t : ℕ) (k : KernelEngine)
    → IsOversized s.components
    → let result = record_and_publish ext r s t k in
      (result.0 ≡ failed oversized)
      × (result.1.store.states ≡ k.store.states)
      × (result.1.store.events ≡ k.store.events)
unfolding ◌>>=◌
recorded-oversized ext r s t k big =
    let (k', kept, states, events) = keep_record-kept r k in
    rw (kept, publish-oversized ext s OperationType.origin_create t [] k' big)
      (refl, states, events)

module _ (ext : External) (now : ℕ → ℕ) (vector_id owner space : Str) (components : List ℕ)
    (seed : Str) (nonce difficulty : ℕ) (k : KernelEngine) where
  abbrev pub fresh_origin : VectorStateV1
  fresh_origin = origin_vector ext (now 0) vector_id owner space components seed nonce difficulty

  fresh_origin-IsOversized :
      IsOversized components → IsOversized (recertified (now 1) fresh_origin).components
  unfolding recertified origin_vector new
  fresh_origin-IsOversized big = big

  fresh_origin-stored :
      (m : MemoryStore)
      → get_state vector_id (put_state (recertified (now 1) fresh_origin) m)
        ≡ some (recertified (now 1) fresh_origin)
  unfolding recertified origin_vector new get_state put_state
  fresh_origin-stored m = ground (
    arith,
    get-insert vector_id vector_id (recertified (now 1) fresh_origin) m.states,
    str_eq_iff vector_id vector_id,
  )

  -- An accepted, valid origin with a component beyond u64 fails with the event limit's error,
  -- after its state has been stored and with the events unchanged.
  pub origin_create-oversized_writes :
      verify_origin ext seed nonce difficulty ≡ true
      → validate_state fresh_origin ≡ ok tt
      → IsOversized components
      → let result =
          origin_create ext now vector_id owner space components seed nonce difficulty k in
        (result.0 ≡ failed oversized)
        × (get_state vector_id result.1.store ≡ some (recertified (now 1) fresh_origin))
        × (result.1.store.events ≡ k.store.events)
  unfolding origin_create store_valid create_origin_vector get_state put_state ◌>>=◌
  origin_create-oversized_writes proved valid big =
      let valid' = recertified-valid (now 1) fresh_origin valid in
      rw (proved, valid, valid')
        (let (outcome, states, events) =
            recorded-oversized ext _ (recertified (now 1) fresh_origin) _ _
              (fresh_origin-IsOversized big) in
          (outcome, ap (get vector_id) states ∙ fresh_origin-stored k.store, events))
