-- ===== src/Engine/States.antt =====
-- The states under any session of calls.
use v_kernelx.Base.{◌≡◌, sym, ap, ◌∙◌, some, List, inl, inr}
use v_kernelx.Base.Text.{Str}
use v_kernelx.Base.Map.{Map, get, get-insert_cases}
use v_kernelx.Engine.{append_canonical_event}
use v_kernelx.Engine.Induction.{Command, run, run-Keeps}
use v_kernelx.Engine.Ledger.{append_canonical_event-Appends, keep_record-Keeps}
use v_kernelx.Engine.Monad.{KernelEngine, writes}
use v_kernelx.Engine.Rules.{Keeps}
use v_kernelx.Error.{ok}
use v_kernelx.Event.{VectorEvent}
use v_kernelx.External.{External}
use v_kernelx.State.{VectorStateV1}
use v_kernelx.Storage.{MemoryStore, put_state, put_record}
use v_kernelx.Validation.{validate_state}

-- Every stored state stands under its own id and is valid.
pub record HoldsValid (store : MemoryStore) : Type 0 where
  pub own_id : (id : Str) (s : VectorStateV1) → get id store.states ≡ some s → s.vector_id ≡ id
  pub valid :
      (id : Str) (s : VectorStateV1) → get id store.states ≡ some s → validate_state s ≡ ok tt

put_state-HoldsValid :
    (s : VectorStateV1)
    → validate_state s ≡ ok tt
    → Keeps (λ k. HoldsValid k.store) (writes (put_state s))
unfolding put_state
put_state-HoldsValid s ok_s = record {
  at = λ k h. record {
    own_id = λ id t found. elim (get-insert_cases s.vector_id id s t k.store.states found) [
      | inl (here, same) ↦ sym (ap (λ u. u.vector_id) same) ∙ here
      | inr before ↦ h.own_id id t before
    ];
    valid = λ id t found. elim (get-insert_cases s.vector_id id s t k.store.states found) [
      | inl (here, same) ↦ ap validate_state (sym same) ∙ ok_s
      | inr before ↦ h.valid id t before
    ];
  };
}

-- What holds of the states alone, an append keeps.
pub append-Keeps_states :
    (ext : External) (P : Map VectorStateV1 → Type 0) (e : VectorEvent)
    → Keeps (λ k. P k.store.states) (append_canonical_event ext e)
append-Keeps_states ext P e = record {
  at = λ k h. elim (append_canonical_event-Appends ext e k) [
    | inl same ↦ rw same h
    | inr (_, _, _, same) ↦ rw same h
  ];
}

append-HoldsValid :
    (ext : External) (e : VectorEvent)
    → Keeps (λ k. HoldsValid k.store) (append_canonical_event ext e)
append-HoldsValid ext e = record {
  at = λ k h. elim (append_canonical_event-Appends ext e k) [
    | inl same ↦ rw same h
    | inr (_, _, _, same) ↦ rw same (record { own_id = h.own_id; valid = h.valid })
  ];
}

-- Through any session of calls of the seven writing methods every stored state stands under its
-- own id and passes validation, if that held before.
pub run-HoldsValid :
    (ext : External) (cs : List Command) (k : KernelEngine)
    → HoldsValid k.store
    → HoldsValid (run ext cs k).store
unfolding put_record
run-HoldsValid ext cs k h =
    run-Keeps ext (λ k. HoldsValid k.store) put_state-HoldsValid
      (keep_record-Keeps HoldsValid (λ r store v. record { own_id = v.own_id; valid = v.valid }))
      (append-HoldsValid ext) cs k h
