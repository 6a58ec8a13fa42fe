-- ===== src/Engine/Ledger.antt =====
-- The event ledger and the states under any session of calls.
use v_kernelx.Base.{
  ◌≡◌, sym, ap, ◌∙◌, true, false, some, List, [], ◌∷◌, arith, All, Bool-cases, inl, inr, ◌⊎◌,
}
use v_kernelx.Base.Text.{Str}
use v_kernelx.Base.Map.{
  Map, get, contains_key, insert, values, get-insert_cases, All-contains_key-insert,
}
use v_kernelx.Consensus.{accept_record}
use v_kernelx.Engine.{new_engine, keep_record, append_canonical_event, ensure_parent_closure}
use v_kernelx.Engine.Induction.{Command, run, run-Keeps}
use v_kernelx.Engine.Monad.{KernelEngine, ◌>>=◌}
use v_kernelx.Engine.Rules.{Keeps}
use v_kernelx.Error.{ok, Result-cases}
use v_kernelx.Event.{VectorEvent}
use v_kernelx.External.{External}
use v_kernelx.Record.{VectorRecordV1}
use v_kernelx.Storage.{
  MemoryStore, put_state, put_record, get_event_by_hash, append_event, has_event_id,
}
use v_kernelx.Storage.Append.{
  IsFresh, appended, append_event-eq-ok_iff, get-insert_fresh, event_id-fresh,
}
use v_kernelx.Validation.{validate_event}

-- How an append can end: nothing has changed, or the event was checked, its parents were stored,
-- it was fresh, and now it is in the ledger.
abbrev pub Appends : External → VectorEvent → KernelEngine → KernelEngine → Type 0
Appends ext e k k' =
    (k' ≡ k)
    ⊎ ((validate_event ext e ≡ ok tt)
        × (ensure_parent_closure e e.parent_hashes k.store ≡ ok tt)
        × IsFresh e k.store
        × (k' ≡ record k { store = appended e k.store }))

module _ (ext : External) (e : VectorEvent) (k : KernelEngine) where
  append_checked :
      validate_event ext e ≡ ok tt
      → ensure_parent_closure e e.parent_hashes k.store ≡ ok tt
      → Appends ext e k (append_canonical_event ext e k).1
  unfolding append_canonical_event ◌>>=◌
  append_checked valid closed = elim (Result-cases (append_event e k.store)) [
    | inl (store', added) ↦
        let (fresh, same) = (append_event-eq-ok_iff e k.store store').0 added in
        inr
          (valid, closed, fresh, rw (valid, closed, added) (ap (λ s. record k { store = s }) same))
    | inr (why, no_add) ↦ inl (rw (valid, closed, no_add))
  ]

  pub append_canonical_event-Appends : Appends ext e k (append_canonical_event ext e k).1
  unfolding append_canonical_event ◌>>=◌
  append_canonical_event-Appends = elim (Result-cases (validate_event ext e)) [
    | inl (_, valid) ↦ elim (Result-cases (ensure_parent_closure e e.parent_hashes k.store)) [
      | inl (_, closed) ↦ append_checked valid closed
      | inr (why, orphan) ↦ inl (rw (valid, orphan))
    ]
    | inr (why, invalid) ↦ inl (rw invalid)
  ]

-- The records do not touch the states or the events.
pub keep_record-Keeps :
    (P : MemoryStore → Type 0)
    → ((r : VectorRecordV1) (store : MemoryStore) → P store → P (put_record r store))
    → (r : VectorRecordV1) → Keeps (λ k. P k.store) (keep_record r)
unfolding keep_record
keep_record-Keeps P rule r = record {
  at = λ k h. elim (Bool-cases (accept_record r k.consensus)) [
    | inl kept ↦ rw kept (rule r k.store h)
    | inr dropped ↦ rw dropped h
  ];
}

module _ (ext : External) (h : Str) (old : VectorEvent) where
  abbrev Remembers : MemoryStore → Type 0
  Remembers store = get h store.events ≡ some old

  append-Remembers :
      (e : VectorEvent) → Keeps (λ k. Remembers k.store) (append_canonical_event ext e)
  append-Remembers e = record {
    at = λ k found. elim (append_canonical_event-Appends ext e k) [
      | inl same ↦ rw same found
      | inr (_, _, fresh, same) ↦
          rw same (get-insert_fresh e.event_hash h e old k.store.events fresh.2 found)
    ];
  }

  -- The event ledger is append-only: an event that is stored stays stored under its hash,
  -- unchanged, through any session of calls of the seven writing methods.
  pub run-get_event_by_hash :
      (cs : List Command) (k : KernelEngine)
      → get_event_by_hash h k.store ≡ some old
      → get_event_by_hash h (run ext cs k).store ≡ some old
  unfolding get_event_by_hash put_state put_record
  run-get_event_by_hash cs k found =
      run-Keeps ext (λ k. Remembers k.store) (λ s valid. record { at = λ k f. f })
        (keep_record-Keeps Remembers (λ r store f. f)) append-Remembers cs k found

-- Every stored event stands under its own hash, has passed validation, has all its parents in the
-- ledger, and shares its id with no other.
pub record IsLedger (ext : External) (m : Map VectorEvent) : Type 0 where
  pub keyed : (h : Str) (e : VectorEvent) → get h m ≡ some e → e.event_hash ≡ h
  pub checked : (h : Str) (e : VectorEvent) → get h m ≡ some e → validate_event ext e ≡ ok tt
  pub closed :
      (h : Str) (e : VectorEvent)
      → get h m ≡ some e
      → All (λ p. contains_key p m ≡ true) e.parent_hashes
  pub unique :
      (h j : Str) (e f : VectorEvent)
      → get h m ≡ some e
      → get j m ≡ some f
      → e.event_id ≡ f.event_id
      → h ≡ j

closed_parents :
    (e : VectorEvent) (ps : List Str) (store : MemoryStore)
    → ensure_parent_closure e ps store ≡ ok tt
    → All (λ p. contains_key p store.events ≡ true) ps
unfolding ensure_parent_closure get_event_by_hash contains_key
closed_parents e [] store h = tt
closed_parents e (p ∷ ps) store h = (ground arith, closed_parents e ps store (ground arith))

module _ (ext : External) (e : VectorEvent) (m : Map VectorEvent) (l : IsLedger ext m) where
  pub insert-IsLedger :
      validate_event ext e ≡ ok tt
      → All (λ p. contains_key p m ≡ true) e.parent_hashes
      → has_event_id e.event_id (values m) ≡ false
      → IsLedger ext (insert e.event_hash e m)
  insert-IsLedger valid parents fresh = record {
    keyed = λ h f found. elim (get-insert_cases e.event_hash h e f m found) [
      | inl (here, same) ↦ sym (ap (λ g. g.event_hash) same) ∙ here
      | inr before ↦ l.keyed h f before
    ];
    checked = λ h f found. elim (get-insert_cases e.event_hash h e f m found) [
      | inl (here, same) ↦ rw (← same) valid
      | inr before ↦ l.checked h f before
    ];
    closed = λ h f found. elim (get-insert_cases e.event_hash h e f m found) [
      | inl (here, same) ↦
          rw (← same) (All-contains_key-insert e.event_hash e m e.parent_hashes parents)
      | inr before ↦ All-contains_key-insert e.event_hash e m f.parent_hashes (l.closed h f before)
    ];
    unique = λ h j f g found found' ids. elim (get-insert_cases e.event_hash h e f m found) [
      | inl (here, same) ↦ elim (get-insert_cases e.event_hash j e g m found') [
        | inl (here', same') ↦ sym here ∙ here'
        | inr before' ↦ absurd (
            event_id-fresh m e.event_id j g fresh before'
              (sym ids ∙ sym (ap (λ x. x.event_id) same)))
      ]
      | inr before ↦ elim (get-insert_cases e.event_hash j e g m found') [
        | inl (here', same') ↦
            absurd (
              event_id-fresh m e.event_id h f fresh before (ids ∙ sym (ap (λ x. x.event_id) same')))
        | inr before' ↦ l.unique h j f g before before' ids
      ]
    ];
  }

abbrev HasLedger : External → MemoryStore → Type 0
HasLedger ext store = IsLedger ext store.events

append-HasLedger :
    (ext : External) (e : VectorEvent)
    → Keeps (λ k. HasLedger ext k.store) (append_canonical_event ext e)
append-HasLedger ext e = record {
  at = λ k l. elim (append_canonical_event-Appends ext e k) [
    | inl same ↦ rw same l
    | inr (valid, closed, fresh, same) ↦ rw same (
        insert-IsLedger ext e k.store.events l valid
          (closed_parents e e.parent_hashes k.store closed) fresh.3)
  ];
}

pub IsLedger-empty : (ext : External) → IsLedger ext []
unfolding get
IsLedger-empty ext = record {
  keyed = λ h e f. absurd (cc);
  checked = λ h e f. absurd (cc);
  closed = λ h e f. absurd (cc);
  unique = λ h j e f p q same. absurd (cc);
}

-- Through any session of calls of the seven writing methods, whether each succeeds, fails or
-- panics, every stored event stands under its own hash, passes validation and has all its parents
-- stored, and no two stored events share an id, if that held before.
pub run-IsLedger :
    (ext : External) (cs : List Command) (k : KernelEngine)
    → IsLedger ext k.store.events
    → IsLedger ext (run ext cs k).store.events
unfolding put_state put_record
run-IsLedger ext cs k l =
    run-Keeps ext (λ k. HasLedger ext k.store) (λ s valid. record { at = λ k h. h })
      (keep_record-Keeps (HasLedger ext) (λ r store h. h)) (append-HasLedger ext) cs k l

-- In particular for a new engine, whose ledger is empty.
pub run-new_engine-IsLedger :
    (ext : External) (cs : List Command) → IsLedger ext (run ext cs new_engine).store.events
run-new_engine-IsLedger ext cs = run-IsLedger ext cs new_engine (IsLedger-empty ext)
