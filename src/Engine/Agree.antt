-- ===== src/Engine/Agree.antt =====
-- What two ledgers can disagree on under one hash.
use v_kernelx.Base.{◌≡◌, ◌⊎◌, sym, ◌∙◌, Bool-cases, inl, inr, some, arith}
use v_kernelx.Base.Text.{Str, str_eq, str_eq_iff}
use v_kernelx.Base.Map.{Map, get}
use v_kernelx.Engine.Ledger.{IsLedger}
use v_kernelx.Error.{ok}
use v_kernelx.Event.{VectorEvent}
use v_kernelx.External.{External, Collides}
use v_kernelx.Hash.{canonical_event_hash}
use v_kernelx.Serialization.{canonical_event_bytes}
use v_kernelx.Serialization.Events.{IsEvent, SamePayload, canonical_event_bytes-inj}
use v_kernelx.Validation.{validate_event, validate_hashes}

-- A validated event carries the hash of its own bytes.
pub validate_event-event_hash :
    (ext : External) (e : VectorEvent)
    → validate_event ext e ≡ ok tt
    → e.event_hash ≡ canonical_event_hash ext e
unfolding validate_event validate_hashes
validate_event-event_hash ext e h =
    (str_eq_iff e.event_hash (canonical_event_hash ext e)).0 (ground arith)

-- Two ledgers that keep the ledger invariant hold, under one hash, events with the same signed
-- fields and payload hash, or the bytes of the two events are a collision of BLAKE3.
pub ledgers-agree :
    (ext : External) (m n : Map VectorEvent) (h : Str) (e f : VectorEvent)
    → IsLedger ext m
    → IsLedger ext n
    → get h m ≡ some e
    → get h n ≡ some f
    → IsEvent e
    → IsEvent f
    → (SamePayload e f × (e.payload_hash ≡ f.payload_hash))
      ⊎ Collides ext (canonical_event_bytes e) (canonical_event_bytes f)
unfolding canonical_event_hash
ledgers-agree ext m n h e f lm ln here there fits_e fits_f =
    let own_e = validate_event-event_hash ext e (lm.checked h e here) in
    let own_f = validate_event-event_hash ext f (ln.checked h f there) in
    let same = sym own_e ∙ (lm.keyed h e here ∙ (sym (ln.keyed h f there) ∙ own_f)) in
    let decided = str_eq_iff (canonical_event_bytes e) (canonical_event_bytes f) in
    elim (Bool-cases (str_eq (canonical_event_bytes e) (canonical_event_bytes f))) [
      | inl equal ↦ inl (canonical_event_bytes-inj e f fits_e fits_f (decided.0 equal))
      | inr apart ↦ inr (λ equal. absurd (cc (decided.1 equal, apart)), same)
    ]
