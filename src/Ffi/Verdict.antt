-- ===== src/Ffi/Verdict.antt =====
-- src/ffi.rs: what `kernel_verify_record` vouches for.
use v_kernelx.Base.{
  ◌≡◌, refl, ◌∙◌, ap, Bool, true, false, ◌&&◌, Option, none, some, ℕ, Bool-cases, inl, inr, ◌⊎◌,
  List, [], ◌∷◌, is_nil,
}
use v_kernelx.Base.Text.{Str, str, str_eq, str_eq_iff}
use v_kernelx.Dag.{validate_dag}
use v_kernelx.Dag.Validity.{validate_dag-returns}
use v_kernelx.Error.{Result, ok, err, Result-cases}
use v_kernelx.Event.{VectorEvent}
use v_kernelx.External.{External, Value, bool}
use v_kernelx.Ffi.Entries.{report}
use v_kernelx.Ffi.Events.{is_ok, signature_check, event_report, validate_event_internal}
use v_kernelx.Ffi.Json.{flag}
use v_kernelx.Ffi.Execution.{singleton}
use v_kernelx.Ffi.Handle.{
  KernelHandle, returned, CStr, from_c_string, ok_json, err_json, write_last_error, set_last_error,
  clear_last_error, ◌>>=◌,
}
use v_kernelx.Ffi.Reading.{checks, kernel_verify_record, record_answer, parse_record}
use v_kernelx.Ffi.Requests.{Serde}
use v_kernelx.Hash.{canonical_payload_hash, canonical_event_hash}
use v_kernelx.Interpreter.Params.{param}
use v_kernelx.Serialization.{canonical_event_payload_bytes}
use v_kernelx.Signature.{verifying_key_from_hex, verify_event_signature}

-- An event that carries its own two hashes and its actor's signature, and is a history by itself.
pub record IsGenuine (ext : External) (event : VectorEvent) : Type 0 where
  pub payload : canonical_payload_hash ext event ≡ event.payload_hash
  pub hash : canonical_event_hash ext event ≡ event.event_hash
  pub alone : validate_dag (event ∷ []) ≡ some (ok tt)
  pub has_actor : is_nil event.actor_public_key ≡ false
  pub has_signature : is_nil event.signature ≡ false
  pub key : List ℕ
  pub key_of_actor : verifying_key_from_hex ext event.actor_public_key ≡ ok key
  pub signed :
      verify_event_signature ext key (canonical_event_payload_bytes event) event.signature ≡ ok true

-- The Boolean that the report comes to.
abbrev verdict : External → VectorEvent → Bool → Bool
verdict ext event dag_ok =
    (str_eq (canonical_payload_hash ext event) event.payload_hash
      && str_eq (canonical_event_hash ext event) event.event_hash)
    && (dag_ok && (signature_check ext event).0)

checks-event_report :
    (ext : External) (event : VectorEvent) (dag_ok : Bool)
    → checks (event_report ext event dag_ok) ≡ verdict ext event dag_ok
unfolding flag event_report param str str_eq
checks-event_report ext event dag_ok = refl

and-true : (a b : Bool) → (a && b) ≡ true → (a ≡ true) × (b ≡ true)
and-true true b h = (refl, h)
and-true false b h = absurd (cc h)

module _ (ext : External) (event : VectorEvent) where
  -- A signature that counts has been checked under the actor's key.
  signature_check-signed :
      (signature_check ext event).0 ≡ true
      → (is_nil event.actor_public_key ≡ false)
        × (is_nil event.signature ≡ false)
        × (key : List ℕ) × (verifying_key_from_hex ext event.actor_public_key ≡ ok key)
        × (verify_event_signature ext key (canonical_event_payload_bytes event) event.signature
            ≡ ok true)
  unfolding signature_check
  signature_check-signed good = by_actor (Bool-cases (is_nil event.actor_public_key))
    where
      by_key :
          is_nil event.actor_public_key ≡ false
          → is_nil event.signature ≡ false
          → (r : Result Str (List ℕ)) → verifying_key_from_hex ext event.actor_public_key ≡ r
          → (key : List ℕ) × (verifying_key_from_hex ext event.actor_public_key ≡ ok key)
            × (verify_event_signature ext key (canonical_event_payload_bytes event) event.signature
                ≡ ok true)
      by_key actor signature (err e) same = absurd (cc (rw (actor, signature, same) at good))
      by_key actor signature (ok key) same =
          elim (Result-cases (
            verify_event_signature ext key (canonical_event_payload_bytes event) event.signature)) [
              | inl (b, checked) ↦
                  (key, same, checked ∙ ap ok (rw (actor, signature, same, checked) at good))
              | inr (e, failed) ↦ absurd (cc (rw (actor, signature, same, failed) at good))
            ]

      by_signature :
          is_nil event.actor_public_key ≡ false
          → (is_nil event.signature ≡ true) ⊎ (is_nil event.signature ≡ false)
          → (is_nil event.actor_public_key ≡ false)
            × (is_nil event.signature ≡ false)
            × (key : List ℕ) × (verifying_key_from_hex ext event.actor_public_key ≡ ok key)
            × (verify_event_signature ext key (canonical_event_payload_bytes event) event.signature
                ≡ ok true)
      by_signature actor (inl missing) = absurd (cc (rw (actor, missing) at good))
      by_signature actor (inr there) =
          let (key, same, checked) = by_key actor there _ refl in (actor, there, key, same, checked)

      by_actor :
          (is_nil event.actor_public_key ≡ true) ⊎ (is_nil event.actor_public_key ≡ false)
          → (is_nil event.actor_public_key ≡ false)
            × (is_nil event.signature ≡ false)
            × (key : List ℕ) × (verifying_key_from_hex ext event.actor_public_key ≡ ok key)
            × (verify_event_signature ext key (canonical_event_payload_bytes event) event.signature
                ≡ ok true)
      by_actor (inl missing) = absurd (cc (rw missing at good))
      by_actor (inr there) = by_signature there (Bool-cases (is_nil event.signature))

  verdict-IsGenuine :
      (d : Result Str (Unit {0}))
      → validate_dag (event ∷ []) ≡ some d
      → verdict ext event (is_ok d) ≡ true
      → IsGenuine ext event
  verdict-IsGenuine (err e) ends good = absurd (
      cc (
        (and-true
          (str_eq (canonical_payload_hash ext event) event.payload_hash
            && str_eq (canonical_event_hash ext event) event.event_hash)
          false good).1))
  verdict-IsGenuine (ok tt) ends good =
      let (hashes, rest) = and-true _ _ good in
      let (payload, hash) = and-true _ _ hashes in
      let (actor, signature, key, key_ok, signed) = signature_check-signed rest in
      record {
        payload = (str_eq_iff _ _).0 payload;
        hash = (str_eq_iff _ _).0 hash;
        alone = ends;
        has_actor = actor;
        has_signature = signature;
        key = key;
        key_of_actor = key_ok;
        signed = signed;
      }

  IsGenuine-verdict :
      (d : Result Str (Unit {0}))
      → validate_dag (event ∷ []) ≡ some d
      → IsGenuine ext event
      → verdict ext event (is_ok d) ≡ true
  unfolding signature_check
  IsGenuine-verdict (err e) ends g = absurd (cc (g.alone, ends))
  IsGenuine-verdict (ok tt) ends g =
      rw
        (
          (str_eq_iff _ _).1 g.payload,
          (str_eq_iff _ _).1 g.hash,
          g.has_actor,
          g.has_signature,
          g.key_of_actor,
          g.signed,
        )
        refl

-- A handle whose last error is replaced.
abbrev pub with_last_error : Option Str → KernelHandle → KernelHandle
with_last_error message h = record h { inner = record (h.inner) { last_error = message } }

module _ (ext : External) (serde : Serde) where
  record_answer-passed :
      (result : Value) (h : KernelHandle)
      → h.held ≡ false
      → h.poisoned ≡ false
      → checks result ≡ true
      → record_answer ext serde (ok result) h
        ≡ (returned (ok_json ext (singleton (str "verified") (bool true))), with_last_error none h)
  unfolding record_answer clear_last_error write_last_error ◌>>=◌
  record_answer-passed result h free sound good = rw (good, free, sound) refl

  record_answer-failed :
      (result : Value) (h : KernelHandle)
      → h.held ≡ false
      → h.poisoned ≡ false
      → checks result ≡ false
      → record_answer ext serde (ok result) h ≡ (
        returned (err_json ext (str "record verification failed")),
        with_last_error (some (str "record verification failed")) h,
      )
  unfolding record_answer report set_last_error write_last_error ◌>>=◌
  record_answer-failed result h free sound bad = rw (bad, free, sound) refl

  kernel_verify_record-record_answer :
      (input_json : CStr) (text : Str) (event : VectorEvent) (h : KernelHandle)
      (d : Result Str (Unit {0}))
      → from_c_string serde.utf8_error input_json ≡ ok text
      → parse_record ext serde text ≡ ok event
      → validate_dag (event ∷ []) ≡ some d
      → kernel_verify_record ext serde input_json (some h) ≡ (
          let (r, g) = record_answer ext serde (ok (event_report ext event (is_ok d))) h in
          (r, some g))
  unfolding kernel_verify_record validate_event_internal ◌>>=◌
  kernel_verify_record-record_answer input_json text event h d text_ok event_ok ends =
      rw (text_ok, event_ok, ends) refl

  -- A record that is read through a free handle that is not poisoned is verified, and the last
  -- error cleared, if it carries its two hashes and its actor's signature and is a history by
  -- itself; otherwise it is refused, and the last error says so. The rest of the handle stays as
  -- it is.
  pub kernel_verify_record-decides :
      (input_json : CStr) (text : Str) (event : VectorEvent) (h : KernelHandle)
      → h.held ≡ false
      → h.poisoned ≡ false
      → from_c_string serde.utf8_error input_json ≡ ok text
      → parse_record ext serde text ≡ ok event
      → (IsGenuine ext event
          × (kernel_verify_record ext serde input_json (some h) ≡ (
            returned (ok_json ext (singleton (str "verified") (bool true))),
            some (with_last_error none h),
          )))
        ⊎ ((¬ IsGenuine ext event)
            × (kernel_verify_record ext serde input_json (some h) ≡ (
              returned (err_json ext (str "record verification failed")),
              some (with_last_error (some (str "record verification failed")) h),
            )))
  kernel_verify_record-decides input_json text event h free sound text_ok event_ok =
      let (d, ends) = validate_dag-returns (event ∷ []) in
      let whole =
        kernel_verify_record-record_answer input_json text event h d text_ok event_ok ends in
      let same = checks-event_report ext event (is_ok d) in
      elim (Bool-cases (verdict ext event (is_ok d))) [
        | inl good ↦ inl (
          verdict-IsGenuine ext event d ends good,
          whole ∙ ap (λ p. (p.0, some p.1)) (record_answer-passed _ h free sound (same ∙ good)),
        )
        | inr bad ↦ inr (
          λ g. absurd (cc (IsGenuine-verdict ext event d ends g, bad)),
          whole ∙ ap (λ p. (p.0, some p.1)) (record_answer-failed _ h free sound (same ∙ bad)),
        )
      ]
