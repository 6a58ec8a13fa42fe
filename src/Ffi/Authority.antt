-- ===== src/Ffi/Authority.antt =====
-- Who may change the engine through a submission.
use v_kernelx.Base.{
  ◌≡◌, refl, ◌∙◌, ap, Bool, true, false, not, some, ℕ, Bool-cases, inl, inr, ◌⊎◌, List,
}
use v_kernelx.Base.Text.{Str, is_blank}
use v_kernelx.Base.Map.{contains_key}
use v_kernelx.Error.{Result, ok, err, fail_if, Result-cases, bind-eq-ok}
use v_kernelx.External.{External, Value}
use v_kernelx.Ffi.Attempt
use v_kernelx.Ffi.Attempt.{Attempt, on_inner}
use v_kernelx.Ffi.Entries.{report, or_report, printed, kernel_submit_event}
use v_kernelx.Ffi.Execution.{submitted, execute_validated, execute_submit_request}
use v_kernelx.Ffi.Handle.{
  KernelInner, KernelHandle, Ended, returned, stuck, aborted, CStr, from_c_string, under_lock,
  write_last_error, set_last_error, proceed, ◌>>=◌,
}
use v_kernelx.Ffi.Requests.{
  Serde, SubmitEventRequest, labelled, parse_submit_request, canonical_submit_request_bytes,
  validate_operation_shape, validate_submit_request,
}
use v_kernelx.Signature.{verifying_key_from_hex, verify_event_signature}

-- A request with an id that has not been used, whose actor has signed its operation, its id and its
-- parameters.
pub record IsAuthorized (ext : External) (serde : Serde) (inner : KernelInner)
    (request : SubmitEventRequest) : Type 0 where
  pub has_id : is_blank request.request_id ≡ false
  pub has_actor : is_blank request.actor_public_key ≡ false
  pub has_signature : is_blank request.signature ≡ false
  pub shaped : validate_operation_shape ext serde request.operation request.params ≡ ok tt
  pub fresh : contains_key request.request_id inner.seen_request_ids ≡ false
  pub key : List ℕ
  pub key_of_actor : verifying_key_from_hex ext request.actor_public_key ≡ ok key
  pub bytes : List ℕ
  pub bytes_of_request : canonical_submit_request_bytes ext serde request ≡ ok bytes
  pub signed : verify_event_signature ext key bytes request.signature ≡ ok true

fail_if-ok : (b : Bool) (e : Str) (u : Unit {0}) → fail_if b e ≡ ok u → b ≡ false
fail_if-ok true e u h = absurd (cc h)
fail_if-ok false e u h = refl

labelled-ok :
    {A : Type 0} (label : Str) (r : Result Str A) (a : A) → labelled label r ≡ ok a → r ≡ ok a
labelled-ok label (ok b) a h = h
labelled-ok label (err e) a h = absurd (cc h)

-- What the validation lets through is authorized.
pub validate_submit_request-IsAuthorized :
    (ext : External) (serde : Serde) (inner : KernelInner) (request : SubmitEventRequest)
    (v : Value)
    → validate_submit_request ext serde inner request ≡ ok v
    → IsAuthorized ext serde inner request
unfolding validate_submit_request
validate_submit_request-IsAuthorized ext serde inner request v h =
    let (_, h1, k1) = bind-eq-ok _ _ v h in
    let (_, h2, k2) = bind-eq-ok _ _ v k1 in
    let (_, h3, k3) = bind-eq-ok _ _ v k2 in
    let (_, h4, k4) = bind-eq-ok _ _ v k3 in
    let (_, h5, k5) = bind-eq-ok _ _ v k4 in
    let (key, h6, k6) = bind-eq-ok _ _ v k5 in
    let (bytes, h7, k7) = bind-eq-ok _ _ v k6 in
    let (good, h8, k8) = bind-eq-ok _ _ v k7 in
    let (_, h9, _) = bind-eq-ok _ _ v k8 in
    record {
      has_id = fail_if-ok _ _ _ h1;
      has_actor = fail_if-ok _ _ _ h2;
      has_signature = fail_if-ok _ _ _ h3;
      shaped = h4;
      fresh = fail_if-ok _ _ _ h5;
      key = key;
      key_of_actor = h6;
      bytes = bytes;
      bytes_of_request = h7;
      signed = labelled-ok _ _ _ h8 ∙ ap ok (not-false good (fail_if-ok _ _ _ h9));
    }
  where
    not-false : (b : Bool) → not b ≡ false → b ≡ true
    not-false true e = refl
    not-false false e = cc e

-- What a submission that changes something is.
abbrev pub Authorized : External → Serde → CStr → KernelInner → Type 0
Authorized ext serde input_json inner =
    (text : Str) × (request : SubmitEventRequest) × (from_c_string serde.utf8_error input_json
      ≡ ok text)
    × (parse_submit_request ext serde text ≡ ok request)
    × IsAuthorized ext serde inner request

-- The engine and the ids are as they were.
abbrev pub SameWork : KernelHandle → KernelHandle → Type 0
SameWork h g =
    (g.inner.engine ≡ h.inner.engine) × (g.inner.seen_request_ids ≡ h.inner.seen_request_ids)

SameWork-trans : (f g h : KernelHandle) → SameWork f g → SameWork g h → SameWork f h
SameWork-trans f g h a b = (b.0 ∙ a.0, b.1 ∙ a.1)

module _ (ext : External) where
  report-SameWork : (e : Str) (h : KernelHandle) → SameWork h (report ext e h).1
  unfolding report set_last_error write_last_error ◌>>=◌
  report-SameWork e h = elim (Bool-cases h.held) [
    | inl held ↦ rw held (refl, refl)
    | inr free ↦ elim (Bool-cases h.poisoned) [
      | inl poisoned ↦ rw (free, poisoned) (refl, refl)
      | inr sound ↦ rw (free, sound) (refl, refl)
    ]
  ]

  module _ (serde : Serde) (now : ℕ → ℕ) where
    printed-SameWork :
        (r : Ended (Result Str Value)) (h : KernelHandle)
        → SameWork h (proceed r (printed ext serde now) h).1
    printed-SameWork (returned (ok v)) h = (refl, refl)
    printed-SameWork (returned (err e)) h = report-SameWork e h
    printed-SameWork stuck h = (refl, refl)
    printed-SameWork aborted h = (refl, refl)

    refused-SameWork :
        (request : SubmitEventRequest) (h : KernelHandle) (e : Str)
        → validate_submit_request ext serde h.inner request ≡ err e
        → SameWork h (execute_submit_request ext serde now request h).1
    unfolding execute_submit_request under_lock submitted execute_validated on_inner Attempt.◌>>=◌
    refused-SameWork request h e refused = elim (Bool-cases h.held) [
      | inl held ↦ rw held (refl, refl)
      | inr free ↦ elim (Bool-cases h.poisoned) [
        | inl poisoned ↦ rw (free, poisoned) (refl, refl)
        | inr sound ↦ rw (free, sound, refused) (refl, refl)
      ]
    ]

    validated :
        (input_json : CStr) (text : Str) (request : SubmitEventRequest) (h : KernelHandle)
        → from_c_string serde.utf8_error input_json ≡ ok text
        → parse_submit_request ext serde text ≡ ok request
        → SameWork h ((execute_submit_request ext serde now request >>= printed ext serde now) h).1
          ⊎ Authorized ext serde input_json h.inner
    unfolding ◌>>=◌
    validated input_json text request h text_ok request_ok =
        elim (Result-cases (validate_submit_request ext serde h.inner request)) [
          | inl (v, accepted) ↦ inr (
            text,
            request,
            text_ok,
            request_ok,
            validate_submit_request-IsAuthorized ext serde h.inner request v accepted,
          )
          | inr (e, refused) ↦
              let (r, h') = execute_submit_request ext serde now request h in
              inl (
                SameWork-trans h h' (proceed r (printed ext serde now) h').1
                  (refused-SameWork request h e refused) (printed-SameWork r h'))
        ]

    parsed :
        (input_json : CStr) (text : Str) (h : KernelHandle)
        → from_c_string serde.utf8_error input_json ≡ ok text
        → (r : Result Str SubmitEventRequest) → parse_submit_request ext serde text ≡ r
        → SameWork h
            (or_report ext r
              (λ request. execute_submit_request ext serde now request >>= printed ext serde now)
              h).1
          ⊎ Authorized ext serde input_json h.inner
    parsed input_json text h text_ok (ok request) same =
        validated input_json text request h text_ok same
    parsed input_json text h text_ok (err e) same = inl (report-SameWork e h)

    read :
        (input_json : CStr) (h : KernelHandle) (r : Result Str Str)
        → from_c_string serde.utf8_error input_json ≡ r
        → SameWork h
            (or_report ext r
              (λ text.
                or_report ext
                  (parse_submit_request ext serde text)
                  λ request. execute_submit_request ext serde now request >>= printed ext serde now)
              h).1
          ⊎ Authorized ext serde input_json h.inner
    read input_json h (ok text) same = parsed input_json text h same _ refl
    read input_json h (err e) same = inl (report-SameWork e h)

    -- A submission leaves the engine and the ids as they are, whatever becomes of the call, unless
    -- it is a request in a known shape with an id that was not used, which is signed by its
    -- actor's key.
    pub kernel_submit_event-Authorized :
        (input_json : CStr) (h g : KernelHandle) (r : Ended Str)
        → kernel_submit_event ext serde now input_json (some h) ≡ (r, some g)
        → SameWork h g ⊎ Authorized ext serde input_json h.inner
    unfolding kernel_submit_event
    kernel_submit_event-Authorized input_json h g r ends =
        rw (some-inj (ap (λ p. p.1) ends)) (read input_json h _ refl)
      where
        some-inj : {a b : KernelHandle} → some a ≡ some b → b ≡ a
        some-inj same = cc same
