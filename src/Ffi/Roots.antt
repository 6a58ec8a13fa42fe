-- ===== src/Ffi/Roots.antt =====
-- src/ffi.rs: `kernel_verify_record` looks at one event only, so it refuses all that have a parent.
use v_kernelx.Base.{
  ◌≡◌, ◌≢◌, refl, sym, ap, false, some, arith, zero, suc, ◌≤◌, Bool-cases, inl, inr, List, [], ◌∷◌,
  ◌++◌, All,
}
use v_kernelx.Base.Sort.Counts.{occurrences, occurrences_self, occurrences-append}
use v_kernelx.Base.Text.{Str, str, str_eq, str_eq_iff}
use v_kernelx.Dag.Checks.{HasParent}
use v_kernelx.Dag.Validity.{IsHistory, validate_dag-IsHistory}
use v_kernelx.Error.{ok}
use v_kernelx.Event.{VectorEvent}
use v_kernelx.External.{External}
use v_kernelx.Ffi.Handle.{KernelHandle, CStr, from_c_string, returned, err_json}
use v_kernelx.Ffi.Reading.{kernel_verify_record, parse_record}
use v_kernelx.Ffi.Requests.{Serde}
use v_kernelx.Ffi.Verdict.{with_last_error, kernel_verify_record-decides}

-- What stands in a list splits it.
split_at :
    (h : Str) (nodes : List Str)
    → 1 ≤ occurrences h nodes
    → (before : List Str) × (after : List Str) × (nodes ≡ before ++ (h ∷ after))
split_at h [] there = absurd (omega (arith, there))
split_at h (x ∷ nodes) there = elim (Bool-cases (str_eq x h)) [
  | inl same ↦ ([], nodes, ap (λ y. y ∷ nodes) ((str_eq_iff x h).0 same))
  | inr apart ↦
      let (before, after, split) = split_at h nodes (rw apart at there) in
      (x ∷ before, after, ap (λ ys. x ∷ ys) split)
]

-- A parent within a history of one event is the event.
own_parent : (e : VectorEvent) (p : Str) → HasParent (e ∷ []) e p → e.event_hash ≡ p
own_parent e p (zero, parent, at, same, _) = rw (some-inj at) same
  where
    some-inj : {a b : VectorEvent} → some a ≡ some b → a ≡ b
    some-inj same = cc same
own_parent e p (suc k, parent, at, same, _) = absurd (cc at)

All-head :
    (P : Str → Type 0) (xs : List Str) (p : Str) (ps : List Str) → xs ≡ p ∷ ps → All P xs → P p
All-head P [] p ps same all = absurd (cc same)
All-head P (x ∷ xs) p ps same all = rw (sym (heads same)) (all.0)
  where
    heads : x ∷ xs ≡ p ∷ ps → x ≡ p
    heads same = cc same

-- A history of one event has no parents.
IsHistory-parent_hashes :
    (e : VectorEvent) (parents : List Str)
    → e.parent_hashes ≡ parents
    → IsHistory (e ∷ [])
    → parents ≡ []
IsHistory-parent_hashes e [] same h = refl
IsHistory-parent_hashes e (p ∷ ps) same h =
    let own =
      own_parent e p (All-head (HasParent (e ∷ []) e) e.parent_hashes p ps same (h.parents.0)) in
    let once = h.causal.whole e.event_hash in
    let self = occurrences_self e.event_hash [] in
    let (before, after, split) = split_at e.event_hash h.order (omega (arith, once, self)) in
    let named : 1 ≤ occurrences p e.parent_hashes =
      rw same (omega (arith, occurrences_self p ps)) in
    let first = h.causal.parents_first.0 before after p split named in
    absurd (
      omega (
        arith,
        once,
        self,
        ap (occurrences e.event_hash) split,
        occurrences-append e.event_hash before (e.event_hash ∷ after),
        occurrences_self e.event_hash after,
        earlier before own first,
      ))
  where
    earlier :
        (before : List Str)
        → e.event_hash ≡ p
        → 1 ≤ occurrences p before
        → 1 ≤ occurrences e.event_hash before
    earlier before own first = rw own first

-- A record of an event that has a parent is refused through a free handle that is not poisoned,
-- even if its hashes and its signature are good: the history that is checked is the event alone,
-- in which the parent is missing.
pub kernel_verify_record-refuses_children :
    (ext : External) (serde : Serde) (input_json : CStr) (text : Str) (event : VectorEvent)
    (h : KernelHandle)
    → h.held ≡ false
    → h.poisoned ≡ false
    → from_c_string serde.utf8_error input_json ≡ ok text
    → parse_record ext serde text ≡ ok event
    → event.parent_hashes ≢ []
    → kernel_verify_record ext serde input_json (some h) ≡ (
      returned (err_json ext (str "record verification failed")),
      some (with_last_error (some (str "record verification failed")) h),
    )
kernel_verify_record-refuses_children ext serde input_json text event h free sound text_ok event_ok
      child =
    elim (kernel_verify_record-decides ext serde input_json text event h free sound text_ok
      event_ok) [
        | inl (genuine, _) ↦ absurd (
            child (
              IsHistory-parent_hashes event event.parent_hashes refl
                (validate_dag-IsHistory (event ∷ []) genuine.alone)))
        | inr (_, refused) ↦ refused
      ]
