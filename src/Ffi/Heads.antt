-- ===== src/Ffi/Heads.antt =====
-- src/ffi.rs: the heads of a history, and the events that an operation has added.
pub mod Sets
pub mod Dedup
use v_kernelx.Base.{
  ◌≡◌, ◌↔◌, refl, sym, ◌∙◌, ap, Bool, true, false, ◌||◌, arith, suc, ◌≤◌, Bool-cases, inl, inr,
  List, [], ◌∷◌, All, Ordering, is_le, if◌then◌else◌, IsComparator, compare-IsComparator,
  by_key-IsComparator, then_with-IsComparator,
}
use v_kernelx.Base.Sort.{IsSorted, insert_sorted, sort_by, sort_by-IsSorted}
use v_kernelx.Base.Sort.Counts.{occurrences, occurrences-sort_by}
use v_kernelx.Base.Text.{Str, str_eq, str_eq_iff, str_cmp, str_cmp-IsComparator, str_cmp-IsExact}
use v_kernelx.Base.Map.{Map, get, contains_key, insert, get-insert}
use v_kernelx.Dag.Building.{hashes}
use v_kernelx.Event.{VectorEvent}
use v_kernelx.Storage.{event_order}
use v_kernelx.Ffi.Events.{
  insert_all, referenced_as_parent, not_in, dedup_from, dedup, compute_heads, hash_set, sort_events,
  collect_new_events,
}
use Sets.{
  stands, stands-occurrences, is_parent, contains-referenced_as_parent, contains-hash_set,
  occurrences-not_in,
}
use Dedup.{IsRising, dedup-IsRising, stands-dedup}

-- No event names the hash as a parent.
is_parent-false :
    (h : Str) (events : List VectorEvent)
    → (is_parent h events ≡ false) ↔ All (λ e. occurrences h e.parent_hashes ≡ 0) events
is_parent-false h [] = (λ e. tt, λ all. refl)
is_parent-false h (e ∷ events) =
    let ih = is_parent-false h events in
    let own = stands-occurrences h e.parent_hashes in
    elim (Bool-cases (stands h e.parent_hashes)) [
      | inl there ↦ (
        λ none_names. absurd (cc (rw there at none_names)),
        λ all. absurd (omega (arith, own.0 there, all.0)),
      )
      | inr free ↦ (
        λ none_names. (ground (arith, own), ih.0 (rw free at none_names)),
        λ all. rw free (ih.1 (all.1)),
      )
    ]

or_false : (b : Bool) → (b || false) ≡ b
or_false true = refl
or_false false = refl

heads_of : List VectorEvent → List Str
heads_of events = dedup (sort_by str_cmp (hashes (not_in (referenced_as_parent events []) events)))

compute_heads-heads_of : (events : List VectorEvent) → compute_heads events ≡ heads_of events
unfolding compute_heads heads_of not_in referenced_as_parent sort_by dedup
compute_heads-heads_of [] = refl
compute_heads-heads_of (e ∷ events) = refl

-- The list before `dedup`.
sorted_heads : List VectorEvent → List Str
sorted_heads events = sort_by str_cmp (hashes (not_in (referenced_as_parent events []) events))

occurrences-sorted :
    (h : Str) (events : List VectorEvent)
    → occurrences h (sorted_heads events)
      ≡ (if is_parent h events then 0 else occurrences h (hashes events))
unfolding sorted_heads get contains_key
occurrences-sorted h events =
    occurrences-sort_by str_cmp h (hashes (not_in (referenced_as_parent events []) events))
    ∙ occurrences-not_in h (referenced_as_parent events []) events
    ∙ ap (λ b. if b then 0 else occurrences h (hashes events))
        (contains-referenced_as_parent h events [] ∙ or_false (is_parent h events))

compute_heads-sorted :
    (h : Str) (events : List VectorEvent)
    → (1 ≤ occurrences h (compute_heads events)) ↔ (1 ≤ occurrences h (sorted_heads events))
unfolding heads_of sorted_heads
compute_heads-sorted h events =
    let there = stands-occurrences h (heads_of events) in
    let before = stands-occurrences h (sorted_heads events) in
    let same =
      ap (stands h) (compute_heads-heads_of events) ∙ stands-dedup h (sorted_heads events) in
    let own = stands-occurrences h (compute_heads events) in
    (λ k. before.0 (sym same ∙ own.1 k), λ k. own.0 (same ∙ before.1 k))

heads_iff :
    (h : Str) (events : List VectorEvent)
    → (1 ≤ occurrences h (compute_heads events))
      ↔ ((1 ≤ occurrences h (hashes events)) × All (λ e. occurrences h e.parent_hashes ≡ 0) events)
heads_iff h events =
    let sorted = occurrences-sorted h events in
    let (to, from) = compute_heads-sorted h events in
    let none_names = is_parent-false h events in
    elim (Bool-cases (is_parent h events)) [
      | inl parent ↦ (
        λ k. absurd (omega (arith, to k, rw parent at sorted)),
        λ k. absurd (cc (none_names.1 (k.1), parent)),
      )
      | inr no_parent ↦ (
        λ k. (omega (arith, to k, rw no_parent at sorted), none_names.0 no_parent),
        λ k. from (omega (arith, k.0, rw no_parent at sorted)),
      )
    ]

-- The heads rise strictly, so that none stands twice, and they are the hashes of the events that
-- no event names as a parent.
pub compute_heads-heads :
    (events : List VectorEvent)
    → IsRising (compute_heads events)
      × ((h : Str)
          → (1 ≤ occurrences h (compute_heads events)) ↔ (
              (1 ≤ occurrences h (hashes events))
              × All (λ e. occurrences h e.parent_hashes ≡ 0) events))
unfolding heads_of
compute_heads-heads events = (
  rw (compute_heads-heads_of events) (dedup-IsRising _ (sort_by-IsSorted str_cmp-IsComparator _)),
  λ h. heads_iff h events,
)

event_order-IsComparator : IsComparator event_order
event_order-IsComparator =
    then_with-IsComparator
      (then_with-IsComparator
        (then_with-IsComparator
          (by_key-IsComparator compare-IsComparator (λ (e : VectorEvent). e.logical_clock))
          (by_key-IsComparator compare-IsComparator (λ (e : VectorEvent). e.timestamp)))
        (by_key-IsComparator str_cmp-IsComparator (λ (e : VectorEvent). e.event_hash)))
      (by_key-IsComparator str_cmp-IsComparator (λ (e : VectorEvent). e.event_id))

occurrences-insert_sorted :
    (h : Str) (e : VectorEvent) (events : List VectorEvent)
    → occurrences h (hashes (insert_sorted event_order e events))
      ≡ occurrences h (hashes (e ∷ events))
unfolding insert_sorted
occurrences-insert_sorted h e [] = refl
occurrences-insert_sorted h e (f ∷ events) = elim (Bool-cases (is_le (event_order e f))) [
  | inl first ↦ rw first refl
  | inr later ↦ rw later (ground (arith, occurrences-insert_sorted h e events))
]

occurrences-hashes-sort_by :
    (h : Str) (events : List VectorEvent)
    → occurrences h (hashes (sort_by event_order events)) ≡ occurrences h (hashes events)
unfolding sort_by
occurrences-hashes-sort_by h [] = refl
occurrences-hashes-sort_by h (e ∷ events) = ground (
  arith,
  occurrences-insert_sorted h e (sort_by event_order events),
  occurrences-hashes-sort_by h events,
)

-- The events that are reported are those whose hash no earlier event had, each as often as it is
-- there afterwards, in the canonical order.
pub collect_new_events-new :
    (before after : List VectorEvent)
    → IsSorted event_order (collect_new_events before after)
      × ((h : Str)
          → occurrences h (hashes (collect_new_events before after))
            ≡ (if stands h (hashes before) then 0 else occurrences h (hashes after)))
unfolding collect_new_events sort_events get contains_key
collect_new_events-new before after = (
  sort_by-IsSorted event_order-IsComparator _,
  λ h.
      occurrences-hashes-sort_by h (not_in (hash_set before []) after)
      ∙ occurrences-not_in h (hash_set before []) after
      ∙ ap (λ b. if b then 0 else occurrences h (hashes after))
          (contains-hash_set h before [] ∙ or_false (stands h (hashes before))),
)
