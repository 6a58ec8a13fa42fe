-- ===== src/Ffi/Heads/Sets.antt =====
-- src/ffi.rs: the sets of hashes, and the filter by one.
use v_kernelx.Base.{
  ◌≡◌, ◌↔◌, refl, ◌∙◌, ap, Bool, true, false, ◌||◌, arith, suc, ◌≤◌, Bool-cases, inl, inr, List, [],
  ◌∷◌, if◌then◌else◌,
}
use v_kernelx.Base.Sort.Counts.{occurrences}
use v_kernelx.Base.Text.{Str, str_eq, str_eq_iff}
use v_kernelx.Base.Map.{Map, contains_key, insert, get-insert}
use v_kernelx.Dag.Building.{hashes}
use v_kernelx.Event.{VectorEvent}
use v_kernelx.Ffi.Events.{insert_all, referenced_as_parent, not_in, hash_set}

-- A text stands in a list.
abbrev pub stands : Str → List Str → Bool
stands h [] = false
stands h (x ∷ xs) = str_eq x h || stands h xs

pub stands-occurrences : (h : Str) (xs : List Str) → (stands h xs ≡ true) ↔ (1 ≤ occurrences h xs)
stands-occurrences h [] = ground arith
stands-occurrences h (x ∷ xs) = ground (arith, stands-occurrences h xs)

module _ (h : Str) where
  contains-insert :
      (k : Str) (seen : Map (Unit {0}))
      → contains_key h (insert k tt seen) ≡ (str_eq k h || contains_key h seen)
  unfolding contains_key
  contains-insert k seen = ground (arith, get-insert k h tt seen)

  contains-insert_all :
      (hs : List Str) (seen : Map (Unit {0}))
      → contains_key h (insert_all hs seen) ≡ (stands h hs || contains_key h seen)
  unfolding insert_all
  contains-insert_all [] seen = refl
  contains-insert_all (k ∷ hs) seen =
      ground (arith, contains-insert_all hs (insert k tt seen), contains-insert k seen)

  -- Some event names the hash as a parent.
  abbrev pub is_parent : List VectorEvent → Bool
  is_parent [] = false
  is_parent (e ∷ events) = stands h e.parent_hashes || is_parent events

  pub contains-referenced_as_parent :
      (events : List VectorEvent) (seen : Map (Unit {0}))
      → contains_key h (referenced_as_parent events seen)
        ≡ (is_parent events || contains_key h seen)
  unfolding referenced_as_parent
  contains-referenced_as_parent [] seen = refl
  contains-referenced_as_parent (e ∷ events) seen = ground (
    arith,
    contains-referenced_as_parent events (insert_all e.parent_hashes seen),
    contains-insert_all e.parent_hashes seen,
  )

  pub contains-hash_set :
      (events : List VectorEvent) (seen : Map (Unit {0}))
      → contains_key h (hash_set events seen) ≡ (stands h (hashes events) || contains_key h seen)
  unfolding hash_set
  contains-hash_set [] seen = refl
  contains-hash_set (e ∷ events) seen = ground (
    arith,
    contains-hash_set events (insert e.event_hash tt seen),
    contains-insert e.event_hash seen,
  )

  -- The filter leaves the hashes that are not in the set, each as often.
  pub occurrences-not_in :
      (seen : Map (Unit {0})) (events : List VectorEvent)
      → occurrences h (hashes (not_in seen events))
        ≡ (if contains_key h seen then 0 else occurrences h (hashes events))
  unfolding not_in
  occurrences-not_in seen [] = ground arith
  occurrences-not_in seen (e ∷ events) = elim (Bool-cases (str_eq e.event_hash h)) [
    | inl same ↦
        let moved : contains_key e.event_hash seen ≡ contains_key h seen =
          ap (λ k. contains_key k seen) ((str_eq_iff e.event_hash h).0 same) in
        elim (Bool-cases (contains_key h seen)) [
          | inl there ↦ rw (moved ∙ there, there) (occurrences-not_in seen events ∙ rw there refl)
          | inr free ↦
              rw (moved ∙ free, free, same) (ap suc (occurrences-not_in seen events ∙ rw free refl))
        ]
    | inr apart ↦ elim (Bool-cases (contains_key e.event_hash seen)) [
      | inl there ↦ rw (there, apart) (occurrences-not_in seen events)
      | inr free ↦ rw (free, apart) (occurrences-not_in seen events)
    ]
  ]
