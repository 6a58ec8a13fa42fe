-- ===== src/Dag/Checks.antt =====
-- What the checks of `validate_dag` establish of the events.
use v_kernelx.Base.{
  ℕ, suc, ◌+◌, ◌≤◌, ◌≡◌, refl, sym, ap, ◌∙◌, false, Option, none, some, List, [], ◌∷◌, ◌++◌, arith,
  All, inl, inr, ◌⊎◌, Bool-cases, if◌then◌else◌, get_elem?,
}
use v_kernelx.Base.Sort.Counts.{occurrences, occurrences_self}
use v_kernelx.Base.Text.{Str, str, str_eq, str_eq_iff}
use v_kernelx.Base.Map.{Map, get, contains_key, insert, get-insert}
use v_kernelx.Dag.{
  Graph, index_events, event_index, event_at, found_parent, is_seen, add_edge, add_parents,
  add_edges, link_parents, link_events, validate_region_admissibility,
}
use v_kernelx.Dag.Building.{hashes, IsClosed}
use v_kernelx.Error.{Result, ok, ◌>>=◌, ◌>>◌, fail_if, bind-eq-ok}
use v_kernelx.Event.{VectorEvent}

-- 1 for a key, 0 for what is none.
abbrev pub present : Str → Map ℕ → ℕ
present h m = if contains_key h m then 1 else 0

present-insert :
    (h c : Str) (i : ℕ) (m : Map ℕ)
    → contains_key c m ≡ false
    → present h (insert c i m) ≡ present h m + (if str_eq c h then 1 else 0)
unfolding contains_key
present-insert h c i m fresh = ground (arith, get-insert c h i m, str_eq_iff c h, fresh)

-- An accepted event has a hash that is not in the index yet.
index_events-head :
    (i : ℕ) (index index' : Map ℕ) (e : VectorEvent) (events : List VectorEvent)
    → index_events i index (e ∷ events) ≡ ok index'
    → (contains_key e.event_hash index ≡ false)
      × (index_events (i + 1) (insert e.event_hash i index) events ≡ ok index')
unfolding index_events
index_events-head i index index' e events h = ground arith

module _ (h : Str) where
  -- The index has each hash that the events have, and each event has its own.
  index_events-present :
      (i : ℕ) (index index' : Map ℕ) (events : List VectorEvent)
      → index_events i index events ≡ ok index'
      → present h index' ≡ present h index + occurrences h (hashes events)
  unfolding index_events
  index_events-present i index index' [] done =
      let same : index ≡ index' = cc (done) in rw same (omega arith)
  index_events-present i index index' (e ∷ events) done =
      let (fresh, rest) = index_events-head i index index' e events done in
      ground (
        arith,
        index_events-present (i + 1) (insert e.event_hash i index) index' events rest,
        present-insert h e.event_hash i index fresh,
      )

  -- The index leads to the event with that hash.
  index_events-leads :
      (i j : ℕ) (index index' : Map ℕ) (events : List VectorEvent)
      → index_events i index events ≡ ok index'
      → get h index' ≡ some j
      → (get h index ≡ some j)
        ⊎ ((k : ℕ) × (e : VectorEvent) × (j ≡ i + k)
            × (get_elem? events k ≡ some e)
            × (e.event_hash ≡ h))
  unfolding index_events
  index_events-leads i j index index' [] done found =
      let same : index ≡ index' = cc (done) in inl (rw same found)
  index_events-leads i j index index' (e ∷ events) done found =
      let (fresh, rest) = index_events-head i index index' e events done in
      elim (index_events-leads (i + 1) j (insert e.event_hash i index) index' events rest found) [
        | inr (k, later, at, is, hash) ↦ inr (suc k, later, omega (arith, at), is, hash)
        | inl grown ↦ elim (Bool-cases (str_eq e.event_hash h)) [
          | inl same ↦
              let at : i ≡ j = ground (arith, get-insert e.event_hash h i index, grown, same) in
              inr (0, e, omega (arith, at), refl, (str_eq_iff e.event_hash h).0 same)
          | inr apart ↦ inl (ground (arith, get-insert e.event_hash h i index, grown, apart))
        ]
      ]

-- An event has the parent with the given hash among the events, in its own region.
abbrev pub HasParent : List VectorEvent → VectorEvent → Str → Type 0
HasParent events e p =
    (k : ℕ) × (parent : VectorEvent) × (get_elem? events k ≡ some parent)
    × (parent.event_hash ≡ p)
    × (parent.region_id ≡ e.region_id)

-- A loop over the parents that goes through has met parents, and has linked them.
module _ (index : Map ℕ) (all : List VectorEvent) where
  abbrev Met : VectorEvent → Str → Type 0
  Met e p =
      (parent : VectorEvent) × (event_at all (get p index) ≡ some parent)
      × (parent.region_id ≡ e.region_id)

  admitted :
      (parent e : VectorEvent)
      → validate_region_admissibility parent e ≡ ok tt
      → parent.region_id ≡ e.region_id
  unfolding validate_region_admissibility
  admitted parent e h = ground (arith, str_eq_iff parent.region_id e.region_id)

  add_parents-link :
      (e : VectorEvent) (seen parents : List Str) (g g' : Graph)
      → add_parents index all e seen parents g ≡ ok g'
      → (g' ≡ link_parents e.event_hash parents g) × All (Met e) parents
  unfolding add_parents link_parents
  add_parents-link e seen [] g g' h = (sym (cc (h)), tt)
  add_parents-link e seen (p ∷ parents) g g' h =
      let rest : Result Str Graph =
        add_parents index all e (p ∷ seen) parents (add_edge p e.event_hash g) in
      let checked : VectorEvent → Result Str Graph =
        λ parent. validate_region_admissibility parent e >> rest in
      let there = found_parent p (event_at all (get p index)) in
      let (_, _, h1) =
        bind-eq-ok
          (fail_if (is_seen p seen) (str "duplicate parent hash in event: " ++ e.event_hash))
          (λ _. there >>= checked) g' h in
      let (parent, found, h2) = bind-eq-ok there checked g' h1 in
      let (_, near, h3) = bind-eq-ok (validate_region_admissibility parent e) (λ _. rest) g' h2 in
      let (linked, met) = add_parents-link e (p ∷ seen) parents (add_edge p e.event_hash g) g' h3 in
      (linked, ((parent, is_found (event_at all (get p index)) found, admitted parent e near), met))
    where
      is_found :
          {parent : VectorEvent} (o : Option VectorEvent)
          → found_parent p o ≡ ok parent
          → o ≡ some parent
      is_found none g = absurd (cc (g))
      is_found (some x) g = cc (g)

  -- The loop over the events, when it goes through.
  add_edges-link :
      (events : List VectorEvent) (g g' : Graph)
      → add_edges index all events g ≡ ok g'
      → (g' ≡ link_events events g) × All (λ e. All (Met e) e.parent_hashes) events
  unfolding add_edges link_events
  add_edges-link [] g g' h = (sym (cc (h)), tt)
  add_edges-link (e ∷ events) g g' h =
      let (next, one, rest) =
        bind-eq-ok (add_parents index all e [] e.parent_hashes g)
          (λ g. add_edges index all events g) g' h in
      let (linked, met) = add_parents-link e [] e.parent_hashes g next one in
      let (linked', met') = add_edges-link events next g' rest in
      (linked' ∙ ap (link_events events) linked, (met, met'))

-- The events that pass have an index and a graph, each parent among them, and no hash twice.
pub record IsChecked (events : List VectorEvent) (index : Map ℕ) : Type 0 where
  pub apart : (h : Str) → occurrences h (hashes events) ≤ 1
  pub closed : IsClosed (hashes events) events
  pub parents : All (λ e. All (HasParent events e) e.parent_hashes) events

All-map :
    {A : Type 0} {P Q : A → Type 0} (xs : List A) → ((a : A) → P a → Q a) → All P xs → All Q xs
All-map [] f h = tt
All-map (x ∷ xs) f h = (f x h.0, All-map xs f h.1)

pub All-zip :
    {A : Type 0} {P Q R : A → Type 0} (xs : List A)
    → ((a : A) → P a → Q a → R a)
    → All P xs
    → All Q xs
    → All R xs
All-zip [] f h k = tt
All-zip (x ∷ xs) f h k = (f x h.0 k.0, All-zip xs f h.1 k.1)

All-later :
    (e : VectorEvent) (events others : List VectorEvent)
    → All (λ f. 1 ≤ occurrences f.event_hash (hashes others)) events
    → All (λ f. 1 ≤ occurrences f.event_hash (hashes (e ∷ others))) events
All-later e events others h = All-map events (λ f there. ground (arith, there)) h

-- Each event's hash is one of the hashes.
pub own_hash :
    (events : List VectorEvent) → All (λ e. 1 ≤ occurrences e.event_hash (hashes events)) events
own_hash [] = tt
own_hash (e ∷ events) = (
  omega (arith, occurrences_self e.event_hash (hashes events)),
  All-later e events events (own_hash events),
)

module _ (events : List VectorEvent) (index : Map ℕ) (indexed : event_index events ≡ ok index) where
  present-hashes : (h : Str) → present h index ≡ occurrences h (hashes events)
  unfolding event_index get contains_key
  present-hashes h = omega (arith, index_events-present h 0 [] index events indexed)

  Met-once : (e : VectorEvent) (p : Str) → Met index events e p → occurrences p (hashes events) ≡ 1
  unfolding contains_key
  Met-once e p (parent, at, near) = ground (arith, present-hashes p, at)

  Met-HasParent : (e : VectorEvent) (p : Str) → Met index events e p → HasParent events e p
  unfolding event_index get
  Met-HasParent e p (parent, at, near) = by_index (get p index) refl at
    where
      by_index :
          (o : Option ℕ) → get p index ≡ o → event_at events o ≡ some parent → HasParent events e p
      by_index none found is = absurd (cc (is))
      by_index (some j) found is = elim (index_events-leads p 0 j [] index events indexed found) [
        | inl before ↦ absurd (cc (before))
        | inr (k, other, same, at_k, hash) ↦
            let place : j ≡ k = omega (arith, same) in
            let one : other ≡ parent = cc (place, at_k, is) in
            (j, parent, is, rw (sym one) hash, near)
      ]

  pub add_edges-IsChecked :
      (g g' : Graph)
      → add_edges index events events g ≡ ok g'
      → (g' ≡ link_events events g) × IsChecked events index
  add_edges-IsChecked g g' h =
      let (linked, met) = add_edges-link index events events g g' h in
      (
        linked,
        record {
          apart = λ h. ground (arith, present-hashes h);
          closed =
              All-zip events (λ e own ms. (own, All-map e.parent_hashes (Met-once e) ms))
                (own_hash events) met;
          parents = All-map events (λ e ms. All-map e.parent_hashes (Met-HasParent e) ms) met;
        },
      )
