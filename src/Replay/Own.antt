-- ===== src/Replay/Own.antt =====
-- src/replay.rs: the graph of an entity's history is the full graph of its events with the parents
-- outside that history left out.
use v_kernelx.Base.{
  ℕ, ◌+◌, ◌≤◌, ◌≡◌, refl, sym, ap, ◌∙◌, false, List, [], ◌∷◌, ◌++◌, arith, All, inl, inr,
  Bool-cases, if◌then◌else◌, map,
}
use v_kernelx.Base.Sort.Counts.{occurrences}
use v_kernelx.Base.Text.{Str, str, str_eq, str_eq_iff}
use v_kernelx.Base.Map.{Map, get, contains_key, insert, get-insert}
use v_kernelx.Dag.{Graph, add_nodes, add_edge, is_seen, link_parents, link_events}
use v_kernelx.Dag.Building.{hashes, IsClosed}
use v_kernelx.Dag.Checks.{own_hash}
use v_kernelx.Error.{ok, fail_if, bind-eq-ok}
use v_kernelx.Event.{VectorEvent}
use v_kernelx.Replay.Entity.{index_by_hash, add_own_parents, add_own_edges}

-- The parents that the map has.
abbrev pub own : Map VectorEvent → List Str → List Str
own m [] = []
own m (p ∷ ps) = let rest = own m ps in if contains_key p m then p ∷ rest else rest

abbrev pub restricted : Map VectorEvent → VectorEvent → VectorEvent
restricted m e = record e { parent_hashes = own m e.parent_hashes }

pub hashes-restricted :
    (m : Map VectorEvent) (events : List VectorEvent)
    → hashes (map (restricted m) events) ≡ hashes events
hashes-restricted m [] = refl
hashes-restricted m (e ∷ events) = ap (λ hs. e.event_hash ∷ hs) (hashes-restricted m events)

pub add_nodes-restricted :
    (m : Map VectorEvent) (events : List VectorEvent) (g : Graph)
    → add_nodes g (map (restricted m) events) ≡ add_nodes g events
unfolding add_nodes
add_nodes-restricted m [] g = refl
add_nodes-restricted m (e ∷ events) g = add_nodes-restricted m events _

module _ (m : Map VectorEvent) where
  add_own_parents-link :
      (e : VectorEvent) (seen parents : List Str) (g g' : Graph)
      → add_own_parents m e seen parents g ≡ ok g'
      → g' ≡ link_parents e.event_hash (own m parents) g
  unfolding add_own_parents link_parents
  add_own_parents-link e seen [] g g' h = sym (cc (h))
  add_own_parents-link e seen (p ∷ parents) g g' h =
      let edged = if contains_key p m then add_edge p e.event_hash g else g in
      let (_, _, rest) =
        bind-eq-ok
          (fail_if (is_seen p seen) (str "duplicate parent hash in event: " ++ e.event_hash))
          (λ _. add_own_parents m e (p ∷ seen) parents edged) g' h in
      let later = add_own_parents-link e (p ∷ seen) parents edged g' rest in
      elim (Bool-cases (contains_key p m)) [
        | inl inside ↦ rw inside (rw inside at later)
        | inr outside ↦ rw outside (rw outside at later)
      ]

  pub add_own_edges-link :
      (events : List VectorEvent) (g g' : Graph)
      → add_own_edges m events g ≡ ok g'
      → g' ≡ link_events (map (restricted m) events) g
  unfolding add_own_edges link_events
  add_own_edges-link [] g g' h = sym (cc (h))
  add_own_edges-link (e ∷ events) g g' h =
      let (next, one, rest) =
        bind-eq-ok (add_own_parents m e [] e.parent_hashes g) (λ j. add_own_edges m events j) g'
          h in
      add_own_edges-link events next g' rest
      ∙ ap (link_events (map (restricted m) events))
          (add_own_parents-link e [] e.parent_hashes g next one)

-- 1 for a key, 0 for what is none.
abbrev present : Str → Map VectorEvent → ℕ
present h m = if contains_key h m then 1 else 0

present-insert :
    (h c : Str) (e : VectorEvent) (m : Map VectorEvent)
    → contains_key c m ≡ false
    → present h (insert c e m) ≡ present h m + (if str_eq c h then 1 else 0)
unfolding contains_key
present-insert h c e m fresh = ground (arith, get-insert c h e m, str_eq_iff c h, fresh)

index_by_hash-present :
    (h : Str) (m m' : Map VectorEvent) (events : List VectorEvent)
    → index_by_hash m events ≡ ok m'
    → present h m' ≡ present h m + occurrences h (hashes events)
unfolding index_by_hash
index_by_hash-present h m m' [] done = let same : m ≡ m' = cc (done) in rw same (omega arith)
index_by_hash-present h m m' (e ∷ events) done =
    let (fresh, rest) = head in
    ground (
      arith,
      index_by_hash-present h (insert e.event_hash e m) m' events rest,
      present-insert h e.event_hash e m fresh,
    )
  where
    head :
        (contains_key e.event_hash m ≡ false)
        × (index_by_hash (insert e.event_hash e m) events ≡ ok m')
    head = ground arith

-- With the other parents left out the entity's history is closed.
pub restricted-IsClosed :
    (m : Map VectorEvent) (events : List VectorEvent)
    → index_by_hash [] events ≡ ok m
    → IsClosed (hashes (map (restricted m) events)) (map (restricted m) events)
unfolding contains_key get
restricted-IsClosed m events indexed = rw (hashes-restricted m events) (
    closed events (hashes events) (λ h. omega (arith, index_by_hash-present h [] m events indexed))
      (own_hash events))
  where
    own-once :
        (hs ps : List Str)
        → ((h : Str) → present h m ≡ occurrences h hs)
        → All (λ p. occurrences p hs ≡ 1) (own m ps)
    own-once hs [] counts = tt
    own-once hs (p ∷ ps) counts = elim (Bool-cases (contains_key p m)) [
      | inl inside ↦ rw inside (sym (counts p) ∙ (rw inside refl), own-once hs ps counts)
      | inr outside ↦ rw outside (own-once hs ps counts)
    ]

    closed :
        (es : List VectorEvent) (hs : List Str)
        → ((h : Str) → present h m ≡ occurrences h hs)
        → All (λ e. 1 ≤ occurrences e.event_hash hs) es
        → IsClosed hs (map (restricted m) es)
    closed [] hs counts own_hashes = tt
    closed (e ∷ es) hs counts own_hashes =
        ((own_hashes.0, own-once hs e.parent_hashes counts), closed es hs counts own_hashes.1)
