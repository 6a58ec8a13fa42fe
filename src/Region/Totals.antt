-- ===== src/Region/Totals.antt =====
-- The core that is built from a history.
use v_kernelx.Base.{
  ℕ, ◌+◌, ◌≤◌, ◌≡◌, refl, sym, ap, Bool, true, false, some, List, [], ◌∷◌, arith, length, u64_max,
  ltb, inl, inr, Bool-cases,
}
use v_kernelx.Base.Text.{Str, str_eq_iff, str_cmp-IsExact}
use v_kernelx.Base.Map.{
  Map, get, contains_key, insert, IsOrdered, insert-IsOrdered, get-insert_cases,
}
use v_kernelx.Error.{KernelXError, Result, ok, err, ◌>>◌}
use v_kernelx.Event.{VectorEvent}
use v_kernelx.External.{External}
use v_kernelx.Region.{is_region_create_event}
use v_kernelx.Region.Core.{canonical_core_bytes, canonical_core_root, new_core, insert_region}
use v_kernelx.Region.Reading.{
  region_state_from_event, apply_region_event, apply_region_events, core_state_from_events,
}
use v_kernelx.Region.Types.{RegionState, CoreState}

-- The ratios of the regions, added up without a bound.
abbrev pub ratios : Map RegionState → ℕ
ratios [] = 0
ratios (e ∷ m) = e.1.auth_ratio_bps + ratios m

-- The totals of a core are those of its regions, each of which stands under its own id, and its
-- root is the hash of its bytes.
pub record IsSound (ext : External) (core : CoreState) : Type 0 where
  pub total : core.total_auth_ratio_bps ≡ ratios core.regions
  pub bounded : core.total_auth_ratio_bps ≤ u64_max
  pub counted : core.version ≡ length core.regions
  pub ordered : IsOrdered core.regions
  pub keyed : (id : Str) (r : RegionState) → get id core.regions ≡ some r → r.region_id ≡ id
  pub root : core.core_root ≡ canonical_core_root ext core

-- A new entry adds its ratio and one place.
insert_fresh :
    (k : Str) (v : RegionState) (m : Map RegionState)
    → contains_key k m ≡ false
    → (ratios (insert k v m) ≡ v.auth_ratio_bps + ratios m) × (length (insert k v m) ≡ length m + 1)
unfolding contains_key get insert
insert_fresh k v [] h = (refl, refl)
insert_fresh k v ((j, w) ∷ m) h =
    ground (arith, str_eq_iff j k, str_cmp-IsExact.exact k j, insert_fresh k v m)

module _ (ext : External) where
  new_core-IsSound : IsSound ext (new_core ext)
  unfolding new_core canonical_core_root canonical_core_bytes get
  new_core-IsSound = record {
    total = refl;
    bounded = omega arith;
    counted = refl;
    ordered = tt;
    keyed = λ id r found. absurd (cc (found));
    root = refl;
  }

  -- The core that a successful registration leaves.
  abbrev registered : RegionState → CoreState → CoreState
  registered region core = record core {
    total_auth_ratio_bps = core.total_auth_ratio_bps + region.auth_ratio_bps;
    regions = insert region.region_id region core.regions;
    version = core.version + 1;
    core_root = canonical_core_root ext (record core {
      total_auth_ratio_bps = core.total_auth_ratio_bps + region.auth_ratio_bps;
      regions = insert region.region_id region core.regions;
      version = core.version + 1;
    });
  }

  registered-IsSound :
      (region : RegionState) (core : CoreState)
      → IsSound ext core
      → contains_key region.region_id core.regions ≡ false
      → ltb u64_max (core.total_auth_ratio_bps + region.auth_ratio_bps) ≡ false
      → IsSound ext (registered region core)
  unfolding canonical_core_root canonical_core_bytes
  registered-IsSound region core s free small =
      let grows = insert_fresh region.region_id region core.regions free in
      record {
        total = omega (arith, s.total, grows.0);
        bounded = ground (arith, small);
        counted = omega (arith, s.counted, grows.1);
        ordered = insert-IsOrdered region.region_id region core.regions s.ordered;
        keyed = λ id r found.
            elim (get-insert_cases region.region_id id region r core.regions found) [
              | inl new ↦ cc (new.0, new.1)
              | inr old ↦ s.keyed id r old
            ];
        root = refl;
      }

  insert_region-IsSound :
      (region : RegionState) (core after : CoreState)
      → IsSound ext core
      → insert_region ext region core ≡ (ok tt, after)
      → IsSound ext after
  unfolding insert_region
  insert_region-IsSound region core after s h =
      elim (Bool-cases (contains_key region.region_id core.regions)) [
        | inl there ↦ absurd (cc (ap (λ p. p.0) (rw there at h)))
        | inr free ↦
            elim (Bool-cases (ltb u64_max (core.total_auth_ratio_bps + region.auth_ratio_bps))) [
              | inl large ↦ absurd (cc (ap (λ p. p.0) (rw (free, large) at h)))
              | inr small ↦ elim (Bool-cases (ltb core.version u64_max)) [
                | inr last ↦ absurd (cc (ap (λ p. p.0) (rw (free, small, last) at h)))
                | inl more ↦
                    let same : registered region core ≡ after =
                      ap (λ p. p.1) (rw (free, small, more) at h) in
                    rw (sym same) (registered-IsSound region core s free small)
              ]
            ]
      ]

  -- One event, whatever region it is read as.
  apply_region_event-IsSound :
      (event : VectorEvent) (core after : CoreState)
      → IsSound ext core
      → apply_region_event ext event core ≡ (ok tt, after)
      → IsSound ext after
  unfolding apply_region_event
  apply_region_event-IsSound event core after s = by_reading (region_state_from_event event)
    where
      by_reading :
          (read : Result KernelXError RegionState)
          → elim read as (λ _. Result KernelXError (Unit {0}) × CoreState) [
            | ok region ↦ insert_region ext region core
            | err e ↦ (err e, core)
          ]
            ≡ (ok tt, after)
          → IsSound ext after
      by_reading (ok region) h = insert_region-IsSound region core after s h
      by_reading (err e) h = absurd (cc (ap (λ p. p.0) h))

  -- One turn of the loop, when the turns behind it are known to be sound.
  turn-IsSound :
      (event : VectorEvent) (events : List VectorEvent) (core after : CoreState)
      → ((next : CoreState)
          → IsSound ext next
          → apply_region_events ext next events ≡ ok after
          → IsSound ext after)
      → IsSound ext core
      → (kind : Bool) (applied : Result KernelXError (Unit {0}) × CoreState)
      → apply_region_event ext event core ≡ applied
      → elim kind as (λ _. Result KernelXError CoreState) [
        | true ↦ applied.0 >> apply_region_events ext applied.1 events
        | false ↦ apply_region_events ext core events
      ]
        ≡ ok after
      → IsSound ext after
  turn-IsSound event events core after rest s false applied e g = rest core s g
  turn-IsSound event events core after rest s true (ok tt, next) e g =
      rest next (apply_region_event-IsSound event core next s e) g
  turn-IsSound event events core after rest s true (err x, next) e g = absurd (cc (g))

  apply_region_events-IsSound :
      (events : List VectorEvent) (core after : CoreState)
      → IsSound ext core
      → apply_region_events ext core events ≡ ok after
      → IsSound ext after
  unfolding apply_region_events
  apply_region_events-IsSound [] core after s h =
      let same : core ≡ after = cc (h) in rw (sym same) s
  apply_region_events-IsSound (event ∷ events) core after s h =
      turn-IsSound event events core after (λ next. apply_region_events-IsSound events next after) s
        (is_region_create_event event) (apply_region_event ext event core) refl h

  -- In the core that a history gives the total is the sum of the ratios of its regions and within
  -- u64, the version is their number, each region stands under its own id in an ordered map, and
  -- the root is that of the core's bytes.
  pub core_state_from_events-IsSound :
      (events : List VectorEvent) (core : CoreState)
      → core_state_from_events ext events ≡ ok core
      → IsSound ext core
  unfolding core_state_from_events
  core_state_from_events-IsSound events core h =
      apply_region_events-IsSound events (new_core ext) core new_core-IsSound h
