-- ===== src/Region/Core.antt =====
-- src/region.rs: `CoreState`, which registers the regions.
use v_kernelx.Base.{ℕ, ◌+◌, [], ◌∷◌, List, ltb, length, u64_max, if◌then◌else◌, ◌++◌}
use v_kernelx.Base.Text.{Str, str, decimal}
use v_kernelx.Base.Map.{Map, contains_key, insert}
use v_kernelx.Error.{KernelXError, invalid_state, Result, ok, err}
use v_kernelx.External.{External}
use v_kernelx.Region.Types.{RegionState, CoreState}

-- `unwrap_or_default()` of a text or an error
abbrev or_blank : Result Str Str → Str
or_blank (ok s) = s
or_blank (err e) = []

module _ (ext : External) where
  -- The printed regions, by id.
  printed_regions : Map Str → Map RegionState → Map Str
  printed_regions printed [] = printed
  printed_regions printed ((id, region) ∷ regions) =
      printed_regions (insert id (ext.region_json region) printed) regions

  unfoldable pub canonical_core_bytes : CoreState → List ℕ
  unfolding printed_regions
  canonical_core_bytes core = or_blank (
      ext.map_json (
        insert (str "regions") (or_blank (ext.map_json (printed_regions [] core.regions))) (
          insert (str "region_count") (decimal (length core.regions)) (
            insert (str "total_auth_ratio_bps") (decimal core.total_auth_ratio_bps)
              (insert (str "version") (decimal core.version) [])))))

  unfoldable pub canonical_core_root : CoreState → Str
  canonical_core_root core = ext.blake3_hex (canonical_core_bytes core)

  -- `core.core_root = canonical_core_root(&core)`
  abbrev pub rooted : CoreState → CoreState
  rooted core = record core { core_root = canonical_core_root core }

  -- `CoreState::new`
  unfoldable pub new_core : CoreState
  new_core = rooted (record { regions = []; total_auth_ratio_bps = 0; core_root = []; version = 0 })

  -- `insert_region`: the core comes back beside the result, since what was written before an
  -- error stays written.
  unfoldable pub insert_region :
      RegionState → CoreState → Result KernelXError (Unit {0}) × CoreState
  insert_region region core =
      let total = core.total_auth_ratio_bps + region.auth_ratio_bps in
      let grown : CoreState = record core {
        total_auth_ratio_bps = total;
        regions = insert region.region_id region core.regions;
      } in
      if contains_key region.region_id core.regions
      then (err (invalid_state (str "region already exists in core: " ++ region.region_id)), core)
      else if ltb u64_max total
      then (err (invalid_state (str "core auth ratio overflow")), core)
      else if ltb core.version u64_max
      then (ok tt, rooted (record grown { version = core.version + 1 }))
      else (err (invalid_state (str "core version overflow")), grown)
