-- ===== src/Region/Access.antt =====
-- Who gets into a region that was created for a request.
use v_kernelx.Base.{
  ℕ, ◌≤◌, ◌≡◌, ◌⊎◌, refl, sym, ap, Bool, true, Option, none, some, inl, inr, u64_max, Bool-cases,
}
use v_kernelx.Base.Text.{Str, str_eq, str_eq_iff}
use v_kernelx.Base.Map.{IsOrdered}
use v_kernelx.Error.{ok}
use v_kernelx.Event.{VectorEvent}
use v_kernelx.External.{External, HashesAreText, Collides}
use v_kernelx.Region.Genesis.{map_some, hash_hex, build_region_genesis_event}
use v_kernelx.Region.Reading.{region_state_from_event, opens, authorize_region_access}
use v_kernelx.Region.Request.{validate_access}
use v_kernelx.Region.RoundTrip.{requested, build-region_state_from_event}
use v_kernelx.Region.Types.{RegionVisibility, RegionCreateRequest, RegionState}

module _ (ext : External) where
  -- The stored digest of a key opens for what has that digest.
  opens-eq-true :
      (key : Option Str) (given : Str)
      → opens ext (map_some (hash_hex ext) key) (some given) ≡ true
      → (key ≡ some given) ⊎ ((own : Str) × (key ≡ some own) × Collides ext own given)
  unfolding opens
  opens-eq-true none given h = absurd (cc (h))
  opens-eq-true (some own) given h = elim (Bool-cases (str_eq own given)) [
    | inl same ↦ inl (ap some ((str_eq_iff own given).0 same))
    | inr apart ↦ inr (
      own,
      refl,
      (
        λ e. absurd (cc ((str_eq_iff own given).1 e, apart)),
        sym ((str_eq_iff (hash_hex ext given) (hash_hex ext own)).0 h),
      ),
    )
  ]

  opens_own : (own : Str) → opens ext (some (hash_hex ext own)) (some own) ≡ true
  unfolding opens
  opens_own own = (str_eq_iff (hash_hex ext own) (hash_hex ext own)).1 refl

  module _ (request : RegionCreateRequest) (creator : Str) (clock time sequence : ℕ)
      (e : VectorEvent) (r : RegionState) where
    -- The region that is created for a request with a valid choice of key opens for that key, and
    -- without one if it is public, if digests are not blank, the section is within u64 and the
    -- metadata is a map.
    pub request_key_opens :
        HashesAreText ext
        → request.section ≤ u64_max
        → IsOrdered request.metadata
        → build_region_genesis_event ext request creator clock time sequence ≡ ok e
        → region_state_from_event e ≡ ok r
        → validate_access request.visibility request.access_key ≡ ok tt
        → authorize_region_access ext r request.access_key ≡ true
    unfolding authorize_region_access
    request_key_opens text small ordered built read valid =
        let region : r ≡ requested ext request creator e = cc (
          build-region_state_from_event ext request creator clock time sequence e text small ordered
              built,
          read,
        ) in
        rw region (by_visibility request.visibility request.access_key valid)
      where
        by_visibility :
            (v : RegionVisibility) (key : Option Str)
            → validate_access v key ≡ ok tt
            → elim v as (λ _. Bool) [
              | RegionVisibility.public ↦ true
              | RegionVisibility.private ↦ opens ext (map_some (hash_hex ext) key) key
            ]
              ≡ true
        by_visibility RegionVisibility.public key h = refl
        by_visibility RegionVisibility.private none h = absurd (cc (h))
        by_visibility RegionVisibility.private (some own) h = opens_own own

    -- A key opens a private region that was created for a request only if it is the key of that
    -- request or collides with it under BLAKE3, if digests are not blank, the section is within
    -- u64 and the metadata is a map.
    pub other_key-Collides :
        (given : Str)
        → HashesAreText ext
        → request.section ≤ u64_max
        → IsOrdered request.metadata
        → build_region_genesis_event ext request creator clock time sequence ≡ ok e
        → region_state_from_event e ≡ ok r
        → request.visibility ≡ RegionVisibility.private
        → authorize_region_access ext r (some given) ≡ true
        → (request.access_key ≡ some given)
          ⊎ ((own : Str) × (request.access_key ≡ some own) × Collides ext own given)
    unfolding authorize_region_access
    other_key-Collides given text small ordered built read private opened =
        let region : r ≡ requested ext request creator e = cc (
          build-region_state_from_event ext request creator clock time sequence e text small ordered
              built,
          read,
        ) in
        opens-eq-true request.access_key given (rw (region, private) at opened)
