-- ===== src/Certification/Bounds.antt =====
-- The range of the auth ratio, and when the engine's certification succeeds.
use v_kernelx.Base.{ℕ, ◌≤◌, ◌≡◌, ◌≢◌, ◌⊎◌, Bool, true, false, arith, is_nil}
use v_kernelx.State.{VectorStateV1, magnitude}
use v_kernelx.Certification.{compute_auth_ratio, certify_state}

-- The ratio is fixed point in 0..=1000, whatever the state.
pub compute_auth_ratio-le :
    (s : VectorStateV1) (owned structured : Bool) → compute_auth_ratio s owned structured ≤ 1000
unfolding compute_auth_ratio
compute_auth_ratio-le s owned structured = ground arith

-- A verified vector with a component gets 700 or 1000, by whether its magnitude is zero.
pub compute_auth_ratio-verified :
    (s : VectorStateV1)
    → is_nil s.components ≡ false
    → ((magnitude s ≡ 0) × (compute_auth_ratio s true true ≡ 700))
      ⊎ ((magnitude s ≢ 0) × (compute_auth_ratio s true true ≡ 1000))
unfolding compute_auth_ratio
compute_auth_ratio-verified s h = ground arith

-- At a threshold of 700 or less the engine's certification of a non-empty vector succeeds, with a
-- ratio from 700 to 1000.
pub certify_state-certified :
    (now : ℕ) (s : VectorStateV1)
    → is_nil s.components ≡ false
    → s.certification.threshold ≤ 700
    → ((certify_state now s true true).certified ≡ true)
      × (700 ≤ (certify_state now s true true).auth_ratio)
      × ((certify_state now s true true).auth_ratio ≤ 1000)
unfolding certify_state
certify_state-certified now s h low = ground (arith, compute_auth_ratio-verified s h)
