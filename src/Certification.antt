-- ===== src/Certification.antt =====
-- src/certification.rs. `now_ms` is what the clock returns in the call.

pub mod Bounds
use v_kernelx.Base.{ℕ, ◌+◌, Bool, none, some, ◌++◌, ◌==◌, leb, if◌then◌else◌, is_nil, min}
use v_kernelx.Base.Text.{Str, str, decimal}
use v_kernelx.External.{External}
use v_kernelx.State.{CertificationState, VectorStateV1, magnitude}

unfoldable pub compute_auth_ratio : VectorStateV1 → Bool → Bool → ℕ
compute_auth_ratio state ownership_verified structure_verified =
    let magnitude_score : ℕ = if magnitude state == 0 then 100 else 400 in
    let direction_score : ℕ = if is_nil state.components then 0 else 200 in
    let ownership_score : ℕ = if ownership_verified then 300 else 0 in
    let structure_score : ℕ = if structure_verified then 100 else 0 in
    min (magnitude_score + direction_score + ownership_score + structure_score) 1000

below_threshold : ℕ → ℕ → Str
below_threshold auth_ratio threshold =
    str "auth_ratio " ++ (decimal auth_ratio ++ (str " below threshold " ++ decimal threshold))

unfoldable pub certify_state : ℕ → VectorStateV1 → Bool → Bool → CertificationState
unfolding below_threshold
certify_state now_ms state ownership_verified structure_verified =
    let auth_ratio = compute_auth_ratio state ownership_verified structure_verified in
    let threshold = state.certification.threshold in
    record {
      certified = leb threshold auth_ratio;
      auth_ratio = auth_ratio;
      threshold = threshold;
      last_checked_at_ms = now_ms;
      reason =
          if leb threshold auth_ratio then none else some (below_threshold auth_ratio threshold);
    }

unfoldable pub is_certified : VectorStateV1 → Bool
is_certified state = state.certification.certified

-- The ratio divided by 1000, as the bits of an `f64`.
unfoldable pub compute_auth_ratio_unit : External → VectorStateV1 → Bool → Bool → ℕ
compute_auth_ratio_unit ext state ownership_verified structure_verified =
    ext.ratio_bits (compute_auth_ratio state ownership_verified structure_verified)
