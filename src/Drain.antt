-- ===== src/Drain.antt =====
-- src/drain.rs
pub mod Split
use v_kernelx.Base.{ℕ, ◌/◌, List, [], ◌∷◌, leb, ltb, if◌then◌else◌, saturating_mul, saturating_sub}
use v_kernelx.Base.Text.{str}
use v_kernelx.Error.{KernelXError, rejected, Result, ok, err}

unfoldable pub discounted : ℕ → ℕ → ℕ → ℕ
discounted basis_points auth_ratio threshold =
    if leb threshold auth_ratio then basis_points / 2 else basis_points

unfoldable pub fee_of : ℕ → ℕ → ℕ
fee_of discount amount = saturating_mul amount discount / 10000

-- The loop over `amounts`, with the two vectors that it pushes to.
unfoldable pub drain_each : ℕ → List ℕ → List ℕ × List ℕ
unfolding fee_of
drain_each discount [] = ([], [])
drain_each discount (amount ∷ amounts) =
    let fee = fee_of discount amount in
    let (drained, remaining) = drain_each discount amounts in
    (fee ∷ drained, saturating_sub amount fee ∷ remaining)

unfoldable pub apply_drain : List ℕ → ℕ → ℕ → ℕ → Result KernelXError (List ℕ × List ℕ)
unfolding discounted drain_each
apply_drain amounts basis_points auth_ratio threshold =
    if ltb 10000 basis_points
    then err (rejected (str "drain basis points must be <= 10000"))
    else ok (drain_each (discounted basis_points auth_ratio threshold) amounts)
