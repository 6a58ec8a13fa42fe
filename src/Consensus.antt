-- ===== src/Consensus.antt =====
-- src/consensus.rs
use v_kernelx.Base.{ℕ, Bool, true, false, not, ◌&&◌, leb, if◌then◌else◌}
use v_kernelx.Record.{VectorRecordV1}

pub record ConsensusPolicy : Type 0 where
  pub min_auth_ratio : ℕ
  pub require_certified : Bool

-- `ConsensusPolicy::default`
abbrev pub default_policy : ConsensusPolicy
default_policy = record { min_auth_ratio = 700; require_certified = true }

unfoldable pub accept_record : VectorRecordV1 → ConsensusPolicy → Bool
accept_record r policy =
    if policy.require_certified && not r.certification.certified
    then false
    else leb policy.min_auth_ratio r.certification.auth_ratio
