-- ===== src/Origin.antt =====
-- src/origin.rs
pub mod Search
use v_kernelx.Base.{
  ℕ, zero, suc, ◌+◌, Bool, true, Option, none, some, List, [], ◌∷◌, ◌++◌, ◌==◌, leb, not,
  if◌then◌else◌,
}
use v_kernelx.Base.Text.{Str}
use v_kernelx.Error.{KernelXError, origin_rejected, Result, ok, ◌>>=◌, ◌>>◌, fail_if}
use v_kernelx.External.{External}
use v_kernelx.Serialization.{to_be_bytes}
use v_kernelx.State.{VectorType, VectorStateV1, new}

-- `chars().take_while(|c| *c == '0').count()`; each such character is one byte.
unfoldable pub leading_zeros : Str → ℕ
leading_zeros [] = 0
leading_zeros (c ∷ cs) = let rest = leading_zeros cs in if c == b'0' then suc rest else 0

module _ (ext : External) where
  unfoldable pub origin_proof_hash : Str → ℕ → Str
  origin_proof_hash seed nonce = ext.blake3_hex (seed ++ to_be_bytes 8 nonce)

  unfoldable pub verify_origin : Str → ℕ → ℕ → Bool
  verify_origin seed nonce difficulty =
      leb difficulty (leading_zeros (origin_proof_hash seed nonce))

  -- `(nonce..nonce + attempts).find(..)`
  find_from : Str → ℕ → ℕ → ℕ → Option ℕ
  find_from seed difficulty nonce zero = none
  find_from seed difficulty nonce (suc attempts) =
      let rest = find_from seed difficulty (suc nonce) attempts in
      if verify_origin seed nonce difficulty then some nonce else rest

  unfoldable pub find_valid_nonce : Str → ℕ → ℕ → Option ℕ
  unfolding find_from
  find_valid_nonce seed difficulty max_attempts =
      if difficulty == 0 then some 0 else find_from seed difficulty 0 max_attempts

  -- The state of an accepted origin.
  unfoldable pub origin_vector : ℕ → Str → Str → Str → List ℕ → Str → ℕ → ℕ → VectorStateV1
  origin_vector now_ms vector_id owner_pubkey space_id components seed nonce difficulty =
      let state = new vector_id owner_pubkey space_id components VectorType.origin now_ms in
      record state {
        origin = some (record {
          seed = seed;
          nonce = nonce;
          difficulty = difficulty;
          proof_hash = origin_proof_hash seed nonce;
        });
        certification = record state.certification {
          certified = true;
          auth_ratio = 1000;
          reason = none;
        };
      }

  unfoldable pub create_origin_vector :
      ℕ → Str → Str → Str → List ℕ → Str → ℕ → ℕ → Result KernelXError VectorStateV1
  create_origin_vector now_ms vector_id owner_pubkey space_id components seed nonce difficulty = do
    fail_if (not (verify_origin seed nonce difficulty)) origin_rejected
    ok (origin_vector now_ms vector_id owner_pubkey space_id components seed nonce difficulty)
