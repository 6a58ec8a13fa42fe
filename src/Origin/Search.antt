-- ===== src/Origin/Search.antt =====
-- The nonce search finds the least nonce that is accepted.
use v_kernelx.Base.{
  ℕ, zero, suc, ◌+◌, ◌≤◌, ◌<◌, ◌≡◌, true, false, none, some, arith, ◌==◌, Bool-cases, inl, inr,
}
use native.Mathlib.Decide.{dec_lt}
use v_kernelx.Base.Text.{Str}
use v_kernelx.External.{External}
use v_kernelx.Origin.{verify_origin, find_from, find_valid_nonce}

module _ (ext : External) (seed : Str) (difficulty : ℕ) where
  find_from-some :
      (start attempts n : ℕ)
      → find_from ext seed difficulty start attempts ≡ some n
      → (verify_origin ext seed n difficulty ≡ true)
        × (start ≤ n)
        × (n < start + attempts)
        × ((m : ℕ) → start ≤ m → m < n → verify_origin ext seed m difficulty ≡ false)
  unfolding find_from
  find_from-some start zero n h = absurd (cc)
  find_from-some start (suc attempts) n h =
      elim (Bool-cases (verify_origin ext seed start difficulty)) [
        | inl found ↦
            let at_start : start ≡ n = cc (rw found at h) in
            rw (← at_start) (found, omega arith, omega arith, λ m lo hi. absurd (omega arith))
        | inr missed ↦
            let (hit, lo, hi, before) = find_from-some (suc start) attempts n (rw missed at h) in
            (
              hit,
              omega arith,
              omega arith,
              λ m from below. elim (dec_lt start m) [
                | yes after ↦ before m (omega arith) below
                | no here ↦ let same : start ≡ m = omega arith in rw (← same) missed
              ],
            )
      ]

  find_from-none :
      (start attempts : ℕ)
      → find_from ext seed difficulty start attempts ≡ none
      → (m : ℕ) → start ≤ m
      → m < start + attempts
      → verify_origin ext seed m difficulty ≡ false
  unfolding find_from
  find_from-none start zero h m lo hi = absurd (omega arith)
  find_from-none start (suc attempts) h m lo hi =
      elim (Bool-cases (verify_origin ext seed start difficulty)) [
        | inl found ↦ absurd (cc (rw found at h))
        | inr missed ↦ elim (dec_lt start m) [
          | yes after ↦
              find_from-none (suc start) attempts (rw missed at h) m (omega arith) (omega arith)
          | no here ↦ let same : start ≡ m = omega arith in rw (← same) missed
        ]
      ]

  -- A nonce that the search returns is accepted, and no smaller nonce is.
  pub find_valid_nonce-least :
      (max_attempts n : ℕ)
      → find_valid_nonce ext seed difficulty max_attempts ≡ some n
      → (verify_origin ext seed n difficulty ≡ true)
        × ((m : ℕ) → m < n → verify_origin ext seed m difficulty ≡ false)
  unfolding find_valid_nonce
  find_valid_nonce-least max_attempts n h = elim (Bool-cases (difficulty == 0)) [
    | inl free ↦
        let first : n ≡ 0 = ground arith in
        rw first (unfold verify_origin in ground arith, λ m below. absurd (omega arith))
    | inr hard ↦
        let (hit, lo, hi, before) = find_from-some 0 max_attempts n (rw hard at h) in
        (hit, λ m below. before m (omega arith) below)
  ]

  -- When the search finds nothing, no nonce below the number of attempts is accepted.
  pub find_valid_nonce-none :
      (max_attempts : ℕ)
      → find_valid_nonce ext seed difficulty max_attempts ≡ none
      → (m : ℕ) → m < max_attempts
      → verify_origin ext seed m difficulty ≡ false
  unfolding find_valid_nonce
  find_valid_nonce-none max_attempts h m below = elim (Bool-cases (difficulty == 0)) [
    | inl free ↦ absurd (cc (rw free at h))
    | inr hard ↦ find_from-none 0 max_attempts (rw hard at h) m (omega arith) (omega arith)
  ]
