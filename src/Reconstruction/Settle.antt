-- ===== src/Reconstruction/Settle.antt =====
-- The settlement loop against a plain recursion: what is restored, what is settled, and when the
-- loop refuses.
use v_kernelx.Base.{
  ℕ, ◌+◌, ◌-◌, ◌≤◌, false, ◌≡◌, refl, ap, List, [], ◌∷◌, ◌++◌, append_assoc, arith, length, ltb,
  saturating_add, length-append, some, get_elem?, set, replicate, append-nil, Bool-cases, inl, inr,
}
use v_kernelx.Components.{add_all, Fits}
use v_kernelx.Error.{settlement_rejected, ok, err}
use v_kernelx.Base.Text.{str}
use v_kernelx.Reconstruction.{restore_at, settle_from}

-- What each projected component settles to.
abbrev pub nets : List ℕ → List ℕ → List ℕ → List ℕ
nets (p ∷ ps) (g ∷ gs) (l ∷ ls) = (saturating_add p g - l) ∷ nets ps gs ls
nets _ _ _ = []

-- No loss passes its principal with its gain.
abbrev pub Solvent : List ℕ → List ℕ → List ℕ → Type 0
Solvent (p ∷ ps) (g ∷ gs) (l ∷ ls) = (l ≤ saturating_add p g) × Solvent ps gs ls
Solvent _ _ _ = Unit

restore_at-append :
    (xs : List ℕ) (net y : ℕ) (ys : List ℕ)
    → restore_at (length xs) net (xs ++ (y ∷ ys)) ≡ xs ++ (saturating_add y net ∷ ys)
unfolding restore_at
restore_at-append xs net y ys = rw (at_end xs, restore_at) (rw (write_end xs))
  where
    at_end : (xs : List ℕ) → get_elem? (xs ++ (y ∷ ys)) (length xs) ≡ some y
    at_end [] = refl
    at_end (x ∷ xs) = at_end xs

    write_end :
        (xs : List ℕ)
        → set (xs ++ (y ∷ ys)) (length xs) (saturating_add y net)
          ≡ xs ++ (saturating_add y net ∷ ys)
    write_end [] = refl
    write_end (x ∷ xs) = ap (λ t. x ∷ t) (write_end xs)

length_snoc : (xs : List ℕ) (z : ℕ) → length (xs ++ (z ∷ [])) ≡ length xs + 1
length_snoc xs z = rw (length-append xs (z ∷ []))

abbrev Settled : List ℕ → List ℕ → List ℕ → List ℕ → List ℕ → List ℕ → Type 0
Settled xs ps gs ls ys settled =
    settle_from (length xs) ps gs ls (xs ++ ys) settled
    ≡ ok (xs ++ add_all ys (nets ps gs ls), settled ++ nets ps gs ls)

pub settle_from-Solvent :
    (xs ps gs ls ys settled : List ℕ)
    → length ps ≡ length ys
    → length gs ≡ length ys
    → length ls ≡ length ys
    → Solvent ps gs ls
    → Settled xs ps gs ls ys settled
unfolding settle_from
settle_from-Solvent xs [] [] [] [] settled hp hg hl solvent = rw (append-nil settled)
settle_from-Solvent xs (p ∷ ps) (g ∷ gs) (l ∷ ls) (y ∷ ys) settled hp hg hl solvent =
    let n = saturating_add p g - l in
    let z = saturating_add y n in
    let paid : ltb (saturating_add p g) l ≡ false = ground arith in
    let ih =
      settle_from-Solvent (xs ++ (z ∷ [])) ps gs ls ys (settled ++ (n ∷ [])) (omega arith)
        (omega arith) (omega arith) solvent.1 in
    rw paid (rw (restore_at-append xs n y ys) (simp (length_snoc xs z, append_assoc) at ih))
settle_from-Solvent xs _ _ _ _ settled hp hg hl solvent = absurd (omega arith)

-- The loop refuses as soon as some loss passes its principal with its gain.
pub settle_from-insolvent :
    (index : ℕ) (ps gs ls restored settled : List ℕ)
    → ¬ Solvent ps gs ls
    → settle_from index ps gs ls restored settled
      ≡ err (settlement_rejected (str "loss exceeds projected value"))
unfolding settle_from
settle_from-insolvent index (p ∷ ps) (g ∷ gs) (l ∷ ls) restored settled h =
    let n = saturating_add p g - l in
    elim (Bool-cases (ltb (saturating_add p g) l)) [
      | inl over ↦ rw over
      | inr paid ↦ rw paid (
          settle_from-insolvent (index + 1) ps gs ls (restore_at index n restored)
            (settled ++ (n ∷ [])) (λ s. h (ground arith, s)))
    ]
settle_from-insolvent index _ _ _ restored settled h = absurd (h tt)

-- With no gain and no loss every component settles to its principal.
pub nets-replicate_zero :
    (ps : List ℕ) → Fits ps → nets ps (replicate (length ps) 0) (replicate (length ps) 0) ≡ ps
nets-replicate_zero [] f = refl
nets-replicate_zero (p ∷ ps) f = ground (arith, nets-replicate_zero ps f.1)

pub Solvent-replicate_zero : (ps gs : List ℕ) → Solvent ps gs (replicate (length ps) 0)
Solvent-replicate_zero [] gs = tt
Solvent-replicate_zero (p ∷ ps) [] = tt
Solvent-replicate_zero (p ∷ ps) (g ∷ gs) = (omega arith, Solvent-replicate_zero ps gs)
