-- ===== src/Components.antt =====
-- The component lists that the operations share: the test `a.zip(b).any(|(x, y)| x > y)` and the
-- unbounded sum of a list, by which conservation is stated.
use v_kernelx.Base.{
  ℕ, suc, ◌+◌, ◌≤◌, ◌≡◌, ◌↔◌, refl, ap, Bool, false, ◌||◌, List, [], ◌∷◌, arith, ltb, length, All,
  All2, zip_with, ◌⊎◌, inl, inr, Bool-cases, saturating_add, saturating_sub, u128_max,
}

-- Some place of `xs` is greater than the same place of `ys`.
unfoldable pub exceeds : List ℕ → List ℕ → Bool
exceeds [] ys = false
exceeds (x ∷ xs) [] = false
exceeds (x ∷ xs) (y ∷ ys) = ltb y x || exceeds xs ys

abbrev pub sub_all : List ℕ → List ℕ → List ℕ
sub_all = zip_with (λ c a. saturating_sub c a)

abbrev pub add_all : List ℕ → List ℕ → List ℕ
add_all = zip_with (λ c a. saturating_add c a)

-- The sum over the unbounded numbers.
abbrev pub total : List ℕ → ℕ
total [] = 0
total (x ∷ xs) = x + total xs

-- Every component fits `u128`.
abbrev pub Fits : List ℕ → Type 0
Fits = All (λ x. x ≤ u128_max)

-- No sum of two components passes the range of `u128`.
abbrev pub Room : List ℕ → List ℕ → Type 0
Room = All2 (λ x y. x + y ≤ u128_max)

abbrev pub Covers : List ℕ → List ℕ → Type 0
Covers = All2 (λ x y. x ≤ y)

pub exceeds-eq-false_iff :
    (xs ys : List ℕ) → length xs ≡ length ys → (exceeds xs ys ≡ false) ↔ Covers xs ys
unfolding exceeds
exceeds-eq-false_iff [] [] h = (λ _. tt, λ _. refl)
exceeds-eq-false_iff [] (y ∷ ys) h = absurd (omega arith)
exceeds-eq-false_iff (x ∷ xs) [] h = absurd (omega arith)
exceeds-eq-false_iff (x ∷ xs) (y ∷ ys) h =
    let ih = exceeds-eq-false_iff xs ys (omega arith) in
    (λ e. (ground arith, ih.0 (ground arith)), λ (p, q). ground (arith, ih.1 q))

pub length-eq_of_Covers : (xs ys : List ℕ) → Covers xs ys → length xs ≡ length ys
length-eq_of_Covers [] [] h = refl
length-eq_of_Covers [] (y ∷ ys) h = absurd h
length-eq_of_Covers (x ∷ xs) [] h = absurd h
length-eq_of_Covers (x ∷ xs) (y ∷ ys) h = ap suc (length-eq_of_Covers xs ys h.1)

-- What is taken from a covering list leaves the rest.
pub total-sub_all : (cs xs : List ℕ) → Covers xs cs → total (sub_all cs xs) + total xs ≡ total cs
total-sub_all [] [] h = refl
total-sub_all [] (x ∷ xs) h = absurd h
total-sub_all (c ∷ cs) [] h = absurd h
total-sub_all (c ∷ cs) (x ∷ xs) h = omega (arith, total-sub_all cs xs h.1, h.0)

pub total-add_all-le :
    (cs xs : List ℕ) → length cs ≡ length xs → total (add_all cs xs) ≤ total cs + total xs
total-add_all-le [] [] h = omega arith
total-add_all-le [] (x ∷ xs) h = absurd (omega arith)
total-add_all-le (c ∷ cs) [] h = absurd (omega arith)
total-add_all-le (c ∷ cs) (x ∷ xs) h = omega (arith, total-add_all-le cs xs (omega arith))

pub total-add_all : (cs xs : List ℕ) → Room cs xs → total (add_all cs xs) ≡ total cs + total xs
total-add_all [] [] h = refl
total-add_all [] (x ∷ xs) h = absurd h
total-add_all (c ∷ cs) [] h = absurd h
total-add_all (c ∷ cs) (x ∷ xs) h = omega (arith, total-add_all cs xs h.1, h.0)

-- Taking away and adding again gives back what was there.
pub add_all-sub_all : (cs xs : List ℕ) → Covers xs cs → Fits cs → add_all (sub_all cs xs) xs ≡ cs
add_all-sub_all [] [] h f = refl
add_all-sub_all [] (x ∷ xs) h f = absurd h
add_all-sub_all (c ∷ cs) [] h f = absurd h
add_all-sub_all (c ∷ cs) (x ∷ xs) h f =
    ground (arith, add_all-sub_all cs xs h.1 f.1, omega-place c x h.0 f.0)
  where
    omega-place : (c x : ℕ) → x ≤ c → c ≤ u128_max → saturating_add (saturating_sub c x) x ≡ c
    omega-place c x h f = omega arith

-- Place by place, what is left of `cs` and what was taken of it make up `cs`.
abbrev pub Taken : List ℕ → List ℕ → List ℕ → Type 0
Taken [] [] [] = Unit
Taken (x ∷ xs) (c ∷ cs) (r ∷ rs) = (r + x ≡ c) × Taken xs cs rs
Taken _ _ _ = ⊥

-- Place by place, `cs` has grown by `xs`, or to the bound of `u128` where the sum is above it.
abbrev pub Credited : List ℕ → List ℕ → List ℕ → Type 0
Credited [] [] [] = Unit
Credited (x ∷ xs) (c ∷ cs) (r ∷ rs) =
    (((c + x ≤ u128_max) × (r ≡ c + x)) ⊎ ((u128_max ≤ c + x) × (r ≡ u128_max))) × Credited xs cs rs
Credited _ _ _ = ⊥

pub Taken-iff : (xs cs rs : List ℕ) → Taken xs cs rs ↔ (Covers xs cs × (rs ≡ sub_all cs xs))
Taken-iff [] [] [] = (λ _. (tt, refl), λ _. tt)
Taken-iff [] [] (r ∷ rs) = (λ h. absurd h, λ h. absurd (cc (h.1)))
Taken-iff [] (c ∷ cs) rs = (λ h. absurd h, λ h. absurd (h.0))
Taken-iff (x ∷ xs) [] rs = (λ h. absurd h, λ h. absurd (h.0))
Taken-iff (x ∷ xs) (c ∷ cs) [] = (λ h. absurd h, λ h. absurd (cc (h.1)))
Taken-iff (x ∷ xs) (c ∷ cs) (r ∷ rs) =
    let ih = Taken-iff xs cs rs in
    (
      λ (here, rest).
          let (cover, left) = ih.0 rest in
          let first : r ≡ saturating_sub c x = omega (arith, here) in
          ((omega (arith, here), cover), cc (first, left)),
      λ (cover, same).
          let first : r ≡ saturating_sub c x = cc (same) in
          let left : rs ≡ sub_all cs xs = cc (same) in
          (omega (arith, first, cover.0), ih.1 (cover.1, left)),
    )

pub Credited-iff :
    (xs cs rs : List ℕ) → Credited xs cs rs ↔ ((length cs ≡ length xs) × (rs ≡ add_all cs xs))
Credited-iff [] [] [] = (λ _. (refl, refl), λ _. tt)
Credited-iff [] [] (r ∷ rs) = (λ h. absurd h, λ h. absurd (cc (h.1)))
Credited-iff [] (c ∷ cs) rs = (λ h. absurd h, λ h. absurd (omega (arith, h.0)))
Credited-iff (x ∷ xs) [] rs = (λ h. absurd h, λ h. absurd (omega (arith, h.0)))
Credited-iff (x ∷ xs) (c ∷ cs) [] = (λ h. absurd h, λ h. absurd (cc (h.1)))
Credited-iff (x ∷ xs) (c ∷ cs) (r ∷ rs) =
    let ih = Credited-iff xs cs rs in
    (
      λ (here, rest).
          let (fits, left) = ih.0 rest in
          let first : r ≡ saturating_add c x = ground (arith, here) in
          (ap suc fits, cc (first, left)),
      λ (fits, same).
          let first : r ≡ saturating_add c x = cc (same) in
          let left : rs ≡ add_all cs xs = cc (same) in
          (place c x r first, ih.1 (omega (arith, fits), left)),
    )
  where
    place :
        (c x r : ℕ)
        → r ≡ saturating_add c x
        → ((c + x ≤ u128_max) × (r ≡ c + x)) ⊎ ((u128_max ≤ c + x) × (r ≡ u128_max))
    place c x r first = elim (Bool-cases (ltb u128_max (c + x))) [
      | inl above ↦ inr (ground (arith, above), ground (arith, first, above))
      | inr below ↦ inl (ground (arith, below), ground (arith, first, below))
    ]
