-- ===== src/Drain/Split.antt =====
-- A drain splits each component into a fee and a rest, and a certified vector pays less.
use v_kernelx.Base.{ℕ, ◌+◌, ◌*◌, ◌/◌, ◌≤◌, ◌<◌, ◌≡◌, refl, List, [], ◌∷◌, arith, u128_max}
use v_kernelx.Components.{total, Covers}
use v_kernelx.Error.{ok}
use v_kernelx.Drain.{discounted, fee_of, drain_each, apply_drain}

-- A fee never passes its amount, saturated or not.
fee_of-le : (discount amount : ℕ) → discount ≤ 10000 → fee_of discount amount ≤ amount
unfolding fee_of
fee_of-le discount amount h = grind arith

-- Each amount is the sum of its fee and its rest.
abbrev pub Splits : List ℕ → List ℕ → List ℕ → Type 0
Splits [] [] [] = Unit
Splits (f ∷ fs) (r ∷ rs) (a ∷ amounts) = (f + r ≡ a) × Splits fs rs amounts
Splits _ _ _ = ⊥

drain_each-Splits :
    (discount : ℕ) (amounts : List ℕ)
    → discount ≤ 10000
    → Splits (drain_each discount amounts).0 (drain_each discount amounts).1 amounts
unfolding drain_each
drain_each-Splits discount [] h = tt
drain_each-Splits discount (a ∷ amounts) h =
    (omega (arith, fee_of-le discount a h), drain_each-Splits discount amounts h)

total-Splits : (fs rs amounts : List ℕ) → Splits fs rs amounts → total fs + total rs ≡ total amounts
total-Splits [] [] [] h = refl
total-Splits [] [] (a ∷ amounts) h = absurd h
total-Splits [] (r ∷ rs) amounts h = absurd h
total-Splits (f ∷ fs) [] amounts h = absurd h
total-Splits (f ∷ fs) (r ∷ rs) [] h = absurd h
total-Splits (f ∷ fs) (r ∷ rs) (a ∷ amounts) h = omega (arith, total-Splits fs rs amounts h.1, h.0)

discounted-le : (bp auth threshold : ℕ) → discounted bp auth threshold ≤ bp
unfolding discounted
discounted-le bp auth threshold = ground arith

-- An accepted drain has a rate of at most 10000 basis points and splits every component into a fee
-- and a rest that add up to it.
pub apply_drain-Splits :
    (amounts : List ℕ) (bp auth threshold : ℕ) (drained remaining : List ℕ)
    → apply_drain amounts bp auth threshold ≡ ok (drained, remaining)
    → (bp ≤ 10000)
      × Splits drained remaining amounts
      × (total drained + total remaining ≡ total amounts)
unfolding apply_drain
apply_drain-Splits amounts bp auth threshold drained remaining h =
    let rate : bp ≤ 10000 = ground arith in
    let pair : drain_each (discounted bp auth threshold) amounts ≡ (drained, remaining) =
      unfold-free rate in
    let splits = rw pair at (
      drain_each-Splits (discounted bp auth threshold) amounts
        (omega (arith, discounted-le bp auth threshold))) in
    (rate, splits, total-Splits drained remaining amounts splits)
  where
    unfold-free :
        bp ≤ 10000 → drain_each (discounted bp auth threshold) amounts ≡ (drained, remaining)
    unfold-free rate = ground arith

-- The fee of one amount is exact while the product fits `u128`.
fee_of-exact :
    (discount amount : ℕ)
    → amount * discount ≤ u128_max
    → fee_of discount amount ≡ amount * discount / 10000
unfolding fee_of
fee_of-exact discount amount h = ground arith

fee_of_mono : (d e amount : ℕ) → d ≤ e → fee_of d amount ≤ fee_of e amount
unfolding fee_of
fee_of_mono d e amount h = grind arith

drain_each_mono :
    (d e : ℕ) (amounts : List ℕ) → d ≤ e → Covers (drain_each d amounts).0 (drain_each e amounts).0
unfolding drain_each
drain_each_mono d e [] h = tt
drain_each_mono d e (a ∷ amounts) h = (fee_of_mono d e a h, drain_each_mono d e amounts h)

-- In two accepted drains at one rate, the vector whose auth ratio meets the threshold pays at most
-- what the one below it pays, in every component.
pub apply_drain-certified_pays_less :
    (amounts : List ℕ) (bp auth auth' threshold : ℕ)
    (drained remaining drained' remaining' : List ℕ)
    → threshold ≤ auth
    → auth' < threshold
    → apply_drain amounts bp auth threshold ≡ ok (drained, remaining)
    → apply_drain amounts bp auth' threshold ≡ ok (drained', remaining')
    → Covers drained drained'
unfolding apply_drain
apply_drain-certified_pays_less amounts bp auth auth' threshold drained remaining drained'
      remaining' met unmet h h' =
    ground (arith, drain_each_mono (bp / 2) bp amounts)
