-- ===== src/Transfer/Conservation.antt =====
-- What `transfer_components` moves.
use v_kernelx.Base.{ℕ, ◌+◌, ◌≤◌, ◌≡◌, ◌↔◌, sym, ap, ◌∙◌, List, arith, length, inl, inr, Bool-cases}
use v_kernelx.Components.{
  exceeds, total, Room, Covers, Taken, Credited, Taken-iff, Credited-iff, exceeds-eq-false_iff,
  length-eq_of_Covers, total-sub_all, total-add_all, total-add_all-le,
}
use v_kernelx.Error.{insufficient_balance, ok, err}
use v_kernelx.State.{VectorStateV1, VectorType}
use v_kernelx.Transfer.{sent, received, transfer_components}

-- A state with other components, of the standard type.
abbrev pub standard_with : VectorStateV1 → List ℕ → VectorStateV1
standard_with v cs = record v { components = cs; vector_type = VectorType.standard }

module _ (from to : VectorStateV1) (amount : List ℕ) where
  abbrev pub Accepted : Type 0
  Accepted = (length from.components ≡ length to.components) × Covers amount from.components

  transfer-inversion :
      (p : VectorStateV1 × VectorStateV1)
      → transfer_components from to amount ≡ ok p
      → Accepted × (p ≡ (sent from amount, received to amount))
  unfolding transfer_components
  transfer-inversion p h = (
    (ground arith, (exceeds-eq-false_iff amount from.components (ground arith)).0 (ground arith)),
    ground arith,
  )

  -- The same by the states that the model names.
  pub transfer-eq-ok_iff :
      (p : VectorStateV1 × VectorStateV1)
      → (transfer_components from to amount ≡ ok p)
        ↔ (Accepted × (p ≡ (sent from amount, received to amount)))
  unfolding transfer_components
  transfer-eq-ok_iff p = (
    transfer-inversion p,
    λ (accepted, e).
        let same = length-eq_of_Covers amount from.components accepted.1 in
        ground (
          arith,
          accepted.0,
          same,
          (exceeds-eq-false_iff amount from.components same).1 accepted.1,
        ),
  )

  -- A transfer goes through with two states exactly when, place by place, what the sender keeps
  -- and the amount make up what it had, and the receiver's component has grown by the amount, or
  -- to the bound of u128 where the sum is above it; both states become standard, and nothing else
  -- of them changes.
  pub transfer-moves_iff :
      (s r : VectorStateV1)
      → (transfer_components from to amount ≡ ok (s, r)) ↔ (
          Taken amount from.components s.components
          × Credited amount to.components r.components
          × (s ≡ standard_with from s.components)
          × (r ≡ standard_with to r.components))
  unfolding sent received
  transfer-moves_iff s r = (
    λ h.
        let (accepted, e) = transfer-inversion (s, r) h in
        let paid = length-eq_of_Covers amount from.components accepted.1 in
        let sender : s ≡ sent from amount = ap (λ p. p.0) e in
        let receiver : r ≡ received to amount = ap (λ p. p.1) e in
        (
          (Taken-iff amount from.components s.components).1
              (accepted.1, ap (λ v. v.components) sender),
          (Credited-iff amount to.components r.components).1
              (omega (arith, paid, accepted.0), ap (λ v. v.components) receiver),
          sender ∙ sym (ap (λ v. standard_with from v.components) sender),
          receiver ∙ sym (ap (λ v. standard_with to v.components) receiver),
        ),
    λ (taken, credited, sender, receiver).
        let (cover, left) = (Taken-iff amount from.components s.components).0 taken in
        let (fits, grown) = (Credited-iff amount to.components r.components).0 credited in
        let paid = length-eq_of_Covers amount from.components cover in
        (transfer-eq-ok_iff (s, r)).1 (
          (omega (arith, paid, fits), cover),
          λ i. (
            (sender ∙ ap (standard_with from) left) i,
            (receiver ∙ ap (standard_with to) grown) i,
          ),
        ),
  )

  -- A transfer is refused for insufficient balance exactly when the shapes and the amount's length
  -- agree and the sender does not cover the amount.
  pub transfer-eq-insufficient_iff :
      (transfer_components from to amount ≡ err insufficient_balance) ↔ (
        (length from.components ≡ length to.components)
        × (length from.components ≡ length amount)
        × (¬ Covers amount from.components))
  unfolding transfer_components
  transfer-eq-insufficient_iff = (
    λ h. (
      ground arith,
      ground arith,
      λ c. ground (
        arith,
        (exceeds-eq-false_iff amount from.components
              (length-eq_of_Covers amount from.components c)).1
            c,
      ),
    ),
    λ (same, fits, short). elim (Bool-cases (exceeds amount from.components)) [
      | inl over ↦ ground arith
      | inr under ↦
          absurd (short ((exceeds-eq-false_iff amount from.components (sym fits)).0 under))
    ],
  )

  -- When a transfer goes through, the two totals together do not grow.
  pub transfer-total-le :
      (s r : VectorStateV1)
      → transfer_components from to amount ≡ ok (s, r)
      → total s.components + total r.components ≤ total from.components + total to.components
  unfolding sent received
  transfer-total-le s r h =
      let i = transfer-inversion (s, r) h in
      let paid = length-eq_of_Covers amount from.components i.0.1 in
      rw (ap (λ p. p.0) i.1, ap (λ p. p.1) i.1)
        (omega (
          arith,
          total-sub_all from.components amount i.0.1,
          total-add_all-le to.components amount (omega (arith, paid, i.0.0)),
        ))

  -- When a transfer goes through and no component of the receiver passes u128, the two totals
  -- together stay the same.
  pub transfer-total :
      (s r : VectorStateV1)
      → transfer_components from to amount ≡ ok (s, r)
      → Room to.components amount
      → total s.components + total r.components ≡ total from.components + total to.components
  unfolding sent received
  transfer-total s r h room =
      let i = transfer-inversion (s, r) h in
      rw (ap (λ p. p.0) i.1, ap (λ p. p.1) i.1)
        (omega (
          arith,
          total-sub_all from.components amount i.0.1,
          total-add_all to.components amount room,
        ))
