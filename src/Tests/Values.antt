-- ===== src/Tests/Values.antt =====
-- The vector operations on concrete vectors.
use v_kernelx.Base.{◌≡◌, refl, ℕ, ◌+◌, ◌≤◌, ◌↔◌, none, some, List, [], ◌∷◌, arith}
use v_kernelx.Base.Text.{str}
use v_kernelx.Drain.{apply_drain, drain_each, fee_of, discounted}
use v_kernelx.Drain.Split.{Splits, apply_drain-Splits}
use v_kernelx.Error.{ok}
use v_kernelx.Projection.RoundTrip.{
  projected_with, project_vector-escrows_iff, project-reconstruct, outcome_of, break_even,
}
use v_kernelx.State.{VectorStateV1, ProjectionState, VectorStatus, new}
use v_kernelx.Transfer.{sent, received, transfer_components}
use v_kernelx.Components.{exceeds, Taken, Credited, Fits, Room, total}
use v_kernelx.Reconstruction.{SettlementOutcome, reconstruct_vector}
use v_kernelx.Projection.{escrowed, project_vector}
use v_kernelx.Transfer.Conservation.{standard_with, transfer-moves_iff}
use v_kernelx.Tests.World.{alice, bob, amount}

abbrev paid : VectorStateV1 × VectorStateV1
paid = (sent alice amount, received bob amount)

transfer-moves_iff_example : (transfer_components alice bob amount ≡ ok paid) ↔ (
    Taken amount alice.components (paid.0).components
    × Credited amount bob.components (paid.1).components
    × (paid.0 ≡ standard_with alice (paid.0).components)
    × (paid.1 ≡ standard_with bob (paid.1).components))
transfer-moves_iff_example = transfer-moves_iff alice bob amount (paid.0) (paid.1)

amount_is_accepted : transfer_components alice bob amount ≡ ok paid
unfolding transfer_components exceeds sent received new
amount_is_accepted = refl

amount_fits : Room bob.components amount
unfolding new
amount_fits = (omega arith, (omega arith, tt))

abbrev held_components : List ℕ
held_components = 1000 ∷ 37 ∷ []

drained : apply_drain held_components 250 700 700 ≡ ok (12 ∷ 0 ∷ [], 988 ∷ 37 ∷ [])
unfolding apply_drain drain_each fee_of discounted
drained = refl

drained_more : apply_drain held_components 250 699 700 ≡ ok (25 ∷ 0 ∷ [], 975 ∷ 37 ∷ [])
unfolding apply_drain drain_each fee_of discounted
drained_more = refl

apply_drain-Splits_example :
    (250 ≤ 10000)
    × Splits (12 ∷ 0 ∷ []) (988 ∷ 37 ∷ []) held_components
    × (12 + 1025 ≡ total held_components)
apply_drain-Splits_example =
    apply_drain-Splits held_components 250 700 700 (12 ∷ 0 ∷ []) (988 ∷ 37 ∷ []) drained

abbrev in_escrow : VectorStateV1
in_escrow = escrowed 9 alice amount (str "E")

project_vector-escrows_iff_example : (project_vector 9 alice amount (str "E") ≡ ok in_escrow) ↔ (
    Taken amount alice.components in_escrow.components
    × (in_escrow ≡ projected_with 9 alice amount (str "E") in_escrow.components))
project_vector-escrows_iff_example = project_vector-escrows_iff 9 alice amount (str "E") in_escrow

projected : project_vector 9 alice amount (str "E") ≡ ok in_escrow
unfolding project_vector exceeds escrowed new
projected = refl

abbrev escrow : ProjectionState
escrow = record {
  escrow_id = str "E";
  projected_components = amount;
  settled_components = [];
  started_at_ms = 9;
  settlement_at_ms = none;
  outcome_tag = none;
}

abbrev in_hand : VectorStateV1
in_hand = record alice { projection = some escrow }

abbrev gainful : SettlementOutcome
gainful = record { outcome_tag = str "W"; gains = 7 ∷ 0 ∷ []; losses = 0 ∷ 3 ∷ [] }

abbrev ruinous : SettlementOutcome
ruinous = record { outcome_tag = str "L"; gains = 0 ∷ 0 ∷ []; losses = 0 ∷ 11 ∷ [] }

alice-Fits : Fits alice.components
unfolding new
alice-Fits = (omega arith, (omega arith, tt))

project-reconstruct_example :
    outcome_of (reconstruct_vector 11 in_escrow (break_even (str "N") 2))
    ≡ some (50 ∷ 30 ∷ [], VectorStatus.settled)
unfolding new
project-reconstruct_example =
    project-reconstruct 9 11 alice in_escrow amount (str "E") (str "N") alice-Fits projected
