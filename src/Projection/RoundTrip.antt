-- ===== src/Projection/RoundTrip.antt =====
-- Projection into escrow and settlement out of it, together.
use v_kernelx.Base.{
  ℕ, ◌+◌, ◌≡◌, ◌↔◌, refl, sym, ap, ◌∙◌, List, [], ◌∷◌, arith, length, none, some, add64, Option,
  replicate, length-replicate, length-zip_with,
}
use v_kernelx.Base.Text.{Str, str}
use v_kernelx.Components.{
  sub_all, add_all, total, Fits, Covers, Taken, Taken-iff, exceeds-eq-false_iff,
  length-eq_of_Covers, add_all-sub_all, total-sub_all,
}
use v_kernelx.Error.{KernelXError, settlement_rejected, Result, ok, err}
use v_kernelx.State.{VectorStateV1, ProjectionState, VectorType, VectorStatus}
use v_kernelx.Projection.{escrowed, project_vector}
use v_kernelx.Reconstruction.{SettlementOutcome, reconstruct_vector}
use v_kernelx.Reconstruction.Settle.{
  nets, Solvent, settle_from-Solvent, settle_from-insolvent, nets-replicate_zero,
  Solvent-replicate_zero,
}

module _ (now : ℕ) (s : VectorStateV1) (ps : List ℕ) (escrow_id : Str) where
  -- The state with other components and the slice in escrow.
  abbrev pub projected_with : List ℕ → VectorStateV1
  projected_with cs = record s {
    components = cs;
    status = VectorStatus.projected;
    vector_type = VectorType.projected;
    projection = some (record {
      escrow_id = escrow_id;
      projected_components = ps;
      settled_components = [];
      started_at_ms = now;
      settlement_at_ms = none;
      outcome_tag = none;
    });
    updated_at_ms = now;
    version = add64 s.version 1;
  }

  -- The same by the state that the model names.
  pub project_vector-eq-ok_iff :
      (t : VectorStateV1)
      → (project_vector now s ps escrow_id ≡ ok t)
        ↔ (Covers ps s.components × (t ≡ escrowed now s ps escrow_id))
  unfolding project_vector
  project_vector-eq-ok_iff t = (
    λ h. ((exceeds-eq-false_iff ps s.components (ground arith)).0 (ground arith), ground arith),
    λ (cover, e).
        let same = length-eq_of_Covers ps s.components cover in
        ground (arith, same, (exceeds-eq-false_iff ps s.components same).1 cover),
  )

  -- A projection goes through with a state exactly when, place by place, what it keeps and the
  -- slice make up the components before, and it is the state before with these components,
  -- projected, with the slice and the time in escrow, the time as its last update, and the next
  -- version.
  pub project_vector-escrows_iff :
      (t : VectorStateV1)
      → (project_vector now s ps escrow_id ≡ ok t)
        ↔ (Taken ps s.components t.components × (t ≡ projected_with t.components))
  unfolding escrowed
  project_vector-escrows_iff t = (
    λ h.
        let (cover, e) = (project_vector-eq-ok_iff t).0 h in
        (
          (Taken-iff ps s.components t.components).1 (cover, ap (λ v. v.components) e),
          e ∙ sym (ap (λ v. projected_with v.components) e),
        ),
    λ (taken, e).
        let (cover, left) = (Taken-iff ps s.components t.components).0 taken in
        (project_vector-eq-ok_iff t).1 (cover, e ∙ ap projected_with left),
  )

  -- After an accepted projection what is left and what is escrowed add up to what there was; the
  -- length and the id stay and the version moves on.
  pub project_vector-total :
      (t : VectorStateV1)
      → project_vector now s ps escrow_id ≡ ok t
      → (total t.components + total ps ≡ total s.components)
        × (length t.components ≡ length s.components)
        × (t.vector_id ≡ s.vector_id)
        × (t.version ≡ add64 s.version 1)
  unfolding escrowed
  project_vector-total t h =
      let (cover, e) = (project_vector-eq-ok_iff t).0 h in
      rw e (
        total-sub_all s.components ps cover,
        length-zip_with _ s.components ps (sym (length-eq_of_Covers ps s.components cover)),
        refl,
        refl,
      )

-- The settled state that a solvent outcome leads to.
abbrev pub settled_vector : ℕ → VectorStateV1 → ProjectionState → SettlementOutcome → VectorStateV1
settled_vector now s p outcome =
    let won = nets p.projected_components outcome.gains outcome.losses in
    record s {
      components = add_all s.components won;
      projection = some (record p {
        settled_components = won;
        settlement_at_ms = some now;
        outcome_tag = some outcome.outcome_tag;
      });
      vector_type = VectorType.settlement;
      status = VectorStatus.settled;
      updated_at_ms = now;
      version = add64 s.version 1;
    }

module _ (now : ℕ) (s : VectorStateV1) (p : ProjectionState) (outcome : SettlementOutcome)
    (has : s.projection ≡ some p) (gains_fit : length p.projected_components ≡ length outcome.gains)
    (losses_fit : length p.projected_components ≡ length outcome.losses) where
  pub reconstruct_vector-Solvent :
      length p.projected_components ≡ length s.components
      → Solvent p.projected_components outcome.gains outcome.losses
      → reconstruct_vector now s outcome ≡ ok (settled_vector now s p outcome)
  unfolding reconstruct_vector
  reconstruct_vector-Solvent shape solvent =
      let loop =
        settle_from-Solvent [] p.projected_components outcome.gains outcome.losses s.components []
          shape (sym gains_fit ∙ shape) (sym losses_fit ∙ shape) solvent in
      ground (arith, has, loop)

  -- Where a state has a projection, the lengths of gains and losses agree with it, and some loss
  -- is above its principal and gain, the settlement is refused.
  pub reconstruct_vector-insolvent :
      ¬ Solvent p.projected_components outcome.gains outcome.losses
      → reconstruct_vector now s outcome
        ≡ err (settlement_rejected (str "loss exceeds projected value"))
  unfolding reconstruct_vector
  reconstruct_vector-insolvent h = ground (
    arith,
    has,
    settle_from-insolvent 0 p.projected_components outcome.gains outcome.losses s.components [] h,
  )

-- The outcome with no gain and no loss.
abbrev pub break_even : Str → ℕ → SettlementOutcome
break_even tag n = record { outcome_tag = tag; gains = replicate n 0; losses = replicate n 0 }

Fits-Covers : (ps cs : List ℕ) → Covers ps cs → Fits cs → Fits ps
Fits-Covers [] [] h f = tt
Fits-Covers [] (c ∷ cs) h f = absurd h
Fits-Covers (p ∷ ps) [] h f = absurd h
Fits-Covers (p ∷ ps) (c ∷ cs) h f = (omega (arith, h.0, f.0), Fits-Covers ps cs h.1 f.1)

-- The components and the status of a result.
abbrev pub outcome_of : Result KernelXError VectorStateV1 → Option (List ℕ × VectorStatus)
outcome_of (err e) = none
outcome_of (ok s) = some (s.components, s.status)

-- Settling a projection of components within u128, with no gain and no loss, succeeds, gives back
-- the components, and leaves the settled status.
pub project-reconstruct :
    (now now' : ℕ) (s t : VectorStateV1) (ps : List ℕ) (escrow_id tag : Str)
    → Fits s.components
    → project_vector now s ps escrow_id ≡ ok t
    → outcome_of (reconstruct_vector now' t (break_even tag (length ps)))
      ≡ some (s.components, VectorStatus.settled)
unfolding escrowed
project-reconstruct now now' s t ps escrow_id tag fits h =
    let (cover, e) = (project_vector-eq-ok_iff now s ps escrow_id t).0 h in
    let same = length-eq_of_Covers ps s.components cover in
    let zeros = sym (length-replicate (length ps) 0) in
    let settled =
      reconstruct_vector-Solvent now' (escrowed now s ps escrow_id) _ (break_even tag (length ps))
        refl zeros zeros (same ∙ sym (length-zip_with _ s.components ps (sym same)))
        (Solvent-replicate_zero ps (replicate (length ps) 0)) in
    let restored : add_all (sub_all s.components ps)
          (nets ps (replicate (length ps) 0) (replicate (length ps) 0))
        ≡ s.components =
      rw (nets-replicate_zero ps (Fits-Covers ps s.components cover fits))
        (add_all-sub_all s.components ps cover fits) in
    rw (e, settled) (λ i. some (restored i, VectorStatus.settled))
