-- ===== src/Sdk.antt =====
-- src/sdk.rs: `VectorKernel`, which passes each call on to its engine. `wallet()` is `generate` of
-- Wallet.
use v_kernelx.Base.{ℕ, Option, List}
use v_kernelx.Base.Text.{Str}
use v_kernelx.Engine.{new_engine}
use v_kernelx.Engine.Monad.{KernelEngine, Outcome, Action}
use v_kernelx.Engine.Operations
use v_kernelx.Engine.Queries
use v_kernelx.Error.{KernelXError, Result}
use v_kernelx.External.{External}
use v_kernelx.Reconstruction.{SettlementOutcome}
use v_kernelx.Record.{VectorRecordV1}
use v_kernelx.Replay.{ReplayResult}
use v_kernelx.State.{VectorStateV1, StateRoot}

pub record VectorKernel : Type 0 where
  pub engine : KernelEngine

-- `VectorKernel::new`
abbrev pub new_kernel : VectorKernel
new_kernel = record { engine = new_engine }

-- `self.engine.method(..)`
abbrev passed_on : {A : Type 0} → Action A → VectorKernel → Outcome A × VectorKernel
passed_on m kernel = let (r, engine) = m kernel.engine in (r, record { engine = engine })

abbrev pub query : Str → VectorKernel → Option VectorStateV1
query vector_id kernel = Queries.query_vector vector_id kernel.engine.store

abbrev pub query_vectors : VectorKernel → List VectorStateV1
query_vectors kernel = Queries.query_vectors kernel.engine.store

abbrev pub query_records : VectorKernel → List VectorRecordV1
query_records kernel = Queries.query_records kernel.engine.store

module _ (ext : External) where
  abbrev pub replay_canonical_history : VectorKernel → Option (Result KernelXError ReplayResult)
  replay_canonical_history kernel = Queries.replay_canonical_history ext kernel.engine.store

  abbrev pub current_state_root : VectorKernel → StateRoot
  current_state_root kernel = Queries.current_state_root ext kernel.engine.store

  module _ (now : ℕ → ℕ) where
    abbrev pub origin_create :
        Str → Str → Str → List ℕ → Str → ℕ → ℕ → VectorKernel → Outcome VectorStateV1 × VectorKernel
    origin_create vector_id owner_pubkey space_id components seed nonce difficulty = passed_on (
        Operations.origin_create ext now vector_id owner_pubkey space_id components seed nonce
          difficulty)

    abbrev pub transfer :
        Str → Str → List ℕ → VectorKernel → Outcome (VectorStateV1 × VectorStateV1) × VectorKernel
    transfer from_id to_id amount = passed_on (Operations.transfer ext now from_id to_id amount)

    abbrev pub drain : Str → ℕ → VectorKernel → Outcome VectorStateV1 × VectorKernel
    drain vector_id basis_points = passed_on (Operations.drain ext now vector_id basis_points)

    abbrev pub project : Str → List ℕ → Str → VectorKernel → Outcome VectorStateV1 × VectorKernel
    project vector_id projected_components escrow_id =
        passed_on (Operations.project ext now vector_id projected_components escrow_id)

    abbrev pub reconstruct :
        Str → SettlementOutcome → VectorKernel → Outcome VectorStateV1 × VectorKernel
    reconstruct vector_id outcome = passed_on (Operations.reconstruct ext now vector_id outcome)

    abbrev pub certify : Str → VectorKernel → Outcome VectorStateV1 × VectorKernel
    certify vector_id = passed_on (Operations.certify ext now vector_id)
