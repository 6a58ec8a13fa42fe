-- ===== src/Developer.antt =====
-- src/developer.rs: the simulation. The public keys of the two generated wallets are arguments, and
-- `now i` is the clock during the `i`-th call of a method.
use v_kernelx.Base.{ℕ, List, [], ◌∷◌, length}
use v_kernelx.Base.Text.{Str, str}
use v_kernelx.Engine.Monad.{Action, pure, or_fail, reads, ◌>>=◌, ◌>>◌}
use v_kernelx.Engine.Operations.{origin_create, transfer, drain, project, reconstruct}
use v_kernelx.Engine.Queries.{query_vectors, query_records}
use v_kernelx.Error.{origin_rejected}
use v_kernelx.External.{External}
use v_kernelx.Origin.{find_valid_nonce}
use v_kernelx.State.{VectorStateV1}

pub record SimulationReport : Type 0 where
  pub vectors : List VectorStateV1
  pub records : ℕ

unfoldable pub basic_flow : External → (ℕ → ℕ → ℕ) → Str → Str → Action SimulationReport
basic_flow ext now key_a key_b = do
  nonce_a ← or_fail origin_rejected (find_valid_nonce ext (str "seed-a") 1 1000000)
  nonce_b ← or_fail origin_rejected (find_valid_nonce ext (str "seed-b") 1 1000000)
  origin_create ext (now 0) (str "v-a") key_a (str "space-1") (1000 ∷ 2000 ∷ []) (str "seed-a")
      nonce_a 1
  origin_create ext (now 1) (str "v-b") key_b (str "space-1") (50 ∷ 75 ∷ []) (str "seed-b") nonce_b
      1
  transfer ext (now 2) (str "v-a") (str "v-b") (250 ∷ 250 ∷ [])
  drain ext (now 3) (str "v-a") 100
  project ext (now 4) (str "v-b") (10 ∷ 10 ∷ []) (str "escrow-1")
  reconstruct ext (now 5) (str "v-b")
      (record { outcome_tag = str "settled"; gains = 2 ∷ 1 ∷ []; losses = 0 ∷ 0 ∷ [] })
  vectors ← reads query_vectors
  records ← reads query_records
  pure (record { vectors = vectors; records = length records })
