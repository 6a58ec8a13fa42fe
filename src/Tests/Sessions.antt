-- ===== src/Tests/Sessions.antt =====
-- The engine on concrete sessions of calls.
use v_kernelx.Base.{◌≡◌, ◌≢◌, ◌+◌, ◌^◌, refl, ℕ, some, true, List, [], ◌∷◌, arith}
use v_kernelx.Base.Text.{str, str_eq}
use v_kernelx.Base.Map.{get, insert}
use v_kernelx.Components.{Room}
use v_kernelx.Engine.{new_engine}
use v_kernelx.Engine.Induction.{
  Command, origin_create_call, certify_call, transfer_call, drain_call, run,
}
use v_kernelx.Engine.Ledger.{IsLedger, run-IsLedger, IsLedger-empty}
use v_kernelx.Engine.Monad.{failed}
use v_kernelx.Engine.Moves.{held, transfer-states, transfer-conserves, transfer-self_creates}
use v_kernelx.Engine.Operations.{recertified, transfer, origin_create}
use v_kernelx.Engine.Partial.{oversized, IsOversized, fresh_origin, origin_create-oversized_writes}
use v_kernelx.Engine.States.{HoldsValid, run-HoldsValid}
use v_kernelx.Error.{ok}
use v_kernelx.Origin.{verify_origin, origin_vector}
use v_kernelx.State.{new, state_schema_v1, validate_canonical_state}
use v_kernelx.Storage.{get_state}
use v_kernelx.Tests.World.{toy, clock, alice, bob, amount, two_vectors}
use v_kernelx.Transfer.{sent, received}
use v_kernelx.Transfer.Conservation.{Accepted}
use v_kernelx.Validation.{validate_state}

abbrev pub session : List Command
session =
    origin_create_call clock (str "A") (str "pk-a") (str "S") (50 ∷ 30 ∷ []) (str "seed") 0 0
    ∷ origin_create_call clock (str "B") (str "pk-b") (str "S") (5 ∷ 1 ∷ []) (str "seed") 0 0
    ∷ transfer_call clock (str "A") (str "B") amount
    ∷ drain_call clock (str "A") 250
    ∷ certify_call clock (str "Z")
    ∷ []

run-IsLedger_example : IsLedger toy (run toy session new_engine).store.events
run-IsLedger_example = run-IsLedger toy session new_engine (IsLedger-empty toy)

no_states : HoldsValid new_engine.store
unfolding get
no_states = record { own_id = λ id s found. absurd (cc); valid = λ id s found. absurd (cc) }

run-HoldsValid_example : HoldsValid (run toy session new_engine).store
run-HoldsValid_example = run-HoldsValid toy session new_engine no_states

alice_stored : get_state (str "A") two_vectors.store ≡ some alice
unfolding get_state get str str_eq
alice_stored = refl

bob_stored : get_state (str "B") two_vectors.store ≡ some bob
unfolding get_state get str str_eq
bob_stored = refl

alice_valid : validate_state alice ≡ ok tt
unfolding validate_state validate_canonical_state new state_schema_v1 str str_eq
alice_valid = refl

bob_valid : validate_state bob ≡ ok tt
unfolding validate_state validate_canonical_state new state_schema_v1 str str_eq
bob_valid = refl

alice_pays : Accepted alice bob amount
unfolding new
alice_pays = (refl, (omega arith, (omega arith, tt)))

bob-Room : Room bob.components amount
unfolding new
bob-Room = (omega arith, (omega arith, tt))

alice-Room : Room alice.components amount
unfolding new
alice-Room = (omega arith, (omega arith, tt))

apart : alice.vector_id ≢ bob.vector_id
unfolding new str
apart same = absurd (ground (arith, same))

transfer-states_example :
    (transfer toy clock (str "A") (str "B") amount two_vectors).1.store.states
    ≡ insert bob.vector_id
        (recertified 1000 (received bob amount))
        (insert alice.vector_id (recertified 1000 (sent alice amount)) two_vectors.store.states)
transfer-states_example =
    transfer-states toy clock two_vectors amount (str "A") (str "B") alice bob alice_stored
      bob_stored alice_valid bob_valid alice_pays

transfer-conserves_example :
    let after = (transfer toy clock alice.vector_id bob.vector_id amount two_vectors).1 in
    held alice.vector_id after + held bob.vector_id after
    ≡ held alice.vector_id two_vectors + held bob.vector_id two_vectors
unfolding new
transfer-conserves_example =
    transfer-conserves toy clock two_vectors amount alice bob alice_stored bob_stored apart
      alice_valid bob_valid alice_pays bob-Room

third : str "C" ≢ alice.vector_id
unfolding new str
third same = absurd (ground (arith, same))

third' : str "C" ≢ bob.vector_id
unfolding new str
third' same = absurd (ground (arith, same))

transfer-self_creates_example :
    held alice.vector_id (transfer toy clock alice.vector_id alice.vector_id amount two_vectors).1
    ≡ held alice.vector_id two_vectors + 30
unfolding new
transfer-self_creates_example =
    transfer-self_creates toy clock two_vectors amount alice alice_stored alice_valid alice_pays.1
      alice-Room

abbrev huge : List ℕ
huge = 1 ∷ 2 ^ 64 ∷ []

huge-IsOversized : IsOversized huge
huge-IsOversized fits = absurd (omega (arith, fits.1.0))

proof_accepted : verify_origin toy (str "seed") 0 0 ≡ true
unfolding verify_origin
proof_accepted = ground arith

huge_valid :
    validate_state
      (fresh_origin toy clock (str "A") (str "pk-a") (str "S") huge (str "seed") 0 0 new_engine)
    ≡ ok tt
unfolding validate_state validate_canonical_state origin_vector new state_schema_v1 str str_eq
huge_valid = refl

origin_create-oversized_writes_example :
    let result =
      origin_create toy clock (str "A") (str "pk-a") (str "S") huge (str "seed") 0 0 new_engine in
    (result.0 ≡ failed oversized)
    × (get_state (str "A") result.1.store
        ≡ some (
            recertified 1000 (
              fresh_origin toy clock
                (str "A")
                (str "pk-a")
                (str "S")
                huge
                (str "seed")
                0
                0
                new_engine)))
    × (result.1.store.events ≡ [])
origin_create-oversized_writes_example =
    origin_create-oversized_writes toy clock (str "A") (str "pk-a") (str "S") huge (str "seed") 0 0
      new_engine proof_accepted huge_valid huge-IsOversized
