-- ===== src/Interpreter.antt =====
-- src/interpreter.rs: scripts of instructions, one line each, and their execution. `now i` is the
-- clock during the `i`-th instruction.
pub mod Params
pub mod Refinement
use v_kernelx.Base.{
  ℕ, zero, suc, ◌+◌, ◌%◌, ◌^◌, Bool, true, false, ◌||◌, Option, none, some, List, [], ◌∷◌, ◌++◌,
  is_nil, if◌then◌else◌, ◌==◌,
}
use v_kernelx.Base.Parse.{parse_u64}
use v_kernelx.Base.Text.{Str, str, str_eq, trim, decimal}
use v_kernelx.Engine.Monad.{Action, pure, lift, reads, ◌>>=◌}
use v_kernelx.Engine.Operations.{certify, origin_create, transfer, drain, project, reconstruct}
use v_kernelx.Engine.Queries.{query_vector}
use v_kernelx.Error
use v_kernelx.Error.{KernelXError, rejected, Result, ok, err}
use v_kernelx.External.{
  External, Value, number, string, array, object, Items, nil, cons, Fields, end, field,
}
use v_kernelx.Interpreter.Params.{param_str, param_u64, param_u16, param_u128_vec, settlement_of}
use v_kernelx.Reconstruction.{SettlementOutcome}
use v_kernelx.State.{magnitude}

pub data Opcode : Type 0 where
  origin_create_op transfer_op drain_op project_op reconstruct_op certify_op query_op : Opcode

pub record Instruction : Type 0 where
  pub opcode : Opcode
  pub params : Value

push_char : ℕ → List Str → List Str
push_char c [] = (c ∷ []) ∷ []
push_char c (line ∷ lines) = (c ∷ line) ∷ lines

-- `str::lines`; the `\r` that it drops before a `\n` is left to `trim`.
unfoldable pub lines : Str → List Str
unfolding push_char
lines [] = []
lines (c ∷ text) = let rest = lines text in if c == b'\n' then [] ∷ rest else push_char c rest

-- The two pieces of `splitn(2, ' ')`.
unfoldable pub before_space : Str → Str
before_space [] = []
before_space (c ∷ line) = let rest = before_space line in if c == b' ' then [] else c ∷ rest

unfoldable pub after_space : Str → Option Str
after_space [] = none
after_space (c ∷ line) = let rest = after_space line in if c == b' ' then some line else rest

unfoldable pub opcode_of : Str → Result KernelXError Opcode
opcode_of name =
    if str_eq name (str "ORIGIN") || str_eq name (str "ORIGIN_CREATE")
    then ok Opcode.origin_create_op
    else if str_eq name (str "TRANSFER")
    then ok Opcode.transfer_op
    else if str_eq name (str "DRAIN")
    then ok Opcode.drain_op
    else if str_eq name (str "PROJECT")
    then ok Opcode.project_op
    else if str_eq name (str "RECONSTRUCT")
    then ok Opcode.reconstruct_op
    else if str_eq name (str "CERTIFY")
    then ok Opcode.certify_op
    else if str_eq name (str "QUERY")
    then ok Opcode.query_op
    else err (rejected (str "unknown opcode: " ++ name))

rejected_json : Result Str Value → Result KernelXError Value
rejected_json (ok v) = ok v
rejected_json (err e) = err (rejected (str "invalid params json: " ++ e))

params_text : Option Str → Str
params_text none = str "{}"
params_text (some text) = text

-- An empty line or a comment.
is_skipped : Str → Bool
is_skipped [] = true
is_skipped (c ∷ line) = c == b'#'

module _ (ext : External) where
  unfoldable pub parse_line : Str → Result KernelXError Instruction
  unfolding rejected_json params_text
  parse_line line = Error.◌>>=◌ (opcode_of (ext.to_uppercase (before_space line))) (λ opcode.
      Error.◌>>=◌ (rejected_json (ext.parse_json (params_text (after_space line))))
        (λ params. ok (record { opcode = opcode; params = params })))

  -- The loop over the lines.
  unfoldable pub parse_lines : List Str → Result KernelXError (List Instruction)
  unfolding is_skipped
  parse_lines [] = ok []
  parse_lines (raw ∷ rest) =
      let line = trim raw in
      let later = parse_lines rest in
      if is_skipped line
      then later
      else Error.◌>>=◌ (parse_line line) (λ ins. Error.◌>>=◌ later (λ out. ok (ins ∷ out)))

  unfoldable pub parse_script : Str → Result KernelXError (List Instruction)
  parse_script script = parse_lines (lines script)

  -- One turn of the loop, by the opcode.
  unfoldable pub execute : (ℕ → ℕ) → Opcode → Value → Action Str
  execute now Opcode.origin_create_op params = do
    state ←
        origin_create ext now (param_str params (str "vector_id") (str "vector"))
          (param_str params (str "owner_pubkey") [])
          (param_str params (str "space_id") (str "default"))
          (param_u128_vec params (str "components")) (param_str params (str "seed") [])
          (param_u64 params (str "nonce") 0) (param_u64 params (str "difficulty") 1 % 2 ^ 32)
    pure (str "origin:" ++ state.vector_id)
  execute now Opcode.transfer_op params = do
    let from_id = param_str params (str "from") []
    let to_id = param_str params (str "to") []
    moved ← transfer ext now from_id to_id (param_u128_vec params (str "amount"))
    pure (
        str "transfer:"
        ++ (from_id
            ++ (str "->"
                ++ (to_id
                    ++ (str ":"
                        ++ (decimal (magnitude (moved.0))
                            ++ (str "|" ++ decimal (magnitude (moved.1)))))))))
  execute now Opcode.drain_op params = do
    state ←
        drain ext now (param_str params (str "vector_id") [])
          (param_u16 params (str "basis_points") 0)
    pure (str "drain:" ++ state.vector_id)
  execute now Opcode.project_op params = do
    state ←
        project ext now (param_str params (str "vector_id") [])
          (param_u128_vec params (str "projected_components"))
          (param_str params (str "escrow_id") (str "escrow"))
    pure (str "project:" ++ state.vector_id)
  execute now Opcode.reconstruct_op params = do
    state ← reconstruct ext now (param_str params (str "vector_id") []) (settlement_of params)
    pure (str "reconstruct:" ++ state.vector_id)
  execute now Opcode.certify_op params = do
    state ← certify ext now (param_str params (str "vector_id") [])
    pure
        (str "certify:" ++ (state.vector_id ++ (str ":" ++ decimal state.certification.auth_ratio)))
  execute now Opcode.query_op params = do
    state ← reads (query_vector (param_str params (str "vector_id") []))
    pure (ext.found_json state)

  -- The loop; an error ends it.
  unfoldable pub execute_all : (ℕ → ℕ → ℕ) → List Instruction → Action (List Str)
  execute_all now [] = pure []
  execute_all now (ins ∷ rest) = do
    result ← execute (now 0) ins.opcode ins.params
    results ← execute_all (λ i. now (suc i)) rest
    pure (result ∷ results)

  unfoldable pub execute_script : (ℕ → ℕ → ℕ) → Str → Action (List Str)
  execute_script now script = do
    instructions ← lift (parse_script script)
    execute_all now instructions
