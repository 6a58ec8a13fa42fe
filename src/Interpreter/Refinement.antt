-- ===== src/Interpreter/Refinement.antt =====
-- The interpreter refines the engine: a script is a session of calls that ends with the first error.
use v_kernelx.Base.{ℕ, suc, ◌≡◌, refl, sym, ap, ◌∙◌, List, [], ◌∷◌, ◌++◌, ◌%◌, ◌^◌}
use v_kernelx.Base.Text.{Str, str}
use v_kernelx.Engine.Induction.{
  Command, certify_call, origin_create_call, transfer_call, drain_call, project_call,
  reconstruct_call, create_region_call, step, run,
}
use v_kernelx.Engine.Monad.{
  KernelEngine, Outcome, done, failed, panicked, Action, pure, continue, ◌>>=◌,
}
use v_kernelx.Engine.Operations.{certify, origin_create, transfer, drain, project, reconstruct}
use v_kernelx.Engine.Queries.{create_region}
use v_kernelx.External.{External, Value}
use v_kernelx.Error.{ok}
use v_kernelx.Interpreter.{Opcode, Instruction, execute, execute_all, execute_script, parse_script}
use v_kernelx.Interpreter.Params.{param_str, param_u64, param_u16, param_u128_vec, settlement_of}

-- The calls that an instruction makes: one, but none for a query.
unfoldable pub calls_of : (ℕ → ℕ) → Opcode → Value → List Command
calls_of now Opcode.origin_create_op params =
    origin_create_call now (param_str params (str "vector_id") (str "vector"))
      (param_str params (str "owner_pubkey") []) (param_str params (str "space_id") (str "default"))
      (param_u128_vec params (str "components")) (param_str params (str "seed") [])
      (param_u64 params (str "nonce") 0) (param_u64 params (str "difficulty") 1 % 2 ^ 32)
    ∷ []
calls_of now Opcode.transfer_op params =
    transfer_call now (param_str params (str "from") []) (param_str params (str "to") [])
      (param_u128_vec params (str "amount"))
    ∷ []
calls_of now Opcode.drain_op params =
    drain_call now (param_str params (str "vector_id") []) (param_u16 params (str "basis_points") 0)
    ∷ []
calls_of now Opcode.project_op params =
    project_call now (param_str params (str "vector_id") [])
      (param_u128_vec params (str "projected_components"))
      (param_str params (str "escrow_id") (str "escrow"))
    ∷ []
calls_of now Opcode.reconstruct_op params =
    reconstruct_call now (param_str params (str "vector_id") []) (settlement_of params) ∷ []
calls_of now Opcode.certify_op params =
    certify_call now (param_str params (str "vector_id") []) ∷ []
calls_of now Opcode.query_op params = []

unfoldable pub session_of : (ℕ → ℕ → ℕ) → List Instruction → List Command
session_of now [] = []
session_of now (ins ∷ rest) =
    calls_of (now 0) ins.opcode ins.params ++ session_of (λ i. now (suc i)) rest

-- How an outcome ends, without its result.
abbrev pub ended : {A : Type 0} → Outcome A → Outcome (Unit {0})
ended (done a) = done tt
ended (failed e) = failed e
ended panicked = panicked

abbrev pub forgotten : {A : Type 0} → Outcome A × KernelEngine → Outcome (Unit {0}) × KernelEngine
forgotten (r, k) = (ended r, k)

-- Calls one after the other, to the first one that does not return; the rest is not made.
abbrev pub and_then :
    Outcome (Unit {0}) × KernelEngine
    → (KernelEngine → Outcome (Unit {0}) × KernelEngine)
    → Outcome (Unit {0}) × KernelEngine
and_then (done u, k) rest = rest k
and_then (failed e, k) rest = (failed e, k)
and_then (panicked, k) rest = (panicked, k)

-- What is computed from a result changes neither how it ends nor the engine.
bind-pure :
    {A B : Type 0} (m : Action A) (f : A → B) (k : KernelEngine)
    → forgotten ((m >>= λ a. pure (f a)) k) ≡ forgotten (m k)
unfolding ◌>>=◌
bind-pure m f k = by_outcome (m k).0 (m k).1
  where
    by_outcome :
        (r : Outcome _) (k' : KernelEngine)
        → forgotten (continue r (λ a. pure (f a)) k') ≡ forgotten (r, k')
    by_outcome (done a) k' = refl
    by_outcome (failed e) k' = refl
    by_outcome panicked k' = refl

module _ (ext : External) where
  pub run-append :
      (cs ds : List Command) (k : KernelEngine) → run ext (cs ++ ds) k ≡ run ext ds (run ext cs k)
  unfolding run
  run-append [] ds k = refl
  run-append (c ∷ cs) ds k = run-append cs ds (step ext c k)

  -- One call, with how it ends.
  unfoldable pub made : Command → KernelEngine → Outcome (Unit {0}) × KernelEngine
  made (certify_call now id) k = forgotten (certify ext now id k)
  made (origin_create_call now id owner space components seed nonce difficulty) k =
      forgotten (origin_create ext now id owner space components seed nonce difficulty k)
  made (transfer_call now from to amount) k = forgotten (transfer ext now from to amount k)
  made (drain_call now id basis_points) k = forgotten (drain ext now id basis_points k)
  made (project_call now id components escrow_id) k =
      forgotten (project ext now id components escrow_id k)
  made (reconstruct_call now id outcome) k = forgotten (reconstruct ext now id outcome k)
  made (create_region_call now request actor) k = forgotten (create_region ext now request actor k)

  unfoldable pub run_until : List Command → KernelEngine → Outcome (Unit {0}) × KernelEngine
  run_until [] k = (done tt, k)
  run_until (c ∷ cs) k = and_then (made c k) (run_until cs)

  and_then-done : (p : Outcome (Unit {0}) × KernelEngine) → and_then p (λ k. (done tt, k)) ≡ p
  and_then-done (done u, k) = refl
  and_then-done (failed e, k) = refl
  and_then-done (panicked, k) = refl

  -- One instruction does what its calls do, and ends as they end.
  execute-run_until :
      (now : ℕ → ℕ) (op : Opcode) (params : Value) (k : KernelEngine)
      → forgotten (execute ext now op params k) ≡ run_until (calls_of now op params) k
  unfolding execute calls_of run_until made
  execute-run_until now Opcode.origin_create_op params k = bind-pure _ _ k ∙ sym (and_then-done _)
  execute-run_until now Opcode.transfer_op params k = bind-pure _ _ k ∙ sym (and_then-done _)
  execute-run_until now Opcode.drain_op params k = bind-pure _ _ k ∙ sym (and_then-done _)
  execute-run_until now Opcode.project_op params k = bind-pure _ _ k ∙ sym (and_then-done _)
  execute-run_until now Opcode.reconstruct_op params k = bind-pure _ _ k ∙ sym (and_then-done _)
  execute-run_until now Opcode.certify_op params k = bind-pure _ _ k ∙ sym (and_then-done _)
  execute-run_until now Opcode.query_op params k = bind-pure _ _ k

  run_until-append :
      (cs ds : List Command) (k : KernelEngine)
      → run_until (cs ++ ds) k ≡ and_then (run_until cs k) (run_until ds)
  unfolding run_until
  run_until-append [] ds k = refl
  run_until-append (c ∷ cs) ds k = by_call (made c k) (run_until-append cs ds)
    where
      by_call :
          (p : Outcome (Unit {0}) × KernelEngine)
          → ((k : KernelEngine) → run_until (cs ++ ds) k ≡ and_then (run_until cs k) (run_until ds))
          → and_then p (run_until (cs ++ ds)) ≡ and_then (and_then p (run_until cs)) (run_until ds)
      by_call (done u, k') rest = rest k'
      by_call (failed e, k') rest = refl
      by_call (panicked, k') rest = refl

  -- What follows an action follows it only where it returns.
  bind-and_then :
      {A B : Type 0} (m : Action A) (f : A → Action B) (k : KernelEngine)
      (rest : KernelEngine → Outcome (Unit {0}) × KernelEngine)
      → ((a : A) (k' : KernelEngine) → forgotten (f a k') ≡ rest k')
      → forgotten ((m >>= f) k) ≡ and_then (forgotten (m k)) rest
  unfolding ◌>>=◌
  bind-and_then m f k rest all = by_outcome (m k).0 (m k).1
    where
      by_outcome :
          (r : Outcome _) (k' : KernelEngine)
          → forgotten (continue r f k') ≡ and_then (forgotten (r, k')) rest
      by_outcome (done a) k' = all a k'
      by_outcome (failed e) k' = refl
      by_outcome panicked k' = refl

  execute_all-Refines :
      (instructions : List Instruction) (now : ℕ → ℕ → ℕ) (k : KernelEngine)
      → forgotten (execute_all ext now instructions k) ≡ run_until (session_of now instructions) k
  unfolding session_of execute_all run_until
  execute_all-Refines [] now k = refl
  execute_all-Refines (ins ∷ rest) now k =
      let later = session_of (λ i. now (suc i)) rest in
      let calls = calls_of (now 0) ins.opcode ins.params in
      bind-and_then (execute ext (now 0) ins.opcode ins.params) _ k (run_until later)
        (λ result k'. bind-pure _ _ k' ∙ execute_all-Refines rest (λ i. now (suc i)) k')
      ∙ (ap (λ p. and_then p (run_until later)) (execute-run_until (now 0) ins.opcode ins.params k)
          ∙ sym (run_until-append calls later k))

  -- A script that parses leaves the engine that the calls of its instructions leave, made in their
  -- order to the first one that fails or panics and no further, and it ends as they do: with a
  -- result, with the same error, or with a panic.
  pub execute_script-Refines :
      (now : ℕ → ℕ → ℕ) (script : Str) (instructions : List Instruction) (k : KernelEngine)
      → parse_script ext script ≡ ok instructions
      → forgotten (execute_script ext now script k) ≡ run_until (session_of now instructions) k
  unfolding execute_script ◌>>=◌
  execute_script-Refines now script instructions k parsed =
      rw parsed (execute_all-Refines instructions now k)
