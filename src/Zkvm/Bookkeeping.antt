-- ===== src/Zkvm/Bookkeeping.antt =====
-- What `ZKVM` records of a run, and how often it proves.
use zkmips_zkvm_impl_in_rust.Base.{
  ℕ, ◌+◌, ◌≤◌, ◌≡◌, true, false, List, [], ◌∷◌, ◌++◌, Option, some, ok, err, arith, Eq,
  Option-cases, inl, inr,
}
use zkmips_zkvm_impl_in_rust.Vm.Value.{Value, int}
use zkmips_zkvm_impl_in_rust.Vm.Expr.{Expr, code, value, cost, depth}
use zkmips_zkvm_impl_in_rust.Vm.Expr.Correct.{execute_expr}
use zkmips_zkvm_impl_in_rust.Proof
use zkmips_zkvm_impl_in_rust.Proof.{ProofData, Backend, ProofCache, prove}
use zkmips_zkvm_impl_in_rust.Zkvm.{
  Zkvm, ExecutionStep, circuit_already_consumed, new, execute, executed, get_gas_used,
  get_execution_trace, generate_proof, default_state, verify_proof,
}

-- The stacks that the trace shows.
abbrev pub stacks : List ExecutionStep → List (List Value)
stacks [] = []
stacks (step ∷ steps) = step.stack_snapshot ∷ stacks steps

module _ {Circuit C : Type 0} where
  -- After an arithmetic program within the depth and the gas of a new machine, without overflow
  -- checks, `get_gas_used` answers the gas that is left, not what the program took, which counts the base
  -- price of 2 for the STOP, an opcode that the schedule does not list; and the trace
  -- has one step, whose stack is the value of the expression, for the whole run.
  pub gas_used_is_left :
      (h : List ℕ → List ℕ) (make_circuit : List ℕ → Circuit) (empty_cache : C) (e : Expr)
      → depth e ≤ 1024
      → cost e + 2 ≤ 1_000_000
      → (z : Zkvm Circuit C) × (execute h false
            (new make_circuit empty_cache (code e ++ (0xFF ∷ [])))
          ≡ some (ok tt, z))
        × (get_gas_used z + (cost e + 2) ≡ 1_000_000)
        × (stacks (get_execution_trace z) ≡ (int (value e) ∷ []) ∷ [])
  unfolding execute new default_state get_gas_used get_execution_trace
  gas_used_is_left h make_circuit empty_cache e d le =
      let (w, run, stack, gas) = execute_expr h e d le in
      let z : Zkvm Circuit C =
        (executed (ok tt, w) (new make_circuit empty_cache (code e ++ (0xFF ∷ [])))).1 in
      (z, ground (arith, run), ground (arith, gas), ground (arith, stack))

module _ {Circuit F P C : Type 0} ⦃same : Eq P⦄ (b : Backend F P) (cache : ProofCache P C) where
  -- A proof is tried once: whatever the first call answered, the next one says that the circuit is
  -- consumed, and changes nothing.
  pub generate_proof_once :
      (first second : Circuit → Option P) (z : Zkvm Circuit C)
      → generate_proof b cache second (generate_proof b cache first z).1
        ≡ (err circuit_already_consumed, (generate_proof b cache first z).1)
  unfolding generate_proof
  generate_proof_once first second z = ground arith

  -- The proof that a call makes is accepted by the same object.
  pub generate_proof-verify_proof :
      (create : Circuit → Option P) (z w : Zkvm Circuit C) (d : ProofData F P)
      → generate_proof b cache create z ≡ (ok d, w)
      → verify_proof b cache w d ≡ some true
  unfolding generate_proof verify_proof Proof.prove Proof.verify Proof.collect_public_inputs
  generate_proof-verify_proof create z w d e = elim (Option-cases z.circuit) [
    | inl used ↦ absurd (ground arith)
    | inr (circuit, q) ↦ elim (Option-cases (create circuit)) [
      | inl failed ↦ absurd (ground arith)
      | inr (p, r) ↦
          ground (arith, cache.get-put (Proof.hash_proof b p []) p z.proof_cache, same.beq_iff p p)
    ]
  ]
