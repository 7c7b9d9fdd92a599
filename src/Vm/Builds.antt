-- ===== src/Vm/Builds.antt =====
-- The two builds of the machine: with overflow checks and without.
use zkmips_zkvm_impl_in_rust.Base.{
  ℕ, zero, suc, ◌<◌, ◌≡◌, ◌≢◌, ◌∙◌, sym, refl, true, false, List, some, ltb, length, Outcome, ok,
  err, panic, arith, inl, inr, Bool-cases, ap,
}
use zkmips_zkvm_impl_in_rust.Base.Word.{add_i64, mul_i64, add_usize}
use zkmips_zkvm_impl_in_rust.Vm.Value.{VmError}
use zkmips_zkvm_impl_in_rust.Vm.Gas.{gas_cost}
use zkmips_zkvm_impl_in_rust.Vm.Context.{ExecutionContext}
use zkmips_zkvm_impl_in_rust.Vm.Step.{
  Flow, next, stop, step, decode, exec_instr, Instr, i_add, i_mul, i_create, i_return, i_sha3,
  op_add, op_mul, op_create, op_return, op_sha3,
}
use zkmips_zkvm_impl_in_rust.Vm.Turn.{paid, step_past, step_unpaid, step-paid, step_cases}
use zkmips_zkvm_impl_in_rust.Vm.Run.{Vm, run, execute, conclude}
use zkmips_zkvm_impl_in_rust.Vm.Loop.{execute_inv}

module _ (h : List ℕ → List ℕ) (p : List ℕ) where
  exec_instr-builds :
      (i : Instr) (c : ExecutionContext)
      → (exec_instr h true p i c).0 ≢ panic
      → exec_instr h false p i c ≡ exec_instr h true p i c
  unfolding exec_instr op_add op_mul op_create op_return op_sha3 add_i64 mul_i64 add_usize
  exec_instr-builds i_add c n = ground arith
  exec_instr-builds i_mul c n = ground arith
  exec_instr-builds i_create c n = ground arith
  exec_instr-builds i_return c n = ground arith
  exec_instr-builds i_sha3 c n = ground arith
  exec_instr-builds i c n = refl

  step-builds :
      (c : ExecutionContext) → (step h true p c).0 ≢ panic → step h false p c ≡ step h true p c
  step-builds c n =
      step_cases h true p c (step h false p c ≡ step h true p c)
        (λ x. step_past h false p c x ∙ sym (step_past h true p c x))
        (λ o x g. step_unpaid h false p c o x g ∙ sym (step_unpaid h true p c o x g))
        (λ o x g.
          step-paid h false p c o x g
          ∙ exec_instr-builds (decode o) (paid c (gas_cost c.gas_config o))
              (λ e. n (ap (λ r. r.0) (step-paid h true p c o x g) ∙ e))
          ∙ sym (step-paid h true p c o x g))

  run_on-builds :
      (fuel : ℕ) (c d e : ExecutionContext) (r : Outcome VmError Flow) (q : Outcome VmError Unit)
      → c.program_counter < length p
      → step h true p c ≡ (r, d)
      → run h true p (suc fuel) c ≡ some (q, e)
      → q ≢ panic
      → (run h true p fuel d ≡ some (q, e) → run h false p fuel d ≡ some (q, e))
      → run h false p (suc fuel) c ≡ some (q, e)
  unfolding run
  run_on-builds fuel c d e (ok next) q lt s x n more = ground (arith, step-builds c, more)
  run_on-builds fuel c d e (ok stop) q lt s x n more = ground (arith, step-builds c)
  run_on-builds fuel c d e (err y) q lt s x n more = ground (arith, step-builds c)
  run_on-builds fuel c d e panic q lt s x n more = ground (arith, step-builds c)

  run-builds :
      (fuel : ℕ) (c e : ExecutionContext) (q : Outcome VmError Unit)
      → run h true p fuel c ≡ some (q, e)
      → q ≢ panic
      → run h false p fuel c ≡ some (q, e)
  unfolding run
  run-builds zero c e q x n = cc
  run-builds (suc fuel) c e q x n = elim (Bool-cases (ltb c.program_counter (length p))) [
    | inl more ↦
        run_on-builds fuel c (step h true p c).1 e (step h true p c).0 q (ground arith) refl x n
          (λ y. run-builds fuel (step h true p c).1 e q y n)
    | inr done ↦ ground arith
  ]

conclude-panic :
    (h : List ℕ → List ℕ) (v w : Vm) (r q : Outcome VmError Unit) (c : ExecutionContext)
    → conclude h v r c ≡ (q, w)
    → q ≢ panic
    → r ≢ panic
conclude-panic h v w (ok x) q c e n = λ z. cc
conclude-panic h v w (err x) q c e n = λ z. cc
conclude-panic h v w panic q c e n = λ z. n (ground arith)

-- A run that does not panic in the build with overflow checks is the run of the build without.
pub execute_builds :
    (h : List ℕ → List ℕ) (v w : Vm) (q : Outcome VmError Unit)
    → execute h true v ≡ some (q, w)
    → q ≢ panic
    → execute h false v ≡ some (q, w)
unfolding execute
execute_builds h v w q e n =
    let (r, c, x, y) = execute_inv h true v w q e in
    ground (arith, run-builds h v.program _ _ _ _ x (conclude-panic h v w r q c y n))
