-- ===== src/Vm/Loop.antt =====
-- What every turn of the loop of `VM::execute` keeps, the whole call keeps.
use zkmips_zkvm_impl_in_rust.Base.{
  ℕ, zero, suc, ◌<◌, ◌≡◌, refl, subst, Option-cases, Bool, List, some, ltb, length, Outcome, ok,
  err, panic, arith, inl, inr, Bool-cases,
}
use zkmips_zkvm_impl_in_rust.Base.Keeps.{Keeps, IsPreorder, Keeps-bind, Keeps-lift}
use zkmips_zkvm_impl_in_rust.Vm.Value.{VmError, ContractData}
use zkmips_zkvm_impl_in_rust.Vm.Context.{ExecutionContext, use_gas}
use zkmips_zkvm_impl_in_rust.Vm.Gas.{gas_cost}
use zkmips_zkvm_impl_in_rust.Vm.Step.{
  Flow, next, stop, step, Instr, exec_instr, decode, index, gets, pop_int, pop_address, push_frame,
  advance, op_call, contract_at,
}
use zkmips_zkvm_impl_in_rust.Vm.Run.{Vm, run, execute, conclude}

pub Keeps-gets :
    {R : ExecutionContext → ExecutionContext → Type 0} (o : IsPreorder R) {A : Type 0}
    (f : ExecutionContext → A)
    → Keeps R (gets f)
Keeps-gets o f = record { at = o.refl }

-- CALL changes the machine by its pops, the new frame and the program counter.
pub op_call-Keeps :
    {R : ExecutionContext → ExecutionContext → Type 0} (o : IsPreorder R)
    → Keeps R pop_address
    → Keeps R pop_int
    → ((a : List ℕ) (v g : ℕ) (d : ContractData) → Keeps R (push_frame a v g d))
    → Keeps R (advance 1)
    → Keeps R op_call
unfolding op_call contract_at
op_call-Keeps o addr num frame adv = Keeps-bind o addr λ t. Keeps-bind o num λ v.
    Keeps-bind o num λ g.
      Keeps-bind o {m = contract_at t} (record { at = o.refl })
        λ d. Keeps-bind o (frame t v g d) λ _. adv

-- A relation that the gas meter and every arm keep is kept by a turn.
pub step-Keeps :
    (h : List ℕ → List ℕ) (checks : Bool) (p : List ℕ)
    {R : ExecutionContext → ExecutionContext → Type 0} (o : IsPreorder R)
    → ((n : ℕ) → Keeps R (use_gas n))
    → ((i : Instr) → Keeps R (exec_instr h checks p i))
    → Keeps R (step h checks p)
unfolding step
step-Keeps h checks p o gas instr = Keeps-bind o (Keeps-gets o (λ c. c.program_counter)) λ pc.
    Keeps-bind o (Keeps-lift o (index p pc)) λ opcode.
      Keeps-bind o (Keeps-gets o (λ c. c.gas_config))
        λ g. Keeps-bind o (gas (gas_cost g opcode)) λ _. instr (decode opcode)

module _ (h : List ℕ → List ℕ) (checks : Bool) (p : List ℕ)
    {R : ExecutionContext → ExecutionContext → Type 0} (o : IsPreorder R)
    (keep : Keeps R (step h checks p)) where
  run_on :
      (fuel : ℕ) (c d e : ExecutionContext) (r : Outcome VmError Flow) (q : Outcome VmError Unit)
      → c.program_counter < length p
      → step h checks p c ≡ (r, d)
      → run h checks p (suc fuel) c ≡ some (q, e)
      → (run h checks p fuel d ≡ some (q, e) → R d e)
      → R c e
  unfolding run
  run_on fuel c d e (ok next) q lt s x more =
      o.trans c d e (ground (arith, keep.at c)) (more (ground arith))
  run_on fuel c d e (ok stop) q lt s x more = ground (arith, keep.at c)
  run_on fuel c d e (err y) q lt s x more = ground (arith, keep.at c)
  run_on fuel c d e panic q lt s x more = ground (arith, keep.at c)

  pub run-keeps :
      (fuel : ℕ) (c e : ExecutionContext) (q : Outcome VmError Unit)
      → run h checks p fuel c ≡ some (q, e)
      → R c e
  unfolding run
  run-keeps zero c e q x = cc
  run-keeps (suc fuel) c e q x = elim (Bool-cases (ltb c.program_counter (length p))) [
    | inl more ↦
        run_on fuel c (step h checks p c).1 e (step h checks p c).0 q (ground arith) refl x
          (run-keeps fuel (step h checks p c).1 e q)
    | inr done ↦ subst (R c) (ground (arith, x)) (o.refl c)
  ]

-- A call of `execute` that returns comes from a loop that returns.
pub execute_inv :
    (h : List ℕ → List ℕ) (checks : Bool) (v w : Vm) (q : Outcome VmError Unit)
    → execute h checks v ≡ some (q, w)
    → (r : Outcome VmError Unit) × (c : ExecutionContext) × (run h checks v.program
          (suc (length v.program))
          v.context
        ≡ some (r, c))
      × (conclude h v r c ≡ (q, w))
unfolding execute
execute_inv h checks v w q e =
    elim (Option-cases (run h checks v.program (suc (length v.program)) v.context)) [
      | inl x ↦ absurd (ground arith)
      | inr ((r, c), x) ↦ (r, c, x, ground arith)
    ]
