-- ===== src/Vm/GasUse.antt =====
-- What a turn of the loop of `VM::execute` costs.
use zkmips_zkvm_impl_in_rust.Base.{
  ℕ, ◌+◌, ◌≤◌, ◌≡◌, ◌∙◌, sym, refl, Bool, List, some, ok, err, arith, get_elem?,
}
use native.Mathlib.Decide.{dec_le}
use zkmips_zkvm_impl_in_rust.Base.Keeps.{Keeps, IsPreorder}
use zkmips_zkvm_impl_in_rust.Vm.Value.{invalid_opcode, ContractData, contract_data}
use zkmips_zkvm_impl_in_rust.Vm.Gas.{gas_cost}
use zkmips_zkvm_impl_in_rust.Vm.Context.{ExecutionContext}
use zkmips_zkvm_impl_in_rust.Vm.Step.{
  next, step, decode, exec_instr, Instr, i_push, i_add, i_mul, i_store, i_load, i_create, i_call,
  i_return, i_sha3, i_balance, i_stop, i_invalid, op_push, op_add, op_mul, op_store, op_load,
  op_create, op_call, op_return, op_sha3, op_balance, push_frame, pop_address, pop_int,
}
use zkmips_zkvm_impl_in_rust.Vm.Loop.{op_call-Keeps}
use zkmips_zkvm_impl_in_rust.Vm.Turn.{paid, step_unpaid, step-paid}

-- What an arm charges on top.
abbrev pub extra : ExecutionContext → Instr → ℕ
extra c i_create = c.gas_config.contract_creation
extra c _ = 0

abbrev SameGas : ExecutionContext → ExecutionContext → Type 0
SameGas c d = d.gas_remaining ≡ c.gas_remaining

abbrev same_gas : IsPreorder SameGas
same_gas = record { refl = λ c. refl; trans = λ c d e p q. q ∙ p }

push_frame-SameGas : (a : List ℕ) (v g : ℕ) (d : ContractData) → Keeps SameGas (push_frame a v g d)
unfolding push_frame
push_frame-SameGas a v g (contract_data code storage balance) = record { at = λ c. refl }

op_call-SameGas : Keeps SameGas op_call
unfolding pop_address pop_int
op_call-SameGas =
    op_call-Keeps same_gas (record { at = λ c. ground arith }) (record { at = λ c. ground arith })
      push_frame-SameGas (record { at = λ c. refl })

module _ (h : List ℕ → List ℕ) (checks : Bool) (p : List ℕ) where
  exec_instr-gas :
      (i : Instr) (c d : ExecutionContext)
      → exec_instr h checks p i c ≡ (ok next, d)
      → d.gas_remaining + extra c i ≡ c.gas_remaining
  unfolding exec_instr op_push op_add op_mul op_store op_load op_create op_return op_sha3 op_balance
  exec_instr-gas i_push c d e = ground arith
  exec_instr-gas i_add c d e = ground arith
  exec_instr-gas i_mul c d e = ground arith
  exec_instr-gas i_store c d e = ground arith
  exec_instr-gas i_load c d e = ground arith
  exec_instr-gas i_create c d e = ground arith
  exec_instr-gas i_call c d e = ground (arith, op_call-SameGas.at c)
  exec_instr-gas i_return c d e = ground arith
  exec_instr-gas i_sha3 c d e = ground arith
  exec_instr-gas i_balance c d e = ground arith
  exec_instr-gas i_stop c d e = ground arith
  exec_instr-gas (i_invalid o) c d e = ground arith

  -- A turn that goes on takes from the gas the cost of the opcode at the program counter, and for
  -- CREATE the creation cost as well, and nothing else.
  pub step_gas :
      (c d : ExecutionContext) (o : ℕ)
      → get_elem? p c.program_counter ≡ some o
      → step h checks p c ≡ (ok next, d)
      → d.gas_remaining + extra c (decode o) + gas_cost c.gas_config o ≡ c.gas_remaining
  step_gas c d o x e = elim (dec_le (gas_cost c.gas_config o) c.gas_remaining) [
    | yes g ↦ omega (
      arith,
      exec_instr-gas (decode o) (paid c (gas_cost c.gas_config o)) d
          (sym (step-paid h checks p c o x g) ∙ e),
      extra_paid (decode o),
    )
    | no g ↦ cc (step_unpaid h checks p c o x (omega arith))
  ]
    where
      extra_paid : (i : Instr) → extra (paid c (gas_cost c.gas_config o)) i ≡ extra c i
      extra_paid i_create = refl
      extra_paid i = refl

  -- JUMP, JUMPI, EQ, LT and GT are in the gas schedule and not in the machine: the turn charges
  -- for them and fails.
  pub step_unsupported :
      (c : ExecutionContext) (o : ℕ)
      → 0x06 ≤ o
      → o ≤ 0x0A
      → get_elem? p c.program_counter ≡ some o
      → gas_cost c.gas_config o ≤ c.gas_remaining
      → step h checks p c ≡ (err (invalid_opcode o), paid c (gas_cost c.gas_config o))
  unfolding exec_instr decode
  step_unsupported c o lo hi x g = step-paid h checks p c o x g ∙ ground arith
