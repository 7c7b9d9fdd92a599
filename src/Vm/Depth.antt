-- ===== src/Vm/Depth.antt =====
-- The stack of the machine never holds more than 1024 values: only PUSH makes it deeper.
use zkmips_zkvm_impl_in_rust.Base.{
  ℕ, ◌≤◌, ◌≡◌, Bool, List, some, length, Outcome, ok, err, panic, arith,
}
use zkmips_zkvm_impl_in_rust.Base.Keeps.{Keeps, IsPreorder, Keeps-bind}
use zkmips_zkvm_impl_in_rust.Vm.Value.{VmError, ContractData, contract_data}
use zkmips_zkvm_impl_in_rust.Vm.Context.{ExecutionContext, use_gas, compute_state_root}
use zkmips_zkvm_impl_in_rust.Vm.Run.{Vm, execute, conclude}
use zkmips_zkvm_impl_in_rust.Vm.Loop.{step-Keeps, op_call-Keeps, run-keeps, execute_inv}
use zkmips_zkvm_impl_in_rust.Vm.Step.{
  exec_instr, Instr, i_push, i_add, i_mul, i_store, i_load, i_create, i_call, i_return, i_sha3,
  i_balance, i_stop, i_invalid, op_push, op_add, op_mul, op_store, op_load, op_create, op_call,
  op_return, op_sha3, op_balance, pop_int, pop_address, push_frame,
}

pub record Bounded (c d : ExecutionContext) : Type 0 where
  pub held : length c.stack ≤ 1024 → length d.stack ≤ 1024

abbrev pub order : IsPreorder Bounded
order = record {
  refl = λ c. record { held = λ b. b };
  trans = λ c d e p q. record { held = λ b. q.held (p.held b) };
}

pop_int-Bounded : Keeps Bounded pop_int
unfolding pop_int
pop_int-Bounded = record { at = λ c. ground arith }

pop_address-Bounded : Keeps Bounded pop_address
unfolding pop_address
pop_address-Bounded = record { at = λ c. ground arith }

push_frame-Bounded : (a : List ℕ) (v g : ℕ) (d : ContractData) → Keeps Bounded (push_frame a v g d)
unfolding push_frame
push_frame-Bounded a v g (contract_data code storage balance) = record { at = λ c. ground arith }

op_call-Bounded : Keeps Bounded op_call
op_call-Bounded =
    op_call-Keeps order pop_address-Bounded pop_int-Bounded push_frame-Bounded
      (record { at = λ c. ground arith })

module _ (h : List ℕ → List ℕ) (checks : Bool) (p : List ℕ) where
  exec_instr-Bounded : (i : Instr) → Keeps Bounded (exec_instr h checks p i)
  unfolding exec_instr op_push op_add op_mul op_store op_load op_create op_return op_sha3 op_balance
  exec_instr-Bounded i_push = record { at = λ c. ground arith }
  exec_instr-Bounded i_add = record { at = λ c. ground arith }
  exec_instr-Bounded i_mul = record { at = λ c. ground arith }
  exec_instr-Bounded i_store = record { at = λ c. ground arith }
  exec_instr-Bounded i_load = record { at = λ c. ground arith }
  exec_instr-Bounded i_create = record { at = λ c. ground arith }
  exec_instr-Bounded i_call = Keeps-bind order op_call-Bounded λ _. record { at = order.refl }
  exec_instr-Bounded i_return = record { at = λ c. ground arith }
  exec_instr-Bounded i_sha3 = record { at = λ c. ground arith }
  exec_instr-Bounded i_balance = record { at = λ c. ground arith }
  exec_instr-Bounded i_stop = record { at = λ c. ground arith }
  exec_instr-Bounded (i_invalid o) = record { at = λ c. ground arith }

  use_gas-Bounded : (n : ℕ) → Keeps Bounded (use_gas n)
  unfolding use_gas
  use_gas-Bounded n = record { at = λ c. ground arith }

  conclude-depth :
      (v w : Vm) (r q : Outcome VmError Unit) (c : ExecutionContext)
      → length c.stack ≤ 1024
      → conclude h v r c ≡ (q, w)
      → length w.context.stack ≤ 1024
  unfolding compute_state_root
  conclude-depth v w (ok x) q c b e = ground arith
  conclude-depth v w (err x) q c b e = ground arith
  conclude-depth v w panic q c b e = ground arith

-- From at most 1024 values on the stack, `VM::execute` ends with at most 1024 however it ends, though only
-- PUSH looks at the depth.
pub execute_depth :
    (h : List ℕ → List ℕ) (checks : Bool) (v w : Vm) (q : Outcome VmError Unit)
    → length v.context.stack ≤ 1024
    → execute h checks v ≡ some (q, w)
    → length w.context.stack ≤ 1024
execute_depth h checks v w q b e =
    let (r, c, x, y) = execute_inv h checks v w q e in
    let s =
      step-Keeps h checks v.program order (use_gas-Bounded h checks v.program)
        (exec_instr-Bounded h checks v.program) in
    conclude-depth h checks v.program v w r q c
      ((run-keeps h checks v.program order s _ _ _ _ x).held b) y
